-- ===== src/Instances/Texts.antt =====
-- hcloud/instances.go: the texts of the addresses in a list.
use hcloud_cloud_controller.Common.{
  text_iff, String, true, false, List, [], ◌∷◌, ◌++◌, ◌≡◌, ◌⊎◌, ◌↔◌, inl, inr, refl, sym,
  Bool-cases, arith, ◌==◌, Eq-string,
}
use hcloud_cloud_controller.Kube.{
  NodeAddress, AddressType, host_name, internal_ip, external_ip, other_type,
}
use hcloud_cloud_controller.Hcops.Targets.{is_internal_ip}
use hcloud_cloud_controller.Instances.Data.{Network}
use hcloud_cloud_controller.Instances.Addresses.{has_address}

-- An address of the list has the text.
abbrev pub Has : String → List NodeAddress → Type 0
Has t [] = ⊥
Has t (a ∷ as') = (t ≡ a.address) ⊎ Has t as'

-- An internal address of the list has the text.
abbrev pub HasInternal : String → List NodeAddress → Type 0
HasInternal t [] = ⊥
HasInternal t (a ∷ as') = ((a.type ≡ internal_ip) × (t ≡ a.address)) ⊎ HasInternal t as'

-- No text is there twice.
abbrev pub Distinct : List NodeAddress → Type 0
Distinct [] = Unit
Distinct (a ∷ as') = (Has a.address as' → ⊥) × Distinct as'

pub is_internal_iff : (ty : AddressType) → (is_internal_ip ty ≡ true) ↔ (ty ≡ internal_ip)
unfolding is_internal_ip
is_internal_iff internal_ip = (λ h. refl, λ h. refl)
is_internal_iff host_name = (λ h. absurd cc, λ h. absurd cc)
is_internal_iff external_ip = (λ h. absurd cc, λ h. absurd cc)
is_internal_iff other_type = (λ h. absurd cc, λ h. absurd cc)

module _ (net : Network) where
  pub has_address-Has :
      (t : String) (as' : List NodeAddress) → has_address net t as' ≡ true → Has t as'
  unfolding has_address
  has_address-Has t [] h = absurd cc
  has_address-Has t (a ∷ as') h = elim (Bool-cases (t == a.address)) [
    | inl same ↦ inl ((text_iff t a.address).0 same)
    | inr other ↦ inr (has_address-Has t as' (let h' = rw other at h in h'))
  ]

  pub has_address-none :
      (t : String) (as' : List NodeAddress) → has_address net t as' ≡ false → Has t as' → ⊥
  unfolding has_address
  has_address-none t [] h l = l
  has_address-none t (a ∷ as') h (inl e) =
      let same = (text_iff t a.address).1 e in (let h' = rw same at h in absurd cc)
  has_address-none t (a ∷ as') h (inr l) = has_address-none t as' (ground arith) l

pub Has-append :
    (t : String) (as' : List NodeAddress) (a : NodeAddress)
    → Has t (as' ++ a ∷ []) ↔ (Has t as' ⊎ (t ≡ a.address))
Has-append t [] a =
    (λ h. elim h [ inl e ↦ inr e | inr n ↦ inl n ], λ h. elim h [ inl n ↦ inr n | inr e ↦ inl e ])
Has-append t (b ∷ as') a =
    let (to, from) = Has-append t as' a in
    (
      λ h. elim h [
        | inl e ↦ inl (inl e)
        | inr l ↦ elim (to l) [ inl k ↦ inl (inr k) | inr e ↦ inr e ]
      ],
      λ h. elim h [
        | inl (inl e) ↦ inl e
        | inl (inr k) ↦ inr (from (inl k))
        | inr e ↦ inr (from (inr e))
      ],
    )

pub Distinct-append :
    (as' : List NodeAddress) (a : NodeAddress)
    → Distinct as'
    → (Has a.address as' → ⊥)
    → Distinct (as' ++ a ∷ [])
Distinct-append [] a d fresh = (λ h. h, tt)
Distinct-append (b ∷ as') a (first, d) fresh = (
  λ h. elim ((Has-append b.address as' a).0 h) [ inl l ↦ first l | inr e ↦ fresh (inl (sym e)) ],
  Distinct-append as' a d (λ l. fresh (inr l)),
)

-- A skipped address that is not new, and one that is added.
pub skip_iff : {X A H K F : Type 0} → X ↔ (A ⊎ (K × F)) → (H → F → A) → X ↔ (A ⊎ ((H ⊎ K) × F))
skip_iff (to, from) known = (
  λ x. elim (to x) [ inl a ↦ inl a | inr (k, f) ↦ inr (inr k, f) ],
  λ h. elim h [
    | inl a ↦ from (inl a)
    | inr (inl h', f) ↦ from (inl (known h' f))
    | inr (inr k, f) ↦ from (inr (k, f))
  ],
)

pub take_iff :
    {X A B N H K F : Type 0}
    → X ↔ (B ⊎ (K × F))
    → B ↔ (A ⊎ N)
    → (H → N)
    → (N → H × F)
    → X ↔ (A ⊎ ((H ⊎ K) × F))
take_iff (to, from) (split, join) new back = (
  λ x. elim (to x) [
    | inl b ↦ elim (split b) [ inl a ↦ inl a | inr n ↦ inr (inl (back n).0, (back n).1) ]
    | inr (k, f) ↦ inr (inr k, f)
  ],
  λ h. elim h [
    | inl a ↦ from (inl (join (inl a)))
    | inr (inl h', f) ↦ from (inl (join (inr (new h'))))
    | inr (inr k, f) ↦ from (inr (k, f))
  ],
)
