-- ===== src/Cloud/Attached.antt =====
-- hcloud/cloud.go: the network that `NewCloud` finds, and the check that this server is attached to it.
use hcloud_cloud_controller.Common.{
  ℤ, pos, Bool, true, Option, none, some, [], ◌∷◌, ◌++◌, ◌≡◌, ◌⊎◌, refl, ap, nat_eq_iff,
  if◌then◌else◌, Result, ok, err, ◌>>=◌, pure, fail, Bool-cases, inl, inr, Returns, Returns-weaken,
  arith, ◌==◌, Eq-string, text_iff, String,
}
use hcloud_cloud_controller.ProviderId.{Bytes, codes, format_int, has_prefix}
use hcloud_cloud_controller.Robot.RateLimit.{contains}
use hcloud_cloud_controller.Config.{NetworkConfiguration}
use hcloud_cloud_controller.Config.Reading.{Environment}
use hcloud_cloud_controller.Cloud.{
  StartClient, not_attached, lift, find_network, found_network, check_attached,
  server_is_attached_to_network, network_entry,
}

has_prefix-split : (s p : Bytes) → has_prefix s p ≡ true → (post : Bytes) × (s ≡ p ++ post)
unfolding has_prefix
has_prefix-split s [] h = (s, refl)
has_prefix-split [] (c ∷ p) h = absurd cc
has_prefix-split (d ∷ s) (c ∷ p) h =
    let (post, e) = has_prefix-split s p (ground arith) in
    let same : c ≡ d = (nat_eq_iff c d).0 (ground arith) in (post, rw (same, e) refl)

-- The text has the part somewhere.
abbrev pub HasPart : Bytes → Bytes → Type 0
HasPart s p = (before after : Bytes) × (s ≡ before ++ (p ++ after))

contains-HasPart : (s p : Bytes) → contains s p ≡ true → HasPart s p
unfolding contains
contains-HasPart [] p h = let (post, e) = has_prefix-split [] p h in ([], post, e)
contains-HasPart (c ∷ s) p h = elim (Bool-cases (has_prefix (c ∷ s) p)) [
  | inl here ↦ let (post, e) = has_prefix-split (c ∷ s) p here in ([], post, e)
  | inr there ↦
      let (before, after, e) = contains-HasPart s p (let h' = rw there at h in h') in
      (c ∷ before, after, ap (λ t. c ∷ t) e)
]

module _ {W E : Type 0} (client : StartClient W E) where
  -- The metadata of this server, read in the state, names the network.
  abbrev pub IsAttached : ℤ → W → Type 0
  IsAttached id w =
      (text : Bytes) × (v : W) × (client.private_networks w ≡ (ok text, v))
      × HasPart text (codes "network_id: " ++ format_int id ++ 10 ∷ [])

  -- The ID is zero without a configured network; otherwise the API gave it for the configured name, and
  -- this server is attached to the network if that is to be checked.
  abbrev pub IsNetwork : NetworkConfiguration → ℤ → Type 0
  IsNetwork network id =
      ((network.name_or_id ≡ "") × (id ≡ pos 0))
      ⊎ ((w v : W) × (client.get_network network.name_or_id w ≡ (ok (some id), v))
          × (network.attached_check_enabled ≡ true → IsAttached id v))

  module _ (env : Environment) (trim_space to_lower : String → String)
      (is_cidr : String → Bool) where
    attached-IsAttached :
        (id : ℤ) (w : W) (y : Result E Bytes × W)
        → client.private_networks w ≡ y
        → Returns
            (λ x _. (x ≡ id) × IsAttached id w)
            ((lift env trim_space to_lower is_cidr client (λ _. y)
                >>= (λ networks. pure (contains networks (network_entry id)))
                >>= (λ attached. if attached then pure id else fail not_attached))
              w)
    unfolding lift
    attached-IsAttached id w (err a, v) e = tt
    attached-IsAttached id w (ok text, v) e = elim (Bool-cases (contains text (network_entry id))) [
      | inl found ↦ rw found (refl, (text, v, e, contains-HasPart text (network_entry id) found))
      | inr missing ↦ rw missing tt
    ]

    check_attached-IsAttached :
        (network : NetworkConfiguration) (id : ℤ) (w : W)
        → Returns
            (λ x _. (x ≡ id) × (network.attached_check_enabled ≡ true → IsAttached id w))
            (check_attached env trim_space to_lower is_cidr client network id w)
    unfolding check_attached server_is_attached_to_network
    check_attached-IsAttached network id w = elim (Bool-cases network.attached_check_enabled) [
      | inr off ↦ simp off (refl, λ on. absurd cc)
      | inl on ↦ simp on (
          Returns-weaken (λ x _. (x ≡ id) × IsAttached id w)
            (λ x _. (x ≡ id) × (true ≡ true → IsAttached id w)) _
            (attached-IsAttached id w (client.private_networks w) refl) (λ x v h. (h.0, λ _. h.1)))
    ]

    found-IsNetwork :
        (network : NetworkConfiguration) (w : W) (x : Result E (Option ℤ) × W)
        → client.get_network network.name_or_id w ≡ x
        → Returns
            (λ id _. IsNetwork network id)
            ((lift env trim_space to_lower is_cidr client (λ _. x)
                >>= found_network env trim_space to_lower is_cidr client network)
              w)
    unfolding lift found_network
    found-IsNetwork network w (err a, v) e = tt
    found-IsNetwork network w (ok none, v) e = tt
    found-IsNetwork network w (ok (some id), v) e =
        Returns-weaken (λ x _. (x ≡ id) × (network.attached_check_enabled ≡ true → IsAttached id v))
          (λ x _. IsNetwork network x)
          (check_attached env trim_space to_lower is_cidr client network id v)
          (check_attached-IsAttached network id v) (λ x u h. rw h.0 (inr (w, v, e, h.1)))

    pub find_network-IsNetwork :
        (network : NetworkConfiguration) (w : W)
        → Returns
            (λ id _. IsNetwork network id)
            (find_network env trim_space to_lower is_cidr client network w)
    unfolding find_network
    find_network-IsNetwork network w = elim (Bool-cases (network.name_or_id == "")) [
      | inl empty ↦ simp empty (inl ((text_iff network.name_or_id "").0 empty, refl))
      | inr named ↦
          simp named (found-IsNetwork network w (client.get_network network.name_or_id w) refl)
    ]
