-- ===== src/Instances/Forwarding.antt =====
-- hcloud/instances.go: the addresses that `robotNodeAddresses` reports, and only these, each once.
use Prim.Native.String.{◌++◌ as text_append}
use hcloud_cloud_controller.Common.{
  text_iff, String, Bool, true, false, List, [], ◌∷◌, ◌++◌, ◌≡◌, ◌≢◌, ◌⊎◌, ◌↔◌, ◌&&◌, ◌||◌, not,
  inl, inr, refl, if◌then◌else◌, Bool-cases, Eq-string,
}
use hcloud_cloud_controller.Kube.{Node, NodeAddress}
use hcloud_cloud_controller.Config.{HccmConfiguration}
use hcloud_cloud_controller.Hcops.Targets.{is_internal_ip}
use hcloud_cloud_controller.Instances.Data.{RobotServer, Event, misconfigured_internal_ip, Network}
use hcloud_cloud_controller.Instances.Texts.{
  Has, HasInternal, Distinct, is_internal_iff, has_address-Has, has_address-none, Has-append,
  Distinct-append, skip_iff, take_iff,
}
use hcloud_cloud_controller.Instances.Addresses.{
  is_dual_stack, wants_ipv4, wants_ipv6, is_other_family, has_address, forward_internal_ips,
  own_addresses, robot_node_addresses,
}

-- A valid family, and whether a text that is read as IPv4 or not is of it.
abbrev pub IsFamily : String → Type 0
IsFamily f = (f ≡ "dualstack") ⊎ ((f ≡ "ipv4") ⊎ (f ≡ "ipv6"))

abbrev pub IsOfFamily : String → Bool → Type 0
IsOfFamily f v4 = (f ≡ "dualstack") ⊎ (((f ≡ "ipv4") × (v4 ≡ true)) ⊎ ((f ≡ "ipv6") × (v4 ≡ false)))

ipv4_only : (b : Bool) → ((b && false || not b && true) ≡ false) ↔ IsOfFamily "ipv4" b
ipv4_only true = (λ h. inr (inl (refl, refl)), λ h. refl)
ipv4_only false = (
  λ h. absurd cc,
  λ h. elim h [
    | inl e ↦ absurd cc
    | inr (inl (_, e)) ↦ absurd cc
    | inr (inr (e, _)) ↦ absurd (let k = (text_iff "ipv4" "ipv6").1 e in cc)
  ],
)

ipv6_only : (b : Bool) → ((b && true || not b && false) ≡ false) ↔ IsOfFamily "ipv6" b
ipv6_only false = (λ h. inr (inr (refl, refl)), λ h. refl)
ipv6_only true = (
  λ h. absurd cc,
  λ h. elim h [
    | inl e ↦ absurd cc
    | inr (inl (e, _)) ↦ absurd (let k = (text_iff "ipv6" "ipv4").1 e in cc)
    | inr (inr (_, e)) ↦ absurd cc
  ],
)

module _ (net : Network) (cfg : HccmConfiguration) where
  abbrev family : String
  family = cfg.instance_configuration.address_family

  -- The texts of the addresses that a Robot server has itself.
  abbrev pub IsOwn : RobotServer → String → Type 0
  IsOwn server t =
      (t ≡ server.name)
      ⊎ ((((family ≡ "dualstack") ⊎ (family ≡ "ipv6"))
            × (t ≡ text_append server.server_ipv6_net "1"))
          ⊎ (((family ≡ "dualstack") ⊎ (family ≡ "ipv4")) × (t ≡ server.server_ip)))

  is_other_family_iff :
      (t : String)
      → IsFamily family
      → (is_other_family net cfg t ≡ false) ↔ IsOfFamily family (net.is_ipv4 t)
  unfolding is_other_family is_dual_stack wants_ipv4 wants_ipv6
  is_other_family_iff t (inl dual) = rw dual (λ h. inl refl, λ h. refl)
  is_other_family_iff t (inr (inl v4)) = rw v4 (ipv4_only (net.is_ipv4 t))
  is_other_family_iff t (inr (inr v6)) = rw v6 (ipv6_only (net.is_ipv4 t))

  -- The list has the texts of the server's own addresses and, if these are forwarded, of the internal
  -- ones of the node that are of the family, and no others; and none of them twice.
  abbrev pub IsReport : Node → RobotServer → Bool → List NodeAddress → Type 0
  IsReport node server forwarded l =
      ((t : String)
        → Has t l ↔ (
            IsOwn server t
            ⊎ ((forwarded ≡ true)
                × HasInternal t node.addresses
                × IsOfFamily family (net.is_ipv4 t))))
      × Distinct l

  module _ {W : Type 0} (event : Event → W → W) (node : Node) (valid : IsFamily family) where
    abbrev loop : List NodeAddress → List NodeAddress → W → List NodeAddress
    loop as' addresses w = (forward_internal_ips net event node cfg as' addresses w).0

    forward-Has :
        (as' addresses : List NodeAddress) (w : W) (t : String)
        → Has t (loop as' addresses w)
          ↔ (Has t addresses ⊎ (HasInternal t as' × IsOfFamily family (net.is_ipv4 t)))
    unfolding forward_internal_ips
    forward-Has [] addresses w t = (λ h. inl h, λ h. elim h [ inl l ↦ l | inr (n, _) ↦ absurd n ])
    forward-Has (a ∷ as') addresses w t =
        let warned = event (misconfigured_internal_ip node a.address) w in
        elim (Bool-cases (is_internal_ip a.type)) [
          | inr other ↦
              rw (other, Has)
                (skip_iff (forward-Has as' addresses w t)
                  (λ h f. absurd (let e = (is_internal_iff a.type).1 h.0 in cc)))
          | inl internal ↦
              rw (internal, Has)
                (elim (Bool-cases (is_other_family net cfg a.address)) [
                  | inl foreign ↦
                      rw (foreign, Has)
                        (skip_iff (forward-Has as' addresses warned t) (λ h f. absurd (
                          let e = (is_other_family_iff t valid).1 f in let e' = rw h.1 at e in cc)))
                  | inr wanted ↦
                      rw (wanted, Has)
                        (elim (Bool-cases (has_address net a.address addresses)) [
                          | inl known ↦
                              rw (known, Has)
                                (skip_iff (forward-Has as' addresses warned t)
                                  (λ h f. rw h.1 (has_address-Has net a.address addresses known)))
                          | inr fresh ↦
                              rw (fresh, Has)
                                (take_iff (forward-Has as' (addresses ++ a ∷ []) w t)
                                  (Has-append t addresses a) (λ h. h.1)
                                  (λ e. (
                                    ((is_internal_iff a.type).0 internal, e),
                                    rw e ((is_other_family_iff a.address valid).0 wanted),
                                  )))
                        ])
                ])
        ]

    forward-Distinct :
        (as' addresses : List NodeAddress) (w : W)
        → Distinct addresses
        → Distinct (loop as' addresses w)
    unfolding forward_internal_ips
    forward-Distinct [] addresses w d = d
    forward-Distinct (a ∷ as') addresses w d =
        let warned = event (misconfigured_internal_ip node a.address) w in
        elim (Bool-cases (is_internal_ip a.type)) [
          | inr other ↦ rw (other, Distinct) (forward-Distinct as' addresses w d)
          | inl internal ↦
              rw (internal, Distinct)
                (elim (Bool-cases (is_other_family net cfg a.address)) [
                  | inl foreign ↦ rw (foreign, Distinct) (forward-Distinct as' addresses warned d)
                  | inr wanted ↦
                      rw (wanted, Distinct)
                        (elim (Bool-cases (has_address net a.address addresses)) [
                          | inl known ↦
                              rw (known, Distinct) (forward-Distinct as' addresses warned d)
                          | inr fresh ↦
                              rw (fresh, Distinct)
                                (forward-Distinct as' (addresses ++ a ∷ []) w (
                                  Distinct-append addresses a d
                                    (has_address-none net a.address addresses fresh)))
                        ])
                ])
        ]

    own_addresses-IsOwn :
        (server : RobotServer) (t : String)
        → Has t (own_addresses net event node cfg server) ↔ IsOwn server t
    unfolding own_addresses wants_ipv4 wants_ipv6 is_dual_stack
    own_addresses-IsOwn server t = elim valid [
      | inl dual ↦
          rw (dual, Has)
            (
              λ h. elim h [
                | inl e ↦ inl e
                | inr (inl e) ↦ inr (inl (inl refl, e))
                | inr (inr (inl e)) ↦ inr (inr (inl refl, e))
                | inr (inr (inr n)) ↦ absurd n
              ],
              λ h. elim h [
                | inl e ↦ inl e
                | inr (inl (_, e)) ↦ inr (inl e)
                | inr (inr (_, e)) ↦ inr (inr (inl e))
              ],
            )
      | inr (inl v4) ↦
          rw (v4, Has)
            (
              λ h. elim h [
                | inl e ↦ inl e
                | inr (inl e) ↦ inr (inr (inr refl, e))
                | inr (inr n) ↦ absurd n
              ],
              λ h. elim h [
                | inl e ↦ inl e
                | inr (inl (inl k, _)) ↦ absurd (let k' = (text_iff "ipv4" "dualstack").1 k in cc)
                | inr (inl (inr k, _)) ↦ absurd (let k' = (text_iff "ipv4" "ipv6").1 k in cc)
                | inr (inr (_, e)) ↦ inr (inl e)
              ],
            )
      | inr (inr v6) ↦
          rw (v6, Has)
            (
              λ h. elim h [
                | inl e ↦ inl e
                | inr (inl e) ↦ inr (inl (inr refl, e))
                | inr (inr n) ↦ absurd n
              ],
              λ h. elim h [
                | inl e ↦ inl e
                | inr (inl (_, e)) ↦ inr (inl e)
                | inr (inr (inl k, _)) ↦ absurd (let k' = (text_iff "ipv6" "dualstack").1 k in cc)
                | inr (inr (inr k, _)) ↦ absurd (let k' = (text_iff "ipv6" "ipv4").1 k in cc)
              ],
            )
    ]

    own_addresses-Distinct :
        (server : RobotServer)
        → server.name ≢ text_append server.server_ipv6_net "1"
        → server.name ≢ server.server_ip
        → text_append server.server_ipv6_net "1" ≢ server.server_ip
        → Distinct (own_addresses net event node cfg server)
    unfolding own_addresses wants_ipv4 wants_ipv6 is_dual_stack
    own_addresses-Distinct server a b c = elim valid [
      | inl dual ↦
          rw (dual, Distinct)
            (
              λ h. elim h [ inl e ↦ a e | inr (inl e) ↦ b e | inr (inr n) ↦ n ],
              (λ h. elim h [ inl e ↦ c e | inr n ↦ n ], (λ n. n, tt)),
            )
      | inr (inl v4) ↦ rw (v4, Distinct) (λ h. elim h [ inl e ↦ b e | inr n ↦ n ], (λ n. n, tt))
      | inr (inr v6) ↦ rw (v6, Distinct) (λ h. elim h [ inl e ↦ a e | inr n ↦ n ], (λ n. n, tt))
    ]

    chosen :
        (b : Bool) (x y : List NodeAddress × W) (P : Bool → List NodeAddress → Type 0)
        → P true x.0
        → P false y.0
        → P b (if b then x else y).0
    chosen true x y P hx hy = hx
    chosen false x y P hx hy = hy

    -- The reported addresses of a Robot server have exactly the texts of its own ones and, with the
    -- forwarding enabled, of the internal addresses of the node that are of the configured family; and
    -- none is there twice; given a known family, and that the server's name and its two addresses differ.
    pub robot_node_addresses_iff :
        (server : RobotServer) (w : W)
        → server.name ≢ text_append server.server_ipv6_net "1"
        → server.name ≢ server.server_ip
        → text_append server.server_ipv6_net "1" ≢ server.server_ip
        → IsReport node server cfg.robot.forward_internal_ips
            (robot_node_addresses net event node cfg server w).0
    unfolding robot_node_addresses
    robot_node_addresses_iff server w a b c =
        let own = own_addresses net event node cfg server in
        let distinct = own_addresses-Distinct server a b c in
        chosen cfg.robot.forward_internal_ips
          (forward_internal_ips net event node cfg node.addresses own w) (own, w)
          (IsReport node server)
          (
            λ t.
                let (to, from) = forward-Has node.addresses own w t in
                let (own_to, own_from) = own_addresses-IsOwn server t in
                (
                  λ h. elim (to h) [ inl o ↦ inl (own_to o) | inr (n, f) ↦ inr (refl, n, f) ],
                  λ h. elim h [
                    | inl o ↦ from (inl (own_from o))
                    | inr (_, n, f) ↦ from (inr (n, f))
                  ],
                ),
            forward-Distinct node.addresses own w distinct,
          )
          (
            λ t.
                let (own_to, own_from) = own_addresses-IsOwn server t in
                (
                  λ h. inl (own_to h),
                  λ h. elim h [ inl o ↦ own_from o | inr (k, _, _) ↦ absurd cc ],
                ),
            distinct,
          )
