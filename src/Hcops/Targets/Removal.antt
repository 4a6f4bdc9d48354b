-- ===== src/Hcops/Targets/Removal.antt =====
-- The loop over the load balancer's targets: what it leaves of the server targets at the API.
use hcloud_cloud_controller.Common.{
  ℤ, Bool, true, false, Option, none, some, List, [], ◌∷◌, ◌≡◌, ◌⊎◌, inl, inr, sym, ◌∙◌, arith,
  if◌then◌else◌, Eq-int, Eq-string, Result, ok, err, Exec, pure, continue, mem, Bool-cases, int_eq,
  int_eq_iff,
}
use hcloud_cloud_controller.Kube.{
  LoadBalancer, Target, server_target, ip_target, label_selector_target,
}
use hcloud_cloud_controller.Hcops.{Error, api}
use hcloud_cloud_controller.Hcops.Targets.{
  Event, Client, Settings, K8sNodes, RobotIps, Progress, finish_remove, keeps_server, keeps_ip,
  note_server, note_ip, remove_target, remove_targets,
}

-- The list has a server target of the server with the flag.
abbrev pub HasTarget : ℤ → Bool → List Target → Type 0
HasTarget id b [] = ⊥
HasTarget id b (server_target i c ∷ ts) = ((i ≡ id) × (c ≡ b)) ⊎ HasTarget id b ts
HasTarget id b (ip_target ip ∷ ts) = HasTarget id b ts
HasTarget id b (label_selector_target ∷ ts) = HasTarget id b ts

module _ {W : Type 0} (view : W → ℤ → Option Bool) where
  abbrev pub Same : W → W → Type 0
  Same w w' = (j : ℤ) → view w' j ≡ view w j

  -- The view after a call that puts `v` under `id` if it is accepted.
  abbrev pub Puts : {E A : Type 0} → ℤ → Option Bool → W → Result E A × W → Type 0
  Puts id v w (ok _, w') = (j : ℤ) → view w' j ≡ (if int_eq j id then v else view w j)
  Puts id v w (err _, w') = Same w w'

  -- How the calls change the server targets that the API has, where `view w id` is the flag
  -- `UsePrivateIP` of the target of a server, if there is one.
  pub record ViewLaws {E Act Ip : Type 0} (client : Client W E Act Ip) : Type 0 where
    pub remove_server : (lb id : ℤ) (w : W) → Puts id none w (client.remove_server_target lb id w)
    pub add_server :
        (lb id : ℤ) (b : Bool) (w : W) → Puts id (some b) w (client.add_server_target lb id b w)
    pub remove_ip : (lb : ℤ) (ip : Ip) (w : W) → Same w (client.remove_ip_target lb ip w).1
    pub add_ip : (lb : ℤ) (ip : Ip) (w : W) → Same w (client.add_ip_target lb ip w).1
    pub wait_for : (a : Act) (w : W) → Same w (client.wait_for a w).1
    pub event : (ev : Event) (w : W) → Same w (client.event ev w)
    pub robot_server_list : (w : W) → Same w (client.robot_server_list w).1
    pub range : (s : List ℤ) (j : ℤ) → mem j (client.range s) ≡ true → mem j s ≡ true

module _ {W E Act Ip : Type 0} (client : Client W E Act Ip) (cfg : Settings)
    (view : W → ℤ → Option Bool) (laws : ViewLaws view client) (lb : LoadBalancer) (private : Bool)
    (k : K8sNodes) (r : RobotIps) where
  abbrev pub Wanted : ℤ → Bool → Type 0
  Wanted id b = (mem id k.hcloud_ids ≡ true) × (b ≡ private)

  -- Each server target is wanted or still to be looked at.
  abbrev pub Clean : List Target → W → Type 0
  Clean ts w = (id : ℤ) (b : Bool) → view w id ≡ some b → Wanted id b ⊎ HasTarget id b ts

  abbrev pub CleanAfter : List Target → Result (Error E) Progress × W → Type 0
  CleanAfter ts (ok p, w) = Clean ts w
  CleanAfter ts (err _, w) = Unit

  pub Clean-same : (ts : List Target) (w w' : W) → Same view w w' → Clean ts w → Clean ts w'
  Clean-same ts w w' same c id b h = c id b (sym (same id) ∙ h)

  pub Clean-bind :
      (us ts : List Target) (m : Result (Error E) Progress × W)
      (f : Progress → Exec W (Error E) Progress)
      → CleanAfter us m
      → ((p : Progress) (w : W) → Clean us w → CleanAfter ts (f p w))
      → CleanAfter ts (continue m.0 f m.1)
  Clean-bind us ts (ok p, w) f h n = n p w h
  Clean-bind us ts (err c, w) f h n = tt

  pub after_wait :
      (ts : List Target) (x : Result E (Unit {0}) × W) (p : Progress)
      → Clean ts x.1
      → CleanAfter ts (continue (elim x.0 [ ok a ↦ ok a | err e ↦ err (api e) ]) (λ _. pure p) x.1)
  after_wait ts (ok u, w) p h = h
  after_wait ts (err e, w) p h = tt

  keeps_server-Wanted :
      (i id : ℤ) (c b : Bool)
      → keeps_server client cfg lb private k r i c ≡ true
      → i ≡ id
      → c ≡ b
      → Wanted id b
  unfolding keeps_server
  keeps_server-Wanted i id c b h e e' = ground arith

  Clean-kept :
      (i : ℤ) (c : Bool) (ts : List Target) (w : W)
      → keeps_server client cfg lb private k r i c ≡ true
      → Clean (server_target i c ∷ ts) w
      → Clean ts w
  Clean-kept i c ts w stays h id b e = elim (h id b e) [
    | inl wanted ↦ inl wanted
    | inr (inl (e₁, e₂)) ↦ inl (keeps_server-Wanted i id c b stays e₁ e₂)
    | inr (inr later) ↦ inr later
  ]

  Clean-removed :
      (i : ℤ) (c : Bool) (ts : List Target) (w w' : W)
      → ((j : ℤ) → view w' j ≡ (if int_eq j i then none else view w j))
      → Clean (server_target i c ∷ ts) w
      → Clean ts w'
  Clean-removed i c ts w w' gone h id b e = elim (Bool-cases (int_eq id i)) [
    | inl same ↦ absurd (let g = gone id in ground arith)
    | inr other ↦ elim (h id b (let g = gone id in ground arith)) [
      | inl wanted ↦ inl wanted
      | inr (inl (e₁, _)) ↦ absurd (let d = (int_eq_iff id i).1 (sym e₁) in ground arith)
      | inr (inr later) ↦ inr later
    ]
  ]

  after_removal :
      (i : ℤ) (c : Bool) (ts : List Target) (p : Progress) (w : W) (x : Result E Act × W)
      → Puts view i none w x
      → Clean (server_target i c ∷ ts) w
      → CleanAfter ts (finish_remove client cfg lb private k r p x.0 x.1)
  unfolding finish_remove
  after_removal i c ts p w (ok a, w') gone h =
      after_wait ts (client.wait_for a w') _
        (Clean-same ts w' _ (laws.wait_for a w') (Clean-removed i c ts w w' gone h))
  after_removal i c ts p w (err e, w') gone h = tt

  after_ip_removal :
      (ts : List Target) (p : Progress) (w : W) (x : Result E Act × W)
      → Same view w x.1
      → Clean ts w
      → CleanAfter ts (finish_remove client cfg lb private k r p x.0 x.1)
  unfolding finish_remove
  after_ip_removal ts p w (ok a, w') same h =
      after_wait ts (client.wait_for a w') _
        (Clean-same ts w' _ (laws.wait_for a w') (Clean-same ts w w' same h))
  after_ip_removal ts p w (err e, w') same h = tt

  remove_target-Clean :
      (t : Target) (ts : List Target) (p : Progress) (w : W)
      → Clean (t ∷ ts) w
      → CleanAfter ts (remove_target client cfg lb private k r t p w)
  unfolding remove_target
  remove_target-Clean (server_target i c) ts p w h =
      elim (Bool-cases (keeps_server client cfg lb private k r i c)) [
        | inl stays ↦ rw stays (Clean-kept i c ts w stays h)
        | inr goes ↦ rw goes (
            after_removal i c ts (note_server client cfg lb private k r i false p) w _
              (laws.remove_server lb.id i w) h)
      ]
  remove_target-Clean (ip_target ip) ts p w h =
      elim (Bool-cases (keeps_ip client cfg lb private k r ip)) [
        | inl stays ↦ rw stays h
        | inr goes ↦ rw goes (
            after_ip_removal ts (note_ip client cfg lb private k r ip false p) w _
              (laws.remove_ip lb.id (client.parse_ip ip) w) h)
      ]
  remove_target-Clean label_selector_target ts p w h = h

  pub remove_targets-Clean :
      (ts : List Target) (p : Progress) (w : W)
      → Clean ts w
      → CleanAfter [] (remove_targets client cfg lb private k r ts p w)
  unfolding remove_targets
  remove_targets-Clean [] p w h = h
  remove_targets-Clean (t ∷ ts) p w h =
      Clean-bind ts [] (remove_target client cfg lb private k r t p w)
        (remove_targets client cfg lb private k r ts) (remove_target-Clean t ts p w h)
        (remove_targets-Clean ts)
