-- ===== src/Hcops/Targets/Limit.antt =====
-- The number of targets that the load balancer has at the API.
use hcloud_cloud_controller.Common.{
  ℕ, ◌+◌, ◌≤◌, ℤ, Bool, false, Option, List, [], ◌∷◌, ◌≡◌, arith, leb, length, ◌==◌, Eq-int,
  Eq-string, Result, ok, err, Exec, pure, continue, lookup, Bool-cases, inl, inr,
}
use hcloud_cloud_controller.Kube.{
  Node, LoadBalancer, Target, server_target, ip_target, label_selector_target,
}
use hcloud_cloud_controller.Hcops.{Error, api}
use hcloud_cloud_controller.Hcops.Targets.{
  Event, max_targets_reached, server_not_found, Client, Settings, K8sNodes, RobotIps, Progress,
  finish_remove, keeps_server, keeps_ip, note_server, note_ip, remove_target, remove_targets,
  finish_add, try_add, add_server, add_servers, add_ip, add_ips, synchronize, is_set, ip_of,
}

module _ {W : Type 0} (count : W → ℕ) where
  abbrev pub RemovesOne : {E A : Type 0} → W → Result E A × W → Type 0
  RemovesOne w (ok _, w') = count w' + 1 ≡ count w
  RemovesOne w (err _, w') = count w' ≡ count w

  abbrev pub AddsOne : {E A : Type 0} → W → Result E A × W → Type 0
  AddsOne w (ok _, w') = count w' ≡ count w + 1
  AddsOne w (err _, w') = count w' ≡ count w

  -- How the API's answers to the calls are related to the number of targets: an accepted removal or
  -- addition changes it by one, and nothing else changes it.
  pub record CountLaws {E Act Ip : Type 0} (client : Client W E Act Ip) : Type 0 where
    pub remove_server : (lb id : ℤ) (w : W) → RemovesOne w (client.remove_server_target lb id w)
    pub remove_ip : (lb : ℤ) (ip : Ip) (w : W) → RemovesOne w (client.remove_ip_target lb ip w)
    pub add_server : (lb id : ℤ) (b : Bool) (w : W) → AddsOne w (client.add_server_target lb id b w)
    pub add_ip : (lb : ℤ) (ip : Ip) (w : W) → AddsOne w (client.add_ip_target lb ip w)
    pub wait_for : (a : Act) (w : W) → count (client.wait_for a w).1 ≡ count w
    pub robot_server_list : (w : W) → count (client.robot_server_list w).1 ≡ count w
    pub event : (ev : Event) (w : W) → count (client.event ev w) ≡ count w

module _ {W E Act Ip : Type 0} (client : Client W E Act Ip) (cfg : Settings) (count : W → ℕ)
    (laws : CountLaws count client) (lb : LoadBalancer) (private : Bool) (k : K8sNodes)
    (r : RobotIps) (bound : ℕ) (room : lb.max_targets ≤ bound) where
  -- The number is within the bound, and the progress, if there is one, knows it.
  abbrev pub Within : Result (Error E) Progress × W → Type 0
  Within (ok p, w) = (p.number_of_targets ≡ count w) × (count w ≤ bound)
  Within (err _, w) = count w ≤ bound

  Within-bind :
      (m : Result (Error E) Progress × W) (f : Progress → Exec W (Error E) Progress)
      → Within m
      → ((p : Progress) (w : W) → Within (ok p, w) → Within (f p w))
      → Within (continue m.0 f m.1)
  Within-bind (ok p, w) f h k' = k' p w h
  Within-bind (err c, w) f h k' = h

  after_wait :
      (x : Result E (Unit {0}) × W) (p : Progress)
      → Within (ok p, x.1)
      → Within (continue (elim x.0 [ ok a ↦ ok a | err e ↦ err (api e) ]) (λ _. pure p) x.1)
  after_wait (ok u, w) p h = h
  after_wait (err e, w) p h = h.1

  after_removal :
      (p : Progress) (w : W) (x : Result E Act × W)
      → RemovesOne count w x
      → Within (ok p, w)
      → Within (finish_remove client cfg lb private k r p x.0 x.1)
  unfolding finish_remove
  after_removal p w (ok a, w') one h =
      after_wait (client.wait_for a w') _
        (let same = laws.wait_for a w' in (omega arith, omega arith))
  after_removal p w (err e, w') one h = omega arith

  after_addition :
      (n : Option Node) (p : Progress) (w : W) (x : Result E Act × W)
      → AddsOne count w x
      → Within (ok p, w)
      → leb lb.max_targets p.number_of_targets ≡ false
      → Within (finish_add client cfg lb private k r n p x.0 x.1)
  unfolding finish_add
  after_addition n p w (ok a, w') one h free =
      after_wait (client.wait_for a w') _
        (let same = laws.wait_for a w' in (omega arith, ground arith))
  after_addition n p w (err e, w') one h free =
      elim (Bool-cases (client.is_resource_limit_exceeded e)) [
        | inl limit ↦
            rw limit
              (let same = laws.event (max_targets_reached n) w' in (omega arith, omega arith))
        | inr other ↦ rw other (omega arith)
      ]

  remove_target-Within :
      (t : Target) (p : Progress) (w : W)
      → Within (ok p, w)
      → Within (remove_target client cfg lb private k r t p w)
  unfolding remove_target
  remove_target-Within (server_target id b) p w h =
      elim (Bool-cases (keeps_server client cfg lb private k r id b)) [
        | inl stays ↦ rw stays h
        | inr goes ↦ rw goes (
            after_removal (note_server client cfg lb private k r id false p) w _
              (laws.remove_server lb.id id w) h)
      ]
  remove_target-Within (ip_target ip) p w h =
      elim (Bool-cases (keeps_ip client cfg lb private k r ip)) [
        | inl stays ↦ rw stays h
        | inr goes ↦ rw goes (
            after_removal (note_ip client cfg lb private k r ip false p) w _
              (laws.remove_ip lb.id (client.parse_ip ip) w) h)
      ]
  remove_target-Within label_selector_target p w h = h

  remove_targets-Within :
      (ts : List Target) (p : Progress) (w : W)
      → Within (ok p, w)
      → Within (remove_targets client cfg lb private k r ts p w)
  unfolding remove_targets
  remove_targets-Within [] p w h = h
  remove_targets-Within (t ∷ ts) p w h =
      Within-bind (remove_target client cfg lb private k r t p w)
        (remove_targets client cfg lb private k r ts) (remove_target-Within t p w h)
        (remove_targets-Within ts)

  try_add-Within :
      (n : Option Node) (m : Exec W E Act) (p : Progress) (w : W)
      → AddsOne count w (m w)
      → Within (ok p, w)
      → Within (try_add client cfg lb private k r n m p w)
  unfolding try_add
  try_add-Within n m p w one h = elim (Bool-cases (leb lb.max_targets p.number_of_targets)) [
    | inl full ↦
        rw full (let same = laws.event (max_targets_reached n) w in (omega arith, omega arith))
    | inr free ↦ rw free (after_addition n p w (m w) one h free)
  ]

  add_server-Within :
      (id : ℤ) (p : Progress) (w : W)
      → Within (ok p, w)
      → Within (add_server client cfg lb private k r id p w)
  unfolding add_server
  add_server-Within id p w h = elim (Bool-cases (is_set (lookup id p.target_ids))) [
    | inl there ↦ rw there h
    | inr absent ↦ rw absent (
        try_add-Within (lookup id k.nodes) (client.add_server_target lb.id id private) p w
          (laws.add_server lb.id id private w) h)
  ]

  add_servers-Within :
      (ids : List ℤ) (p : Progress) (w : W)
      → Within (ok p, w)
      → Within (add_servers client cfg lb private k r ids p w)
  unfolding add_servers
  add_servers-Within [] p w h = h
  add_servers-Within (id ∷ ids) p w h =
      Within-bind (add_server client cfg lb private k r id p w)
        (add_servers client cfg lb private k r ids) (add_server-Within id p w h)
        (add_servers-Within ids)

  add_ip-Within :
      (id : ℤ) (p : Progress) (w : W)
      → Within (ok p, w)
      → Within (add_ip client cfg lb private k r id p w)
  unfolding add_ip
  add_ip-Within id p w h =
      let ip = ip_of client cfg lb private k r id in
      elim (Bool-cases (is_set (lookup ip p.target_ips))) [
        | inl there ↦ rw there h
        | inr absent ↦ rw absent (elim (Bool-cases (ip == "")) [
          | inl empty ↦ rw empty (
              let same = laws.event (server_not_found (lookup id k.nodes) id) w in
              (omega arith, omega arith))
          | inr known ↦ rw known (
              try_add-Within (lookup id k.nodes) (client.add_ip_target lb.id (client.parse_ip ip)) p
                w (laws.add_ip lb.id (client.parse_ip ip) w) h)
        ])
      ]

  add_ips-Within :
      (ids : List ℤ) (p : Progress) (w : W)
      → Within (ok p, w)
      → Within (add_ips client cfg lb private k r ids p w)
  unfolding add_ips
  add_ips-Within [] p w h = h
  add_ips-Within (id ∷ ids) p w h =
      Within-bind (add_ip client cfg lb private k r id p w) (add_ips client cfg lb private k r ids)
        (add_ip-Within id p w h) (add_ips-Within ids)

  pub synchronize-Within :
      (w : W)
      → length lb.targets ≡ count w
      → count w ≤ bound
      → Within (synchronize client cfg lb private k r w)
  unfolding synchronize
  synchronize-Within w e h =
      Within-bind (remove_targets client cfg lb private k r lb.targets _ w) _
        (remove_targets-Within lb.targets _ w (e, h))
        (λ p w' h'.
          Within-bind (add_servers client cfg lb private k r (client.range k.hcloud_ids) p w') _
            (add_servers-Within (client.range k.hcloud_ids) p w' h')
            (λ q w'' h''. elim (Bool-cases cfg.robot_enabled) [
              | inl robot ↦ rw robot (add_ips-Within (client.range k.robot_ids) q w'' h'')
              | inr cloud ↦ rw cloud h''
            ]))

  pub Within-count : (x : Result (Error E) Progress × W) → Within x → count x.1 ≤ bound
  Within-count (ok p, w) h = h.1
  Within-count (err e, w) h = h
