-- ===== src/Hcops/Targets/Stale.antt =====
-- The loops of `ReconcileHCLBTargets` leave no server target that is not wanted.
use hcloud_cloud_controller.Common.{
  ℤ, Bool, true, Option, some, List, [], ◌∷◌, ◌≡◌, inl, inr, arith, if◌then◌else◌, leb, ◌==◌,
  Eq-int, Result, ok, err, Exec, lookup, mem, mem-cons_self, mem-cons_of_mem, Eq-string, Bool-cases,
  int_eq, int_eq_iff,
}
use hcloud_cloud_controller.Kube.{Node, LoadBalancer}
use hcloud_cloud_controller.Hcops.{Error}
use hcloud_cloud_controller.Hcops.Targets.{
  max_targets_reached, server_not_found, Client, Settings, K8sNodes, RobotIps, Progress,
  remove_targets, finish_add, try_add, add_server, add_servers, add_ip, add_ips, synchronize,
  is_set, ip_of,
}
use hcloud_cloud_controller.Hcops.Targets.Removal.{
  Same, Puts, ViewLaws, Clean, CleanAfter, Clean-same, Clean-bind, after_wait, remove_targets-Clean,
}

module _ {W E Act Ip : Type 0} (client : Client W E Act Ip) (cfg : Settings)
    (view : W → ℤ → Option Bool) (laws : ViewLaws view client) (lb : LoadBalancer) (private : Bool)
    (k : K8sNodes) (r : RobotIps) where
  abbrev Tidy : W → Type 0
  Tidy = Clean client cfg view laws lb private k r []

  abbrev TidyAfter : Result (Error E) Progress × W → Type 0
  TidyAfter = CleanAfter client cfg view laws lb private k r []

  Tidy-same : (w w' : W) → Same view w w' → Tidy w → Tidy w'
  Tidy-same = Clean-same client cfg view laws lb private k r []

  Tidy-put :
      (i : ℤ) (w w' : W)
      → mem i k.hcloud_ids ≡ true
      → ((j : ℤ) → view w' j ≡ (if int_eq j i then some private else view w j))
      → Tidy w
      → Tidy w'
  Tidy-put i w w' node put h id b e = elim (Bool-cases (int_eq id i)) [
    | inl same ↦
        inl (let p = put id in let q = (int_eq_iff id i).0 same in (ground arith, ground arith))
    | inr other ↦ h id b (let p = put id in ground arith)
  ]

  -- An addition keeps the property if its accepted call does.
  after_addition :
      (n : Option Node) (p : Progress) (x : Result E Act × W)
      → Tidy x.1
      → TidyAfter (finish_add client cfg lb private k r n p x.0 x.1)
  unfolding finish_add
  after_addition n p (ok a, w') h =
      after_wait client cfg view laws lb private k r [] (client.wait_for a w') _
        (Tidy-same w' _ (laws.wait_for a w') h)
  after_addition n p (err e, w') h = elim (Bool-cases (client.is_resource_limit_exceeded e)) [
    | inl limit ↦ rw limit (Tidy-same w' _ (laws.event (max_targets_reached n) w') h)
    | inr other ↦ rw other tt
  ]

  try_add-Tidy :
      (n : Option Node) (m : Exec W E Act) (p : Progress) (w : W)
      → Tidy (m w).1
      → Tidy w
      → TidyAfter (try_add client cfg lb private k r n m p w)
  unfolding try_add
  try_add-Tidy n m p w after h = elim (Bool-cases (leb lb.max_targets p.number_of_targets)) [
    | inl full ↦ rw full (Tidy-same w _ (laws.event (max_targets_reached n) w) h)
    | inr free ↦ rw free (after_addition n p (m w) after)
  ]

  Tidy-added :
      (i : ℤ) (w : W) (x : Result E Act × W)
      → mem i k.hcloud_ids ≡ true
      → Puts view i (some private) w x
      → Tidy w
      → Tidy x.1
  Tidy-added i w (ok a, w') node put h = Tidy-put i w w' node put h
  Tidy-added i w (err e, w') node same h = Tidy-same w w' same h

  add_servers-Tidy :
      (ids : List ℤ) (p : Progress) (w : W)
      → ((j : ℤ) → mem j ids ≡ true → mem j k.hcloud_ids ≡ true)
      → Tidy w
      → TidyAfter (add_servers client cfg lb private k r ids p w)
  unfolding add_servers add_server
  add_servers-Tidy [] p w sub h = h
  add_servers-Tidy (id ∷ ids) p w sub h =
      Clean-bind client cfg view laws lb private k r [] []
        (add_server client cfg lb private k r id p w) (add_servers client cfg lb private k r ids)
        (elim (Bool-cases (is_set (lookup id p.target_ids))) [
          | inl there ↦ rw there h
          | inr absent ↦ rw absent (
              try_add-Tidy (lookup id k.nodes) (client.add_server_target lb.id id private) p w
                (Tidy-added id w _ (sub id (mem-cons_self id ids))
                  (laws.add_server lb.id id private w) h)
                h)
        ])
        (λ q w' h'. add_servers-Tidy ids q w' (λ j m. sub j (mem-cons_of_mem j id ids m)) h')

  add_ip-Tidy :
      (id : ℤ) (p : Progress) (w : W) → Tidy w → TidyAfter (add_ip client cfg lb private k r id p w)
  unfolding add_ip
  add_ip-Tidy id p w h =
      let ip = ip_of client cfg lb private k r id in
      elim (Bool-cases (is_set (lookup ip p.target_ips))) [
        | inl there ↦ rw there h
        | inr absent ↦ rw absent (elim (Bool-cases (ip == "")) [
          | inl empty ↦
              rw empty (Tidy-same w _ (laws.event (server_not_found (lookup id k.nodes) id) w) h)
          | inr known ↦ rw known (
              try_add-Tidy (lookup id k.nodes) (client.add_ip_target lb.id (client.parse_ip ip)) p w
                (Tidy-same w _ (laws.add_ip lb.id (client.parse_ip ip) w) h) h)
        ])
      ]

  add_ips-Tidy :
      (ids : List ℤ) (p : Progress) (w : W)
      → Tidy w
      → TidyAfter (add_ips client cfg lb private k r ids p w)
  unfolding add_ips
  add_ips-Tidy [] p w h = h
  add_ips-Tidy (id ∷ ids) p w h =
      Clean-bind client cfg view laws lb private k r [] [] (add_ip client cfg lb private k r id p w)
        (add_ips client cfg lb private k r ids) (add_ip-Tidy id p w h) (add_ips-Tidy ids)

  pub synchronize_tidy :
      (w : W)
      → Clean client cfg view laws lb private k r lb.targets w
      → TidyAfter (synchronize client cfg lb private k r w)
  unfolding synchronize
  synchronize_tidy w h =
      Clean-bind client cfg view laws lb private k r [] []
        (remove_targets client cfg lb private k r lb.targets _ w) _
        (remove_targets-Clean client cfg view laws lb private k r lb.targets _ w h)
        (λ p w' h'.
          Clean-bind client cfg view laws lb private k r [] []
            (add_servers client cfg lb private k r (client.range k.hcloud_ids) p w') _
            (add_servers-Tidy (client.range k.hcloud_ids) p w' (laws.range k.hcloud_ids) h')
            (λ q w'' h''. elim (Bool-cases cfg.robot_enabled) [
              | inl robot ↦ rw robot (add_ips-Tidy (client.range k.robot_ids) q w'' h'')
              | inr cloud ↦ rw cloud h''
            ]))
