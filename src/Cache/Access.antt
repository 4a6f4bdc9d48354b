-- ===== src/Cache/Access.antt =====
-- When the cache asks the API, and what a failed call leaves.
use hcloud_cloud_controller.Common
use hcloud_cloud_controller.Common.{
  ℤ, String, Option, none, some, List, [], ◌∷◌, ◌++◌, ◌≡◌, refl, Bool-cases, Option-cases, ◌≢◌, inl,
  inr, Eq-int, Exec, Result, ok, err, continue_elim, Time, true, false, arith, Keeps, ltb,
}
use hcloud_cloud_controller.Cache.{
  Cache, Source, State, Entry, RefreshOpts, RefreshOption, Mode, hit, refresh, look_again,
  after_lookup, get_cached, call, time_now, count, by_id, is_off, new_cache_refresh_opts,
  valid_value, refresh_all, refresh_one, store_fetched, store_and_evict, store_all,
}

module _ {W E T : Type 0} (src : Source W E T) (subsystem : String) where
  -- `ByID` with a fresh entry returns its value: of the world it reads only the clock, and of the
  -- cache it changes only the metric, by one hit.
  pub by_id_hit :
      (id : ℤ) (opts : List RefreshOption) (s : State W T) (v : T)
      → is_off (new_cache_refresh_opts s.cache opts).mode ≡ false
      → valid_value
          (Common.lookup id s.cache.by_id)
          (src.now s.world).0
          (new_cache_refresh_opts s.cache opts).max_age
        ≡ some v
      → by_id src subsystem id opts s ≡ (
        ok (some v),
        record {
          cache = record s.cache {
            metric =
                s.cache.metric
                ++ record {
                  subsystem = subsystem;
                  mode = (new_cache_refresh_opts s.cache opts).mode;
                  result = hit;
                }
                  ∷ [];
          };
          world = (src.now s.world).1;
        },
      )
  unfolding by_id get_cached time_now
  by_id_hit id opts s v on fresh = rw (on, fresh) (unfold after_lookup count in refl)

  -- With the cache off, `ByID` returns what the API returns for this ID, fresh entries or not, and
  -- leaves both maps as they are.
  pub by_id_off :
      (id : ℤ) (opts : List RefreshOption) (s : State W T)
      → is_off (new_cache_refresh_opts s.cache opts).mode ≡ true
      → ((by_id src subsystem id opts s).0 ≡ (src.fetch_one_by_id id s.world).0)
        × ((by_id src subsystem id opts s).1.world ≡ (src.fetch_one_by_id id s.world).1)
        × ((by_id src subsystem id opts s).1.cache.by_id ≡ s.cache.by_id)
        × ((by_id src subsystem id opts s).1.cache.by_name ≡ s.cache.by_name)
  unfolding by_id count call
  by_id_off id opts s off = rw off (refl, refl, refl, refl)

  abbrev Unchanged : State W T → State W T → Type 0
  Unchanged s t = (t.cache.by_id ≡ s.cache.by_id) × (t.cache.by_name ≡ s.cache.by_name)

  refresh_failed :
      (m : Mode) (fetch : Exec W E (Option T)) (s : State W T) (c : E)
      → (refresh src subsystem m fetch s).0 ≡ err c
      → Unchanged s (refresh src subsystem m fetch s).1
  unfolding refresh refresh_all refresh_one store_fetched store_and_evict store_all call time_now
  refresh_failed Mode.all fetch s c h = ground arith
  refresh_failed Mode.one fetch s c h = ground arith
  refresh_failed Mode.off fetch s c h = (refl, refl)
  refresh_failed (Mode.unknown m) fetch s c h = (refl, refl)

  abbrev Fails : E → State W T → Result E (Option T) × State W T → Type 0
  Fails c s r = r.0 ≡ err c → Unchanged s r.1

  look_again_ok :
      (o : RefreshOpts) (lookup : Cache T → Option (Entry T)) (s : State W T) (c : E)
      → (look_again src subsystem o lookup s).0 ≢ err c
  unfolding look_again count time_now
  look_again_ok o lookup s c h = cc

  get_cached_failed :
      (o : RefreshOpts) (lookup : Cache T → Option (Entry T)) (fetch : Exec W E (Option T))
      (s : State W T) (c : E)
      → (get_cached src subsystem o lookup fetch s).0 ≡ err c
      → Unchanged s (get_cached src subsystem o lookup fetch s).1
  unfolding get_cached time_now
  get_cached_failed o lookup fetch s c =
      elim (Option-cases (valid_value (lookup s.cache) (src.now s.world).0 o.max_age)) [
        | inr (v, found) ↦ rw found (unfold after_lookup count in λ h. absurd (cc))
        | inl missing ↦ rw missing (
            unfold after_lookup in
            let r = refresh src subsystem o.mode fetch (time_now src subsystem s).1 in
            continue_elim (Fails c s) r.0 (λ _. look_again src subsystem o lookup) r.1
              (λ _ _ h. absurd (look_again_ok o lookup r.1 c h))
              (λ d e _. refresh_failed o.mode fetch (time_now src subsystem s).1 d e))
      ]

  -- A `ByID` that fails, in any mode, leaves both maps as they are.
  pub by_id_failed :
      (id : ℤ) (opts : List RefreshOption) (s : State W T) (c : E)
      → (by_id src subsystem id opts s).0 ≡ err c
      → ((by_id src subsystem id opts s).1.cache.by_id ≡ s.cache.by_id)
        × ((by_id src subsystem id opts s).1.cache.by_name ≡ s.cache.by_name)
  unfolding by_id
  by_id_failed id opts s c = elim (Bool-cases (is_off (new_cache_refresh_opts s.cache opts).mode)) [
    | inl off ↦ rw off (unfold count call in λ h. (refl, refl))
    | inr on ↦ rw on (
        get_cached_failed (new_cache_refresh_opts s.cache opts) (λ k. Common.lookup id k.by_id)
          (src.fetch_one_by_id id) s c)
  ]
