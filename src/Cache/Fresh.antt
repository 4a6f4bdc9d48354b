-- ===== src/Cache/Fresh.antt =====
-- What `ByID` and `ByName` return is in the cache and not expired.
use hcloud_cloud_controller.Common
use hcloud_cloud_controller.Common.{
  sym, ℤ, String, Option, none, some, List, ◌≡◌, refl, Bool-cases, inl, inr, continue_elim, ◌∙◌, ap,
  All-lookup, Eq-int, Eq-string, Exec, Result, ok, err, Time, Duration, true, false, int_le,
  time_sub, arith, if◌then◌else◌,
}
use hcloud_cloud_controller.Cache.{
  Cache, Source, State, Entry, Request, RefreshOpts, RefreshOption, Outcome, refresh, look_again,
  after_lookup, get_cached, get_from_cache, time_now, count, by_id, by_name, is_off,
  new_cache_refresh_opts, valid_value,
}
use hcloud_cloud_controller.Cache.Keyed.{IsKeyed, cache_ops-IsKeyed}

-- The last thing that was done was to read the clock, and at that instant the entry that the maps
-- now hold has the value `v` and is at most `max_age` old.
pub record IsFresh {W E T : Type 0} (src : Source W E T) (found : Option (Entry T)) (world : W)
    (max_age : Duration) (v : T) : Type 0 where
  pub before : W
  pub entry : Entry T
  pub read : (src.now before).1 ≡ world
  pub held : found ≡ some entry
  pub valued : entry.value ≡ v
  pub young : int_le (time_sub (src.now before).0 entry.refreshed_at) max_age ≡ true

valid_value-inv :
    {T : Type 0} (o : Option (Entry T)) (now : Time) (max_age : Duration) (v : T)
    → valid_value o now max_age ≡ some v
    → (e : Entry T) × (o ≡ some e)
      × (e.value ≡ v)
      × (int_le (time_sub now e.refreshed_at) max_age ≡ true)
unfolding valid_value
valid_value-inv none now max_age v h = absurd (cc)
valid_value-inv (some e) now max_age v h = (e, refl, ground arith, ground arith)

module _ {W E T : Type 0} (src : Source W E T) (subsystem : String)
    (lookup : Cache T → Option (Entry T))
    (stable : (c : Cache T) (r : List Request) → lookup (record c { metric = r }) ≡ lookup c) where
  abbrev Ends : RefreshOpts → T → Result E (Option T) × State W T → Type 0
  Ends o v r = r.0 ≡ ok (some v) → IsFresh src (lookup r.1.cache) r.1.world o.max_age v

  look_again_fresh :
      (o : RefreshOpts) (v : T) (s : State W T) → Ends o v (look_again src subsystem o lookup s)
  unfolding look_again time_now count
  look_again_fresh o v s h =
      let c = (count src subsystem o.mode Outcome.miss s).1 in
      let t = (src.now s.world).0 in
      let (e, held, valued, young) =
        valid_value-inv (lookup c.cache) t o.max_age v (ground arith) in
      record {
        before = s.world;
        entry = e;
        read = refl;
        held = held;
        valued = valued;
        young = young;
      }

  after_lookup_fresh :
      (o : RefreshOpts) (fetch : Exec W E (Option T)) (v : T) (s : State W T)
      → Ends o v (after_lookup src subsystem o lookup fetch none s)
  unfolding after_lookup
  after_lookup_fresh o fetch v s =
      let r = refresh src subsystem o.mode fetch s in
      continue_elim (Ends o v) r.0 (λ _. look_again src subsystem o lookup) r.1
        (λ _ _. look_again_fresh o v r.1) (λ c _ h. absurd (cc))

  get_hit_fresh :
      (o : RefreshOpts) (fetch : Exec W E (Option T)) (v : T) (s : State W T) (found : Option T)
      → valid_value (lookup s.cache) (src.now s.world).0 o.max_age ≡ found
      → Ends o v (after_lookup src subsystem o lookup fetch found (time_now src subsystem s).1)
  unfolding time_now
  get_hit_fresh o fetch v s none e = after_lookup_fresh o fetch v _
  get_hit_fresh o fetch v s (some v') e =
      unfold after_lookup count in
      λ h.
        let (entry, held, valued, young) =
          valid_value-inv (lookup s.cache) (src.now s.world).0 o.max_age v' e in
        record {
          before = s.world;
          entry = entry;
          read = refl;
          held = stable s.cache _ ∙ held;
          valued = ground arith;
          young = young;
        }

  get_cached_fresh :
      (o : RefreshOpts) (fetch : Exec W E (Option T)) (v : T) (s : State W T)
      → Ends o v (get_cached src subsystem o lookup fetch s)
  unfolding get_cached time_now
  get_cached_fresh o fetch v s =
      get_hit_fresh o fetch v s (valid_value (lookup s.cache) (src.now s.world).0 o.max_age) refl

  get_from_cache_fresh :
      (opts : List RefreshOption) (fetch : Exec W E (Option T)) (v : T) (s : State W T)
      → is_off (new_cache_refresh_opts s.cache opts).mode ≡ false
      → Ends
          (new_cache_refresh_opts s.cache opts)
          v
          (get_from_cache src subsystem lookup fetch opts s)
  unfolding get_from_cache
  get_from_cache_fresh opts fetch v s on =
      rw on (get_cached_fresh (new_cache_refresh_opts s.cache opts) fetch v s)

module _ {W E T : Type 0} (src : Source W E T) (subsystem : String) where
  -- Unless the cache is off, a value that `ByID` returns is the value of the entry that the map
  -- then holds under the ID, and by the last reading of the clock that entry is not older than the
  -- maximal age of the call.
  pub by_id-IsFresh :
      (id : ℤ) (opts : List RefreshOption) (s : State W T) (v : T)
      → is_off (new_cache_refresh_opts s.cache opts).mode ≡ false
      → (by_id src subsystem id opts s).0 ≡ ok (some v)
      → IsFresh src
          (Common.lookup id (by_id src subsystem id opts s).1.cache.by_id)
          (by_id src subsystem id opts s).1.world
          (new_cache_refresh_opts s.cache opts).max_age
          v
  unfolding by_id
  by_id-IsFresh id opts s v on h =
      get_from_cache_fresh src subsystem (λ c. Common.lookup id c.by_id) (λ c r. refl) opts
        (src.fetch_one_by_id id) v s on h

  pub by_name-IsFresh :
      (name : String) (opts : List RefreshOption) (s : State W T) (v : T)
      → is_off (new_cache_refresh_opts s.cache opts).mode ≡ false
      → (by_name src subsystem name opts s).0 ≡ ok (some v)
      → IsFresh src
          (Common.lookup name (by_name src subsystem name opts s).1.cache.by_name)
          (by_name src subsystem name opts s).1.world
          (new_cache_refresh_opts s.cache opts).max_age
          v
  unfolding by_name
  by_name-IsFresh name opts s v on h =
      get_from_cache_fresh src subsystem (λ c. Common.lookup name c.by_name) (λ c r. refl) opts
        (src.fetch_one_by_name name) v s on h

  -- Unless the cache is off, and given that each entry stands under its own key, a value that
  -- `ByID` returns has the ID that was asked for, whatever the API returned.
  pub by_id_returns_id :
      (id : ℤ) (opts : List RefreshOption) (s : State W T) (v : T)
      → IsKeyed src s.cache
      → is_off (new_cache_refresh_opts s.cache opts).mode ≡ false
      → (by_id src subsystem id opts s).0 ≡ ok (some v)
      → src.get_id v ≡ id
  by_id_returns_id id opts s v keyed on h =
      let f = by_id-IsFresh id opts s v on h in
      let k = (cache_ops-IsKeyed src subsystem s opts keyed).0 id in
      ap src.get_id (sym f.valued)
      ∙ All-lookup (λ e. src.get_id e.1.value ≡ e.0) id _ f.entry k.ids f.held

  -- Unless the cache is off, and given that each entry stands under its own key, a value that
  -- `ByName` returns has the name that was asked for, whatever the API returned.
  pub by_name_returns_name :
      (name : String) (opts : List RefreshOption) (s : State W T) (v : T)
      → IsKeyed src s.cache
      → is_off (new_cache_refresh_opts s.cache opts).mode ≡ false
      → (by_name src subsystem name opts s).0 ≡ ok (some v)
      → src.get_name v ≡ name
  by_name_returns_name name opts s v keyed on h =
      let f = by_name-IsFresh name opts s v on h in
      let k = (cache_ops-IsKeyed src subsystem s opts keyed).1 name in
      ap src.get_name (sym f.valued)
      ∙ All-lookup (λ e. src.get_name e.1.value ≡ e.0) name _ f.entry k.names f.held
