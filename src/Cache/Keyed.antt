-- ===== src/Cache/Keyed.antt =====
-- Each entry of the maps stands under its own ID or name.
use hcloud_cloud_controller.Common.{
  ℤ, String, Option, none, some, List, [], ◌∷◌, ◌≡◌, refl, Bool-cases, inl, inr, All, All-insert,
  Eq-int, Eq-string, Exec, ◌>>=◌, Keeps, Keeps-bind, Time, ltb, ◌+◌, ◌*◌, second, int_le, time_sub,
  zero_time,
}
use hcloud_cloud_controller.Cache.{
  Cache, Source, State, Entry, RefreshOpts, RefreshOption, Mode, Outcome, store, evict,
  store_and_evict, store_fetched, refresh_one, store_all, refresh_all, refresh, look_again,
  after_lookup, get_cached, get_from_cache, call, time_now, count, by_id, by_name, all_values,
  listed, refresh_expired, is_off, new_cache_refresh_opts, oldest, valid_value,
}
use mathlib.Core.List.{foldl}

pub record IsKeyed {W E T : Type 0} (src : Source W E T) (c : Cache T) : Type 0 where
  pub ids : All (λ e. src.get_id e.1.value ≡ e.0) c.by_id
  pub names : All (λ e. src.get_name e.1.value ≡ e.0) c.by_name

All-evict :
    {K T : Type 0} (P : K × Entry T → Type 0) (now : Time) (m : List (K × Entry T))
    → All P m
    → All P (evict now m)
unfolding evict
All-evict P now [] h = tt
All-evict P now ((k, e) ∷ m) (p, h) = elim (Bool-cases (ltb (e.refreshed_at + 3600 * second) now)) [
  | inl old ↦ rw old (All-evict P now m h)
  | inr young ↦ rw young (p, All-evict P now m h)
]

module _ {W E T : Type 0} (src : Source W E T) (subsystem : String) where
  abbrev Good : State W T → Type 0
  Good s = IsKeyed src s.cache

  store-IsKeyed :
      (now : Time) (c : Cache T) (v : T) → IsKeyed src c → IsKeyed src (store src subsystem now c v)
  unfolding store
  store-IsKeyed now c v h = record {
    ids = All-insert (λ e. src.get_id e.1.value ≡ e.0) _ _ c.by_id refl h.ids;
    names = All-insert (λ e. src.get_name e.1.value ≡ e.0) _ _ c.by_name refl h.names;
  }

  stores-IsKeyed :
      (now : Time) (vs : List T) (c : Cache T)
      → IsKeyed src c
      → IsKeyed src (foldl (store src subsystem now) c vs)
  stores-IsKeyed now [] c h = h
  stores-IsKeyed now (v ∷ vs) c h =
      stores-IsKeyed now vs (store src subsystem now c v) (store-IsKeyed now c v h)

  Keeps-call : {A : Type 0} (m : Exec W E A) → Keeps Good (call src subsystem m)
  unfolding call
  Keeps-call m s h = record { ids = h.ids; names = h.names }

  Keeps-time_now : Keeps Good (time_now src subsystem)
  unfolding time_now
  Keeps-time_now s h = record { ids = h.ids; names = h.names }

  Keeps-count : (m : Mode) (o : Outcome) → Keeps Good (count src subsystem m o)
  unfolding count
  Keeps-count m o s h = record { ids = h.ids; names = h.names }

  Keeps-store_and_evict : (now : Time) (v : T) → Keeps Good (store_and_evict src subsystem now v)
  unfolding store_and_evict store
  Keeps-store_and_evict now v s h =
      let k = store-IsKeyed now s.cache v h in
      record {
        ids = All-evict (λ e. src.get_id e.1.value ≡ e.0) now _ k.ids;
        names = All-evict (λ e. src.get_name e.1.value ≡ e.0) now _ k.names;
      }

  Keeps-store_all : (vs : List T) (now : Time) → Keeps Good (store_all src subsystem vs now)
  unfolding store_all
  Keeps-store_all vs now s h =
      stores-IsKeyed now vs (record s.cache { by_id = []; by_name = [] })
        (record { ids = tt; names = tt })

  Keeps-store_fetched : (v : Option T) → Keeps Good (store_fetched src subsystem v)
  unfolding store_fetched
  Keeps-store_fetched none = λ s h. h
  Keeps-store_fetched (some v) =
      Keeps-bind Good (time_now src subsystem) (λ now. store_and_evict src subsystem now v)
        Keeps-time_now (λ now. Keeps-store_and_evict now v)

  Keeps-refresh_one : (fetch : Exec W E (Option T)) → Keeps Good (refresh_one src subsystem fetch)
  unfolding refresh_one
  Keeps-refresh_one fetch =
      Keeps-bind Good (call src subsystem fetch) (store_fetched src subsystem) (Keeps-call fetch)
        Keeps-store_fetched

  Keeps-refresh_all : Keeps Good (refresh_all src subsystem)
  unfolding refresh_all
  Keeps-refresh_all =
      Keeps-bind Good (call src subsystem src.fetch_all)
        (λ vs. time_now src subsystem >>= store_all src subsystem vs) (Keeps-call src.fetch_all)
        (λ vs.
          Keeps-bind Good (time_now src subsystem) (store_all src subsystem vs) Keeps-time_now
            (Keeps-store_all vs))

  Keeps-refresh :
      (m : Mode) (fetch : Exec W E (Option T)) → Keeps Good (refresh src subsystem m fetch)
  unfolding refresh
  Keeps-refresh Mode.all fetch = Keeps-refresh_all
  Keeps-refresh Mode.one fetch = Keeps-refresh_one fetch
  Keeps-refresh Mode.off fetch = λ s h. h
  Keeps-refresh (Mode.unknown m) fetch = λ s h. h

  module _ (o : RefreshOpts) (lookup : Cache T → Option (Entry T))
      (fetch : Exec W E (Option T)) where
    Keeps-look_again : Keeps Good (look_again src subsystem o lookup)
    unfolding look_again
    Keeps-look_again =
        Keeps-bind Good (count src subsystem o.mode Outcome.miss) _
          (Keeps-count o.mode Outcome.miss)
          (λ _. Keeps-bind Good (time_now src subsystem) _ Keeps-time_now (λ later s h. h))

    Keeps-after_lookup :
        (found : Option T) → Keeps Good (after_lookup src subsystem o lookup fetch found)
    unfolding after_lookup
    Keeps-after_lookup (some v) =
        Keeps-bind Good (count src subsystem o.mode Outcome.hit) _ (Keeps-count o.mode Outcome.hit)
          (λ _ s h. h)
    Keeps-after_lookup none =
        Keeps-bind Good (refresh src subsystem o.mode fetch) _ (Keeps-refresh o.mode fetch)
          (λ _. Keeps-look_again)

    Keeps-get_cached : Keeps Good (get_cached src subsystem o lookup fetch)
    unfolding get_cached
    Keeps-get_cached =
        Keeps-bind Good (time_now src subsystem) _ Keeps-time_now
          (λ now s. Keeps-after_lookup (valid_value (lookup s.cache) now o.max_age) s)

  module _ (lookup : Cache T → Option (Entry T)) (fetch : Exec W E (Option T))
      (opts : List RefreshOption) where
    Keeps-get_from_cache : Keeps Good (get_from_cache src subsystem lookup fetch opts)
    unfolding get_from_cache
    Keeps-get_from_cache s h =
        let o = new_cache_refresh_opts s.cache opts in
        elim (Bool-cases (is_off o.mode)) [
          | inl off ↦ rw off (
              Keeps-bind Good (count src subsystem o.mode Outcome.miss) _
                (Keeps-count o.mode Outcome.miss) (λ _. Keeps-call fetch) s h)
          | inr on ↦ rw on (Keeps-get_cached o lookup fetch s h)
        ]

  Keeps-refresh_expired :
      (o : RefreshOpts) (now : Time) → Keeps Good (refresh_expired src subsystem o now)
  unfolding refresh_expired
  Keeps-refresh_expired o now s h =
      elim (Bool-cases (int_le (time_sub now (oldest s.cache.by_id zero_time)) o.max_age)) [
        | inl young ↦ rw young (Keeps-count o.mode Outcome.hit s h)
        | inr old ↦ rw old (
            Keeps-bind Good (count src subsystem o.mode Outcome.miss) _
              (Keeps-count o.mode Outcome.miss) (λ _. Keeps-refresh_all) s h)
      ]

  Keeps-listed : Keeps Good (listed src subsystem)
  unfolding listed
  Keeps-listed s h = h

  -- Whatever the API returns, and whether an operation succeeds or fails, `ByID`, `ByName` and
  -- `All` leave each entry of both maps under the ID or the name of its own value.
  pub cache_ops-IsKeyed :
      (s : State W T) (opts : List RefreshOption)
      → IsKeyed src s.cache
      → ((id : ℤ) → IsKeyed src (by_id src subsystem id opts s).1.cache)
        × ((name : String) → IsKeyed src (by_name src subsystem name opts s).1.cache)
        × IsKeyed src (all_values src subsystem opts s).1.cache
  unfolding by_id by_name all_values
  cache_ops-IsKeyed s opts h = (
    λ id. Keeps-get_from_cache _ (src.fetch_one_by_id id) opts s h,
    λ name. Keeps-get_from_cache _ (src.fetch_one_by_name name) opts s h,
    Keeps-bind Good (time_now src subsystem) _ Keeps-time_now
        (λ now.
          Keeps-bind Good (refresh_expired src subsystem (new_cache_refresh_opts s.cache opts) now)
            _ (Keeps-refresh_expired (new_cache_refresh_opts s.cache opts) now) (λ _. Keeps-listed))
        s h,
  )
