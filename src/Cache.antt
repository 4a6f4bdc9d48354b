-- ===== src/Cache.antt =====
-- internal/cache/cache.go: the cache in front of the Servers and Load Balancer Types APIs. The
-- mutex makes each operation one step; klog output is left out. The functions that `newCache` is
-- given, the clock and the context's subsystem are parameters.
pub mod Access
pub mod Keyed
pub mod Fresh
pub mod Partial
pub mod Sources
use mathlib.Core.List.{foldl}
use hcloud_cloud_controller.Common
use hcloud_cloud_controller.Common.{
  ◌+◌, ◌*◌, String, Bool, true, false, ◌||◌, Option, none, some, List, [], ◌∷◌, ◌++◌, ltb, nat_eq,
  if◌then◌else◌, ℤ, ok, Exec, ◌>>=◌, ◌>>◌, pure, insert, Eq-int, Eq-string, Time, Duration,
  zero_time, second, time_sub, int_le,
}

-- `unknown` is any other string.
pub data Mode : Type 0 where
  all one off : Mode
  unknown : String → Mode

pub record RefreshOpts : Type 0 where
  pub max_age : Duration
  pub mode : Mode

pub data Outcome : Type 0 where
  hit miss : Outcome

-- The labels of one increment of the metric.
pub record Request : Type 0 where
  pub subsystem : String
  pub mode : Mode
  pub result : Outcome

pub record Entry (T : Type 0) : Type 0 where
  pub refreshed_at : Time
  pub value : T

pub record Cache (T : Type 0) : Type 0 where
  pub default_max_age : Duration
  pub default_mode : Mode
  pub by_id : List (ℤ × Entry T)
  pub by_name : List (String × Entry T)
  pub metric : List Request

-- What `newCache` is given, over the state `W` of the API and the clock.
pub record Source (W E T : Type 0) : Type 0 where
  pub fetch_one_by_id : ℤ → Exec W E (Option T)
  pub fetch_one_by_name : String → Exec W E (Option T)
  pub fetch_all : Exec W E (List T)
  pub get_id : T → ℤ
  pub get_name : T → String
  pub now : W → Time × W

pub record State (W T : Type 0) : Type 0 where
  pub cache : Cache T
  pub world : W

abbrev pub RefreshOption : Type 0
RefreshOption = RefreshOpts → RefreshOpts

unfoldable pub with_max_age : Duration → RefreshOption
with_max_age max_age ro = record ro { max_age = max_age }

unfoldable pub with_mode : Mode → RefreshOption
with_mode mode ro = record ro { mode = mode }

unfoldable pub new_cache : {T : Type 0} → Mode → Duration → Cache T
new_cache mode max_age = record {
  default_max_age = max_age;
  default_mode = mode;
  by_id = [];
  by_name = [];
  metric = [];
}

unfoldable pub new_cache_refresh_opts : {T : Type 0} → Cache T → List RefreshOption → RefreshOpts
new_cache_refresh_opts c opts =
    foldl (λ ro opt. opt ro) (record { max_age = c.default_max_age; mode = c.default_mode }) opts

unfoldable pub is_off : Mode → Bool
is_off off = true
is_off _ = false

-- `e != nil && now.Sub(e.refreshedAt) <= maxAge`, with the value of such an entry
unfoldable pub valid_value : {T : Type 0} → Option (Entry T) → Time → Duration → Option T
valid_value none now max_age = none
valid_value (some e) now max_age =
    if int_le (time_sub now e.refreshed_at) max_age then some e.value else none

-- `refreshedAllAt`: the oldest refresh, the zero time standing for none
unfoldable pub oldest : {K T : Type 0} → List (K × Entry T) → Time → Time
oldest [] at = at
oldest ((k, e) ∷ m) at =
    oldest m (if nat_eq at zero_time || ltb e.refreshed_at at then e.refreshed_at else at)

unfoldable pub values : {K T : Type 0} → List (K × Entry T) → List T
values [] = []
values ((k, e) ∷ m) = e.value ∷ values m

-- `maps.DeleteFunc` with `evictFunc`
unfoldable pub evict : {K T : Type 0} → Time → List (K × Entry T) → List (K × Entry T)
evict now [] = []
evict now ((k, e) ∷ m) =
    if ltb (e.refreshed_at + 3600 * second) now then evict now m else (k, e) ∷ evict now m

module _ {W E T : Type 0} (src : Source W E T) (subsystem : String) where
  unfoldable pub call : {A : Type 0} → Exec W E A → Exec (State W T) E A
  call m s = let (r, w) = m s.world in (r, record s { world = w })

  unfoldable pub time_now : Exec (State W T) E Time
  time_now s = let (t, w) = src.now s.world in (ok t, record s { world = w })

  -- `c.metric.WithLabelValues(…).Inc()`
  unfoldable pub count : Mode → Outcome → Exec (State W T) E (Unit {0})
  count mode result s =
      let r : Request = record { subsystem = subsystem; mode = mode; result = result } in
      (ok tt, record s { cache = record s.cache { metric = s.cache.metric ++ r ∷ [] } })

  unfoldable pub store : Time → Cache T → T → Cache T
  store now c v =
      let e : Entry T = record { refreshed_at = now; value = v } in
      record c {
        by_id = insert (src.get_id v) e c.by_id;
        by_name = insert (src.get_name v) e c.by_name;
      }

  unfoldable pub store_and_evict : Time → T → Exec (State W T) E (Unit {0})
  unfolding store evict
  store_and_evict now v s =
      let c = store now s.cache v in
      (
        ok tt,
        record s { cache = record c { by_id = evict now c.by_id; by_name = evict now c.by_name } },
      )

  unfoldable pub store_fetched : Option T → Exec (State W T) E (Unit {0})
  store_fetched none = pure tt
  store_fetched (some v) = do now ← time_now; store_and_evict now v

  unfoldable pub refresh_one : Exec W E (Option T) → Exec (State W T) E (Unit {0})
  unfolding store_fetched
  refresh_one fetch = do value ← call fetch; store_fetched value

  -- The maps are made anew before the clock is read, and the loop stores each value.
  unfoldable pub store_all : List T → Time → Exec (State W T) E (Unit {0})
  unfolding store
  store_all vs now s = (
    ok tt,
    record s { cache = foldl (store now) (record s.cache { by_id = []; by_name = [] }) vs },
  )

  unfoldable pub refresh_all : Exec (State W T) E (Unit {0})
  refresh_all = do vs ← call src.fetch_all; now ← time_now; store_all vs now

  unfoldable pub refresh : Mode → Exec W E (Option T) → Exec (State W T) E (Unit {0})
  refresh all fetch = refresh_all
  refresh one fetch = refresh_one fetch
  refresh off fetch = pure tt
  refresh (unknown m) fetch = pure tt

  -- The code behind the refresh: the metric, and the second lookup.
  unfoldable pub look_again :
      RefreshOpts → (Cache T → Option (Entry T)) → Exec (State W T) E (Option T)
  look_again o lookup = do
    count o.mode miss
    later ← time_now
    λ s. (ok (valid_value (lookup s.cache) later o.max_age), s)

  unfoldable pub after_lookup :
      RefreshOpts
      → (Cache T → Option (Entry T))
      → Exec W E (Option T)
      → Option T
      → Exec (State W T) E (Option T)
  unfolding look_again
  after_lookup o lookup fetch (some v) = do count o.mode hit; pure (some v)
  after_lookup o lookup fetch none = do refresh o.mode fetch; look_again o lookup

  unfoldable pub get_cached :
      RefreshOpts
      → (Cache T → Option (Entry T))
      → Exec W E (Option T)
      → Exec (State W T) E (Option T)
  unfolding after_lookup
  get_cached o lookup fetch = do
    now ← time_now
    λ s. after_lookup o lookup fetch (valid_value (lookup s.cache) now o.max_age) s

  unfoldable pub get_from_cache :
      (Cache T → Option (Entry T))
      → Exec W E (Option T)
      → List RefreshOption
      → Exec (State W T) E (Option T)
  get_from_cache lookup fetch opts s =
      let o = new_cache_refresh_opts s.cache opts in
      if is_off o.mode then (do count o.mode miss; call fetch) s else get_cached o lookup fetch s

  unfoldable pub by_id : ℤ → List RefreshOption → Exec (State W T) E (Option T)
  unfolding get_from_cache
  by_id id = get_from_cache (λ c. Common.lookup id c.by_id) (src.fetch_one_by_id id)

  unfoldable pub by_name : String → List RefreshOption → Exec (State W T) E (Option T)
  unfolding get_from_cache
  by_name name = get_from_cache (λ c. Common.lookup name c.by_name) (src.fetch_one_by_name name)

  unfoldable pub listed : Exec (State W T) E (List T)
  listed s = (ok (values s.cache.by_id), s)

  unfoldable pub refresh_expired : RefreshOpts → Time → Exec (State W T) E (Unit {0})
  refresh_expired o now s =
      let refreshed_all_at = oldest s.cache.by_id zero_time in
      if int_le (time_sub now refreshed_all_at) o.max_age
      then count o.mode hit s
      else (do count o.mode miss; refresh_all) s

  -- `Cache.All`; the slice has the order of the map's iteration.
  unfoldable pub all_values : List RefreshOption → Exec (State W T) E (List T)
  unfolding refresh_expired listed
  all_values opts s =
      let o = new_cache_refresh_opts s.cache opts in
      (do now ← time_now; refresh_expired o now; listed) s
