-- ===== src/Tests/Caches.antt =====
-- internal/cache/cache.go with two servers at the API, a clock that goes on by one with each
-- reading, and an API that is down.
use hcloud_cloud_controller.Common.{
  ℕ, suc, ◌+◌, ◌*◌, ℤ, pos, String, Bool, true, false, ◌≡◌, refl, Option, none, some, List, [], ◌∷◌,
  ◌++◌, Result, ok, err, Exec, if◌then◌else◌, int_eq, int_le, time_sub, second, Eq-int, Eq-string,
  ◌==◌,
}
use hcloud_cloud_controller.Common
use hcloud_cloud_controller.Cache.{
  Source, State, Mode, with_mode, with_max_age, new_cache, is_off, new_cache_refresh_opts,
  valid_value, oldest, values, evict, call, time_now, count, store, store_and_evict, store_fetched,
  refresh_one, store_all, refresh_all, refresh, look_again, after_lookup, get_cached,
  get_from_cache, by_id, by_name, listed, refresh_expired, all_values,
}
use hcloud_cloud_controller.Cache.Keyed.{IsKeyed, cache_ops-IsKeyed}
use hcloud_cloud_controller.Cache.Fresh.{IsFresh, by_id-IsFresh, by_id_returns_id}
use hcloud_cloud_controller.Cache.Partial.{all_values_partial}

abbrev Server : Type 0
Server = ℤ × String

abbrev alpha : Server
alpha = (pos 7, "alpha")

abbrev beta : Server
beta = (pos 8, "beta")

abbrev api : Source ℕ String Server
api = record {
  fetch_one_by_id = λ id w. (ok (if int_eq id (pos 7) then some alpha else none), w);
  fetch_one_by_name = λ name w. (ok (if name == "alpha" then some alpha else none), w);
  fetch_all = λ w. (ok (alpha ∷ beta ∷ []), w);
  get_id = λ v. v.0;
  get_name = λ v. v.1;
  now = λ w. (w, suc w);
}

abbrev down : Source ℕ String Server
down = record api { fetch_one_by_id = λ id w. (err "down", w); fetch_all = λ w. (err "down", w) }

abbrev age : ℤ
age = pos (10 * second)

abbrev start : State ℕ Server
start = record { cache = new_cache Mode.all age; world = 100 }

-- Both servers were fetched at the instant 90.
abbrev filled : State ℕ Server
filled = record {
  cache = record {
    default_max_age = age;
    default_mode = Mode.one;
    by_id =
        (pos 7, record { refreshed_at = 90; value = alpha })
        ∷ (pos 8, record { refreshed_at = 90; value = beta })
        ∷ [];
    by_name =
        ("alpha", record { refreshed_at = 90; value = alpha })
        ∷ ("beta", record { refreshed_at = 90; value = beta })
        ∷ [];
    metric = [];
  };
  world = 100;
}

program : Unit {0}
unfolding with_mode with_max_age new_cache is_off new_cache_refresh_opts valid_value oldest values
    evict call time_now count store store_and_evict store_fetched refresh_one store_all refresh_all
    refresh look_again after_lookup get_cached get_from_cache by_id by_name listed refresh_expired
    all_values Common.lookup Common.insert time_sub
program = tt

start-IsKeyed : IsKeyed api start.cache
unfolding program
start-IsKeyed = record { ids = tt; names = tt }

filled-IsKeyed : IsKeyed api filled.cache
filled-IsKeyed = record { ids = (refl, (refl, tt)); names = (refl, (refl, tt)) }

found : (by_id api "test" (pos 8) [] start).0 ≡ ok (some beta)
unfolding program
found = refl

on : is_off (new_cache_refresh_opts start.cache []).mode ≡ false
unfolding program
on = refl

cache_ops-IsKeyed_example :
    ((id : ℤ) → IsKeyed api (by_id api "test" id [] start).1.cache)
    × ((name : String) → IsKeyed api (by_name api "test" name [] start).1.cache)
    × IsKeyed api (all_values api "test" [] start).1.cache
cache_ops-IsKeyed_example = cache_ops-IsKeyed api "test" start [] start-IsKeyed

by_id-IsFresh_example :
    IsFresh api
      (Common.lookup (pos 8) (by_id api "test" (pos 8) [] start).1.cache.by_id)
      (by_id api "test" (pos 8) [] start).1.world
      (new_cache_refresh_opts start.cache []).max_age
      beta
by_id-IsFresh_example = by_id-IsFresh api "test" (pos 8) [] start beta on found

by_id_returns_id_example : api.get_id beta ≡ pos 8
by_id_returns_id_example = by_id_returns_id api "test" (pos 8) [] start beta start-IsKeyed on found

-- The server beta is at the API, but is not listed.
all_values_partial_example :
    ((all_values api "test" []
        (refresh_one api "test"
          (api.fetch_one_by_id (pos 7))
          (record { cache = new_cache Mode.one age; world = 100 })).1).0
      ≡ ok (alpha ∷ []))
    × ((all_values api "test" []
          (refresh_one api "test"
            (api.fetch_one_by_id (pos 7))
            (record { cache = new_cache Mode.one age; world = 100 })).1).1.world
        ≡ 102)
unfolding program
all_values_partial_example =
    all_values_partial api "test" Mode.one age (api.fetch_one_by_id (pos 7)) 100 100 101 alpha 100
      refl refl refl
