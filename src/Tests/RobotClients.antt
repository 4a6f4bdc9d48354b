-- ===== src/Tests/RobotClients.antt =====
-- internal/robot with one server at the API and a clock that goes on by ten with each reading.
use hcloud_cloud_controller.Common.{
  ℕ, ◌+◌, ℤ, pos, Bool, true, false, ◌≡◌, refl, none, some, [], ◌∷◌, ok, err, time_add, lookup,
  if◌then◌else◌, Eq-int,
}
use hcloud_cloud_controller.ProviderId.{Bytes}
use hcloud_cloud_controller.Robot.RateLimit.{
  RobotClient, Environment, State, rate_limit_exceeded, server_get, server_get_list, reset_get,
  forbidden,
}
use hcloud_cloud_controller.Robot.RateLimitLaws.{calls_refused, nil_without_error}
use hcloud_cloud_controller.Robot.ServerCache
use hcloud_cloud_controller.Robot.ServerCacheLaws.{server_get_indexed, IsIndexed}

-- The instant, and the answer of the API that is due.
abbrev World : Type 0
World = ℕ × Bool

abbrev clock : World → ℕ × World
clock (t, b) = (t, (t + 10, b))

abbrev env : Environment World Bytes
env = record { now = clock; is_rate_limit_code = λ e. false; message = λ e. e }

abbrev client : RobotClient World Bytes ℤ ℤ
client = record {
  server_get = λ id w. (if w.1 then ok (some id) else err forbidden, w);
  server_get_list = λ w. (if w.1 then ok (pos 321 ∷ []) else err forbidden, w);
  reset_get = λ id w. (ok none, w);
}

abbrev waiting : ℕ → State World
waiting t = record {
  limit = record { wait_time = pos 100; exceeded = true; last_checked = 50 };
  world = (t, true);
}

abbrev refused : State World
refused = record (waiting 60) {
  limit = record (waiting 60).limit { exceeded = false };
  world = (60, false);
}

calls_refused_example :
    (server_get env client (pos 321) (waiting 60)
      ≡ (err (rate_limit_exceeded 150), record (waiting 60) { world = (80, true) }))
    × (server_get_list env client (waiting 60)
        ≡ (err (rate_limit_exceeded 150), record (waiting 60) { world = (80, true) }))
    × (reset_get env client (pos 321) (waiting 60)
        ≡ (err (rate_limit_exceeded 150), record (waiting 60) { world = (80, true) }))
unfolding time_add
calls_refused_example = calls_refused env client (pos 321) (waiting 60) refl refl refl

-- The wait time ends at 150, between the readings 145 and 155.
nil_without_error_example :
    ((server_get env client (pos 321) (waiting 145)).0 ≡ ok none)
    × ((server_get_list env client (waiting 145)).0 ≡ ok [])
    × ((reset_get env client (pos 321) (waiting 145)).0 ≡ ok none)
    × ((server_get env client (pos 321) (waiting 145)).1.world ≡ (165, true))
unfolding time_add
nil_without_error_example = nil_without_error env client (pos 321) (waiting 145) refl refl refl

abbrev cached : ServerCache.State World ℤ
cached = record {
  cache = record {
    timeout = pos 100;
    last_update = 50;
    servers = pos 321 ∷ [];
    servers_by_id = (pos 321, pos 321) ∷ [];
  };
  world = (60, true);
}

cached-IsIndexed : IsIndexed (λ (v : ℤ). v) cached.cache
unfolding lookup
cached-IsIndexed = record { indexed = λ id. refl }

server_get_indexed_example :
    IsIndexed
      (λ (v : ℤ). v)
      (ServerCache.server_get clock (λ (v : ℤ). v) client (pos 321) cached).1.cache
    × ((ServerCache.server_get clock (λ (v : ℤ). v) client (pos 321) cached).1
        ≡ record cached { world = (70, true) })
    × ((ServerCache.server_get clock (λ (v : ℤ). v) client (pos 321) cached).0 ≡ ok (pos 321))
unfolding ServerCache.update_cache_if_necessary ServerCache.update_if_due ServerCache.time_now
    time_add
server_get_indexed_example =
    server_get_indexed clock (λ (v : ℤ). v) client (pos 321) cached cached-IsIndexed
