-- ===== src/Robot/ServerCache.antt =====
-- internal/robot/cache.go: `cacheRobotClient`. The mutex makes each operation one step.
use mathlib.Core.List.{foldl}
use hcloud_cloud_controller.Common.{
  ℤ, Option, none, some, List, [], if◌then◌else◌, ltb, ok, err, Exec, ◌>>=◌, ◌>>◌, lookup, insert,
  Eq-int, Time, Duration, zero_time, time_add,
}
use hcloud_cloud_controller.Robot.RateLimit.{RobotClient}

pub record ServerCache (Server : Type 0) : Type 0 where
  pub timeout : Duration
  pub last_update : Time
  pub servers : List Server
  pub servers_by_id : List (ℤ × Server)

pub record State (W Server : Type 0) : Type 0 where
  pub cache : ServerCache Server
  pub world : W

pub data CacheError (E : Type 0) : Type 0 where
  inner : E → CacheError E
  server_not_found : CacheError E

unfoldable pub new_cached_client : {Server : Type 0} → Duration → ServerCache Server
new_cached_client timeout = record {
  timeout = timeout;
  last_update = zero_time;
  servers = [];
  servers_by_id = [];
}

-- The loop that fills `serversByID`; `number` is the field `ServerNumber`.
unfoldable pub index_servers : {Server : Type 0} → (Server → ℤ) → List Server → List (ℤ × Server)
index_servers number = foldl (λ m server. insert (number server) server m) []

module _ {W E Server Reset : Type 0} (now : W → Time × W) (number : Server → ℤ)
    (client : RobotClient W E Server Reset) where
  unfoldable pub call : {A : Type 0} → Exec W E A → Exec (State W Server) (CacheError E) A
  call m s =
      let (r, w) = m s.world in
      (elim r [ ok a ↦ ok a | err e ↦ err (inner e) ], record s { world = w })

  unfoldable pub time_now : Exec (State W Server) (CacheError E) Time
  time_now s = let (t, w) = now s.world in (ok t, record s { world = w })

  -- The servers are stored before the clock is read.
  unfoldable pub store_servers : List Server → Exec (State W Server) (CacheError E) (Unit {0})
  unfolding index_servers
  store_servers servers s = (
    ok tt,
    record s {
      cache = record s.cache { servers = servers; servers_by_id = index_servers number servers };
    },
  )

  unfoldable pub set_last_update : Time → Exec (State W Server) (CacheError E) (Unit {0})
  set_last_update t s = (ok tt, record s { cache = record s.cache { last_update = t } })

  unfoldable pub update : Exec (State W Server) (CacheError E) (Unit {0})
  unfolding call time_now set_last_update
  update = do
    servers ← call client.server_get_list
    store_servers servers
    t ← time_now
    set_last_update t

  unfoldable pub update_if_due : Time → Exec (State W Server) (CacheError E) (Unit {0})
  update_if_due t s =
      if ltb t (time_add s.cache.last_update s.cache.timeout) then (ok tt, s) else update s

  unfoldable pub update_cache_if_necessary : Exec (State W Server) (CacheError E) (Unit {0})
  unfolding update_if_due
  update_cache_if_necessary = do t ← time_now; update_if_due t

  unfoldable pub find_server : ℤ → Exec (State W Server) (CacheError E) Server
  find_server id s =
      (elim (lookup id s.cache.servers_by_id) [ none ↦ err server_not_found | some v ↦ ok v ], s)

  unfoldable pub all_servers : Exec (State W Server) (CacheError E) (List Server)
  all_servers s = (ok s.cache.servers, s)

  unfoldable pub server_get : ℤ → Exec (State W Server) (CacheError E) Server
  unfolding find_server
  server_get id = do update_cache_if_necessary; find_server id

  unfoldable pub server_get_list : Exec (State W Server) (CacheError E) (List Server)
  unfolding all_servers
  server_get_list = do update_cache_if_necessary; all_servers

  unfoldable pub reset_get : ℤ → Exec (State W Server) (CacheError E) (Option Reset)
  reset_get id = call (client.reset_get id)
