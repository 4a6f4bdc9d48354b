-- ===== src/Robot/ServerCacheLaws.antt =====
-- What the cached Robot client answers.
use mathlib.Core.List.{foldl}
use hcloud_cloud_controller.Common
use hcloud_cloud_controller.Common.{
  ℤ, Option, none, some, List, [], ◌∷◌, ◌≡◌, refl, arith, if◌then◌else◌, ltb, true, false, Result,
  ok, err, Exec, ◌>>=◌, ◌>>◌, lookup, insert, lookup-insert, Eq-int, ◌==◌, Time, Keeps, Keeps-bind,
  continue, Bool-cases, inl, inr,
}
use hcloud_cloud_controller.Robot.RateLimit.{RobotClient}
use hcloud_cloud_controller.Robot.ServerCache.{
  ServerCache, State, CacheError, server_not_found, index_servers, call, time_now, store_servers,
  set_last_update, update, update_if_due, update_cache_if_necessary, find_server, server_get,
  server_get_list,
}

-- The last server of the list that has the number, if there is one.
abbrev pub find_last : {Server : Type 0} → (Server → ℤ) → ℤ → List Server → Option Server
find_last number id [] = none
find_last number id (v ∷ vs) = elim (find_last number id vs) [
  | some u ↦ some u
  | none ↦ if number v == id then some v else none
]

lookup-indexed :
    {Server : Type 0} (number : Server → ℤ) (id : ℤ) (vs : List Server) (m : List (ℤ × Server))
    → lookup id (foldl (λ m' v. insert (number v) v m') m vs)
      ≡ elim (find_last number id vs) [ some u ↦ some u | none ↦ lookup id m ]
lookup-indexed number id [] m = refl
lookup-indexed number id (v ∷ vs) m =
    ground
      (arith, lookup-indexed number id vs (insert (number v) v m), lookup-insert (number v) id v m)

lookup-index_servers :
    {Server : Type 0} (number : Server → ℤ) (id : ℤ) (vs : List Server)
    → lookup id (index_servers number vs) ≡ find_last number id vs
unfolding index_servers lookup
lookup-index_servers number id vs = ground (arith, lookup-indexed number id vs [])

-- The map holds, under each number, the last listed server of that number.
pub record IsIndexed {Server : Type 0} (number : Server → ℤ) (c : ServerCache Server) : Type 0 where
  pub indexed : (id : ℤ) → lookup id c.servers_by_id ≡ find_last number id c.servers

module _ {W E Server Reset : Type 0} (now : W → Time × W) (number : Server → ℤ)
    (client : RobotClient W E Server Reset) where
  abbrev Good : State W Server → Type 0
  Good s = IsIndexed number s.cache

  Keeps-call : {A : Type 0} (m : Exec W E A) → Keeps Good (call now number client m)
  unfolding call
  Keeps-call m s h = record { indexed = h.indexed }

  Keeps-time_now : Keeps Good (time_now now number client)
  unfolding time_now
  Keeps-time_now s h = record { indexed = h.indexed }

  Keeps-store_servers : (vs : List Server) → Keeps Good (store_servers now number client vs)
  unfolding store_servers
  Keeps-store_servers vs s h = record { indexed = λ id. lookup-index_servers number id vs }

  Keeps-set_last_update : (t : Time) → Keeps Good (set_last_update now number client t)
  unfolding set_last_update
  Keeps-set_last_update t s h = record { indexed = h.indexed }

  Keeps-update : Keeps Good (update now number client)
  unfolding update
  Keeps-update =
      Keeps-bind Good (call now number client client.server_get_list)
        (λ vs.
          store_servers now number client vs
          >> (time_now now number client >>= set_last_update now number client))
        (Keeps-call client.server_get_list)
        (λ vs.
          Keeps-bind Good (store_servers now number client vs)
            (λ _. time_now now number client >>= set_last_update now number client)
            (Keeps-store_servers vs)
            (λ _.
              Keeps-bind Good (time_now now number client) (set_last_update now number client)
                Keeps-time_now Keeps-set_last_update))

  Keeps-update_if_due : (t : Time) → Keeps Good (update_if_due now number client t)
  unfolding update_if_due
  Keeps-update_if_due t s h =
      elim (Bool-cases (ltb t (Common.time_add s.cache.last_update s.cache.timeout))) [
        | inl fresh ↦ rw fresh h
        | inr due ↦ rw due (Keeps-update s h)
      ]

  Keeps-update_cache : Keeps Good (update_cache_if_necessary now number client)
  unfolding update_cache_if_necessary
  Keeps-update_cache =
      Keeps-bind Good (time_now now number client) _ Keeps-time_now Keeps-update_if_due

  -- What `ServerGet` answers from the servers of the state `t`, and that state.
  abbrev Answers :
      ℤ
      → Result (CacheError E) (Unit {0})
      → State W Server
      → Result (CacheError E) Server × State W Server
      → Type 0
  Answers id u t r =
      IsIndexed number r.1.cache
      × (r.1 ≡ t)
      × (r.0 ≡ elim u [
        | err e ↦ err e
        | ok _ ↦ elim (find_last number id t.cache.servers) [
          | some v ↦ ok v
          | none ↦ err server_not_found
        ]
      ])

  found_after :
      (id : ℤ) (u : Result (CacheError E) (Unit {0})) (t : State W Server)
      → IsIndexed number t.cache
      → Answers id u t (continue u (λ _. find_server now number client id) t)
  unfolding find_server
  found_after id (ok u) t h = (h, refl, rw (h.indexed id, find_server) (ground arith))
  found_after id (err c) t h = (h, refl, refl)

  -- In a cache whose map is the index of its servers, `ServerGet` answers from the servers that it
  -- then holds: if the update succeeds, it returns the last server of that number, and a
  -- not-found error if there is none; if the update fails, so does the call, with the API's error.
  -- The map stays the index of the servers.
  pub server_get_indexed :
      (id : ℤ) (s : State W Server)
      → IsIndexed number s.cache
      → Answers id
          (update_cache_if_necessary now number client s).0
          (update_cache_if_necessary now number client s).1
          (server_get now number client id s)
  unfolding server_get
  server_get_indexed id s h =
      let u = update_cache_if_necessary now number client s in
      found_after id u.0 u.1 (Keeps-update_cache s h)

  -- Before the timeout has passed since the last update, `ServerGet` and `ServerGetList` do not ask
  -- the API: they read the clock once, leave the cache as it is and answer from it.
  pub calls_within_timeout :
      (id : ℤ) (s : State W Server)
      → ltb (now s.world).0 (Common.time_add s.cache.last_update s.cache.timeout) ≡ true
      → let after : State W Server = record { cache = s.cache; world = (now s.world).1 } in
        (server_get_list now number client s ≡ (ok s.cache.servers, after))
        × ((server_get now number client id s).1 ≡ after)
  unfolding server_get server_get_list update_cache_if_necessary time_now
  calls_within_timeout id s h = rw h (refl, refl)
