-- ===== src/Robot/RateLimitLaws.antt =====
-- When the rate-limited client asks the Robot API.
use hcloud_cloud_controller.Common.{
  ℤ, true, false, none, [], ◌≡◌, refl, Bool-cases, inl, inr, if◌then◌else◌, ltb, ok, err, Exec,
  Time, time_add, zero_time,
}
use hcloud_cloud_controller.Robot.RateLimit.{
  RobotClient, Environment, State, inner, rate_limit_exceeded, set, is_exceeded, is_rate_limit,
  handle_error, error_or_nil, refuse, forward, guarded, server_get, server_get_list, reset_get,
}

-- The end of the wait time.
abbrev pub next_possible_call : {W : Type 0} → State W → Time
next_possible_call s = time_add s.limit.last_checked s.limit.wait_time

module _ {W E : Type 0} (env : Environment W E) where
  -- The first and the second reading of the clock from here.
  abbrev pub first_reading : State W → Time
  first_reading s = (env.now s.world).0

  abbrev pub second_reading : State W → Time
  second_reading s = (env.now (env.now s.world).1).0

  guarded_waiting :
      {A : Type 0} (nil : A) (m : Exec W E A) (s : State W)
      → s.limit.exceeded ≡ true
      → ltb (first_reading s) (next_possible_call s) ≡ true
      → ltb (second_reading s) (next_possible_call s) ≡ true
      → guarded env nil m (is_exceeded env s) ≡ (
        err (rate_limit_exceeded (next_possible_call s)),
        record { limit = s.limit; world = (env.now (env.now s.world).1).1 },
      )
  unfolding is_exceeded
  guarded_waiting nil m s on first second =
      rw (on, first) (unfold guarded refuse in rw second (unfold error_or_nil in refl))

  guarded_race :
      {A : Type 0} (nil : A) (m : Exec W E A) (s : State W)
      → s.limit.exceeded ≡ true
      → ltb (first_reading s) (next_possible_call s) ≡ true
      → ltb (second_reading s) (next_possible_call s) ≡ false
      → ((guarded env nil m (is_exceeded env s)).0 ≡ ok nil)
        × ((guarded env nil m (is_exceeded env s)).1.world ≡ (env.now (env.now s.world).1).1)
  unfolding is_exceeded
  guarded_race nil m s on first second =
      rw (on, first) (unfold guarded refuse in rw second (unfold error_or_nil in (refl, refl)))

  guarded_free :
      {A : Type 0} (nil : A) (m : Exec W E A) (s : State W)
      → s.limit.exceeded ≡ true
      → ltb (first_reading s) (next_possible_call s) ≡ false
      → guarded env nil m (is_exceeded env s)
        ≡ forward env m (record {
          limit = record s.limit { exceeded = false; last_checked = zero_time };
          world = (env.now s.world).1;
        })
  unfolding is_exceeded
  guarded_free nil m s on first = rw (on, first) (unfold guarded in refl)

  module _ {Server Reset : Type 0} (client : RobotClient W E Server Reset) where
    -- While the limit is exceeded and both readings of the clock lie before the end of the wait
    -- time, each of the three calls fails with that end as the time of the next try; it does not
    -- ask the API, and leaves the record of the limit as it is.
    pub calls_refused :
        (id : ℤ) (s : State W)
        → s.limit.exceeded ≡ true
        → ltb (first_reading s) (next_possible_call s) ≡ true
        → ltb (second_reading s) (next_possible_call s) ≡ true
        → let refusal = rate_limit_exceeded (next_possible_call s) in
          let after : State W = record {
            limit = s.limit;
            world = (env.now (env.now s.world).1).1;
          } in
          (server_get env client id s ≡ (err refusal, after))
          × (server_get_list env client s ≡ (err refusal, after))
          × (reset_get env client id s ≡ (err refusal, after))
    unfolding server_get server_get_list reset_get
    calls_refused id s on first second = (
      guarded_waiting none (client.server_get id) s on first second,
      guarded_waiting [] client.server_get_list s on first second,
      guarded_waiting none (client.reset_get id) s on first second,
    )

    -- If the wait time ends between the two readings of the clock of one call, the call returns
    -- neither a value nor an error, without asking the API.
    pub nil_without_error :
        (id : ℤ) (s : State W)
        → s.limit.exceeded ≡ true
        → ltb (first_reading s) (next_possible_call s) ≡ true
        → ltb (second_reading s) (next_possible_call s) ≡ false
        → ((server_get env client id s).0 ≡ ok none)
          × ((server_get_list env client s).0 ≡ ok [])
          × ((reset_get env client id s).0 ≡ ok none)
          × ((server_get env client id s).1.world ≡ (env.now (env.now s.world).1).1)
    unfolding server_get server_get_list reset_get
    nil_without_error id s on first second = (
      (guarded_race none (client.server_get id) s on first second).0,
      (guarded_race [] client.server_get_list s on first second).0,
      (guarded_race none (client.reset_get id) s on first second).0,
      (guarded_race none (client.server_get id) s on first second).1,
    )

    -- A failure of `ServerGet` at the API is passed on; if it tells of an exceeded rate limit, the
    -- limit is recorded at the instant that the clock then shows, with the wait time unchanged, and
    -- otherwise the record says that no limit is exceeded.
    pub server_get_failed :
        (id : ℤ) (s : State W) (e : E)
        → s.limit.exceeded ≡ false
        → (client.server_get id s.world).0 ≡ err e
        → let r = server_get env client id s in
          let w = (client.server_get id s.world).1 in
          (r.0 ≡ err (inner e))
          × (r.1.limit.exceeded ≡ is_rate_limit env e)
          × (r.1.limit.wait_time ≡ s.limit.wait_time)
          × (r.1.limit.last_checked
              ≡ (if is_rate_limit env e then (env.now w).0 else s.limit.last_checked))
    unfolding server_get is_exceeded
    server_get_failed id s e off failed = rw off (
        unfold guarded forward in
        rw failed (
          unfold handle_error set in
          elim (Bool-cases (is_rate_limit env e)) [
            | inl limited ↦ rw limited (refl, refl, refl, refl)
            | inr other ↦ rw other (refl, refl, refl, refl)
          ]))

    -- Once the clock shows an instant at or after the end of the wait time, `ServerGet` asks the
    -- API, after the record of the limit was reset.
    pub server_get_after_wait :
        (id : ℤ) (s : State W)
        → s.limit.exceeded ≡ true
        → ltb (first_reading s) (next_possible_call s) ≡ false
        → server_get env client id s
          ≡ forward env (client.server_get id) (record {
            limit = record {
              wait_time = s.limit.wait_time;
              exceeded = false;
              last_checked = zero_time;
            };
            world = (env.now s.world).1;
          })
    unfolding server_get
    server_get_after_wait id s = guarded_free none (client.server_get id) s
