-- ===== src/Robot/RateLimit.antt =====
-- internal/robot/ratelimit.go: `rateLimitClient`. A pair of a nil value and a nil error, which the
-- code can return, is `ok` of the empty value.
use hcloud_cloud_controller.Common.{
  ℤ, Bool, true, false, ◌||◌, Option, none, List, [], ◌∷◌, if◌then◌else◌, ltb, Result, ok, err,
  Exec, Time, Duration, zero_time, time_add,
}
use hcloud_cloud_controller.ProviderId.{Bytes, codes, has_prefix}

-- `hrobot.RobotClient`, as far as it is used, over the state `W` of the API and the clock.
pub record RobotClient (W E Server Reset : Type 0) : Type 0 where
  pub server_get : ℤ → Exec W E (Option Server)
  pub server_get_list : Exec W E (List Server)
  pub reset_get : ℤ → Exec W E (Option Reset)

-- What the wrapper needs of the environment: the clock, `hrobotmodels.IsError` for the code of an
-- exceeded rate limit, and `Error()`.
pub record Environment (W E : Type 0) : Type 0 where
  pub now : W → Time × W
  pub is_rate_limit_code : E → Bool
  pub message : E → Bytes

pub record RateLimit : Type 0 where
  pub wait_time : Duration
  pub exceeded : Bool
  pub last_checked : Time

pub record State (W : Type 0) : Type 0 where
  pub limit : RateLimit
  pub world : W

pub data ClientError (E : Type 0) : Type 0 where
  inner : E → ClientError E
  rate_limit_exceeded : Time → ClientError E

unfoldable pub new_rate_limited_client : Duration → RateLimit
new_rate_limited_client wait_time = record {
  wait_time = wait_time;
  exceeded = false;
  last_checked = zero_time;
}

-- `strings.Contains`
unfoldable pub contains : Bytes → Bytes → Bool
unfolding has_prefix
contains [] p = has_prefix [] p
contains (c ∷ s) p = has_prefix (c ∷ s) p || contains s p

abbrev pub forbidden : Bytes
forbidden = codes "server responded with status code 403"

module _ {W E : Type 0} (env : Environment W E) where
  unfoldable pub set : State W → State W
  set s =
      let (now, w) = env.now s.world in
      record { limit = record s.limit { exceeded = true; last_checked = now }; world = w }

  -- The clock is read only if the limit was exceeded.
  unfoldable pub check_wait : Time → State W → Bool × State W
  check_wait now s =
      if ltb now (time_add s.limit.last_checked s.limit.wait_time) then (true, s) else (
        false,
        record s { limit = record s.limit { exceeded = false; last_checked = zero_time } },
      )

  unfoldable pub is_exceeded : State W → Bool × State W
  unfolding check_wait
  is_exceeded s =
      if s.limit.exceeded
      then (let (now, w) = env.now s.world in check_wait now (record s { world = w }))
      else (false, s)

  unfoldable pub is_rate_limit : E → Bool
  unfolding contains
  is_rate_limit e = env.is_rate_limit_code e || contains (env.message e) forbidden

  unfoldable pub handle_error :
      {A : Type 0} → Result E A → State W → Result (ClientError E) A × State W
  unfolding set
  handle_error (ok a) s = (ok a, s)
  handle_error (err e) s = (err (inner e), if is_rate_limit e then set s else s)

  -- The error that `getRateLimitError` returns for the answer of its own check.
  unfoldable pub error_or_nil :
      {A : Type 0} → A → Bool × State W → Result (ClientError E) A × State W
  error_or_nil nil (true, s) =
      (err (rate_limit_exceeded (time_add s.limit.last_checked s.limit.wait_time)), s)
  error_or_nil nil (false, s) = (ok nil, s)

  -- `return nil, c.getRateLimitError()`
  unfoldable pub refuse : {A : Type 0} → A → State W → Result (ClientError E) A × State W
  unfolding is_exceeded error_or_nil
  refuse nil s = error_or_nil nil (is_exceeded s)

  unfoldable pub forward : {A : Type 0} → Exec W E A → State W → Result (ClientError E) A × State W
  unfolding handle_error
  forward m s = let (r, w) = m s.world in handle_error r (record s { world = w })

  unfoldable pub guarded :
      {A : Type 0} → A → Exec W E A → Bool × State W → Result (ClientError E) A × State W
  unfolding refuse forward
  guarded nil m (true, s) = refuse nil s
  guarded nil m (false, s) = forward m s

  module _ {Server Reset : Type 0} (client : RobotClient W E Server Reset) where
    unfoldable pub server_get : ℤ → Exec (State W) (ClientError E) (Option Server)
    unfolding guarded
    server_get id s = guarded none (client.server_get id) (is_exceeded s)

    unfoldable pub server_get_list : Exec (State W) (ClientError E) (List Server)
    unfolding guarded
    server_get_list s = guarded [] client.server_get_list (is_exceeded s)

    unfoldable pub reset_get : ℤ → Exec (State W) (ClientError E) (Option Reset)
    unfolding guarded
    reset_get id s = guarded none (client.reset_get id) (is_exceeded s)
