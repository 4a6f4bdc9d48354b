-- ===== src/Common/Clock.antt =====
-- Go's `time`: an instant is the number of nanoseconds since the zero time, and a duration is a
-- signed number of nanoseconds.
use Prim.Native.Nat.{ℕ, suc, ◌+◌, ◌-◌, ◌^◌}
use hcloud_cloud_controller.Common.Keys.{ℤ, pos, negsuc}
use hcloud_cloud_controller.Common.Tests.{leb, ltb, if◌then◌else◌}

abbrev pub Time : Type 0
Time = ℕ

abbrev pub Duration : Type 0
Duration = ℤ

abbrev pub second : ℕ
second = 1_000_000_000

abbrev pub zero_time : Time
zero_time = 0

-- `t.Sub(u)`, which saturates at the largest and the smallest duration
unfoldable pub time_sub : Time → Time → Duration
time_sub t u =
    if leb u t
    then (if ltb (t - u) (2 ^ 63) then pos (t - u) else pos (2 ^ 63 - 1))
    else if ltb (u - t - 1) (2 ^ 63)
    then negsuc (u - t - 1)
    else negsuc (2 ^ 63 - 1)

-- `t.Add(d)`; an instant before the zero time does not occur and is put to it
unfoldable pub time_add : Time → Duration → Time
time_add t (pos n) = t + n
time_add t (negsuc n) = t - suc n
