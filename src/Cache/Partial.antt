-- ===== src/Cache/Partial.antt =====
-- What `All` lists after single entries were fetched.
use hcloud_cloud_controller.Common
use hcloud_cloud_controller.Common.{
  ℤ, String, Option, none, some, List, [], ◌∷◌, ◌≡◌, refl, Eq-int, Exec, Result, ok, err, Time,
  true, false, arith, int_le, time_sub, insert, ltb, ◌+◌, ◌*◌, second, zero_time, nat_eq, ◌≤◌,
}
use hcloud_cloud_controller.Cache.{
  Source, State, Entry, Mode, refresh_one, store_fetched, store_and_evict, call, time_now, count,
  all_values, values, oldest, new_cache_refresh_opts, new_cache,
}

module _ {W E T : Type 0} (src : Source W E T) (subsystem : String) where
  -- The state after a single value was fetched into an empty cache at the instant `t`.
  after_first : Mode → Common.Duration → T → Time → W → State W T
  after_first mode max_age v t w =
      let e : Entry T = record { refreshed_at = t; value = v } in
      record {
        cache = record (new_cache mode max_age) {
          by_id = (src.get_id v, e) ∷ [];
          by_name = (src.get_name v, e) ∷ [];
        };
        world = w;
      }

  refresh_one_first :
      (mode : Mode) (max_age : Common.Duration) (fetch : Exec W E (Option T)) (w w' w'' : W) (v : T)
      (t : Time)
      → fetch w ≡ (ok (some v), w')
      → src.now w' ≡ (t, w'')
      → (refresh_one src subsystem fetch (record { cache = new_cache mode max_age; world = w })).1
        ≡ after_first mode max_age v t w''
  unfolding refresh_one call
  refresh_one_first mode max_age fetch w w' w'' v t f r = rw f (
      unfold store_fetched time_now in
      rw r (
        unfold store_and_evict new_cache insert after_first in
        let young : ltb (t + 3600 * second) t ≡ false = ground arith in rw young))

  -- After a single value was fetched into an empty cache, and while it is fresh, `All` returns that
  -- value alone: it does not ask the API, of which it only reads the clock.
  pub all_values_partial :
      (mode : Mode) (max_age : Common.Duration) (fetch : Exec W E (Option T)) (w w' w'' : W) (v : T)
      (t : Time)
      → fetch w ≡ (ok (some v), w')
      → src.now w' ≡ (t, w'')
      → int_le (time_sub (src.now w'').0 t) max_age ≡ true
      → ((all_values src subsystem []
            (refresh_one src subsystem fetch
              (record { cache = new_cache mode max_age; world = w })).1).0
          ≡ ok (v ∷ []))
        × ((all_values src subsystem []
              (refresh_one src subsystem fetch
                (record { cache = new_cache mode max_age; world = w })).1).1.world
            ≡ (src.now w'').1)
  all_values_partial mode max_age fetch w w' w'' v t f r young =
      rw (refresh_one_first mode max_age fetch w w' w'' v t f r) (
        unfold all_values after_first new_cache_refresh_opts new_cache time_now oldest in
        rw young (unfold count values in (refl, refl)))
