-- ===== src/Ticks.antt =====
-- sdk_cpp/ports/threadx/threadx_ticks.hpp. The kernel's tick rate and its "wait forever" value are
-- those of tx_api.h, so they are parameters; durations are nanoseconds, one that is not positive
-- being 0.
use native.Mathlib.Nat.{
  le_trans, mul-le-mul_right, div-mul-le_self, min-le_right, le-div_iff_mul-le,
}
use grippers.Prelude.{ℕ, ◌+◌, ◌-◌, ◌*◌, ◌/◌, ◌≤◌, ◌<◌, min, arith, if◌then◌else◌, ◌==◌}

abbrev pub ns_per_second : ℕ
ns_per_second = 1000000000

module _ (per_second wait_forever : ℕ) where
  max_ticks : ℕ
  max_ticks = wait_forever - 1

  pub max_ns : ℕ
  unfolding max_ticks
  max_ns = max_ticks * ns_per_second / per_second

  -- The 64-bit numerator of the division.
  numerator : ℕ → ℕ
  unfolding max_ns
  numerator duration = min duration max_ns * per_second + ns_per_second - 1

  pub blocking_ticks : ℕ → ℕ
  unfolding numerator
  blocking_ticks duration = if duration == 0 then 0 else numerator duration / ns_per_second

module _ (per_second wait_forever duration : ℕ) (rate : 0 < per_second)
    (fast : per_second ≤ ns_per_second) (forever : 1 < wait_forever) where
  -- The nanoseconds that are waited for, and the same in units of a tick over a second.
  abbrev waited : ℕ
  waited = min duration (max_ns per_second wait_forever)

  saturated : waited * per_second ≤ (wait_forever - 1) * ns_per_second
  unfolding max_ns max_ticks
  saturated =
      le_trans
        (mul-le-mul_right per_second (min-le_right duration (max_ns per_second wait_forever)))
        (div-mul-le_self ((wait_forever - 1) * ns_per_second) per_second)

  one_ns : 1 ≤ max_ns per_second wait_forever
  unfolding max_ns max_ticks
  one_ns = (le-div_iff_mul-le rate).1 (omega arith)

  some_time : 0 < duration → 1 ≤ waited * per_second
  some_time pos = grind (arith, one_ns)

  -- For a tick rate and a "wait forever" value of the kernel, as the section takes them: any time
  -- left is worth a tick or more; a finite wait stays under the value that means forever;
  -- the ticks cover the time, up to the time of the ticks below that value, rounded down to a
  -- nanosecond, and overshoot it by less than one tick.
  pub blocking_ticks_lem :
      0 < duration
      → (let ticks = blocking_ticks per_second wait_forever duration in
          let time = min duration ((wait_forever - 1) * 1000000000 / per_second) * per_second in
          (1 ≤ ticks)
          × (ticks < wait_forever)
          × (time ≤ ticks * 1000000000)
          × (ticks * 1000000000 < time + 1000000000))
  unfolding blocking_ticks max_ns max_ticks
  blocking_ticks_lem pos = ground (arith, some_time, saturated)
