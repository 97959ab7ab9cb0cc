-- ===== src/FakeGripper/Loops.antt =====
-- The wait loops of the application over the fake device end with fuel for the schedule, and keep
-- what each wait keeps, whatever they wait for.
use grippers.Prelude.{
  ℕ, zero, suc, ◌+◌, ◌≤◌, ◌<◌, ◌≡◌, refl, Bool, true, false, none, some, length, arith, Bool-cases,
  inl, inr, ltb, if◌then◌else◌,
}
use grippers.Byte.{u64}
use grippers.RegisterModel.{RegisterModel}
use grippers.ModbusClient.{Nmbs}
use grippers.ModbusClient.Loopback.{Carries}
use grippers.ProcessImage.{StampedExchange}
use grippers.Gripper.{
  Waited, out_of_fuel, timed_out, seen, remaining, deadline_after, judge, wait_loop, wait_round,
  wait_for,
}
use grippers.FakeGripper.{Run, gripper, wait_run, wait_on}
use grippers.FakeGripper.Healthy.{Healthy, wait_on-Healthy}
use grippers.FakeGripper.Wiring.{wait_on-uses}

-- A wait came to an end.
abbrev pub Ended : Waited → Type 0
Ended out_of_fuel = ⊥
Ended timed_out = Unit {0}
Ended (seen e) = Unit {0}

-- A deadline that is recomputed from the time left is at most a millisecond late.
pub deadline_bounded :
    (deadline bound clock : ℕ)
    → clock ≤ bound
    → deadline + 1000000 ≤ bound
    → deadline_after (remaining deadline clock) clock ≤ bound
unfolding deadline_after remaining
deadline_bounded deadline bound clock h fits = ground arith

-- What every wait up to a bound keeps.
pub record WaitKeeps (n : Nmbs RegisterModel) (P : Run → Type 0) (bound : ℕ) : Type 0 where
  pub within : (w : Run) → P w → w.clock ≤ bound
  pub room :
      (w : Run)
      → P w
      → w.state.image.stamped.exchange_count + length w.schedule < 18446744073709551615
  pub waits_keep :
      (desired deadline : ℕ) (w : Run)
      → deadline ≤ bound
      → P w
      → P (wait_on n desired deadline w.schedule w.system)

pub Healthy-WaitKeeps :
    (n : Nmbs RegisterModel)
    → Carries n
    → (until bound : ℕ) → WaitKeeps n (Healthy until bound) bound
Healthy-WaitKeeps n link until bound = record {
  within = λ w h. h.within;
  room = λ w h. h.room;
  waits_keep =
      λ desired deadline w fits h. wait_on-Healthy n link until bound desired deadline w fits h;
}

module _ (n : Nmbs RegisterModel) (P : Run → Type 0) (bound : ℕ) (k : WaitKeeps n P bound) where
  -- The wait ended, kept what waits keep, and left no more of the schedule than there was.
  abbrev pub Kept : ℕ → Waited × Run → Type 0
  Kept left (r, w) = P w × Ended r × (length w.schedule ≤ left)

  judge-Kept :
      (predicate : StampedExchange → Bool) (again : StampedExchange → Run → Waited × Run) (left : ℕ)
      (late : Bool) (w : Run)
      → P w
      → length w.schedule ≤ left
      → (late ≡ false → Kept left (again w.state.image.stamped w))
      → Kept left (judge predicate again (if late then none else some w.state.image.stamped, w))
  unfolding judge
  judge-Kept predicate again left true w p l more = (p, tt, l)
  judge-Kept predicate again left false w p l more =
      elim (Bool-cases (predicate w.state.image.stamped)) [
        | inl met ↦ rw met (p, tt, l)
        | inr unmet ↦ rw unmet (more refl)
      ]

  pub wait_loop-Kept :
      (fuel deadline : ℕ) (predicate : StampedExchange → Bool) (desired : ℕ) (w : Run)
      → P w
      → desired ≡ w.state.image.stamped.exchange_count + 1
      → length w.schedule < fuel
      → deadline + 1000000 ≤ bound
      → Kept (length w.schedule) (wait_loop (gripper n) fuel deadline predicate desired w)
  unfolding wait_loop wait_round wait_run
  wait_loop-Kept zero deadline predicate desired w p d l fits = absurd (omega arith)
  wait_loop-Kept (suc fuel) deadline predicate desired w p d l fits =
      let at = deadline_after (remaining deadline w.clock) w.clock in
      let w1 = wait_on n desired at w.schedule w.system in
      let p1 =
        k.waits_keep desired at w (deadline_bounded deadline bound w.clock (k.within w p) fits) p in
      let used = wait_on-uses n desired at w.schedule w.system in
      judge-Kept predicate _ (length w.schedule) (ltb w1.state.image.stamped.exchange_count desired)
        w1 p1 used.1
        λ e.
          let room = k.room w1 p1 in
          let u : u64 (w1.state.image.stamped.exchange_count + 1)
              ≡ w1.state.image.stamped.exchange_count + 1 =
            omega (arith, room) in
          let more : desired ≤ w1.state.image.stamped.exchange_count = ground (arith, e) in
          let x =
            wait_loop-Kept fuel deadline predicate (w1.state.image.stamped.exchange_count + 1) w1 p1
              refl (omega (arith, used.0, d, more, l)) fits in
          rw u (x.0, x.1, omega (arith, x.2, used.1))

  -- A wait from the newest exchange on.
  pub wait_for-Kept :
      (fuel : ℕ) (predicate : StampedExchange → Bool) (timeout : ℕ) (w : Run)
      → P w
      → length w.schedule < fuel
      → deadline_after timeout w.clock + 1000000 ≤ bound
      → Kept (length w.schedule) (wait_for (gripper n) fuel predicate timeout w)
  unfolding wait_for
  wait_for-Kept fuel predicate timeout w p l fits =
      let room = k.room w p in
      let u : u64 (w.state.image.stamped.exchange_count + 1)
          ≡ w.state.image.stamped.exchange_count + 1 =
        omega (arith, room) in
      rw u (
        wait_loop-Kept fuel (deadline_after timeout w.clock) predicate
          (w.state.image.stamped.exchange_count + 1) w p refl l fits)
