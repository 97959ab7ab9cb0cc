-- ===== src/FakeGripper/Rounds.antt =====
-- The wait loops of the application over the fake device, when the thread's steps come in time.
use grippers.Prelude.{
  ℕ, suc, ◌+◌, ◌≤◌, ◌<◌, ◌≡◌, refl, ◌∙◌, ap, Bool, true, false, Option, none, some, arith,
  Bool-cases, inl, inr, ltb,
}
use grippers.Byte.{u64}
use grippers.RegisterModel.{RegisterModel, status}
use grippers.ModbusClient.{Nmbs}
use grippers.ModbusClient.Loopback.{Carries}
use grippers.ProcessImage.{StampedExchange}
use grippers.Gripper.{
  Waited, seen, longest, nanoseconds, remaining, deadline_after, judge, wait_round, wait_loop,
}
use grippers.FakeGripper.{Run, gripper, wait_run, wait_on}
use grippers.FakeGripper.Steps.{Shows}
use grippers.FakeGripper.Waiting.{on_wire, Ready, Next, Ready-weaken, wait_on-Next}

-- What any number of exchanges leave, `k` more steps of the thread being in time.
pub record After (time k : ℕ) (w w' : Run) : Type 0 where
  pub shows : Shows w'.state.image.stamped.command w'.state.image.stamped.status
  pub shown : w'.state.image.stamped.status ≡ status w'.device
  pub fault_kept : (status w.device).fault_status.raw ≡ 0 → (status w'.device).fault_status.raw ≡ 0
  pub landed : w'.in_flight ≡ none
  pub same_next : w'.state.image.next_command ≡ w.state.image.next_command
  pub same_history : w'.history ≡ w.history
  pub ready : Ready time k w'

-- A wait that saw an exchange that the predicate holds for, the newest one.
abbrev pub Arrives : ℕ → ℕ → (StampedExchange → Bool) → Run → Waited × Run → Type 0
Arrives time k predicate w (r, w') =
    (r ≡ seen w'.state.image.stamped)
    × (predicate w'.state.image.stamped ≡ true)
    × After time k w w'

-- A deadline that is recomputed from the time left, in milliseconds, does not come early.
pub in_time :
    (time deadline clock : ℕ)
    → clock < time
    → time ≤ deadline
    → time ≤ clock + nanoseconds longest
    → time ≤ deadline_after (remaining deadline clock) clock
unfolding deadline_after remaining
in_time time deadline clock e h near = ground arith

module _ (n : Nmbs RegisterModel) (link : Carries n) (time : ℕ) where
  Next-After : (k : ℕ) (w w' : Run) → Next time k w w' → After time k w w'
  Next-After k w w' x = record {
    shows = x.shows;
    shown = x.shown;
    fault_kept = x.fault_kept;
    landed = x.landed;
    same_next = x.same_next;
    same_history = x.same_history;
    ready = x.ready;
  }

  After-trans :
      (j k : ℕ) (w w1 w2 : Run) → Next time j w w1 → After time k w1 w2 → After time k w w2
  After-trans j k w w1 w2 x y = record {
    shows = y.shows;
    shown = y.shown;
    fault_kept = λ z. y.fault_kept (x.fault_kept z);
    landed = y.landed;
    same_next = y.same_next ∙ x.same_next;
    same_history = y.same_history ∙ x.same_history;
    ready = y.ready;
  }

  After-weaken : (k : ℕ) (w w' : Run) → After time (suc k) w w' → After time k w w'
  After-weaken k w w' x = record {
    shows = x.shows;
    shown = x.shown;
    fault_kept = x.fault_kept;
    landed = x.landed;
    same_next = x.same_next;
    same_history = x.same_history;
    ready = Ready-weaken n link time k w' x.ready;
  }

  -- One round comes back with the next exchange.
  pub wait_round-Next :
      (k deadline desired : ℕ) (w : Run)
      → Ready time (suc (suc k)) w
      → desired ≡ w.state.image.stamped.exchange_count + 1
      → time ≤ deadline
      → (let (o, w') = wait_round (gripper n) deadline desired w in
          (o ≡ some w'.state.image.stamped) × Next time k w w')
  unfolding wait_round wait_run
  wait_round-Next k deadline desired w r d h =
      let x =
        wait_on-Next n link time k desired (deadline_after (remaining deadline w.clock) w.clock) w r
          d (in_time time deadline w.clock r.early h r.near) in
      let w' =
        wait_on n desired (deadline_after (remaining deadline w.clock) w.clock) w.schedule
          w.system in
      let counted : ltb w'.state.image.stamped.exchange_count desired ≡ false =
        ground (arith, d, x.counted) in
      (rw counted refl, x)

  pub judge_seen :
      (predicate : StampedExchange → Bool) (again : StampedExchange → Run → Waited × Run)
      (e : StampedExchange) (x : Option StampedExchange × Run)
      → x.0 ≡ some e
      → predicate e ≡ true
      → judge predicate again x ≡ (seen e, x.1)
  unfolding judge
  judge_seen predicate again e (o, w) s p = rw (s, p) refl

  judge_again :
      (predicate : StampedExchange → Bool) (again : StampedExchange → Run → Waited × Run)
      (e : StampedExchange) (x : Option StampedExchange × Run)
      → x.0 ≡ some e
      → predicate e ≡ false
      → judge predicate again x ≡ again e x.1
  unfolding judge
  judge_again predicate again e (o, w) s p = rw (s, p) refl

  -- At most two rounds are needed for a predicate that holds for every exchange that carries the
  -- newest command.
  pub wait_loop-Arrives :
      (fuel k deadline desired : ℕ) (predicate : StampedExchange → Bool) (w : Run)
      → Ready time (suc (suc (suc (suc k)))) w
      → desired ≡ w.state.image.stamped.exchange_count + 1
      → time ≤ deadline
      → ((e : StampedExchange)
          → e.command ≡ w.state.image.next_command
          → Shows e.command e.status
          → predicate e ≡ true)
      → Arrives time k predicate w
          (wait_loop (gripper n) (suc (suc fuel)) deadline predicate desired w)
  unfolding wait_loop
  wait_loop-Arrives fuel k deadline desired predicate w r d h holds =
      let (o, x) = wait_round-Next (suc (suc k)) deadline desired w r d h in
      let round = wait_round (gripper n) deadline desired w in
      let w1 = round.1 in
      let again : ℕ → StampedExchange → Run → Waited × Run = λ left e w'.
        wait_loop (gripper n) left deadline predicate (u64 (e.exchange_count + 1)) w' in
      let e1 = w1.state.image.stamped in
      elim (Bool-cases (predicate e1)) [
        | inl met ↦
            rw (judge_seen predicate (again (suc fuel)) e1 round o met)
              (refl, met, After-weaken k w w1 (After-weaken (suc k) w w1 (Next-After _ w w1 x)))
        | inr unmet ↦
            let u : u64 (e1.exchange_count + 1) ≡ e1.exchange_count + 1 =
              omega (arith, x.ready.room) in
            let (o2, y) = wait_round-Next k deadline (e1.exchange_count + 1) w1 x.ready refl h in
            let round2 = wait_round (gripper n) deadline (e1.exchange_count + 1) w1 in
            let w2 = round2.1 in
            let e2 = w2.state.image.stamped in
            let met : predicate e2 ≡ true =
              holds e2
                (y.carried ∙ ap (λ f. on_wire f w1.state.image.next_command) x.landed ∙ x.same_next)
                y.shows in
            rw
              (
                judge_again predicate (again (suc fuel)) e1 round o unmet,
                u,
                judge_seen predicate (again fuel) e2 round2 o2 met,
              )
              (refl, met, After-trans _ k w w1 w2 x (Next-After k w1 w2 y))
      ]
