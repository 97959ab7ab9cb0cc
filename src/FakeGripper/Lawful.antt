-- ===== src/FakeGripper/Lawful.antt =====
-- The program over the fake device keeps the laws that the procedures rely on, whatever the link
-- and the schedule do.
use grippers.Prelude.{
  ℕ, ◌+◌, ◌≤◌, ◌<◌, ◌≡◌, refl, ◌∙◌, ap, suc, if◌then◌else◌, max, Bool, true, false, Option, none,
  some, List, [], ◌∷◌, arith, length, Bool-cases, inl, inr, ltb,
}
use mathlib.Core.Path.{sym}
use grippers.Command.{GripperCommand}
use grippers.Status.{GripperStatus}
use grippers.RegisterModel.{RegisterModel}
use grippers.ModbusClient.{Nmbs, Result, ok, driver_exception, serial_exception}
use grippers.ProcessImage.{StampedExchange}
use grippers.GripperState.{GripperState}
use grippers.Gripper.{Handle}
use grippers.Gripper.Waits.{Laws, top}
use grippers.FakeGripper.{System, Run, finish, waits, step_from, step, wait_on, wait_run, set_run}

-- What a step of the thread does not touch, and how far it counts.
pub record Kept (s s' : System) : Type 0 where
  pub same_next : s'.state.image.next_command ≡ s.state.image.next_command
  pub same_history : s'.history ≡ s.history
  pub counted : s'.state.image.stamped.exchange_count ≤ s.state.image.stamped.exchange_count + 1

finish-next :
    (r : Result GripperStatus) (c : GripperCommand) (at : ℕ) (s : GripperState)
    → ((finish r c at s).image.next_command ≡ s.image.next_command)
      × ((finish r c at s).image.stamped.exchange_count ≤ s.image.stamped.exchange_count + 1)
unfolding finish
finish-next (ok status) c at s = (refl, omega arith)
finish-next (driver_exception call e) c at s = ground arith
finish-next serial_exception c at s = ground arith

module _ (n : Nmbs RegisterModel) where
  step_from-Kept : (f : Option GripperCommand) (at : ℕ) (s : System) → Kept s (step_from n f at s)
  unfolding step_from
  step_from-Kept none at s = record { same_next = refl; same_history = refl; counted = omega arith }
  step_from-Kept (some c) at s = record {
    same_next = (finish-next _ c at s.state).0;
    same_history = refl;
    counted = (finish-next _ c at s.state).1;
  }

  -- A wait changes neither the command nor the history, and uses up the schedule as it counts.
  record Waited (s : System) (left : ℕ) (w' : Run) : Type 0 where
    same_next : w'.state.image.next_command ≡ s.state.image.next_command
    same_history : w'.history ≡ s.history
    counted :
        w'.state.image.stamped.exchange_count + length w'.schedule
        ≤ s.state.image.stamped.exchange_count + left

  here_Waited :
      (s : System) (at : ℕ) (ts : List ℕ)
      → Waited s (length ts) (record { system = record s { clock = at }; schedule = ts })
  here_Waited s at ts = record { same_next = refl; same_history = refl; counted = omega arith }

  Kept-Waited :
      (s s1 : System) (left : ℕ) (w' : Run) → Kept s s1 → Waited s1 left w' → Waited s (suc left) w'
  Kept-Waited s s1 left w' k later = record {
    same_next = later.same_next ∙ k.same_next;
    same_history = later.same_history ∙ k.same_history;
    counted = omega (arith, k.counted, later.counted);
  }

  if-Waited :
      (s : System) (left : ℕ) (b : Bool) (x y : Run)
      → Waited s left x
      → Waited s left y
      → Waited s left (if b then x else y)
  if-Waited s left true x y p q = p
  if-Waited s left false x y p q = q

  pub step-Kept : (t : ℕ) (s : System) → Kept s (step n t s)
  unfolding step
  step-Kept t s = step_from-Kept s.in_flight (max s.clock t) s

  wait_on-Waited :
      (desired deadline : ℕ) (ts : List ℕ) (s : System)
      → Waited s (length ts) (wait_on n desired deadline ts s)
  unfolding wait_on
  wait_on-Waited desired deadline [] s = elim (Bool-cases (waits desired deadline s)) [
    | inl more ↦ rw more (here_Waited s deadline [])
    | inr done ↦ rw done (here_Waited s s.clock [])
  ]
  wait_on-Waited desired deadline (t ∷ ts) s =
      if-Waited s _ (waits desired deadline s) _ _
        (if-Waited s _ (ltb t deadline) _ _
          (Kept-Waited s (step n t s) (length ts) _ (step-Kept t s)
            (wait_on-Waited desired deadline ts (step n t s)))
          (here_Waited s deadline (t ∷ ts)))
        (here_Waited s s.clock (t ∷ ts))

  -- Runs in which the newest command of the history is the one that the next exchange takes, and
  -- whose schedule ends before the count reaches the limit.
  pub record Live (limit : ℕ) : Type 0 where
    pub run : Run
    pub newest : run.state.image.next_command ≡ top run.history
    pub within : run.state.image.stamped.exchange_count + length run.schedule < limit

  module _ (limit : ℕ) where
    pub live_wait : ℕ → ℕ → Live limit → StampedExchange × Live limit
    unfolding wait_run
    live_wait desired deadline w =
        let x = wait_on-Waited desired deadline w.run.schedule w.run.system in
        let (e, w') = wait_run n desired deadline w.run in
        (
          e,
          record {
            run = w';
            newest = x.same_next ∙ w.newest ∙ ap top (sym x.same_history);
            within = omega (arith, x.counted, w.within);
          },
        )

    pub live_set : GripperCommand → Live limit → Live limit
    unfolding set_run
    live_set c w = record { run = set_run n c w.run; newest = refl; within = w.within }

    -- The handle of the fake gripper, on those runs.
    abbrev pub live_gripper : Handle (Live limit)
    live_gripper = record {
      now = λ w. (w.run.clock, w);
      stamped_exchange = λ w. (w.run.state.image.stamped, w);
      wait_for_exchange = live_wait;
      command = λ w. (w.run.state.image.next_command, w);
      set_command = live_set;
    }

    stamped-lt : (w : Live limit) → w.run.state.image.stamped.exchange_count < limit
    stamped-lt w = omega (arith, w.within)

    -- Over any link, failing or not, and under any schedule of the thread that ends before the
    -- count reaches a limit of 64 bits: the program keeps the laws that the waits and the
    -- activation procedures rely on.
    pub live_gripper-Laws : limit < 18446744073709551616 → Laws live_gripper
    unfolding live_wait live_set wait_run set_run
    live_gripper-Laws fits = record {
      sent = λ w. w.run.history;
      limit = limit;
      limit_fits = fits;
      now_sent = λ w. refl;
      stamped_sent = λ w. refl;
      wait_sent = λ desired deadline w.
          (wait_on-Waited desired deadline w.run.schedule w.run.system).same_history;
      command_top = λ w. w.newest;
      command_sent = λ w. refl;
      set_sent = λ c w. refl;
      stamped_below = stamped-lt;
      wait_below = λ desired deadline w. stamped-lt (live_wait desired deadline w).1;
    }
