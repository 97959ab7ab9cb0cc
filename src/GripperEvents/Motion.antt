-- ===== src/GripperEvents/Motion.antt =====
-- moveTo() over the fake device, from the exchange that carries its command.
use grippers.Prelude.{
  ℕ, suc, ◌+◌, ◌≤◌, ◌<◌, ◌≡◌, refl, ◌∙◌, ap, Bool, true, not, ◌&&◌, Option, some, List, ◌∷◌, length,
  arith,
}
use mathlib.Core.Path.{subst}
use grippers.Byte.{u64}
use grippers.Command.{GripperCommand, activate, go_to, get, command_eq}
use grippers.Status.{GripperStatus, moving, at_requested_position, object_detection}
use grippers.RegisterModel.{RegisterModel}
use grippers.ModbusClient.{Nmbs}
use grippers.ModbusClient.Loopback.{Carries}
use grippers.ProcessImage.{StampedExchange}
use grippers.Units.{Doubles, DeviceProfile, opening_from_register}
use grippers.Gripper.{
  wait_round, Waited, out_of_fuel, timed_out, seen, deadline_after, remaining, wait_loop,
  same_detection, wait_for_object_detection, wait_for_motion_end,
}
use grippers.FakeGripper.{wait_run, Run, gripper}
use grippers.FakeGripper.Steps.{Shows}
use grippers.FakeGripper.Rounds.{Arrives, wait_round-Next, judge_seen}
use grippers.FakeGripper.Healthy.{wait_on-Healthy, Healthy, Healthy-Ready, Healthy-within}
use grippers.FakeGripper.Wiring.{wait_on-uses, Wired, wait_on-Wired}
use grippers.FakeGripper.Kept.{Left}
use grippers.FakeGripper.Loops.{deadline_bounded, WaitKeeps, Healthy-WaitKeeps, Kept, wait_for-Kept}
use grippers.GripperEvents.Aims.{station}
use grippers.GripperEvents.{Outcome, Line, after_motion, after_start, after_send, tell_opening}

-- What a move that succeeded leaves: the newest exchange carried its command, and shows the fingers
-- at the position, arrived; nothing else was set, and the thread goes on.
pub record Settled (until bound left : ℕ) (c : GripperCommand) (before : List GripperCommand)
    (o : Outcome Run) : Type 0 where
  pub succeeded : o.result ≡ some true
  pub carried : o.world.state.image.stamped.command ≡ c
  pub at_position : o.world.state.image.stamped.status.position ≡ c.position_request
  pub arrived :
      object_detection o.world.state.image.stamped.status.gripper_status ≡ at_requested_position
  pub sent : o.world.history ≡ c ∷ before
  pub goes_on : Left until bound left o.world

pub Settled-later :
    (until b b' left left' : ℕ) (c : GripperCommand) (before : List GripperCommand)
    (o : Outcome Run)
    → b ≤ b'
    → left ≤ left'
    → Settled until b left c before o
    → Settled until b' left' c before o
Settled-later until b b' left left' c before o h k x = record {
  succeeded = x.succeeded;
  carried = x.carried;
  at_position = x.at_position;
  arrived = x.arrived;
  sent = x.sent;
  goes_on = record {
    healthy =
        Healthy-within until b b' _ (omega (arith, x.goes_on.healthy.within)) x.goes_on.healthy;
    shorter = omega (arith, x.goes_on.shorter);
  };
}

module _ (n : Nmbs RegisterModel) (link : Carries n) {D : Type 0} (d : Doubles D)
    (profile : DeviceProfile D) (until : ℕ) (c : GripperCommand) (before : List GripperCommand)
    (backs : (register : ℕ) → (back : D) × (opening_from_register d register profile ≡ some back))
    (moves : (get c.action activate && get c.action go_to) ≡ true) where
  -- A run that goes on, and whose exchanges carry the command.
  abbrev Going : ℕ → Run → Type 0
  Going bound w = Healthy until bound w × Wired c before w.system

  Going-WaitKeeps : (bound : ℕ) → WaitKeeps n (Going bound) bound
  Going-WaitKeeps bound =
      let k = Healthy-WaitKeeps n link until bound in
      record {
        within = λ w g. k.within w g.0;
        room = λ w g. k.room w g.0;
        waits_keep = λ desired deadline w fits g. (
          k.waits_keep desired deadline w fits g.0,
          wait_on-Wired n c before desired deadline w.schedule w.system g.1,
        );
      }

  tell_opening-Settled :
      (bound left : ℕ) (lines : List Line) (back : Option D) (w : Run)
      → (x : D) × (back ≡ some x)
      → w.state.image.stamped.command ≡ c
      → Shows w.state.image.stamped.command w.state.image.stamped.status
      → w.history ≡ c ∷ before
      → Left until bound left w
      → Settled until bound left c before (tell_opening (station n) d profile back lines w)
  unfolding tell_opening
  tell_opening-Settled bound left lines back w (x, e) carried shows sent on = rw e (record {
    succeeded = refl;
    carried = carried;
    at_position = shows.arrived ∙ ap (λ a. a.position_request) carried;
    arrived = shows.has_detection ∙ rw (carried, moves) refl;
    sent = sent;
    goes_on = on;
  })

  not-moving :
      (s : GripperStatus)
      → Shows c s
      → not (same_detection (object_detection s.gripper_status) moving) ≡ true
  unfolding same_detection
  not-moving s shows = rw (shows.has_detection, moves) refl

  motion_end-Settled :
      (fuel bound left : ℕ) (lines : List Line) (w : Run)
      → Going bound w
      → length w.schedule ≤ left
      → w.clock + 1000000000 ≤ until
      → Settled until (bound + 5001000000) left c before (
          after_motion
            (station n)
            d
            profile
            lines
            (wait_for_motion_end (gripper n) (suc fuel) 5000 w))
  unfolding after_motion wait_for_motion_end wait_loop wait_round wait_run deadline_after
  motion_end-Settled fuel bound left lines w g l later =
      let time = w.clock + 1000000000 in
      let r = Healthy-Ready 2 until bound time w g.0 (omega arith) later (omega arith) in
      let u : u64 (w.state.image.stamped.exchange_count + 1)
          ≡ w.state.image.stamped.exchange_count + 1 =
        omega (arith, g.0.room) in
      let late : time ≤ deadline_after 5000 w.clock = omega arith in
      let (o, x) =
        wait_round-Next n link time 0 (deadline_after 5000 w.clock)
          (w.state.image.stamped.exchange_count + 1) w r refl late in
      let at = deadline_after 5000 w.clock in
      let still : StampedExchange → Bool =
        λ e. not (same_detection (object_detection e.status.gripper_status) moving) in
      let again : StampedExchange → Run → Waited × Run =
        λ e w1. wait_loop (gripper n) fuel at still (u64 (e.exchange_count + 1)) w1 in
      let round = wait_round (gripper n) at (w.state.image.stamped.exchange_count + 1) w in
      let w1 = round.1 in
      let e1 = w1.state.image.stamped in
      let carried : e1.command ≡ c = x.carried ∙ g.1.wire_is in
      let met : still e1 ≡ true =
        not-moving e1.status (subst (λ a. Shows a e1.status) carried x.shows) in
      let final = bound + 5001000000 in
      let inner = deadline_after (remaining at w.clock) w.clock in
      let fits : inner ≤ final =
        deadline_bounded at final w.clock (omega (arith, g.0.within)) (omega (arith, g.0.within)) in
      let next = w.state.image.stamped.exchange_count + 1 in
      let on : Left until final left w1 = record {
        healthy =
            wait_on-Healthy n link until final next inner w fits
              (Healthy-within until bound final w (omega (arith, g.0.within)) g.0);
        shorter = omega (arith, l, (wait_on-uses n next inner w.schedule w.system).1);
      } in
      rw (u, judge_seen n link time still again e1 round o met)
        (tell_opening-Settled final left lines _ w1 (backs _) carried x.shows
          (x.same_history ∙ g.1.history_is) on)

  -- Whatever the wait for the start of the motion comes to.
  after_start-Settled :
      (fuel bound left : ℕ) (lines : List Line) (r : Waited × Run)
      → Kept n (Going bound) bound (Going-WaitKeeps bound) left r
      → bound + 1000000000 ≤ until
      → Settled until
          (bound + 5001000000)
          left
          c
          before
          (after_start (station n) d profile (suc fuel) lines r)
  unfolding after_start
  after_start-Settled fuel bound left lines (out_of_fuel, w) (g, ended, l) later = absurd ended
  after_start-Settled fuel bound left lines (timed_out, w) (g, ended, l) later =
      motion_end-Settled fuel bound left _ w g l (omega (arith, g.0.within))
  after_start-Settled fuel bound left lines (seen e, w) (g, ended, l) later =
      motion_end-Settled fuel bound left lines w g l (omega (arith, g.0.within))

  pub after_send-Settled :
      (fuel time : ℕ) (lines : List Line) (w0 : Run) (r : Waited × Run)
      → Arrives time 0 (λ e. command_eq e.command c) w0 r
      → Going time r.1
      → length r.1.schedule < suc fuel
      → time + 2000000000 ≤ until
      → Settled until
          (time + 500000000 + 5001000000)
          (length r.1.schedule)
          c
          before
          (after_send (station n) d profile (suc fuel) lines r)
  unfolding after_send wait_for_object_detection
  after_send-Settled fuel time lines w0 (r, w) (s, met, x) g l later =
      let bound = time + 500000000 in
      let wide : Going bound w =
        (Healthy-within until time bound w (omega (arith, g.0.within)) g.0, g.1) in
      rw s (
        after_start-Settled fuel bound _ lines _
          (wait_for-Kept n (Going bound) bound (Going-WaitKeeps bound) (suc fuel) _ 200 w wide l
            (unfold deadline_after in omega (arith, g.0.within)))
          (omega arith))
