-- ===== src/FakeGripper/Kept.antt =====
-- What activate() and recoverFromFault() keep over the fake device, whatever they come to.
use grippers.Prelude.{
  true, ◌≡◌, ℕ, ◌+◌, ◌≤◌, ◌<◌, Bool, Option, none, some, length, arith, Bool-cases, inl, inr, leb,
  ◌/◌,
}
use grippers.Byte.{AllBytes}
use grippers.ActivationResult.{ActivationResult}
use grippers.Command.{GripperCommand, command_data}
use grippers.Status.{
  GripperStatus, ActivationState, reset, in_progress, reserved, complete, activation_state,
}
use grippers.Fault.{gripper_fault, gripper_severity}
use grippers.RegisterModel.{RegisterModel}
use grippers.ModbusClient.{Nmbs}
use grippers.ModbusClient.Loopback.{Carries}
use grippers.Gripper.{
  longest, Waited, out_of_fuel, timed_out, seen, nanoseconds, remaining, is_major, activate_command,
  deactivate_command, activation_result, wait_for_status, wait_for_activation_complete,
  finish_handshake, run_activation_handshake, handshake_if_allowed, activate_from, activate_on,
  run_activate, recover_on, recover_from_fault, wait_operational,
}
use grippers.FakeGripper.{Run, gripper, set_run}
use grippers.FakeGripper.Activates.{activate_command-bytes, deactivate_command-bytes}
use grippers.FakeGripper.Healthy.{Healthy, Healthy-within, set_run-Healthy}
use grippers.FakeGripper.Loops.{Ended, deadline_bounded, Healthy-WaitKeeps, wait_for-Kept}

-- A procedure came to a result.
abbrev pub Answered : Option ActivationResult → Type 0
Answered none = ⊥
Answered (some a) = Unit {0}

module _ (until : ℕ) where
  -- It ended in time, with a run that goes on.
  pub record Left (bound left : ℕ) (w : Run) : Type 0 where
    pub healthy : Healthy until bound w
    pub shorter : length w.schedule ≤ left

  abbrev pub Waits : ℕ → ℕ → Waited × Run → Type 0
  Waits bound left (r, w) = Ended r × Left bound left w

  abbrev pub Answers : ℕ → ℕ → Option ActivationResult × Run → Type 0
  Answers bound left (a, w) = Answered a × Left bound left w

  module _ (n : Nmbs RegisterModel) (link : Carries n) (fuel left : ℕ) (enough : left < fuel) where
    Left-later : (b b' : ℕ) (w : Run) → b ≤ b' → Left b left w → Left b' left w
    Left-later b b' w h x = record {
      healthy = Healthy-within until b b' w (omega (arith, x.healthy.within)) x.healthy;
      shorter = x.shorter;
    }

    Answers-later :
        (b b' : ℕ) (x : Option ActivationResult × Run)
        → b ≤ b'
        → Answers b left x
        → Answers b' left x
    Answers-later b b' (a, w) h (answered, x) = (answered, Left-later b b' w h x)

    set_run-Left :
        (b : ℕ) (c : GripperCommand) (w : Run)
        → AllBytes (command_data c)
        → Left b left w
        → Left b left (set_run n c w)
    unfolding set_run
    set_run-Left b c w bytes x = record {
      healthy = set_run-Healthy n link until b c w bytes x.healthy;
      shorter = x.shorter;
    }

    -- A wait up to a deadline ends two milliseconds after it at the latest.
    wait_for_status-Waits :
        (b deadline : ℕ) (predicate : GripperStatus → Bool) (w : Run)
        → deadline ≤ b
        → Left b left w
        → Waits (b + 2000000) left (wait_for_status (gripper n) fuel predicate deadline w)
    unfolding wait_for_status
    wait_for_status-Waits b deadline predicate w d x =
        let late = b + 2000000 in
        let h = Healthy-within until b late w (omega (arith, x.healthy.within)) x.healthy in
        let fits =
          deadline_bounded deadline (b + 1000000) w.clock (omega (arith, x.healthy.within))
            (omega arith) in
        let k =
          wait_for-Kept n (Healthy until late) late (Healthy-WaitKeeps n link until late) fuel
            (λ e. predicate e.status) (remaining deadline w.clock) w h (omega (arith, x.shorter))
            (omega (arith, fits)) in
        (k.1, record { healthy = k.0; shorter = omega (arith, k.2, x.shorter) })

    activation_result-Answers :
        (b : ℕ) (r : Waited × Run) → Waits b left r → Answers b left (activation_result r)
    activation_result-Answers b (out_of_fuel, w) (ended, x) = absurd ended
    activation_result-Answers b (timed_out, w) (ended, x) = (tt, x)
    activation_result-Answers b (seen e, w) (ended, x) = (tt, x)

    wait_for_activation_complete-Answers :
        (b deadline : ℕ) (w : Run)
        → deadline ≤ b
        → Left b left w
        → Answers (b + 2000000) left (wait_for_activation_complete (gripper n) fuel deadline w)
    unfolding wait_for_activation_complete
    wait_for_activation_complete-Answers b deadline w d x =
        activation_result-Answers (b + 2000000) _ (wait_for_status-Waits b deadline _ w d x)

    finish_handshake-Answers :
        (b deadline : ℕ) (previous : GripperCommand) (r : Waited × Run)
        → AllBytes (command_data previous)
        → deadline ≤ b
        → Waits b left r
        → Answers (b + 2000000) left (finish_handshake (gripper n) fuel deadline previous r)
    unfolding finish_handshake
    finish_handshake-Answers b deadline previous (out_of_fuel, w) bytes d (ended, x) = absurd ended
    finish_handshake-Answers b deadline previous (timed_out, w) bytes d (ended, x) =
        (tt, Left-later b (b + 2000000) _ (omega arith) (set_run-Left b previous w bytes x))
    finish_handshake-Answers b deadline previous (seen e, w) bytes d (ended, x) =
        wait_for_activation_complete-Answers b deadline _ d
          (set_run-Left b (activate_command previous) w (activate_command-bytes previous bytes) x)

    handshake_if_allowed-Answers :
        (b deadline timeout : ℕ) (w : Run)
        → deadline ≤ b
        → Left b left w
        → Answers (b + 4000000) left (handshake_if_allowed (gripper n) fuel deadline timeout w)
    unfolding handshake_if_allowed run_activation_handshake
    handshake_if_allowed-Answers b deadline timeout w d x =
        let previous = w.state.image.next_command in
        let bytes = x.healthy.next_bytes in
        elim (Bool-cases (leb (w.clock + nanoseconds (timeout / 2)) deadline)) [
          | inl allowed ↦ rw allowed (
              Answers-later (b + 2000000 + 2000000) (b + 4000000) _ (omega arith) (
                finish_handshake-Answers (b + 2000000) deadline previous _ bytes (omega arith) (
                  wait_for_status-Waits b deadline _ _ d (
                    set_run-Left b (deactivate_command previous) w
                      (deactivate_command-bytes previous bytes) x))))
          | inr refused ↦ rw refused (tt, Left-later b (b + 4000000) w (omega arith) x)
        ]

    activate_from-Answers :
        (state : ActivationState) (b deadline timeout : ℕ) (w : Run)
        → deadline ≤ b
        → Left b left w
        → Answers (b + 4000000) left (activate_from (gripper n) state fuel deadline timeout w)
    unfolding activate_from
    activate_from-Answers complete b deadline timeout w d x =
        (tt, Left-later b (b + 4000000) w (omega arith) x)
    activate_from-Answers in_progress b deadline timeout w d x =
        Answers-later (b + 2000000) (b + 4000000) _ (omega arith)
          (wait_for_activation_complete-Answers b deadline w d x)
    activate_from-Answers reset b deadline timeout w d x =
        handshake_if_allowed-Answers b deadline timeout w d x
    activate_from-Answers reserved b deadline timeout w d x =
        handshake_if_allowed-Answers b deadline timeout w d x

    activate_on-Answers :
        (b deadline timeout : ℕ) (r : Waited × Run)
        → deadline ≤ b
        → Waits b left r
        → Answers (b + 4000000) left (activate_on (gripper n) fuel deadline timeout r)
    unfolding activate_on
    activate_on-Answers b deadline timeout (out_of_fuel, w) d (ended, x) = absurd ended
    activate_on-Answers b deadline timeout (timed_out, w) d (ended, x) =
        (tt, Left-later b (b + 4000000) w (omega arith) x)
    activate_on-Answers b deadline timeout (seen e, w) d (ended, x) =
        elim (Bool-cases (is_major (gripper_severity (gripper_fault e.status.fault_status)))) [
          | inl latched ↦ rw latched (tt, Left-later b (b + 4000000) w (omega arith) x)
          | inr clear ↦ rw clear (
              activate_from-Answers (activation_state e.status.gripper_status) b deadline timeout w
                d x)
        ]

    recover_on-Answers :
        (b deadline timeout : ℕ) (r : Waited × Run)
        → deadline ≤ b
        → Waits b left r
        → Answers (b + 4000000) left (recover_on (gripper n) fuel deadline timeout r)
    recover_on-Answers b deadline timeout (out_of_fuel, w) d (ended, x) = absurd ended
    recover_on-Answers b deadline timeout (timed_out, w) d (ended, x) =
        (tt, Left-later b (b + 4000000) w (omega arith) x)
    recover_on-Answers b deadline timeout (seen e, w) d (ended, x) =
        handshake_if_allowed-Answers b deadline timeout w d x

    -- Over a link that carries requests, from a run whose commands are of bytes, whose image is
    -- open and whose thread, where it takes steps, takes them at most 200 ms apart until some time:
    -- with fuel for the schedule activate() with a timeout of at most 4611686018427 ms comes to a
    -- result, whatever the device, at most six milliseconds after its timeout, and leaves such a
    -- run.
    pub run_activate-Answers :
        (timeout : ℕ) (w : Run)
        → timeout ≤ longest
        → Left w.clock left w
        → Answers
            (w.clock + nanoseconds timeout + 6000000)
            left
            (run_activate (gripper n) fuel timeout w)
    unfolding run_activate wait_operational
    run_activate-Answers timeout w small x =
        let fits : leb timeout longest ≡ true = ground arith in
        let b = w.clock + nanoseconds timeout in
        rw fits (
          Answers-later (b + 2000000 + 4000000) (b + 6000000) _ (omega arith) (
            activate_on-Answers (b + 2000000) b timeout _ (omega arith) (
              wait_for_status-Waits b b _ w (omega arith)
                (Left-later w.clock b w (omega arith) x))))

    -- So does recoverFromFault().
    pub recover_from_fault-Answers :
        (timeout : ℕ) (w : Run)
        → timeout ≤ longest
        → Left w.clock left w
        → Answers
            (w.clock + nanoseconds timeout + 6000000)
            left
            (recover_from_fault (gripper n) fuel timeout w)
    unfolding recover_from_fault wait_operational
    recover_from_fault-Answers timeout w small x =
        let fits : leb timeout longest ≡ true = ground arith in
        let b = w.clock + nanoseconds timeout in
        rw fits (
          Answers-later (b + 2000000 + 4000000) (b + 6000000) _ (omega arith) (
            recover_on-Answers (b + 2000000) b timeout _ (omega arith) (
              wait_for_status-Waits b b _ w (omega arith)
                (Left-later w.clock b w (omega arith) x))))
