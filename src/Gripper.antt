-- ===== src/Gripper.antt =====
-- The waits and the activation procedures of the application: sdk_cpp/src/gripper.cpp,
-- sdk_cpp/src/wait.cpp and sdk_cpp/include/Robotiq/gripper/wait.hpp. They reach the exchange thread
-- through `Handle` only, whose state `W` holds the gripper, its thread and the clock: each call
-- returns it as it is afterwards. Times are nanoseconds, timeouts milliseconds.
pub mod Waits
pub mod Handshakes
pub mod Activation
use grippers.Prelude.{
  ℕ, zero, suc, ◌+◌, ◌-◌, ◌*◌, ◌/◌, min, Bool, true, false, not, Option, none, some, ltb, leb, ◌==◌,
  if◌then◌else◌,
}
use grippers.Byte.{u64}
use grippers.Command.{GripperCommand, activate, go_to, set_to, command_eq}
use grippers.Fault.{FaultSeverity, major, harmless, warning, minor, gripper_fault, gripper_severity}
use grippers.Status.{
  GripperStatus, ActivationState, reset, in_progress, reserved, complete, ObjectDetection, moving,
  detected_while_opening, detected_while_closing, at_requested_position, activated,
  activation_state, object_detection, object_detection_code,
}
use grippers.ProcessImage.{StampedExchange}
use grippers.ActivationResult.{ActivationResult}

-- What the procedures use of GripperState and of the clock.
pub record Handle (W : Type 0) : Type 0 where
  pub now : W → ℕ × W
  pub stamped_exchange : W → StampedExchange × W
  pub wait_for_exchange : ℕ → ℕ → W → StampedExchange × W
  pub command : W → GripperCommand × W
  pub set_command : GripperCommand → W → W

abbrev pub nanoseconds : ℕ → ℕ
nanoseconds ms = ms * 1000000

-- Half of the longest duration of a 64-bit nanosecond clock, in milliseconds.
abbrev pub longest : ℕ
longest = 4611686018427

unfoldable pub deadline_after : ℕ → ℕ → ℕ
deadline_after timeout now = now + nanoseconds (min timeout longest)

-- The time left until the deadline, in milliseconds, rounded up.
unfoldable pub remaining : ℕ → ℕ → ℕ
remaining deadline now = if ltb now deadline then (deadline - now + 999999) / 1000000 else 0

-- What a wait came to; the loop is on fuel.
pub data Waited : Type 0 where
  out_of_fuel timed_out : Waited
  seen : StampedExchange → Waited

abbrev pub is_major : FaultSeverity → Bool
is_major major = true
is_major harmless = false
is_major warning = false
is_major minor = false

unfoldable pub same_detection : ObjectDetection → ObjectDetection → Bool
unfolding object_detection_code
same_detection a b = object_detection_code a == object_detection_code b

abbrev pub activation_result : {W : Type 0} → Waited × W → Option ActivationResult × W
activation_result (out_of_fuel, w) = (none, w)
activation_result (timed_out, w) = (some ActivationResult.timeout, w)
activation_result (seen e, w) = (some ActivationResult.activated, w)

abbrev pub is_complete : ActivationState → Bool
is_complete complete = true
is_complete reset = false
is_complete in_progress = false
is_complete reserved = false

unfoldable pub activate_command : GripperCommand → GripperCommand
unfolding set_to
activate_command previous = record previous {
  action = set_to (set_to previous.action go_to false) activate true;
}

unfoldable pub deactivate_command : GripperCommand → GripperCommand
unfolding activate_command
deactivate_command previous =
    let c = activate_command previous in record c { action = set_to c.action activate false }

-- The end of a round: give up, hand the exchange back, or go round again.
unfoldable pub judge :
    {W : Type 0}
    → (StampedExchange → Bool)
    → (StampedExchange → W → Waited × W)
    → Option StampedExchange × W
    → Waited × W
judge predicate again (none, w) = (timed_out, w)
judge predicate again (some e, w) =
    let rest = again e w in if predicate e then (seen e, w) else rest

module _ {W : Type 0} (h : Handle W) where
  unfoldable pub wait_for_exchange_count : ℕ → ℕ → W → Option StampedExchange × W
  unfolding deadline_after
  wait_for_exchange_count desired timeout w =
      let (n, w1) = h.now w in
      let (fresh, w2) = h.wait_for_exchange desired (deadline_after timeout n) w1 in
      (if ltb fresh.exchange_count desired then none else some fresh, w2)

  pub wait_for_exchange : ℕ → W → Option StampedExchange × W
  unfolding wait_for_exchange_count
  wait_for_exchange timeout w =
      let (e, w1) = h.stamped_exchange w in
      wait_for_exchange_count (u64 (e.exchange_count + 1)) timeout w1

  -- One round of the loop of waitForExchangeAfter.
  unfoldable pub wait_round : ℕ → ℕ → W → Option StampedExchange × W
  unfolding remaining wait_for_exchange_count
  wait_round deadline desired w =
      let (n, w1) = h.now w in wait_for_exchange_count desired (remaining deadline n) w1

  -- The loop, from the exchange count that it waits for next.
  unfoldable pub wait_loop : ℕ → ℕ → (StampedExchange → Bool) → ℕ → W → Waited × W
  unfolding judge
  wait_loop zero deadline predicate desired w = (out_of_fuel, w)
  wait_loop (suc fuel) deadline predicate desired w =
      judge predicate (λ e w1. wait_loop fuel deadline predicate (u64 (e.exchange_count + 1)) w1)
        (wait_round deadline desired w)

  unfoldable pub wait_for_exchange_after : ℕ → ℕ → (StampedExchange → Bool) → ℕ → W → Waited × W
  unfolding deadline_after
  wait_for_exchange_after fuel after_count predicate timeout w =
      let (n, w1) = h.now w in
      wait_loop fuel (deadline_after timeout n) predicate (u64 (after_count + 1)) w1

  unfoldable pub wait_for : ℕ → (StampedExchange → Bool) → ℕ → W → Waited × W
  unfolding wait_for_exchange_after
  wait_for fuel predicate timeout w =
      let (e, w1) = h.stamped_exchange w in
      wait_for_exchange_after fuel e.exchange_count predicate timeout w1

  -- The count is read before the command is set.
  unfoldable pub set_command_and_wait_for_exchange : ℕ → GripperCommand → ℕ → W → Waited × W
  unfolding wait_for_exchange_after
  set_command_and_wait_for_exchange fuel c timeout w =
      let (before, w1) = h.stamped_exchange w in
      wait_for_exchange_after fuel before.exchange_count (λ e. command_eq e.command c) timeout
        (h.set_command c w1)

  pub wait_for_position_echo : ℕ → ℕ → ℕ → W → Waited × W
  unfolding wait_for
  wait_for_position_echo fuel position timeout w =
      wait_for fuel (λ e. e.status.position_request_echo == position) timeout w

  unfoldable pub wait_for_object_detection : ℕ → ObjectDetection → ℕ → W → Waited × W
  unfolding wait_for same_detection
  wait_for_object_detection fuel detection timeout w =
      wait_for fuel (λ e. same_detection (object_detection e.status.gripper_status) detection)
        timeout w

  unfoldable pub wait_for_motion_end : ℕ → ℕ → W → Waited × W
  unfolding wait_for same_detection
  wait_for_motion_end fuel timeout w =
      wait_for fuel (λ e. not (same_detection (object_detection e.status.gripper_status) moving))
        timeout w

  unfoldable pub wait_for_status : ℕ → (GripperStatus → Bool) → ℕ → W → Waited × W
  unfolding wait_for remaining
  wait_for_status fuel predicate deadline w =
      let (n, w1) = h.now w in wait_for fuel (λ e. predicate e.status) (remaining deadline n) w1

  -- A completed exchange is proof that the cycle delivers fresh status.
  unfoldable pub wait_operational : ℕ → ℕ → W → Waited × W
  unfolding wait_for_status
  wait_operational fuel deadline w = wait_for_status fuel (λ s. true) deadline w

  unfoldable pub wait_for_activation_complete : ℕ → ℕ → W → Option ActivationResult × W
  unfolding wait_for_status
  wait_for_activation_complete fuel deadline w =
      activation_result
        (wait_for_status fuel (λ s. is_complete (activation_state s.gripper_status)) deadline w)

  -- At least half of the timeout is left.
  unfoldable pub is_activation_handshake_allowed : ℕ → ℕ → W → Bool × W
  is_activation_handshake_allowed deadline timeout w =
      let (n, w1) = h.now w in (leb (n + nanoseconds (timeout / 2)) deadline, w1)

  -- After the wait for the falling edge.
  unfoldable pub finish_handshake :
      ℕ → ℕ → GripperCommand → Waited × W → Option ActivationResult × W
  unfolding wait_for_activation_complete activate_command
  finish_handshake fuel deadline previous (out_of_fuel, w) = (none, w)
  finish_handshake fuel deadline previous (timed_out, w) =
      (some ActivationResult.timeout, h.set_command previous w)
  finish_handshake fuel deadline previous (seen e, w) =
      wait_for_activation_complete fuel deadline (h.set_command (activate_command previous) w)

  unfoldable pub run_activation_handshake : ℕ → ℕ → W → Option ActivationResult × W
  unfolding finish_handshake deactivate_command wait_for_status activated
  run_activation_handshake fuel deadline w =
      let (previous, w1) = h.command w in
      finish_handshake fuel deadline previous (
        wait_for_status fuel (λ s. not (activated s.gripper_status)) deadline
          (h.set_command (deactivate_command previous) w1))

  unfoldable pub handshake_if_allowed : ℕ → ℕ → ℕ → W → Option ActivationResult × W
  unfolding is_activation_handshake_allowed run_activation_handshake
  handshake_if_allowed fuel deadline timeout w =
      let (allowed, w1) = is_activation_handshake_allowed deadline timeout w in
      if allowed
      then run_activation_handshake fuel deadline w1
      else (some ActivationResult.timeout, w1)

  -- activate() by the activation state of the first fresh status.
  unfoldable pub activate_from : ActivationState → ℕ → ℕ → ℕ → W → Option ActivationResult × W
  unfolding wait_for_activation_complete handshake_if_allowed
  activate_from complete fuel deadline timeout w = (some ActivationResult.already_active, w)
  activate_from in_progress fuel deadline timeout w = wait_for_activation_complete fuel deadline w
  activate_from reset fuel deadline timeout w = handshake_if_allowed fuel deadline timeout w
  activate_from reserved fuel deadline timeout w = handshake_if_allowed fuel deadline timeout w

  -- activate() once the wait for a fresh exchange is over.
  unfoldable pub activate_on : ℕ → ℕ → ℕ → Waited × W → Option ActivationResult × W
  unfolding activate_from gripper_fault gripper_severity activation_state
  activate_on fuel deadline timeout (out_of_fuel, w) = (none, w)
  activate_on fuel deadline timeout (timed_out, w) = (some ActivationResult.timeout, w)
  activate_on fuel deadline timeout (seen fresh, w) =
      if is_major (gripper_severity (gripper_fault fresh.status.fault_status))
      then (some ActivationResult.fault_latched, w)
      else activate_from (activation_state fresh.status.gripper_status) fuel deadline timeout w

  -- The deadline of activate() and recoverFromFault() is a sum that nothing caps. A longer timeout
  -- than `longest` overflows it at some readings of the clock, which is undefined, so the call has
  -- no result there; the clock itself is taken to be in the lower half of its range.
  unfoldable pub unless_overflow : ℕ → W → Option ActivationResult × W → Option ActivationResult × W
  unless_overflow timeout w result = if leb timeout longest then result else (none, w)

  unfoldable pub run_activate : ℕ → ℕ → W → Option ActivationResult × W
  unfolding activate_on wait_operational unless_overflow
  run_activate fuel timeout w =
      let (n, w1) = h.now w in
      let deadline = n + nanoseconds timeout in
      unless_overflow timeout w1
        (activate_on fuel deadline timeout (wait_operational fuel deadline w1))

  abbrev pub recover_on : ℕ → ℕ → ℕ → Waited × W → Option ActivationResult × W
  recover_on fuel deadline timeout (out_of_fuel, w) = (none, w)
  recover_on fuel deadline timeout (timed_out, w) = (some ActivationResult.timeout, w)
  recover_on fuel deadline timeout (seen fresh, w) = handshake_if_allowed fuel deadline timeout w

  unfoldable pub recover_from_fault : ℕ → ℕ → W → Option ActivationResult × W
  unfolding wait_operational handshake_if_allowed unless_overflow
  recover_from_fault fuel timeout w =
      let (n, w1) = h.now w in
      let deadline = n + nanoseconds timeout in
      unless_overflow timeout w1
        (recover_on fuel deadline timeout (wait_operational fuel deadline w1))
