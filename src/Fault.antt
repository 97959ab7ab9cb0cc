-- ===== src/Fault.antt =====
-- The FAULT STATUS byte: sdk_cpp/include/Robotiq/gripper/fault_status.hpp. A C++ enum over uint8_t
-- holds any byte, so each fault type has one more constructor for the codes that have no name.
use grippers.Prelude.{
  true, ℕ, ◌/◌, bit_and, ◌==◌, if◌then◌else◌, ◌≡◌, ◌+◌, ◌*◌, refl, arith, ==_iff,
}
use grippers.Byte.{IsByte, all_below, all_below_sound}
use grippers.RegisterMap.{gripper_fault_mask, controller_fault_mask, controller_fault_shift}

pub data GripperFault : Type 0 where
  no_gripper_fault brake_problem blocked_at_start action_delayed : GripperFault
  activation_required over_temperature no_communication under_voltage : GripperFault
  automatic_release_in_progress internal_fault activation_fault : GripperFault
  gripper_overcurrent automatic_release_complete : GripperFault
  unnamed_gripper_fault : ℕ → GripperFault

pub data ControllerFault : Type 0 where
  no_controller_fault supply_24v_not_detected no_device_detected : ControllerFault
  communication_not_ready emergency_stop controller_overcurrent : ControllerFault
  unnamed_controller_fault : ℕ → ControllerFault

pub data FaultSeverity : Type 0 where
  harmless warning minor major : FaultSeverity

-- static_cast<GripperFault>
unfoldable pub gripper_fault_of : ℕ → GripperFault
gripper_fault_of n =
    if n == 0x00
    then no_gripper_fault
    else if n == 0x03
    then brake_problem
    else if n == 0x04
    then blocked_at_start
    else if n == 0x05
    then action_delayed
    else if n == 0x07
    then activation_required
    else if n == 0x08
    then over_temperature
    else if n == 0x09
    then no_communication
    else if n == 0x0A
    then under_voltage
    else if n == 0x0B
    then automatic_release_in_progress
    else if n == 0x0C
    then internal_fault
    else if n == 0x0D
    then activation_fault
    else if n == 0x0E
    then gripper_overcurrent
    else if n == 0x0F
    then automatic_release_complete
    else unnamed_gripper_fault n

-- static_cast<uint8_t>
unfoldable pub gripper_fault_code : GripperFault → ℕ
gripper_fault_code no_gripper_fault = 0x00
gripper_fault_code brake_problem = 0x03
gripper_fault_code blocked_at_start = 0x04
gripper_fault_code action_delayed = 0x05
gripper_fault_code activation_required = 0x07
gripper_fault_code over_temperature = 0x08
gripper_fault_code no_communication = 0x09
gripper_fault_code under_voltage = 0x0A
gripper_fault_code automatic_release_in_progress = 0x0B
gripper_fault_code internal_fault = 0x0C
gripper_fault_code activation_fault = 0x0D
gripper_fault_code gripper_overcurrent = 0x0E
gripper_fault_code automatic_release_complete = 0x0F
gripper_fault_code (unnamed_gripper_fault n) = n

unfoldable pub controller_fault_of : ℕ → ControllerFault
controller_fault_of n =
    if n == 0x00
    then no_controller_fault
    else if n == 0x04
    then supply_24v_not_detected
    else if n == 0x05
    then no_device_detected
    else if n == 0x09
    then communication_not_ready
    else if n == 0x0C
    then emergency_stop
    else if n == 0x0E
    then controller_overcurrent
    else unnamed_controller_fault n

unfoldable pub controller_fault_code : ControllerFault → ℕ
controller_fault_code no_controller_fault = 0x00
controller_fault_code supply_24v_not_detected = 0x04
controller_fault_code no_device_detected = 0x05
controller_fault_code communication_not_ready = 0x09
controller_fault_code emergency_stop = 0x0C
controller_fault_code controller_overcurrent = 0x0E
controller_fault_code (unnamed_controller_fault n) = n

unfoldable pub gripper_severity : GripperFault → FaultSeverity
gripper_severity no_gripper_fault = harmless
gripper_severity blocked_at_start = warning
gripper_severity action_delayed = warning
gripper_severity activation_required = warning
gripper_severity over_temperature = minor
gripper_severity no_communication = minor
gripper_severity brake_problem = major
gripper_severity under_voltage = major
gripper_severity automatic_release_in_progress = major
gripper_severity internal_fault = major
gripper_severity activation_fault = major
gripper_severity gripper_overcurrent = major
gripper_severity automatic_release_complete = major
gripper_severity (unnamed_gripper_fault n) = major

unfoldable pub controller_severity : ControllerFault → FaultSeverity
controller_severity no_controller_fault = harmless
controller_severity supply_24v_not_detected = warning
controller_severity no_device_detected = warning
controller_severity communication_not_ready = minor
controller_severity emergency_stop = major
controller_severity controller_overcurrent = major
controller_severity (unnamed_controller_fault n) = major

-- FaultStatus: `fromRaw` is the record, `raw` its field.
pub record FaultStatus : Type 0 where
  pub raw : ℕ

unfoldable pub gripper_fault : FaultStatus → GripperFault
unfolding gripper_fault_of
gripper_fault f = gripper_fault_of (bit_and f.raw gripper_fault_mask)

unfoldable pub controller_fault : FaultStatus → ControllerFault
unfolding controller_fault_of
controller_fault f =
    controller_fault_of (bit_and f.raw controller_fault_mask / controller_fault_shift)

gripper_fault_code-of : (n : ℕ) → gripper_fault_code (gripper_fault_of n) ≡ n
unfolding gripper_fault_code gripper_fault_of
gripper_fault_code-of n = ground arith

controller_fault_code-of : (n : ℕ) → controller_fault_code (controller_fault_of n) ≡ n
unfolding controller_fault_code controller_fault_of
controller_fault_code-of n = ground arith

nibble_table :
    all_below 256
      (λ b. bit_and b gripper_fault_mask + bit_and b controller_fault_mask / 16 * 16 == b)
    ≡ true
unfolding all_below
nibble_table = refl

-- The two faults decoded from a byte hold the whole byte: their codes, as low and high nibble, give
-- it back.
pub fault_nibbles :
    (f : FaultStatus)
    → IsByte f.raw
    → gripper_fault_code (gripper_fault f) + controller_fault_code (controller_fault f) * 16 ≡ f.raw
unfolding gripper_fault controller_fault
fault_nibbles f h =
    rw (gripper_fault_code-of, controller_fault_code-of)
      ((==_iff _ _).0 (all_below_sound _ 256 f.raw h nibble_table))

-- The codes that a gripper fault is harmless, a warning or minor at; every other code is major.
abbrev pub SeverityOfCode : ℕ → FaultSeverity
SeverityOfCode n =
    if n == 0
    then harmless
    else if n == 4
    then warning
    else if n == 5
    then warning
    else if n == 7
    then warning
    else if n == 8
    then minor
    else if n == 9
    then minor
    else major

-- A code with no name is never mistaken for harmless, and the named ones have the manual's class.
pub gripper_severity_by_code : (n : ℕ) → gripper_severity (gripper_fault_of n) ≡ SeverityOfCode n
unfolding gripper_severity gripper_fault_of
gripper_severity_by_code n = ground arith
