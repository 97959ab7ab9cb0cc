-- ===== src/Rendering.antt =====
-- The texts of states and blocks: sdk_cpp/include/Robotiq/gripper/to_string.hpp,
-- sdk_cpp/src/to_string.cpp, and the level names of sdk_cpp/include/Robotiq/gripper/logger.hpp with
-- the padding of sdk_cpp/src/hosted/stderr_logger.cpp. A text is the list of its character codes.
pub mod Fields
pub mod StatusFields
pub mod Injective
use Prim.Native.Char.{code}
use Prim.Native.String.{String}
use grippers.Prelude.{
  ℕ, ◌+◌, ◌-◌, ◌/◌, ◌%◌, Bool, true, false, List, [], ◌∷◌, ◌++◌, bit_and, get_or, length, take,
  replicate, ltb, if◌then◌else◌,
}
use grippers.Command.{
  GripperCommand, get, activate, go_to, auto_release, auto_release_open_direction,
}
use grippers.Status.{
  GripperStatus, GripperStatusFlags, ActivationState, reset, in_progress, reserved, complete,
  ObjectDetection, moving, detected_while_opening, detected_while_closing, at_requested_position,
  activated, go_to_enabled, activation_state, object_detection, activation_state_code,
  object_detection_code,
}
use grippers.Fault
use grippers.Fault.{
  GripperFault, ControllerFault, FaultSeverity, FaultStatus, gripper_fault, controller_fault,
  gripper_fault_code, controller_fault_code,
}
use grippers.GripperState.{ConnectionState}
use grippers.ActivationResult.{ActivationResult}
use grippers.DefaultSerial.{Level}

abbrev pub text : String → List ℕ
text String.[] = []
text (String.◌∷◌ c s) = code c ∷ text s

unfoldable pub connection_state_name : ConnectionState → List ℕ
connection_state_name ConnectionState.disconnected = text "Disconnected"
connection_state_name ConnectionState.connecting = text "Connecting"
connection_state_name ConnectionState.operational = text "Operational"
connection_state_name ConnectionState.faulted = text "Faulted"

unfoldable pub activation_result_name : ActivationResult → List ℕ
activation_result_name ActivationResult.activated = text "Activated"
activation_result_name ActivationResult.already_active = text "AlreadyActive"
activation_result_name ActivationResult.fault_latched = text "FaultLatched"
activation_result_name ActivationResult.timeout = text "Timeout"

unfoldable pub activation_state_name : ActivationState → List ℕ
activation_state_name reset = text "Reset"
activation_state_name in_progress = text "InProgress"
activation_state_name reserved = text "Reserved"
activation_state_name complete = text "Complete"

unfoldable pub object_detection_name : ObjectDetection → List ℕ
object_detection_name moving = text "Moving"
object_detection_name detected_while_opening = text "DetectedWhileOpening"
object_detection_name detected_while_closing = text "DetectedWhileClosing"
object_detection_name at_requested_position = text "AtRequestedPosition"

unfoldable pub gripper_fault_name : GripperFault → List ℕ
gripper_fault_name Fault.no_gripper_fault = text "None"
gripper_fault_name Fault.brake_problem = text "BrakeProblem"
gripper_fault_name Fault.blocked_at_start = text "BlockedAtStart"
gripper_fault_name Fault.action_delayed = text "ActionDelayed"
gripper_fault_name Fault.activation_required = text "ActivationRequired"
gripper_fault_name Fault.over_temperature = text "OverTemperature"
gripper_fault_name Fault.no_communication = text "NoCommunication"
gripper_fault_name Fault.under_voltage = text "UnderVoltage"
gripper_fault_name Fault.automatic_release_in_progress = text "AutomaticReleaseInProgress"
gripper_fault_name Fault.internal_fault = text "InternalFault"
gripper_fault_name Fault.activation_fault = text "ActivationFault"
gripper_fault_name Fault.gripper_overcurrent = text "Overcurrent"
gripper_fault_name Fault.automatic_release_complete = text "AutomaticReleaseComplete"
gripper_fault_name (Fault.unnamed_gripper_fault n) = text "Unrecognized"

unfoldable pub controller_fault_name : ControllerFault → List ℕ
controller_fault_name Fault.no_controller_fault = text "None"
controller_fault_name Fault.supply_24v_not_detected = text "Supply24VNotDetected"
controller_fault_name Fault.no_device_detected = text "NoDeviceDetected"
controller_fault_name Fault.communication_not_ready = text "CommunicationNotReady"
controller_fault_name Fault.emergency_stop = text "EmergencyStop"
controller_fault_name Fault.controller_overcurrent = text "Overcurrent"
controller_fault_name (Fault.unnamed_controller_fault n) = text "Unrecognized"

unfoldable pub severity_name : FaultSeverity → List ℕ
severity_name Fault.harmless = text "None"
severity_name Fault.warning = text "Warning"
severity_name Fault.minor = text "Minor"
severity_name Fault.major = text "Major"

unfoldable pub level_name : Level → List ℕ
level_name Level.debug = text "Debug"
level_name Level.info = text "Info"
level_name Level.warn = text "Warn"
level_name Level.error = text "Error"

-- Resized to five characters, with spaces.
unfoldable pub padded_level : Level → List ℕ
unfolding level_name
padded_level level = let name = level_name level in take 5 name ++ replicate (5 - length name) 32

-- A field after the fields before it; the separator comes with it.
unfoldable pub append_field : List ℕ → List ℕ → List ℕ → List ℕ
append_field [] name value = name ++ 61 ∷ value
append_field (c ∷ out) name value = (c ∷ out) ++ (32 ∷ (name ++ (61 ∷ value)))

abbrev pub bit_text : Bool → List ℕ
bit_text on = if on then text "1" else text "0"

unfoldable pub append_bit : List ℕ → List ℕ → Bool → List ℕ
unfolding append_field
append_bit out name on = append_field out name (bit_text on)

-- std::to_string of a byte.
unfoldable pub decimal : ℕ → List ℕ
decimal n =
    if ltb n 10
    then (48 + n) ∷ []
    else if ltb n 100
    then (48 + n / 10) ∷ (48 + n % 10) ∷ []
    else (48 + n / 100) ∷ (48 + n / 10 % 10) ∷ (48 + n % 10) ∷ []

unfoldable pub append_byte : List ℕ → List ℕ → ℕ → List ℕ
unfolding append_field decimal
append_byte out name value = append_field out name (decimal value)

-- The name of a code and its low nibble in hexadecimal.
unfoldable pub enum_text : List ℕ → ℕ → List ℕ
enum_text name value =
    name ++ (text "(0x" ++ (get_or (text "0123456789ABCDEF") (bit_and value 0x0F) 0 ∷ 41 ∷ []))

unfoldable pub append_enum : List ℕ → List ℕ → List ℕ → ℕ → List ℕ
unfolding append_field enum_text
append_enum out name value_name value = append_field out name (enum_text value_name value)

unfoldable pub command_text : GripperCommand → List ℕ
unfolding append_bit append_byte
command_text c =
    let out = append_bit [] (text "rACT") (get c.action activate) in
    let out = append_bit out (text "rGTO") (get c.action go_to) in
    let out = append_bit out (text "rATR") (get c.action auto_release) in
    let out = append_bit out (text "rARD") (get c.action auto_release_open_direction) in
    let out = append_byte out (text "rPR") c.position_request in
    let out = append_byte out (text "rSP") c.speed in append_byte out (text "rFR") c.force

unfoldable pub flags_text : GripperStatusFlags → List ℕ
unfolding append_bit append_enum activation_state_name object_detection_name
flags_text flags =
    let st = activation_state flags in
    let ob = object_detection flags in
    let out = append_bit [] (text "gACT") (activated flags) in
    let out = append_bit out (text "gGTO") (go_to_enabled flags) in
    let out = append_enum out (text "gSTA") (activation_state_name st) (activation_state_code st) in
    append_enum out (text "gOBJ") (object_detection_name ob) (object_detection_code ob)

unfoldable pub fault_text : FaultStatus → List ℕ
unfolding append_enum gripper_fault_name controller_fault_name
fault_text fault =
    let g = gripper_fault fault in
    let k = controller_fault fault in
    let out = append_enum [] (text "gFLT") (gripper_fault_name g) (gripper_fault_code g) in
    append_enum out (text "kFLT") (controller_fault_name k) (controller_fault_code k)

unfoldable pub status_text : GripperStatus → List ℕ
unfolding flags_text fault_text append_byte
status_text s =
    let out = flags_text s.gripper_status ++ 32 ∷ fault_text s.fault_status in
    let out = append_byte out (text "gPR") s.position_request_echo in
    let out = append_byte out (text "gPO") s.position in append_byte out (text "gCU") s.current
