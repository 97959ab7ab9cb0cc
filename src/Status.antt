-- ===== src/Status.antt =====
-- The status block: sdk_cpp/include/Robotiq/gripper/status.hpp.
pub mod Writer
use grippers.Prelude.{
  ℕ, ◌-◌, ◌/◌, ◌≡◌, bit_and, Bool, not, List, ◌∷◌, length, get_or, drop, replicate, ◌==◌,
  if◌then◌else◌,
}
use grippers.Byte.{AllBytes}
use grippers.Fault.{FaultStatus}
use grippers.RegisterMap.{
  status_block_bytes, status_documented_bytes, activation_status_mask, go_to_echo_mask,
  activation_state_mask, activation_state_shift, object_detection_mask, object_detection_shift,
}

pub data ActivationState : Type 0 where
  reset in_progress reserved complete : ActivationState

pub data ObjectDetection : Type 0 where
  moving detected_while_opening detected_while_closing at_requested_position : ObjectDetection

-- The casts of a two-bit field: the mask leaves 0 to 3.
unfoldable pub activation_state_of : ℕ → ActivationState
activation_state_of n =
    if n == 0x00
    then reset
    else if n == 0x01
    then in_progress
    else if n == 0x02
    then reserved
    else complete

unfoldable pub activation_state_code : ActivationState → ℕ
activation_state_code reset = 0x00
activation_state_code in_progress = 0x01
activation_state_code reserved = 0x02
activation_state_code complete = 0x03

unfoldable pub object_detection_of : ℕ → ObjectDetection
object_detection_of n =
    if n == 0x00
    then moving
    else if n == 0x01
    then detected_while_opening
    else if n == 0x02
    then detected_while_closing
    else at_requested_position

unfoldable pub object_detection_code : ObjectDetection → ℕ
object_detection_code moving = 0x00
object_detection_code detected_while_opening = 0x01
object_detection_code detected_while_closing = 0x02
object_detection_code at_requested_position = 0x03

-- GripperStatusFlags: `fromRaw` is the record, `raw` its field.
pub record GripperStatusFlags : Type 0 where
  pub raw : ℕ

unfoldable pub activated : GripperStatusFlags → Bool
activated f = not (bit_and f.raw activation_status_mask == 0)

unfoldable pub go_to_enabled : GripperStatusFlags → Bool
go_to_enabled f = not (bit_and f.raw go_to_echo_mask == 0)

unfoldable pub activation_state : GripperStatusFlags → ActivationState
unfolding activation_state_of
activation_state f =
    activation_state_of (bit_and f.raw activation_state_mask / activation_state_shift)

unfoldable pub object_detection : GripperStatusFlags → ObjectDetection
unfolding object_detection_of
object_detection f =
    object_detection_of (bit_and f.raw object_detection_mask / object_detection_shift)

pub record GripperStatus : Type 0 where
  pub gripper_status : GripperStatusFlags
  pub reserved1 : ℕ
  pub fault_status : FaultStatus
  pub position_request_echo : ℕ
  pub position : ℕ
  pub current : ℕ
  pub reserved_tail : List ℕ

-- GripperStatus{}: every byte zero.
abbrev pub zero_status : GripperStatus
zero_status = record {
  gripper_status = record { raw = 0 };
  reserved1 = 0;
  fault_status = record { raw = 0 };
  position_request_echo = 0;
  position = 0;
  current = 0;
  reserved_tail = replicate (status_block_bytes - status_documented_bytes) 0;
}

-- data(): the block read byte for byte.
unfoldable pub status_data : GripperStatus → List ℕ
status_data s =
    s.gripper_status.raw ∷ s.reserved1 ∷ s.fault_status.raw ∷ s.position_request_echo ∷ s.position
    ∷ s.current ∷ s.reserved_tail

-- The block that 16 bytes written through data() make.
unfoldable pub status_of_data : List ℕ → GripperStatus
status_of_data b = record {
  gripper_status = record { raw = get_or b 0 0 };
  reserved1 = get_or b 1 0;
  fault_status = record { raw = get_or b 2 0 };
  position_request_echo = get_or b 3 0;
  position = get_or b 4 0;
  current = get_or b 5 0;
  reserved_tail = drop status_documented_bytes b;
}

-- Sixteen bytes.
pub record IsBlock (s : GripperStatus) : Type 0 where
  pub bytes : AllBytes (status_data s)
  pub width : length (status_data s) ≡ status_block_bytes
