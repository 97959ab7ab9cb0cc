-- ===== src/Status/Writer.antt =====
-- sdk_cpp/src/fake/status_writer.cpp: the writers of the packed bytes of a status block.
pub mod Laws
use grippers.Prelude.{ℕ, ◌-◌, ◌*◌, bit_and, bit_or, Bool, if◌then◌else◌}
use grippers.Byte.{u8}
use grippers.Fault.{GripperFault, gripper_fault_code}
use grippers.Status.{
  GripperStatus, ActivationState, ObjectDetection, activation_state_code, object_detection_code,
}
use grippers.RegisterMap.{
  activation_status_mask, go_to_echo_mask, activation_state_mask, activation_state_shift,
  object_detection_mask, object_detection_shift, gripper_fault_mask,
}

with_field : ℕ → ℕ → ℕ → ℕ
with_field bits mask value = u8 (bit_or (bit_and bits (255 - mask)) (bit_and value mask))

with_flag : ℕ → ℕ → Bool → ℕ
with_flag bits mask on = u8 (if on then bit_or bits mask else bit_and bits (255 - mask))

unfoldable pub set_activated : GripperStatus → Bool → GripperStatus
unfolding with_flag
set_activated s on = record s {
  gripper_status = record { raw = with_flag s.gripper_status.raw activation_status_mask on };
}

unfoldable pub set_go_to_enabled : GripperStatus → Bool → GripperStatus
unfolding with_flag
set_go_to_enabled s on = record s {
  gripper_status = record { raw = with_flag s.gripper_status.raw go_to_echo_mask on };
}

unfoldable pub set_activation_state : GripperStatus → ActivationState → GripperStatus
unfolding with_field
set_activation_state s state = record s {
  gripper_status = record {
    raw =
        with_field s.gripper_status.raw activation_state_mask
          (u8 (activation_state_code state * activation_state_shift));
  };
}

unfoldable pub set_object_detection : GripperStatus → ObjectDetection → GripperStatus
unfolding with_field
set_object_detection s detection = record s {
  gripper_status = record {
    raw =
        with_field s.gripper_status.raw object_detection_mask
          (u8 (object_detection_code detection * object_detection_shift));
  };
}

unfoldable pub set_gripper_fault : GripperStatus → GripperFault → GripperStatus
unfolding with_field
set_gripper_fault s fault = record s {
  fault_status = record {
    raw = with_field s.fault_status.raw gripper_fault_mask (gripper_fault_code fault);
  };
}

unfoldable pub set_status_flags_byte : GripperStatus → ℕ → GripperStatus
set_status_flags_byte s byte = record s { gripper_status = record { raw = byte } }

unfoldable pub set_fault_status_byte : GripperStatus → ℕ → GripperStatus
set_fault_status_byte s byte = record s { fault_status = record { raw = byte } }
