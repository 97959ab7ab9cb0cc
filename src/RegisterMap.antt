-- ===== src/RegisterMap.antt =====
-- The block layout and field masks of sdk_cpp/include/Robotiq/detail/register_map.hpp, and the
-- Modbus addresses of sdk_cpp/include/Robotiq/detail/modbus_constants.hpp.
use grippers.Prelude.{ℕ, ◌/◌}

abbrev pub command_block_bytes : ℕ
command_block_bytes = 16

abbrev pub status_block_bytes : ℕ
status_block_bytes = 16

abbrev pub command_documented_bytes : ℕ
command_documented_bytes = 6

abbrev pub status_documented_bytes : ℕ
status_documented_bytes = 6

-- GRIPPER STATUS byte
abbrev pub activation_status_mask : ℕ
activation_status_mask = 0x01

abbrev pub go_to_echo_mask : ℕ
go_to_echo_mask = 0x08

abbrev pub activation_state_mask : ℕ
activation_state_mask = 0x30

abbrev pub object_detection_mask : ℕ
object_detection_mask = 0xC0

-- The shifts, as the powers of two that they divide and multiply by.
abbrev pub activation_state_shift : ℕ
activation_state_shift = 16

abbrev pub object_detection_shift : ℕ
object_detection_shift = 64

-- FAULT STATUS byte
abbrev pub gripper_fault_mask : ℕ
gripper_fault_mask = 0x0F

abbrev pub controller_fault_mask : ℕ
controller_fault_mask = 0xF0

abbrev pub controller_fault_shift : ℕ
controller_fault_shift = 16

abbrev pub command_address : ℕ
command_address = 0x03E8

abbrev pub command_register_count : ℕ
command_register_count = command_documented_bytes / 2

abbrev pub status_address : ℕ
status_address = 0x07D0

abbrev pub status_register_count : ℕ
status_register_count = status_documented_bytes / 2
