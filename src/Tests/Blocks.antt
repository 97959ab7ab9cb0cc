-- ===== src/Tests/Blocks.antt =====
-- The command and status blocks and their wire form.
use grippers.Prelude.{ℕ, ◌≡◌, refl, true, false, List, [], ◌∷◌, length, get_or, arith, replicate}
use grippers.Command.{NamedBitArray}
use grippers.Fault.{FaultStatus}
use grippers.Status.{
  in_progress, object_detection, activation_state, go_to_enabled, activated, GripperStatus,
  zero_status, complete, moving, at_requested_position,
}
use grippers.Status.Writer.{
  set_activated, set_go_to_enabled, set_activation_state, set_object_detection,
}
use grippers.Status.Writer.Laws.{HasFields, writers-HasFields}
use grippers.Packing.{registers_from_bytes, bytes_from_registers}
use grippers.Packing.RoundTrip.{bytes_from_registers-registers_from_bytes}

abbrev action : NamedBitArray
action = record { value = 0x31 }

abbrev fault : FaultStatus
fault = record { raw = 0xC5 }

-- rACT echoed, rGTO clear, activation in progress.
abbrev starting : GripperStatus
starting = record zero_status { gripper_status = record { raw = 0x11 } }

writers-HasFields_example :
    HasFields (set_activated starting false).gripper_status false false in_progress moving
    × HasFields (set_go_to_enabled starting false).gripper_status true false in_progress moving
    × HasFields (set_activation_state starting complete).gripper_status true false complete moving
    × HasFields
        (set_object_detection starting at_requested_position).gripper_status
        true
        false
        in_progress
        at_requested_position
unfolding activated go_to_enabled activation_state object_detection
writers-HasFields_example =
    writers-HasFields starting (omega arith) complete at_requested_position false

abbrev block : List ℕ
block = 0x09 ∷ 0x00 ∷ 0x00 ∷ 0x80 ∷ 0xFF ∷ 0x40 ∷ []

bytes_from_registers-registers_from_bytes_example :
    (get_or (bytes_from_registers 3 (registers_from_bytes 3 block) (replicate 16 0)) 3 0 ≡ 0x80)
    × (length (bytes_from_registers 3 (registers_from_bytes 3 block) (replicate 16 0)) ≡ 16)
bytes_from_registers-registers_from_bytes_example =
    bytes_from_registers-registers_from_bytes 3 3 block (replicate 16 0) (omega arith) (omega arith)

-- The high byte goes first.
wire_order : registers_from_bytes 3 block ≡ 0x0900 ∷ 0x0080 ∷ 0xFF40 ∷ []
unfolding registers_from_bytes
wire_order = refl
