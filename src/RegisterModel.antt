-- ===== src/RegisterModel.antt =====
-- The fake gripper's register file and protocol: sdk_cpp/src/fake/register_model.hpp and
-- sdk_cpp/src/fake/register_model.cpp. The register array is a function of the address, read and
-- written below `register_count` only; the logger keeps the accesses that were refused. The
-- asserts are those of a release build: skipped.
pub mod Wire
pub mod Protocol
pub mod History
use grippers.Prelude.{
  ℕ, zero, suc, ◌+◌, ◌-◌, Bool, true, false, not, ◌&&◌, List, [], ◌∷◌, get_or, set, ltb, leb,
  if◌then◌else◌,
}
use grippers.Byte.{u16, u32}
use grippers.RegisterMap.{command_address, status_address}
use grippers.Command.{
  GripperCommand, activate, go_to, get, zero_command, command_data, command_of_data,
}
use grippers.Status.{
  GripperStatus, complete, at_requested_position, zero_status, status_data, status_of_data,
}
use grippers.Status.Writer.{
  set_activated, set_go_to_enabled, set_activation_state, set_object_detection,
  set_fault_status_byte,
}
use grippers.Packing.{registers_from_bytes, bytes_from_registers}

abbrev pub block_registers : ℕ
block_registers = 8

abbrev pub reported_current : ℕ
reported_current = 0x2A

abbrev pub register_count : ℕ
register_count = status_address + block_registers

pub data Refusal : Type 0 where
  read_refused write_refused : ℕ → ℕ → Refusal

pub record RegisterModel : Type 0 where
  pub registers : ℕ → ℕ
  pub previous_activate_bit : Bool
  pub activation_done : Bool
  pub log : List Refusal

pub initial : RegisterModel
initial = record {
  registers = λ _. 0;
  previous_activate_bit = false;
  activation_done = false;
  log = [];
}

-- The sum is taken in 32 bits, so an empty range at address 0 is not contained.
unfoldable pub contains_range : ℕ → ℕ → Bool
contains_range address quantity = ltb (u32 (address + quantity + 4294967295)) register_count

in_command_block : ℕ → Bool
in_command_block reg = leb command_address reg && ltb reg (command_address + block_registers)

-- The loop of read(), from index `i`, with `left` registers to go.
read_from : ℕ → ℕ → ℕ → (ℕ → ℕ) → List ℕ → List ℕ
unfolding in_command_block
read_from zero i address registers out = out
read_from (suc left) i address registers out =
    let reg = u16 (address + i) in
    read_from left (i + 1) address registers
      (set out i (if in_command_block reg then 0 else registers reg))

-- The filled buffer and the model, whose log is the only thing that a read may change.
unfoldable pub read : ℕ → ℕ → List ℕ → RegisterModel → List ℕ × RegisterModel
unfolding read_from contains_range
read address quantity out m =
    if contains_range address quantity
    then (read_from quantity 0 address m.registers out, m)
    else (out, record m { log = read_refused address quantity ∷ m.log })

-- std::copy_n into the register file.
copy_in : ℕ → ℕ → List ℕ → (ℕ → ℕ) → ℕ → ℕ
copy_in quantity address values registers a =
    if leb address a && ltb a (address + quantity)
    then get_or values (a - address) 0
    else registers a

-- std::copy_n out of the register file.
copy_out : ℕ → ℕ → (ℕ → ℕ) → List ℕ
copy_out zero address registers = []
copy_out (suc left) address registers = registers address ∷ copy_out left (address + 1) registers

pub command : RegisterModel → GripperCommand
unfolding copy_out bytes_from_registers command_of_data command_data
command m = command_of_data (
    bytes_from_registers block_registers (copy_out block_registers command_address m.registers)
      (command_data zero_command))

unfoldable pub status : RegisterModel → GripperStatus
unfolding copy_out bytes_from_registers status_of_data status_data
status m = status_of_data (
    bytes_from_registers block_registers (copy_out block_registers status_address m.registers)
      (status_data zero_status))

pub set_status : GripperStatus → RegisterModel → RegisterModel
unfolding copy_in registers_from_bytes status_data
set_status s m = record m {
  registers =
      copy_in block_registers status_address (registers_from_bytes block_registers (status_data s))
        m.registers;
}

-- The two edge-tracking members after a command with this rACT bit.
track_edges : Bool → RegisterModel → RegisterModel
track_edges activate_bit m =
    let risen = activate_bit && not m.previous_activate_bit in
    let done = if risen then true else m.activation_done in
    record m {
      activation_done = if activate_bit then done else false;
      previous_activate_bit = activate_bit;
    }

-- The part of the status that only an activated device reports.
report_motion : Bool → Bool → GripperStatus → GripperStatus
unfolding set_activation_state set_go_to_enabled set_object_detection
report_motion done go s =
    if done
    then (let s' = set_activation_state s complete in
        if go then set_object_detection (set_go_to_enabled s' true) at_requested_position else s')
    else s

-- processCommand() with the two bits and the position request that it reads of the command.
act_on : Bool → Bool → ℕ → GripperStatus → RegisterModel → GripperStatus × RegisterModel
unfolding track_edges report_motion set_activated set_fault_status_byte
act_on activate_bit go_to_bit position_request current m =
    let fault = if activate_bit then current.fault_status.raw else 0 in
    let m' = track_edges activate_bit m in
    let s = set_activated (set_fault_status_byte zero_status fault) activate_bit in
    let s' = report_motion (activate_bit && m'.activation_done) go_to_bit s in
    (
      record s' {
        position_request_echo = position_request;
        position = position_request;
        current = reported_current;
      },
      m',
    )

pub process_command : GripperCommand → GripperStatus → RegisterModel → GripperStatus × RegisterModel
unfolding act_on
process_command c current m =
    act_on (get c.action activate) (get c.action go_to) c.position_request current m

-- write() past its guard: `setStatus(processCommand(command(), status()))`.
pub react : RegisterModel → RegisterModel
react m = let (s, m') = process_command (command m) (status m) m in set_status s m'

pub written : ℕ → ℕ → List ℕ → RegisterModel → RegisterModel
unfolding copy_in
written address quantity values m = record m {
  registers = copy_in quantity address values m.registers;
}

pub write : ℕ → ℕ → List ℕ → RegisterModel → RegisterModel
unfolding contains_range
write address quantity values m =
    if contains_range address quantity
    then react (written address quantity values m)
    else record m { log = write_refused address quantity ∷ m.log }
