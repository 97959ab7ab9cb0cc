-- ===== src/RegisterModel/Protocol.antt =====
-- What the device reports after it acted on a command, and what it keeps across commands.
use grippers.Prelude.{ℕ, ◌≡◌, refl, Bool, true, false, ◌&&◌, List, arith, if◌then◌else◌}
use grippers.Byte.{IsByte}
use grippers.Command.{GripperCommand, activate, go_to, get}
use grippers.Status.{
  object_detection_code, activation_state_code, GripperStatus, IsBlock, reset, complete, moving,
  at_requested_position, activated, go_to_enabled, activation_state, object_detection, status_data,
  zero_status,
}
use grippers.Status.Writer.Laws.{HasFields}
use grippers.RegisterModel.{RegisterModel, Refusal, act_on, process_command, reported_current}

-- Bytes that process_command may write at place 0, by (rACT, done, rGTO).
abbrev pub flags_byte : Bool → Bool → Bool → ℕ
flags_byte act done go = if act then (if done then (if go then 0xF9 else 0x31) else 0x01) else 0x00

abbrev reported_by : Bool → Bool → Bool → ℕ → ℕ → GripperStatus
reported_by act done go position fault = record zero_status {
  gripper_status = record { raw = flags_byte act done go };
  fault_status = record { raw = if act then fault else 0 };
  position_request_echo = position;
  position = position;
  current = reported_current;
}

-- The status that a device reports: each field, by the rACT and rGTO bits of the command and by
-- whether the activation is done; a fault byte survives while rACT is set.
abbrev pub reported : GripperCommand → GripperStatus → Bool → GripperStatus
reported c current done =
    reported_by (get c.action activate) done (get c.action go_to) c.position_request
      current.fault_status.raw

-- Has the activation run, once a command with this rACT bit was seen?
abbrev pub done_after : Bool → RegisterModel → Bool
done_after act m =
    if act then (if m.previous_activate_bit then m.activation_done else true) else false

act_on_lem :
    (act go previous done : Bool) (position : ℕ) (current : GripperStatus) (registers : ℕ → ℕ)
    (log : List Refusal)
    → (let m : RegisterModel = record {
      registers = registers;
      previous_activate_bit = previous;
      activation_done = done;
      log = log;
    } in
        act_on act go position current m ≡ (
          reported_by act (done_after act m) go position current.fault_status.raw,
          record m { activation_done = done_after act m; previous_activate_bit = act },
        ))
unfolding act_on activation_state_code object_detection_code
act_on_lem true true true true position current registers log = refl
act_on_lem true true true false position current registers log = refl
act_on_lem true true false true position current registers log = refl
act_on_lem true true false false position current registers log = refl
act_on_lem true false true true position current registers log = refl
act_on_lem true false true false position current registers log = refl
act_on_lem true false false true position current registers log = refl
act_on_lem true false false false position current registers log = refl
act_on_lem false go previous done position current registers log = refl

-- Acting on a command gives the reported status, tracks rACT and its rising edge, and leaves the
-- register file and the log alone.
pub process_command_lem :
    (c : GripperCommand) (current : GripperStatus) (m : RegisterModel)
    → (let act = get c.action activate in
        process_command c current m ≡ (
          reported c current (done_after act m),
          record m { activation_done = done_after act m; previous_activate_bit = act },
        ))
unfolding process_command
process_command_lem c current m =
    act_on_lem (get c.action activate) (get c.action go_to) m.previous_activate_bit
      m.activation_done c.position_request current m.registers m.log

fields :
    (act go done : Bool)
    → (let motion = act && done && go in
        HasFields
          (record { raw = flags_byte act done go })
          act
          motion
          (if act && done then complete else reset)
          (if motion then at_requested_position else moving))
unfolding activated go_to_enabled activation_state object_detection
fields true true true = record {
  has_activated = refl;
  has_go_to = refl;
  has_state = refl;
  has_detection = refl;
}
fields true true false = record {
  has_activated = refl;
  has_go_to = refl;
  has_state = refl;
  has_detection = refl;
}
fields true false true = record {
  has_activated = refl;
  has_go_to = refl;
  has_state = refl;
  has_detection = refl;
}
fields true false false = record {
  has_activated = refl;
  has_go_to = refl;
  has_state = refl;
  has_detection = refl;
}
fields false go done = record {
  has_activated = refl;
  has_go_to = refl;
  has_state = refl;
  has_detection = refl;
}

-- The decoded fields of a reported status.
pub reported-HasFields :
    (c : GripperCommand) (current : GripperStatus) (done : Bool)
    → (let act = get c.action activate in
        let motion = act && done && get c.action go_to in
        HasFields
          (reported c current done).gripper_status
          act
          motion
          (if act && done then complete else reset)
          (if motion then at_requested_position else moving))
unfolding activated go_to_enabled activation_state object_detection
reported-HasFields c current done = fields (get c.action activate) (get c.action go_to) done

-- What it reports is a block of 16 bytes.
pub reported-IsBlock :
    (c : GripperCommand) (current : GripperStatus) (done : Bool)
    → IsByte c.position_request
    → IsByte current.fault_status.raw
    → IsBlock (reported c current done)
unfolding status_data
reported-IsBlock c current done hp hf = ground arith
