-- ===== src/GripperEvents.antt =====
-- What the example programs do with a gripper: sdk_cpp/examples/gripper_events.cpp. A call that is
-- still running when its fuel ends answers none; the lines that are logged are kept as values, the
-- status that goes with a line as its text.
pub mod Aims
pub mod Motion
pub mod Moves
pub mod Recovers
use grippers.Prelude.{ℕ, Bool, true, false, Option, none, some, List, [], ◌∷◌, ◌++◌, if◌then◌else◌}
use grippers.Command.{GripperCommand, go_to, set_to}
use grippers.Status.{GripperStatus, moving}
use grippers.ActivationResult.{ActivationResult}
use grippers.GripperState.{ConnectionState}
use grippers.DefaultSerial.{Level}
use grippers.Rendering.{text, connection_state_name, status_text, command_text}
use grippers.Units.{Doubles, DeviceProfile, opening_to_register, opening_from_register}
use grippers.Gripper.{
  Handle, Waited, out_of_fuel, timed_out, seen, run_activate, recover_from_fault,
  set_command_and_wait_for_exchange, wait_for_object_detection, wait_for_motion_end,
}

-- The lines, with the text of the link and the status where withStatus() adds it.
pub data Message : Type 0 where
  fault_latched no_register_value no_motion_seen : Message
  activation_failed activated no_exchange never_settled no_opening : List ℕ → Message
  sending : List ℕ → Message
  settled_at : ℕ → List ℕ → Message

pub record Line : Type 0 where
  pub level : Level
  pub message : Message

-- What the examples use of a Gripper.
pub record Station (W : Type 0) : Type 0 where
  pub handle : Handle W
  pub status : W → GripperStatus × W
  pub connection_state : W → ConnectionState × W

-- What a call came to, the lines it logged in their order, and the world after it.
pub record Outcome (W : Type 0) : Type 0 where
  pub result : Option Bool
  pub lines : List Line
  pub world : W

abbrev pub add_line : Level → Message → List Line → List Line
add_line level message lines = lines ++ (record { level = level; message = message } ∷ [])

abbrev pub default_timeout : ℕ
default_timeout = 15000

abbrev pub is_active : ActivationResult → Bool
is_active ActivationResult.activated = true
is_active ActivationResult.already_active = true
is_active ActivationResult.fault_latched = false
is_active ActivationResult.timeout = false

-- The command of a move.
unfoldable pub aimed : ℕ → GripperCommand → GripperCommand
unfolding set_to
aimed position command = record command {
  position_request = position;
  action = set_to command.action go_to true;
}

module _ {W : Type 0} (s : Station W) where
  -- The text that withStatus() puts after its message.
  unfoldable pub with_status : W → List ℕ × W
  unfolding connection_state_name status_text
  with_status w =
      let (status, w1) = s.status w in
      let (link, w2) = s.connection_state w1 in
      (text "; link=" ++ (connection_state_name link ++ (32 ∷ status_text status)), w2)

  -- A last line with the status, and the result.
  unfoldable pub report : Bool → Level → (List ℕ → Message) → List Line → W → Outcome W
  unfolding with_status
  report result level message lines w =
      let (status, w1) = with_status w in
      record { result = some result; lines = add_line level (message status) lines; world = w1 }

  unfoldable pub final_check : List Line → Option ActivationResult × W → Outcome W
  unfolding report
  final_check lines (none, w) = record { result = none; lines = lines; world = w }
  final_check lines (some activation, w) =
      if is_active activation
      then report true Level.info activated lines w
      else report false Level.error activation_failed lines w

  -- activateOrRecover() after its activate().
  unfoldable pub recover_latched : ℕ → Option ActivationResult × W → Outcome W
  unfolding final_check recover_from_fault
  recover_latched fuel (some ActivationResult.fault_latched, w) =
      final_check (add_line Level.warn fault_latched [])
        (recover_from_fault s.handle fuel default_timeout w)
  recover_latched fuel (activation, w) = final_check [] (activation, w)

  unfoldable pub activate_or_recover : ℕ → W → Outcome W
  unfolding recover_latched run_activate
  activate_or_recover fuel w = recover_latched fuel (run_activate s.handle fuel default_timeout w)

  module _ {D : Type 0} (d : Doubles D) (profile : DeviceProfile D) where
    unfoldable pub tell_opening : Option D → List Line → W → Outcome W
    unfolding report
    tell_opening none lines w = report false Level.error no_opening lines w
    tell_opening (some opening) lines w =
        report true Level.info (settled_at (d.lround (d.mul opening (d.of_number 1000)))) lines w

    -- After the wait for the end of the motion.
    unfoldable pub after_motion : List Line → Waited × W → Outcome W
    unfolding tell_opening opening_from_register
    after_motion lines (out_of_fuel, w) = record { result = none; lines = lines; world = w }
    after_motion lines (timed_out, w) = report false Level.error never_settled lines w
    after_motion lines (seen settled, w) =
        tell_opening (opening_from_register d settled.status.position profile) lines w

    -- After the wait for its start, which is only advisory.
    unfoldable pub after_start : ℕ → List Line → Waited × W → Outcome W
    unfolding after_motion wait_for_motion_end
    after_start fuel lines (out_of_fuel, w) = record { result = none; lines = lines; world = w }
    after_start fuel lines (timed_out, w) =
        after_motion (add_line Level.debug no_motion_seen lines)
          (wait_for_motion_end s.handle fuel 5000 w)
    after_start fuel lines (seen e, w) =
        after_motion lines (wait_for_motion_end s.handle fuel 5000 w)

    -- After the wait for an exchange that carried the command.
    unfoldable pub after_send : ℕ → List Line → Waited × W → Outcome W
    unfolding after_start wait_for_object_detection
    after_send fuel lines (out_of_fuel, w) = record { result = none; lines = lines; world = w }
    after_send fuel lines (timed_out, w) = report false Level.error no_exchange lines w
    after_send fuel lines (seen e, w) =
        after_start fuel lines (wait_for_object_detection s.handle fuel moving 200 w)

    -- moveTo() with the register of the opening, if there is one; with the caller's command, which
    -- it changes.
    unfoldable pub move_with : Option ℕ → ℕ → GripperCommand → W → Outcome W × GripperCommand
    unfolding after_send aimed command_text set_command_and_wait_for_exchange
    move_with none fuel command w = (
      record { result = some false; lines = add_line Level.error no_register_value []; world = w },
      command,
    )
    move_with (some position) fuel command w =
        let c = aimed position command in
        (
          after_send fuel (add_line Level.debug (sending (command_text c)) [])
              (set_command_and_wait_for_exchange s.handle fuel c 1000 w),
          c,
        )

    unfoldable pub move_to : ℕ → D → GripperCommand → W → Outcome W × GripperCommand
    unfolding move_with opening_to_register
    move_to fuel opening command w =
        move_with (opening_to_register d opening profile) fuel command w
