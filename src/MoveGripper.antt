-- ===== src/MoveGripper.antt =====
-- The example program that activates a gripper, opens it and closes it:
-- sdk_cpp/examples/move_gripper.cpp. The texts that main() prints itself are left out; what
-- std::stoul and the connection answer are arguments.
pub mod Cycle
use grippers.Prelude.{ℕ, ◌||◌, Bool, true, false, Option, none, some, ltb, if◌then◌else◌}
use grippers.Byte.{u32}
use grippers.Command.{GripperCommand, defaults}
use grippers.Units.{Doubles, DeviceProfile, speed_to_register, effort_to_register}
use grippers.GripperEvents.{Station, Outcome, activate_or_recover, move_to}

abbrev pub min_baudrate : ℕ
min_baudrate = 1

abbrev pub max_baudrate : ℕ
max_baudrate = 1000000

-- The baudrate of the second argument, by what std::stoul makes of it; none where that or the range
-- check throws.
unfoldable pub parsed_baudrate : Option ℕ → Option ℕ
parsed_baudrate none = none
parsed_baudrate (some parsed) =
    if ltb parsed min_baudrate || ltb max_baudrate parsed then none else some (u32 parsed)

-- What main() returns, success or not, with the world then; none while a call runs on.
pub record Exit (W : Type 0) : Type 0 where
  pub success : Option Bool
  pub world : W

module _ {W : Type 0} (s : Station W) {D : Type 0} (d : Doubles D) (profile : DeviceProfile D)
    (speed : D) where
  -- After the second move.
  unfoldable pub exit_of : Outcome W × GripperCommand → Exit W
  exit_of (o, command) = record { success = o.result; world = o.world }

  -- After the first: the gripper is closed, or main() has failed.
  unfoldable pub close_after : ℕ → Outcome W × GripperCommand → Exit W
  unfolding exit_of move_to
  close_after fuel (o, command) =
      let closed = exit_of (move_to s d profile fuel profile.min_opening command o.world) in
      elim o.result [
        | none ↦ record { success = none; world = o.world }
        | some moved ↦ if moved then closed else (record { success = some false; world = o.world })
      ]

  -- The command block that both moves use, if the speed and the effort have registers.
  unfoldable pub first_command : Option ℕ → Option ℕ → Option GripperCommand
  unfolding defaults
  first_command none force = none
  first_command (some v) none = none
  first_command (some v) (some f) = some (record defaults { speed = v; force = f })

  unfoldable pub open_with : ℕ → Option GripperCommand → W → Exit W
  unfolding close_after move_to
  open_with fuel none w = record { success = some false; world = w }
  open_with fuel (some command) w =
      close_after fuel (move_to s d profile fuel profile.max_opening command w)

  -- After activateOrRecover().
  unfoldable pub move_after : ℕ → Outcome W → Exit W
  unfolding open_with
  move_after fuel o =
      let command =
        first_command (speed_to_register d speed profile) (effort_to_register d (d.of_number 1)) in
      let moved = open_with fuel command o.world in
      elim o.result [
        | none ↦ record { success = none; world = o.world }
        | some active ↦ if active then moved else (record { success = some false; world = o.world })
      ]

  -- main() past the connection.
  unfoldable pub run_connected : ℕ → W → Exit W
  unfolding move_after
  run_connected fuel w = move_after fuel (activate_or_recover s fuel w)
