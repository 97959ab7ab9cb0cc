-- ===== src/MoveGripper/Cycle.antt =====
-- The whole example program over the fake device.
use grippers.Prelude.{ℕ, suc, ◌+◌, ◌≤◌, ◌<◌, ◌≡◌, refl, true, some, List, length, arith}
use grippers.Byte.{IsByte, AllBytes}
use grippers.Command.{GripperCommand, defaults, activate, get, command_data}
use grippers.Status.{at_requested_position, object_detection}
use grippers.RegisterModel.{RegisterModel}
use grippers.ModbusClient.{Nmbs}
use grippers.ModbusClient.Loopback.{Carries}
use grippers.Units.{
  Doubles, DeviceProfile, speed_to_register, effort_to_register, opening_to_register,
  register_from_span, rounded_register,
}
use grippers.FakeGripper.{Run}
use grippers.FakeGripper.Healthy.{Healthy, Healthy-within}
use grippers.GripperEvents.{Outcome, aimed}
use grippers.FakeGripper.Kept.{Left}
use grippers.GripperEvents.Aims.{station, aimed-bytes, aimed-activate, opening_to_register-IsByte}
use grippers.GripperEvents.Moves.{move_to-Settled}
use grippers.GripperEvents.Motion.{Settled}
use grippers.GripperEvents.Recovers.{Recovered, activate_or_recover-Recovered}
use grippers.MoveGripper.{
  Exit, first_command, close_after, open_with, move_after, exit_of, run_connected,
}

module _ {D : Type 0} (d : Doubles D) where
  register_from_span-IsByte :
      (value low high : D) (register : ℕ)
      → register_from_span d value low high ≡ some register
      → IsByte register
  unfolding register_from_span rounded_register
  register_from_span-IsByte value low high register e = ground arith

  speed_to_register-IsByte :
      (profile : DeviceProfile D) (speed : D) (register : ℕ)
      → speed_to_register d speed profile ≡ some register
      → IsByte register
  unfolding speed_to_register
  speed_to_register-IsByte profile speed register e =
      register_from_span-IsByte speed profile.min_speed profile.max_speed register e

  effort_to_register-IsByte :
      (effort : D) (register : ℕ) → effort_to_register d effort ≡ some register → IsByte register
  unfolding effort_to_register
  effort_to_register-IsByte effort register e =
      register_from_span-IsByte effort (d.of_number 0) (d.of_number 1) register e

first_command-bytes :
    (speed force : ℕ)
    → IsByte speed
    → IsByte force
    → AllBytes (command_data (record defaults { speed = speed; force = force }))
unfolding command_data defaults
first_command-bytes speed force hs hf = omega arith

first_command-activate :
    (speed force : ℕ)
    → get (record defaults { speed = speed; force = force }).action activate ≡ true
unfolding defaults get
first_command-activate speed force = refl

-- The program ends with success, and the newest exchange shows the fingers arrived at a position.
pub record Closed (position : ℕ) (x : Exit Run) : Type 0 where
  pub succeeded : x.success ≡ some true
  pub at_position : x.world.state.image.stamped.status.position ≡ position
  pub arrived :
      object_detection x.world.state.image.stamped.status.gripper_status ≡ at_requested_position

module _ (n : Nmbs RegisterModel) (link : Carries n) {D : Type 0} (d : Doubles D)
    (profile : DeviceProfile D) (speed : D) (fuel until : ℕ) where
  -- After a first move that succeeded.
  close_after-Closed :
      (position bound left : ℕ) (c : GripperCommand) (before : List GripperCommand)
      (o : Outcome Run)
      → opening_to_register d profile.min_opening profile ≡ some position
      → AllBytes (command_data c)
      → get c.action activate ≡ true
      → Settled until bound left c before o
      → left < suc (suc fuel)
      → bound + 4000000000 ≤ until
      → Closed position (close_after (station n) d profile speed (suc (suc fuel)) (o, c))
  unfolding close_after exit_of aimed
  close_after-Closed position bound left c before o reg bytes up x enough later =
      let on = x.goes_on.healthy in
      let h = Healthy-within until bound o.world.clock o.world (omega arith) on in
      let (y, aims, there, same) =
        move_to-Settled n link d profile profile.min_opening position fuel until c o.world reg bytes
          up h (omega (arith, on.within)) (omega (arith, x.goes_on.shorter)) in
      simp (x.succeeded)
        (record { succeeded = y.succeeded; at_position = there; arrived = y.arrived })

  -- From a gripper that is activated.
  open_with-Closed :
      (opened closed bound left : ℕ) (c : GripperCommand) (w : Run)
      → opening_to_register d profile.max_opening profile ≡ some opened
      → opening_to_register d profile.min_opening profile ≡ some closed
      → AllBytes (command_data c)
      → get c.action activate ≡ true
      → Left until bound left w
      → left < suc (suc fuel)
      → bound + 11000000000 ≤ until
      → Closed closed (open_with (station n) d profile speed (suc (suc fuel)) (some c) w)
  unfolding open_with
  open_with-Closed opened closed bound left c w reg reg' bytes up x enough later =
      let h = Healthy-within until bound w.clock w (omega arith) x.healthy in
      let within = x.healthy.within in
      let (y, aims, there, same) =
        move_to-Settled n link d profile profile.max_opening opened fuel until c w reg bytes up h
          (omega (arith, within)) (omega (arith, x.shorter)) in
      let p = opening_to_register-IsByte d profile profile.max_opening opened reg in
      close_after-Closed closed (w.clock + 7000000000) (length w.schedule) _ w.history _ reg'
        (rw same (aimed-bytes opened c p bytes)) (rw same (aimed-activate opened c bytes up)) y
        (omega (arith, x.shorter)) (omega (arith, within))

  -- From a gripper that may have to be activated first.
  move_after-Closed :
      (opened closed bound left v force : ℕ) (o : Outcome Run)
      → speed_to_register d speed profile ≡ some v
      → effort_to_register d (d.of_number 1) ≡ some force
      → opening_to_register d profile.max_opening profile ≡ some opened
      → opening_to_register d profile.min_opening profile ≡ some closed
      → Recovered until bound left o
      → left < suc (suc fuel)
      → bound + 11000000000 ≤ until
      → Closed closed (move_after (station n) d profile speed (suc (suc fuel)) o)
  unfolding move_after first_command
  move_after-Closed opened closed bound left v force o hv hf ho hc x enough later =
      let bv = speed_to_register-IsByte d profile speed v hv in
      let bf = effort_to_register-IsByte d (d.of_number 1) force hf in
      rw (x.succeeded, move_after, hv, hf)
        (open_with-Closed opened closed bound left (record defaults { speed = v; force = force })
          o.world ho hc (first_command-bytes v force bv bf) (first_command-activate v force)
          x.goes_on enough later)

-- Over a link that carries requests, when the thread takes a step at least every 200 ms for
-- forty-two seconds, and the profile has registers for the speed, the effort and both ends of its
-- openings: the program past its connection exits with success, with fuel for the schedule,
-- whatever fault was latched and whatever state the gripper was in; and the fingers have arrived
-- at the register of the smallest opening.
pub run_connected-Closed :
    (n : Nmbs RegisterModel)
    → Carries n
    → {D : Type 0} (d : Doubles D) (profile : DeviceProfile D) (speed : D)
      (v force opened closed fuel until : ℕ) (w : Run)
    → speed_to_register d speed profile ≡ some v
    → effort_to_register d (d.of_number 1) ≡ some force
    → opening_to_register d profile.max_opening profile ≡ some opened
    → opening_to_register d profile.min_opening profile ≡ some closed
    → Healthy until w.clock w
    → w.clock + 42000000000 ≤ until
    → length w.schedule < suc (suc fuel)
    → Closed closed (run_connected (station n) d profile speed (suc (suc fuel)) w)
unfolding run_connected
run_connected-Closed n link d profile speed v force opened closed fuel until w hv hf ho hc h later
      enough =
    move_after-Closed n link d profile speed fuel until opened closed (w.clock + 31000000000)
      (length w.schedule) v force _ hv hf ho hc
      (activate_or_recover-Recovered n link fuel until w h (omega arith) enough) enough
      (omega arith)
