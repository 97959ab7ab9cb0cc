-- ===== src/Tests/Whole.antt =====
-- The whole program over the fake device: a gripper with a latched fault, a cycle under way.
use grippers.Prelude.{◌/◌, ◌+◌, ◌≡◌, refl, true, some, [], ◌∷◌, arith, if◌then◌else◌, ◌==◌}
use grippers.Command.{command_data, GripperCommand, zero_command}
use grippers.RegisterModel.{RegisterModel}
use grippers.ModbusClient.Loopback.{direct, direct-Carries}
use grippers.GripperState.{GripperState, new_state, wait_for_exchange}
use grippers.Gripper.{nanoseconds, recover_from_fault, run_activate}
use grippers.Gripper.Waits.{Laws}
use grippers.FakeGripper.{Run, gripper, woken, wait_run}
use grippers.FakeGripper.Waiting.{Ready}
use grippers.FakeGripper.Activates.{Activated}
use grippers.FakeGripper.Outcomes.{
  Settles, handshaken, run_activate-Settles, recover_from_fault-Activated,
}
use grippers.FakeGripper.Lawful.{live_gripper, live_gripper-Laws}
use grippers.FakeGripper.Syncs.{wakes, wait_run-sync}

-- A device with an overcurrent fault latched while it was gripping.
abbrev pub latched : RegisterModel
latched = record {
  registers = λ a. if a == 2000 then 0xF900 else if a == 2001 then 0x0E00 else 0;
  previous_activate_bit = true;
  activation_done = true;
  log = [];
}

abbrev pub gripping : GripperCommand
gripping = record zero_command { action = record { value = 9 }; position_request = 200 }

abbrev pub begun : GripperState
begun =
    let s = new_state 10000000 in record s { image = record s.image { next_command = gripping } }

-- A cycle of ten milliseconds, four of which are on the wire.
abbrev pub stuck : Run
stuck = record {
  system = record {
    state = begun;
    in_flight = some gripping;
    device = latched;
    clock = 1000000;
    history = gripping ∷ [];
  };
  schedule =
      4000000 ∷ 10000000 ∷ 14000000 ∷ 20000000 ∷ 24000000 ∷ 30000000 ∷ 34000000 ∷ 40000000
      ∷ 44000000 ∷ 50000000 ∷ 54000000 ∷ 60000000 ∷ [];
}

stuck-Ready : Ready (stuck.clock + nanoseconds (1000 / 2)) 12 stuck
unfolding new_state command_data
stuck-Ready = record {
  done_with_bit = refl;
  next_bytes = omega arith;
  flight_bytes = omega arith;
  not_closed = refl;
  early = omega arith;
  near = omega arith;
  prompt = omega arith;
  room = omega arith;
}

recover_from_fault-Activated_example :
    let (a, w) = recover_from_fault (gripper direct) 2 1000 stuck in
    Activated (handshaken stuck) a w
recover_from_fault-Activated_example =
    recover_from_fault-Activated direct direct-Carries 0 1000 stuck (omega arith) stuck-Ready

run_activate-Settles_example :
    let (a, w) = run_activate (gripper direct) 2 1000 stuck in Settles stuck a w
run_activate-Settles_example =
    run_activate-Settles direct direct-Carries 0 1000 stuck (omega arith) stuck-Ready

live_gripper-Laws_example : Laws (live_gripper direct 1000)
live_gripper-Laws_example = live_gripper-Laws direct 1000 (omega arith)

wait_run-sync_example :
    wait_for_exchange 1 30000000
      (woken stuck.system)
      (wakes direct 1 30000000 stuck.schedule stuck.system)
    ≡ some (wait_run direct 1 30000000 stuck).0
wait_run-sync_example = wait_run-sync direct 1 30000000 stuck
