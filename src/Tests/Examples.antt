-- ===== src/Tests/Examples.antt =====
-- The example programs over the fake device, from a gripper with a latched fault.
use grippers.Prelude.{
  ℕ, zero, suc, ◌+◌, ◌*◌, ◌≤◌, ◌<◌, ◌≡◌, refl, inr, max, some, List, [], ◌∷◌, length, arith,
}
use grippers.Command.{get, command_data}
use grippers.ModbusClient.Loopback.{direct, direct-Carries}
use grippers.GripperState.{new_state}
use grippers.Units.{speed_to_register, effort_to_register, DeviceProfile, opening_to_register}
use grippers.FakeGripper.{Run}
use grippers.Gripper.{nanoseconds, run_activate}
use grippers.FakeGripper.{gripper}
use grippers.FakeGripper.Kept.{Answers, run_activate-Answers}
use grippers.FakeGripper.Healthy.{Healthy}
use grippers.FakeGripper.Steady.{gap, Steady}
use grippers.GripperEvents.{aimed, move_to, activate_or_recover}
use grippers.GripperEvents.Aims.{Aims, station}
use grippers.GripperEvents.Moves.{move_to-Settled}
use grippers.GripperEvents.Motion.{Settled}
use grippers.MoveGripper.{run_connected}
use grippers.MoveGripper.Cycle.{Closed, run_connected-Closed}
use grippers.GripperEvents.Recovers.{Recovered, activate_or_recover-Recovered}
use grippers.Tests.Units.{parts}
use grippers.Tests.Whole.{latched, gripping, begun}

-- One step a gap.
ticks : ℕ → ℕ → List ℕ
ticks zero at = []
ticks (suc k) at = (at + gap) ∷ ticks k (at + gap)

ticks-Steady :
    (k until at from : ℕ)
    → from ≤ at
    → at ≤ from
    → until ≤ at + k * gap
    → Steady until from (ticks k at)
unfolding ticks
ticks-Steady zero until at from h h' late = omega arith
ticks-Steady (suc k) until at from h h' late = inr (
  omega arith,
  ticks-Steady k until (at + gap) (max from (at + gap)) (omega arith) (omega arith) (omega arith),
)

length-ticks : (k at : ℕ) → length (ticks k at) ≡ k
unfolding ticks
length-ticks zero at = refl
length-ticks (suc k) at = omega (arith, length-ticks k (at + gap))

-- Three hundred of them, with a cycle under way.
abbrev slow : Run
slow = record {
  system = record {
    state = begun;
    in_flight = some gripping;
    device = latched;
    clock = 1000000;
    history = gripping ∷ [];
  };
  schedule = ticks 300 1000000;
}

abbrev end : ℕ
end = 60000000000

slow-Healthy : Healthy end slow.clock slow
unfolding new_state command_data
slow-Healthy = record {
  done_with_bit = refl;
  next_bytes = omega arith;
  flight_bytes = omega arith;
  not_closed = refl;
  within = omega arith;
  steady = ticks-Steady 300 end 1000000 1000000 (omega arith) (omega arith) (omega arith);
  room = omega (arith, length-ticks 300 1000000);
}

short : length slow.schedule < 302
short = omega (arith, length-ticks 300 1000000)

-- An opening of two units, in 255ths.
abbrev jaws : DeviceProfile ℕ
jaws = record {
  min_speed = 0;
  max_speed = 255;
  min_opening = 0;
  max_opening = 510;
  open_position = 3;
  closed_position = 230;
}

activate_or_recover-Recovered_example :
    Recovered end
      (slow.clock + 31000000000)
      (length slow.schedule)
      (activate_or_recover (station direct) 302 slow)
activate_or_recover-Recovered_example =
    activate_or_recover-Recovered direct direct-Carries 300 end slow slow-Healthy (omega arith)
      short

half_open : opening_to_register parts 255 jaws ≡ some 117
unfolding opening_to_register
half_open = refl

move_to-Settled_example :
    (let (o, c) = move_to (station direct) parts jaws 302 255 gripping slow in
      Settled end (slow.clock + 7000000000) (length slow.schedule) c slow.history o
      × Aims 117 gripping c
      × (o.world.state.image.stamped.status.position ≡ 117)
      × (c ≡ aimed 117 gripping))
unfolding command_data get
move_to-Settled_example =
    move_to-Settled direct direct-Carries parts jaws 255 117 300 end gripping slow half_open
      (omega arith) refl slow-Healthy (omega arith) short

fastest : speed_to_register parts 255 jaws ≡ some 255
unfolding speed_to_register
fastest = refl

strongest : effort_to_register parts (parts.of_number 1) ≡ some 255
unfolding effort_to_register
strongest = refl

widest : opening_to_register parts 510 jaws ≡ some 3
unfolding opening_to_register
widest = refl

narrowest : opening_to_register parts 0 jaws ≡ some 230
unfolding opening_to_register
narrowest = refl

run_connected-Closed_example : Closed 230 (run_connected (station direct) parts jaws 255 302 slow)
run_connected-Closed_example =
    run_connected-Closed direct direct-Carries parts jaws 255 255 255 3 230 300 end slow fastest
      strongest widest narrowest slow-Healthy (omega arith) short

run_activate-Answers_example :
    Answers end
      (slow.clock + nanoseconds 1000 + 6000000)
      (length slow.schedule)
      (run_activate (gripper direct) 302 1000 slow)
run_activate-Answers_example =
    run_activate-Answers end direct direct-Carries 302 (length slow.schedule) short 1000 slow
      (omega arith) (record { healthy = slow-Healthy; shorter = omega arith })
