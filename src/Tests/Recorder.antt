-- ===== src/Tests/Recorder.antt =====
-- The recorder over the fake device: a stall, exchanges missed, and a write that fails.
use grippers.Prelude.{◌+◌, ◌<◌, refl, true, false, List, [], ◌∷◌, length, arith}
use grippers.GripperState.{new_state}
use grippers.ModbusClient.Loopback.{direct}
use grippers.FakeGripper.Lawful.{Live, live_gripper, live_gripper-Laws}
use grippers.ExchangeLog.{Turn, run_recorder}
use grippers.ExchangeLog.Accounts.{Accounts, run_recorder-Accounts}
use grippers.Tests.Whole.{stuck}

live_within : stuck.state.image.stamped.exchange_count + length stuck.schedule < 1000
unfolding new_state
live_within = omega arith

abbrev live : Live direct 1000
live = record { run = stuck; newest = refl; within = live_within }

abbrev turns : List Turn
turns =
    record { stop = false; stream_ok = true }
    ∷ record { stop = false; stream_ok = true }
    ∷ record { stop = false; stream_ok = false }
    ∷ record { stop = true; stream_ok = true }
    ∷ []

run_recorder-Accounts_example :
    Accounts
      ((live_gripper direct 1000).stamped_exchange live).0.exchange_count
      (run_recorder (live_gripper direct 1000) turns live).0
run_recorder-Accounts_example =
    run_recorder-Accounts (live_gripper direct 1000) (live_gripper-Laws direct 1000 (omega arith))
      turns live
