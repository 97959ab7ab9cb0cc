-- ===== src/Tests/Device.antt =====
-- The fake gripper, and the client over a link that carries its requests.
use grippers.Prelude.{◌==◌, get_or, ◌≡◌, refl, true, List, [], ◌∷◌, arith, if◌then◌else◌}
use grippers.Command.{GripperCommand, activate, get, zero_command, command_data}
use grippers.Status.{activated, activation_state, complete}
use grippers.RegisterModel.{RegisterModel, initial, status, read, contains_range}
use grippers.RegisterModel.Wire.{read_lem}
use grippers.RegisterModel.Protocol.{reported, done_after}
use grippers.RegisterModel.History.{
  IsSettled, RegisterWrite, after_writes, after_writes-initial-IsSettled, send, send_recovers,
}
use grippers.ModbusClient.{ok, exchange}
use grippers.ModbusClient.Loopback.{direct, direct-Carries, exchange_reports}

abbrev grip : GripperCommand
grip = record zero_command { action = record { value = 9 }; position_request = 200; speed = 255 }

abbrev release : GripperCommand
release = zero_command

abbrev writes : List RegisterWrite
writes =
    record { address = 1000; quantity = 3; values = 0x0100 ∷ 0 ∷ 0 ∷ [] }
    ∷ record { address = 2000; quantity = 3; values = 0xFFFF ∷ 0x0F00 ∷ 7 ∷ [] }
    ∷ record { address = 2007; quantity = 2; values = 1 ∷ 2 ∷ [] }
    ∷ []

after_writes-initial-IsSettled_example : IsSettled (after_writes writes initial)
after_writes-initial-IsSettled_example = after_writes-initial-IsSettled writes

-- A device with an overcurrent fault latched while it was gripping.
abbrev faulty : RegisterModel
faulty = record {
  registers = λ a. if a == 2001 then 0x0E00 else 0;
  previous_activate_bit = true;
  activation_done = true;
  log = [];
}

send_recovers_example :
    let s = status (send grip (send release faulty)) in
    (s.fault_status.raw ≡ 0)
    × (activated s.gripper_status ≡ true)
    × (activation_state s.gripper_status ≡ complete)
    × (s.position ≡ 200)
unfolding get command_data
send_recovers_example = send_recovers release grip faulty (omega arith) (omega arith) refl refl

read_lem_example :
    (get_or (read 999 3 (7 ∷ 7 ∷ 7 ∷ []) faulty).0 1 0 ≡ 0)
    × ((read 999 3 (7 ∷ 7 ∷ 7 ∷ []) faulty).1 ≡ faulty)
unfolding contains_range
read_lem_example =
    read_lem 999 3 1 (7 ∷ 7 ∷ 7 ∷ []) faulty (omega arith) (omega arith) (omega arith) (omega arith)

exchange_reports_example : exchange direct grip faulty ≡ (
  ok (reported grip (status faulty) (done_after (get grip.action activate) faulty)),
  send grip faulty,
)
unfolding command_data
exchange_reports_example = exchange_reports direct direct-Carries grip faulty (omega arith)
