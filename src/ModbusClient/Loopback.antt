-- ===== src/ModbusClient/Loopback.antt =====
-- The client against the fake gripper: sdk_cpp/src/fake/gripper_server.cpp's register callbacks
-- behind nanomodbus, and what an exchange with them amounts to.
use grippers.Prelude.{ℕ, ◌+◌, ◌≤◌, arith, ◌≡◌, refl, ap, List, if◌then◌else◌, replicate}
use grippers.Byte.{AllBytes}
use grippers.Command.{GripperCommand, command_data, activate, get}
use grippers.Status.{GripperStatus, zero_status}
use grippers.ModbusClient.{
  checked, read_status_call, exchange_call, Call, NmbsError, error_none, illegal_data_address, Nmbs,
  Result, ok, exchange, read_status, write_command, decode_status, encode_command,
}
use grippers.RegisterModel.{RegisterModel, contains_range, read, write, status}
use grippers.RegisterModel.Protocol.{reported, done_after}
use grippers.RegisterModel.History.{send, send_reports}

unfoldable pub on_read_holding_registers :
    ℕ → ℕ → List ℕ → RegisterModel → NmbsError × List ℕ × RegisterModel
unfolding contains_range
on_read_holding_registers address quantity out m =
    if contains_range address quantity
    then (let (filled, m') = read address quantity out m in (error_none, filled, m'))
    else (illegal_data_address, out, m)

unfoldable pub on_write_multiple_registers :
    ℕ → ℕ → List ℕ → RegisterModel → NmbsError × RegisterModel
unfolding contains_range
on_write_multiple_registers address quantity values m =
    if contains_range address quantity
    then (error_none, write address quantity values m)
    else (illegal_data_address, m)

-- A function code 0x17 request, as the Modbus protocol defines it: the write, then the read.
abbrev read_after_write :
    ℕ → ℕ → List ℕ → NmbsError × RegisterModel → NmbsError × List ℕ × RegisterModel
read_after_write address quantity out (error_none, m) =
    on_read_holding_registers address quantity out m
read_after_write address quantity out (e, m) = (e, out, m)

-- A request that nanomodbus sends: of one register or more, up to the protocol's limit, that do not
-- run past the last address.
abbrev pub IsRequest : ℕ → ℕ → ℕ → Type 0
IsRequest limit address quantity =
    (1 ≤ quantity) × (quantity ≤ limit) × (address + quantity ≤ 65536)

-- What is relied on of nanomodbus: a client whose bytes reach the fake gripper's server gets, for a
-- request, what the callbacks answer. Framing, CRC and the byte queues are inside this.
pub record Carries (n : Nmbs RegisterModel) : Type 0 where
  pub carries_read :
      (address quantity : ℕ) (out : List ℕ) (m : RegisterModel)
      → IsRequest 125 address quantity
      → n.read_holding_registers address quantity out m
        ≡ on_read_holding_registers address quantity out m
  pub carries_write :
      (address quantity : ℕ) (values : List ℕ) (m : RegisterModel)
      → IsRequest 123 address quantity
      → n.write_multiple_registers address quantity values m
        ≡ on_write_multiple_registers address quantity values m
  pub carries_exchange :
      (address quantity : ℕ) (out : List ℕ) (to count : ℕ) (values : List ℕ) (m : RegisterModel)
      → IsRequest 125 address quantity
      → IsRequest 123 to count
      → n.read_write_registers address quantity out to count values m
        ≡ read_after_write address quantity out (on_write_multiple_registers to count values m)

-- A link that carries every request.
abbrev pub direct : Nmbs RegisterModel
direct = record {
  read_holding_registers = on_read_holding_registers;
  write_multiple_registers = on_write_multiple_registers;
  read_write_registers = λ address quantity out to count values m.
      read_after_write address quantity out (on_write_multiple_registers to count values m);
}

pub direct-Carries : Carries direct
direct-Carries = record {
  carries_read = λ address quantity out m request. refl;
  carries_write = λ address quantity values m request. refl;
  carries_exchange = λ address quantity out to count values m request to_request. refl;
}

-- The three status registers hold the documented bytes of the status.
abbrev documented : GripperStatus → GripperStatus
documented s = record s { reserved_tail = zero_status.reserved_tail }

abbrev answer : (m : RegisterModel) → NmbsError × List ℕ × RegisterModel
answer m = on_read_holding_registers 2000 3 (replicate 3 0) m

answer_lem :
    (m : RegisterModel)
    → ((answer m).0 ≡ error_none)
      × (decode_status (answer m).1 ≡ documented (status m))
      × ((answer m).2 ≡ m)
unfolding on_read_holding_registers decode_status status read
answer_lem m = (refl, refl, refl)

answered :
    (call : Call) (c : GripperCommand) (m : RegisterModel)
    → AllBytes (command_data c)
    → (let a = answer (send c m) in
        ◌≡◌ {A = Result GripperStatus × RegisterModel}
          (checked call a.0 (decode_status a.1), a.2)
          (ok (reported c (status m) (done_after (get c.action activate) m)), send c m))
answered call c m h =
    let (e, decoded, same) = answer_lem (send c m) in
    rw (e, decoded, same) (ap (λ s. (ok (documented s), send c m)) (send_reports c m h).0)

module _ (n : Nmbs RegisterModel) (link : Carries n) where
  sent :
      (c : GripperCommand) (m : RegisterModel)
      → on_write_multiple_registers 1000 3 (encode_command c) m ≡ (error_none, send c m)
  unfolding on_write_multiple_registers encode_command
  sent c m = refl

  -- Over a link that carries requests, writing a command whose fields are bytes succeeds and leaves
  -- the device having acted on it; reading the status then succeeds, changes nothing and decodes
  -- what it reports.
  pub write_command-read_status :
      (c : GripperCommand) (m : RegisterModel)
      → AllBytes (command_data c)
      → (write_command n c m ≡ (ok tt, send c m))
        × (read_status n (send c m)
            ≡ (ok (reported c (status m) (done_after (get c.action activate) m)), send c m))
  unfolding write_command read_status
  write_command-read_status c m h = (
    rw (link.carries_write 1000 3 (encode_command c) m (omega arith), sent c m) refl,
    rw (link.carries_read 2000 3 (replicate 3 0) (send c m) (omega arith))
        (answered read_status_call c m h),
  )

  -- Over a link that carries requests, for a command whose fields are bytes: one exchange with the
  -- device is the command sent and then the status read: it succeeds, leaves
  -- the device having acted on the command, and decodes what the device now reports of it.
  pub exchange_reports :
      (c : GripperCommand) (m : RegisterModel)
      → AllBytes (command_data c)
      → exchange n c m
        ≡ (ok (reported c (status m) (done_after (get c.action activate) m)), send c m)
  unfolding exchange
  exchange_reports c m h =
      rw
        (
          link.carries_exchange 2000 3 (replicate 3 0) 1000 3 (encode_command c) m (omega arith)
              (omega arith),
          sent c m,
        )
        (answered exchange_call c m h)
