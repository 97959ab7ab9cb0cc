-- ===== src/ModbusClient.antt =====
-- sdk_cpp/src/modbus_client.cpp: the typed blocks over nanomodbus, and the callbacks that
-- nanomodbus reaches the serial link through. nanomodbus is vendored, so its calls are the
-- parameter `Nmbs`; `W` is the state of whatever stands at the other end of the wire.
pub mod Callbacks
pub mod Loopback
use grippers.Prelude.{
  ℕ, Bool, true, false, List, [], ◌∷◌, length, take, min, ltb, if◌then◌else◌, replicate,
}
use grippers.RegisterMap.{
  command_address, command_register_count, status_address, status_register_count,
}
use grippers.Command.{GripperCommand, command_data}
use grippers.Status.{GripperStatus, zero_status, status_data, status_of_data}
use grippers.Packing.{registers_from_bytes, bytes_from_registers}

-- nmbs_error: NMBS_ERROR_NONE, and the others by their number.
pub data NmbsError : Type 0 where
  error_none : NmbsError
  illegal_data_address : NmbsError
  other_error : ℕ → NmbsError

-- A call that reads takes the buffer that it fills.
pub record Nmbs (W : Type 0) : Type 0 where
  pub read_holding_registers : ℕ → ℕ → List ℕ → W → NmbsError × List ℕ × W
  pub write_multiple_registers : ℕ → ℕ → List ℕ → W → NmbsError × W
  pub read_write_registers : ℕ → ℕ → List ℕ → ℕ → ℕ → List ℕ → W → NmbsError × List ℕ × W

pub data Call : Type 0 where
  create_call read_status_call write_command_call exchange_call : Call

-- A DriverException names the call that failed and nanomodbus's error, or comes from the serial.
pub data Result {ℓ} (A : Type ℓ) : Type ℓ where
  ok : A → Result A
  driver_exception : Call → NmbsError → Result A
  serial_exception : Result A

-- check(err, context), before the value is handed on.
abbrev pub checked {ℓ} : {A : Type ℓ} → Call → NmbsError → A → Result A
checked call error_none a = ok a
checked call illegal_data_address a = driver_exception call illegal_data_address
checked call (other_error n) a = driver_exception call (other_error n)

-- bytesFromRegisters(registers, status.data()) on a fresh status.
unfoldable pub decode_status : List ℕ → GripperStatus
unfolding bytes_from_registers status_data status_of_data
decode_status registers =
    status_of_data (bytes_from_registers status_register_count registers (status_data zero_status))

unfoldable pub encode_command : GripperCommand → List ℕ
unfolding registers_from_bytes command_data
encode_command c = registers_from_bytes command_register_count (command_data c)

module _ {W : Type 0} (n : Nmbs W) where
  unfoldable pub read_status : W → Result GripperStatus × W
  read_status w =
      let (e, registers, w') =
        n.read_holding_registers status_address status_register_count
          (replicate status_register_count 0) w in
      (checked read_status_call e (decode_status registers), w')

  unfoldable pub write_command : GripperCommand → W → Result (Unit {0}) × W
  write_command c w =
      let (e, w') =
        n.write_multiple_registers command_address command_register_count (encode_command c) w in
      (checked write_command_call e tt, w')

  unfoldable pub exchange : GripperCommand → W → Result GripperStatus × W
  exchange c w =
      let (e, registers, w') =
        n.read_write_registers status_address status_register_count
          (replicate status_register_count 0) command_address command_register_count
          (encode_command c) w in
      (checked exchange_call e (decode_status registers), w')

abbrev pub byte_timeout_ms : ℕ
byte_timeout_ms = 50

-- What the constructor leaves configured: the transaction and inter-byte timeouts and the address.
pub record ClientConfig : Type 0 where
  pub read_timeout_ms : ℕ
  pub byte_timeout : ℕ
  pub destination : ℕ

-- The constructor: open the serial unless it is open already (`opens` tells whether open() would
-- succeed), create the nanomodbus client (`created` is what nmbs_client_create answers), configure.
pub create : Bool → Bool → NmbsError → ℕ → ℕ → Result ClientConfig
create is_open opens created serial_timeout slave_address =
    let config : ClientConfig = record {
      read_timeout_ms = serial_timeout;
      byte_timeout = byte_timeout_ms;
      destination = slave_address;
    } in
    if is_open
    then checked create_call created config
    else if opens
    then checked create_call created config
    else serial_exception

-- What Serial::read or Serial::write did: it returned, or threw.
pub data SerialRead : Type 0 where
  bytes_read : List ℕ → SerialRead
  read_threw : SerialRead
  read_threw_unknown : SerialRead

pub data SerialWrite : Type 0 where
  write_returned : SerialWrite
  write_threw : SerialWrite
  write_threw_unknown : SerialWrite

pub data LogLine : Type 0 where
  excess_ignored : ℕ → ℕ → LogLine
  serial_read_failed serial_read_unknown serial_write_failed serial_write_unknown : LogLine

-- nanomodbus's convention: bytes transferred, or a negative number.
pub data CallbackResult : Type 0 where
  transferred : ℕ → CallbackResult
  negative : CallbackResult

-- readSerial: the result, the bytes copied to nanomodbus's buffer, and the lines logged.
pub read_serial : ℕ → SerialRead → CallbackResult × List ℕ × List LogLine
read_serial count (bytes_read bytes) =
    let received = min (length bytes) count in
    (
      transferred received,
      take received bytes,
      if ltb received (length bytes) then excess_ignored (length bytes) count ∷ [] else [],
    )
read_serial count read_threw = (negative, [], serial_read_failed ∷ [])
read_serial count read_threw_unknown = (negative, [], serial_read_unknown ∷ [])

-- writeSerial: all of the buffer is handed to Serial::write.
pub write_serial : ℕ → SerialWrite → CallbackResult × List LogLine
write_serial count write_returned = (transferred count, [])
write_serial count write_threw = (negative, serial_write_failed ∷ [])
write_serial count write_threw_unknown = (negative, serial_write_unknown ∷ [])
