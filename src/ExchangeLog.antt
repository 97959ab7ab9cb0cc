-- ===== src/ExchangeLog.antt =====
-- The recorder of the logging example: sdk_cpp/examples/exchange_log.cpp. It writes a row for each
-- exchange; the texts that main() prints are left out. The turns of its loop, with what the stop
-- flag and the stream say in each, are an argument.
pub mod Accounts
use grippers.Prelude.{
  ℕ, zero, suc, ◌+◌, ◌-◌, ◌/◌, ◌%◌, Bool, true, false, not, Option, none, some, List, [], ◌∷◌, ◌++◌,
  ltb, ◌==◌, if◌then◌else◌,
}
use grippers.Byte.{u64}
use grippers.Command.{
  GripperCommand, get, activate, go_to, auto_release, auto_release_open_direction,
}
use grippers.Status.{
  GripperStatus, activated, go_to_enabled, activation_state, object_detection,
  activation_state_code, object_detection_code,
}
use grippers.Fault.{gripper_fault, controller_fault, gripper_fault_code, controller_fault_code}
use grippers.ProcessImage.{StampedExchange}
use grippers.Rendering.{text, bit_text, decimal}
use grippers.Gripper.{Handle, wait_for_exchange_count}

-- An unsigned number as a stream writes it; twenty digits are enough for 64 bits.
abbrev pub digits : ℕ → ℕ → List ℕ
digits zero n = (48 + n % 10) ∷ []
digits (suc fuel) n =
    let rest = digits fuel (n / 10) in
    if ltb n 10 then (48 + n) ∷ [] else rest ++ ((48 + n % 10) ∷ [])

-- A field and the comma after it.
abbrev pub then_comma : List ℕ → List ℕ → List ℕ
then_comma value rest = value ++ (44 ∷ rest)

unfoldable pub header : List ℕ
header = then_comma (text "time_s,exchange_count") (
    then_comma (text "rACT,rGTO,rATR,rARD,rPR,rSP,rFR")
      (text "gACT,gGTO,gSTA,gOBJ,gFLT,kFLT,gPR,gPO,gCU" ++ (10 ∷ [])))

-- The time since the first exchange is a text of the stream's.
unfoldable pub write_metadata : (ℕ → ℕ → List ℕ) → ℕ → StampedExchange → List ℕ
write_metadata seconds start e = then_comma (seconds start e.timestamp) (digits 19 e.exchange_count)

unfoldable pub write_command : GripperCommand → List ℕ
unfolding decimal
write_command c = then_comma (bit_text (get c.action activate)) (
    then_comma (bit_text (get c.action go_to)) (
      then_comma (bit_text (get c.action auto_release)) (
        then_comma (bit_text (get c.action auto_release_open_direction)) (
          then_comma (decimal c.position_request)
            (then_comma (decimal c.speed) (decimal c.force))))))

unfoldable pub write_status : GripperStatus → List ℕ
unfolding decimal
write_status s =
    let flags = s.gripper_status in
    then_comma (bit_text (activated flags)) (
      then_comma (bit_text (go_to_enabled flags)) (
        then_comma (decimal (activation_state_code (activation_state flags))) (
          then_comma (decimal (object_detection_code (object_detection flags))) (
            then_comma (decimal (gripper_fault_code (gripper_fault s.fault_status))) (
              then_comma (decimal (controller_fault_code (controller_fault s.fault_status))) (
                then_comma (decimal s.position_request_echo)
                  (then_comma (decimal s.position) (decimal s.current))))))))

unfoldable pub write_row : (ℕ → ℕ → List ℕ) → ℕ → StampedExchange → List ℕ
unfolding write_metadata write_command write_status
write_row seconds start e =
    then_comma (write_metadata seconds start e)
      (then_comma (write_command e.command) (write_status e.status ++ (10 ∷ [])))

-- What the recorder puts out, in the order: a row of the file, the warning that the exchanges
-- between two counts were missed, or the error that a write failed, with the rows before it.
pub data Entry : Type 0 where
  row : StampedExchange → Entry
  fell_behind : ℕ → ℕ → Entry
  write_error : ℕ → Entry

-- The recorder, with the count that it wrote last.
pub record Recorder : Type 0 where
  pub written : ℕ
  pub rows : ℕ
  pub skipped : ℕ
  pub write_failed : Bool
  pub entries : List Entry

-- A turn of the loop: is it told to stop, and does the stream take the row?
pub record Turn : Type 0 where
  pub stop : Bool
  pub stream_ok : Bool

abbrev pub cycle_timeout : ℕ
cycle_timeout = 500

abbrev pub put : Entry → Recorder → Recorder
put entry r = record r { entries = r.entries ++ (entry ∷ []) }

-- The count reached is the newest, not the next.
unfoldable pub note_gap : ℕ → Recorder → Recorder
note_gap count r =
    if count == u64 (r.written + 1)
    then r
    else (record (put (fell_behind (u64 (r.written + 1)) (u64 (count + 18446744073709551615))) r) {
      skipped = u64 (r.skipped + (count + (18446744073709551615 - r.written)));
    })

unfoldable pub write_exchange : StampedExchange → Recorder → Recorder
unfolding note_gap
write_exchange e r = record (put (row e) (note_gap e.exchange_count r)) {
  written = e.exchange_count;
}

-- After the row; false where the loop returns.
unfoldable pub check_stream : Bool → Recorder → Bool × Recorder
check_stream true r = (true, record r { rows = u64 (r.rows + 1) })
check_stream false r = (false, record (put (write_error r.rows) r) { write_failed = true })

-- What a turn makes of its wait; a stalled link leaves nothing to write.
unfoldable pub take_exchange : Bool → Option StampedExchange → Recorder → Bool × Recorder
unfolding write_exchange check_stream
take_exchange ok none r = (true, r)
take_exchange ok (some e) r = check_stream ok (write_exchange e r)

module _ {W : Type 0} (h : Handle W) where
  unfoldable pub record_from : List Turn → Recorder → W → Recorder × W
  unfolding take_exchange wait_for_exchange_count
  record_from [] r w = (r, w)
  record_from (turn ∷ later) r w =
      let (e, w1) = wait_for_exchange_count h (u64 (r.written + 1)) cycle_timeout w in
      let (goes_on, r1) = take_exchange turn.stream_ok e r in
      let rest = record_from later r1 w1 in
      if turn.stop then (r, w) else if goes_on then rest else (r1, w1)

  -- run(), from the newest exchange.
  unfoldable pub run_recorder : List Turn → W → Recorder × W
  unfolding record_from
  run_recorder turns w =
      let (first, w1) = h.stamped_exchange w in
      record_from turns
        (record {
          written = first.exchange_count;
          rows = 0;
          skipped = 0;
          write_failed = false;
          entries = [];
        })
        w1

-- stop(), once the thread has been joined.
unfoldable pub stopped_well : Recorder → Bool
stopped_well r = not r.write_failed
