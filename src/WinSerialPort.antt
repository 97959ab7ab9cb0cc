-- ===== src/WinSerialPort.antt =====
-- The Windows serial port: sdk_cpp/src/detail/win32/serial_port.cpp. What the system calls answer
-- is an argument; the timeouts that the driver was told last are kept beside the port's own.
-- Timeouts are milliseconds, none where the port has -1.
pub mod Timeouts
use grippers.Prelude.{
  ℕ, ◌+◌, ◌%◌, Bool, true, false, not, ◌&&◌, ◌||◌, Option, none, some, List, [], ◌∷◌, ◌++◌, length,
  take, drop, ltb, leb, ◌==◌, if◌then◌else◌,
}
use grippers.Byte.{u32}
use grippers.SerialPort.{
  SerialError, os_error, no_such_port, Result, ok, throws, Call, succeeds, fails,
}

-- COMMTIMEOUTS, the members that are set; the others are zero.
pub record CommTimeouts : Type 0 where
  pub read_interval : ℕ
  pub read_constant : ℕ
  pub write_constant : ℕ

abbrev pub max_dword : ℕ
max_dword = 4294967295

pub record WinSerialPort : Type 0 where
  pub handle : Option ℕ
  pub read_timeout_ms : Option ℕ
  pub write_timeout_ms : Option ℕ
  pub told : CommTimeouts

-- A port that was never opened, whatever the driver was told by others.
abbrev pub new_port : CommTimeouts → WinSerialPort
new_port c = record { handle = none; read_timeout_ms = none; write_timeout_ms = none; told = c }

-- Is this character a decimal digit?
is_digit : ℕ → Bool
is_digit c = leb 48 c && leb c 57

all_digits : List ℕ → Bool
unfolding is_digit
all_digits [] = true
all_digits (c ∷ cs) = is_digit c && all_digits cs

-- "COM" in capitals or not, and one digit or more after it.
unfoldable pub is_bare_com_name : List ℕ → Bool
unfolding all_digits
is_bare_com_name (c ∷ o ∷ m ∷ d ∷ ds) =
    (c == 67 || c == 99)
    && ((o == 79 || o == 111) && ((m == 77 || m == 109) && all_digits (d ∷ ds)))
is_bare_com_name port = false

-- A bare name gets the prefix \\.\ of the device namespace.
unfoldable pub device_path : List ℕ → List ℕ
unfolding is_bare_com_name
device_path port = if is_bare_com_name port then 92 ∷ 92 ∷ 46 ∷ 92 ∷ port else port

-- static_cast<DWORD> of a count of milliseconds, or of -1.
unfoldable pub dword : Option ℕ → ℕ
dword none = max_dword
dword (some ms) = u32 ms

abbrev pub same_ms : Option ℕ → Option ℕ → Bool
same_ms none none = true
same_ms (some a) (some b) = a == b
same_ms a b = false

-- The members for a pair of timeouts.
unfoldable pub comm_timeouts : Option ℕ → Option ℕ → CommTimeouts
unfolding dword
comm_timeouts read_ms write_ms =
    if same_ms read_ms (some 0)
    then (record { read_interval = max_dword; read_constant = 0; write_constant = dword write_ms })
    else (record {
      read_interval = 0;
      read_constant = dword read_ms;
      write_constant = dword write_ms;
    })

-- setTimeouts: the driver is entered only where the pair changes.
unfoldable pub set_timeouts :
    Call → Option ℕ → Option ℕ → WinSerialPort → Result (Unit {0}) × WinSerialPort
unfolding comm_timeouts
set_timeouts (fails e) read_ms write_ms p =
    if same_ms read_ms p.read_timeout_ms && same_ms write_ms p.write_timeout_ms
    then (ok tt, p)
    else (throws (os_error e), p)
set_timeouts succeeds read_ms write_ms p =
    if same_ms read_ms p.read_timeout_ms && same_ms write_ms p.write_timeout_ms
    then (ok tt, p)
    else (
      ok tt,
      record p {
        read_timeout_ms = read_ms;
        write_timeout_ms = write_ms;
        told = comm_timeouts read_ms write_ms;
      },
    )

unfoldable pub close_port : WinSerialPort → WinSerialPort
close_port p = elim p.handle [
  | none ↦ p
  | some h ↦ record p { handle = none; read_timeout_ms = none; write_timeout_ms = none }
]

-- ERROR_FILE_NOT_FOUND and ERROR_PATH_NOT_FOUND.
pub record OpenErrors : Type 0 where
  pub file_not_found : ℕ
  pub path_not_found : ℕ

-- The calls of an open: CreateFileA's handle, with the timeouts that the driver is found with,
-- then the three that configure the port.
pub record WinOpening : Type 0 where
  pub errors : OpenErrors
  pub new_handle : ℕ
  pub found : CommTimeouts
  pub get_state : Call
  pub set_state : Call
  pub set_times : Call

abbrev pub and_then : Call → Result (Unit {0}) → Result (Unit {0})
and_then succeeds r = r
and_then (fails e) r = throws (os_error e)

-- configure().
unfoldable pub configure : WinOpening → Result (Unit {0})
configure o = and_then o.get_state (and_then o.set_state (ok tt))

-- The end of open(): a failure closes the port again.
unfoldable pub or_close : Result (Unit {0}) × WinSerialPort → Result (Unit {0}) × WinSerialPort
unfolding close_port
or_close (ok u, p) = (ok u, p)
or_close (throws e, p) = (throws e, close_port p)

unfoldable pub configured :
    WinOpening → WinSerialPort → Result (Unit {0}) → Result (Unit {0}) × WinSerialPort
unfolding set_timeouts
configured o p (throws e) = (throws e, p)
configured o p (ok u) = set_timeouts o.set_times (some 0) (some 0) p

unfoldable pub open_port : WinOpening → Call → WinSerialPort → Result (Unit {0}) × WinSerialPort
unfolding configured or_close configure
open_port o (fails e) p =
    if e == o.errors.file_not_found || e == o.errors.path_not_found
    then (throws no_such_port, p)
    else (throws (os_error e), p)
open_port o succeeds p =
    or_close (configured o (record p { handle = some o.new_handle; told = o.found }) (configure o))

-- read() and write() past their guard: the timeouts are set, then the bytes moved; with the
-- timeouts that the driver had during the call.
unfoldable pub transfer :
    {A : Type 0}
    → Result A
    → Result (Unit {0}) × WinSerialPort
    → Result A × Option CommTimeouts × WinSerialPort
transfer answer (throws e, p) = (throws e, none, p)
transfer answer (ok u, p) = (answer, some p.told, p)

unfoldable pub read :
    Call
    → Result (List ℕ)
    → ℕ
    → ℕ
    → WinSerialPort
    → Result (List ℕ) × Option CommTimeouts × WinSerialPort
unfolding transfer set_timeouts
read call answer size timeout p =
    if size == 0
    then (ok [], none, p)
    else transfer answer (set_timeouts call (some timeout) p.write_timeout_ms p)

unfoldable pub write :
    Call → Result ℕ → ℕ → ℕ → WinSerialPort → Result ℕ × Option CommTimeouts × WinSerialPort
unfolding transfer set_timeouts
write call answer size timeout p =
    if size == 0
    then (ok 0, none, p)
    else transfer answer (set_timeouts call p.read_timeout_ms (some timeout) p)

-- drain() waits for the driver without a bound, whatever its timeout.
unfoldable pub drain : Call → Result Bool
drain succeeds = ok true
drain (fails e) = throws (os_error e)
