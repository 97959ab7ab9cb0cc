-- ===== src/DefaultSerial.antt =====
-- The connection over a serial port: sdk_cpp/src/detail/default_serial.cpp, as built for Linux.
-- What the operating system and the file system answer is an argument.
pub mod Reports
use grippers.Prelude.{
  ℕ, ◌⊎◌, inl, inr, Bool, true, false, Option, none, some, List, [], ◌∷◌, length, ltb, ◌==◌,
  if◌then◌else◌,
}
use grippers.SerialPort.{
  SerialError, Result, ok, throws, Errno, Call, Transfer, Turn, Queue, Termios, SerialPort,
}
use grippers.SerialPort

-- The link's parameters; a path is the list of its characters. A latency timer below 0 is never
-- applied, as 0 is not.
pub record SerialConfig : Type 0 where
  pub port : List ℕ
  pub baudrate : ℕ
  pub timeout : ℕ
  pub latency_timer_ms : ℕ

pub data Level : Type 0 where
  debug info warn error : Level

-- The lines that open() logs, told apart by what they say.
pub data Message : Type 0 where
  already_open opening not_ftdi latency_set latency_not_set : Message

-- The port is there while the connection is open.
pub record DefaultSerial : Type 0 where
  pub port : Option SerialPort
  pub config : SerialConfig
  pub log : List (Level × Message)

-- What the SerialIOExceptions say.
pub data Failure : Type 0 where
  port_failed : SerialError → Failure
  empty_path read_on_closed write_on_closed not_drained : Failure
  wrote_only : ℕ → ℕ → Failure

pub data Answer (A : Type 0) : Type 0 where
  gives : A → Answer A
  fails_with : Failure → Answer A

-- std::filesystem, as far as the search for the timer uses it.
pub record FileSystem : Type 0 where
  pub canonical : List ℕ → Option (List ℕ)
  pub filename : List ℕ → List ℕ
  pub join : List ℕ → List ℕ → List ℕ
  pub exists : List ℕ → Bool

-- "latency_timer".
abbrev latency_timer : List ℕ
latency_timer = 108 ∷ 97 ∷ 116 ∷ 101 ∷ 110 ∷ 99 ∷ 121 ∷ 95 ∷ 116 ∷ 105 ∷ 109 ∷ 101 ∷ 114 ∷ []

unfoldable pub latency_timer_path : FileSystem → List ℕ → List ℕ → List ℕ
latency_timer_path fs port sysfs_devices = elim (fs.canonical port) [
  | none ↦ []
  | some device ↦
      let attribute = fs.join (fs.join sysfs_devices (fs.filename device)) latency_timer in
      if fs.exists attribute then attribute else []
]

-- The file of the timer: the number read from it, whether it opens for writing, and whether the
-- stream is good once the number is written and flushed.
pub record TimerFile : Type 0 where
  pub current : Option ℕ
  pub opens : Bool
  pub good : Bool

-- Whether the timer has the wanted value, and whether the file was written.
unfoldable pub apply_latency_timer : SerialConfig → TimerFile → Bool × Bool
apply_latency_timer config file =
    let write = if file.opens then (file.good, true) else (false, false) in
    elim file.current [
      | none ↦ write
      | some current ↦ if current == config.latency_timer_ms then (true, false) else write
    ]

unfoldable pub new_serial : SerialConfig → DefaultSerial
new_serial config = record { port = none; config = config; log = [] }

abbrev logged : Level → Message → DefaultSerial → DefaultSerial
logged level message s = record s { log = (level, message) ∷ s.log }

-- The end of open(), on a port that is open and configured.
unfoldable pub set_latency :
    FileSystem → List ℕ → (List ℕ → TimerFile) → DefaultSerial → DefaultSerial
unfolding latency_timer_path apply_latency_timer
set_latency fs sysfs files s =
    if ltb 0 s.config.latency_timer_ms
    then elim (latency_timer_path fs s.config.port sysfs) [
      | [] ↦ logged debug not_ftdi s
      | c ∷ cs ↦
          if (apply_latency_timer s.config (files (c ∷ cs))).0
          then logged info latency_set s
          else logged warn latency_not_set s
    ]
    else s

-- What the operating system answers to an open: the descriptor or the error, and the calls that
-- configure it; then the files.
pub record Opening : Type 0 where
  pub errno : Errno
  pub descriptor : ℕ ⊎ ℕ
  pub termios : Termios
  pub file_system : FileSystem
  pub sysfs_devices : List ℕ
  pub files : List ℕ → TimerFile

-- The new port is the connection's only once it is configured.
unfoldable pub publish_port :
    Opening → DefaultSerial → Result SerialPort × List ℕ → Answer (Unit {0}) × DefaultSerial
unfolding set_latency
publish_port o s (throws e, closed) = (fails_with (port_failed e), s)
publish_port o s (ok port, closed) =
    (gives tt, set_latency o.file_system o.sysfs_devices o.files (record s { port = some port }))

abbrev unopened : SerialPort
unopened = record { fd = none; baudrate = 0 }

unfoldable pub open_configured :
    Opening → DefaultSerial → List ℕ → Answer (Unit {0}) × DefaultSerial
unfolding publish_port SerialPort.open_port
open_configured o s [] = (fails_with empty_path, s)
open_configured o s (c ∷ cs) =
    publish_port o (logged debug opening s)
      (SerialPort.open_port o.errno o.descriptor o.termios s.config.baudrate unopened)

unfoldable pub open_on :
    Opening → DefaultSerial → Option SerialPort → Answer (Unit {0}) × DefaultSerial
unfolding open_configured
open_on o s (some port) = (gives tt, logged debug already_open s)
open_on o s none = open_configured o s s.config.port

unfoldable pub open_connection : Opening → DefaultSerial → Answer (Unit {0}) × DefaultSerial
unfolding open_on
open_connection o s = open_on o s s.port

unfoldable pub is_open : DefaultSerial → Bool
is_open s = elim s.port [ none ↦ false | some port ↦ true ]

-- close(): the port is destroyed, which closes its descriptor.
unfoldable pub close_connection : DefaultSerial → DefaultSerial × List ℕ
unfolding SerialPort.close_port
close_connection s = (
  record s { port = none },
  elim s.port [ none ↦ [] | some port ↦ (SerialPort.close_port port).1 ],
)

unfoldable pub read_answer : Result (List ℕ) → Answer (List ℕ)
read_answer (ok bytes) = gives bytes
read_answer (throws e) = fails_with (port_failed e)

-- read(): none while the turns run out.
unfoldable pub read_connection :
    ℕ → ℕ → ℕ → ℕ → List (Turn (List ℕ)) → DefaultSerial → Option (Answer (List ℕ))
unfolding SerialPort.read read_answer
read_connection eio size now timeout turns s = elim s.port [
  | none ↦ some (fails_with read_on_closed)
  | some port ↦ elim (SerialPort.read eio size now timeout turns) [
    | none ↦ none
    | some r ↦ some (read_answer r)
  ]
]

-- What the operating system answers to a write, then to a drain that starts at `later`.
pub record Writing : Type 0 where
  pub eio : ℕ
  pub eintr : ℕ
  pub now : ℕ
  pub turns : List (Turn ℕ)
  pub later : ℕ
  pub queues : List Queue
  pub calls : List Call

unfoldable pub drained : Result Bool → Answer (Unit {0})
drained (throws e) = fails_with (port_failed e)
drained (ok true) = gives tt
drained (ok false) = fails_with not_drained

unfoldable pub after_write : Writing → ℕ → ℕ → Result ℕ → Option (Answer (Unit {0}))
unfolding drained SerialPort.drain
after_write w timeout size (throws e) = some (fails_with (port_failed e))
after_write w timeout size (ok written) =
    if ltb written size
    then some (fails_with (wrote_only written size))
    else elim (SerialPort.drain w.eintr w.later timeout w.queues w.calls) [
      | none ↦ none
      | some r ↦ some (drained r)
    ]

-- write() on the port that the connection has, if it has one.
unfoldable pub write_on : Writing → List ℕ → ℕ → Option SerialPort → Option (Answer (Unit {0}))
unfolding after_write SerialPort.write
write_on w bytes timeout none = some (fails_with write_on_closed)
write_on w bytes timeout (some port) =
    elim (SerialPort.write w.eio (length bytes) w.now timeout w.turns) [
      | none ↦ none
      | some r ↦ after_write w timeout (length bytes) r
    ]

unfoldable pub write_connection : Writing → List ℕ → DefaultSerial → Option (Answer (Unit {0}))
unfolding write_on
write_connection w bytes s = write_on w bytes s.config.timeout s.port
