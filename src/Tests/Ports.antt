-- ===== src/Tests/Ports.antt =====
-- The serial port, its connection, the platform's waits, the fake transport and the ticks of
-- ThreadX.
use grippers.Prelude.{
  ◌/◌, some, none, inl, ℕ, ◌*◌, ◌+◌, ◌≤◌, ◌<◌, min, true, false, List, [], ◌∷◌, ◌++◌, arith,
}
use grippers.RegisterModel.{initial}
use grippers.GripperServer.{GripperSerial}
use grippers.SerialPort.{Turn, moved, would_block, poll_interrupted, poll_returns, read, write}
use grippers.SerialPort.Bounds.{ReadAnswer, WriteAnswer, read-ReadAnswer, write-WriteAnswer}
use grippers.SerialPort.{Errno, succeeds}
use grippers.DefaultSerial.{
  DefaultSerial, FileSystem, Opening, Writing, new_serial, open_connection, write_connection,
}
use grippers.DefaultSerial.Reports.{
  OpenReport, WriteReport, open_connection-OpenReport, write_connection-WriteReport,
}
use grippers.Ticks.{blocking_ticks, blocking_ticks_lem}

-- Five bytes for a request of four, a wait in between.
abbrev arriving : List (Turn (List ℕ))
arriving =
    record { transfer = moved (1 ∷ 2 ∷ []); now = 0; poll = poll_interrupted }
    ∷ record { transfer = would_block; now = 5; poll = poll_returns 1 false true false }
    ∷ record { transfer = moved (3 ∷ 4 ∷ 5 ∷ []); now = 6; poll = poll_interrupted }
    ∷ []

read-ReadAnswer_example : ReadAnswer 5 4 1000 arriving (read 5 4 0 1000 arriving)
read-ReadAnswer_example = read-ReadAnswer 5 4 0 1000 arriving

-- The queue stays full until the deadline.
abbrev stalled : List (Turn ℕ)
stalled =
    record { transfer = moved 3; now = 0; poll = poll_interrupted }
    ∷ record { transfer = would_block; now = 1000; poll = poll_interrupted }
    ∷ []

write-WriteAnswer_example : WriteAnswer 5 8 false 1000 stalled (write 5 8 0 1000 stalled)
write-WriteAnswer_example = write-WriteAnswer 5 8 0 1000 stalled

abbrev replied : GripperSerial
replied = record {
  server = record { model = initial; from_client = []; to_client = 9 ∷ 16 ∷ 3 ∷ 232 ∷ [] };
  is_open = true;
}

-- 25 ms at 100 ticks a second.
blocking_ticks_lem_example :
    let ticks = blocking_ticks 100 4294967295 25000000 in
    let time = min 25000000 (4294967294 * 1000000000 / 100) * 100 in
    (1 ≤ ticks)
    × (ticks < 4294967295)
    × (time ≤ ticks * 1000000000)
    × (ticks * 1000000000 < time + 1000000000)
blocking_ticks_lem_example =
    blocking_ticks_lem 100 4294967295 25000000 (omega arith) (omega arith) (omega arith)
      (omega arith)

abbrev linux : Errno
linux = record { eio = 5; enoent = 2; enodev = 19; enxio = 6 }

-- No path is canonical, so there is no timer to set.
abbrev no_files : FileSystem
no_files = record {
  canonical = λ p. none;
  filename = λ p. p;
  join = λ p q. p ++ q;
  exists = λ p. false;
}

abbrev opened_at_3 : Opening
opened_at_3 = record {
  errno = linux;
  descriptor = inl 3;
  termios = record { tcgetattr = succeeds; cfsetspeed = succeeds; tcsetattr = succeeds };
  file_system = no_files;
  sysfs_devices = [];
  files = λ p. record { current = none; opens = false; good = false };
}

abbrev unopened_serial : DefaultSerial
unopened_serial =
    new_serial
      (record { port = 47 ∷ 116 ∷ []; baudrate = 115200; timeout = 500; latency_timer_ms = 1 })

open_connection-OpenReport_example :
    OpenReport opened_at_3 unopened_serial (open_connection opened_at_3 unopened_serial)
open_connection-OpenReport_example = open_connection-OpenReport opened_at_3 unopened_serial

-- Three of eight bytes are accepted before the deadline.
abbrev stalling : Writing
stalling = record {
  eio = 5;
  eintr = 4;
  now = 0;
  turns = stalled;
  later = 1000;
  queues = [];
  calls = [];
}

abbrev opened_serial : DefaultSerial
opened_serial = record unopened_serial { port = some (record { fd = some 3; baudrate = 115200 }) }

abbrev request : List ℕ
request = 9 ∷ 3 ∷ 7 ∷ 208 ∷ 0 ∷ 1 ∷ 132 ∷ 12 ∷ []

write_connection-WriteReport_example :
    WriteReport stalling 8 opened_serial (write_connection stalling request opened_serial)
write_connection-WriteReport_example = write_connection-WriteReport stalling request opened_serial
