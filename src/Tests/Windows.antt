-- ===== src/Tests/Windows.antt =====
-- The Windows port at concrete inputs.
use grippers.Prelude.{◌≡◌, some, refl, [], ◌∷◌}
use grippers.SerialPort.{ok, succeeds}
use grippers.WinSerialPort.{
  CommTimeouts, WinOpening, WinSerialPort, new_port, device_path, comm_timeouts, open_port, read,
  write,
}
use grippers.WinSerialPort.Timeouts.{
  Moved, Operations, untouched, next, opens, reads, writes, Operations-transfer-Moved,
}

abbrev stale : CommTimeouts
stale = record { read_interval = 5; read_constant = 6; write_constant = 7 }

abbrev opening : WinOpening
opening = record {
  errors = record { file_not_found = 2; path_not_found = 3 };
  new_handle = 9;
  found = stale;
  get_state = succeeds;
  set_state = succeeds;
  set_times = succeeds;
}

-- The port after an open, a read and a write.
abbrev opened : WinSerialPort
opened = (open_port opening succeeds (new_port stale)).1

abbrev used : WinSerialPort
used = (write succeeds (ok 1) 1 50 (read succeeds (ok []) 4 20 opened).2).2

opened_handle : opened.handle ≡ some 9
unfolding open_port
opened_handle = refl

read_handle : (read succeeds (ok []) 4 20 opened).2.handle ≡ some 9
unfolding open_port read
read_handle = refl

used_handle : used.handle ≡ some 9
unfolding open_port read write
used_handle = refl

-- "COM10" gets the prefix.
com10 : device_path (67 ∷ 79 ∷ 77 ∷ 49 ∷ 48 ∷ []) ≡ 92 ∷ 92 ∷ 46 ∷ 92 ∷ 67 ∷ 79 ∷ 77 ∷ 49 ∷ 48 ∷ []
unfolding device_path
com10 = refl

used_before : Operations (new_port stale) used
used_before =
    next
      (next (next untouched (opens opening succeeds (new_port stale) refl))
        (reads succeeds (ok []) 4 20 9 opened opened_handle))
      (writes succeeds (ok 1) 1 50 9 (read succeeds (ok []) 4 20 opened).2 read_handle)

Operations-transfer-Moved_example :
    Moved (comm_timeouts (some 30) used.write_timeout_ms) (read succeeds (ok []) 4 30 used).1
    × Moved (comm_timeouts used.read_timeout_ms (some 30)) (write succeeds (ok 4) 4 30 used).1
Operations-transfer-Moved_example =
    Operations-transfer-Moved stale used used_before succeeds (ok []) (ok 4) 4 30 9 used_handle
