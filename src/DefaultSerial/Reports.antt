-- ===== src/DefaultSerial/Reports.antt =====
-- What the connection's calls report of the port below.
use grippers.Prelude.{
  ◌+◌, ℕ, ◌≡◌, ◌<◌, ◌==◌, ◌⊎◌, inl, inr, refl, Bool, true, false, Option, none, some, List, [], ◌∷◌,
  length, Bool-cases, ltb, ◌≤◌, ◌∙◌, ap, arith,
}
use grippers.SerialPort.{SerialPort, Result, ok, throws, SerialError}
use grippers.SerialPort
use grippers.SerialPort.Bounds.{WriteAnswer, write-WriteAnswer}
use grippers.DefaultSerial.{
  unopened, open_on, open_connection, open_configured, TimerFile, Opening, FileSystem, set_latency,
  publish_port, is_open, DefaultSerial, Answer, gives, fails_with, port_failed, wrote_only,
  not_drained, Writing, write_connection, write_on, after_write, drained,
}

-- The bytes that the port accepted, and whether its queue drained, as the system calls of a write
-- gave them.
abbrev pub accepted : Writing → ℕ → DefaultSerial → Option (Result ℕ)
accepted w size s = SerialPort.write w.eio size w.now s.config.timeout w.turns

abbrev pub drains : Writing → DefaultSerial → Option (Result Bool)
drains w s = SerialPort.drain w.eintr w.later s.config.timeout w.queues w.calls

-- What the end of a write says of the port below.
abbrev pub WriteReport : Writing → ℕ → DefaultSerial → Option (Answer (Unit {0})) → Type 0
WriteReport w size s (some (gives u)) =
    (accepted w size s ≡ some (ok size)) × (drains w s ≡ some (ok true))
WriteReport w size s (some (fails_with not_drained)) =
    (accepted w size s ≡ some (ok size)) × (drains w s ≡ some (ok false))
WriteReport w size s (some (fails_with (wrote_only n m))) =
    (m ≡ size) × (n < size) × (accepted w size s ≡ some (ok n))
WriteReport w size s (some (fails_with (port_failed e))) =
    (accepted w size s ≡ some (throws e)) ⊎ (drains w s ≡ some (throws e))
WriteReport w size s (some (fails_with f)) = s.port ≡ none
WriteReport w size s none = (accepted w size s ≡ none) ⊎ (drains w s ≡ none)

full_count : (n size : ℕ) → n ≤ size → ltb n size ≡ false → n ≡ size
full_count n size le h = ground arith

drained-WriteReport :
    (w : Writing) (size : ℕ) (s : DefaultSerial) (r : Option (Result Bool))
    → drains w s ≡ r
    → accepted w size s ≡ some (ok size)
    → WriteReport w size s (elim r [ none ↦ none | some x ↦ some (drained x) ])
unfolding drained
drained-WriteReport w size s none d a = inr d
drained-WriteReport w size s (some (ok true)) d a = (a, d)
drained-WriteReport w size s (some (ok false)) d a = (a, d)
drained-WriteReport w size s (some (throws e)) d a = inr d

after_write-WriteReport :
    (w : Writing) (size : ℕ) (s : DefaultSerial) (r : Result ℕ)
    → accepted w size s ≡ some r
    → WriteAnswer w.eio size (s.config.timeout == 0) (w.now + s.config.timeout) w.turns (some r)
    → WriteReport w size s (after_write w s.config.timeout size r)
unfolding after_write
after_write-WriteReport w size s (throws e) a b = inl a
after_write-WriteReport w size s (ok n) a (le, why) = elim (Bool-cases (ltb n size)) [
  | inl short ↦ rw short (refl, ground arith, a)
  | inr full ↦ rw full (
      drained-WriteReport w size s (drains w s) refl
        (a ∙ ap (λ k. some (ok k)) (full_count n size le full)))
]

reported-WriteReport :
    (w : Writing) (size : ℕ) (s : DefaultSerial) (r : Option (Result ℕ))
    → accepted w size s ≡ r
    → WriteAnswer w.eio size (s.config.timeout == 0) (w.now + s.config.timeout) w.turns r
    → WriteReport w size s (elim r [ none ↦ none | some x ↦ after_write w s.config.timeout size x ])
reported-WriteReport w size s none a b = inl a
reported-WriteReport w size s (some x) a b = after_write-WriteReport w size s x a b

write_on-WriteReport :
    (w : Writing) (bytes : List ℕ) (s : DefaultSerial) (p : Option SerialPort)
    → s.port ≡ p
    → WriteReport w (length bytes) s (write_on w bytes s.config.timeout p)
unfolding write_on
write_on-WriteReport w bytes s none e = e
write_on-WriteReport w bytes s (some port) e =
    reported-WriteReport w (length bytes) s (accepted w (length bytes) s) refl
      (write-WriteAnswer w.eio (length bytes) w.now s.config.timeout w.turns)

-- A write() of the connection tells what became of its bytes, whatever the system calls answer: it
-- returns only where the port accepted every byte and its queue drained; it throws "did not drain"
-- only where every byte was accepted and the queue did not drain in time, a count of bytes only
-- where the port accepted that count and it is less than the whole, the port's own error only where
-- the write or the drain threw it, and any other error only on a closed connection; and where it
-- has not ended, the port's write or drain has not.
pub write_connection-WriteReport :
    (w : Writing) (bytes : List ℕ) (s : DefaultSerial)
    → WriteReport w (length bytes) s (write_connection w bytes s)
unfolding write_connection
write_connection-WriteReport w bytes s = write_on-WriteReport w bytes s s.port refl

-- What open() leaves: an open connection keeps its port; a closed one gets a port only on the
-- descriptor that the system call gave, configured at the connection's rate; and where it throws
-- the connection was closed and stays closed.
abbrev pub OpenReport : Opening → DefaultSerial → Answer (Unit {0}) × DefaultSerial → Type 0
OpenReport o s (gives u, s') =
    ((is_open s ≡ true) × (s'.port ≡ s.port))
    ⊎ ((fd : ℕ) × (o.descriptor ≡ inl fd)
        × (SerialPort.configure s.config.baudrate o.termios ≡ ok tt)
        × (s'.port ≡ some (record { fd = some fd; baudrate = s.config.baudrate })))
OpenReport o s (fails_with f, s') = (is_open s ≡ false) × (s'.port ≡ none)

set_latency-port :
    (fs : FileSystem) (sysfs : List ℕ) (files : List ℕ → TimerFile) (s : DefaultSerial)
    → (set_latency fs sysfs files s).port ≡ s.port
unfolding set_latency
set_latency-port fs sysfs files s = ground arith

configured_OpenReport :
    (o : Opening) (s s' : DefaultSerial) (fd : ℕ) (r : Result (Unit {0}))
    → is_open s ≡ false
    → s'.port ≡ none
    → o.descriptor ≡ inl fd
    → SerialPort.configure s.config.baudrate o.termios ≡ r
    → OpenReport o s (
        publish_port o s' (elim r [
          | ok _ ↦ (ok (record { fd = some fd; baudrate = s.config.baudrate }), [])
          | throws e ↦ (throws e, fd ∷ [])
        ]))
unfolding publish_port
configured_OpenReport o s s' fd (throws e) c p d r = (c, p)
configured_OpenReport o s s' fd (ok tt) c p d r =
    inr (fd, d, r, set_latency-port o.file_system o.sysfs_devices o.files _)

opened_OpenReport :
    (o : Opening) (s s' : DefaultSerial) (d : ℕ ⊎ ℕ)
    → is_open s ≡ false
    → s'.port ≡ none
    → o.descriptor ≡ d
    → OpenReport o s
        (publish_port o s' (SerialPort.open_port o.errno d o.termios s.config.baudrate unopened))
unfolding publish_port SerialPort.open_port
opened_OpenReport o s s' (inr e) c p d = ground (arith, c, p)
opened_OpenReport o s s' (inl fd) c p d =
    configured_OpenReport o s s' fd (SerialPort.configure s.config.baudrate o.termios) c p d refl

path_OpenReport :
    (o : Opening) (s : DefaultSerial) (path : List ℕ)
    → is_open s ≡ false
    → s.port ≡ none
    → OpenReport o s (open_configured o s path)
unfolding open_configured
path_OpenReport o s [] c p = (c, p)
path_OpenReport o s (x ∷ path) c p = opened_OpenReport o s _ o.descriptor c p refl

open_on-OpenReport :
    (o : Opening) (s : DefaultSerial) (p : Option SerialPort)
    → s.port ≡ p
    → OpenReport o s (open_on o s p)
unfolding open_on is_open
open_on-OpenReport o s none e = path_OpenReport o s s.config.port (rw e refl) e
open_on-OpenReport o s (some port) e = inl (rw e refl, refl)

-- An open() of the connection is all or nothing, whatever the system and the file system answer: an
-- open connection keeps its port, a closed one that does not throw gets a port on the descriptor
-- that the system call gave, which is configured at the connection's rate, and one that throws was
-- closed and stays closed; the latency timer does not change that.
pub open_connection-OpenReport :
    (o : Opening) (s : DefaultSerial) → OpenReport o s (open_connection o s)
unfolding open_connection
open_connection-OpenReport o s = open_on-OpenReport o s s.port refl
