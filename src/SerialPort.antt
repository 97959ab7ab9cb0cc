-- ===== src/SerialPort.antt =====
-- The POSIX serial port: sdk_cpp/src/detail/posix/serial_port.cpp. What the operating system and
-- the clock answer, turn by turn of a loop, is an argument; a loop that ran out of turns goes on.
pub mod Bounds
use grippers.Prelude.{
  ◌⊎◌, inl, inr, ℕ, ◌+◌, ◌-◌, ◌/◌, min, Bool, true, false, not, ◌&&◌, ◌||◌, Option, none, some,
  List, [], ◌∷◌, ◌++◌, length, take, ltb, leb, ◌==◌, if◌then◌else◌,
}

-- What the exceptions tell apart: the operating system's error number, a hangup, a missing port, a
-- rate that has no constant.
pub data SerialError : Type 0 where
  os_error : ℕ → SerialError
  hung_up no_such_port : SerialError
  unsupported_rate : ℕ → SerialError

pub data Result {ℓ} (A : Type ℓ) : Type ℓ where
  ok : A → Result A
  throws : SerialError → Result A

-- EIO, and the errors of an open that mean that there is no such port.
pub record Errno : Type 0 where
  pub eio : ℕ
  pub enoent : ℕ
  pub enodev : ℕ
  pub enxio : ℕ

-- The termios constant of a rate, named by the rate; the four that not every platform has are there
-- on Linux.
unfoldable pub baud_constant : ℕ → Option ℕ
baud_constant baudrate =
    if baudrate == 1200
    then some 1200
    else if baudrate == 2400
    then some 2400
    else if baudrate == 4800
    then some 4800
    else if baudrate == 9600
    then some 9600
    else if baudrate == 19200
    then some 19200
    else if baudrate == 38400
    then some 38400
    else if baudrate == 57600
    then some 57600
    else if baudrate == 115200
    then some 115200
    else if baudrate == 230400
    then some 230400
    else if baudrate == 460800
    then some 460800
    else if baudrate == 500000
    then some 500000
    else if baudrate == 921600
    then some 921600
    else if baudrate == 1000000
    then some 1000000
    else none

-- A system call that may fail with an error number.
pub data Call : Type 0 where
  succeeds : Call
  fails : ℕ → Call

-- What poll() answered: a failure, or the events ready, with POLLERR or POLLNVAL, with the event
-- waited for, and with POLLHUP.
pub data Poll : Type 0 where
  poll_interrupted : Poll
  poll_fails : ℕ → Poll
  poll_returns : ℕ → Bool → Bool → Bool → Poll

pub data WaitResult : Type 0 where
  ready interrupted timed_out : WaitResult

-- The timeout that poll() is given, for a wait of `remaining` nanoseconds.
unfoldable pub poll_timeout : ℕ → ℕ
poll_timeout remaining = min ((remaining + 999999) / 1000000) 2147483647

unfoldable pub wait_ready : ℕ → Poll → Result WaitResult
wait_ready eio poll_interrupted = ok interrupted
wait_ready eio (poll_fails e) = throws (os_error e)
wait_ready eio (poll_returns count broken event hangup) =
    if broken
    then throws (os_error eio)
    else if not event && hangup
    then throws hung_up
    else if count == 0
    then ok timed_out
    else ok ready

-- What read() or write() answered.
pub data Transfer (A : Type 0) : Type 0 where
  moved : A → Transfer A
  nothing signalled would_block : Transfer A
  transfer_fails : ℕ → Transfer A

-- One round of a loop: the transfer, then the clock and poll() where the loop comes to them.
pub record Turn (A : Type 0) : Type 0 where
  pub transfer : Transfer A
  pub now : ℕ
  pub poll : Poll

-- How a round of a loop goes on: return, throw, or go round again.
pub data Next : Type 0 where
  returns : Next
  raises : SerialError → Next
  again : Bool → Next

-- The end of a round of read(): nothing was buffered.
abbrev pub after_read_wait : Result WaitResult → Next
after_read_wait (throws e) = raises e
after_read_wait (ok timed_out) = returns
after_read_wait (ok ready) = again true
after_read_wait (ok interrupted) = again false

unfoldable pub await_input : ℕ → ℕ → ℕ → Poll → Next
unfolding wait_ready
await_input eio deadline now p =
    if leb deadline now then returns else after_read_wait (wait_ready eio p)

-- How a round of read() goes on, and the bytes received after it. The operating system gives at
-- most what is asked for.
unfoldable pub read_next : ℕ → ℕ → Bool → Turn (List ℕ) → Transfer (List ℕ) → Next
unfolding await_input
read_next eio deadline polled t (moved bytes) = again polled
read_next eio deadline polled t nothing =
    if polled then raises hung_up else await_input eio deadline t.now t.poll
read_next eio deadline polled t signalled = again polled
read_next eio deadline polled t would_block = await_input eio deadline t.now t.poll
read_next eio deadline polled t (transfer_fails e) = raises (os_error e)

abbrev pub read_more : ℕ → List ℕ → Transfer (List ℕ) → List ℕ
read_more size received (moved bytes) = received ++ take (size - length received) bytes
read_more size received nothing = received
read_more size received signalled = received
read_more size received would_block = received
read_more size received (transfer_fails e) = received

unfoldable pub go_on : {A : Type 0} → A → (Bool → Option (Result A)) → Next → Option (Result A)
go_on done rest returns = some (ok done)
go_on done rest (raises e) = some (throws e)
go_on done rest (again polled) = rest polled

-- The loop of read(): the bytes received so far, and whether poll() has said that there are more.
unfoldable pub read_loop :
    ℕ → ℕ → ℕ → List (Turn (List ℕ)) → List ℕ → Bool → Option (Result (List ℕ))
unfolding go_on read_next
read_loop eio size deadline [] received polled =
    if leb size (length received) then some (ok received) else none
read_loop eio size deadline (t ∷ later) received polled =
    let rest =
      λ (b : Bool). read_loop eio size deadline later (read_more size received t.transfer) b in
    if leb size (length received)
    then some (ok received)
    else go_on received rest (read_next eio deadline polled t t.transfer)

-- SerialPort::read: a deadline from the clock, then the loop.
unfoldable pub read : ℕ → ℕ → ℕ → ℕ → List (Turn (List ℕ)) → Option (Result (List ℕ))
unfolding read_loop
read eio size now timeout turns = read_loop eio size (now + timeout) turns [] false

-- The end of a round of write(): the queue is full.
abbrev pub after_write_wait : Result WaitResult → Next
after_write_wait (throws e) = raises e
after_write_wait (ok timed_out) = returns
after_write_wait (ok ready) = again true
after_write_wait (ok interrupted) = again true

unfoldable pub await_output : ℕ → Bool → ℕ → ℕ → Poll → Next
unfolding wait_ready
await_output eio unbounded deadline now p =
    if not unbounded && leb deadline now then returns else after_write_wait (wait_ready eio p)

unfoldable pub write_next : ℕ → Bool → ℕ → Turn ℕ → Transfer ℕ → Next
unfolding await_output
write_next eio unbounded deadline t (moved count) = again true
write_next eio unbounded deadline t nothing = await_output eio unbounded deadline t.now t.poll
write_next eio unbounded deadline t signalled = again true
write_next eio unbounded deadline t would_block = await_output eio unbounded deadline t.now t.poll
write_next eio unbounded deadline t (transfer_fails e) = raises (os_error e)

abbrev pub write_more : ℕ → ℕ → Transfer ℕ → ℕ
write_more size sent (moved count) = sent + min count (size - sent)
write_more size sent nothing = sent
write_more size sent signalled = sent
write_more size sent would_block = sent
write_more size sent (transfer_fails e) = sent

-- The loop of write(): the count of bytes sent so far.
unfoldable pub write_loop : ℕ → ℕ → Bool → ℕ → List (Turn ℕ) → ℕ → Option (Result ℕ)
unfolding go_on write_next
write_loop eio size unbounded deadline [] sent = if leb size sent then some (ok sent) else none
write_loop eio size unbounded deadline (t ∷ later) sent =
    let rest = λ (b : Bool).
      write_loop eio size unbounded deadline later (write_more size sent t.transfer) in
    if leb size sent
    then some (ok sent)
    else go_on sent rest (write_next eio unbounded deadline t t.transfer)

-- SerialPort::write: a timeout of zero waits without a bound.
unfoldable pub write : ℕ → ℕ → ℕ → ℕ → List (Turn ℕ) → Option (Result ℕ)
unfolding write_loop
write eio size now timeout turns = write_loop eio size (timeout == 0) (now + timeout) turns 0

-- What one look at the output queue found: the ioctl failed or it is empty, or bytes are queued at
-- this time.
pub data Queue : Type 0 where
  queue_empty : Queue
  queued : ℕ → ℕ → Queue

-- The loop of drain() that watches the queue: `false` when the deadline passed first.
unfoldable pub drain_queue : Bool → ℕ → List Queue → Option Bool
drain_queue unbounded deadline [] = none
drain_queue unbounded deadline (queue_empty ∷ later) = some true
drain_queue unbounded deadline (queued count now ∷ later) =
    let rest = drain_queue unbounded deadline later in
    if not unbounded && leb deadline now then some false else rest

-- tcdrain() is called again where a signal interrupted it; the numbers of its failures.
unfoldable pub tcdrain_loop : ℕ → List Call → Option (Result Bool)
tcdrain_loop eintr [] = none
tcdrain_loop eintr (succeeds ∷ later) = some (ok true)
tcdrain_loop eintr (fails e ∷ later) =
    let rest = tcdrain_loop eintr later in if e == eintr then rest else some (throws (os_error e))

unfoldable pub drain : ℕ → ℕ → ℕ → List Queue → List Call → Option (Result Bool)
unfolding drain_queue tcdrain_loop
drain eintr now timeout queues calls = elim (drain_queue (timeout == 0) (now + timeout) queues) [
  | none ↦ none
  | some false ↦ some (ok false)
  | some true ↦ tcdrain_loop eintr calls
]

-- The port: its descriptor while it is open, and the rate.
pub record SerialPort : Type 0 where
  pub fd : Option ℕ
  pub baudrate : ℕ

-- The system calls of configure(), in their order.
pub record Termios : Type 0 where
  pub tcgetattr : Call
  pub cfsetspeed : Call
  pub tcsetattr : Call

abbrev after_call : Call → Result (Unit {0}) → Result (Unit {0})
after_call succeeds r = r
after_call (fails e) r = throws (os_error e)

unfoldable pub configure : ℕ → Termios → Result (Unit {0})
unfolding baud_constant
configure baudrate t = elim (baud_constant baudrate) [
  | none ↦ throws (unsupported_rate baudrate)
  | some speed ↦ after_call t.tcgetattr (after_call t.cfsetspeed (after_call t.tcsetattr (ok tt)))
]

-- open(): the descriptor that the system call gave, or its error. The descriptors that were closed
-- again are listed, so that none is left behind.
unfoldable pub open_port : Errno → ℕ ⊎ ℕ → Termios → ℕ → SerialPort → Result SerialPort × List ℕ
unfolding configure
open_port errno (inr e) t baudrate p = (
  if e == errno.enoent || (e == errno.enodev || e == errno.enxio)
      then throws no_such_port
      else throws (os_error e),
  [],
)
open_port errno (inl fd) t baudrate p = elim (configure baudrate t) [
  | ok _ ↦ (ok (record { fd = some fd; baudrate = baudrate }), [])
  | throws e ↦ (throws e, fd ∷ [])
]

-- close(): the port, and the descriptor that is closed.
unfoldable pub close_port : SerialPort → SerialPort × List ℕ
close_port p = (record p { fd = none }, elim p.fd [ none ↦ [] | some fd ↦ fd ∷ [] ])
