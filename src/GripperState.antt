-- ===== src/GripperState.antt =====
-- The link and its exchange thread: sdk_cpp/src/gripper_state.hpp and
-- sdk_cpp/src/gripper_state.cpp. What the client's calls came to (a status, or an exception) and
-- what the clock read are arguments.
pub mod Failures
pub mod Seeding
pub mod Threads
use grippers.Prelude.{
  ℕ, zero, suc, ◌+◌, ◌-◌, max, Bool, true, false, Option, none, some, List, [], ◌∷◌, ltb, leb, ◌==◌,
  if◌then◌else◌,
}
use grippers.Byte.{u32}
use grippers.Command.{GripperCommand, activate, go_to, set_to, defaults}
use grippers.Status.{GripperStatus, activated, go_to_enabled}
use grippers.ProcessImage.{
  StampedExchange, ProcessImage, Wake, new_image, seed, set_command, publish, close, sync,
}
use grippers.Throttle.{Throttle, execute_if_allowed}

-- sdk_cpp/include/Robotiq/gripper/connection_state.hpp
pub data ConnectionState : Type 0 where
  disconnected connecting operational faulted : ConnectionState

abbrev pub is_faulted : ConnectionState → Bool
is_faulted disconnected = false
is_faulted connecting = false
is_faulted operational = false
is_faulted faulted = true

pub data LogLine : Type 0 where
  link_faulted link_recovered cycle_failed : LogLine
  initial_read_failed : ℕ → LogLine

abbrev pub fault_threshold : ℕ
fault_threshold = 3

abbrev pub initial_read_attempts : ℕ
initial_read_attempts = 3

-- The newest log line stands first.
pub record GripperState : Type 0 where
  pub failure_log_throttle : Throttle
  pub period : ℕ
  pub image : ProcessImage
  pub connection_state : ConnectionState
  pub running : Bool
  pub consecutive_failures : ℕ
  pub log : List LogLine

-- A second, in nanoseconds.
unfoldable pub new_state : ℕ → GripperState
new_state period = record {
  failure_log_throttle = record { period = 1000000000; last = 0 };
  period = period;
  image = new_image;
  connection_state = connecting;
  running = false;
  consecutive_failures = 0;
  log = [];
}

-- What a call of the client came to: a status and the time it completed at, or an exception.
pub data Outcome : Type 0 where
  answered : GripperStatus → ℕ → Outcome
  failed : Outcome

-- The catch block of exchangeOnce.
unfoldable pub note_failure : GripperState → GripperState
note_failure s =
    let failures = u32 (s.consecutive_failures + 1) in
    let s' = record s { consecutive_failures = failures } in
    if leb fault_threshold failures
    then record s' {
      connection_state = faulted;
      log = if is_faulted s.connection_state then s.log else link_faulted ∷ s.log;
    }
    else s'

-- What exchangeOnce does after the client answered.
unfoldable pub note_success : GripperCommand → GripperStatus → ℕ → GripperState → GripperState
unfolding publish
note_success command_copy status completed_at s = record s {
  consecutive_failures = 0;
  connection_state = operational;
  image = publish command_copy status completed_at s.image;
  log = if is_faulted s.connection_state then link_recovered ∷ s.log else s.log;
}

-- exchangeOnce: the state after it, and whether it threw.
unfoldable pub exchange_once : Outcome → GripperState → GripperState × Bool
unfolding note_failure note_success
exchange_once (answered status completed_at) s =
    (note_success s.image.next_command status completed_at s, false)
exchange_once failed s = (note_failure s, true)

-- The log line of a cycle that threw, through the throttle at time `now`.
unfoldable pub log_failure : ℕ → GripperState → GripperState
unfolding execute_if_allowed
log_failure now s =
    let (ran, t) = execute_if_allowed now s.failure_log_throttle in
    record s { failure_log_throttle = t; log = if ran then cycle_failed ∷ s.log else s.log }

-- When the next cycle starts: an overrun is not made up for.
unfoldable pub next_cycle_at : ℕ → ℕ → ℕ → ℕ
next_cycle_at period next_cycle now = max (next_cycle + period) now

-- One round of the loop: the state, and the time to sleep until.
unfoldable pub cycle : Outcome → ℕ → ℕ → ℕ → GripperState → GripperState × ℕ
unfolding exchange_once log_failure next_cycle_at
cycle outcome next_cycle log_now now s =
    let (s', threw) = exchange_once outcome s in
    (if threw then log_failure log_now s' else s', next_cycle_at s.period next_cycle now)

-- One round's readings of the world.
pub record Round : Type 0 where
  pub outcome : Outcome
  pub log_now : ℕ
  pub now : ℕ

-- The loop that start() spawns, over the rounds that it gets before stop(): the state and the
-- times that it sleeps until.
unfoldable pub run_rounds : List Round → ℕ → GripperState → GripperState × List ℕ
unfolding cycle
run_rounds [] next_cycle s = (s, [])
run_rounds (r ∷ later) next_cycle s =
    let (s', at) = cycle r.outcome next_cycle r.log_now r.now s in
    let (last, rest) = run_rounds later at s' in (last, at ∷ rest)

-- The command that the image is seeded with, from the status echoes.
unfoldable pub seed_command : GripperStatus → GripperCommand
unfolding set_to defaults
seed_command fresh =
    let c = defaults in
    record c {
      action =
          set_to (set_to c.action activate (activated fresh.gripper_status)) go_to
            (go_to_enabled fresh.gripper_status);
      position_request = fresh.position_request_echo;
    }

unfoldable pub seeded : GripperStatus → ℕ → GripperState → GripperState
unfolding seed seed_command
seeded fresh now s = record s {
  image = seed fresh now (seed_command fresh) s.image;
  connection_state = operational;
}

-- The attempts of initializeImage, from number `attempt`, with `left` more to go after it. The
-- client's answers come one by one, `failed` after the last that is given.
unfoldable pub read_attempts : ℕ → ℕ → List Outcome → GripperState → Option GripperState
unfolding seeded
read_attempts left attempt (answered fresh now ∷ later) s = some (seeded fresh now s)
read_attempts zero attempt (failed ∷ later) s = none
read_attempts (suc left) attempt (failed ∷ later) s =
    read_attempts left (attempt + 1) later (record s { log = initial_read_failed attempt ∷ s.log })
read_attempts zero attempt [] s = none
read_attempts (suc left) attempt [] s =
    read_attempts left (attempt + 1) [] (record s { log = initial_read_failed attempt ∷ s.log })

-- initializeImage: `none` is the exception of the last attempt.
unfoldable pub initialize_image : List Outcome → GripperState → Option GripperState
unfolding read_attempts
initialize_image reads s = read_attempts (initial_read_attempts - 1) 1 reads s

unfoldable pub start : GripperState → GripperState
start s = record s { running = true }

-- Up to the join: what a waiter and the exchange loop see.
unfoldable pub stop : GripperState → GripperState
unfolding close
stop s = record s { running = false; image = close s.image }

unfoldable pub set_state_command : GripperCommand → GripperState → GripperState
unfolding set_command
set_state_command c s = record s { image = set_command c s.image }

-- waitForExchange over the wakes of the image's waiter.
unfoldable pub wait_for_exchange : ℕ → ℕ → Wake → List Wake → Option StampedExchange
unfolding sync
wait_for_exchange desired deadline w later =
    if desired == 0 then some w.image.stamped else sync (desired - 1) deadline w later
