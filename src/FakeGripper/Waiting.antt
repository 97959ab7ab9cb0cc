-- ===== src/FakeGripper/Waiting.antt =====
-- A wait for the next exchange of the exchange thread, when its steps come in time.
use grippers.Prelude.{
  ◌∙◌, ℕ, zero, suc, ◌+◌, ◌≤◌, ◌<◌, ◌≡◌, refl, true, false, Option, none, some, List, [], ◌∷◌,
  arith, length, lt→ltb,
}
use grippers.Byte.{AllBytes}
use grippers.Command.{GripperCommand, command_data}
use grippers.RegisterModel.{RegisterModel, status}
use grippers.ModbusClient.{Nmbs}
use grippers.Gripper.{longest, nanoseconds}
use grippers.FakeGripper.{max, System, Run, waits, step, wait_on}
use grippers.ModbusClient.Loopback.{Carries}
use grippers.FakeGripper.Steps.{step_from-Cycled, Shows, DoneWithBit}

-- The first `k` instants of a schedule are before a time.
abbrev pub Before : ℕ → ℕ → List ℕ → Type 0
Before zero time ts = Unit {0}
Before (suc k) time [] = ⊥
Before (suc k) time (t ∷ ts) = (t < time) × Before k time ts

abbrev pub FlightBytes : Option GripperCommand → Type 0
FlightBytes none = Unit {0}
FlightBytes (some c) = AllBytes (command_data c)

-- The next `k` steps of the thread come before `time`, with commands of bytes, an open image, and
-- counts that do not wrap.
pub record Ready (time k : ℕ) (w : Run) : Type 0 where
  pub done_with_bit : DoneWithBit w.device
  pub next_bytes : AllBytes (command_data w.state.image.next_command)
  pub flight_bytes : FlightBytes w.in_flight
  pub not_closed : w.state.image.closed ≡ false
  pub early : w.clock < time
  pub near : time ≤ w.clock + nanoseconds longest
  pub prompt : Before k time w.schedule
  pub room : w.state.image.stamped.exchange_count + length w.schedule < 18446744073709551615

-- The command of the exchange that ends next.
abbrev pub on_wire : Option GripperCommand → GripperCommand → GripperCommand
on_wire none next = next
on_wire (some c) next = c

-- The exchange that ended, and what it left.
pub record Next (time k : ℕ) (w w' : Run) : Type 0 where
  pub counted : w'.state.image.stamped.exchange_count ≡ w.state.image.stamped.exchange_count + 1
  pub carried : w'.state.image.stamped.command ≡ on_wire w.in_flight w.state.image.next_command
  pub shows : Shows w'.state.image.stamped.command w'.state.image.stamped.status
  pub shown : w'.state.image.stamped.status ≡ status w'.device
  pub fault_kept : (status w.device).fault_status.raw ≡ 0 → (status w'.device).fault_status.raw ≡ 0
  pub landed : w'.in_flight ≡ none
  pub same_next : w'.state.image.next_command ≡ w.state.image.next_command
  pub same_history : w'.history ≡ w.history
  pub ready : Ready time k w'

waits_on :
    (deadline : ℕ) (s : System)
    → s.state.image.closed ≡ false
    → s.clock < deadline
    → waits (s.state.image.stamped.exchange_count + 1) deadline s ≡ true
unfolding waits
waits_on deadline s e h = ground arith

stops_waiting :
    (desired deadline : ℕ) (s : System)
    → desired ≤ s.state.image.stamped.exchange_count
    → waits desired deadline s ≡ false
unfolding waits
stops_waiting desired deadline s h = ground arith

module _ (n : Nmbs RegisterModel) where
  wait_on-step :
      (desired deadline t : ℕ) (ts : List ℕ) (s : System)
      → waits desired deadline s ≡ true
      → t < deadline
      → wait_on n desired deadline (t ∷ ts) s ≡ wait_on n desired deadline ts (step n t s)
  unfolding wait_on
  wait_on-step desired deadline t ts s e h = rw (e, lt→ltb t deadline h) refl

  wait_on-stop :
      (desired deadline : ℕ) (ts : List ℕ) (s : System)
      → waits desired deadline s ≡ false
      → wait_on n desired deadline ts s ≡ record { system = s; schedule = ts }
  unfolding wait_on
  wait_on-stop desired deadline [] s e = rw e refl
  wait_on-stop desired deadline (t ∷ ts) s e = rw e refl

module _ (n : Nmbs RegisterModel) (link : Carries n) (time : ℕ) where
  -- The command on the wire lands.
  landed_Next :
      (k : ℕ) (c : GripperCommand) (t : ℕ) (ts : List ℕ) (s : System)
      → Ready time (suc k) (record { system = record s { in_flight = some c }; schedule = t ∷ ts })
      → Next time k
          (record { system = record s { in_flight = some c }; schedule = t ∷ ts })
          (record { system = step n t (record s { in_flight = some c }); schedule = ts })
  unfolding step
  landed_Next k c t ts s r =
      let s0 : System = record s { in_flight = some c } in
      let y = step_from-Cycled n link c (max s.clock t) s0 r.flight_bytes r.done_with_bit in
      let count = y.counted (omega (arith, r.room)) in
      record {
        counted = count;
        carried = y.carried;
        shows = rw (y.carried, y.shown) y.sent.shows;
        shown = y.shown;
        fault_kept = y.sent.fault_kept;
        landed = y.landed;
        same_next = y.same_next;
        same_history = y.same_history;
        ready = record {
          done_with_bit = y.sent.done_with_bit;
          next_bytes = rw y.same_next r.next_bytes;
          flight_bytes = tt;
          not_closed = y.same_closed ∙ r.not_closed;
          early = omega (arith, y.timed, r.early, r.prompt.0);
          near = omega (arith, y.timed, r.near);
          prompt = r.prompt.1;
          room = omega (arith, count, r.room);
        };
      }

  -- The wait for the exchange after the newest one, with a command on the wire.
  flight_Next :
      (k desired deadline : ℕ) (c : GripperCommand) (ts : List ℕ) (s : System)
      → (let w : Run = record { system = record s { in_flight = some c }; schedule = ts } in
          Ready time (suc k) w
          → desired ≡ w.state.image.stamped.exchange_count + 1
          → time ≤ deadline
          → Next time k w (wait_on n desired deadline ts w.system))
  flight_Next k desired deadline c [] s r d h = absurd r.prompt
  flight_Next k desired deadline c (t ∷ ts) s r d h =
      let s0 : System = record s { in_flight = some c } in
      let x = landed_Next k c t ts s r in
      let on : waits desired deadline s0 ≡ true =
        rw d (waits_on deadline s0 r.not_closed (omega (arith, r.early))) in
      rw
        (
          wait_on-step n desired deadline t ts s0 on (omega (arith, r.prompt.0)),
          wait_on-stop n desired deadline ts (step n t s0)
              (stops_waiting desired deadline (step n t s0) (omega (arith, d, x.counted))),
        )
        x

  -- A cycle that starts copies the command, and the rest is as before.
  started_Ready :
      (k t : ℕ) (ts : List ℕ) (s : System)
      → Ready time (suc k) (record { system = record s { in_flight = none }; schedule = t ∷ ts })
      → Ready time k (record {
        system = record s { in_flight = some s.state.image.next_command; clock = max s.clock t };
        schedule = ts;
      })
  started_Ready k t ts s r = record {
    done_with_bit = r.done_with_bit;
    next_bytes = r.next_bytes;
    flight_bytes = r.next_bytes;
    not_closed = r.not_closed;
    early = omega (arith, r.early, r.prompt.0);
    near = omega (arith, r.near);
    prompt = r.prompt.1;
    room = omega (arith, r.room);
  }

  resting_Next :
      (k desired deadline : ℕ) (ts : List ℕ) (s : System)
      → (let w : Run = record { system = record s { in_flight = none }; schedule = ts } in
          Ready time (suc (suc k)) w
          → desired ≡ w.state.image.stamped.exchange_count + 1
          → time ≤ deadline
          → Next time k w (wait_on n desired deadline ts w.system))
  unfolding step
  resting_Next k desired deadline [] s r d h = absurd r.prompt
  resting_Next k desired deadline (t ∷ ts) s r d h =
      let s0 : System = record s { in_flight = none } in
      let next = s.state.image.next_command in
      let at = max s.clock t in
      let x =
        flight_Next k desired deadline next ts (record s { clock = at })
          (started_Ready (suc k) t ts s r) d h in
      let on : waits desired deadline s0 ≡ true =
        rw d (waits_on deadline s0 r.not_closed (omega (arith, r.early))) in
      rw (wait_on-step n desired deadline t ts s0 on (omega (arith, r.prompt.0))) (record {
        counted = x.counted;
        carried = x.carried;
        shows = x.shows;
        shown = x.shown;
        fault_kept = x.fault_kept;
        landed = x.landed;
        same_next = x.same_next;
        same_history = x.same_history;
        ready = x.ready;
      })

  Before-weaken : (k : ℕ) (ts : List ℕ) → Before (suc k) time ts → Before k time ts
  Before-weaken zero ts b = tt
  Before-weaken (suc k) [] b = b
  Before-weaken (suc k) (t ∷ ts) b = (b.0, Before-weaken k ts b.1)

  pub Ready-weaken : (k : ℕ) (w : Run) → Ready time (suc k) w → Ready time k w
  Ready-weaken k w r = record {
    done_with_bit = r.done_with_bit;
    next_bytes = r.next_bytes;
    flight_bytes = r.flight_bytes;
    not_closed = r.not_closed;
    early = r.early;
    near = r.near;
    prompt = Before-weaken k w.schedule r.prompt;
    room = r.room;
  }

  wait_from-Next :
      (k desired deadline : ℕ) (f : Option GripperCommand) (ts : List ℕ) (s : System)
      → (let w : Run = record { system = record s { in_flight = f }; schedule = ts } in
          Ready time (suc (suc k)) w
          → desired ≡ w.state.image.stamped.exchange_count + 1
          → time ≤ deadline
          → Next time k w (wait_on n desired deadline ts w.system))
  wait_from-Next k desired deadline none ts s r d h = resting_Next k desired deadline ts s r d h
  wait_from-Next k desired deadline (some c) ts s r d h =
      flight_Next k desired deadline c ts s (Ready-weaken (suc k) _ r) d h

  -- Two steps of the thread in time bring the exchange after the newest one: the device acted on
  -- the command on the wire, or on the newest one set.
  pub wait_on-Next :
      (k desired deadline : ℕ) (w : Run)
      → Ready time (suc (suc k)) w
      → desired ≡ w.state.image.stamped.exchange_count + 1
      → time ≤ deadline
      → Next time k w (wait_on n desired deadline w.schedule w.system)
  wait_on-Next k desired deadline w r d h =
      wait_from-Next k desired deadline w.in_flight w.schedule w.system r d h
