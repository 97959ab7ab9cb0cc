-- ===== src/FakeGripper/Healthy.antt =====
-- What a wait keeps over the fake device, whether it ends by an exchange or by its deadline, when
-- the exchange thread goes on taking its steps.
use grippers.Prelude.{
  ℕ, ◌+◌, ◌≤◌, ◌<◌, ◌≡◌, ◌∙◌, max, false, Option, none, some, List, ◌∷◌, length, arith,
}
use grippers.Byte.{AllBytes}
use grippers.Command.{GripperCommand, command_data}
use grippers.RegisterModel.{RegisterModel}
use grippers.ModbusClient.{Nmbs}
use grippers.ModbusClient.Loopback.{Carries}
use grippers.Gripper.{longest, nanoseconds}
use grippers.FakeGripper.{System, Run, step, wait_on, set_run}
use grippers.FakeGripper.Steps.{DoneWithBit, step_from-Cycled}
use grippers.FakeGripper.Waiting.{FlightBytes, Ready}
use grippers.FakeGripper.Steady.{Steady, reach, Steady-later, Steady-tail, reach-le, Steady-Before}
use grippers.FakeGripper.Wiring.{wait_on-keeps}

-- A run whose thread goes on until a time, with commands of bytes, an open image and counts that
-- do not wrap, and whose clock has not passed a bound.
pub record Healthy (until bound : ℕ) (w : Run) : Type 0 where
  pub done_with_bit : DoneWithBit w.device
  pub next_bytes : AllBytes (command_data w.state.image.next_command)
  pub flight_bytes : FlightBytes w.in_flight
  pub not_closed : w.state.image.closed ≡ false
  pub within : w.clock ≤ bound
  pub steady : Steady until w.clock w.schedule
  pub room : w.state.image.stamped.exchange_count + length w.schedule < 18446744073709551615

-- Such a run is ready for as many steps as fit before a time.
pub Healthy-Ready :
    (k until bound time : ℕ) (w : Run)
    → Healthy until bound w
    → reach k w.clock < time
    → time ≤ until
    → time ≤ w.clock + nanoseconds longest
    → Ready time k w
Healthy-Ready k until bound time w x h late near = record {
  done_with_bit = x.done_with_bit;
  next_bytes = x.next_bytes;
  flight_bytes = x.flight_bytes;
  not_closed = x.not_closed;
  early = omega (arith, reach-le k w.clock);
  near = near;
  prompt = Steady-Before k until w.clock time w.schedule x.steady h late;
  room = x.room;
}

pub Healthy-within :
    (until bound later : ℕ) (w : Run)
    → w.clock ≤ later
    → Healthy until bound w
    → Healthy until later w
Healthy-within until bound later w h x = record {
  done_with_bit = x.done_with_bit;
  next_bytes = x.next_bytes;
  flight_bytes = x.flight_bytes;
  not_closed = x.not_closed;
  within = h;
  steady = x.steady;
  room = x.room;
}

module _ (n : Nmbs RegisterModel) (link : Carries n) (until bound : ℕ) where
  abbrev At : System → List ℕ → Type 0
  At s ts = Healthy until bound (record { system = s; schedule = ts })

  started_Healthy :
      (t : ℕ) (ts : List ℕ) (s : System)
      → t ≤ bound
      → At (record s { in_flight = none }) (t ∷ ts)
      → At (step n t (record s { in_flight = none })) ts
  unfolding step
  started_Healthy t ts s soon h = record {
    done_with_bit = h.done_with_bit;
    next_bytes = h.next_bytes;
    flight_bytes = h.next_bytes;
    not_closed = h.not_closed;
    within = omega (arith, h.within);
    steady = Steady-tail until s.clock t ts h.steady;
    room = omega (arith, h.room);
  }

  landed_Healthy :
      (c : GripperCommand) (t : ℕ) (ts : List ℕ) (s : System)
      → t ≤ bound
      → At (record s { in_flight = some c }) (t ∷ ts)
      → At (step n t (record s { in_flight = some c })) ts
  unfolding step
  landed_Healthy c t ts s soon h =
      let y =
        step_from-Cycled n link c (max s.clock t) (record s { in_flight = some c }) h.flight_bytes
          h.done_with_bit in
      record {
        done_with_bit = y.sent.done_with_bit;
        next_bytes = rw y.same_next h.next_bytes;
        flight_bytes = tt;
        not_closed = y.same_closed ∙ h.not_closed;
        within = omega (arith, h.within);
        steady = Steady-tail until s.clock t ts h.steady;
        room = omega (arith, h.room, y.counted);
      }

  step-Healthy :
      (f : Option GripperCommand) (t : ℕ) (ts : List ℕ) (s : System)
      → t ≤ bound
      → At (record s { in_flight = f }) (t ∷ ts)
      → At (step n t (record s { in_flight = f })) ts
  step-Healthy none t ts s soon h = started_Healthy t ts s soon h
  step-Healthy (some c) t ts s soon h = landed_Healthy c t ts s soon h

  paused_Healthy :
      (deadline : ℕ) (ts : List ℕ) (s : System)
      → deadline ≤ bound
      → s.clock < deadline
      → At s ts
      → At (record s { clock = deadline }) ts
  paused_Healthy deadline ts s fits early h = record {
    done_with_bit = h.done_with_bit;
    next_bytes = h.next_bytes;
    flight_bytes = h.flight_bytes;
    not_closed = h.not_closed;
    within = fits;
    steady = Steady-later until s.clock deadline ts (omega arith) h.steady;
    room = h.room;
  }

  -- A wait keeps a run healthy, up to its deadline.
  pub wait_on-Healthy :
      (desired deadline : ℕ) (w : Run)
      → deadline ≤ bound
      → Healthy until bound w
      → Healthy until bound (wait_on n desired deadline w.schedule w.system)
  wait_on-Healthy desired deadline w fits h =
      wait_on-keeps n At desired deadline
        (λ t ts s soon early p. step-Healthy s.in_flight t ts s (omega arith) p)
        (λ ts s early p. paused_Healthy deadline ts s fits early p) w.schedule w.system h

  -- So does a command of bytes that is set.
  pub set_run-Healthy :
      (c : GripperCommand) (w : Run)
      → AllBytes (command_data c)
      → Healthy until bound w
      → Healthy until bound (set_run n c w)
  unfolding set_run
  set_run-Healthy c w bytes h = record {
    done_with_bit = h.done_with_bit;
    next_bytes = bytes;
    flight_bytes = h.flight_bytes;
    not_closed = h.not_closed;
    within = h.within;
    steady = h.steady;
    room = h.room;
  }
