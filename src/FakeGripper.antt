-- ===== src/FakeGripper.antt =====
-- The whole program over the fake device, as sdk_cpp/src/fake/gripper_factory.cpp puts it together:
-- the application's handle (sdk_cpp/src/gripper.cpp), the exchange thread of
-- sdk_cpp/src/gripper_state.cpp, the client and the device's register model. The instants at which
-- the thread's next steps happen are a schedule; the application's own steps take no time.
pub mod Steps
pub mod Waiting
pub mod Steady
pub mod Wiring
pub mod Healthy
pub mod Loops
pub mod Kept
pub mod Rounds
pub mod Activates
pub mod Outcomes
pub mod Lawful
pub mod Syncs
use grippers.Prelude.{
  ℕ, ◌-◌, max, Bool, not, ◌&&◌, Option, none, some, List, [], ◌∷◌, ltb, ◌==◌, if◌then◌else◌,
}
use grippers.Command.{GripperCommand}
use grippers.Status.{GripperStatus}
use grippers.RegisterModel.{RegisterModel}
use grippers.ModbusClient.{Nmbs, Result, ok, driver_exception, serial_exception, exchange}
use grippers.ProcessImage.{StampedExchange, Wake, keeps_waiting}
use grippers.GripperState.{GripperState, note_success, note_failure, log_failure, set_state_command}
use grippers.Gripper.{Handle}

-- The shared state, the command that an exchange has on the wire if there is one, the device, the
-- clock, and the commands set so far, the newest first.
pub record System : Type 0 where
  pub state : GripperState
  pub in_flight : Option GripperCommand
  pub device : RegisterModel
  pub clock : ℕ
  pub history : List GripperCommand

-- The application's view: the system, and the instants of the thread's steps to come. Once they
-- are used up the thread hangs.
pub record Run : Type 0 where
  pub system : System
  pub open system use *
  pub schedule : List ℕ

-- The end of a cycle, by what the client's exchange came to.
unfoldable pub finish : Result GripperStatus → GripperCommand → ℕ → GripperState → GripperState
unfolding note_success note_failure log_failure
finish (ok status) c at s = note_success c status at s
finish (driver_exception call e) c at s = log_failure at (note_failure s)
finish serial_exception c at s = log_failure at (note_failure s)

abbrev pub woken : System → Wake
woken s = record { image = s.state.image; now = s.clock }

-- Does waitForExchange() wait on, seen from here?
unfoldable pub waits : ℕ → ℕ → System → Bool
unfolding keeps_waiting
waits desired deadline s = not (desired == 0) && keeps_waiting (desired - 1) deadline (woken s)

module _ (n : Nmbs RegisterModel) where
  -- A step of the exchange thread: a cycle starts with a copy of the command, or ends.
  unfoldable pub step_from : Option GripperCommand → ℕ → System → System
  unfolding finish
  step_from none at s = record s { in_flight = some s.state.image.next_command; clock = at }
  step_from (some c) at s =
      let (r, device) = exchange n c s.device in
      record s { state = finish r c at s.state; in_flight = none; device = device; clock = at }

  unfoldable pub step : ℕ → System → System
  unfolding step_from
  step t s = step_from s.in_flight (max s.clock t) s

  -- The application waits while the thread's steps happen, until the wait ends or the deadline
  -- comes before the next step.
  unfoldable pub wait_on : ℕ → ℕ → List ℕ → System → Run
  unfolding waits step
  wait_on desired deadline [] s = record {
    system = if waits desired deadline s then record s { clock = deadline } else s;
    schedule = [];
  }
  wait_on desired deadline (t ∷ ts) s =
      let rest = wait_on desired deadline ts (step t s) in
      if waits desired deadline s
      then (if ltb t deadline
          then rest
          else (record { system = record s { clock = deadline }; schedule = t ∷ ts }))
      else (record { system = s; schedule = t ∷ ts })

  -- Gripper's calls into the state, for the procedures.
  unfoldable pub wait_run : ℕ → ℕ → Run → StampedExchange × Run
  wait_run desired deadline w =
      let w' = wait_on desired deadline w.schedule w.system in (w'.state.image.stamped, w')

  unfoldable pub set_run : GripperCommand → Run → Run
  unfolding set_state_command
  set_run c w = record w {
    system = record w.system { state = set_state_command c w.state; history = c ∷ w.history };
  }

  abbrev pub gripper : Handle Run
  gripper = record {
    now = λ w. (w.clock, w);
    stamped_exchange = λ w. (w.state.image.stamped, w);
    wait_for_exchange = wait_run;
    command = λ w. (w.state.image.next_command, w);
    set_command = set_run;
  }
