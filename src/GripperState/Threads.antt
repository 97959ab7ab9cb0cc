-- ===== src/GripperState/Threads.antt =====
-- The exchange thread beside the application's, one access of the shared state at a time.
use grippers.Prelude.{ℕ, ◌≡◌, refl, ◌∙◌, ◌⊎◌, inl, inr, Bool, ◌∷◌, arith, if◌then◌else◌}
use mathlib.Core.Path.{subst, sym}
use grippers.Command.{GripperCommand}
use grippers.Status.{GripperStatus}
use grippers.ProcessImage.{publish, close}
use grippers.GripperState.{
  some, none, Option, GripperState, operational, is_faulted, Outcome, answered, failed,
  link_recovered, note_failure, exchange_once, set_state_command, stop,
}

-- How far the exchange thread is in exchangeOnce.
pub data Place : Type 0 where
  idle : Place
  in_flight : GripperCommand → Place
  counted : GripperCommand → GripperStatus → ℕ → Place
  turned : GripperCommand → GripperStatus → ℕ → Bool → Place
  announced : Bool → Place

pub record Threads : Type 0 where
  pub state : GripperState
  pub place : Place

-- The exchange thread's accesses in their order, and the application's at any time.
pub data Step : Threads → Threads → Type 0 where
  copy :
      (s : GripperState)
      → Step
          (record { state = s; place = idle })
          (record { state = s; place = in_flight s.image.next_command })
  throw :
      (s : GripperState) (c : GripperCommand)
      → Step
          (record { state = s; place = in_flight c })
          (record { state = note_failure s; place = idle })
  reset_count :
      (s : GripperState) (c : GripperCommand) (status : GripperStatus) (at : ℕ)
      → Step
          (record { state = s; place = in_flight c })
          (record { state = record s { consecutive_failures = 0 }; place = counted c status at })
  turn :
      (s : GripperState) (c : GripperCommand) (status : GripperStatus) (at : ℕ)
      → Step
          (record { state = s; place = counted c status at })
          (record {
            state = record s { connection_state = operational };
            place = turned c status at (is_faulted s.connection_state);
          })
  announce :
      (s : GripperState) (c : GripperCommand) (status : GripperStatus) (at : ℕ) (recovered : Bool)
      → Step
          (record { state = s; place = turned c status at recovered })
          (record {
            state = record s { image = publish c status at s.image };
            place = announced recovered;
          })
  log_recovery :
      (s : GripperState) (recovered : Bool)
      → Step
          (record { state = s; place = announced recovered })
          (record {
            state = record s { log = if recovered then link_recovered ∷ s.log else s.log };
            place = idle;
          })
  app_sets :
      (s : GripperState) (p : Place) (c : GripperCommand)
      → Step (record { state = s; place = p }) (record { state = set_state_command c s; place = p })
  app_stops :
      (s : GripperState) (p : Place)
      → Step (record { state = s; place = p }) (record { state = stop s; place = p })

pub data Reach (t : Threads) : Threads → Type 0 where
  here : Reach t t
  next : {u v : Threads} → Reach t u → Step u v → Reach t v

-- The command that the thread copied for a step's cycle, and the status that answered it, by the
-- steps themselves.
abbrev pub copied_by : {t u : Threads} → Step t u → Option GripperCommand → Option GripperCommand
copied_by (copy s) c = some s.image.next_command
copied_by (throw s d) c = c
copied_by (reset_count s d status at) c = c
copied_by (turn s d status at) c = c
copied_by (announce s d status at recovered) c = c
copied_by (log_recovery s recovered) c = c
copied_by (app_sets s p d) c = c
copied_by (app_stops s p) c = c

abbrev pub answered_by : {t u : Threads} → Step t u → Option GripperStatus → Option GripperStatus
answered_by (copy s) a = none
answered_by (throw s d) a = a
answered_by (reset_count s d status at) a = some status
answered_by (turn s d status at) a = a
answered_by (announce s d status at recovered) a = a
answered_by (log_recovery s recovered) a = a
answered_by (app_sets s p d) a = a
answered_by (app_stops s p) a = a

abbrev pub copied : {t u : Threads} → Reach t u → Option GripperCommand
copied here = none
copied (next r st) = copied_by st (copied r)

abbrev pub answer : {t u : Threads} → Reach t u → Option GripperStatus
answer here = none
answer (next r st) = answered_by st (answer r)

-- In a cycle the place holds the copied command and its answer, and between the turn of the state
-- and the end of the cycle the link reads operational.
abbrev pub Keeps : Place → GripperState → Option GripperCommand → Option GripperStatus → Type 0
Keeps idle s sent got = Unit {0}
Keeps (in_flight c) s sent got = sent ≡ some c
Keeps (counted c status at) s sent got = (sent ≡ some c) × (got ≡ some status)
Keeps (turned c status at recovered) s sent got =
    (sent ≡ some c) × (got ≡ some status) × (s.connection_state ≡ operational)
Keeps (announced recovered) s sent got = s.connection_state ≡ operational

set-Keeps :
    (p : Place) (s s' : GripperState) (sent : Option GripperCommand) (got : Option GripperStatus)
    → s'.connection_state ≡ s.connection_state
    → Keeps p s sent got
    → Keeps p s' sent got
set-Keeps idle s s' sent got e h = tt
set-Keeps (in_flight c) s s' sent got e h = h
set-Keeps (counted c status at) s s' sent got e h = h
set-Keeps (turned c status at recovered) s s' sent got e h = (h.0, h.1, e ∙ h.2)
set-Keeps (announced recovered) s s' sent got e h = e ∙ h

Step-Keeps :
    {t u : Threads} (st : Step t u) (sent : Option GripperCommand) (got : Option GripperStatus)
    → Keeps t.place t.state sent got
    → Keeps u.place u.state (copied_by st sent) (answered_by st got)
unfolding set_state_command stop
Step-Keeps (copy s) sent got h = refl
Step-Keeps (throw s c) sent got h = tt
Step-Keeps (reset_count s c status at) sent got h = (h, refl)
Step-Keeps (turn s c status at) sent got h = (h.0, h.1, refl)
Step-Keeps (announce s c status at recovered) sent got h = h.2
Step-Keeps (log_recovery s recovered) sent got h = tt
Step-Keeps (app_sets s p c) sent got h = set-Keeps p s (set_state_command c s) sent got refl h
Step-Keeps (app_stops s p) sent got h = set-Keeps p s (stop s) sent got refl h

Reach-Keeps :
    {t u : Threads} (r : Reach t u)
    → Keeps t.place t.state none none
    → Keeps u.place u.state (copied r) (answer r)
Reach-Keeps here h = h
Reach-Keeps (next r st) h = Step-Keeps st (copied r) (answer r) (Reach-Keeps r h)

-- A step keeps the record, or puts in the command that was copied with the status that answered it.
abbrev pub Announces : Threads → Option GripperCommand → Option GripperStatus → Type 0
Announces u sent got =
    (sent ≡ some u.state.image.stamped.command)
    × (got ≡ some u.state.image.stamped.status)
    × (u.state.connection_state ≡ operational)

Step-Announces :
    {t u : Threads} (st : Step t u) (sent : Option GripperCommand) (got : Option GripperStatus)
    → Keeps t.place t.state sent got
    → (u.state.image.stamped ≡ t.state.image.stamped) ⊎ Announces u sent got
unfolding set_state_command stop publish close note_failure
Step-Announces (copy s) sent got h = inl refl
Step-Announces (throw s c) sent got h = inl (ground arith)
Step-Announces (reset_count s c status at) sent got h = inl refl
Step-Announces (turn s c status at) sent got h = inl refl
Step-Announces (announce s c status at recovered) sent got h = inr h
Step-Announces (log_recovery s recovered) sent got h = inl refl
Step-Announces (app_sets s p c) sent got h = inl refl
Step-Announces (app_stops s p) sent got h = inl refl

-- From a state in which the thread is between cycles, in every interleaving of the exchange thread
-- with the application: a step that changes the record puts in the command that the thread copied
-- last before its exchange, whatever was set meanwhile, with the status that answered that
-- exchange, and the link reads operational by then, so that a waiter which the record wakes does
-- not find it faulted.
pub Reach-Announces :
    {t u v : Threads}
    → t.place ≡ idle
    → (r : Reach t u) → Step u v
    → (v.state.image.stamped ≡ u.state.image.stamped) ⊎ Announces v (copied r) (answer r)
Reach-Announces {t} e r st =
    Step-Announces st (copied r) (answer r)
      (Reach-Keeps r (subst (λ p. Keeps p t.state none none) (sym e) tt))

-- With no call of the application in between, the thread's accesses add up to exchangeOnce.
exchange_once-Reach :
    (o : Outcome) (s : GripperState)
    → Reach
        (record { state = s; place = idle })
        (record { state = (exchange_once o s).0; place = idle })
unfolding exchange_once
exchange_once-Reach (answered status at) s =
    next
      (next
        (next (next (next here (copy s)) (reset_count s s.image.next_command status at))
          (turn _ s.image.next_command status at))
        (announce _ s.image.next_command status at (is_faulted s.connection_state)))
      (log_recovery _ (is_faulted s.connection_state))
exchange_once-Reach failed s = next (next here (copy s)) (throw s s.image.next_command)
