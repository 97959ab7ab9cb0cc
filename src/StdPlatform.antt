-- ===== src/StdPlatform.antt =====
-- The hosted platform's waits: sdk_cpp/src/hosted/std_platform.cpp. What the clock, the
-- notification count and the Windows timer answer, look by look, is an argument.
pub mod Sleeps
use grippers.Prelude.{
  ◌≤◌, ◌⊎◌, arith, ◌≢◌, ◌<◌, true, false, ◌≡◌, inl, refl, inr, Bool-cases, ℕ, ◌-◌, Option, none,
  some, List, [], ◌∷◌, ◌+◌, ◌/◌, Bool, ltb, leb, ◌==◌, ◌&&◌, if◌then◌else◌,
}

-- StdPlatform::sleepUntil: one sleep_for for each reading of the clock before the time. The sleeps
-- that were asked for, and none while the readings run out.
unfoldable pub sleep_until : ℕ → List ℕ → Option (List ℕ)
sleep_until time_point [] = none
sleep_until time_point (now ∷ later) =
    let rest = sleep_until time_point later in
    let remaining = time_point - now in
    if leb remaining 0 then some [] else elim rest [ none ↦ none | some ss ↦ some (remaining ∷ ss) ]

-- WaitableTimer::sleepUntil, one round: the clock's reading, and whether the timer could be set and
-- waited for.
pub record TimerRound : Type 0 where
  pub now : ℕ
  pub waited : Bool

-- How it ends: the time has come, or the wait could not be armed, or it goes on where the rounds
-- run out.
pub data TimerEnd : Type 0 where
  reached not_armed goes_on : TimerEnd

-- The due time of a round, from now, in units of 100 ns.
unfoldable pub due_time : ℕ → ℕ
due_time remaining = remaining / 100 + 1

abbrev pub with_due : ℕ → TimerEnd × List ℕ → TimerEnd × List ℕ
with_due due (ended, dues) = (ended, due ∷ dues)

-- With the due times that the timer was set to.
unfoldable pub timer_rounds : ℕ → List TimerRound → TimerEnd × List ℕ
unfolding due_time
timer_rounds time_point [] = (goes_on, [])
timer_rounds time_point (round ∷ later) =
    let rest = timer_rounds time_point later in
    let remaining = time_point - round.now in
    if leb remaining 0
    then (reached, [])
    else if round.waited
    then with_due (due_time remaining) rest
    else (not_armed, due_time remaining ∷ [])

-- A thread without a timer falls back at once.
unfoldable pub timer_sleep : Bool → ℕ → List TimerRound → TimerEnd × List ℕ
unfolding timer_rounds
timer_sleep present time_point rounds =
    if present then timer_rounds time_point rounds else (not_armed, [])

-- StdPlatform::sleepUntil on Windows, past its timer: the sleeps of the fallback, if it is reached.
unfoldable pub after_timer : TimerEnd → ℕ → List ℕ → Option (List ℕ)
unfolding sleep_until
after_timer reached time_point readings = some []
after_timer not_armed time_point readings = sleep_until time_point readings
after_timer goes_on time_point readings = none

unfoldable pub sleep_on_windows : Bool → ℕ → List TimerRound → List ℕ → Option (List ℕ)
unfolding timer_sleep after_timer
sleep_on_windows present time_point rounds readings =
    after_timer (timer_sleep present time_point rounds).0 time_point readings

-- One look of StdConditionVariable::waitUntil at the count of notifications and at the clock.
pub record Look : Type 0 where
  pub generation : ℕ
  pub now : ℕ

-- The look that ended the wait, if one did.
unfoldable pub wait_until : ℕ → ℕ → List Look → Option Look
wait_until generation time_point [] = none
wait_until generation time_point (look ∷ later) =
    let rest = wait_until generation time_point later in
    if (look.generation == generation) && ltb look.now time_point then rest else some look

-- What a wait on the condition variable answers: at the look that ended it the count of
-- notifications had changed or the time had come, and no look before it had either; a wait that has
-- not ended saw neither at any look.
abbrev pub Still : ℕ → ℕ → Look → Type 0
Still generation time_point look = (look.generation ≡ generation) × (look.now < time_point)

abbrev pub WaitAnswer : ℕ → ℕ → List Look → Option Look → Type 0
WaitAnswer generation time_point [] none = Unit {0}
WaitAnswer generation time_point [] (some look) = ⊥
WaitAnswer generation time_point (l ∷ ls) none =
    Still generation time_point l × WaitAnswer generation time_point ls none
WaitAnswer generation time_point (l ∷ ls) (some look) =
    ((look ≡ l) × ((l.generation ≢ generation) ⊎ (time_point ≤ l.now)))
    ⊎ (Still generation time_point l × WaitAnswer generation time_point ls (some look))

wait_again :
    (generation time_point : ℕ) (l : Look) (ls : List Look) (r : Option Look)
    → Still generation time_point l
    → WaitAnswer generation time_point ls r
    → WaitAnswer generation time_point (l ∷ ls) r
wait_again generation time_point l ls none s a = (s, a)
wait_again generation time_point l ls (some look) s a = inr (s, a)

continues_Still :
    (generation time_point : ℕ) (l : Look)
    → ((l.generation == generation) && ltb l.now time_point) ≡ true
    → Still generation time_point l
continues_Still generation time_point l e = ground arith

ends_here :
    (generation time_point : ℕ) (l : Look)
    → ((l.generation == generation) && ltb l.now time_point) ≡ false
    → (l.generation ≢ generation) ⊎ (time_point ≤ l.now)
ends_here generation time_point l e = ground arith

-- A wait ends at the first look at which a notification has come since it began or its time has
-- come, and only there: a wake for no reason, or one that is too early, goes back to waiting.
pub wait_until-WaitAnswer :
    (generation time_point : ℕ) (looks : List Look)
    → WaitAnswer generation time_point looks (wait_until generation time_point looks)
unfolding wait_until
wait_until-WaitAnswer generation time_point [] = tt
wait_until-WaitAnswer generation time_point (l ∷ ls) =
    elim (Bool-cases ((l.generation == generation) && ltb l.now time_point)) [
      | inl e ↦ rw e (
          wait_again generation time_point l ls (wait_until generation time_point ls)
            (continues_Still generation time_point l e)
            (wait_until-WaitAnswer generation time_point ls))
      | inr e ↦ rw e (inl (refl, ends_here generation time_point l e))
    ]
