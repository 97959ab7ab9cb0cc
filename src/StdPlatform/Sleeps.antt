-- ===== src/StdPlatform/Sleeps.antt =====
-- Sleeps that end no earlier than their time.
use grippers.Prelude.{
  ℕ, ◌-◌, ◌*◌, ◌+◌, ◌≤◌, ◌<◌, ◌≡◌, refl, ◌⊎◌, inl, inr, Bool, true, false, Option, none, some, List,
  [], ◌∷◌, leb, arith, Bool-cases,
}
use grippers.StdPlatform.{
  sleep_until, TimerRound, TimerEnd, reached, not_armed, goes_on, due_time, timer_rounds,
  timer_sleep, after_timer, sleep_on_windows,
}

-- The sleeps asked for, one for each reading before the time, each of what was left; the last
-- reading is at the time or past it, unless the readings run out.
abbrev pub SleepAnswer : ℕ → List ℕ → Option (List ℕ) → Type 0
SleepAnswer time_point [] none = Unit {0}
SleepAnswer time_point [] (some ss) = ⊥
SleepAnswer time_point (now ∷ later) none = (now < time_point) × SleepAnswer time_point later none
SleepAnswer time_point (now ∷ later) (some []) = time_point ≤ now
SleepAnswer time_point (now ∷ later) (some (s ∷ ss)) =
    (now < time_point) × (s ≡ time_point - now) × SleepAnswer time_point later (some ss)

sleep_again :
    (time_point now : ℕ) (later : List ℕ) (r : Option (List ℕ))
    → now < time_point
    → SleepAnswer time_point later r
    → SleepAnswer time_point
        (now ∷ later)
        (elim r [ none ↦ none | some ss ↦ some ((time_point - now) ∷ ss) ])
sleep_again time_point now later none l a = (l, a)
sleep_again time_point now later (some ss) l a = (l, refl, a)

pub sleep_until-SleepAnswer :
    (time_point : ℕ) (readings : List ℕ)
    → SleepAnswer time_point readings (sleep_until time_point readings)
unfolding sleep_until
sleep_until-SleepAnswer time_point [] = tt
sleep_until-SleepAnswer time_point (now ∷ later) = elim (Bool-cases (leb (time_point - now) 0)) [
  | inl e ↦ rw e (ground (arith, e))
  | inr e ↦ rw e (
      sleep_again time_point now later (sleep_until time_point later) (ground (arith, e))
        (sleep_until-SleepAnswer time_point later))
]

-- The rounds of the timer: each set it past the time that was left, and the last read the time or
-- later, or could not be armed.
abbrev pub TimerAnswer : ℕ → List TimerRound → TimerEnd × List ℕ → Type 0
TimerAnswer time_point [] (goes_on, dues) = Unit {0}
TimerAnswer time_point [] (reached, dues) = ⊥
TimerAnswer time_point [] (not_armed, dues) = ⊥
TimerAnswer time_point (r ∷ later) (ended, []) = (ended ≡ reached) × (time_point ≤ r.now)
TimerAnswer time_point (r ∷ later) (ended, due ∷ dues) =
    (r.now < time_point)
    × (time_point < r.now + due * 100)
    × (((r.waited ≡ true) × TimerAnswer time_point later (ended, dues))
        ⊎ ((r.waited ≡ false) × (ended ≡ not_armed)))

timer_rounds-TimerAnswer :
    (time_point : ℕ) (rounds : List TimerRound)
    → TimerAnswer time_point rounds (timer_rounds time_point rounds)
unfolding timer_rounds due_time
timer_rounds-TimerAnswer time_point [] = tt
timer_rounds-TimerAnswer time_point (r ∷ later) = elim (Bool-cases (leb (time_point - r.now) 0)) [
  | inl e ↦ rw e (refl, ground (arith, e))
  | inr e ↦ elim (Bool-cases r.waited) [
    | inl w ↦
        rw (e, w)
          (
            ground (arith, e),
            ground (arith, e),
            inl (refl, timer_rounds-TimerAnswer time_point later),
          )
    | inr w ↦ rw (e, w) (ground (arith, e), ground (arith, e), inr (refl, refl))
  ]
]

-- What sleepUntil() does on Windows, by how its timer ended.
abbrev pub EndAnswer : TimerEnd → ℕ → List ℕ → Option (List ℕ) → Type 0
EndAnswer reached time_point readings r = r ≡ some []
EndAnswer not_armed time_point readings r = SleepAnswer time_point readings r
EndAnswer goes_on time_point readings r = r ≡ none

abbrev pub WindowsAnswer : Bool → ℕ → List TimerRound → List ℕ → Option (List ℕ) → Type 0
WindowsAnswer false time_point rounds readings r = SleepAnswer time_point readings r
WindowsAnswer true time_point rounds readings r =
    let timer = timer_sleep true time_point rounds in
    TimerAnswer time_point rounds timer × EndAnswer timer.0 time_point readings r

after_timer-EndAnswer :
    (ended : TimerEnd) (time_point : ℕ) (readings : List ℕ)
    → EndAnswer ended time_point readings (after_timer ended time_point readings)
unfolding after_timer
after_timer-EndAnswer reached time_point readings = refl
after_timer-EndAnswer not_armed time_point readings = sleep_until-SleepAnswer time_point readings
after_timer-EndAnswer goes_on time_point readings = refl

-- On Windows sleepUntil() returns only at a reading of the clock that is at its time or past it, by
-- its timer or by the sleeps that it falls back to where there is no timer or a wait could not be
-- armed; and every wait of the timer is set for longer than was left.
pub sleep_on_windows-WindowsAnswer :
    (present : Bool) (time_point : ℕ) (rounds : List TimerRound) (readings : List ℕ)
    → WindowsAnswer present time_point rounds readings
        (sleep_on_windows present time_point rounds readings)
unfolding sleep_on_windows timer_sleep after_timer
sleep_on_windows-WindowsAnswer false time_point rounds readings =
    sleep_until-SleepAnswer time_point readings
sleep_on_windows-WindowsAnswer true time_point rounds readings = (
  timer_rounds-TimerAnswer time_point rounds,
  after_timer-EndAnswer (timer_rounds time_point rounds).0 time_point readings,
)
