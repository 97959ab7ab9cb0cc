-- ===== src/Throttle.antt =====
-- sdk_cpp/include/Robotiq/detail/throttle.hpp. The clock counts from its epoch and does not run
-- backwards, so `now - last` does not pass below 0.
use grippers.Prelude.{ℕ, ◌+◌, ◌-◌, ◌≤◌, Bool, true, false, List, [], ◌∷◌, ltb, if◌then◌else◌, arith}

pub record Throttle : Type 0 where
  pub period : ℕ
  pub last : ℕ

-- executeIfAllowed: does the callable run, and the throttle afterwards.
unfoldable pub execute_if_allowed : ℕ → Throttle → Bool × Throttle
execute_if_allowed now t =
    if ltb (now - t.last) t.period then (false, t) else (true, record t { last = now })

-- The times of a series of calls at which the callable ran.
abbrev pub executed : Throttle → List ℕ → List ℕ
executed t [] = []
executed t (now ∷ later) =
    let (ran, t') = execute_if_allowed now t in
    let rest = executed t' later in if ran then now ∷ rest else rest

-- Each time is a period or more after the one before it.
abbrev pub Spaced : ℕ → ℕ → List ℕ → Type 0
Spaced period last [] = Unit {0}
Spaced period last (now ∷ later) = (last + period ≤ now) × Spaced period now later

-- Times that do not run backwards.
abbrev pub Ascending : ℕ → List ℕ → Type 0
Ascending last [] = Unit {0}
Ascending last (now ∷ later) = (last ≤ now) × Ascending now later

Ascending-weaken : (a b : ℕ) (ts : List ℕ) → a ≤ b → Ascending b ts → Ascending a ts
Ascending-weaken a b [] h asc = tt
Ascending-weaken a b (t ∷ ts) h asc = (omega arith, asc.1)

-- Whatever the rate of the calls, at times that do not run backwards, the callable runs at most
-- once a period.
pub executed-Spaced :
    (t : Throttle) (seen : ℕ) (calls : List ℕ)
    → t.last ≤ seen
    → Ascending seen calls
    → Spaced t.period t.last (executed t calls)
unfolding execute_if_allowed
executed-Spaced t seen [] h asc = tt
executed-Spaced t seen (now ∷ later) h asc =
    ground (arith, executed-Spaced t now later, executed-Spaced (record t { last = now }) now later)
