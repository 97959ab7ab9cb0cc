-- ===== src/FakeGripper/Steady.antt =====
-- Schedules whose instants keep coming, and the steps that fit before a time.
use grippers.Prelude.{ℕ, zero, suc, ◌+◌, ◌≤◌, ◌<◌, ◌⊎◌, inl, inr, max, List, [], ◌∷◌, arith}
use grippers.FakeGripper.Waiting.{Before}

-- The longest time between two steps of a thread that is well: 200 ms.
abbrev pub gap : ℕ
gap = 200000000

-- From `at` on, until a time, the next instant is never more than a gap away.
abbrev pub Steady : ℕ → ℕ → List ℕ → Type 0
Steady until at [] = until ≤ at
Steady until at (t ∷ ts) = (until ≤ at) ⊎ ((t ≤ at + gap) × Steady until (max at t) ts)

Steady-past : (until at : ℕ) (ts : List ℕ) → until ≤ at → Steady until at ts
Steady-past until at [] h = h
Steady-past until at (t ∷ ts) h = inl h

pub Steady-later :
    (until at later : ℕ) (ts : List ℕ) → at ≤ later → Steady until at ts → Steady until later ts
Steady-later until at later [] h s = omega (arith, s)
Steady-later until at later (t ∷ ts) h (inl past) = inl (omega arith)
Steady-later until at later (t ∷ ts) h (inr (near, s)) =
    inr (omega arith, Steady-later until (max at t) (max later t) ts (omega arith) s)

pub Steady-tail :
    (until at t : ℕ) (ts : List ℕ) → Steady until at (t ∷ ts) → Steady until (max at t) ts
Steady-tail until at t ts (inl past) = Steady-past until (max at t) ts (omega arith)
Steady-tail until at t ts (inr (near, s)) = s

-- The time that `k` steps take at most.
abbrev pub reach : ℕ → ℕ → ℕ
reach zero at = at
reach (suc k) at = reach k (at + gap)

pub reach-le : (k at : ℕ) → at ≤ reach k at
reach-le zero at = omega arith
reach-le (suc k) at = omega (arith, reach-le k (at + gap))

pub Steady-Before :
    (k until at time : ℕ) (ts : List ℕ)
    → Steady until at ts
    → reach k at < time
    → time ≤ until
    → Before k time ts
Steady-Before zero until at time ts s h late = tt
Steady-Before (suc k) until at time [] s h late = absurd (omega (arith, s, reach-le k (at + gap)))
Steady-Before (suc k) until at time (t ∷ ts) (inl past) h late =
    absurd (omega (arith, reach-le k (at + gap)))
Steady-Before (suc k) until at time (t ∷ ts) (inr (near, s)) h late = (
  omega (arith, reach-le k (at + gap)),
  Steady-Before k until (at + gap) time ts
      (Steady-later until (max at t) (at + gap) ts (omega arith) s) h late,
)
