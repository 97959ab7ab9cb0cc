-- ===== src/GripperState/Failures.antt =====
-- How the connection state follows the exchanges, and how the loop is paced.
use grippers.Prelude.{
  ℕ, zero, suc, ◌+◌, ◌≤◌, ◌≡◌, refl, false, List, [], ◌∷◌, arith, leb, if◌then◌else◌, ◌⊎◌,
}
use grippers.Byte.{u32}
use grippers.GripperState.{
  max, run_rounds, log_failure, cycle, GripperState, operational, faulted, is_faulted,
  exchange_once, Outcome, answered, failed, LogLine, link_faulted, link_recovered, cycle_failed,
  initial_read_failed, Round,
}
use grippers.Status.{GripperStatus}

-- The state after `k` exchanges in a row that failed.
abbrev pub failures : ℕ → GripperState → GripperState
failures zero s = s
failures (suc k) s = (exchange_once failed (failures k s)).0

-- How often the log announces a faulted link.
abbrev pub fault_lines : List LogLine → ℕ
fault_lines [] = 0
fault_lines (link_faulted ∷ ls) = suc (fault_lines ls)
fault_lines (link_recovered ∷ ls) = fault_lines ls
fault_lines (cycle_failed ∷ ls) = fault_lines ls
fault_lines (initial_read_failed n ∷ ls) = fault_lines ls

-- The counter wraps, and the state does not depend on that: it turns once and stays.
pub record Degraded (s t : GripperState) (k : ℕ) : Type 0 where
  pub state_turned : t.connection_state ≡ (if leb 3 k then faulted else operational)
  pub counted : t.consecutive_failures ≡ u32 k
  pub told_once :
      fault_lines t.log ≡ (if leb 3 k then suc (fault_lines s.log) else fault_lines s.log)
  pub image_kept : t.image ≡ s.image

-- From an operational link with no failures counted, `k` failed exchanges in a row make it faulted
-- exactly when `k` is at least 3, for any `k`, past the counter's 32 bits too; the fault is logged
-- once, and the process image stays as it was.
pub failures-Degraded :
    (k : ℕ) (s : GripperState)
    → s.connection_state ≡ operational
    → s.consecutive_failures ≡ 0
    → Degraded s (failures k s) k
unfolding exchange_once
failures-Degraded zero s h z = record {
  state_turned = h;
  counted = z;
  told_once = refl;
  image_kept = refl;
}
failures-Degraded (suc k) s h z = ground (arith, failures-Degraded k s h z)

-- One successful exchange, in whatever state: the link is operational, no failure is counted, the
-- record pairs the command that was set with the status read back, and a recovery is announced
-- exactly when the link was faulted.
pub exchange_once-answered :
    (status : GripperStatus) (at : ℕ) (s : GripperState)
    → (let (t, threw) = exchange_once (answered status at) s in
        (threw ≡ false)
        × (t.connection_state ≡ operational)
        × (t.consecutive_failures ≡ 0)
        × (t.image.stamped.command ≡ s.image.next_command)
        × (t.image.stamped.status ≡ status)
        × (t.log ≡ (if is_faulted s.connection_state then link_recovered ∷ s.log else s.log)))
unfolding exchange_once
exchange_once-answered status at s = (refl, refl, refl, refl, refl, refl)

-- The sleeps of the loop: each is a period or more after the one before, and not in the past; one
-- that was reached in time is exactly a period after it.
abbrev pub Paced : ℕ → ℕ → List Round → List ℕ → Type 0
Paced period before [] [] = Unit {0}
Paced period before [] (at ∷ ats) = ⊥
Paced period before (r ∷ rs) [] = ⊥
Paced period before (r ∷ rs) (at ∷ ats) =
    (before + period ≤ at)
    × (r.now ≤ at)
    × ((at ≡ before + period) ⊎ (at ≡ r.now))
    × Paced period at rs ats

period-exchange_once : (o : Outcome) (s : GripperState) → (exchange_once o s).0.period ≡ s.period
unfolding exchange_once
period-exchange_once (answered status at) s = refl
period-exchange_once failed s = ground arith

period-log_failure : (now : ℕ) (s : GripperState) → (log_failure now s).period ≡ s.period
unfolding log_failure
period-log_failure now s = refl

period-cycle :
    (o : Outcome) (next log_now now : ℕ) (s : GripperState)
    → (cycle o next log_now now s).0.period ≡ s.period
unfolding cycle
period-cycle o next log_now now s =
    ground (arith, period-exchange_once o s, period-log_failure log_now (exchange_once o s).0)

at-cycle :
    (o : Outcome) (next log_now now : ℕ) (s : GripperState)
    → (cycle o next log_now now s).1 ≡ max (next + s.period) now
unfolding cycle
at-cycle o next log_now now s = refl

-- Whatever the exchanges come to and however late they end, the loop never bunches its cycles up:
-- it sleeps until a period or more after the time before, never until a time that has passed, and
-- until exactly a period after where the cycle did not overrun.
pub run_rounds-Paced :
    (rs : List Round) (next : ℕ) (s : GripperState)
    → Paced s.period next rs (run_rounds rs next s).1
unfolding run_rounds
run_rounds-Paced [] next s = tt
run_rounds-Paced (r ∷ rs) next s =
    let (s', at) = cycle r.outcome next r.log_now r.now s in
    let e : at ≡ max (next + s.period) r.now = at-cycle r.outcome next r.log_now r.now s in
    let p : s'.period ≡ s.period = period-cycle r.outcome next r.log_now r.now s in
    (
      omega (arith, e),
      omega (arith, e),
      overrun next s.period r.now at e,
      rw p at (run_rounds-Paced rs at s'),
    )
  where
    overrun :
        (next period now at : ℕ) → at ≡ max (next + period) now → (at ≡ next + period) ⊎ (at ≡ now)
    overrun next period now at e = ground arith
