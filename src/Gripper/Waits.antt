-- ===== src/Gripper/Waits.antt =====
-- The waits end, and end with an exchange that they were asked for.
use grippers.Prelude.{
  [], ℕ, zero, suc, ◌+◌, ◌≤◌, ◌<◌, ◌≡◌, ap, ◌∙◌, inl, inr, Bool, true, Option, none, some, List,
  ◌∷◌, arith, ltb, if◌then◌else◌, Bool-cases,
}
use grippers.Byte.{u64}
use grippers.Command.{GripperCommand, command_eq, zero_command}
use grippers.Command.Bits.{command_eq_iff}
use grippers.ProcessImage.{StampedExchange}
use grippers.Gripper.{
  Handle, Waited, out_of_fuel, timed_out, seen, wait_for_exchange_count, judge, wait_round,
  wait_loop, wait_for_exchange_after, wait_for, set_command_and_wait_for_exchange,
}

-- The newest command of a history.
abbrev pub top : List GripperCommand → GripperCommand
top [] = zero_command
top (c ∷ cs) = c

-- What the procedures rely on of a handle. `sent` is the history of the commands in the image, the
-- newest first: waiting and reading set none, nor does another thread. `limit` is a count that no
-- exchange reaches, so that the 64-bit counter does not wrap.
pub record Laws {W : Type 0} (h : Handle W) : Type 0 where
  pub sent : W → List GripperCommand
  pub limit : ℕ
  pub limit_fits : limit < 18446744073709551616
  pub now_sent : (w : W) → sent (h.now w).1 ≡ sent w
  pub stamped_sent : (w : W) → sent (h.stamped_exchange w).1 ≡ sent w
  pub wait_sent :
      (desired deadline : ℕ) (w : W) → sent (h.wait_for_exchange desired deadline w).1 ≡ sent w
  pub command_top : (w : W) → (h.command w).0 ≡ top (sent w)
  pub command_sent : (w : W) → sent (h.command w).1 ≡ sent w
  pub set_sent : (c : GripperCommand) (w : W) → sent (h.set_command c w) ≡ c ∷ sent w
  pub stamped_below : (w : W) → (h.stamped_exchange w).0.exchange_count < limit
  pub wait_below :
      (desired deadline : ℕ) (w : W)
      → (h.wait_for_exchange desired deadline w).0.exchange_count < limit

-- A wait from `desired` on: it ended, with an exchange that the predicate holds for and that is
-- not older, or by its deadline.
abbrev pub WaitAnswer : (StampedExchange → Bool) → ℕ → ℕ → Waited → Type 0
WaitAnswer predicate desired limit out_of_fuel = ⊥
WaitAnswer predicate desired limit timed_out = Unit {0}
WaitAnswer predicate desired limit (seen e) =
    (predicate e ≡ true) × (desired ≤ e.exchange_count) × (e.exchange_count < limit)

WaitAnswer-weaken :
    (predicate : StampedExchange → Bool) (early late limit : ℕ) (r : Waited)
    → early ≤ late
    → WaitAnswer predicate late limit r
    → WaitAnswer predicate early limit r
WaitAnswer-weaken predicate early late limit out_of_fuel h a = a
WaitAnswer-weaken predicate early late limit timed_out h a = tt
WaitAnswer-weaken predicate early late limit (seen e) h a = (a.0, omega arith, a.2)

-- An exchange that was counted is not older than the count asked for.
abbrev pub CountAnswer : ℕ → ℕ → Option StampedExchange → Type 0
CountAnswer desired limit none = Unit {0}
CountAnswer desired limit (some e) = (desired ≤ e.exchange_count) × (e.exchange_count < limit)

counted :
    (desired limit : ℕ) (e : StampedExchange)
    → e.exchange_count < limit
    → CountAnswer desired limit (if ltb e.exchange_count desired then none else some e)
counted desired limit e below = elim (Bool-cases (ltb e.exchange_count desired)) [
  | inl old ↦ rw old tt
  | inr fresh ↦ rw fresh (ground arith, below)
]

module _ {W : Type 0} (h : Handle W) (l : Laws h) where
  open l use {sent, limit}

  wait_for_exchange_count-CountAnswer :
      (desired timeout : ℕ) (w : W)
      → CountAnswer desired limit (wait_for_exchange_count h desired timeout w).0
        × (sent (wait_for_exchange_count h desired timeout w).1 ≡ sent w)
  unfolding wait_for_exchange_count
  wait_for_exchange_count-CountAnswer desired timeout w =
      (counted desired limit _ (l.wait_below desired _ _), l.wait_sent desired _ _ ∙ l.now_sent w)

  wait_round-CountAnswer :
      (deadline desired : ℕ) (w : W)
      → CountAnswer desired limit (wait_round h deadline desired w).0
        × (sent (wait_round h deadline desired w).1 ≡ sent w)
  unfolding wait_round
  wait_round-CountAnswer deadline desired w =
      let (answer, same) = wait_for_exchange_count-CountAnswer desired _ (h.now w).1 in
      (answer, same ∙ l.now_sent w)

  abbrev pub LoopAnswer : (StampedExchange → Bool) → ℕ → List GripperCommand → Waited × W → Type 0
  LoopAnswer predicate desired before (r, w) =
      WaitAnswer predicate desired limit r × (sent w ≡ before)

  judge-LoopAnswer :
      (predicate : StampedExchange → Bool) (again : StampedExchange → W → Waited × W) (desired : ℕ)
      (before : List GripperCommand) (r : Option StampedExchange × W)
      → CountAnswer desired limit r.0 × (sent r.1 ≡ before)
      → ((e : StampedExchange) (w : W)
          → (desired ≤ e.exchange_count) × (e.exchange_count < limit)
          → sent w ≡ before
          → LoopAnswer predicate (e.exchange_count + 1) before (again e w))
      → LoopAnswer predicate desired before (judge predicate again r)
  unfolding judge
  judge-LoopAnswer predicate again desired before (none, w) (a, same) next = (tt, same)
  judge-LoopAnswer predicate again desired before (some e, w) (a, same) next =
      elim (Bool-cases (predicate e)) [
        | inl holds ↦ rw holds ((holds, a.0, a.1), same)
        | inr fails ↦
            let (later, same') = next e w a same in
            rw fails (
              WaitAnswer-weaken predicate desired (e.exchange_count + 1) limit _
                  (omega (arith, a.0)) later,
              same',
            )
      ]

  -- The loop waits for newer and newer exchanges, so as many rounds as there are counts left are
  -- enough: it ends, with an exchange that the predicate holds for or by its deadline, and sets no
  -- command.
  pub wait_loop-LoopAnswer :
      (fuel deadline : ℕ) (predicate : StampedExchange → Bool) (desired : ℕ)
      (before : List GripperCommand) (w : W)
      → sent w ≡ before
      → desired ≤ limit
      → limit < desired + fuel
      → LoopAnswer predicate desired before (wait_loop h fuel deadline predicate desired w)
  unfolding wait_loop
  wait_loop-LoopAnswer zero deadline predicate desired before w same d f = absurd (omega arith)
  wait_loop-LoopAnswer (suc fuel) deadline predicate desired before w same d f =
      let (answer, kept) = wait_round-CountAnswer deadline desired w in
      judge-LoopAnswer predicate _ desired before (wait_round h deadline desired w)
        (answer, kept ∙ same)
        λ e w1 a same1.
          let u : u64 (e.exchange_count + 1) ≡ e.exchange_count + 1 =
            omega (arith, a.1, l.limit_fits) in
          rw u (
            wait_loop-LoopAnswer fuel deadline predicate (e.exchange_count + 1) before w1 same1
              (omega (arith, a.1)) (omega (arith, a.0)))

  -- waitForExchangeAfter, over a handle that keeps its laws, after a count below the limit and with
  -- fuel for every count that there is: it ends, and what it returns is
  -- an exchange past the count given that the predicate holds for; it sets no command.
  pub wait_for_exchange_after-LoopAnswer :
      (fuel after_count : ℕ) (predicate : StampedExchange → Bool) (timeout : ℕ) (w : W)
      → after_count < limit
      → limit ≤ fuel
      → LoopAnswer predicate
          (after_count + 1)
          (sent w)
          (wait_for_exchange_after h fuel after_count predicate timeout w)
  unfolding wait_for_exchange_after
  wait_for_exchange_after-LoopAnswer fuel after_count predicate timeout w a f =
      let u : u64 (after_count + 1) ≡ after_count + 1 = omega (arith, l.limit_fits) in
      rw u (
        wait_loop-LoopAnswer fuel _ predicate (after_count + 1) (sent w) _ (l.now_sent w)
          (omega arith) (omega arith))

  pub wait_for-LoopAnswer :
      (fuel : ℕ) (predicate : StampedExchange → Bool) (timeout : ℕ) (w : W)
      → limit ≤ fuel
      → LoopAnswer predicate
          ((h.stamped_exchange w).0.exchange_count + 1)
          (sent w)
          (wait_for h fuel predicate timeout w)
  unfolding wait_for
  wait_for-LoopAnswer fuel predicate timeout w f =
      let (a, same) =
        wait_for_exchange_after-LoopAnswer fuel _ predicate timeout (h.stamped_exchange w).1
          (l.stamped_below w) f in
      (a, same ∙ l.stamped_sent w)

  -- The exchange that carried a command, newer than the one before the call; none by the deadline.
  abbrev pub Carried : GripperCommand → ℕ → Waited → Type 0
  Carried c before out_of_fuel = ⊥
  Carried c before timed_out = Unit {0}
  Carried c before (seen e) = (e.command ≡ c) × (before < e.exchange_count)

  carried :
      (c : GripperCommand) (before : ℕ) (r : Waited)
      → WaitAnswer (λ e. command_eq e.command c) (before + 1) limit r
      → Carried c before r
  carried c before out_of_fuel a = a
  carried c before timed_out a = tt
  carried c before (seen e) a = ((command_eq_iff e.command c).0 a.0, omega (arith, a.1))

  -- Over a handle that keeps its laws, and with fuel for every count that there is,
  -- setCommandAndWaitForExchange sets the command once, and ends: by its deadline, or with an
  -- exchange made after the call that wrote exactly that command.
  set_command_and_wait_for_exchange-Carried :
      (fuel : ℕ) (c : GripperCommand) (timeout : ℕ) (w : W)
      → limit ≤ fuel
      → (let (r, w') = set_command_and_wait_for_exchange h fuel c timeout w in
          Carried c (h.stamped_exchange w).0.exchange_count r × (sent w' ≡ c ∷ sent w))
  unfolding set_command_and_wait_for_exchange
  set_command_and_wait_for_exchange-Carried fuel c timeout w f =
      let w1 = (h.stamped_exchange w).1 in
      let (a, same) =
        wait_for_exchange_after-LoopAnswer fuel _ (λ e. command_eq e.command c) timeout
          (h.set_command c w1) (l.stamped_below w) f in
      (carried c _ _ a, same ∙ l.set_sent c w1 ∙ ap (λ s. c ∷ s) (l.stamped_sent w))
