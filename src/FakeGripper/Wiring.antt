-- ===== src/FakeGripper/Wiring.antt =====
-- What a wait over the fake device keeps when each step of the thread keeps it: the use of the
-- schedule, and the command that the exchanges carry.
use grippers.Prelude.{
  ℕ, ◌+◌, ◌≤◌, ◌<◌, ◌≡◌, ◌∙◌, inl, inr, true, Option, none, some, List, [], ◌∷◌, length, arith,
  Bool-cases, ltb,
}
use grippers.Command.{GripperCommand}
use grippers.RegisterModel.{RegisterModel}
use grippers.ModbusClient.{Nmbs}
use grippers.FakeGripper.{System, waits, step, wait_on}
use grippers.FakeGripper.Lawful.{step-Kept}
use grippers.FakeGripper.Waiting.{on_wire}

-- Each exchange from here on carries this command, the newest one set.
pub record Wired (c : GripperCommand) (sent : List GripperCommand) (s : System) : Type 0 where
  pub history_is : s.history ≡ c ∷ sent
  pub next_is : s.state.image.next_command ≡ c
  pub wire_is : on_wire s.in_flight s.state.image.next_command ≡ c

waits-early :
    (desired deadline : ℕ) (s : System) → waits desired deadline s ≡ true → s.clock < deadline
unfolding waits
waits-early desired deadline s e = ground arith

module _ (n : Nmbs RegisterModel) where
  -- What each step of the thread before the deadline keeps, and the passing of time to the
  -- deadline, a wait keeps.
  pub wait_on-keeps :
      (P : System → List ℕ → Type 0) (desired deadline : ℕ)
      → ((t : ℕ) (ts : List ℕ) (s : System)
          → t < deadline
          → s.clock < deadline
          → P s (t ∷ ts)
          → P (step n t s) ts)
      → ((ts : List ℕ) (s : System)
          → s.clock < deadline
          → P s ts
          → P (record s { clock = deadline }) ts)
      → (ts : List ℕ) (s : System) → P s ts
      → (let w = wait_on n desired deadline ts s in P w.system w.schedule)
  unfolding wait_on
  wait_on-keeps P desired deadline stepping pausing [] s p =
      elim (Bool-cases (waits desired deadline s)) [
        | inl on ↦ rw on (pausing [] s (waits-early desired deadline s on) p)
        | inr off ↦ rw off p
      ]
  wait_on-keeps P desired deadline stepping pausing (t ∷ ts) s p =
      elim (Bool-cases (waits desired deadline s)) [
        | inl on ↦
            let early = waits-early desired deadline s on in
            elim (Bool-cases (ltb t deadline)) [
              | inl soon ↦
                  rw (on, soon)
                    (wait_on-keeps P desired deadline stepping pausing ts (step n t s)
                      (stepping t ts s (ground arith) early p))
              | inr late ↦ rw (on, late) (pausing (t ∷ ts) s early p)
            ]
        | inr off ↦ rw off p
      ]

  -- A wait uses up the schedule as it counts.
  pub wait_on-uses :
      (desired deadline : ℕ) (ts : List ℕ) (s : System)
      → (let w = wait_on n desired deadline ts s in
          (w.state.image.stamped.exchange_count + length w.schedule
            ≤ s.state.image.stamped.exchange_count + length ts)
          × (length w.schedule ≤ length ts))
  wait_on-uses desired deadline ts s =
      wait_on-keeps
        (λ s' left.
          (s'.state.image.stamped.exchange_count + length left
            ≤ s.state.image.stamped.exchange_count + length ts)
          × (length left ≤ length ts))
        desired deadline
        (λ t left s' soon early p.
          (omega (arith, (step-Kept n t s').counted, p.0), omega (arith, p.1)))
        (λ left s' early p. p) ts s (omega arith, omega arith)

  step_from-Wired :
      (c : GripperCommand) (h : List GripperCommand) (f : Option GripperCommand) (t : ℕ)
      (s : System)
      → Wired c h (record s { in_flight = f })
      → Wired c h (step n t (record s { in_flight = f }))
  unfolding step
  step_from-Wired c h none t s w = record {
    history_is = w.history_is;
    next_is = w.next_is;
    wire_is = w.next_is;
  }
  step_from-Wired c h (some sent) t s w =
      let kept = step-Kept n t (record s { in_flight = some sent }) in
      let next : (step n t (record s { in_flight = some sent })).state.image.next_command ≡ c =
        kept.same_next ∙ w.next_is in
      record { history_is = kept.same_history ∙ w.history_is; next_is = next; wire_is = next }

  pub wait_on-Wired :
      (c : GripperCommand) (h : List GripperCommand) (desired deadline : ℕ) (ts : List ℕ)
      (s : System)
      → Wired c h s
      → Wired c h (wait_on n desired deadline ts s).system
  wait_on-Wired c h desired deadline ts s w =
      wait_on-keeps (λ s' left. Wired c h s') desired deadline
        (λ t left s' soon early p. step_from-Wired c h s'.in_flight t s' p)
        (λ left s' early p. record {
          history_is = p.history_is;
          next_is = p.next_is;
          wire_is = p.wire_is;
        })
        ts s w
