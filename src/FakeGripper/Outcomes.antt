-- ===== src/FakeGripper/Outcomes.antt =====
-- What activate() and recoverFromFault() come to over the fake device.
use grippers.Prelude.{
  ℕ, suc, ◌+◌, ◌/◌, ◌≤◌, ◌<◌, ◌≡◌, refl, ◌∙◌, ◌⊎◌, inl, inr, Bool, true, false, Option, some, List,
  ◌∷◌, arith, Bool-cases, if◌then◌else◌, leb,
}
use mathlib.Core.Path.{sym}
use grippers.ActivationResult.{ActivationResult}
use grippers.Command.{GripperCommand, activate, get}
use grippers.Status.{ActivationState, complete, reset, activation_state}
use grippers.Fault.{gripper_fault, gripper_severity}
use grippers.RegisterModel.{RegisterModel}
use grippers.ModbusClient.{Nmbs}
use grippers.ModbusClient.Loopback.{Carries}
use grippers.Gripper.{
  longest, Waited, nanoseconds, is_major, activate_command, deactivate_command,
  handshake_if_allowed, recover_on, recover_from_fault, activate_on, activate_from, run_activate,
}
use grippers.FakeGripper.{Run, gripper}
use grippers.FakeGripper.Waiting.{Ready}
use grippers.FakeGripper.Rounds.{Arrives}
use grippers.FakeGripper.Activates.{
  Activated, wait_for_status-Arrives, run_activation_handshake-Activated,
}

-- The commands of the handshake, after those before it.
abbrev pub handshaken : Run → List GripperCommand
handshaken w =
    activate_command w.state.image.next_command
    ∷ deactivate_command w.state.image.next_command
    ∷ w.history

-- What activate() came to: a major fault is reported and nothing was set, or the gripper was
-- activated already, without a major fault, and nothing was set, or the handshake activated it.
abbrev pub Settles : Run → Option ActivationResult → Run → Type 0
Settles w a w' =
    ((a ≡ some ActivationResult.fault_latched)
      × (is_major (gripper_severity (gripper_fault w'.state.image.stamped.status.fault_status))
          ≡ true)
      × (w'.history ≡ w.history))
    ⊎ (((a ≡ some ActivationResult.already_active)
          × (activation_state w'.state.image.stamped.status.gripper_status ≡ complete)
          × (is_major (gripper_severity (gripper_fault w'.state.image.stamped.status.fault_status))
              ≡ false)
          × (w'.history ≡ w.history))
        ⊎ Activated (handshaken w) a w')

-- Half of the timeout is left while half of it has not passed.
half_left :
    (timeout start clock : ℕ)
    → clock < start + nanoseconds (timeout / 2)
    → leb (clock + nanoseconds (timeout / 2)) (start + nanoseconds timeout) ≡ true
half_left timeout start clock h = ground arith

module _ (n : Nmbs RegisterModel) (link : Carries n) (fuel timeout start : ℕ) where
  abbrev half : ℕ
  half = start + nanoseconds (timeout / 2)

  abbrev whole : ℕ
  whole = start + nanoseconds timeout

  half-le : half ≤ whole
  half-le = omega arith

  handshake_if_allowed-Activated :
      (w : Run)
      → Ready half 8 w
      → (let (a, w') = handshake_if_allowed (gripper n) (suc (suc fuel)) whole timeout w in
          Activated (handshaken w) a w')
  unfolding handshake_if_allowed
  handshake_if_allowed-Activated w r =
      rw (half_left timeout start w.clock r.early)
        (run_activation_handshake-Activated n link half fuel 0 whole w r half-le)

  -- The first wait of both procedures: any exchange will do.
  recover_on-Activated :
      (w : Run) (r : Waited × Run)
      → Arrives half 8 (λ e. true) w r
      → (let (a, w') = recover_on (gripper n) (suc (suc fuel)) whole timeout r in
          Activated (handshaken w) a w')
  recover_on-Activated w (r, w1) (s, met, x) =
      rw (s, sym x.same_next, sym x.same_history) (handshake_if_allowed-Activated w1 x.ready)

  activate_from-Settles :
      (state : ActivationState) (act : Bool) (w w1 : Run)
      → state ≡ (if act then complete else reset)
      → activation_state w1.state.image.stamped.status.gripper_status ≡ state
      → is_major (gripper_severity (gripper_fault w1.state.image.stamped.status.fault_status))
        ≡ false
      → w1.state.image.next_command ≡ w.state.image.next_command
      → w1.history ≡ w.history
      → Ready half 8 w1
      → (let (a, w') = activate_from (gripper n) state (suc (suc fuel)) whole timeout w1 in
          Settles w a w')
  unfolding activate_from
  activate_from-Settles state true w w1 e shown clear next history r =
      rw e (inr (inl (refl, shown ∙ e, clear, history)))
  activate_from-Settles state false w w1 e shown clear next history r =
      rw e (inr (inr (rw (sym next, sym history) (handshake_if_allowed-Activated w1 r))))

  activate_on-Settles :
      (w : Run) (r : Waited × Run)
      → Arrives half 8 (λ e. true) w r
      → (let (a, w') = activate_on (gripper n) (suc (suc fuel)) whole timeout r in Settles w a w')
  unfolding activate_on
  activate_on-Settles w (r, w1) (s, met, x) =
      let e = w1.state.image.stamped in
      elim (Bool-cases (is_major (gripper_severity (gripper_fault e.status.fault_status)))) [
        | inl latched ↦ rw (s, latched) (inl (refl, latched, x.same_history))
        | inr clear ↦
            rw (s, clear)
              (activate_from-Settles (activation_state e.status.gripper_status)
                (get e.command.action activate) w w1 x.shows.has_state refl clear x.same_next
                x.same_history x.ready)
      ]

-- Over a link that carries requests, with commands of bytes and a timeout of at most 4611686018427
-- ms: when the thread's next twelve steps come in the first half of the timeout, activate() on the
-- fake gripper never times out. It reports a major fault that is latched, or finds the gripper
-- activated, and sets nothing in both cases; or its two commands leave the gripper activated,
-- complete and without a fault.
pub run_activate-Settles :
    (n : Nmbs RegisterModel)
    → Carries n
    → (fuel timeout : ℕ) (w : Run) → timeout ≤ longest
    → Ready (w.clock + nanoseconds (timeout / 2)) 12 w
    → (let (a, w') = run_activate (gripper n) (suc (suc fuel)) timeout w in Settles w a w')
unfolding run_activate
run_activate-Settles n link fuel timeout w small r =
    let fits : leb timeout longest ≡ true = ground arith in
    rw fits (
      activate_on-Settles n link fuel timeout w.clock w _ (
        wait_for_status-Arrives n link _ fuel 8 _ (λ s. true) w r
          (half-le n link fuel timeout w.clock) λ s shows. refl))

-- Over a link that carries requests, with commands of bytes and a timeout of at most 4611686018427
-- ms: when the thread's next twelve steps come in the first half of the timeout, recoverFromFault()
-- on the fake gripper succeeds whatever fault is latched: its two commands leave the gripper
-- activated, complete and without a fault.
pub recover_from_fault-Activated :
    (n : Nmbs RegisterModel)
    → Carries n
    → (fuel timeout : ℕ) (w : Run) → timeout ≤ longest
    → Ready (w.clock + nanoseconds (timeout / 2)) 12 w
    → (let (a, w') = recover_from_fault (gripper n) (suc (suc fuel)) timeout w in
        Activated (handshaken w) a w')
unfolding recover_from_fault
recover_from_fault-Activated n link fuel timeout w small r =
    let fits : leb timeout longest ≡ true = ground arith in
    rw fits (
      recover_on-Activated n link fuel timeout w.clock w _ (
        wait_for_status-Arrives n link _ fuel 8 _ (λ s. true) w r
          (half-le n link fuel timeout w.clock) λ s shows. refl))
