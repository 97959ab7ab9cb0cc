-- ===== src/Gripper/Handshakes.antt =====
-- The reset handshake of the activation procedures: its commands, its waits and its two ends.
use grippers.Prelude.{
  ℕ, ◌≤◌, ◌≡◌, refl, ap, ◌∙◌, ◌⊎◌, inl, inr, Bool, true, false, Option, none, some, List, ◌∷◌,
  arith, if◌then◌else◌, Bool-cases, ◌==◌,
}
use grippers.Byte.{IsByte}
use grippers.Command.{ActionRequestBit, GripperCommand, activate, go_to, bit_index, get, set_to}
use grippers.Command.Bits.{get-set_to, set_to-IsByte}
use grippers.Status.{
  ActivationState, reset, in_progress, reserved, complete, activation_state, activated,
}
use grippers.ActivationResult.{ActivationResult}
use grippers.Gripper.{
  not, is_complete, StampedExchange, GripperStatus, Handle, Waited, out_of_fuel, timed_out, seen,
  activation_result, activate_command, deactivate_command, wait_for_status,
  wait_for_activation_complete, is_activation_handshake_allowed, finish_handshake,
  run_activation_handshake, handshake_if_allowed,
}
use grippers.Gripper.Waits.{Laws, top, LoopAnswer, wait_for-LoopAnswer}

-- From a command whose action is a byte, the two commands of the handshake move nothing and differ
-- from the command before in rACT and rGTO alone: both clear rGTO, the first clears rACT and the
-- second sets it; the other bits, the position, the speed and the force stay as they were.
pub handshake_commands :
    (previous : GripperCommand) (bit : ActionRequestBit)
    → IsByte previous.action.value
    → (let kept = if bit_index go_to == bit_index bit then false else get previous.action bit in
        let up = activate_command previous in
        let down = deactivate_command previous in
        (get up.action bit ≡ (if bit_index activate == bit_index bit then true else kept))
        × (get down.action bit ≡ (if bit_index activate == bit_index bit then false else kept))
        × (up ≡ record previous { action = up.action })
        × (down ≡ record previous { action = down.action }))
unfolding activate_command deactivate_command
handshake_commands previous bit hb =
    let one = set_to previous.action go_to false in
    let b1 = set_to-IsByte previous.action go_to false in
    let b2 = set_to-IsByte one activate true in
    let kept = get-set_to previous.action go_to bit false hb in
    (
      ground (arith, get-set_to one activate bit true b1, kept),
      ground (
        arith,
        get-set_to (set_to one activate true) activate bit false b2,
        get-set_to one activate bit true b1,
        kept,
      ),
      refl,
      refl,
    )

-- The histories that a handshake may leave, from the history before it.
abbrev pub Lowered : List GripperCommand → List GripperCommand → Type 0
Lowered before sent = sent ≡ deactivate_command (top before) ∷ before

abbrev pub Handshaken : List GripperCommand → List GripperCommand → Type 0
Handshaken before sent =
    sent ≡ activate_command (top before) ∷ deactivate_command (top before) ∷ before

abbrev pub Restored : List GripperCommand → List GripperCommand → Type 0
Restored before sent = sent ≡ top before ∷ deactivate_command (top before) ∷ before

module _ {W : Type 0} (h : Handle W) (l : Laws h) (fuel : ℕ) (enough : l.limit ≤ fuel) where
  open l use {sent}

  -- The wait for the activation, from a world on, by what it comes to: an exchange whose status is
  -- complete, or its deadline.
  abbrev pub Completes : ℕ → W → ActivationResult → W → Type 0
  Completes deadline w ActivationResult.already_active w' = ⊥
  Completes deadline w ActivationResult.fault_latched w' = ⊥
  Completes deadline w ActivationResult.activated w' =
      (e : StampedExchange) × (wait_for_status h fuel
          (λ s. is_complete (activation_state s.gripper_status)) deadline w
        ≡ (seen e, w'))
      × (activation_state e.status.gripper_status ≡ complete)
  Completes deadline w ActivationResult.timeout w' =
      wait_for_status h fuel (λ s. is_complete (activation_state s.gripper_status)) deadline w
      ≡ (timed_out, w')

  -- An exchange showed the reset; rACT was raised, and the wait for the activation came to the
  -- result.
  pub record Raises (deadline : ℕ) (before : List GripperCommand) (lowered : W)
      (a : ActivationResult) (w' : W) : Type 0 where
    pub shown : StampedExchange
    pub shown_in : W
    pub reset_seen :
        wait_for_status h fuel (λ s. not (activated s.gripper_status)) deadline lowered
        ≡ (seen shown, shown_in)
    pub is_reset : activated shown.status.gripper_status ≡ false
    pub raised_in : W
    pub raised : Handshaken before (sent raised_in)
    pub completes : Completes deadline raised_in a w'
    pub no_more : Handshaken before (sent w')

  -- No exchange showed the reset in time; the command from before was put back.
  pub record Restores (deadline : ℕ) (before : List GripperCommand) (lowered : W)
      (a : ActivationResult) (w' : W) : Type 0 where
    pub shown_in : W
    pub reset_missed :
        wait_for_status h fuel (λ s. not (activated s.gripper_status)) deadline lowered
        ≡ (timed_out, shown_in)
    pub times_out : a ≡ ActivationResult.timeout
    pub restored : Restored before (sent w')

  -- A handshake: the command with rACT clear was set, and then one of the two.
  pub record Handshake (deadline : ℕ) (before : List GripperCommand) (a : ActivationResult) (w' : W)
      : Type 0 where
    pub lowered_in : W
    pub lowered : Lowered before (sent lowered_in)
    pub ends : Raises deadline before lowered_in a w' ⊎ Restores deadline before lowered_in a w'

  -- Too late for a handshake, or a handshake.
  abbrev pub Recovery : ℕ → List GripperCommand → ActivationResult → W → Type 0
  Recovery deadline before a w' =
      ((a ≡ ActivationResult.timeout) × (sent w' ≡ before)) ⊎ Handshake deadline before a w'

  -- A result, and what is known of it.
  abbrev pub Came : (ActivationResult → W → Type 0) → Option ActivationResult × W → Type 0
  Came P (none, w) = ⊥
  Came P (some a, w) = P a w

  pub some_result :
      (P : ActivationResult → W → Type 0) (r : Option ActivationResult) (w : W)
      → Came P (r, w)
      → (a : ActivationResult) × (r ≡ some a) × P a w
  some_result P none w q = elim q [ ]
  some_result P (some a) w q = (a, refl, q)

  -- A wait that ended and set nothing, with an exchange that the predicate holds for.
  abbrev pub Quiet : (GripperStatus → Bool) → List GripperCommand → Waited × W → Type 0
  Quiet p before (out_of_fuel, w) = ⊥
  Quiet p before (timed_out, w) = sent w ≡ before
  Quiet p before (seen e, w) = (p e.status ≡ true) × (sent w ≡ before)

  LoopAnswer-Quiet :
      (p : GripperStatus → Bool) (d : ℕ) (before before1 : List GripperCommand) (r : Waited × W)
      → LoopAnswer h l (λ e. p e.status) d before1 r
      → before1 ≡ before
      → Quiet p before r
  LoopAnswer-Quiet p d before before1 (out_of_fuel, w) (a, s) e = a
  LoopAnswer-Quiet p d before before1 (timed_out, w) (a, s) e = s ∙ e
  LoopAnswer-Quiet p d before before1 (seen x, w) (a, s) e = (a.0, s ∙ e)

  pub wait_for_status-Quiet :
      (p : GripperStatus → Bool) (deadline : ℕ) (before : List GripperCommand) (w : W)
      → sent w ≡ before
      → Quiet p before (wait_for_status h fuel p deadline w)
  unfolding wait_for_status
  wait_for_status-Quiet p deadline before w same =
      let (n, w1) = h.now w in
      LoopAnswer-Quiet p _ before (sent w1) _ (wait_for-LoopAnswer h l fuel _ _ w1 enough)
        (l.now_sent w ∙ same)

  is_complete-complete : (s : ActivationState) → is_complete s ≡ true → s ≡ complete
  is_complete-complete complete e = refl
  is_complete-complete reset e = absurd (ground (arith, e))
  is_complete-complete in_progress e = absurd (ground (arith, e))
  is_complete-complete reserved e = absurd (ground (arith, e))

  completed :
      (deadline : ℕ) (w : W) (r : Waited × W)
      → wait_for_status h fuel (λ s. is_complete (activation_state s.gripper_status)) deadline w ≡ r
      → Quiet (λ s. is_complete (activation_state s.gripper_status)) (sent w) r
      → Came (λ a w'. Completes deadline w a w' × (sent w' ≡ sent w)) (activation_result r)
  completed deadline w (out_of_fuel, w') e q = q
  completed deadline w (timed_out, w') e q = (e, q)
  completed deadline w (seen x, w') e (p, q) =
      ((x, e, is_complete-complete (activation_state x.status.gripper_status) p), q)

  pub wait_for_activation_complete-Completes :
      (deadline : ℕ) (w : W)
      → Came
          (λ a w'. Completes deadline w a w' × (sent w' ≡ sent w))
          (wait_for_activation_complete h fuel deadline w)
  unfolding wait_for_activation_complete
  wait_for_activation_complete-Completes deadline w =
      completed deadline w _ refl (wait_for_status-Quiet _ deadline (sent w) w refl)

  pub Came-map :
      (P Q : ActivationResult → W → Type 0)
      → ((a : ActivationResult) (w : W) → P a w → Q a w)
      → (r : Option ActivationResult × W) → Came P r
      → Came Q r
  Came-map P Q f (none, w) q = q
  Came-map P Q f (some a, w) q = f a w q

  finish_handshake-Handshake :
      (deadline : ℕ) (before : List GripperCommand) (previous : GripperCommand) (lowered : W)
      (r : Waited × W)
      → previous ≡ top before
      → Lowered before (sent lowered)
      → wait_for_status h fuel (λ s. not (activated s.gripper_status)) deadline lowered ≡ r
      → Quiet (λ s. not (activated s.gripper_status)) (sent lowered) r
      → Came (Handshake deadline before) (finish_handshake h fuel deadline previous r)
  unfolding finish_handshake
  finish_handshake-Handshake deadline before previous lowered (out_of_fuel, w) e down was q = q
  finish_handshake-Handshake deadline before previous lowered (timed_out, w) e down was q = record {
    lowered_in = lowered;
    lowered = down;
    ends = inr (record {
      shown_in = w;
      reset_missed = was;
      times_out = refl;
      restored = l.set_sent previous w ∙ cc;
    });
  }
  finish_handshake-Handshake deadline before previous lowered (seen x, w) e down was (p, q) =
      let raised = h.set_command (activate_command previous) w in
      let up : Handshaken before (sent raised) = l.set_sent (activate_command previous) w ∙ cc in
      Came-map (λ a w'. Completes deadline raised a w' × (sent w' ≡ sent raised))
        (Handshake deadline before)
        (λ a w' (done : Completes deadline raised a w' × (sent w' ≡ sent raised)). record {
          lowered_in = lowered;
          lowered = down;
          ends = inl (record {
            shown = x;
            shown_in = w;
            reset_seen = was;
            is_reset = ground (arith, p);
            raised_in = raised;
            raised = up;
            completes = done.0;
            no_more = done.1 ∙ up;
          });
        })
        _ (wait_for_activation_complete-Completes deadline raised)

  run_activation_handshake-Handshake :
      (deadline : ℕ) (before : List GripperCommand) (w : W)
      → sent w ≡ before
      → Came (Handshake deadline before) (run_activation_handshake h fuel deadline w)
  unfolding run_activation_handshake
  run_activation_handshake-Handshake deadline before w same =
      let (previous, w1) = h.command w in
      let p : previous ≡ top before = l.command_top w ∙ ap top same in
      let lowered = h.set_command (deactivate_command previous) w1 in
      let s : Lowered before (sent lowered) =
        l.set_sent (deactivate_command previous) w1 ∙ cc (l.command_sent w) in
      finish_handshake-Handshake deadline before previous lowered _ p s refl
        (wait_for_status-Quiet _ deadline _ lowered refl)

  pub handshake_if_allowed-Recovery :
      (deadline timeout : ℕ) (before : List GripperCommand) (w : W)
      → sent w ≡ before
      → Came (Recovery deadline before) (handshake_if_allowed h fuel deadline timeout w)
  unfolding handshake_if_allowed is_activation_handshake_allowed
  handshake_if_allowed-Recovery deadline timeout before w same =
      let (allowed, w1) = is_activation_handshake_allowed h deadline timeout w in
      let same1 : sent w1 ≡ before = l.now_sent w ∙ same in
      elim (Bool-cases allowed) [
        | inl fits ↦ rw fits (
            Came-map (Handshake deadline before) (Recovery deadline before) (λ a w' x. inr x) _
              (run_activation_handshake-Handshake deadline before w1 same1))
        | inr late ↦ rw late (inl (refl, same1))
      ]
