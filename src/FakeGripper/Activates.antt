-- ===== src/FakeGripper/Activates.antt =====
-- The activation procedures over the fake device, when the thread's steps come in time.
use grippers.Prelude.{
  ℕ, suc, ◌+◌, ◌≤◌, ◌≡◌, refl, ◌∙◌, ap, Bool, true, false, not, Option, some, List, ◌∷◌, arith,
}
use mathlib.Core.Path.{subst, sym}
use grippers.Byte.{AllBytes, u64}
use grippers.ActivationResult.{ActivationResult}
use grippers.Command.{GripperCommand, command_data, activate, get}
use grippers.Status.{GripperStatus, ActivationState, complete, activated, activation_state}
use grippers.RegisterModel.{RegisterModel, status}
use grippers.ModbusClient.{Nmbs}
use grippers.ModbusClient.Loopback.{Carries}
use grippers.Gripper.{
  Waited, remaining, deadline_after, activation_result, is_complete, activate_command,
  deactivate_command, wait_for_status, wait_for_activation_complete, finish_handshake,
  run_activation_handshake,
}
use grippers.Gripper.Handshakes.{handshake_commands}
use grippers.FakeGripper.{Run, gripper, set_run}
use grippers.FakeGripper.Steps.{Shows}
use grippers.FakeGripper.Waiting.{Ready}
use grippers.FakeGripper.Rounds.{Arrives, in_time, wait_loop-Arrives}

pub activate_command-bytes :
    (c : GripperCommand) → AllBytes (command_data c) → AllBytes (command_data (activate_command c))
unfolding activate_command command_data
activate_command-bytes c h = (omega arith, h.1)

pub deactivate_command-bytes :
    (c : GripperCommand)
    → AllBytes (command_data c)
    → AllBytes (command_data (deactivate_command c))
unfolding deactivate_command command_data
deactivate_command-bytes c h = (omega arith, h.1)

activate_command-bit :
    (c : GripperCommand)
    → AllBytes (command_data c)
    → (get (activate_command c).action activate ≡ true)
      × (get (deactivate_command c).action activate ≡ false)
unfolding command_data
activate_command-bit c h = let (up, down, _, _) = handshake_commands c activate h.0 in (up, down)

-- The activation is over: it succeeded, the device is activated, complete and without a fault,
-- and these commands were set.
pub record Activated (history : List GripperCommand) (a : Option ActivationResult) (w : Run)
    : Type 0 where
  pub result : a ≡ some ActivationResult.activated
  pub completed : activation_state w.state.image.stamped.status.gripper_status ≡ complete
  pub no_fault : w.state.image.stamped.status.fault_status.raw ≡ 0
  pub commands : w.history ≡ history

module _ (n : Nmbs RegisterModel) (link : Carries n) (time : ℕ) where
  pub wait_for_status-Arrives :
      (fuel k deadline : ℕ) (predicate : GripperStatus → Bool) (w : Run)
      → Ready time (suc (suc (suc (suc k)))) w
      → time ≤ deadline
      → ((s : GripperStatus) → Shows w.state.image.next_command s → predicate s ≡ true)
      → Arrives time k
          (λ e. predicate e.status)
          w
          (wait_for_status (gripper n) (suc (suc fuel)) predicate deadline w)
  unfolding wait_for_status
  wait_for_status-Arrives fuel k deadline predicate w r h holds =
      let u : u64 (w.state.image.stamped.exchange_count + 1)
          ≡ w.state.image.stamped.exchange_count + 1 =
        omega (arith, r.room) in
      rw u (
        wait_loop-Arrives n link time fuel k (deadline_after (remaining deadline w.clock) w.clock) _
          (λ e. predicate e.status) w r refl (in_time time deadline w.clock r.early h r.near)
          λ e c s. holds e.status (subst (λ x. Shows x e.status) c s))

  -- A command of bytes that is set changes the next command and the history alone.
  set_run-Ready :
      (k : ℕ) (c : GripperCommand) (w : Run)
      → AllBytes (command_data c)
      → Ready time k w
      → Ready time k (set_run n c w)
  unfolding set_run
  set_run-Ready k c w h r = record {
    done_with_bit = r.done_with_bit;
    next_bytes = h;
    flight_bytes = r.flight_bytes;
    not_closed = r.not_closed;
    early = r.early;
    near = r.near;
    prompt = r.prompt;
    room = r.room;
  }

  is_complete_sound : (st : ActivationState) → is_complete st ≡ true → st ≡ complete
  is_complete_sound st h = ground arith

  completed-Activated :
      (k : ℕ) (w : Run) (history : List GripperCommand) (r : Waited × Run)
      → Arrives time k (λ e. is_complete (activation_state e.status.gripper_status)) w r
      → (status w.device).fault_status.raw ≡ 0
      → w.history ≡ history
      → (let (a, w') = activation_result r in Activated history a w')
  completed-Activated k w history (r, w2) (s, met, x) clear sent = rw s (record {
    result = refl;
    completed = is_complete_sound _ met;
    no_fault = ap (λ y. y.fault_status.raw) x.shown ∙ x.fault_kept clear;
    commands = x.same_history ∙ sent;
  })

  -- An exchange whose status has no rACT carried a command without rACT, which clears the fault.
  unset_clears :
      (c : GripperCommand) (s : GripperStatus)
      → Shows c s
      → not (activated s.gripper_status) ≡ true
      → s.fault_status.raw ≡ 0
  unset_clears c s shows unset = shows.no_fault (ground (arith, shows.has_bit))

  finish_handshake-Activated :
      (fuel k deadline : ℕ) (previous : GripperCommand) (w : Run) (r : Waited × Run)
      → AllBytes (command_data previous)
      → Arrives time (suc (suc (suc (suc k)))) (λ e. not (activated e.status.gripper_status)) w r
      → time ≤ deadline
      → (let (a, w') = finish_handshake (gripper n) (suc (suc fuel)) deadline previous r in
          Activated (activate_command previous ∷ w.history) a w')
  unfolding finish_handshake wait_for_activation_complete set_run
  finish_handshake-Activated fuel k deadline previous w (r, w1) h (s, unset, x) late =
      let up = activate_command previous in
      let w2 = set_run n up w1 in
      let complete_now : (st : GripperStatus)
          → Shows up st
          → is_complete (activation_state st.gripper_status) ≡ true =
        λ st shows. rw (shows.has_state, (activate_command-bit previous h).0) refl in
      rw s (
        completed-Activated k w2 (up ∷ w.history) _
          (wait_for_status-Arrives fuel k deadline
            (λ st. is_complete (activation_state st.gripper_status)) w2
            (set_run-Ready _ up w1 (activate_command-bytes previous h) x.ready) late complete_now)
          (ap (λ y. y.fault_status.raw) (sym x.shown) ∙ unset_clears _ _ x.shows unset)
          (ap (λ l. up ∷ l) x.same_history))

  -- The handshake, from a gripper that is ready for eight more steps of the thread.
  pub run_activation_handshake-Activated :
      (fuel k deadline : ℕ) (w : Run)
      → Ready time (suc (suc (suc (suc (suc (suc (suc (suc k)))))))) w
      → time ≤ deadline
      → (let c = w.state.image.next_command in
          let (a, w') = run_activation_handshake (gripper n) (suc (suc fuel)) deadline w in
          Activated (activate_command c ∷ deactivate_command c ∷ w.history) a w')
  unfolding run_activation_handshake set_run
  run_activation_handshake-Activated fuel k deadline w r late =
      let c = w.state.image.next_command in
      let down = deactivate_command c in
      let w1 = set_run n down w in
      let unset : (st : GripperStatus) → Shows down st → not (activated st.gripper_status) ≡ true =
        λ st shows. rw (shows.has_bit, (activate_command-bit c r.next_bytes).1) refl in
      finish_handshake-Activated fuel k deadline c w1 _ r.next_bytes
        (wait_for_status-Arrives fuel _ deadline (λ st. not (activated st.gripper_status)) w1
          (set_run-Ready _ down w (deactivate_command-bytes c r.next_bytes) r) late unset)
        late
