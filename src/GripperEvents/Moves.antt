-- ===== src/GripperEvents/Moves.antt =====
-- moveTo() over the fake device.
use grippers.Prelude.{ℕ, suc, ◌+◌, ◌≤◌, ◌<◌, ◌≡◌, refl, ◌∙◌, ap, Bool, true, some, length, arith}
use grippers.Byte.{AllBytes, u64}
use grippers.Command.{GripperCommand, activate, get, command_data, command_eq}
use grippers.Command.Bits.{command_eq_iff}
use grippers.RegisterModel.{RegisterModel}
use grippers.ModbusClient.{Nmbs}
use grippers.ModbusClient.Loopback.{Carries}
use grippers.ProcessImage.{StampedExchange}
use grippers.Units.{Doubles, DeviceProfile, opening_to_register}
use grippers.Gripper.{set_command_and_wait_for_exchange, deadline_after}
use grippers.FakeGripper.{set_run, Run, gripper}
use grippers.FakeGripper.Steps.{Shows}
use grippers.FakeGripper.Waiting.{on_wire}
use grippers.FakeGripper.Rounds.{wait_loop-Arrives, Arrives}
use grippers.FakeGripper.Healthy.{set_run-Healthy, Healthy, Healthy-Ready, Healthy-within}
use grippers.FakeGripper.Wiring.{Wired}
use grippers.FakeGripper.Loops.{wait_loop-Kept, Healthy-WaitKeeps}
use grippers.GripperEvents.Aims.{
  aimed-Aims, Aims, station, aimed-bytes, aimed-bits, opening_to_register-IsByte, opening_back,
}
use grippers.GripperEvents.{move_with, move_to, aimed}
use grippers.GripperEvents.Motion.{Settled, Settled-later, after_send-Settled}

module _ (n : Nmbs RegisterModel) (link : Carries n) {D : Type 0} (d : Doubles D)
    (profile : DeviceProfile D) where
  -- The command is sent, and an exchange carries it.
  sent_Arrives :
      (fuel until : ℕ) (c : GripperCommand) (w : Run)
      → AllBytes (command_data c)
      → Healthy until w.clock w
      → w.clock + 4000000000 ≤ until
      → length w.schedule < suc (suc fuel)
      → (let time = w.clock + 1000000000 in
          let r = set_command_and_wait_for_exchange (gripper n) (suc (suc fuel)) c 1000 w in
          Arrives time 0 (λ e. command_eq e.command c) (set_run n c w) r
          × Healthy until time r.1
          × (length r.1.schedule ≤ length w.schedule))
  unfolding set_command_and_wait_for_exchange set_run deadline_after
  sent_Arrives fuel until c w bytes h later l =
      let time = w.clock + 1000000000 in
      let bound = w.clock + 2000000000 in
      let at = deadline_after 1000 w.clock in
      let w0 = set_run n c w in
      let h0 : Healthy until bound w0 =
        set_run-Healthy n link until bound c w bytes
          (Healthy-within until w.clock bound w (omega arith) h) in
      let sees : StampedExchange → Bool = λ e. command_eq e.command c in
      let next = w.state.image.stamped.exchange_count + 1 in
      let u : u64 next ≡ next = omega (arith, h.room) in
      let late : time ≤ at = omega arith in
      let fits : at + 1000000 ≤ bound = omega arith in
      let r0 = Healthy-Ready 4 until bound time w0 h0 (omega arith) (omega arith) (omega arith) in
      let holds : (e : StampedExchange) → e.command ≡ c → Shows e.command e.status → sees e ≡ true =
        λ e same shows. (command_eq_iff e.command c).1 same in
      let x = wait_loop-Arrives n link time fuel 0 at next sees w0 r0 refl late holds in
      let k =
        wait_loop-Kept n (Healthy until bound) bound (Healthy-WaitKeeps n link until bound)
          (suc (suc fuel)) at sees next w0 h0 refl l fits in
      rw u (x, Healthy-within until bound time _ (omega (arith, x.2.ready.early)) k.0, k.2)

-- Over a link that carries requests, when the thread takes a step at least every 200 ms for four
-- seconds: from a command of bytes that has rACT, moveTo() to an opening that has a register
-- succeeds with fuel for the schedule. It sends one command: the opening's register as its
-- position, rGTO set, and the other action bits, the speed and the force as they were; the newest
-- exchange carried it and shows the fingers arrived at that register.
pub move_to-Settled :
    (n : Nmbs RegisterModel)
    → Carries n
    → {D : Type 0} (d : Doubles D) (profile : DeviceProfile D) (opening : D)
      (position fuel until : ℕ) (command : GripperCommand) (w : Run)
    → opening_to_register d opening profile ≡ some position
    → AllBytes (command_data command)
    → get command.action activate ≡ true
    → Healthy until w.clock w
    → w.clock + 4000000000 ≤ until
    → length w.schedule < suc (suc fuel)
    → (let (o, c) = move_to (station n) d profile (suc (suc fuel)) opening command w in
        Settled until (w.clock + 7000000000) (length w.schedule) c w.history o
        × Aims position command c
        × (o.world.state.image.stamped.status.position ≡ position)
        × (c ≡ aimed position command))
unfolding move_to move_with set_run
move_to-Settled n link d profile opening position fuel until command w reg bytes up h later l =
    let c = aimed position command in
    let (x, h1, l1) =
      sent_Arrives n link d profile fuel until c w
        (aimed-bytes position command (opening_to_register-IsByte d profile opening position reg)
          bytes)
        h later l in
    let w1 = (set_command_and_wait_for_exchange (gripper n) (suc (suc fuel)) c 1000 w).1 in
    let next : w1.state.image.next_command ≡ c = x.2.same_next in
    let wired : Wired c w.history w1.system = record {
      history_is = x.2.same_history;
      next_is = next;
      wire_is = ap (λ f. on_wire f w1.state.image.next_command) x.2.landed ∙ next;
    } in
    let settled =
      Settled-later until _ (w.clock + 7000000000) _ (length w.schedule) c w.history _ (omega arith)
        l1
        (after_send-Settled n link d profile until c w.history
          (λ register. opening_back d profile opening position register reg)
          (aimed-bits position command bytes up) (suc fuel) (w.clock + 1000000000) _ (set_run n c w)
          _ x (h1, wired) (omega (arith, l1)) (omega arith)) in
    let aims = aimed-Aims position command bytes in
    rw reg (settled, aims, settled.at_position ∙ aims.position_asked, refl)
