-- ===== src/GripperEvents/Recovers.antt =====
-- activateOrRecover() over the fake device.
use grippers.Prelude.{
  ℕ, suc, ◌+◌, ◌/◌, ◌≤◌, ◌<◌, ◌≡◌, refl, inl, inr, true, false, Option, some, List, length, arith,
}
use grippers.ActivationResult.{ActivationResult}
use grippers.Command.{GripperCommand}
use grippers.Status.{complete, activation_state}
use grippers.Fault.{FaultStatus, gripper_fault, gripper_severity}
use grippers.RegisterModel.{RegisterModel}
use grippers.ModbusClient.{Nmbs}
use grippers.ModbusClient.Loopback.{Carries}
use grippers.Gripper.{is_major, nanoseconds}
use grippers.FakeGripper.{Run}
use grippers.FakeGripper.Waiting.{Ready}
use grippers.FakeGripper.Activates.{Activated}
use grippers.FakeGripper.Outcomes.{Settles, run_activate-Settles, recover_from_fault-Activated}
use grippers.FakeGripper.Healthy.{Healthy, Healthy-Ready, Healthy-within}
use grippers.FakeGripper.Kept.{Left, run_activate-Answers, recover_from_fault-Answers}
use grippers.GripperEvents.{
  Outcome, Line, final_check, recover_latched, activate_or_recover, report,
}
use grippers.GripperEvents.Aims.{station}

-- The gripper is activated, without a major fault, and goes on.
pub record Recovered (until bound left : ℕ) (o : Outcome Run) : Type 0 where
  pub succeeded : o.result ≡ some true
  pub completed : activation_state o.world.state.image.stamped.status.gripper_status ≡ complete
  pub no_major :
      is_major (gripper_severity (gripper_fault o.world.state.image.stamped.status.fault_status))
      ≡ false
  pub goes_on : Left until bound left o.world

faultless : (f : FaultStatus) → f.raw ≡ 0 → is_major (gripper_severity (gripper_fault f)) ≡ false
unfolding gripper_fault gripper_severity
faultless f e = rw e refl

Healthy-Ready_half :
    (until : ℕ) (w : Run)
    → Healthy until w.clock w
    → w.clock + 8000000000 ≤ until
    → Ready (w.clock + nanoseconds (15000 / 2)) 12 w
Healthy-Ready_half until w h later =
    Healthy-Ready 12 until w.clock (w.clock + nanoseconds (15000 / 2)) w h (omega arith)
      (omega arith) (omega arith)

module _ (n : Nmbs RegisterModel) (until : ℕ) where
  Activated-Recovered :
      (bound left : ℕ) (lines : List Line) (commands : List GripperCommand)
      (x : Option ActivationResult × Run)
      → Activated commands x.0 x.1
      → Left until bound left x.1
      → Recovered until bound left (final_check (station n) lines x)
  unfolding final_check report
  Activated-Recovered bound left lines commands (a, w) act on = rw (act.result) (record {
    succeeded = refl;
    completed = act.completed;
    no_major = faultless w.state.image.stamped.status.fault_status act.no_fault;
    goes_on = on;
  })

  module _ (link : Carries n) (fuel left : ℕ) (enough : left < suc (suc fuel)) where
    -- After a fault latched, the recovery.
    Latched-Recovered :
        (w : Run) (bound : ℕ)
        → Left until bound left w
        → bound + 8000000000 ≤ until
        → Recovered until
            (bound + 15006000000)
            left
            (recover_latched (station n) (suc (suc fuel)) (some ActivationResult.fault_latched, w))
    unfolding recover_latched
    Latched-Recovered w bound on later =
        let h = Healthy-within until bound w.clock w (omega arith) on.healthy in
        let x =
          recover_from_fault-Activated n link fuel 15000 w (omega arith)
            (Healthy-Ready_half until w h (omega (arith, on.healthy.within))) in
        let (a, y) =
          recover_from_fault-Answers until n link (suc (suc fuel)) left enough 15000 w (omega arith)
            (record { healthy = h; shorter = on.shorter }) in
        let z : Left until (bound + 15006000000) left _ = record {
          healthy =
              Healthy-within until _ (bound + 15006000000) _
                (omega (arith, y.healthy.within, on.healthy.within)) y.healthy;
          shorter = y.shorter;
        } in
        Activated-Recovered (bound + 15006000000) left _ _ _ x z

    raised :
        (bound : ℕ) (w : Run) → Left until bound left w → Left until (bound + 15006000000) left w
    raised bound w on = record {
      healthy = Healthy-within until bound _ w (omega (arith, on.healthy.within)) on.healthy;
      shorter = on.shorter;
    }

    Settled-Recovered :
        (w w1 : Run) (bound : ℕ) (a : Option ActivationResult)
        → Settles w a w1
        → Left until bound left w1
        → bound + 8000000000 ≤ until
        → Recovered until
            (bound + 15006000000)
            left
            (recover_latched (station n) (suc (suc fuel)) (a, w1))
    unfolding recover_latched final_check report
    Settled-Recovered w w1 bound a (inl (e, major, h)) on later =
        rw e (Latched-Recovered w1 bound on later)
    Settled-Recovered w w1 bound a (inr (inl (e, done, clear, h))) on later = rw e (record {
      succeeded = refl;
      completed = done;
      no_major = clear;
      goes_on = raised bound w1 on;
    })
    Settled-Recovered w w1 bound a (inr (inr act)) on later = rw (act.result) (record {
      succeeded = refl;
      completed = act.completed;
      no_major = faultless w1.state.image.stamped.status.fault_status act.no_fault;
      goes_on = raised bound w1 on;
    })

-- Over a link that carries requests, when the thread takes a step at least every 200 ms for
-- twenty-four seconds: activateOrRecover() succeeds with fuel for the schedule, whatever fault is
-- latched and whatever state the gripper is in. It ends within thirty-one seconds, with the gripper
-- activated and no major fault, and the thread goes on.
pub activate_or_recover-Recovered :
    (n : Nmbs RegisterModel)
    → Carries n
    → (fuel until : ℕ) (w : Run) → Healthy until w.clock w
    → w.clock + 24000000000 ≤ until
    → length w.schedule < suc (suc fuel)
    → Recovered until
        (w.clock + 31000000000)
        (length w.schedule)
        (activate_or_recover (station n) (suc (suc fuel)) w)
unfolding activate_or_recover
activate_or_recover-Recovered n link fuel until w h later enough =
    let left = length w.schedule in
    let x =
      run_activate-Settles n link fuel 15000 w (omega arith)
        (Healthy-Ready_half until w h (omega arith)) in
    let (a, y) =
      run_activate-Answers until n link (suc (suc fuel)) left enough 15000 w (omega arith)
        (record { healthy = h; shorter = omega arith }) in
    let z =
      Settled-Recovered n until link fuel left enough w _ (w.clock + nanoseconds 15000 + 6000000) _
        x y (omega arith) in
    record {
      succeeded = z.succeeded;
      completed = z.completed;
      no_major = z.no_major;
      goes_on = record {
        healthy =
            Healthy-within until _ (w.clock + 31000000000) _
              (omega (arith, z.goes_on.healthy.within)) z.goes_on.healthy;
        shorter = z.goes_on.shorter;
      };
    }
