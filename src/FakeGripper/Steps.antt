-- ===== src/FakeGripper/Steps.antt =====
-- One cycle of the exchange thread against the fake device.
use grippers.Prelude.{
  ℕ, ◌+◌, ◌<◌, ◌≡◌, refl, sym, ◌∙◌, Bool, ◌&&◌, false, none, some, arith, if◌then◌else◌,
}
use grippers.Byte.{AllBytes}
use grippers.Command.{GripperCommand, activate, go_to, get, command_data}
use grippers.Status.{
  GripperStatus, moving, at_requested_position, object_detection, reset, complete, activated,
  activation_state,
}
use grippers.RegisterModel.{RegisterModel, status}
use grippers.RegisterModel.Protocol.{reported, done_after, reported-HasFields}
use grippers.RegisterModel.History.{send, send_reports}
use grippers.ModbusClient.{Nmbs}
use grippers.ModbusClient.Loopback.{Carries, exchange_reports}
use grippers.FakeGripper.{System, step_from, finish}

-- The status of an activated or a reset device, by the rACT of the command that it acted on.
pub record Shows (c : GripperCommand) (s : GripperStatus) : Type 0 where
  pub has_bit : activated s.gripper_status ≡ get c.action activate
  pub has_state :
      activation_state s.gripper_status ≡ (if get c.action activate then complete else reset)
  pub no_fault : get c.action activate ≡ false → s.fault_status.raw ≡ 0
  pub arrived : s.position ≡ c.position_request
  pub has_detection :
      object_detection s.gripper_status
      ≡ (if get c.action activate && get c.action go_to then at_requested_position else moving)

-- The activation is done exactly when the device has last seen rACT set.
abbrev pub DoneWithBit : RegisterModel → Type 0
DoneWithBit m = m.activation_done ≡ m.previous_activate_bit

done_after-DoneWithBit : (act : Bool) (m : RegisterModel) → DoneWithBit m → done_after act m ≡ act
done_after-DoneWithBit act m h = ground arith

reported-Shows :
    (c : GripperCommand) (current : GripperStatus) (done : Bool)
    → done ≡ get c.action activate
    → Shows c (reported c current done)
reported-Shows c current done e =
    let f = reported-HasFields c current done in
    record {
      has_bit = f.has_activated;
      has_state = f.has_state ∙ ground arith;
      no_fault = λ low. rw low refl;
      arrived = refl;
      has_detection = f.has_detection ∙ ground arith;
    }

-- What the device is like once a command was sent to it.
pub record Sent (c : GripperCommand) (m m' : RegisterModel) : Type 0 where
  pub done_with_bit : DoneWithBit m'
  pub shows : Shows c (status m')
  pub fault_kept : (status m).fault_status.raw ≡ 0 → (status m').fault_status.raw ≡ 0

pub send-Sent :
    (c : GripperCommand) (m : RegisterModel)
    → AllBytes (command_data c)
    → DoneWithBit m
    → Sent c m (send c m)
send-Sent c m h d =
    let act = get c.action activate in
    let (reports, done, bit) = send_reports c m h in
    let e : done_after act m ≡ act = done_after-DoneWithBit act m d in
    record {
      done_with_bit = ground (arith, done, bit, e);
      shows = rw reports (reported-Shows c (status m) (done_after act m) e);
      fault_kept = λ z. rw reports (ground arith);
    }

module _ (n : Nmbs RegisterModel) (link : Carries n) where
  -- The end of a cycle whose command has byte fields: it is counted and announced with the status
  -- that the device then has.
  pub record Cycled (c : GripperCommand) (at : ℕ) (s s' : System) : Type 0 where
    pub counted :
        s.state.image.stamped.exchange_count < 18446744073709551615
        → s'.state.image.stamped.exchange_count ≡ s.state.image.stamped.exchange_count + 1
    pub carried : s'.state.image.stamped.command ≡ c
    pub shown : s'.state.image.stamped.status ≡ status s'.device
    pub landed : s'.in_flight ≡ none
    pub same_next : s'.state.image.next_command ≡ s.state.image.next_command
    pub same_closed : s'.state.image.closed ≡ s.state.image.closed
    pub same_history : s'.history ≡ s.history
    pub timed : s'.clock ≡ at
    pub sent : Sent c s.device s'.device

  pub step_from-Cycled :
      (c : GripperCommand) (at : ℕ) (s : System)
      → AllBytes (command_data c)
      → DoneWithBit s.device
      → Cycled c at s (step_from n (some c) at s)
  unfolding step_from finish
  step_from-Cycled c at s h d = rw (exchange_reports n link c s.device h) (record {
    counted = λ below. omega arith;
    carried = refl;
    shown = sym (send_reports c s.device h).0;
    landed = refl;
    same_next = refl;
    same_closed = refl;
    same_history = refl;
    timed = refl;
    sent = send-Sent c s.device h d;
  })
