-- ===== src/RegisterModel/History.antt =====
-- What any sequence of register writes leaves in the fake gripper.
use grippers.Prelude.{
  ℕ, ◌+◌, ◌*◌, ◌≡◌, refl, ap, sym, ◌∙◌, Bool, true, false, List, [], ◌∷◌, arith, if◌then◌else◌,
  Bool-cases, inl, inr,
}
use grippers.Byte.{IsByte, AllBytes, bit_or_bytes, bit_and_low_byte}
use grippers.Command.{GripperCommand, activate, get, command_data}
use grippers.Packing.{registers_from_bytes}
use grippers.Status.{GripperStatus, activated, activation_state, reset, complete}
use grippers.RegisterModel.{
  written, RegisterModel, Refusal, initial, command, status, set_status, react, write,
  write_refused, contains_range,
}
use grippers.RegisterModel.Wire.{status-set_status}
use grippers.RegisterModel.Protocol.{
  reported, done_after, process_command_lem, reported-HasFields, reported-IsBlock,
}

position_request-IsByte : (m : RegisterModel) → IsByte (command m).position_request
unfolding command
position_request-IsByte m = omega arith

fault-IsByte : (m : RegisterModel) → IsByte (status m).fault_status.raw
unfolding status
fault-IsByte m = omega arith

-- The status block is apart from the command block and from the other members.
command-set_status :
    (s : GripperStatus) (m : RegisterModel) (done bit : Bool)
    → (let m' = set_status s (record m { activation_done = done; previous_activate_bit = bit }) in
        (command m' ≡ command m)
        × (m'.activation_done ≡ done)
        × (m'.previous_activate_bit ≡ bit)
        × (m'.log ≡ m.log))
unfolding command set_status
command-set_status s m done bit = (refl, refl, refl, refl)

-- What one reaction leaves, by the command in the register file.
pub record Reacted (m m' : RegisterModel) : Type 0 where
  pub same_command : command m' ≡ command m
  pub status_reported :
      status m' ≡ reported (command m) (status m) (done_after (get (command m).action activate) m)
  pub done_tracked : m'.activation_done ≡ done_after (get (command m).action activate) m
  pub bit_tracked : m'.previous_activate_bit ≡ get (command m).action activate
  pub same_log : m'.log ≡ m.log

-- The device keeps the command block, reports what its command asks for, and tracks rACT.
pub react-Reacted : (m : RegisterModel) → Reacted m (react m)
unfolding react
react-Reacted m =
    let act = get (command m).action activate in
    let s = reported (command m) (status m) (done_after act m) in
    let k : RegisterModel = record m {
      activation_done = done_after act m;
      previous_activate_bit = act;
    } in
    let apart = command-set_status s m (done_after act m) act in
    rw (process_command_lem (command m) (status m) m) (record {
      same_command = apart.0;
      status_reported = status-set_status s k (
          reported-IsBlock (command m) (status m) (done_after act m) (position_request-IsByte m)
            (fault-IsByte m));
      done_tracked = apart.1;
      bit_tracked = apart.2;
      same_log = apart.3;
    })

pub write_contained :
    (address quantity : ℕ) (values : List ℕ) (m : RegisterModel)
    → contains_range address quantity ≡ true
    → write address quantity values m ≡ react (written address quantity values m)
unfolding write
write_contained address quantity values m h = rw h

pub write_outside :
    (address quantity : ℕ) (values : List ℕ) (m : RegisterModel)
    → contains_range address quantity ≡ false
    → write address quantity values m ≡ record m { log = write_refused address quantity ∷ m.log }
unfolding write
write_outside address quantity values m h = rw h

-- What the device tracks and reports about its activation is the rACT of the command that its
-- register file holds.
pub record IsSettled (m : RegisterModel) : Type 0 where
  pub bit_of_command : m.previous_activate_bit ≡ get (command m).action activate
  pub done_with_bit : m.activation_done ≡ m.previous_activate_bit
  pub shows_bit : activated (status m).gripper_status ≡ get (command m).action activate
  pub shows_done :
      activation_state (status m).gripper_status
      ≡ (if get (command m).action activate then complete else reset)

react-IsSettled :
    (m : RegisterModel) → m.activation_done ≡ m.previous_activate_bit → IsSettled (react m)
react-IsSettled m h =
    let r = react-Reacted m in
    let act = get (command m).action activate in
    let f = reported-HasFields (command m) (status m) (done_after act m) in
    let held : get (command (react m)).action activate ≡ act =
      ap (λ c. get c.action activate) r.same_command in
    record {
      bit_of_command = r.bit_tracked ∙ sym held;
      done_with_bit = ground (arith, r.done_tracked, r.bit_tracked);
      shows_bit = rw r.status_reported (f.has_activated ∙ sym held);
      shows_done = rw r.status_reported (f.has_state ∙ ground (arith, held));
    }

pub record RegisterWrite : Type 0 where
  pub address : ℕ
  pub quantity : ℕ
  pub values : List ℕ

-- The model after a sequence of writes, the oldest first.
abbrev pub after_writes : List RegisterWrite → RegisterModel → RegisterModel
after_writes [] m = m
after_writes (w ∷ ws) m = after_writes ws (write w.address w.quantity w.values m)

log-IsSettled :
    (m : RegisterModel) (log : List Refusal) → IsSettled m → IsSettled (record m { log = log })
unfolding status command
log-IsSettled m log h = record {
  bit_of_command = h.bit_of_command;
  done_with_bit = h.done_with_bit;
  shows_bit = h.shows_bit;
  shows_done = h.shows_done;
}

initial-IsSettled : IsSettled initial
unfolding initial status command activated activation_state get
initial-IsSettled = record {
  bit_of_command = refl;
  done_with_bit = refl;
  shows_bit = refl;
  shows_done = refl;
}

write-IsSettled :
    (w : RegisterWrite) (m : RegisterModel)
    → IsSettled m
    → IsSettled (write w.address w.quantity w.values m)
unfolding written
write-IsSettled w m h = elim (Bool-cases (contains_range w.address w.quantity)) [
  | inl inside ↦
      rw (write_contained w.address w.quantity w.values m inside)
        (react-IsSettled (written w.address w.quantity w.values m) h.done_with_bit)
  | inr outside ↦
      rw (write_outside w.address w.quantity w.values m outside)
        (log-IsSettled m (write_refused w.address w.quantity ∷ m.log) h)
]

after_writes-IsSettled :
    (ws : List RegisterWrite) (m : RegisterModel) → IsSettled m → IsSettled (after_writes ws m)
after_writes-IsSettled [] m h = h
after_writes-IsSettled (w ∷ ws) m h =
    after_writes-IsSettled ws (write w.address w.quantity w.values m) (write-IsSettled w m h)

-- From power-up, after any register writes at all, in range or not: the bit that the device tracks
-- is the rACT of the command in the register file, the activation is done exactly when that is set,
-- and the status shows that bit, and complete with it or reset without it.
pub after_writes-initial-IsSettled : (ws : List RegisterWrite) → IsSettled (after_writes ws initial)
unfolding initial status command
after_writes-initial-IsSettled ws = after_writes-IsSettled ws initial initial-IsSettled

-- The three registers that a command's documented bytes travel in.
abbrev pub send : GripperCommand → RegisterModel → RegisterModel
send c = write 1000 3 (registers_from_bytes 3 (command_data c))

-- The command block then holds the command's documented bytes.
command-written :
    (c : GripperCommand) (m : RegisterModel)
    → AllBytes (command_data c)
    → (let held = command (written 1000 3 (registers_from_bytes 3 (command_data c)) m) in
        (held.action ≡ c.action) × (held.position_request ≡ c.position_request))
unfolding command written registers_from_bytes command_data
command-written c m h = ground (
  arith,
  bit_or_bytes c.action.value c.reserved1,
  bit_or_bytes c.reserved2 c.position_request,
  bit_and_low_byte (c.reserved2 * 256 + c.position_request),
)

status-written :
    (c : GripperCommand) (m : RegisterModel)
    → status (written 1000 3 (registers_from_bytes 3 (command_data c)) m) ≡ status m
unfolding status written
status-written c m = refl

send-Reacted :
    (c : GripperCommand) (m : RegisterModel)
    → send c m ≡ react (written 1000 3 (registers_from_bytes 3 (command_data c)) m)
unfolding contains_range
send-Reacted c m = write_contained 1000 3 (registers_from_bytes 3 (command_data c)) m refl

done_after-written :
    (c : GripperCommand) (m : RegisterModel) (act : Bool)
    → done_after act (written 1000 3 (registers_from_bytes 3 (command_data c)) m) ≡ done_after act m
unfolding written
done_after-written c m act = refl

reported_by_parts :
    (a b : GripperCommand) (s : GripperStatus) (done : Bool)
    → a.action ≡ b.action
    → a.position_request ≡ b.position_request
    → reported a s done ≡ reported b s done
reported_by_parts a b s done p q = rw (p, q) refl

-- Sending a command's documented bytes makes the device report that command: its rACT, its rGTO
-- once activated, its position, and the fault that was there only while rACT stays set.
pub send_reports :
    (c : GripperCommand) (m : RegisterModel)
    → AllBytes (command_data c)
    → (let act = get c.action activate in
        (status (send c m) ≡ reported c (status m) (done_after act m))
        × ((send c m).activation_done ≡ done_after act m)
        × ((send c m).previous_activate_bit ≡ act))
send_reports c m h =
    let k = written 1000 3 (registers_from_bytes 3 (command_data c)) m in
    let r = react-Reacted k in
    let (p, q) = command-written c m h in
    let a : get (command k).action activate ≡ get c.action activate = ap (λ x. get x activate) p in
    rw (send-Reacted c m) (
      r.status_reported
          ∙ reported_by_parts (command k) c (status k)
              (done_after (get (command k).action activate) k) p q
          ∙ ap (λ s. reported c s (done_after (get (command k).action activate) k))
              (status-written c m)
          ∙ ap (λ x. reported c (status m) (done_after x k)) a
          ∙ ap (λ d. reported c (status m) d) (done_after-written c m (get c.action activate)),
      rw (r.done_tracked, a) (done_after-written c m (get c.action activate)),
      rw r.bit_tracked a,
    )

-- The reset handshake, of commands whose fields are bytes: whatever fault is latched, a command
-- with rACT clear and then one with rACT set leave the device activated, complete and with no
-- fault, at the second one's position.
pub send_recovers :
    (clear again : GripperCommand) (m : RegisterModel)
    → AllBytes (command_data clear)
    → AllBytes (command_data again)
    → get clear.action activate ≡ false
    → get again.action activate ≡ true
    → (let s = status (send again (send clear m)) in
        (s.fault_status.raw ≡ 0)
        × (activated s.gripper_status ≡ true)
        × (activation_state s.gripper_status ≡ complete)
        × (s.position ≡ again.position_request))
send_recovers clear again m hc ha low high =
    let one = send_reports clear m hc in
    let two = send_reports again (send clear m) ha in
    let f = reported-HasFields again (status (send clear m)) true in
    let done : done_after (get again.action activate) (send clear m) ≡ true =
      rw (high, one.2, low) refl in
    rw (two.0, done)
      (rw (high, one.0, low) refl, f.has_activated ∙ high, f.has_state ∙ (rw high refl), refl)

-- A latched fault byte survives every command, its fields being bytes, that keeps rACT set.
pub send_keeps_fault :
    (c : GripperCommand) (m : RegisterModel)
    → AllBytes (command_data c)
    → get c.action activate ≡ true
    → (status (send c m)).fault_status.raw ≡ (status m).fault_status.raw
send_keeps_fault c m h high = rw (send_reports c m h).0 (rw high refl)
