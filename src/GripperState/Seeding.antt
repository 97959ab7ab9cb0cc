-- ===== src/GripperState/Seeding.antt =====
-- What a new connection starts from.
use grippers.Prelude.{
  ℕ, zero, suc, ◌+◌, ap, ◌≡◌, refl, ◌∙◌, false, Option, none, some, List, [], ◌∷◌, arith,
}
use grippers.Byte.{IsByte}
use grippers.Command.{
  ActionRequestBit, activate, go_to, auto_release, auto_release_open_direction, get, set_to,
  defaults,
}
use grippers.Command.Bits.{get-set_to, set_to-IsByte}
use grippers.Status.{GripperStatus, activated, go_to_enabled}
use grippers.ProcessImage.{seed}
use grippers.GripperState.{
  GripperState, operational, Outcome, answered, failed, seed_command, seeded, read_attempts,
  initialize_image, initial_read_failed,
}

-- The seed asks the gripper for what it is doing already: rACT and rGTO are its echoes, no release
-- is requested, and the position is the one that it was last asked for; speed and force, which
-- have no echo, are at their maximum.
pub seed_command_lem :
    (fresh : GripperStatus)
    → (let c = seed_command fresh in
        (get c.action activate ≡ activated fresh.gripper_status)
        × (get c.action go_to ≡ go_to_enabled fresh.gripper_status)
        × (get c.action auto_release ≡ false)
        × (get c.action auto_release_open_direction ≡ false)
        × (c.position_request ≡ fresh.position_request_echo)
        × (c.speed ≡ 255)
        × (c.force ≡ 255))
unfolding seed_command
seed_command_lem fresh =
    let a = activated fresh.gripper_status in
    let g = go_to_enabled fresh.gripper_status in
    let d = defaults.action in
    let one = set_to d activate a in
    let two = λ (bit : ActionRequestBit). get-set_to one go_to bit g (set_to-IsByte d activate a) in
    let base = λ (bit : ActionRequestBit). get-set_to d activate bit a default_byte in
    (
      two activate ∙ base activate,
      two go_to,
      two auto_release ∙ base auto_release ∙ default_release,
      two auto_release_open_direction ∙ base auto_release_open_direction ∙ default_direction,
      refl,
      refl,
      refl,
    )
  where
    default_byte : IsByte defaults.action.value
    default_byte = unfold defaults in omega arith

    default_release : get defaults.action auto_release ≡ false
    default_release = unfold get defaults in refl

    default_direction : get defaults.action auto_release_open_direction ≡ false
    default_direction = unfold get defaults in refl

-- The first status among the first `n` answers.
abbrev pub first_answer : ℕ → List Outcome → Option (GripperStatus × ℕ)
first_answer zero reads = none
first_answer (suc n) [] = none
first_answer (suc n) (answered fresh now ∷ later) = some (fresh, now)
first_answer (suc n) (failed ∷ later) = first_answer n later

-- What a connection makes of it: the first status, at its time and with the count at 0, and a
-- command that asks the gripper for what it is doing already, in the record and as the next one.
pub record Seeds (fresh : GripperStatus) (now : ℕ) (s t : GripperState) : Type 0 where
  pub link : t.connection_state ≡ operational
  pub status : t.image.stamped.status ≡ fresh
  pub at : t.image.stamped.timestamp ≡ now
  pub count : t.image.stamped.exchange_count ≡ 0
  pub next : t.image.next_command ≡ t.image.stamped.command
  pub same_closed : t.image.closed ≡ s.image.closed
  pub asks_activate : get t.image.next_command.action activate ≡ activated fresh.gripper_status
  pub asks_go_to : get t.image.next_command.action go_to ≡ go_to_enabled fresh.gripper_status
  pub asks_release : get t.image.next_command.action auto_release ≡ false
  pub asks_direction : get t.image.next_command.action auto_release_open_direction ≡ false
  pub asks_position : t.image.next_command.position_request ≡ fresh.position_request_echo
  pub asks_speed : t.image.next_command.speed ≡ 255
  pub asks_force : t.image.next_command.force ≡ 255

abbrev pub Connects : GripperState → Option (GripperStatus × ℕ) → Option GripperState → Type 0
Connects s none r = r ≡ none
Connects s (some (fresh, now)) r = (t : GripperState) × (r ≡ some t) × Seeds fresh now s t

seeded-Seeds :
    (fresh : GripperStatus) (now : ℕ) (s s' : GripperState)
    → s'.image ≡ s.image
    → Seeds fresh now s (seeded fresh now s')
unfolding seeded seed
seeded-Seeds fresh now s s' e =
    let c = seed_command_lem fresh in
    record {
      link = refl;
      status = refl;
      at = refl;
      count = refl;
      next = refl;
      same_closed = ap (λ p. p.closed) e;
      asks_activate = c.0;
      asks_go_to = c.1;
      asks_release = c.2;
      asks_direction = c.3;
      asks_position = c.4;
      asks_speed = c.5;
      asks_force = c.6;
    }

missing :
    (left attempt : ℕ) (s s' : GripperState)
    → s'.image ≡ s.image
    → read_attempts left attempt [] s' ≡ none
unfolding read_attempts
missing zero attempt s s' e = refl
missing (suc left) attempt s s' e =
    missing left (attempt + 1) s (record s' { log = initial_read_failed attempt ∷ s'.log }) e

read_attempts-Connects :
    (left attempt : ℕ) (reads : List Outcome) (s s' : GripperState)
    → s'.image ≡ s.image
    → Connects s (first_answer (suc left) reads) (read_attempts left attempt reads s')
unfolding read_attempts
read_attempts-Connects left attempt (answered fresh now ∷ later) s s' e =
    (seeded fresh now s', refl, seeded-Seeds fresh now s s' e)
read_attempts-Connects zero attempt (failed ∷ later) s s' e = refl
read_attempts-Connects (suc left) attempt (failed ∷ later) s s' e =
    read_attempts-Connects left (attempt + 1) later s
      (record s' { log = initial_read_failed attempt ∷ s'.log }) e
read_attempts-Connects zero attempt [] s s' e = refl
read_attempts-Connects (suc left) attempt [] s s' e = missing left (attempt + 1) s _ e

-- A connection succeeds exactly when one of the first three reads is answered: it is then
-- operational, with the first answer's status and time, the count at 0, and a command that takes
-- rACT, rGTO and the position from that status, with no release and the greatest speed and force;
-- otherwise the construction throws.
pub initialize_image-Connects :
    (reads : List Outcome) (s : GripperState)
    → Connects s (first_answer 3 reads) (initialize_image reads s)
unfolding initialize_image
initialize_image-Connects reads s = read_attempts-Connects 2 1 reads s s refl
