-- ===== src/Status/Writer/Laws.antt =====
-- Each writer of the GRIPPER STATUS byte sets the field that it names and leaves the others alone.
use grippers.Prelude.{
  false, ◌+◌, ◌<◌, arith, ℕ, ◌*◌, ◌/◌, ◌%◌, ◌≡◌, refl, bit_and, Bool, true, ◌&&◌, ◌==◌,
}
use grippers.Byte.{all_below_sound, IsByte, u8, all_below}
use grippers.Status.{
  reset, moving, activation_state_code, GripperStatus, object_detection_of, activation_state_of,
  object_detection_code, GripperStatusFlags, ActivationState, ObjectDetection, activated,
  go_to_enabled, activation_state, object_detection,
}
use grippers.Status.Writer.{
  set_object_detection, set_go_to_enabled, set_activated, set_activation_state, with_field,
  with_flag,
}

-- Two bytes agree on the bits of a mask.
abbrev agree : ℕ → ℕ → ℕ → Bool
agree mask a b = bit_and a mask == bit_and b mask

-- At `b * 4 + v`: the write of the two-bit code `v` into byte `b`.
state_table :
    all_below 1024 (λ x.
      let r = with_field (x / 4) 0x30 (u8 (x % 4 * 16)) in
      bit_and r 0x30 / 16 == x % 4
      && agree 0x01 r (x / 4)
      && agree 0x08 r (x / 4)
      && agree 0xC0 r (x / 4))
    ≡ true
unfolding all_below with_field
state_table = refl

detection_table :
    all_below 1024 (λ x.
      let r = with_field (x / 4) 0xC0 (u8 (x % 4 * 64)) in
      bit_and r 0xC0 / 64 == x % 4
      && agree 0x01 r (x / 4)
      && agree 0x08 r (x / 4)
      && agree 0x30 r (x / 4))
    ≡ true
unfolding all_below with_field
detection_table = refl

abbrev flag_of : ℕ → Bool
flag_of n = n == 1

activated_table :
    all_below 512 (λ x.
      let r = with_flag (x / 2) 0x01 (flag_of (x % 2)) in
      bit_and r 0x01 == x % 2
      && agree 0x08 r (x / 2)
      && agree 0x30 r (x / 2)
      && agree 0xC0 r (x / 2))
    ≡ true
unfolding all_below with_flag
activated_table = refl

go_to_table :
    all_below 512 (λ x.
      let r = with_flag (x / 2) 0x08 (flag_of (x % 2)) in
      bit_and r 0x08 == x % 2 * 8
      && agree 0x01 r (x / 2)
      && agree 0x30 r (x / 2)
      && agree 0xC0 r (x / 2))
    ≡ true
unfolding all_below with_flag
go_to_table = refl

-- The four decoded fields of a flags byte.
pub record HasFields (f : GripperStatusFlags) (act go : Bool) (st : ActivationState)
    (ob : ObjectDetection) : Type 0 where
  pub has_activated : activated f ≡ act
  pub has_go_to : go_to_enabled f ≡ go
  pub has_state : activation_state f ≡ st
  pub has_detection : object_detection f ≡ ob

module _ (b v : ℕ) (hb : IsByte b) (hv : v < 4) where
  quarter : (b * 4 + v) / 4 ≡ b
  quarter = omega arith

  rest : (b * 4 + v) % 4 ≡ v
  rest = omega arith

  state_write :
      let r = with_field b 0x30 (u8 (v * 16)) in
      (bit_and r 0x30 / 16 == v && agree 0x01 r b && agree 0x08 r b && agree 0xC0 r b) ≡ true
  state_write = rw (quarter, rest) at (all_below_sound _ 1024 (b * 4 + v) (omega arith) state_table)

  detection_write :
      let r = with_field b 0xC0 (u8 (v * 64)) in
      (bit_and r 0xC0 / 64 == v && agree 0x01 r b && agree 0x08 r b && agree 0x30 r b) ≡ true
  detection_write =
      rw (quarter, rest) at (all_below_sound _ 1024 (b * 4 + v) (omega arith) detection_table)

module _ (b v : ℕ) (hb : IsByte b) (hv : v < 2) where
  half : (b * 2 + v) / 2 ≡ b
  half = omega arith

  parity : (b * 2 + v) % 2 ≡ v
  parity = omega arith

  activated_write :
      let r = with_flag b 0x01 (flag_of v) in
      (bit_and r 0x01 == v && agree 0x08 r b && agree 0x30 r b && agree 0xC0 r b) ≡ true
  activated_write =
      rw (half, parity) at (all_below_sound _ 512 (b * 2 + v) (omega arith) activated_table)

  go_to_write :
      let r = with_flag b 0x08 (flag_of v) in
      (bit_and r 0x08 == v * 8 && agree 0x01 r b && agree 0x30 r b && agree 0xC0 r b) ≡ true
  go_to_write = rw (half, parity) at (all_below_sound _ 512 (b * 2 + v) (omega arith) go_to_table)

activation_state_code-lt : (st : ActivationState) → activation_state_code st < 4
unfolding activation_state_code
activation_state_code-lt st = ground arith

activation_state_of-code :
    (st : ActivationState) → activation_state_of (activation_state_code st) ≡ st
unfolding activation_state_of activation_state_code
activation_state_of-code reset = refl
activation_state_of-code _ = refl

object_detection_code-lt : (ob : ObjectDetection) → object_detection_code ob < 4
unfolding object_detection_code
object_detection_code-lt ob = ground arith

object_detection_of-code :
    (ob : ObjectDetection) → object_detection_of (object_detection_code ob) ≡ ob
unfolding object_detection_of object_detection_code
object_detection_of-code moving = refl
object_detection_of-code _ = refl

module _ (s : GripperStatus) (hs : IsByte s.gripper_status.raw) where
  open s use {gripper_status as flags}

  pub set_activation_state-HasFields :
      (st : ActivationState)
      → HasFields
          (set_activation_state s st).gripper_status
          (activated flags)
          (go_to_enabled flags)
          st
          (object_detection flags)
  unfolding set_activation_state activated go_to_enabled activation_state object_detection
  set_activation_state-HasFields st = ground (
    arith,
    state_write flags.raw (activation_state_code st) hs (activation_state_code-lt st),
    activation_state_of-code st,
  )

  pub set_object_detection-HasFields :
      (ob : ObjectDetection)
      → HasFields
          (set_object_detection s ob).gripper_status
          (activated flags)
          (go_to_enabled flags)
          (activation_state flags)
          ob
  unfolding set_object_detection activated go_to_enabled activation_state object_detection
  set_object_detection-HasFields ob = ground (
    arith,
    detection_write flags.raw (object_detection_code ob) hs (object_detection_code-lt ob),
    object_detection_of-code ob,
  )

  pub set_activated-HasFields :
      (on : Bool)
      → HasFields
          (set_activated s on).gripper_status
          on
          (go_to_enabled flags)
          (activation_state flags)
          (object_detection flags)
  unfolding set_activated activated go_to_enabled activation_state object_detection
  set_activated-HasFields true = ground (arith, activated_write flags.raw 1 hs (omega arith))
  set_activated-HasFields false = ground (arith, activated_write flags.raw 0 hs (omega arith))

  pub set_go_to_enabled-HasFields :
      (on : Bool)
      → HasFields
          (set_go_to_enabled s on).gripper_status
          (activated flags)
          on
          (activation_state flags)
          (object_detection flags)
  unfolding set_go_to_enabled activated go_to_enabled activation_state object_detection
  set_go_to_enabled-HasFields true = ground (arith, go_to_write flags.raw 1 hs (omega arith))
  set_go_to_enabled-HasFields false = ground (arith, go_to_write flags.raw 0 hs (omega arith))

  -- On a status whose flags are a byte, every writer of the flags makes the field that it names
  -- read back as written, and leaves the three other fields of the byte as they read before, for
  -- every state, detection and flag.
  pub writers-HasFields :
      (st : ActivationState) (ob : ObjectDetection) (on : Bool)
      → HasFields
          (set_activated s on).gripper_status
          on
          (go_to_enabled flags)
          (activation_state flags)
          (object_detection flags)
        × HasFields
            (set_go_to_enabled s on).gripper_status
            (activated flags)
            on
            (activation_state flags)
            (object_detection flags)
        × HasFields
            (set_activation_state s st).gripper_status
            (activated flags)
            (go_to_enabled flags)
            st
            (object_detection flags)
        × HasFields
            (set_object_detection s ob).gripper_status
            (activated flags)
            (go_to_enabled flags)
            (activation_state flags)
            ob
  writers-HasFields st ob on = (
    set_activated-HasFields on,
    set_go_to_enabled-HasFields on,
    set_activation_state-HasFields st,
    set_object_detection-HasFields ob,
  )
