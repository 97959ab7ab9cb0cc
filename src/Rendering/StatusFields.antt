-- ===== src/Rendering/StatusFields.antt =====
-- The rendered status splits back into its fields, packed bits decoded.
use grippers.Prelude.{
  ℕ, ◌≡◌, refl, ap, ◌∙◌, true, List, [], ◌∷◌, ◌++◌, arith, get_or, bit_and, zero, suc,
}
use grippers.Status.{
  GripperStatus, GripperStatusFlags, ActivationState, reset, in_progress, reserved, complete,
  ObjectDetection, moving, detected_while_opening, detected_while_closing, at_requested_position,
  activated, go_to_enabled, activation_state, object_detection, activation_state_code,
  object_detection_code,
}
use grippers.Fault.{
  GripperFault, ControllerFault, FaultStatus, gripper_fault, controller_fault, gripper_fault_code,
  controller_fault_code,
}
use grippers.Rendering.{
  text, bit_text, decimal, enum_text, flags_text, fault_text, status_text, activation_state_name,
  object_detection_name, gripper_fault_name, controller_fault_name,
}
use grippers.Rendering.Fields.{
  solid, solid-append, bit_text-solid, decimal-solid, field, fields, fields-append, IsRow,
  append_field-IsRow, first-IsRow,
}

activation_state_name-solid : (st : ActivationState) → solid (activation_state_name st) ≡ true
unfolding solid activation_state_name
activation_state_name-solid reset = refl
activation_state_name-solid in_progress = refl
activation_state_name-solid reserved = refl
activation_state_name-solid complete = refl

object_detection_name-solid : (ob : ObjectDetection) → solid (object_detection_name ob) ≡ true
unfolding solid object_detection_name
object_detection_name-solid moving = refl
object_detection_name-solid detected_while_opening = refl
object_detection_name-solid detected_while_closing = refl
object_detection_name-solid at_requested_position = refl

gripper_fault_name-solid : (f : GripperFault) → solid (gripper_fault_name f) ≡ true
unfolding solid gripper_fault_name
gripper_fault_name-solid f = ground arith

controller_fault_name-solid : (f : ControllerFault) → solid (controller_fault_name f) ≡ true
unfolding solid controller_fault_name
controller_fault_name-solid f = ground arith

get_or-solid : (xs : List ℕ) (i : ℕ) → solid xs ≡ true → solid (get_or xs i 0 ∷ 41 ∷ []) ≡ true
unfolding solid
get_or-solid [] i h = refl
get_or-solid (x ∷ xs) zero h = ground arith
get_or-solid (x ∷ xs) (suc i) h = get_or-solid xs i (ground arith)

enum_text-solid :
    (name : List ℕ) (value : ℕ) → solid name ≡ true → solid (enum_text name value) ≡ true
unfolding solid enum_text
enum_text-solid name value h =
    let digit = get_or (text "0123456789ABCDEF") (bit_and value 0x0F) 0 ∷ 41 ∷ [] in
    solid-append name (text "(0x" ++ digit) h (
      solid-append (text "(0x") digit refl
        (get_or-solid (text "0123456789ABCDEF") (bit_and value 0x0F) refl))

joined_IsRow :
    (a b : List ℕ) (fs gs : List (List ℕ))
    → IsRow a fs
    → IsRow b gs
    → IsRow (a ++ 32 ∷ b) (fs ++ gs)
joined_IsRow [] b fs gs r q = absurd r.some_field
joined_IsRow (c ∷ a) b fs gs r q = record {
  some_field = tt;
  splits = fields-append (c ∷ a) b ∙ ap (λ w. w ++ fields b) r.splits ∙ ap (λ w. fs ++ w) q.splits;
}

abbrev pub enum_field : List ℕ → List ℕ → ℕ → List ℕ
enum_field name value_name value = field name (enum_text value_name value)

abbrev pub flags_fields : GripperStatusFlags → List (List ℕ)
flags_fields f =
    field (text "gACT") (bit_text (activated f))
    ∷ field (text "gGTO") (bit_text (go_to_enabled f))
    ∷ enum_field (text "gSTA") (activation_state_name (activation_state f))
        (activation_state_code (activation_state f))
    ∷ enum_field (text "gOBJ") (object_detection_name (object_detection f))
        (object_detection_code (object_detection f))
    ∷ []

abbrev pub fault_fields : FaultStatus → List (List ℕ)
fault_fields f =
    enum_field (text "gFLT") (gripper_fault_name (gripper_fault f))
      (gripper_fault_code (gripper_fault f))
    ∷ enum_field (text "kFLT") (controller_fault_name (controller_fault f))
        (controller_fault_code (controller_fault f))
    ∷ []

flags_text-IsRow : (f : GripperStatusFlags) → IsRow (flags_text f) (flags_fields f)
unfolding flags_text solid
flags_text-IsRow f =
    append_field-IsRow _ (text "gOBJ") _ _
      (append_field-IsRow _ (text "gSTA") _ _
        (append_field-IsRow _ (text "gGTO") (bit_text (go_to_enabled f)) _
          (first-IsRow (text "gACT") (bit_text (activated f)) refl (bit_text-solid (activated f))
            tt)
          refl (bit_text-solid (go_to_enabled f)))
        refl
        (enum_text-solid (activation_state_name (activation_state f))
          (activation_state_code (activation_state f))
          (activation_state_name-solid (activation_state f))))
      refl
      (enum_text-solid (object_detection_name (object_detection f))
        (object_detection_code (object_detection f))
        (object_detection_name-solid (object_detection f)))

fault_text-IsRow : (f : FaultStatus) → IsRow (fault_text f) (fault_fields f)
unfolding fault_text solid
fault_text-IsRow f =
    append_field-IsRow _ (text "kFLT") _ _
      (first-IsRow (text "gFLT") _ refl
        (enum_text-solid (gripper_fault_name (gripper_fault f))
          (gripper_fault_code (gripper_fault f)) (gripper_fault_name-solid (gripper_fault f)))
        tt)
      refl
      (enum_text-solid (controller_fault_name (controller_fault f))
        (controller_fault_code (controller_fault f))
        (controller_fault_name-solid (controller_fault f)))

abbrev pub status_fields : GripperStatus → List (List ℕ)
status_fields s =
    (flags_fields s.gripper_status ++ fault_fields s.fault_status)
    ++ (field (text "gPR") (decimal s.position_request_echo)
        ∷ field (text "gPO") (decimal s.position)
        ∷ field (text "gCU") (decimal s.current)
        ∷ [])

status_text-IsRow : (s : GripperStatus) → IsRow (status_text s) (status_fields s)
unfolding status_text solid
status_text-IsRow s =
    append_field-IsRow _ (text "gCU") (decimal s.current) _
      (append_field-IsRow _ (text "gPO") (decimal s.position) _
        (append_field-IsRow _ (text "gPR") (decimal s.position_request_echo) _
          (joined_IsRow _ _ _ _ (flags_text-IsRow s.gripper_status)
            (fault_text-IsRow s.fault_status))
          refl (decimal-solid s.position_request_echo))
        refl (decimal-solid s.position))
      refl (decimal-solid s.current)

-- A rendered status, split at its spaces, is its nine fields in the manual's order, the packed bits
-- decoded to their names and codes: no name, known or not, breaks the row.
pub fields-status_text : (s : GripperStatus) → fields (status_text s) ≡ status_fields s
fields-status_text s = (status_text-IsRow s).splits
