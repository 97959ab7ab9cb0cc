-- ===== src/Rendering/Injective.antt =====
-- What a rendered command tells.
use grippers.Prelude.{
  ℕ, ◌≡◌, ◌*◌, ◌+◌, ◌-◌, refl, drop, get_or, ap, ◌∙◌, Bool, true, false, List, [], ◌∷◌, arith,
}
use mathlib.Core.Path.{sym}
use grippers.Byte.{IsByte, AllBytes}
use grippers.Command.{
  command_data, GripperCommand, get, ActionRequestBit, activate, go_to, auto_release,
  auto_release_open_direction,
}
use grippers.Rendering.{bit_text, decimal, command_text}
use grippers.Rendering.Fields.{fields, command_fields, fields-command_text}

-- The number that decimal digits stand for.
abbrev number : ℕ → List ℕ → ℕ
number acc [] = acc
number acc (d ∷ ds) = number (acc * 10 + (d - 48)) ds

number-decimal : (n : ℕ) → IsByte n → number 0 (decimal n) ≡ n
unfolding decimal
number-decimal n h = ground arith

decimal_injective : (a b : ℕ) → IsByte a → IsByte b → decimal a ≡ decimal b → a ≡ b
decimal_injective a b ha hb e =
    sym (number-decimal a ha) ∙ ap (λ d. number 0 d) e ∙ number-decimal b hb

bit_text_injective : (a b : Bool) → bit_text a ≡ bit_text b → a ≡ b
bit_text_injective true true e = refl
bit_text_injective false false e = refl
bit_text_injective true false e = ground arith
bit_text_injective false true e = ground arith

-- The value of the field at a place, whose name and `=` have this length.
abbrev value_at : ℕ → ℕ → List (List ℕ) → List ℕ
value_at place width fs = drop width (get_or fs place [])

same_bits :
    (c d : GripperCommand) (bit : ActionRequestBit)
    → command_fields c ≡ command_fields d
    → get c.action bit ≡ get d.action bit
same_bits c d activate same =
    bit_text_injective (get c.action activate) (get d.action activate) (ap (value_at 0 5) same)
same_bits c d go_to same =
    bit_text_injective (get c.action go_to) (get d.action go_to) (ap (value_at 1 5) same)
same_bits c d auto_release same =
    bit_text_injective (get c.action auto_release) (get d.action auto_release)
      (ap (value_at 2 5) same)
same_bits c d auto_release_open_direction same =
    bit_text_injective (get c.action auto_release_open_direction)
      (get d.action auto_release_open_direction) (ap (value_at 3 5) same)

-- Two commands of bytes that render alike have the same action bits, position, speed and force.
pub command_text_injective :
    (c d : GripperCommand)
    → AllBytes (command_data c)
    → AllBytes (command_data d)
    → command_text c ≡ command_text d
    → ((bit : ActionRequestBit) → get c.action bit ≡ get d.action bit)
      × (c.position_request ≡ d.position_request)
      × (c.speed ≡ d.speed)
      × (c.force ≡ d.force)
unfolding command_data
command_text_injective c d hc hd e =
    let same : command_fields c ≡ command_fields d =
      sym (fields-command_text c) ∙ ap fields e ∙ fields-command_text d in
    (
      λ bit. same_bits c d bit same,
      decimal_injective _ _ hc.1.1.1.0 hd.1.1.1.0 (ap (value_at 4 4) same),
      decimal_injective _ _ hc.1.1.1.1.0 hd.1.1.1.1.0 (ap (value_at 5 4) same),
      decimal_injective _ _ hc.1.1.1.1.1.0 hd.1.1.1.1.1.0 (ap (value_at 6 4) same),
    )
