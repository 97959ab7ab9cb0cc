-- ===== src/Rendering/Fields.antt =====
-- The rendered blocks split back into their fields.
use grippers.Prelude.{
  ℕ, ◌≡◌, refl, ap, ◌∙◌, Bool, true, false, not, ◌&&◌, List, [], ◌∷◌, ◌++◌, ◌==◌, if◌then◌else◌,
  arith, Bool-cases, inl, inr,
}
use grippers.Command.{
  GripperCommand, get, activate, go_to, auto_release, auto_release_open_direction,
}
use grippers.Rendering.{text, append_field, bit_text, decimal, command_text}

-- The words between the spaces: the first one, and the others.
unfoldable pub split : List ℕ → List ℕ × List (List ℕ)
split [] = ([], [])
split (c ∷ cs) = let (w, ws) = split cs in if c == 32 then ([], w ∷ ws) else (c ∷ w, ws)

unfoldable pub fields : List ℕ → List (List ℕ)
unfolding split
fields cs = let (w, ws) = split cs in w ∷ ws

-- No space in it.
unfoldable pub solid : List ℕ → Bool
solid [] = true
solid (c ∷ cs) = not (c == 32) && solid cs

pub solid-append : (xs ys : List ℕ) → solid xs ≡ true → solid ys ≡ true → solid (xs ++ ys) ≡ true
unfolding solid
solid-append [] ys h k = k
solid-append (x ∷ xs) ys h k = ground (arith, solid-append xs ys)

split-solid : (xs : List ℕ) → solid xs ≡ true → split xs ≡ (xs, [])
unfolding solid split
split-solid [] h = refl
split-solid (x ∷ xs) h = elim (Bool-cases (x == 32)) [
  | inl space ↦ absurd (ground arith)
  | inr other ↦ rw (other, split-solid xs (ground arith)) refl
]

split-append : (xs ys : List ℕ) → split (xs ++ 32 ∷ ys) ≡ ((split xs).0, (split xs).1 ++ fields ys)
unfolding fields
split-append [] ys = refl
split-append (x ∷ xs) ys = elim (Bool-cases (x == 32)) [
  | inl space ↦ rw (space, split-append xs ys) refl
  | inr other ↦ rw (other, split-append xs ys) refl
]

fields-solid : (xs : List ℕ) → solid xs ≡ true → fields xs ≡ xs ∷ []
unfolding fields
fields-solid xs h = rw (split-solid xs h) refl

pub fields-append : (xs ys : List ℕ) → fields (xs ++ 32 ∷ ys) ≡ fields xs ++ fields ys
unfolding fields
fields-append xs ys = rw (split-append xs ys) refl

abbrev pub field : List ℕ → List ℕ → List ℕ
field name value = name ++ 61 ∷ value

abbrev pub NonEmpty : List ℕ → Type 0
NonEmpty [] = ⊥
NonEmpty (c ∷ cs) = Unit {0}

-- A text of these fields.
pub record IsRow (out : List ℕ) (fs : List (List ℕ)) : Type 0 where
  pub some_field : NonEmpty out
  pub splits : fields out ≡ fs

field-solid :
    (name value : List ℕ) → solid name ≡ true → solid value ≡ true → solid (field name value) ≡ true
unfolding solid
field-solid name value h k = solid-append name (61 ∷ value) h (solid-append (61 ∷ []) value refl k)

pub append_field-IsRow :
    (out name value : List ℕ) (fs : List (List ℕ))
    → IsRow out fs
    → solid name ≡ true
    → solid value ≡ true
    → IsRow (append_field out name value) (fs ++ field name value ∷ [])
unfolding append_field
append_field-IsRow [] name value fs r h k = absurd r.some_field
append_field-IsRow (c ∷ out) name value fs r h k = record {
  some_field = tt;
  splits =
      fields-append (c ∷ out) (field name value)
      ∙ ap (λ w. fields (c ∷ out) ++ w)
          (fields-solid (field name value) (field-solid name value h k))
      ∙ ap (λ w. w ++ field name value ∷ []) r.splits;
}

pub first-IsRow :
    (name value : List ℕ)
    → solid name ≡ true
    → solid value ≡ true
    → NonEmpty (field name value)
    → IsRow (append_field [] name value) (field name value ∷ [])
unfolding append_field
first-IsRow name value h k some = record {
  some_field = some;
  splits = fields-solid (field name value) (field-solid name value h k);
}

pub bit_text-solid : (on : Bool) → solid (bit_text on) ≡ true
unfolding solid
bit_text-solid true = refl
bit_text-solid false = refl

pub decimal-solid : (n : ℕ) → solid (decimal n) ≡ true
unfolding solid decimal
decimal-solid n = ground arith

-- The documented bytes of a command, by name: its four action bits and its three numbers.
abbrev pub command_fields : GripperCommand → List (List ℕ)
command_fields c =
    field (text "rACT") (bit_text (get c.action activate))
    ∷ field (text "rGTO") (bit_text (get c.action go_to))
    ∷ field (text "rATR") (bit_text (get c.action auto_release))
    ∷ field (text "rARD") (bit_text (get c.action auto_release_open_direction))
    ∷ field (text "rPR") (decimal c.position_request)
    ∷ field (text "rSP") (decimal c.speed)
    ∷ field (text "rFR") (decimal c.force)
    ∷ []

command_text-IsRow : (c : GripperCommand) → IsRow (command_text c) (command_fields c)
unfolding command_text solid
command_text-IsRow c =
    append_field-IsRow _ (text "rFR") (decimal c.force) _
      (append_field-IsRow _ (text "rSP") (decimal c.speed) _
        (append_field-IsRow _ (text "rPR") (decimal c.position_request) _
          (append_field-IsRow _ (text "rARD") (bit_text (get c.action auto_release_open_direction))
            _
            (append_field-IsRow _ (text "rATR") (bit_text (get c.action auto_release)) _
              (append_field-IsRow _ (text "rGTO") (bit_text (get c.action go_to)) _
                (first-IsRow (text "rACT") (bit_text (get c.action activate)) refl
                  (bit_text-solid (get c.action activate)) tt)
                refl (bit_text-solid (get c.action go_to)))
              refl (bit_text-solid (get c.action auto_release)))
            refl (bit_text-solid (get c.action auto_release_open_direction)))
          refl (decimal-solid c.position_request))
        refl (decimal-solid c.speed))
      refl (decimal-solid c.force)

-- A rendered command, split at its spaces, is its seven fields in the manual's order.
pub fields-command_text : (c : GripperCommand) → fields (command_text c) ≡ command_fields c
fields-command_text c = (command_text-IsRow c).splits
