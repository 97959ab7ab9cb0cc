-- ===== src/Command/Bits.antt =====
-- The named bits are independent of one another, and equality of blocks is equality of bytes.
use grippers.Prelude.{
  ℕ, ◌+◌, ◌*◌, ◌/◌, ◌%◌, ◌<◌, ◌≡◌, refl, Bool, true, false, ◌&&◌, ◌||◌, not, List, [], ◌∷◌, ◌==◌,
  if◌then◌else◌, arith, ◌↔◌,
}
use grippers.Byte.{IsByte, all_below, all_below_sound}
use grippers.Command.{
  ActionRequestBit, activate, go_to, auto_release, auto_release_open_direction, bit_index,
  NamedBitArray, get, set, unset, set_to, get_bit, set_bit, unset_bit, GripperCommand, bytes_eq,
  command_eq, command_data,
}

bool_eq : Bool → Bool → Bool
bool_eq true b = b
bool_eq false b = not b

bool_eq_sound : (a b : Bool) → bool_eq a b ≡ true → a ≡ b
unfolding bool_eq
bool_eq_sound a b h = ground arith

abbrev value_of : ℕ → ℕ
value_of x = x / 64

abbrev first_of_pair : ℕ → ℕ
first_of_pair x = x / 8 % 8

abbrev second_of_pair : ℕ → ℕ
second_of_pair x = x % 8

set_table :
    all_below 16384 (λ x.
      bool_eq
        (get_bit (set_bit (value_of x) (first_of_pair x)) (second_of_pair x))
        (first_of_pair x == second_of_pair x || get_bit (value_of x) (second_of_pair x)))
    ≡ true
unfolding all_below get_bit set_bit bool_eq
set_table = refl

unset_table :
    all_below 16384 (λ x.
      bool_eq
        (get_bit (unset_bit (value_of x) (first_of_pair x)) (second_of_pair x))
        (not (first_of_pair x == second_of_pair x) && get_bit (value_of x) (second_of_pair x)))
    ≡ true
unfolding all_below get_bit unset_bit bool_eq
unset_table = refl

module _ (v i j : ℕ) (hv : IsByte v) (hi : i < 8) (hj : j < 8) where
  code : ℕ
  code = v * 64 + i * 8 + j

  code-value : value_of code ≡ v
  unfolding code
  code-value = omega arith

  code-first : first_of_pair code ≡ i
  unfolding code
  code-first = omega arith

  code-second : second_of_pair code ≡ j
  unfolding code
  code-second = omega arith

  code-lt : code < 16384
  unfolding code
  code-lt = omega arith

  get_bit-set_bit : get_bit (set_bit v i) j ≡ (i == j || get_bit v j)
  get_bit-set_bit =
      rw (code-value, code-first, code-second) at
        (bool_eq_sound _ _ (all_below_sound _ 16384 code code-lt set_table))

  get_bit-unset_bit : get_bit (unset_bit v i) j ≡ (not (i == j) && get_bit v j)
  get_bit-unset_bit =
      rw (code-value, code-first, code-second) at
        (bool_eq_sound _ _ (all_below_sound _ 16384 code code-lt unset_table))

pub bit_index-lt : (b : ActionRequestBit) → bit_index b < 8
bit_index-lt activate = omega arith
bit_index-lt go_to = omega arith
bit_index-lt auto_release = omega arith
bit_index-lt auto_release_open_direction = omega arith

-- In an action byte, writing one bit reads back as written and leaves every other bit as it was.
pub get-set_to :
    (a : NamedBitArray) (b c : ActionRequestBit) (on : Bool)
    → IsByte a.value
    → get (set_to a b on) c ≡ (if bit_index b == bit_index c then on else get a c)
unfolding get set_to set unset
get-set_to a b c on h = ground (
  arith,
  get_bit-set_bit a.value (bit_index b) (bit_index c) h (bit_index-lt b) (bit_index-lt c),
  get_bit-unset_bit a.value (bit_index b) (bit_index c) h (bit_index-lt b) (bit_index-lt c),
)

-- A written action byte is a byte.
pub set_to-IsByte :
    (a : NamedBitArray) (b : ActionRequestBit) (on : Bool) → IsByte (set_to a b on).value
unfolding set_to set unset set_bit unset_bit
set_to-IsByte a b true = omega arith
set_to-IsByte a b false = omega arith

bytes_eq_refl : (xs : List ℕ) → bytes_eq xs xs ≡ true
unfolding bytes_eq
bytes_eq_refl [] = refl
bytes_eq_refl (x ∷ xs) = ground (arith, bytes_eq_refl xs)

bytes_eq_sound : (xs ys : List ℕ) → bytes_eq xs ys ≡ true → xs ≡ ys
unfolding bytes_eq
bytes_eq_sound [] [] h = refl
bytes_eq_sound [] (y ∷ ys) h = cc
bytes_eq_sound (x ∷ xs) [] h = cc
bytes_eq_sound (x ∷ xs) (y ∷ ys) h = ground (arith, bytes_eq_sound xs ys)

command_data_injective : (a b : GripperCommand) → command_data a ≡ command_data b → a ≡ b
unfolding command_data
command_data_injective a b e = ground arith

-- Two command blocks compare equal exactly when every field is equal.
pub command_eq_iff : (a b : GripperCommand) → (command_eq a b ≡ true) ↔ (a ≡ b)
unfolding command_eq
command_eq_iff a b = (
  λ h. command_data_injective a b (bytes_eq_sound _ _ h),
  λ e. rw e (bytes_eq_refl (command_data b)),
)
