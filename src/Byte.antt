-- ===== src/Byte.antt =====
-- Bytes (uint8_t) and 16-bit words as native numbers. The bit operations have no laws at
-- variables, so a law over a byte or a word is checked at every value.
use grippers.Prelude.{
  ℕ, zero, suc, ◌+◌, ◌*◌, ◌/◌, ◌%◌, ◌<◌, ◌≡◌, refl, Bool, true, ◌&&◌, bit_and, bit_or, List, [],
  ◌∷◌, arith, ◌==◌, ==_iff,
}

abbrev pub u8 : ℕ → ℕ
u8 n = n % 256

abbrev pub u16 : ℕ → ℕ
u16 n = n % 65536

abbrev pub u32 : ℕ → ℕ
u32 n = n % 4294967296

abbrev pub u64 : ℕ → ℕ
u64 n = n % 18446744073709551616

abbrev pub IsByte : ℕ → Type 0
IsByte n = n < 256

abbrev pub AllBytes : List ℕ → Type 0
AllBytes [] = Unit {0}
AllBytes (b ∷ bs) = IsByte b × AllBytes bs

-- Does the test hold at every number below the bound?
unfoldable pub all_below : ℕ → (ℕ → Bool) → Bool
all_below zero test = true
all_below (suc bound) test = all_below bound test && test bound

pub all_below_sound :
    (test : ℕ → Bool) (bound at : ℕ) → at < bound → all_below bound test ≡ true → test at ≡ true
unfolding all_below
all_below_sound test zero at below table = absurd (omega arith)
all_below_sound test (suc bound) at below table = ground (arith, all_below_sound test bound at)

or_table : all_below 65536 (λ x. bit_or (x / 256 * 256) (x % 256) == x) ≡ true
unfolding all_below
or_table = refl

and_table : all_below 65536 (λ x. bit_and x 255 == x % 256) ≡ true
unfolding all_below
and_table = refl

-- A high and a low byte joined by a shift and `|` are their sum.
pub bit_or_bytes : (hi lo : ℕ) → IsByte hi → IsByte lo → bit_or (hi * 256) lo ≡ hi * 256 + lo
bit_or_bytes hi lo h l =
    let x : ℕ = hi * 256 + lo in
    let e : bit_or (x / 256 * 256) (x % 256) ≡ x =
      (==_iff _ x).0 (all_below_sound _ 65536 x (omega arith) or_table) in
    let p : x / 256 ≡ hi = omega arith in let q : x % 256 ≡ lo = omega arith in rw (p, q) at e

-- The mask 0xFF keeps the low byte of a word.
pub bit_and_low_byte : (x : ℕ) → x < 65536 → bit_and x 255 ≡ x % 256
bit_and_low_byte x h = (==_iff _ (x % 256)).0 (all_below_sound _ 65536 x h and_table)
