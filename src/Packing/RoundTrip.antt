-- ===== src/Packing/RoundTrip.antt =====
-- The wire form of a block carries its documented bytes, whatever the host's byte order.
use grippers.Prelude.{
  ap, ℕ, zero, suc, ◌+◌, ◌*◌, ◌/◌, ◌%◌, ◌<◌, ◌≤◌, ◌≡◌, refl, bit_and, List, [], ◌∷◌, get_or, set,
  length, length-set, get_or-set, arith, ◌==◌, ltb, leb, ◌&&◌, if◌then◌else◌, Bool-cases, inl, inr,
}
use grippers.Byte.{IsByte, AllBytes, u8, bit_or_bytes, bit_and_low_byte}
use grippers.Packing.{
  registers_from, registers_from_bytes, store_register, bytes_from, bytes_from_registers,
}

-- The byte that register `j / 2` carries at place `j`: its high byte at an even place.
abbrev pub byte_at : List ℕ → ℕ → ℕ
byte_at registers j =
    if j % 2 == 0 then get_or registers (j / 2) 0 / 256 else get_or registers (j / 2) 0 % 256

abbrev pub AllWords : List ℕ → Type 0
AllWords [] = Unit {0}
AllWords (r ∷ rs) = (r < 65536) × AllWords rs

get_or-AllWords : (rs : List ℕ) (i : ℕ) → AllWords rs → get_or rs i 0 < 65536
get_or-AllWords [] i h = omega arith
get_or-AllWords (r ∷ rs) zero h = h.0
get_or-AllWords (r ∷ rs) (suc i) h = get_or-AllWords rs i h.1

pub get_or-AllBytes : (bs : List ℕ) (i : ℕ) → AllBytes bs → IsByte (get_or bs i 0)
get_or-AllBytes [] i h = omega arith
get_or-AllBytes (b ∷ bs) zero h = h.0
get_or-AllBytes (b ∷ bs) (suc i) h = get_or-AllBytes bs i h.1

length-registers_from : (k i : ℕ) (block : List ℕ) → length (registers_from k i block) ≡ k
unfolding registers_from
length-registers_from zero i block = refl
length-registers_from (suc k) i block = omega (arith, length-registers_from k (i + 1) block)

get_or-registers_from :
    (k i n : ℕ) (block : List ℕ)
    → AllBytes block
    → n < k
    → get_or (registers_from k i block) n 0
      ≡ get_or block (2 * (i + n)) 0 * 256 + get_or block (2 * (i + n) + 1) 0
unfolding registers_from
get_or-registers_from zero i n block hb h = absurd (omega arith)
get_or-registers_from (suc k) i zero block hb h =
    let e : i + 0 ≡ i = omega arith in
    rw e (
      omega (
        arith,
        bit_or_bytes (get_or block (2 * i) 0) (get_or block (2 * i + 1) 0)
            (get_or-AllBytes block (2 * i) hb) (get_or-AllBytes block (2 * i + 1) hb),
        get_or-AllBytes block (2 * i) hb,
        get_or-AllBytes block (2 * i + 1) hb,
      ))
get_or-registers_from (suc k) i (suc n) block hb h =
    let e : i + suc n ≡ i + 1 + n = omega arith in
    rw e (get_or-registers_from k (i + 1) n block hb (omega arith))

length-store_register :
    (i r : ℕ) (block : List ℕ) → length (store_register i r block) ≡ length block
unfolding store_register
length-store_register i r block = rw (length-set, length-set)

get_or-store_register :
    (i r j : ℕ) (block : List ℕ)
    → 2 * i + 1 < length block
    → r < 65536
    → get_or (store_register i r block) j 0
      ≡ (if j / 2 == i then (if j % 2 == 0 then r / 256 else r % 256) else get_or block j 0)
unfolding store_register
get_or-store_register i r j block h hr = ground (
  arith,
  get_or-set (set block (2 * i) (u8 (r / 256))) (2 * i + 1) j (u8 (bit_and r 0xFF)) 0,
  get_or-set block (2 * i) j (u8 (r / 256)) 0,
  length-set block (2 * i) (u8 (r / 256)),
  bit_and_low_byte r hr,
)

length-bytes_from : (k i : ℕ) (rs block : List ℕ) → length (bytes_from k i rs block) ≡ length block
unfolding bytes_from
length-bytes_from zero i rs block = refl
length-bytes_from (suc k) i rs block = omega (
  arith,
  length-bytes_from k (i + 1) rs (store_register i (get_or rs i 0) block),
  length-store_register i (get_or rs i 0) block,
)

get_or-bytes_from :
    (k i j : ℕ) (rs block : List ℕ)
    → 2 * (i + k) ≤ length block
    → AllWords rs
    → get_or (bytes_from k i rs block) j 0
      ≡ (if leb i (j / 2) && ltb (j / 2) (i + k) then byte_at rs j else get_or block j 0)
unfolding bytes_from
get_or-bytes_from zero i j rs block h hr = ground arith
get_or-bytes_from (suc k) i j rs block h hr = ground (
  arith,
  get_or-bytes_from k (i + 1) j rs (store_register i (get_or rs i 0) block),
  length-store_register i (get_or rs i 0) block,
  get_or-store_register i (get_or rs i 0) j block,
  get_or-AllWords rs i hr,
)

-- Unpacking `count` registers writes their bytes, the high one first, to the first `2 * count`
-- places of the block, and leaves every later place of the block and its width alone.
pub bytes_from_registers_lem :
    (count j : ℕ) (registers block : List ℕ)
    → 2 * count ≤ length block
    → AllWords registers
    → (get_or (bytes_from_registers count registers block) j 0
        ≡ (if ltb j (2 * count) then byte_at registers j else get_or block j 0))
      × (length (bytes_from_registers count registers block) ≡ length block)
unfolding bytes_from_registers
bytes_from_registers_lem count j rs block h hr =
    (ground (arith, get_or-bytes_from count 0 j rs block), length-bytes_from count 0 rs block)

AllWords-registers_from :
    (k i : ℕ) (block : List ℕ) → AllBytes block → AllWords (registers_from k i block)
unfolding registers_from
AllWords-registers_from zero i block hb = tt
AllWords-registers_from (suc k) i block hb =
    (omega arith, AllWords-registers_from k (i + 1) block hb)

byte_at-registers_from :
    (count j : ℕ) (block : List ℕ)
    → AllBytes block
    → j < 2 * count
    → byte_at (registers_from count 0 block) j ≡ get_or block j 0
byte_at-registers_from count j block hb h =
    let n : ℕ = j / 2 in
    let e : get_or (registers_from count 0 block) n 0
        ≡ get_or block (2 * (0 + n)) 0 * 256 + get_or block (2 * (0 + n) + 1) 0 =
      get_or-registers_from count 0 n block hb (omega arith) in
    let at : ℕ → ℕ = λ t. get_or block t 0 in
    let b : IsByte (get_or block (2 * (0 + n) + 1) 0) =
      get_or-AllBytes block (2 * (0 + n) + 1) hb in
    elim (Bool-cases (j % 2 == 0)) [
      | inl even ↦
          let p : get_or block (2 * (0 + n)) 0 ≡ get_or block j 0 = ap at (ground arith) in
          rw even (omega (arith, e, p, b))
      | inr odd ↦
          let p : get_or block (2 * (0 + n) + 1) 0 ≡ get_or block j 0 = ap at (ground arith) in
          rw odd (omega (arith, e, p, b))
    ]

-- Packing the first `count` registers of a block of bytes and unpacking them over another block,
-- which has room for them, copies the first `2 * count` bytes, and leaves the rest of that block
-- and its width alone.
pub bytes_from_registers-registers_from_bytes :
    (count j : ℕ) (block target : List ℕ)
    → AllBytes block
    → 2 * count ≤ length target
    → let copied = bytes_from_registers count (registers_from_bytes count block) target in
      (get_or copied j 0 ≡ (if ltb j (2 * count) then get_or block j 0 else get_or target j 0))
      × (length copied ≡ length target)
unfolding registers_from_bytes
bytes_from_registers-registers_from_bytes count j block target hb h = ground (
  arith,
  bytes_from_registers_lem count j (registers_from count 0 block) target,
  AllWords-registers_from count 0 block hb,
  byte_at-registers_from count j block hb,
)

-- A packed block has `count` registers, each a 16-bit word.
pub registers_from_bytes-AllWords :
    (count : ℕ) (block : List ℕ)
    → AllBytes block
    → (length (registers_from_bytes count block) ≡ count)
      × AllWords (registers_from_bytes count block)
unfolding registers_from_bytes
registers_from_bytes-AllWords count block hb =
    (length-registers_from count 0 block, AllWords-registers_from count 0 block hb)
