-- ===== src/RegisterModel/Wire.antt =====
-- The register file as a carrier of blocks, and the reads of it.
use grippers.Prelude.{
  ℕ_discrete, inl, inr, sym, ◌∙◌, Bool-cases, ℕ, zero, suc, ◌-◌, ◌+◌, ◌<◌, ◌≤◌, ◌≡◌, ◌↔◌, refl, ap,
  List, [], ◌∷◌, length, get_or, set, get_or-set, length-set, arith, ltb, leb, ◌&&◌, if◌then◌else◌,
  Bool, true,
}
use grippers.Byte.{u16, AllBytes}
use grippers.Packing.{registers_from_bytes, bytes_from_registers}
use grippers.Packing.RoundTrip.{
  bytes_from_registers-registers_from_bytes, registers_from_bytes-AllWords,
}
use grippers.Status.{GripperStatus, IsBlock, zero_status, status_data, status_of_data}
use grippers.RegisterMap.{status_address}
use grippers.RegisterModel.{
  RegisterModel, contains_range, read, read_from, in_command_block, read_refused, copy_in, copy_out,
  status, set_status,
}

list_ext :
    (xs ys : List ℕ) → length xs ≡ length ys → ((j : ℕ) → get_or xs j 0 ≡ get_or ys j 0) → xs ≡ ys
list_ext [] [] e h = refl
list_ext [] (y ∷ ys) e h = absurd (omega arith)
list_ext (x ∷ xs) [] e h = absurd (omega arith)
list_ext (x ∷ xs) (y ∷ ys) e h = ground (arith, h 0, list_ext xs ys (omega arith) (λ j. h (suc j)))

copied_past : (n j : ℕ) (xs : List ℕ) → length xs ≤ j → get_or xs j 0 ≡ 0
copied_past n j [] h = refl
copied_past n zero (x ∷ xs) h = absurd (omega arith)
copied_past n (suc j) (x ∷ xs) h = copied_past n j xs (omega arith)

-- A whole block of 16 bytes goes to 8 registers and back unchanged.
pub whole_block :
    (block target : List ℕ)
    → AllBytes block
    → length block ≡ 16
    → length target ≡ 16
    → bytes_from_registers 8 (registers_from_bytes 8 block) target ≡ block
whole_block block target hb e t =
    list_ext _ _ (ground (arith, step 0))
      (λ j. ground (arith, step j, copied_past 0 j block, copied_past 0 j target))
  where
    step :
        (j : ℕ)
        → let copied = bytes_from_registers 8 (registers_from_bytes 8 block) target in
          (get_or copied j 0 ≡ (if ltb j 16 then get_or block j 0 else get_or target j 0))
          × (length copied ≡ length target)
    step j = bytes_from_registers-registers_from_bytes 8 j block target hb (omega arith)

copy_out-copy_in :
    (registers : ℕ → ℕ) (xs rest : List ℕ) (before start address quantity : ℕ)
    → ((i : ℕ) → i < length xs → get_or rest (before + i) 0 ≡ get_or xs i 0)
    → address ≡ start + before
    → before + length xs ≤ quantity
    → copy_out (length xs) address (copy_in quantity start rest registers) ≡ xs
unfolding copy_out copy_in
copy_out-copy_in registers [] rest before start address quantity h e q = refl
copy_out-copy_in registers (x ∷ xs) rest before start address quantity h e q = ground (
  arith,
  h 0,
  ap (λ (t : ℕ). get_or rest t 0) here,
  copy_out-copy_in registers xs rest (before + 1) start (address + 1) quantity later (omega arith)
      (omega arith),
)
  where
    here : before + 0 ≡ address - start
    here = omega arith

    later : (i : ℕ) → i < length xs → get_or rest (before + 1 + i) 0 ≡ get_or xs i 0
    later i hi =
        let p : before + suc i ≡ before + 1 + i = omega arith in rw p at (h (suc i) (omega arith))

-- What was copied in is what is copied out.
copied_back :
    (registers : ℕ → ℕ) (xs : List ℕ) (address : ℕ)
    → copy_out (length xs) address (copy_in (length xs) address xs registers) ≡ xs
copied_back registers xs address =
    copy_out-copy_in registers xs xs 0 address address (length xs)
      (λ i hi. ap (λ (t : ℕ). get_or xs t 0) (omega arith)) (omega arith) (omega arith)

status_of_data-status_data : (s : GripperStatus) → status_of_data (status_data s) ≡ s
unfolding status_of_data status_data
status_of_data-status_data s = refl

-- A status written to the register file is read back from it.
pub status-set_status :
    (s : GripperStatus) (m : RegisterModel) → IsBlock s → status (set_status s m) ≡ s
unfolding status set_status
status-set_status s m h =
    let packed = registers_from_bytes 8 (status_data s) in
    let words : length packed ≡ 8 = (registers_from_bytes-AllWords 8 (status_data s) h.bytes).0 in
    let back : copy_out 8 status_address (copy_in 8 status_address packed m.registers) ≡ packed =
      rw words at (copied_back m.registers packed status_address) in
    let unpack : List ℕ → GripperStatus =
      λ r. status_of_data (bytes_from_registers 8 r (status_data zero_status)) in
    ap unpack back
    ∙ ap status_of_data (whole_block (status_data s) (status_data zero_status) h.bytes h.width refl)
    ∙ status_of_data-status_data s

-- A range that is not empty is contained exactly when it ends within the register file.
pub contains_range_iff :
    (address quantity : ℕ)
    → address < 65536
    → quantity < 65536
    → 0 < address + quantity
    → (contains_range address quantity ≡ true) ↔ (address + quantity ≤ 2008)
unfolding contains_range
contains_range_iff address quantity ha hq h = ground arith

within_file :
    (address quantity : ℕ)
    → address < 65536
    → quantity < 65536
    → 0 < address + quantity
    → contains_range address quantity ≡ leb (address + quantity) 2008
unfolding contains_range
within_file address quantity ha hq h = ground arith

get_or-read_from :
    (left i j address : ℕ) (registers : ℕ → ℕ) (out : List ℕ)
    → i + left ≤ length out
    → address + i + left ≤ 65536
    → get_or (read_from left i address registers out) j 0 ≡ (
        if leb i j && ltb j (i + left)
        then (if in_command_block (address + j) then 0 else registers (address + j))
        else get_or out j 0)
unfolding read_from
get_or-read_from zero i j address registers out h a = ground arith
get_or-read_from (suc left) i j address registers out h a =
    let reg : u16 (address + i) ≡ address + i = omega arith in
    let v : ℕ = if in_command_block (address + i) then 0 else registers (address + i) in
    rw reg (elim (ℕ_discrete i j) [
      | yes here ↦ rw (sym here) (
          ground (
            arith,
            get_or-read_from left (i + 1) i address registers (set out i v),
            length-set out i v,
            get_or-set out i i v 0,
          ))
      | no there ↦ ground (
        arith,
        get_or-read_from left (i + 1) j address registers (set out i v),
        length-set out i v,
        get_or-set out i j v 0,
      )
    ])

-- The registers of the command block.
abbrev pub is_in_command_block : ℕ → Bool
is_in_command_block a = leb 1000 a && ltb a 1008

-- Of 16-bit addresses and quantities, into a buffer that is long enough: a read that ends at
-- register 2008 or before it fills the buffer with the registers, those of the command block as
-- zeros, and leaves the model as it was; any other read leaves the buffer and logs one refusal.
pub read_lem :
    (address quantity j : ℕ) (out : List ℕ) (m : RegisterModel)
    → address < 65536
    → quantity < 65536
    → quantity ≤ length out
    → j < quantity
    → (get_or (read address quantity out m).0 j 0 ≡ (
        if leb (address + quantity) 2008
        then (if is_in_command_block (address + j) then 0 else m.registers (address + j))
        else get_or out j 0))
      × ((read address quantity out m).1 ≡ (
          if leb (address + quantity) 2008
          then m
          else record m { log = read_refused address quantity ∷ m.log }))
unfolding read in_command_block
read_lem address quantity j out m ha hq h hj =
    let file = within_file address quantity ha hq (omega arith) in
    elim (Bool-cases (leb (address + quantity) 2008)) [
      | inl inside ↦
          rw (file, inside)
            (
              get_or-read_from quantity 0 j address m.registers out (omega arith)
                    (ground (arith, inside))
                  ∙ ground arith,
              refl,
            )
      | inr outside ↦ rw (file, outside) (refl, refl)
    ]
