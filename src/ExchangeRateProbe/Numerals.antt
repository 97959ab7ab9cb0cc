-- ===== src/ExchangeRateProbe/Numerals.antt =====
-- The texts that parseLong() takes, by a grammar of their own.
use mathlib.Core.Option.{none}
use grippers.Prelude.{
  ◌∙◌, ℕ, ◌+◌, ◌-◌, ◌*◌, ◌≡◌, ◌↔◌, refl, ap, Bool, true, false, List, [], ◌∷◌, ◌++◌, ◌||◌, arith,
  Bool-cases, inl, inr, ◌==◌, if◌then◌else◌,
}
use grippers.ExchangeRateProbe.{
  parse_long, read_number, some, Option, whole_within, strtol, ℤ, pos, negsuc, ltb_ℤ, is_space,
  is_digit, skip_spaces, take_sign, take_digits, saturate,
}

pub data Sign : Type 0 where
  unsigned : Sign
  plus : Sign
  minus : Sign

abbrev pub sign_text : Sign → List ℕ
sign_text unsigned = []
sign_text plus = 43 ∷ []
sign_text minus = 45 ∷ []

abbrev pub is_minus : Sign → Bool
is_minus unsigned = false
is_minus plus = false
is_minus minus = true

abbrev pub number : ℕ → List ℕ → ℕ
number acc [] = acc
number acc (c ∷ s) = number (acc * 10 + (c - 48)) s

abbrev pub signed : Bool → ℕ → ℤ
signed false n = pos n
signed true n = if n == 0 then pos 0 else negsuc (n - 1)

abbrev pub AllSpaces : List ℕ → Type 0
AllSpaces [] = Unit {0}
AllSpaces (c ∷ s) = (is_space c ≡ true) × AllSpaces s

abbrev pub AllDigits : List ℕ → Type 0
AllDigits [] = Unit {0}
AllDigits (c ∷ s) = (is_digit c ≡ true) × AllDigits s

-- Any spaces, then a sign or none, then one or more digits, and no more.
pub record Numeral (s : List ℕ) (v : ℤ) : Type 0 where
  pub leading : List ℕ
  pub spaces : AllSpaces leading
  pub sign : Sign
  pub first : ℕ
  pub figures : List ℕ
  pub digits : AllDigits (first ∷ figures)
  pub spelled : s ≡ leading ++ (sign_text sign ++ (first ∷ figures))
  pub value : v ≡ signed (is_minus sign) (number 0 (first ∷ figures))

-- The ends of a long are out of the range.
pub record Proper (long_max : ℕ) (least greatest : ℤ) : Type 0 where
  pub above : ltb_ℤ (negsuc long_max) least ≡ true
  pub below : ltb_ℤ greatest (pos long_max) ≡ true

-- The spaces that are skipped.
record Skips (s : List ℕ) : Type 0 where
  leading : List ℕ
  spaces : AllSpaces leading
  split : s ≡ leading ++ skip_spaces s

skip_spaces-Skips : (s : List ℕ) → Skips s
unfolding skip_spaces
skip_spaces-Skips [] = record { leading = []; spaces = tt; split = refl }
skip_spaces-Skips (c ∷ s) =
    let later = skip_spaces-Skips s in
    elim (Bool-cases (is_space c)) [
      | inl space ↦ record {
        leading = c ∷ later.leading;
        spaces = (space, later.spaces);
        split = rw space (ap (λ t. c ∷ t) later.split);
      }
      | inr other ↦ record { leading = []; spaces = tt; split = rw other refl }
    ]

record Signs (s : List ℕ) : Type 0 where
  sign : Sign
  split : s ≡ sign_text sign ++ (take_sign s).1
  minus : (take_sign s).0 ≡ is_minus sign

take_sign-Signs : (s : List ℕ) → Signs s
unfolding take_sign
take_sign-Signs [] = record { sign = unsigned; split = refl; minus = refl }
take_sign-Signs (c ∷ s) = elim (Bool-cases (c == 45)) [
  | inl m ↦ record {
    sign = minus;
    split = rw m (ap (λ t. t ∷ s) (ground (arith, m)));
    minus = rw m refl;
  }
  | inr no_minus ↦ elim (Bool-cases (c == 43)) [
    | inl p ↦ record {
      sign = plus;
      split = rw (no_minus, p) (ap (λ t. t ∷ s) (ground (arith, p)));
      minus = rw (no_minus, p) refl;
    }
    | inr no_plus ↦ record {
      sign = unsigned;
      split = rw (no_minus, no_plus) refl;
      minus = rw (no_minus, no_plus) refl;
    }
  ]
]

-- Where nothing stands after the digits, they are the whole text.
take_digits-whole :
    (acc : ℕ) (s : List ℕ)
    → (take_digits acc s).1 ≡ []
    → AllDigits s × ((take_digits acc s).0 ≡ number acc s)
unfolding take_digits
take_digits-whole acc [] whole = (tt, refl)
take_digits-whole acc (c ∷ s) whole = elim (Bool-cases (is_digit c)) [
  | inl digit ↦
      let later = take_digits-whole (acc * 10 + (c - 48)) s (rw digit at whole) in
      ((digit, later.0), rw digit later.1)
  | inr other ↦ absurd (ground (arith, rw other at whole))
]

take_digits-all : (acc : ℕ) (s : List ℕ) → AllDigits s → take_digits acc s ≡ (number acc s, [])
unfolding take_digits
take_digits-all acc [] all = refl
take_digits-all acc (c ∷ s) all = rw all.0 (take_digits-all (acc * 10 + (c - 48)) s all.1)

skip_spaces-leading :
    (leading s : List ℕ) → AllSpaces leading → skip_spaces s ≡ s → skip_spaces (leading ++ s) ≡ s
unfolding skip_spaces
skip_spaces-leading [] s spaces stops = stops
skip_spaces-leading (c ∷ leading) s spaces stops =
    rw spaces.0 (skip_spaces-leading leading s spaces.1 stops)

skip_spaces-stops : (c : ℕ) (s : List ℕ) → is_space c ≡ false → skip_spaces (c ∷ s) ≡ c ∷ s
unfolding skip_spaces
skip_spaces-stops c s other = rw other refl

skip_spaces-signed :
    (sign : Sign) (first : ℕ) (figures : List ℕ)
    → is_digit first ≡ true
    → (let s = sign_text sign ++ (first ∷ figures) in skip_spaces s ≡ s)
skip_spaces-signed unsigned first figures digit =
    skip_spaces-stops first figures (ground (arith, digit))
skip_spaces-signed plus first figures digit = skip_spaces-stops 43 (first ∷ figures) refl
skip_spaces-signed minus first figures digit = skip_spaces-stops 45 (first ∷ figures) refl

take_sign-signed :
    (sign : Sign) (first : ℕ) (figures : List ℕ)
    → is_digit first ≡ true
    → take_sign (sign_text sign ++ (first ∷ figures)) ≡ (is_minus sign, first ∷ figures)
unfolding take_sign
take_sign-signed unsigned first figures digit =
    let no_minus : (first == 45) ≡ false = ground (arith, digit) in
    let no_plus : (first == 43) ≡ false = ground (arith, digit) in rw (no_minus, no_plus) refl
take_sign-signed plus first figures digit = refl
take_sign-signed minus first figures digit = refl

-- A value within a proper range is the number's own.
saturate-signed :
    (long_max : ℕ) (negative : Bool) (n : ℕ) (least greatest v : ℤ)
    → Proper long_max least greatest
    → ltb_ℤ v least ≡ false
    → ltb_ℤ greatest v ≡ false
    → (saturate long_max negative n ≡ v) ↔ (v ≡ signed negative n)
unfolding saturate
saturate-signed long_max false n least greatest v p above below = (ground arith)
saturate-signed long_max true n least greatest v p above below = (ground arith)

strtol-spelled :
    (long_max : ℕ) (leading : List ℕ) (sign : Sign) (first : ℕ) (figures : List ℕ)
    → AllSpaces leading
    → AllDigits (first ∷ figures)
    → strtol long_max (leading ++ (sign_text sign ++ (first ∷ figures)))
      ≡ some (saturate long_max (is_minus sign) (number 0 (first ∷ figures)), [])
unfolding strtol read_number
strtol-spelled long_max leading sign first figures spaces digits =
    rw
      (
        skip_spaces-leading leading (sign_text sign ++ (first ∷ figures)) spaces
            (skip_spaces-signed sign first figures digits.0),
        take_sign-signed sign first figures digits.0,
        digits.0,
        take_digits-all (0 + (first - 48)) figures digits.1,
      )
      refl

-- What whole_within() lets through.
whole_within-some :
    (least greatest v : ℤ) (o : Option (ℤ × List ℕ))
    → whole_within least greatest o ≡ some v
    → (o ≡ some (v, [])) × (ltb_ℤ v least ≡ false) × (ltb_ℤ greatest v ≡ false)
unfolding whole_within
whole_within-some least greatest v none e = absurd (ground (arith, e))
whole_within-some least greatest v (some (value, c ∷ rest)) e = absurd (ground (arith, e))
whole_within-some least greatest v (some (value, [])) e =
    elim (Bool-cases (ltb_ℤ value least || ltb_ℤ greatest value)) [
      | inl outside ↦ absurd (ground (arith, rw outside at e))
      | inr inside ↦
          let same : value ≡ v = ground (arith, rw inside at e) in
          (ap (λ x. some (x, [])) same, ground (arith, inside, same), ground (arith, inside, same))
    ]

-- A body that was read to its end.
body-Numeral :
    (long_max : ℕ) (s leading body : List ℕ) (sign : Sign) (least greatest v : ℤ)
    → Proper long_max least greatest
    → ltb_ℤ v least ≡ false
    → ltb_ℤ greatest v ≡ false
    → AllSpaces leading
    → s ≡ leading ++ (sign_text sign ++ body)
    → read_number long_max (is_minus sign) body ≡ some (v, [])
    → Numeral s v
unfolding read_number
body-Numeral long_max s leading [] sign least greatest v p above below spaces spelled e =
    absurd (ground (arith, e))
body-Numeral long_max s leading (c ∷ figures) sign least greatest v p above below spaces spelled e =
    elim (Bool-cases (is_digit c)) [
      | inl digit ↦
          let acc : ℕ = 0 + (c - 48) in
          let read : some (
            saturate long_max (is_minus sign) (take_digits acc figures).0,
            (take_digits acc figures).1,
          )
              ≡ some (v, []) =
            rw digit at e in
          let all = take_digits-whole acc figures (ground (arith, read)) in
          let value : saturate long_max (is_minus sign) (take_digits acc figures).0 ≡ v =
            ground (arith, read) in
          record {
            leading = leading;
            spaces = spaces;
            sign = sign;
            first = c;
            figures = figures;
            digits = (digit, all.0);
            spelled = spelled;
            value =
                (saturate-signed long_max (is_minus sign) (number acc figures) least greatest v p
                    above below).0
                  (rw all.1 at value);
          }
      | inr other ↦ absurd (ground (arith, rw other at e))
    ]

-- The text of a number that was read to its end.
strtol-Numeral :
    (long_max : ℕ) (s : List ℕ) (least greatest v : ℤ)
    → Proper long_max least greatest
    → ltb_ℤ v least ≡ false
    → ltb_ℤ greatest v ≡ false
    → strtol long_max s ≡ some (v, [])
    → Numeral s v
unfolding strtol
strtol-Numeral long_max s least greatest v p above below e =
    let skips = skip_spaces-Skips s in
    let signs = take_sign-Signs (skip_spaces s) in
    body-Numeral long_max s skips.leading (take_sign (skip_spaces s)).1 signs.sign least greatest v
      p above below skips.spaces (skips.split ∙ ap (λ t. skips.leading ++ t) signs.split)
      (rw signs.minus at e)

-- A text is taken for a value, where the least and the greatest lie within a long, if and only if
-- it is the value's numeral (spaces, a sign or none, digits, and nothing after them) and the value
-- is neither below the least nor above the greatest.
pub parse_long-Numeral :
    (long_max : ℕ) (s : List ℕ) (least greatest v : ℤ)
    → Proper long_max least greatest
    → (parse_long long_max s least greatest ≡ some v)
      ↔ (Numeral s v × (ltb_ℤ v least ≡ false) × (ltb_ℤ greatest v ≡ false))
unfolding parse_long whole_within
parse_long-Numeral long_max s least greatest v p = (
  λ e.
      let (read, above, below) = whole_within-some least greatest v (strtol long_max s) e in
      (strtol-Numeral long_max s least greatest v p above below read, above, below),
  λ n.
      let (numeral, above, below) = n in
      let value =
        (saturate-signed long_max (is_minus numeral.sign)
            (number 0 (numeral.first ∷ numeral.figures)) least greatest v p above below).1
          numeral.value in
      rw
        (
          numeral.spelled,
          strtol-spelled long_max numeral.leading numeral.sign numeral.first numeral.figures
              numeral.spaces numeral.digits,
          value,
          above,
          below,
        )
        refl,
)
