-- ===== src/ExchangeRateProbe.antt =====
-- The command line of the program that measures the exchange rate:
-- sdk_cpp/examples/exchange_rate_probe.cpp, with std::strtol, which reads it, in the C locale.
-- std::strtod is an argument. An argument of the program is the list of its character codes.
pub mod Numerals
pub mod Settings
use grippers.Prelude.{
  ℕ, ◌+◌, ◌-◌, ◌*◌, ◌%◌, min, Bool, true, false, ◌&&◌, ◌||◌, List, [], ◌∷◌, Option, none, some,
  length, ltb, leb, ◌==◌, if◌then◌else◌,
}
use grippers.Rendering.{text}
use grippers.Units.{Doubles}

-- `negsuc n` is -(n + 1).
pub data ℤ : Type 0 where
  pos : ℕ → ℤ
  negsuc : ℕ → ℤ

abbrev pub ltb_ℤ : ℤ → ℤ → Bool
ltb_ℤ (pos a) (pos b) = ltb a b
ltb_ℤ (pos a) (negsuc b) = false
ltb_ℤ (negsuc a) (pos b) = true
ltb_ℤ (negsuc a) (negsuc b) = ltb b a

-- std::isspace.
abbrev pub is_space : ℕ → Bool
is_space c = (c == 32) || (leb 9 c && leb c 13)

abbrev pub is_digit : ℕ → Bool
is_digit c = leb 48 c && leb c 57

abbrev pub starts_with_digit : List ℕ → Bool
starts_with_digit [] = false
starts_with_digit (c ∷ s) = is_digit c

unfoldable pub skip_spaces : List ℕ → List ℕ
skip_spaces [] = []
skip_spaces (c ∷ s) = let rest = skip_spaces s in if is_space c then rest else c ∷ s

-- Is there a minus sign? And what stands after the sign.
unfoldable pub take_sign : List ℕ → Bool × List ℕ
take_sign [] = (false, [])
take_sign (c ∷ s) = if c == 45 then (true, s) else if c == 43 then (false, s) else (false, c ∷ s)

-- The number of the leading digits, and what stands after them.
unfoldable pub take_digits : ℕ → List ℕ → ℕ × List ℕ
take_digits acc [] = (acc, [])
take_digits acc (c ∷ s) =
    let rest = take_digits (acc * 10 + (c - 48)) s in if is_digit c then rest else (acc, c ∷ s)

-- A number out of a long's range gives the end of the range.
unfoldable pub saturate : ℕ → Bool → ℕ → ℤ
saturate long_max false n = pos (min n long_max)
saturate long_max true n = if n == 0 then pos 0 else negsuc (min (n - 1) long_max)

-- After the sign; none where there is no digit.
unfoldable pub read_number : ℕ → Bool → List ℕ → Option (ℤ × List ℕ)
unfolding take_digits saturate
read_number long_max negative body =
    let (n, rest) = take_digits 0 body in
    if starts_with_digit body then some (saturate long_max negative n, rest) else none

-- The value and what stands at `end`; none where `end` is the text itself.
unfoldable pub strtol : ℕ → List ℕ → Option (ℤ × List ℕ)
unfolding skip_spaces take_sign read_number
strtol long_max s =
    let (negative, body) = take_sign (skip_spaces s) in read_number long_max negative body

-- What parseLong() makes of what was read.
unfoldable pub whole_within : ℤ → ℤ → Option (ℤ × List ℕ) → Option ℤ
whole_within least greatest none = none
whole_within least greatest (some (value, c ∷ rest)) = none
whole_within least greatest (some (value, [])) =
    if ltb_ℤ value least || ltb_ℤ greatest value then none else some value

unfoldable pub parse_long : ℕ → List ℕ → ℤ → ℤ → Option ℤ
unfolding whole_within strtol
parse_long long_max s least greatest = whole_within least greatest (strtol long_max s)

-- std::strcmp(a, b) == 0.
unfoldable pub same_text : List ℕ → List ℕ → Bool
same_text [] [] = true
same_text [] (d ∷ b) = false
same_text (c ∷ a) [] = false
same_text (c ∷ a) (d ∷ b) = let rest = same_text a b in (c == d) && rest

module _ {D : Type 0} (d : Doubles D) (strtod : List ℕ → Option (D × List ℕ)) where
  unfoldable pub double_within : D → D → Option (D × List ℕ) → Option D
  double_within least greatest none = none
  double_within least greatest (some (value, c ∷ rest)) = none
  double_within least greatest (some (value, [])) =
      if d.at_most least value && d.at_most value greatest then some value else none

  unfoldable pub parse_double : List ℕ → D → D → Option D
  unfolding double_within
  parse_double s least greatest = double_within least greatest (strtod s)

-- The port is none where the command line was rejected.
pub record Options (D : Type 0) : Type 0 where
  pub port : Option (List ℕ)
  pub hz : D
  pub seconds : ℤ
  pub baudrate : ℤ

unfoldable pub default_options : {D : Type 0} → Doubles D → Options D
default_options d = record {
  port = none;
  hz = d.of_number 100;
  seconds = pos 5;
  baudrate = pos 115200;
}

-- An option keeps its value where the text is refused.
unfoldable pub store :
    {D A : Type 0} → (A → Options D → Options D) → Option A → Options D → Bool × Options D
store put none options = (false, options)
store put (some value) options = (true, put value options)

module _ {D : Type 0} (d : Doubles D) (strtod : List ℕ → Option (D × List ℕ)) (long_max : ℕ) where
  -- The turn of the loop for a name and its value.
  unfoldable pub read_option : List ℕ → List ℕ → Options D → Bool × Options D
  unfolding same_text store parse_double parse_long
  read_option name value options =
      if same_text name (text "--port")
      then (true, record options { port = some value })
      else if same_text name (text "--hz")
      then store (λ v o. record o { hz = v })
          (parse_double d strtod value d.tenth (d.of_number 1000)) options
      else if same_text name (text "--seconds")
      then store (λ v o. record o { seconds = v }) (parse_long long_max value (pos 1) (pos 3600))
          options
      else if same_text name (text "--baudrate")
      then store (λ v o. record o { baudrate = v })
          (parse_long long_max value (pos 1200) (pos 3000000)) options
      else (false, options)

  unfoldable pub read_options : Bool → List (List ℕ) → Options D → Bool × Options D
  unfolding read_option
  read_options ok [] options = (ok, options)
  read_options ok (name ∷ []) options = (ok, options)
  read_options false (name ∷ value ∷ more) options = (false, options)
  read_options true (name ∷ value ∷ more) options =
      let (ok, read) = read_option name value options in read_options ok more read

  unfoldable pub reject_unless : Bool × Options D → Options D
  reject_unless (ok, options) = if ok then options else (record options { port = none })

  -- The arguments after the program's name: an odd number of them leaves a name without its value.
  unfoldable pub parse_options : List (List ℕ) → Options D
  unfolding read_options reject_unless default_options
  parse_options args =
      reject_unless (read_options ((length args + 1) % 2 == 1) args (default_options d))
