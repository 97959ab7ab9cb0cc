-- ===== src/Tests/Probe.antt =====
-- Command lines of the probe of the exchange rate, on numbers that count in 255ths.
use grippers.Prelude.{false, ℕ, ◌≡◌, ◌↔◌, refl, List, [], ◌∷◌, some, none, Option, arith, ◌*◌}
use grippers.Rendering.{text}
use grippers.Tests.Units.{parts}
use grippers.ExchangeRateProbe.{
  pos, negsuc, ltb_ℤ, Options, default_options, parse_options, parse_long,
}
use grippers.ExchangeRateProbe.Numerals.{Numeral, parse_long-Numeral}
use grippers.ExchangeRateProbe.Settings.{Setting, Spells, apply_settings, parse_options-Spells}

-- A double of three spelled digits, the empty text is none.
abbrev two_hundred_only : List ℕ → Option (ℕ × List ℕ)
two_hundred_only [] = none
two_hundred_only (c ∷ s) = some (200 * 255, [])

abbrev given : List (List ℕ)
given =
    text "--baudrate"
    ∷ text "+9600"
    ∷ text "--port"
    ∷ text "/dev/ttyUSB0"
    ∷ text "--hz"
    ∷ text "200"
    ∷ text "--seconds"
    ∷ text " 60"
    ∷ []

abbrev taken : Options ℕ
taken = record {
  port = some (text "/dev/ttyUSB0");
  hz = 200 * 255;
  seconds = pos 60;
  baudrate = pos 9600;
}

given-taken : parse_options parts two_hundred_only 2147483647 given ≡ taken
unfolding parse_options
given-taken = refl

-- A text after the digits, and a number out of a long's range.
trailing : parse_long 2147483647 (text "60s") (pos 1) (pos 3600) ≡ none
unfolding parse_long
trailing = refl

saturated : parse_long 2147483647 (text "-99999999999") (pos 1) (pos 3600) ≡ none
unfolding parse_long
saturated = refl

parse_options-Spells_example : (parse_options parts two_hundred_only 2147483647 given ≡ taken) ↔ (
    (xs : List (Setting ℕ)) × Spells parts two_hundred_only 2147483647 given xs
    × (taken ≡ apply_settings xs (default_options parts)))
parse_options-Spells_example =
    parse_options-Spells parts two_hundred_only 2147483647 given taken (text "/dev/ttyUSB0")
      (omega arith) refl

parse_long-Numeral_example :
    (parse_long 2147483647 (text " +42") (negsuc 9) (pos 99) ≡ some (pos 42)) ↔ (
      Numeral (text " +42") (pos 42)
      × (ltb_ℤ (pos 42) (negsuc 9) ≡ false)
      × (ltb_ℤ (pos 99) (pos 42) ≡ false))
parse_long-Numeral_example =
    parse_long-Numeral 2147483647 (text " +42") (negsuc 9) (pos 99) (pos 42)
      (record { above = refl; below = refl })
