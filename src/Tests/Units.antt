-- ===== src/Tests/Units.antt =====
-- Normalized positions at concrete inputs, on numbers that count in 255ths.
use grippers.Prelude.{ℕ, ◌+◌, ◌-◌, ◌*◌, ◌/◌, ◌≡◌, refl, true, false, some, ltb, leb, ◌==◌, arith}
use grippers.Units.{Doubles, normalized_to_register}
use grippers.Units.Normalized.{Rounds, InOrder, normalized_to_register-InOrder}

abbrev pub parts : Doubles ℕ
parts = record {
  of_number = λ n. n * 255;
  tenth = 25;
  less = ltb;
  at_most = leb;
  equal = ◌==◌;
  is_finite = λ x. true;
  is_nan = λ x. false;
  add = ◌+◌;
  sub = ◌-◌;
  mul = λ x y. x * y / 255;
  div = λ x y. x * 255 / y;
  lround = λ x. (x + 127) / 255;
}

parts-Rounds : Rounds parts
parts-Rounds = record {
  finite_number = λ n h. refl;
  less-at_most = λ x y p q. ground arith;
  at_most_number = λ m n h k. ground (arith, k);
  at_most_trans = λ x y z p q. ground (arith, p, q);
  mul_mono = λ x y p. ground (arith, p);
  mul_zero = refl;
  mul_one = refl;
  lround_mono = λ x y l p h. ground (arith, p);
  lround_number = λ n h. omega arith;
}

-- Two fifths, and a position past fully closed.
normalized_to_register-InOrder_example :
    InOrder (normalized_to_register parts 102).0 (normalized_to_register parts 400).0
    × ((normalized_to_register parts 0).0 ≡ some 0)
    × ((normalized_to_register parts 255).0 ≡ some 255)
normalized_to_register-InOrder_example =
    normalized_to_register-InOrder parts parts-Rounds 102 400 refl refl refl
