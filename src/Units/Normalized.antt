-- ===== src/Units/Normalized.antt =====
-- The registers of normalized positions.
use grippers.Prelude.{
  ℕ, Bool, true, false, not, Option, some, ap, ◌≡◌, refl, ◌⊎◌, ◌∙◌, ◌≤◌, arith, Bool-cases, inl,
  inr,
}
use mathlib.Core.Path.{sym, subst}
use grippers.Byte.{u8}
use grippers.Units.{Doubles, clamp_fraction, rounded_register, normalized_to_register}

-- What IEEE 754 says of the operations that a normalized position takes: the order of finite
-- doubles, exact products with 0 and 1, and a product and a rounding that keep the order.
pub record Rounds {D : Type 0} (d : Doubles D) : Type 0 where
  pub finite_number : (n : ℕ) → n ≤ 255 → d.is_finite (d.of_number n) ≡ true
  pub less-at_most :
      (x y : D) → d.is_finite x ≡ true → d.is_finite y ≡ true → d.less x y ≡ not (d.at_most y x)
  pub at_most_number :
      (m n : ℕ) → n ≤ 255 → m ≤ n → d.at_most (d.of_number m) (d.of_number n) ≡ true
  pub at_most_trans :
      (x y z : D) → d.at_most x y ≡ true → d.at_most y z ≡ true → d.at_most x z ≡ true
  pub mul_mono :
      (x y : D)
      → d.at_most x y ≡ true
      → d.at_most (d.mul x (d.of_number 255)) (d.mul y (d.of_number 255)) ≡ true
  pub mul_zero : d.mul (d.of_number 0) (d.of_number 255) ≡ d.of_number 0
  pub mul_one : d.mul (d.of_number 1) (d.of_number 255) ≡ d.of_number 255
  pub lround_mono :
      (x y : D)
      → d.at_most (d.of_number 0) x ≡ true
      → d.at_most x y ≡ true
      → d.at_most y (d.of_number 255) ≡ true
      → d.lround x ≤ d.lround y
  pub lround_number : (n : ℕ) → n ≤ 255 → d.lround (d.of_number n) ≡ n

-- Two registers, in order.
abbrev pub InOrder : Option ℕ → Option ℕ → Type 0
InOrder (some a) (some b) = (a ≤ b) × (b ≤ 255)
InOrder a b = ⊥

module _ {D : Type 0} (d : Doubles D) (laws : Rounds d) where
  abbrev nought : D
  nought = d.of_number 0

  abbrev one : D
  one = d.of_number 1

  -- A clamped double is an end that it lies beyond, or itself between them.
  abbrev Clamped : D → D → Type 0
  Clamped v c =
      ((d.at_most nought v ≡ false) × (c ≡ nought))
      ⊎ (((d.at_most nought v ≡ true) × (d.at_most v one ≡ false) × (c ≡ one))
          ⊎ ((d.at_most nought v ≡ true) × (d.at_most v one ≡ true) × (c ≡ v)))

  not-false : (b : Bool) → not b ≡ false → b ≡ true
  not-false b e = ground arith

  not-true : (b : Bool) → not b ≡ true → b ≡ false
  not-true b e = ground arith

  clamp_fraction-Clamped : (v : D) → d.is_finite v ≡ true → Clamped v (clamp_fraction d v)
  unfolding clamp_fraction
  clamp_fraction-Clamped v f =
      let low = laws.less-at_most v nought f (laws.finite_number 0 (omega arith)) in
      let high = laws.less-at_most one v (laws.finite_number 1 (omega arith)) f in
      elim (Bool-cases (d.less v nought)) [
        | inl e ↦ rw e (inl (not-true _ (sym low ∙ e), refl))
        | inr e ↦ elim (Bool-cases (d.less one v)) [
          | inl g ↦
              rw (e, g) (inr (inl (not-false _ (sym low ∙ e), not-true _ (sym high ∙ g), refl)))
          | inr g ↦
              rw (e, g) (inr (inr (not-false _ (sym low ∙ e), not-false _ (sym high ∙ g), refl)))
        ]
      ]

  nought-one : d.at_most nought one ≡ true
  nought-one = laws.at_most_number 0 1 (omega arith) (omega arith)

  one-one : d.at_most one one ≡ true
  one-one = laws.at_most_number 1 1 (omega arith) (omega arith)

  nought-nought : d.at_most nought nought ≡ true
  nought-nought = laws.at_most_number 0 0 (omega arith) (omega arith)

  above :
      {v a : D}
      → ((d.at_most nought v ≡ true) × (d.at_most v one ≡ false) × (a ≡ one))
        ⊎ ((d.at_most nought v ≡ true) × (d.at_most v one ≡ true) × (a ≡ v))
      → d.at_most nought v ≡ true
  above (inl (x, y, z)) = x
  above (inr (x, y, z)) = x

  differ : (b : Bool) → b ≡ true → b ≡ false → ⊥
  differ b e g = ground arith

  Clamped-mono :
      (v w a b : D) → d.at_most v w ≡ true → Clamped v a → Clamped w b → d.at_most a b ≡ true
  Clamped-mono v w a b h (inl (x, e)) (inl (y, g)) = rw (e, g) nought-nought
  Clamped-mono v w a b h (inl (x, e)) (inr (inl (y, z, g))) = rw (e, g) nought-one
  Clamped-mono v w a b h (inl (x, e)) (inr (inr (y, z, g))) = rw (e, g) y
  Clamped-mono v w a b h (inr p) (inl (y, g)) =
      absurd (differ _ (laws.at_most_trans nought v w (above p) h) y)
  Clamped-mono v w a b h (inr (inl (x, y, e))) (inr (inl (z, u, g))) = rw (e, g) one-one
  Clamped-mono v w a b h (inr (inl (x, y, e))) (inr (inr (z, u, g))) =
      absurd (differ _ (laws.at_most_trans v w one h u) y)
  Clamped-mono v w a b h (inr (inr (x, y, e))) (inr (inl (z, u, g))) = rw (e, g) y
  Clamped-mono v w a b h (inr (inr (x, y, e))) (inr (inr (z, u, g))) = rw (e, g) h

  nought-Clamped : Clamped nought nought
  nought-Clamped = inr (inr (nought-nought, nought-one, refl))

  one-Clamped : Clamped one one
  one-Clamped = inr (inr (nought-one, one-one, refl))

  Clamped-top : (v a : D) → Clamped v a → d.at_most a one ≡ true
  Clamped-top v a (inl (x, e)) = rw e nought-one
  Clamped-top v a (inr (inl (x, y, e))) = rw e one-one
  Clamped-top v a (inr (inr (x, y, e))) = rw e y

  Clamped-bottom : (v a : D) → Clamped v a → d.at_most nought a ≡ true
  Clamped-bottom v a (inl (x, e)) = rw e nought-nought
  Clamped-bottom v a (inr (inl (x, y, e))) = rw e nought-one
  Clamped-bottom v a (inr (inr (x, y, e))) = rw e x

  -- The products are between 0 and 255.
  product_low :
      (a : D) → d.at_most nought a ≡ true → d.at_most nought (d.mul a (d.of_number 255)) ≡ true
  product_low a h =
      subst (λ x. d.at_most x (d.mul a (d.of_number 255)) ≡ true) laws.mul_zero
        (laws.mul_mono nought a h)

  product_high :
      (a : D)
      → d.at_most a one ≡ true
      → d.at_most (d.mul a (d.of_number 255)) (d.of_number 255) ≡ true
  product_high a h =
      subst (λ x. d.at_most (d.mul a (d.of_number 255)) x ≡ true) laws.mul_one
        (laws.mul_mono a one h)

  top_top : d.at_most (d.of_number 255) (d.of_number 255) ≡ true
  top_top = laws.at_most_number 255 255 (omega arith) (omega arith)

  rounded-InOrder :
      (a b : D)
      → d.at_most nought a ≡ true
      → d.at_most a b ≡ true
      → d.at_most b one ≡ true
      → InOrder
          (some (rounded_register d (d.mul a (d.of_number 255))))
          (some (rounded_register d (d.mul b (d.of_number 255))))
  unfolding rounded_register
  rounded-InOrder a b z h t =
      let m = laws.lround_mono _ _ (product_low a z) (laws.mul_mono a b h) (product_high b t) in
      let zb = laws.at_most_trans _ _ _ z h in
      let l = laws.lround_mono _ _ (product_low b zb) (product_high b t) top_top in
      let top = laws.lround_number 255 (omega arith) in
      (omega (arith, m, l, top), omega (arith, m, l, top))

  normalized-eq :
      (v : D)
      → d.is_finite v ≡ true
      → (normalized_to_register d v).0
        ≡ some (rounded_register d (d.mul (clamp_fraction d v) (d.of_number 255)))
  unfolding normalized_to_register
  normalized-eq v f = rw f refl

  Clamped-unique-one : (a : D) → Clamped one a → a ≡ one
  Clamped-unique-one a (inl (x, e)) = absurd (differ _ nought-one x)
  Clamped-unique-one a (inr (inl (x, y, e))) = e
  Clamped-unique-one a (inr (inr (x, y, e))) = e

  Clamped-unique-nought : (a : D) → Clamped nought a → a ≡ nought
  Clamped-unique-nought a (inl (x, e)) = e
  Clamped-unique-nought a (inr (inl (x, y, e))) = absurd (differ _ nought-one y)
  Clamped-unique-nought a (inr (inr (x, y, e))) = e

  -- Under the rules of IEEE 754 for the operations that it takes: the register of a normalized
  -- position grows with the position, for finite positions however far out of range, and is a byte
  -- with no wrap-around; fully open is 0 and fully closed is 255.
  pub normalized_to_register-InOrder :
      (v w : D)
      → d.is_finite v ≡ true
      → d.is_finite w ≡ true
      → d.at_most v w ≡ true
      → InOrder (normalized_to_register d v).0 (normalized_to_register d w).0
        × ((normalized_to_register d (d.of_number 0)).0 ≡ some 0)
        × ((normalized_to_register d (d.of_number 1)).0 ≡ some 255)
  unfolding rounded_register
  normalized_to_register-InOrder v w fv fw h =
      let cv = clamp_fraction-Clamped v fv in
      let cw = clamp_fraction-Clamped w fw in
      let f0 = laws.finite_number 0 (omega arith) in
      let f1 = laws.finite_number 1 (omega arith) in
      (
        rw (normalized-eq v fv, normalized-eq w fw)
            (rounded-InOrder _ _ (Clamped-bottom v _ cv) (Clamped-mono v w _ _ h cv cw)
              (Clamped-top w _ cw)),
        normalized-eq nought f0
            ∙ ap (λ c. some (rounded_register d (d.mul c (d.of_number 255))))
                (Clamped-unique-nought _ (clamp_fraction-Clamped nought f0))
            ∙ ap (λ x. some (rounded_register d x)) laws.mul_zero
            ∙ ap (λ n. some (u8 n)) (laws.lround_number 0 (omega arith)),
        normalized-eq one f1
            ∙ ap (λ c. some (rounded_register d (d.mul c (d.of_number 255))))
                (Clamped-unique-one _ (clamp_fraction-Clamped one f1))
            ∙ ap (λ x. some (rounded_register d x)) laws.mul_one
            ∙ ap (λ n. some (u8 n)) (laws.lround_number 255 (omega arith)),
      )
