-- ===== src/ExchangeRateProbe/Settings.antt =====
-- The command lines that parseOptions() accepts, by a grammar of their own.
use grippers.Prelude.{
  ◌<◌, ℕ, ◌+◌, ◌%◌, ◌≡◌, ◌↔◌, ◌&&◌, refl, ap, ◌∙◌, sym, Bool, true, false, List, [], ◌∷◌, some,
  none, Option, arith, Bool-cases, inl, inr, ◌==◌, length,
}
use grippers.Rendering.{text}
use grippers.Units.{Doubles}
use grippers.ExchangeRateProbe.{
  ℤ, pos, ltb_ℤ, Options, default_options, same_text, store, read_option, read_options,
  reject_unless, parse_options, parse_double, double_within, parse_long,
}
use grippers.ExchangeRateProbe.Numerals.{Numeral, parse_long-Numeral}

-- A name with its value.
pub data Setting (D : Type 0) : Type 0 where
  port : List ℕ → Setting D
  hz : D → Setting D
  seconds : ℤ → Setting D
  baudrate : ℤ → Setting D

-- The later of two settings of one option holds.
abbrev pub apply_setting : {D : Type 0} → Setting D → Options D → Options D
apply_setting (port p) o = record o { port = some p }
apply_setting (hz v) o = record o { hz = v }
apply_setting (seconds v) o = record o { seconds = v }
apply_setting (baudrate v) o = record o { baudrate = v }

abbrev pub apply_settings : {D : Type 0} → List (Setting D) → Options D → Options D
apply_settings [] o = o
apply_settings (x ∷ xs) o = apply_settings xs (apply_setting x o)

abbrev pub Within : ℤ → ℤ → ℤ → Type 0
Within least greatest v = (ltb_ℤ v least ≡ false) × (ltb_ℤ greatest v ≡ false)

same_text-equal : (a b : List ℕ) → same_text a b ≡ true → a ≡ b
unfolding same_text
same_text-equal [] [] same = refl
same_text-equal [] (d ∷ b) same = absurd (ground (arith, same))
same_text-equal (c ∷ a) [] same = absurd (ground (arith, same))
same_text-equal (c ∷ a) (d ∷ b) same =
    let head : c ≡ d = ground (arith, same) in
    let tail : a ≡ b = same_text-equal a b (ground (arith, same)) in rw (head, tail) refl

module _ {D : Type 0} (d : Doubles D) (strtod : List ℕ → Option (D × List ℕ)) (long_max : ℕ) where
  -- What a name and its value say: a known name, and a whole number or a double in its range.
  abbrev pub Says : List ℕ → List ℕ → Setting D → Type 0
  Says name value (port p) = (name ≡ text "--port") × (value ≡ p)
  Says name value (hz v) =
      (name ≡ text "--hz")
      × (strtod value ≡ some (v, []))
      × (d.at_most d.tenth v ≡ true)
      × (d.at_most v (d.of_number 1000) ≡ true)
  Says name value (seconds v) =
      (name ≡ text "--seconds") × Numeral value v × Within (pos 1) (pos 3600) v
  Says name value (baudrate v) =
      (name ≡ text "--baudrate") × Numeral value v × Within (pos 1200) (pos 3000000) v

  -- A command line of names and values, two by two.
  abbrev pub Spells : List (List ℕ) → List (Setting D) → Type 0
  Spells [] [] = Unit {0}
  Spells [] (x ∷ xs) = true ≡ false
  Spells (name ∷ []) xs = true ≡ false
  Spells (name ∷ value ∷ more) [] = true ≡ false
  Spells (name ∷ value ∷ more) (x ∷ xs) = Says name value x × Spells more xs

  double_within-some :
      (least greatest v : D) (o : Option (D × List ℕ))
      → (double_within d strtod least greatest o ≡ some v)
        ↔ ((o ≡ some (v, [])) × (d.at_most least v ≡ true) × (d.at_most v greatest ≡ true))
  unfolding double_within
  double_within-some least greatest v none = ground arith
  double_within-some least greatest v (some (value, c ∷ rest)) = ground arith
  double_within-some least greatest v (some (value, [])) = (
    λ e. elim (Bool-cases (d.at_most least value && d.at_most value greatest)) [
      | inl inside ↦
          let same : value ≡ v = ground (arith, rw inside at e) in
          (ap (λ x. some (x, [])) same, ground (arith, inside, same), ground (arith, inside, same))
      | inr outside ↦ absurd (ground (arith, rw outside at e))
    ],
    λ w.
        let (read, above, below) = w in
        let same : value ≡ v = ground (arith, read) in rw same (rw (above, below) refl),
  )

  parse_whole :
      (value : List ℕ) (least greatest : ℕ) (v : ℤ)
      → greatest < long_max
      → (parse_long long_max value (pos least) (pos greatest) ≡ some v)
        ↔ (Numeral value v × (ltb_ℤ v (pos least) ≡ false) × (ltb_ℤ (pos greatest) v ≡ false))
  parse_whole value least greatest v small =
      parse_long-Numeral long_max value (pos least) (pos greatest) v
        (record { above = refl; below = ground (arith, small) })

  -- What an option stores, its text says.
  store-Says :
      {A : Type 0} (name value : List ℕ) (setting : A → Setting D) (o : Options D)
      (parsed : Option A)
      → ((v : A) → parsed ≡ some v → Says name value (setting v))
      → (store (λ v o. apply_setting (setting v) o) parsed o).0 ≡ true
      → (x : Setting D) × Says name value x
        × ((store (λ v o. apply_setting (setting v) o) parsed o).1 ≡ apply_setting x o)
  unfolding store
  store-Says name value setting o none says ok = absurd (ground (arith, ok))
  store-Says name value setting o (some v) says ok = (setting v, says v refl, refl)

  read_option-Says :
      (name value : List ℕ) (o : Options D)
      → 3000000 < long_max
      → (read_option d strtod long_max name value o).0 ≡ true
      → (x : Setting D) × Says name value x
        × ((read_option d strtod long_max name value o).1 ≡ apply_setting x o)
  unfolding read_option
  read_option-Says name value o large ok = elim (Bool-cases (same_text name (text "--port"))) [
    | inl e ↦ (port value, (same_text-equal _ _ e, refl), rw e refl)
    | inr n1 ↦ elim (Bool-cases (same_text name (text "--hz"))) [
      | inl e ↦
          rw (n1, e)
            (store-Says name value hz o (parse_double d strtod value d.tenth (d.of_number 1000))
              (λ v parsed.
                let (read, above, below) =
                  (double_within-some d.tenth (d.of_number 1000) v (strtod value)).0 parsed in
                (same_text-equal _ _ e, read, above, below))
              (rw (n1, e) at ok))
      | inr n2 ↦ elim (Bool-cases (same_text name (text "--seconds"))) [
        | inl e ↦
            rw (n1, n2, e)
              (store-Says name value seconds o (parse_long long_max value (pos 1) (pos 3600))
                (λ v parsed.
                  let (read, above, below) =
                    (parse_whole value 1 3600 v (omega (arith, large))).0 parsed in
                  (same_text-equal _ _ e, read, (above, below)))
                (rw (n1, n2, e) at ok))
        | inr n3 ↦ elim (Bool-cases (same_text name (text "--baudrate"))) [
          | inl e ↦
              rw (n1, n2, n3, e)
                (store-Says name value baudrate o
                  (parse_long long_max value (pos 1200) (pos 3000000))
                  (λ v parsed.
                    let (read, above, below) = (parse_whole value 1200 3000000 v large).0 parsed in
                    (same_text-equal _ _ e, read, (above, below)))
                  (rw (n1, n2, n3, e) at ok))
          | inr n4 ↦ absurd (ground (arith, rw (n1, n2, n3, n4) at ok))
        ]
      ]
    ]
  ]

  read_option-said :
      (name value : List ℕ) (x : Setting D) (o : Options D)
      → 3000000 < long_max
      → Says name value x
      → read_option d strtod long_max name value o ≡ (true, apply_setting x o)
  unfolding read_option
  read_option-said name value (port p) o large says = rw says.0 (rw says.1 refl)
  read_option-said name value (hz v) o large says =
      rw
        (
          says.0,
          (double_within-some d.tenth (d.of_number 1000) v (strtod value)).1
              (says.1, says.2, says.3),
        )
        refl
  read_option-said name value (seconds v) o large says =
      rw
        (says.0, (parse_whole value 1 3600 v (omega (arith, large))).1 (says.1, says.2.0, says.2.1))
        refl
  read_option-said name value (baudrate v) o large says =
      rw
        (
          says.0,
          (parse_whole value 1200 3000000 v (omega (arith, large))).1 (says.1, says.2.0, says.2.1),
        )
        refl

  read_options-stopped :
      (args : List (List ℕ)) (o : Options D)
      → read_options d strtod long_max false args o ≡ (false, o)
  unfolding read_options
  read_options-stopped [] o = refl
  read_options-stopped (name ∷ []) o = refl
  read_options-stopped (name ∷ value ∷ more) o = refl

  -- An even number of arguments that are read to the end.
  read_options-Spells :
      (args : List (List ℕ)) (o : Options D)
      → 3000000 < long_max
      → ((length args + 1) % 2 == 1) ≡ true
      → (read_options d strtod long_max true args o).0 ≡ true
      → (xs : List (Setting D)) × Spells args xs
        × ((read_options d strtod long_max true args o).1 ≡ apply_settings xs o)
  unfolding read_options
  read_options-Spells [] o large even ok = ([], tt, refl)
  read_options-Spells (name ∷ []) o large even ok = absurd (ground (arith, even))
  read_options-Spells (name ∷ value ∷ more) o large even ok =
      let turn = read_option d strtod long_max name value o in
      elim (Bool-cases turn.0) [
        | inl goes_on ↦
            let (x, says, read) = read_option-Says name value o large goes_on in
            let (xs, spells, later) =
              read_options-Spells more turn.1 large (ground (arith, even)) (rw goes_on at ok) in
            (x ∷ xs, (says, spells), rw goes_on (later ∙ ap (λ o. apply_settings xs o) read))
        | inr stops ↦
            absurd
              (ground (arith, ap (λ r. r.0) (read_options-stopped more turn.1), rw stops at ok))
      ]

  read_options-spelled :
      (args : List (List ℕ)) (xs : List (Setting D)) (o : Options D)
      → 3000000 < long_max
      → Spells args xs
      → (read_options d strtod long_max true args o ≡ (true, apply_settings xs o))
        × (((length args + 1) % 2 == 1) ≡ true)
  unfolding read_options
  read_options-spelled [] [] o large spells = (refl, refl)
  read_options-spelled [] (x ∷ xs) o large spells = absurd (ground (arith, spells))
  read_options-spelled (name ∷ []) xs o large spells = absurd (ground (arith, spells))
  read_options-spelled (name ∷ value ∷ more) [] o large spells = absurd (ground (arith, spells))
  read_options-spelled (name ∷ value ∷ more) (x ∷ xs) o large spells =
      let (read, even) = read_options-spelled more xs (apply_setting x o) large spells.1 in
      (rw (read_option-said name value x o large spells.0) read, ground (arith, even))

  -- A port is left only where the arguments were read to the end.
  accepted-Spells :
      (args : List (List ℕ)) (even : Bool) (o : Options D) (p : List ℕ)
      → 3000000 < long_max
      → o.port ≡ some p
      → ((length args + 1) % 2 == 1) ≡ even
      → reject_unless d strtod long_max
          (read_options d strtod long_max even args (default_options d))
        ≡ o
      → (xs : List (Setting D)) × Spells args xs × (o ≡ apply_settings xs (default_options d))
  unfolding reject_unless
  accepted-Spells args false o p large has_port odd e = absurd (
      ground (
        arith,
        ap (λ o. o.port) e,
        has_port,
        ap (λ r. r.0) (read_options-stopped args (default_options d)),
      ))
  accepted-Spells args true o p large has_port even e =
      let r = read_options d strtod long_max true args (default_options d) in
      elim (Bool-cases r.0) [
        | inl ok ↦
            let (xs, spells, read) = read_options-Spells args (default_options d) large even ok in
            (xs, spells, sym (rw ok at e) ∙ read)
        | inr failed ↦ absurd (ground (arith, ap (λ o. o.port) (rw failed at e), has_port))
      ]

  -- Where a long holds three million: parseOptions() answers with a port if and only if the
  -- arguments are names and values, two by two, each a known option whose value is in its grammar
  -- and in its range, among them a port; and its answer is then the defaults with these settings
  -- applied in their order.
  pub parse_options-Spells :
      (args : List (List ℕ)) (o : Options D) (p : List ℕ)
      → 3000000 < long_max
      → o.port ≡ some p
      → (parse_options d strtod long_max args ≡ o)
        ↔ ((xs : List (Setting D)) × Spells args xs × (o ≡ apply_settings xs (default_options d)))
  unfolding parse_options reject_unless
  parse_options-Spells args o p large has_port = (
    accepted-Spells args ((length args + 1) % 2 == 1) o p large has_port refl,
    λ spelled.
        let (xs, spells, applied) = spelled in
        let (read, even) = read_options-spelled args xs (default_options d) large spells in
        rw (even, read) (sym applied),
  )
