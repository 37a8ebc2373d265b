-- ===== src/Controller/LockAge/Errors.antt =====
-- Where the parser of durations gives an error: a number, a value or a sum that is too large.
use restic_backup_operator.Base.{
  ℕ, zero, suc, ◌+◌, ◌-◌, ◌*◌, ◌%◌, ◌/◌, ◌^◌, ◌≤◌, ◌<◌, false, ◌||◌, none, some, List, [], ◌∷◌,
  ◌++◌, ◌≡◌, refl, sym, subst, arith, ltb, Bool-cases, inl, inr, eqb,
}
use restic_backup_operator.Controller.LockAge.{
  is_digit, is_digit_or_dot, leading_int, unit_value, part_value, parse_unit, parse_part,
  parse_parts,
}
use restic_backup_operator.Controller.LockAge.Numbers.{
  AreDigits, IsCons, value, power, leading_int-digits,
}
use restic_backup_operator.Controller.LockAge.Parts.{
  EndsUnit, or-eq-false, has_digits-digits, take_while-unit, fraction_part-unit,
  fraction_part-digits,
}

too_long :
    (x d : ℕ)
    → x ≤ 2 ^ 63
    → (ltb (2 ^ 63 / 10) x || ltb (2 ^ 63) (x * 10 + (d - b'0'))) ≡ false
    → x * 10 + (d - b'0') ≤ 2 ^ 63
too_long x d h fits = ground arith

-- A number that is too large is an error, whatever follows it.
leading_int-overflow :
    (x : ℕ) (ds rest : List ℕ)
    → AreDigits ds
    → x ≤ 2 ^ 63
    → 2 ^ 63 < value x ds
    → leading_int x (ds ++ rest) ≡ none
unfolding leading_int
leading_int-overflow x [] rest _ small large = absurd (omega arith)
leading_int-overflow x (d ∷ ds) rest (hd, hs) small large =
    elim (Bool-cases (ltb (2 ^ 63 / 10) x || ltb (2 ^ 63) (x * 10 + (d - b'0')))) [
      | inl over ↦ rw (hd, over) refl
      | inr fits ↦
          rw (hd, fits)
            (leading_int-overflow (x * 10 + (d - b'0')) ds rest hs (too_long x d small fits) large)
    ]

module _ (fraction : ℕ → ℕ → ℕ → ℕ) where
  pub parse_part-overflow :
      (ds rest : List ℕ)
      → AreDigits ds
      → 2 ^ 63 < value 0 ds
      → parse_part fraction (ds ++ rest) ≡ none
  unfolding parse_part
  parse_part-overflow ds rest hd large =
      rw (parse_part, leading_int-overflow 0 ds rest hd (omega arith) large) refl

  parse_unit-unit_none :
      (s : List ℕ) (v f scale u unit : ℕ) (rest : List ℕ)
      → is_digit_or_dot u ≡ false
      → EndsUnit rest
      → unit_value (u ∷ []) ≡ some unit
      → part_value fraction v f scale (some unit) ≡ none
      → parse_unit fraction s v ((f, scale), u ∷ rest) ≡ none
  unfolding parse_unit
  parse_unit-unit_none s v f scale u unit rest hu end known valued =
      rw (parse_unit, take_while-unit u rest hu end, known, valued) refl

  -- A number that fits with a value that does not.
  pub parse_part-digits_none :
      (ds : List ℕ) (u unit : ℕ) (rest : List ℕ)
      → AreDigits ds
      → IsCons ds
      → is_digit_or_dot u ≡ false
      → EndsUnit rest
      → unit_value (u ∷ []) ≡ some unit
      → value 0 ds ≤ 2 ^ 63
      → part_value fraction (value 0 ds) 0 1 (some unit) ≡ none
      → parse_part fraction (ds ++ (u ∷ rest)) ≡ none
  unfolding parse_part
  parse_part-digits_none ds u unit rest hd hc hu end known small valued =
      let (no_digit, _) = or-eq-false (is_digit u) (eqb u b'.') hu in
      rw
        (
          parse_part,
          leading_int-digits 0 ds u rest hd no_digit small,
          has_digits-digits ds (u ∷ rest) hd hc,
          fraction_part-unit u rest hu,
        )
        (parse_unit-unit_none (ds ++ (u ∷ rest)) (value 0 ds) 0 1 u unit rest hu end known valued)

  pub parse_part-fraction_none :
      (ds fs : List ℕ) (u unit : ℕ) (rest : List ℕ)
      → AreDigits ds
      → IsCons ds
      → AreDigits fs
      → is_digit_or_dot u ≡ false
      → EndsUnit rest
      → unit_value (u ∷ []) ≡ some unit
      → value 0 ds ≤ 2 ^ 63
      → value 0 fs < 2 ^ 63
      → part_value fraction (value 0 ds) (value 0 fs) (power 1 fs) (some unit) ≡ none
      → parse_part fraction (ds ++ (b'.' ∷ (fs ++ (u ∷ rest)))) ≡ none
  unfolding parse_part
  parse_part-fraction_none ds fs u unit rest hd hc hf hu end known small small_fraction valued =
      rw
        (
          parse_part,
          leading_int-digits 0 ds b'.' (fs ++ (u ∷ rest)) hd refl small,
          has_digits-digits ds (b'.' ∷ (fs ++ (u ∷ rest))) hd hc,
          fraction_part-digits fs u rest hf hu small_fraction,
        )
        (parse_unit-unit_none (ds ++ (b'.' ∷ (fs ++ (u ∷ rest)))) (value 0 ds) (value 0 fs)
          (power 1 fs) u unit rest hu end known valued)

  -- A round that fails.
  pub parse_parts-none :
      (fuel d : ℕ) (s : List ℕ)
      → IsCons s
      → parse_part fraction s ≡ none
      → parse_parts fraction fuel d s ≡ none
  unfolding parse_parts
  parse_parts-none fuel d [] h part = elim h [ ]
  parse_parts-none zero d (c ∷ s) h part = refl
  parse_parts-none (suc fuel) d (c ∷ s) h part = rw (parse_parts, part) refl

  -- A round whose sum is too large, or after which the others fail.
  pub parse_parts-over :
      (fuel d v : ℕ) (s rest : List ℕ)
      → IsCons s
      → parse_part fraction s ≡ some (v, rest)
      → d + v < 2 ^ 64
      → (d + v ≤ 2 ^ 63 → (f : ℕ) → parse_parts fraction f (d + v) rest ≡ none)
      → parse_parts fraction fuel d s ≡ none
  unfolding parse_parts
  parse_parts-over fuel d v [] rest h part wide next = elim h [ ]
  parse_parts-over zero d v (c ∷ s) rest h part wide next = refl
  parse_parts-over (suc fuel) d v (c ∷ s) rest h part wide next =
      let same : (d + v) % 2 ^ 64 ≡ d + v = omega arith in
      elim (Bool-cases (ltb (2 ^ 63) (d + v))) [
        | inl over ↦ rw (parse_parts, part, same, over) refl
        | inr fits ↦
            rw (parse_parts, part, same, fits)
              (subst (λ m. parse_parts fraction fuel m rest ≡ none) (sym same)
                (next (ground arith) fuel))
      ]

  pub parse_parts-end_none : (fuel : ℕ) → parse_parts fraction fuel (2 ^ 63) [] ≡ none
  unfolding parse_parts
  parse_parts-end_none zero = refl
  parse_parts-end_none (suc fuel) = refl
