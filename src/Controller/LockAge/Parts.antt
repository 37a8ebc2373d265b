-- ===== src/Controller/LockAge/Parts.antt =====
-- One part of a duration, a number and its unit, read by the parser of package time.
use restic_backup_operator.Base.{
  ℕ, ◌^◌, ◌≤◌, ◌<◌, Bool, true, false, ◌||◌, some, List, [], ◌∷◌, ◌++◌, ◌≡◌, refl, eqb,
}
use restic_backup_operator.Controller.LockAge.{
  is_digit, is_digit_or_dot, is_unit_char, take_while, drop_while, fraction_part, unit_value,
  part_value, parse_unit, parse_part, has_digits,
}
use restic_backup_operator.Controller.LockAge.Numbers.{
  AreDigits, IsCons, value, power, leading_int-digits, leading_fraction-digits,
}

-- A unit ends before a text that begins like this one.
pub record EndsUnit (rest : List ℕ) : Type 0 where
  pub none_taken : take_while is_unit_char rest ≡ []
  pub none_dropped : drop_while is_unit_char rest ≡ rest

pub or-eq-false : (a b : Bool) → (a || b) ≡ false → (a ≡ false) × (b ≡ false)
or-eq-false false b h = (refl, h)
or-eq-false true b h = cc

pub has_digits-digits :
    (ds rest : List ℕ) → AreDigits ds → IsCons ds → has_digits (ds ++ rest) ≡ true
has_digits-digits [] rest _ h = elim h [ ]
has_digits-digits (d ∷ ds) rest (hd, _) h = rw hd refl

-- A unit in front of such a text is read to its end.
pub take_while-unit :
    (u : ℕ) (rest : List ℕ)
    → is_digit_or_dot u ≡ false
    → EndsUnit rest
    → take_while is_unit_char (u ∷ rest) ≡ u ∷ []
unfolding take_while
take_while-unit u rest hu end = rw (hu, end.none_taken) refl

drop_while-unit :
    (u : ℕ) (rest : List ℕ)
    → is_digit_or_dot u ≡ false
    → EndsUnit rest
    → drop_while is_unit_char (u ∷ rest) ≡ rest
unfolding drop_while
drop_while-unit u rest hu end = rw (hu, end.none_dropped) refl

pub fraction_part-unit :
    (u : ℕ) (rest : List ℕ)
    → is_digit_or_dot u ≡ false
    → fraction_part (u ∷ rest) ≡ ((0, 1), u ∷ rest)
unfolding fraction_part
fraction_part-unit u rest hu =
    let (_, no_dot) = or-eq-false (is_digit u) (eqb u b'.') hu in rw no_dot refl

pub fraction_part-digits :
    (fs : List ℕ) (u : ℕ) (rest : List ℕ)
    → AreDigits fs
    → is_digit_or_dot u ≡ false
    → value 0 fs < 2 ^ 63
    → fraction_part (b'.' ∷ (fs ++ (u ∷ rest))) ≡ ((value 0 fs, power 1 fs), u ∷ rest)
unfolding fraction_part
fraction_part-digits fs u rest hf hu small =
    let (no_digit, _) = or-eq-false (is_digit u) (eqb u b'.') hu in
    leading_fraction-digits 0 1 fs u rest hf no_digit small

module _ (fraction : ℕ → ℕ → ℕ → ℕ) where
  -- A value that fits, where the unit is known.
  parse_unit-unit :
      (s : List ℕ) (v f scale u unit total : ℕ) (rest : List ℕ)
      → is_digit_or_dot u ≡ false
      → EndsUnit rest
      → unit_value (u ∷ []) ≡ some unit
      → part_value fraction v f scale (some unit) ≡ some total
      → parse_unit fraction s v ((f, scale), u ∷ rest) ≡ some (total, rest)
  unfolding parse_unit
  parse_unit-unit s v f scale u unit total rest hu end known valued =
      rw (parse_unit, take_while-unit u rest hu end, known, valued, drop_while-unit u rest hu end)
        refl

  -- A number without a fraction.
  pub parse_part-digits :
      (ds : List ℕ) (u unit total : ℕ) (rest : List ℕ)
      → AreDigits ds
      → IsCons ds
      → is_digit_or_dot u ≡ false
      → EndsUnit rest
      → unit_value (u ∷ []) ≡ some unit
      → value 0 ds ≤ 2 ^ 63
      → part_value fraction (value 0 ds) 0 1 (some unit) ≡ some total
      → parse_part fraction (ds ++ (u ∷ rest)) ≡ some (total, rest)
  unfolding parse_part
  parse_part-digits ds u unit total rest hd hc hu end known small valued =
      let (no_digit, _) = or-eq-false (is_digit u) (eqb u b'.') hu in
      rw
        (
          parse_part,
          leading_int-digits 0 ds u rest hd no_digit small,
          has_digits-digits ds (u ∷ rest) hd hc,
          fraction_part-unit u rest hu,
        )
        (parse_unit-unit (ds ++ (u ∷ rest)) (value 0 ds) 0 1 u unit total rest hu end known valued)

  -- A number with a fraction.
  pub parse_part-fraction :
      (ds fs : List ℕ) (u unit total : ℕ) (rest : List ℕ)
      → AreDigits ds
      → IsCons ds
      → AreDigits fs
      → is_digit_or_dot u ≡ false
      → EndsUnit rest
      → unit_value (u ∷ []) ≡ some unit
      → value 0 ds ≤ 2 ^ 63
      → value 0 fs < 2 ^ 63
      → part_value fraction (value 0 ds) (value 0 fs) (power 1 fs) (some unit) ≡ some total
      → parse_part fraction (ds ++ (b'.' ∷ (fs ++ (u ∷ rest)))) ≡ some (total, rest)
  unfolding parse_part
  parse_part-fraction ds fs u unit total rest hd hc hf hu end known small small_fraction valued =
      rw
        (
          parse_part,
          leading_int-digits 0 ds b'.' (fs ++ (u ∷ rest)) hd refl small,
          has_digits-digits ds (b'.' ∷ (fs ++ (u ∷ rest))) hd hc,
          fraction_part-digits fs u rest hf hu small_fraction,
        )
        (parse_unit-unit (ds ++ (b'.' ∷ (fs ++ (u ∷ rest)))) (value 0 ds) (value 0 fs) (power 1 fs)
          u unit total rest hu end known valued)
