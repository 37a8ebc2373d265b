-- ===== src/Controller/LockAge/Rounds.antt =====
-- The parser of durations over the text of an age.
use mathlib.Core.List.{append_assoc}
use restic_backup_operator.Base.{
  ℕ, zero, suc, ◌+◌, ◌-◌, ◌*◌, ◌%◌, ◌^◌, ◌≤◌, ◌<◌, String, false, Option, none, some, List, [], ◌∷◌,
  ◌++◌, ◌≡◌, refl, ap, ◌∙◌, subst, arith, ltb, if◌then◌else◌,
}
use restic_backup_operator.Controller.LockAge.{
  codes, is_digit_or_dot, take_while, drop_while, unit_value, part_value, parse_part, parse_parts,
}
use restic_backup_operator.Controller.LockAge.Numbers.{
  AreDigits, IsCons, AreDigits-itoa, IsCons-itoa, value, value-itoa, power,
}
use restic_backup_operator.Controller.LockAge.Parts.{
  EndsUnit, parse_part-digits, parse_part-fraction,
}
use restic_backup_operator.Controller.LockAge.Age.{
  Age, number, unit_codes, seconds_codes, age_codes, HasDigits,
}
use restic_backup_operator.Controller.LockAge.Search.{IsCons-append}

abbrev pub amount : Option ℕ → ℕ → ℕ
amount none unit = 0
amount (some n) unit = n * unit

abbrev pub steps : Option ℕ → ℕ
steps none = 0
steps (some _) = 1

EndsUnit-digits : (ds rest : List ℕ) → AreDigits ds → IsCons ds → EndsUnit (ds ++ rest)
unfolding take_while drop_while
EndsUnit-digits [] rest _ h = elim h [ ]
EndsUnit-digits (d ∷ ds) rest (hd, _) h = record {
  none_taken = rw hd refl;
  none_dropped = rw hd refl;
}

pub EndsUnit-seconds :
    (n : ℕ) (o : Option String) (rest : List ℕ) → EndsUnit (seconds_codes n o ++ rest)
EndsUnit-seconds n none rest = EndsUnit-digits (number n) rest (AreDigits-itoa n) (IsCons-itoa n)
EndsUnit-seconds n (some digits) rest =
    rw (append_assoc (number n) (b'.' ∷ codes digits) rest) (
      EndsUnit-digits (number n) ((b'.' ∷ codes digits) ++ rest) (AreDigits-itoa n) (IsCons-itoa n))

pub EndsUnit-minutes :
    (u : ℕ) (o : Option ℕ) (rest : List ℕ) → EndsUnit rest → EndsUnit (unit_codes u o ++ rest)
EndsUnit-minutes u none rest end = end
EndsUnit-minutes u (some n) rest end =
    rw (append_assoc (number n) (u ∷ []) rest)
      (EndsUnit-digits (number n) (u ∷ rest) (AreDigits-itoa n) (IsCons-itoa n))

none_left : (k : ℕ) → ¬ (1 + k ≤ 0)
none_left k h = omega arith

no_wrap : (n : ℕ) → n < 2 ^ 63 → n % 2 ^ 64 ≡ n
no_wrap n h = omega arith

fits_sum : (n : ℕ) → n < 2 ^ 63 → ltb (2 ^ 63) n ≡ false
fits_sum n h = ground arith

not_above : (n : ℕ) → n < 2 ^ 63 → ltb (2 ^ 63 - 1) n ≡ false
not_above n h = ground arith

pub EndsUnit-nil : EndsUnit []
unfolding take_while drop_while
EndsUnit-nil = record { none_taken = refl; none_dropped = refl }

-- The digits of the fraction are a number of 63 bits.
abbrev pub FractionFits : Option String → Type 0
FractionFits none = Unit
FractionFits (some digits) = value 0 (codes digits) < 2 ^ 63

module _ (fraction : ℕ → ℕ → ℕ → ℕ) where
  abbrev pub fraction_value : Option String → ℕ
  fraction_value none = 0
  fraction_value (some digits) =
      if ltb 0 (value 0 (codes digits))
      then fraction (value 0 (codes digits)) 1_000_000_000 (power 1 (codes digits))
      else 0

  -- The age in nanoseconds.
  abbrev pub nanoseconds : Age → ℕ
  nanoseconds a =
      amount a.hours 3_600_000_000_000
      + (amount a.minutes 60_000_000_000 + (a.seconds * 1_000_000_000 + fraction_value a.fraction))

  -- A round of the loop with a part that fits.
  parse_parts-step :
      (fuel d v : ℕ) (s rest : List ℕ)
      → IsCons s
      → parse_part fraction s ≡ some (v, rest)
      → d + v < 2 ^ 63
      → parse_parts fraction (suc fuel) d s ≡ parse_parts fraction fuel (d + v) rest
  unfolding parse_parts
  parse_parts-step fuel d v [] rest h part small = elim h [ ]
  parse_parts-step fuel d v (c ∷ s) rest _ part small =
      rw (part, parse_parts, no_wrap (d + v) small, fits_sum (d + v) small)
        (ap (λ m. parse_parts fraction fuel m rest) (no_wrap (d + v) small))

  parse_parts-end : (fuel d : ℕ) → d < 2 ^ 63 → parse_parts fraction fuel d [] ≡ some d
  unfolding parse_parts
  parse_parts-end zero d small = rw (not_above d small) refl
  parse_parts-end (suc fuel) d small = rw (not_above d small) refl

  -- A unit, with the nanoseconds in it.
  record IsUnit (u unit : ℕ) : Type 0 where
    no_number : is_digit_or_dot u ≡ false
    known : unit_value (u ∷ []) ≡ some unit
    counted : (n : ℕ) → n * unit < 2 ^ 63 → part_value fraction n 0 1 (some unit) ≡ some (n * unit)
    short : (n : ℕ) → n * unit < 2 ^ 63 → n ≤ 2 ^ 63

  hour-IsUnit : IsUnit b'h' 3_600_000_000_000
  unfolding unit_value part_value
  hour-IsUnit = record {
    no_number = refl;
    known = refl;
    counted = λ n h. ground arith;
    short = λ n h. omega arith;
  }

  minute-IsUnit : IsUnit b'm' 60_000_000_000
  unfolding unit_value part_value
  minute-IsUnit = record {
    no_number = refl;
    known = refl;
    counted = λ n h. ground arith;
    short = λ n h. omega arith;
  }

  second-IsUnit : IsUnit b's' 1_000_000_000
  unfolding unit_value part_value
  second-IsUnit = record {
    no_number = refl;
    known = refl;
    counted = λ n h. ground arith;
    short = λ n h. omega arith;
  }

  -- A number and its unit are one round, and none where they are left out.
  parse_parts-unit :
      {u unit : ℕ} (o : Option ℕ) (k fuel d : ℕ) (rest : List ℕ) {result : Option ℕ}
      → IsUnit u unit
      → EndsUnit rest
      → d + amount o unit < 2 ^ 63
      → steps o + k ≤ fuel
      → ((f : ℕ) → k ≤ f → parse_parts fraction f (d + amount o unit) rest ≡ result)
      → parse_parts fraction fuel d (unit_codes u o ++ rest) ≡ result
  parse_parts-unit none k fuel d rest {result} is end small enough next =
      subst (λ m. parse_parts fraction fuel m rest ≡ result) (omega arith) (next fuel (omega arith))
  parse_parts-unit (some n) k zero d rest is end small enough next = elim (none_left k enough) [ ]
  parse_parts-unit {u} {unit} (some n) k (suc fuel) d rest {result} is end small enough next =
      rw (append_assoc (number n) (u ∷ []) rest) (
        parse_parts-step fuel d (n * unit) (number n ++ (u ∷ rest)) rest
          (IsCons-append (number n) (u ∷ rest) (IsCons-itoa n))
          (parse_part-digits fraction (number n) u unit (n * unit) rest (AreDigits-itoa n)
            (IsCons-itoa n) is.no_number end is.known (rw (value-itoa n) (is.short n (omega arith)))
            (rw (value-itoa n) (is.counted n (omega arith))))
          small
        ∙ next fuel (omega arith))

  part_value-second :
      (n f scale : ℕ)
      → n * 1_000_000_000 + (if ltb 0 f then fraction f 1_000_000_000 scale else 0) < 2 ^ 63
      → part_value fraction n f scale (some 1_000_000_000)
        ≡ some (n * 1_000_000_000 + (if ltb 0 f then fraction f 1_000_000_000 scale else 0))
  unfolding part_value
  part_value-second n f scale h = ground arith

  -- The seconds end the text.
  parse_parts-seconds :
      (n : ℕ) (o : Option String) (fuel d : ℕ)
      → HasDigits o
      → FractionFits o
      → d + (n * 1_000_000_000 + fraction_value o) < 2 ^ 63
      → 1 ≤ fuel
      → parse_parts fraction fuel d (seconds_codes n o ++ (b's' ∷ []))
        ≡ some (d + (n * 1_000_000_000 + fraction_value o))
  parse_parts-seconds n o zero d _ _ small enough = elim (none_left 0 enough) [ ]
  parse_parts-seconds n none (suc fuel) d _ _ small enough =
      parse_parts-step fuel d (n * 1_000_000_000 + 0) _ []
        (IsCons-append (number n) (b's' ∷ []) (IsCons-itoa n))
        (parse_part-digits fraction (number n) b's' 1_000_000_000 (n * 1_000_000_000 + 0) []
          (AreDigits-itoa n) (IsCons-itoa n) refl (EndsUnit-nil) second-IsUnit.known
          (rw (value-itoa n) (second-IsUnit.short n (omega arith)))
          (rw (value-itoa n) (second-IsUnit.counted n (omega arith) ∙ ap some (omega arith))))
        small
      ∙ parse_parts-end fuel _ small
  parse_parts-seconds n (some digits) (suc fuel) d hd hf small enough =
      rw (append_assoc (number n) (b'.' ∷ codes digits) (b's' ∷ [])) (
        parse_parts-step fuel d (n * 1_000_000_000 + fraction_value (some digits)) _ []
          (IsCons-append (number n) (b'.' ∷ (codes digits ++ (b's' ∷ []))) (IsCons-itoa n))
          (parse_part-fraction fraction (number n) (codes digits) b's' 1_000_000_000
            (n * 1_000_000_000 + fraction_value (some digits)) [] (AreDigits-itoa n) (IsCons-itoa n)
            hd refl (EndsUnit-nil) second-IsUnit.known
            (rw (value-itoa n) (second-IsUnit.short n (omega arith))) hf
            (rw (value-itoa n) (
              part_value-second n (value 0 (codes digits)) (power 1 (codes digits)) (omega arith))))
          small
        ∙ parse_parts-end fuel _ small)

  -- More rounds than the parts have are enough, and the length of the text is more.
  pub parse_parts-age :
      (a : Age) (fuel : ℕ)
      → HasDigits a.fraction
      → FractionFits a.fraction
      → nanoseconds a < 2 ^ 63
      → steps a.hours + (steps a.minutes + 1) ≤ fuel
      → parse_parts fraction fuel 0 (age_codes a) ≡ some (nanoseconds a)
  parse_parts-age a fuel hd hf small enough =
      let rest = seconds_codes a.seconds a.fraction ++ (b's' ∷ []) in
      parse_parts-unit a.hours (steps a.minutes + 1) fuel 0 (unit_codes b'm' a.minutes ++ rest)
        hour-IsUnit
        (EndsUnit-minutes b'm' a.minutes rest (EndsUnit-seconds a.seconds a.fraction (b's' ∷ [])))
        (omega arith) enough
        λ f1 h1.
          parse_parts-unit a.minutes 1 f1 (0 + amount a.hours 3_600_000_000_000) rest minute-IsUnit
            (EndsUnit-seconds a.seconds a.fraction (b's' ∷ [])) (omega arith) h1
            λ f2 h2.
              parse_parts-seconds a.seconds a.fraction f2
                (0 + amount a.hours 3_600_000_000_000 + amount a.minutes 60_000_000_000) hd hf
                (omega arith) h2
              ∙ ap some (omega arith)
