-- ===== src/Controller/LockAge/Age.antt =====
-- The text of an age, as restic writes it into the message on a lock, and the search for it.
use mathlib.Core.List.{append_assoc}
use restic_backup_operator.Base.{
  ℕ, String, ◌<>◌, true, false, Option, none, some, List, [], ◌∷◌, ◌++◌, ◌≡◌, refl, eqb, itoa,
}
use restic_backup_operator.Controller.LockAge.{codes, is_digit, matched_unit, unit_part}
use restic_backup_operator.Controller.LockAge.Numbers.{
  AreDigits, IsCons, AreDigits-itoa, IsCons-itoa, take_while-stop, drop_while-stop,
}

-- A duration in hours, minutes and seconds, such as 12h36m32.091s or 45s. `String` of package time
-- prints a duration of at least a second in this form; it prints a shorter one in smaller units.
pub record Age : Type 0 where
  pub hours : Option ℕ
  pub minutes : Option ℕ
  pub seconds : ℕ
  pub fraction : Option String

abbrev pub unit_text : String → Option ℕ → String
unit_text unit none = ""
unit_text unit (some n) = itoa n <> unit

abbrev pub seconds_text : ℕ → Option String → String
seconds_text n none = itoa n
seconds_text n (some digits) = itoa n <> ("." <> digits)

-- The same over code points.
abbrev pub number : ℕ → List ℕ
number n = codes (itoa n)

abbrev pub unit_codes : ℕ → Option ℕ → List ℕ
unit_codes u none = []
unit_codes u (some n) = number n ++ (u ∷ [])

abbrev pub seconds_codes : ℕ → Option String → List ℕ
seconds_codes n none = number n
seconds_codes n (some digits) = number n ++ (b'.' ∷ codes digits)

abbrev pub age_codes : Age → List ℕ
age_codes a =
    unit_codes b'h' a.hours
    ++ (unit_codes b'm' a.minutes ++ (seconds_codes a.seconds a.fraction ++ (b's' ∷ [])))

abbrev pub HasDigits : Option String → Type 0
HasDigits none = Unit
HasDigits (some digits) = AreDigits (codes digits)

-- Digits before a character that is neither a digit nor the unit.
pub record OtherUnit (u : ℕ) (s : List ℕ) : Type 0 where
  pub digits : List ℕ
  pub next : ℕ
  pub rest : List ℕ
  pub text : s ≡ digits ++ (next ∷ rest)
  pub are_digits : AreDigits digits
  pub no_digit : is_digit next ≡ false
  pub no_unit : eqb next u ≡ false

matched_unit-here :
    (u : ℕ) (s ds rest : List ℕ)
    → IsCons ds
    → eqb u u ≡ true
    → matched_unit u s ds (u ∷ rest) ≡ (ds ++ (u ∷ []), rest)
unfolding matched_unit
matched_unit-here u s [] rest h _ = elim h [ ]
matched_unit-here u s (d ∷ ds) rest h same = rw same refl

matched_unit-other :
    (u c : ℕ) (s ds rest : List ℕ) → eqb c u ≡ false → matched_unit u s ds (c ∷ rest) ≡ ([], s)
unfolding matched_unit
matched_unit-other u c s [] rest h = refl
matched_unit-other u c s (d ∷ ds) rest h = rw h refl

pub unit_part-codes :
    (u : ℕ) (o : Option ℕ) (rest : List ℕ)
    → is_digit u ≡ false
    → eqb u u ≡ true
    → OtherUnit u rest
    → unit_part u (unit_codes u o ++ rest) ≡ (unit_codes u o, rest)
unfolding unit_part
unit_part-codes u (some n) rest hu same other =
    rw
      (
        append_assoc (number n) (u ∷ []) rest,
        unit_part,
        take_while-stop is_digit (number n) u rest (AreDigits-itoa n) hu,
        drop_while-stop is_digit (number n) u rest (AreDigits-itoa n) hu,
      )
      (matched_unit-here u _ (number n) rest (IsCons-itoa n) same)
unit_part-codes u none rest hu same o =
    rw
      (
        o.text,
        unit_part,
        take_while-stop is_digit o.digits o.next o.rest o.are_digits o.no_digit,
        drop_while-stop is_digit o.digits o.next o.rest o.are_digits o.no_digit,
      )
      (matched_unit-other u o.next _ o.digits o.rest o.no_unit)
