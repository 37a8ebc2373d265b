-- ===== src/Controller/LockAge/Search.antt =====
-- The regular expression of `parseLockAge` finds an age behind the first opening parenthesis
-- that has a number behind it.
use mathlib.Core.List.{append_assoc}
use restic_backup_operator.Base.{
  ℕ, String, Bool, true, false, ◌&&◌, ◌||◌, Bool-cases, inl, inr, Option, none, some, List, [], ◌∷◌,
  ◌++◌, ◌≡◌, refl, arith, eqb, All, All-append,
}
use restic_backup_operator.Controller.LockAge.{
  codes, is_digit, is_digit_or_dot, take_while, drop_while, matched_unit, unit_part, strip_prefix,
  seconds_part, match_inside, find_age,
}
use restic_backup_operator.Controller.LockAge.Parts.{or-eq-false}
use restic_backup_operator.Controller.LockAge.Numbers.{
  AreDigits, IsCons, AreDigits-itoa, IsCons-itoa, take_while-stop, drop_while-stop,
}
use restic_backup_operator.Controller.LockAge.Age.{
  Age, number, unit_codes, seconds_codes, age_codes, HasDigits, OtherUnit, unit_part-codes,
}

-- What follows the duration.
abbrev pub ending : List ℕ → List ℕ
ending after = codes "s ago)" ++ after

OtherUnit-seconds :
    (u n : ℕ) (o : Option String) (after : List ℕ)
    → eqb b's' u ≡ false
    → eqb b'.' u ≡ false
    → OtherUnit u (seconds_codes n o ++ ending after)
OtherUnit-seconds u n none after hs hd = record {
  digits = number n;
  next = b's';
  rest = codes " ago)" ++ after;
  text = refl;
  are_digits = AreDigits-itoa n;
  no_digit = refl;
  no_unit = hs;
}
OtherUnit-seconds u n (some digits) after hs hd = record {
  digits = number n;
  next = b'.';
  rest = codes digits ++ ending after;
  text = append_assoc (number n) (b'.' ∷ codes digits) (ending after);
  are_digits = AreDigits-itoa n;
  no_digit = refl;
  no_unit = hd;
}

OtherUnit-minutes :
    (o : Option ℕ) (rest : List ℕ)
    → OtherUnit b'h' rest
    → OtherUnit b'h' (unit_codes b'm' o ++ rest)
OtherUnit-minutes none rest other = other
OtherUnit-minutes (some n) rest other = record {
  digits = number n;
  next = b'm';
  rest = rest;
  text = append_assoc (number n) (b'm' ∷ []) rest;
  are_digits = AreDigits-itoa n;
  no_digit = refl;
  no_unit = refl;
}

digits_or_dot : (ds : List ℕ) → AreDigits ds → All (λ c. is_digit_or_dot c ≡ true) ds
digits_or_dot [] _ = tt
digits_or_dot (d ∷ ds) (hd, hs) = (rw hd refl, digits_or_dot ds hs)

seconds-digits_or_dot :
    (n : ℕ) (o : Option String)
    → HasDigits o
    → All (λ c. is_digit_or_dot c ≡ true) (seconds_codes n o)
seconds-digits_or_dot n none _ = digits_or_dot (number n) (AreDigits-itoa n)
seconds-digits_or_dot n (some digits) h =
    All-append (λ c. is_digit_or_dot c ≡ true) (number n) (b'.' ∷ codes digits)
      (digits_or_dot (number n) (AreDigits-itoa n)) (refl, digits_or_dot (codes digits) h)

pub IsCons-append : (ds rest : List ℕ) → IsCons ds → IsCons (ds ++ rest)
IsCons-append [] rest h = elim h [ ]
IsCons-append (d ∷ ds) rest h = h

IsCons-seconds : (n : ℕ) (o : Option String) → IsCons (seconds_codes n o)
IsCons-seconds n none = IsCons-itoa n
IsCons-seconds n (some digits) = IsCons-append (number n) (b'.' ∷ codes digits) (IsCons-itoa n)

seconds_part-ending :
    (ds after : List ℕ) → IsCons ds → seconds_part ds (ending after) ≡ some (ds ++ codes "s")
unfolding seconds_part strip_prefix
seconds_part-ending [] after h = elim h [ ]
seconds_part-ending (d ∷ ds) after h = refl

match_inside-age :
    (a : Age) (after : List ℕ)
    → HasDigits a.fraction
    → match_inside (
        unit_codes b'h' a.hours
        ++ (unit_codes b'm' a.minutes ++ (seconds_codes a.seconds a.fraction ++ ending after)))
      ≡ some (age_codes a)
unfolding match_inside
match_inside-age a after h =
    let rest = seconds_codes a.seconds a.fraction ++ ending after in
    let dotted = seconds-digits_or_dot a.seconds a.fraction h in
    let cons = IsCons-seconds a.seconds a.fraction in
    let hours = unit_part-codes b'h' a.hours (unit_codes b'm' a.minutes ++ rest) refl refl (
      OtherUnit-minutes a.minutes rest
        (OtherUnit-seconds b'h' a.seconds a.fraction after refl refl)) in
    let minutes =
      unit_part-codes b'm' a.minutes rest refl refl
        (OtherUnit-seconds b'm' a.seconds a.fraction after refl refl) in
    rw
      (
        match_inside,
        hours,
        minutes,
        take_while-stop is_digit_or_dot (seconds_codes a.seconds a.fraction) b's'
            (codes " ago)" ++ after) dotted refl,
        drop_while-stop is_digit_or_dot (seconds_codes a.seconds a.fraction) b's'
            (codes " ago)" ++ after) dotted refl,
        seconds_part-ending (seconds_codes a.seconds a.fraction) after cons,
      )
      (rw (hours, minutes) refl)

abbrev starts_number : List ℕ → Bool
starts_number [] = false
starts_number (c ∷ s) = is_digit_or_dot c

-- Some opening parenthesis has a digit or a dot behind it.
unfoldable pub opens_number : List ℕ → Bool
opens_number [] = false
opens_number (c ∷ s) = (eqb c b'(' && starts_number s) || opens_number s

unit_part-other : (u c : ℕ) (s : List ℕ) → is_digit c ≡ false → unit_part u (c ∷ s) ≡ ([], c ∷ s)
unfolding unit_part take_while drop_while matched_unit
unit_part-other u c s h = rw (h, take_while, drop_while) refl

take_while-other :
    (c : ℕ) (s : List ℕ) → is_digit_or_dot c ≡ false → take_while is_digit_or_dot (c ∷ s) ≡ []
unfolding take_while
take_while-other c s h = rw h refl

seconds_part-none : (rest : List ℕ) → seconds_part [] rest ≡ none
unfolding seconds_part
seconds_part-none rest = refl

match_inside-none : (s : List ℕ) → starts_number s ≡ false → match_inside s ≡ none
unfolding match_inside
match_inside-none [] h = unfold unit_part take_while drop_while matched_unit seconds_part in refl
match_inside-none (c ∷ s) h =
    let (no_digit, _) = or-eq-false (is_digit c) (eqb c b'.') h in
    let none_here = unit_part-other b'h' c s no_digit in
    let none_there = unit_part-other b'm' c s no_digit in
    let nothing = seconds_part-none (drop_while is_digit_or_dot (c ∷ s)) in
    rw (none_here, none_there, take_while-other c s h, nothing, match_inside) refl

no_number_behind : (b c : Bool) → b ≡ true → (b && c) ≡ false → c ≡ false
no_number_behind true c h closed = closed
no_number_behind false c h closed = ground arith

-- Neither does the one that opens the age begin a number.
starts_number-behind :
    (before s : List ℕ)
    → starts_number before ≡ false
    → starts_number (before ++ (b'(' ∷ s)) ≡ false
starts_number-behind [] s h = refl
starts_number-behind (c ∷ before) s h = h

find_age-behind :
    (before s found : List ℕ)
    → opens_number before ≡ false
    → match_inside s ≡ some found
    → find_age (before ++ (b'(' ∷ s)) ≡ some found
unfolding find_age opens_number
find_age-behind [] s found _ h = rw h refl
find_age-behind (c ∷ before) s found closed h =
    let (here, later) =
      or-eq-false (eqb c b'(' && starts_number before) (opens_number before) closed in
    elim (Bool-cases (eqb c b'(')) [
      | inr other ↦ rw other (find_age-behind before s found later h)
      | inl opened ↦
          let none_here : match_inside (before ++ (b'(' ∷ s)) ≡ none =
            match_inside-none (before ++ (b'(' ∷ s))
              (starts_number-behind before s (no_number_behind _ _ opened here)) in
          rw (opened, none_here) (find_age-behind before s found later h)
    ]

-- The age behind the first opening parenthesis before a digit or a dot is found as it is written.
pub find_age-age :
    (a : Age) (before after : List ℕ)
    → opens_number before ≡ false
    → HasDigits a.fraction
    → find_age (
        before
        ++ (b'('
            ∷ (unit_codes b'h' a.hours
                ++ (unit_codes b'm' a.minutes
                    ++ (seconds_codes a.seconds a.fraction ++ ending after)))))
      ≡ some (age_codes a)
find_age-age a before after hb hf =
    find_age-behind before _ (age_codes a) hb (match_inside-age a after hf)
