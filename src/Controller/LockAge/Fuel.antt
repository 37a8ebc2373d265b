-- ===== src/Controller/LockAge/Fuel.antt =====
-- The loop of `ParseDuration` ends: each round takes a character at least.
use restic_backup_operator.Base.{
  ℕ, String, zero, suc, ◌+◌, ◌-◌, ◌*◌, ◌%◌, ◌^◌, ◌≤◌, ◌<◌, Bool, true, false, Option, none, some,
  List, [], ◌∷◌, ◌≡◌, refl, ap, arith, eqb, ltb, if◌then◌else◌, length, Bool-cases, inl, inr,
}
use restic_backup_operator.Controller.LockAge.{
  is_digit, is_unit_char, take_while, drop_while, leading_int, leading_fraction, fraction_part,
  unit_value, part_value, parse_unit, parse_part, parse_parts, parse_duration, has_digits,
  parse_lock_age, find_age, codes,
}

-- An error gives no age.
abbrev or_zero : Option ℕ → ℕ
or_zero none = 0
or_zero (some age) = age

no_room : {n : ℕ} → ¬ (suc n ≤ 0)
no_room h = omega arith

longer : {a b : ℕ} → a ≤ b → a ≤ suc b
longer h = omega arith

drop_while-length : (p : ℕ → Bool) (s : List ℕ) → length (drop_while p s) ≤ length s
unfolding drop_while
drop_while-length p [] = omega arith
drop_while-length p (c ∷ s) = ground (arith, drop_while-length p s)

leading_int-length :
    (x : ℕ) (s : List ℕ) {v : ℕ} {rest : List ℕ}
    → leading_int x s ≡ some (v, rest)
    → length rest ≤ length s
unfolding leading_int
leading_int-length x [] h = ground arith
leading_int-length x (c ∷ s) {v} {rest} h =
    ground (arith, leading_int-length (x * 10 + (c - b'0')) s {v = v} {rest = rest})

leading_fraction-length :
    (s : List ℕ) (x scale : ℕ) (overflow : Bool)
    → length (leading_fraction x scale overflow s).1 ≤ length s
unfolding leading_fraction
leading_fraction-length [] x scale overflow = omega arith
leading_fraction-length (c ∷ s) x scale overflow = elim (Bool-cases (is_digit c)) [
  | inl here ↦ rw here (longer (leading_fraction-length s _ _ _))
  | inr other ↦ rw other (omega arith)
]

fraction_part-length : (s : List ℕ) → length (fraction_part s).1 ≤ length s
unfolding fraction_part
fraction_part-length [] = omega arith
fraction_part-length (c ∷ s) = elim (Bool-cases (eqb c b'.')) [
  | inl here ↦ rw here (omega (arith, leading_fraction-length s 0 1 false))
  | inr other ↦ rw other (omega arith)
]

-- The text that is left does not depend on the value.
left_of :
    (o : Option ℕ) (rest : List ℕ) {value : ℕ} {left : List ℕ}
    → ◌≡◌ {A = Option (ℕ × List ℕ)}
        (elim o [ none ↦ none | some value ↦ some (value, rest) ])
        (some (value, left))
    → left ≡ rest
left_of none rest h = cc
left_of (some value) rest h = cc

no_value :
    (o : Option ℕ) (rest : List ℕ) {value : ℕ} {left : List ℕ}
    → o ≡ none
    → ¬ (
        ◌≡◌ {A = Option (ℕ × List ℕ)}
          (elim o [ none ↦ none | some value ↦ some (value, rest) ])
          (some (value, left)))
no_value none rest none_ h = cc
no_value (some value) rest none_ h = cc

take_while-none : (p : ℕ → Bool) (c : ℕ) (s : List ℕ) → p c ≡ false → take_while p (c ∷ s) ≡ []
unfolding take_while
take_while-none p c s other = rw other refl

module _ (fraction : ℕ → ℕ → ℕ → ℕ) where
  -- A unit has a character.
  parse_unit-length :
      (s : List ℕ) (v : ℕ) (f : ℕ × ℕ) (rest : List ℕ) {value : ℕ} {left : List ℕ}
      → parse_unit fraction s v (f, rest) ≡ some (value, left)
      → length left < length rest
  unfolding parse_unit part_value unit_value take_while drop_while
  parse_unit-length s v f [] h = cc
  parse_unit-length s v f (c ∷ rest) {value} {left} h = elim (Bool-cases (is_unit_char c)) [
    | inl unit ↦
        rw
          (
            left_of
                (part_value fraction v f.0 f.1 (unit_value (take_while is_unit_char (c ∷ rest))))
                (drop_while is_unit_char (c ∷ rest)) h,
            unit,
          )
          (omega (arith, drop_while-length is_unit_char rest))
    | inr other ↦ absurd (
        no_value _ (drop_while is_unit_char (c ∷ rest))
          (ap (λ u. part_value fraction v f.0 f.1 (unit_value u))
            (take_while-none is_unit_char c rest other))
          h)
  ]

  parse_part-length :
      (s : List ℕ) {value : ℕ} {left : List ℕ}
      → parse_part fraction s ≡ some (value, left)
      → length left < length s
  unfolding parse_part
  parse_part-length s {value} {left} h = by_number (leading_int 0 s) refl h
    where
      by_number :
          (o : Option (ℕ × List ℕ))
          → leading_int 0 s ≡ o
          → ◌≡◌ {A = Option (ℕ × List ℕ)}
              (elim o [
                | none ↦ none
                | some (v, rest) ↦
                    if has_digits s then parse_unit fraction s v (fraction_part rest) else none
              ])
              (some (value, left))
          → length left < length s
      by_number none number h = cc
      by_number (some (v, rest)) number h = elim (Bool-cases (has_digits s)) [
        | inl there ↦ omega (
          arith,
          parse_unit-length s v (fraction_part rest).0 (fraction_part rest).1 {value = value}
              {left = left} (rw there at h),
          fraction_part-length rest,
          leading_int-length 0 s number,
        )
        | inr missing ↦ let h' = rw missing at h in cc
      ]

  -- More rounds than there are characters change nothing.
  parse_parts-enough :
      (fuel again d : ℕ) (s : List ℕ)
      → length s ≤ fuel
      → length s ≤ again
      → parse_parts fraction fuel d s ≡ parse_parts fraction again d s
  unfolding parse_parts
  parse_parts-enough fuel again d [] h k = refl
  parse_parts-enough zero again d (c ∷ s) h k = elim (no_room h) [ ]
  parse_parts-enough (suc fuel) zero d (c ∷ s) h k = elim (no_room k) [ ]
  parse_parts-enough (suc fuel) (suc again) d (c ∷ s) h k =
      by_part (parse_part fraction (c ∷ s)) refl (λ v rest shorter.
        parse_parts-enough fuel again ((d + v) % 2 ^ 64) rest (omega arith) (omega arith))
    where
      both :
          (b : Bool) {x y : Option ℕ}
          → x ≡ y
          → ◌≡◌ {A = Option ℕ}
              (elim b [ true ↦ none | false ↦ x ])
              (elim b [ true ↦ none | false ↦ y ])
      both true same = refl
      both false same = same

      by_part :
          (o : Option (ℕ × List ℕ))
          → parse_part fraction (c ∷ s) ≡ o
          → ((v : ℕ) (rest : List ℕ)
              → length rest < length (c ∷ s)
              → parse_parts fraction fuel ((d + v) % 2 ^ 64) rest
                ≡ parse_parts fraction again ((d + v) % 2 ^ 64) rest)
          → ◌≡◌ {A = Option ℕ}
              (elim o [
                | none ↦ none
                | some (v, rest) ↦ elim (ltb (2 ^ 63) ((d + v) % 2 ^ 64)) [
                  | true ↦ none
                  | false ↦ parse_parts fraction fuel ((d + v) % 2 ^ 64) rest
                ]
              ])
              (elim o [
                | none ↦ none
                | some (v, rest) ↦ elim (ltb (2 ^ 63) ((d + v) % 2 ^ 64)) [
                  | true ↦ none
                  | false ↦ parse_parts fraction again ((d + v) % 2 ^ 64) rest
                ]
              ])
      by_part none part next = refl
      by_part (some (v, rest)) part next =
          both (ltb (2 ^ 63) ((d + v) % 2 ^ 64)) (next v rest (parse_part-length (c ∷ s) part))

  parse_parts-parse_duration :
      (s : List ℕ) (fuel : ℕ)
      → length s ≤ fuel
      → parse_parts fraction fuel 0 s ≡ parse_duration fraction s
  unfolding parse_duration
  parse_parts-parse_duration s fuel h = parse_parts-enough fuel (length s) 0 s h (omega arith)

  -- The loop of the duration parser ends on its own: any number of rounds that is at least the number of
  -- characters of the matched text gives the age of the message, with 0 for an error.
  parse_lock_age-rounds :
      (message : String) (text : List ℕ) (fuel : ℕ)
      → find_age (codes message) ≡ some text
      → length text ≤ fuel
      → parse_lock_age fraction message ≡ or_zero (parse_parts fraction fuel 0 text)
  unfolding parse_lock_age
  parse_lock_age-rounds message text fuel found enough =
      rw (found, parse_lock_age, parse_parts-parse_duration text fuel enough)
        (by_duration (parse_duration fraction text))
    where
      by_duration : (o : Option ℕ) → ◌≡◌ {A = ℕ} (elim o [ none ↦ 0 | some age ↦ age ]) (or_zero o)
      by_duration none = refl
      by_duration (some age) = refl
