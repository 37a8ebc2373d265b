-- ===== src/Controller/LockAge/Overflow.antt =====
-- `parseLockAge` on an age that does not fit 63 bits.
use mathlib.Core.List.{append_assoc}
use restic_backup_operator.Base.{
  ℕ, zero, suc, ◌+◌, ◌*◌, ◌^◌, ◌≤◌, ◌<◌, String, false, Option, none, some, List, [], ◌∷◌, ◌++◌,
  ◌≡◌, refl, ℤ, pos, negsuc, subst, arith, ltb, if◌then◌else◌, Bool-cases, inl, inr, length,
}
use restic_backup_operator.Controller.LockAge.{
  codes, is_digit_or_dot, unit_value, part_value, parse_part, parse_parts, parse_duration,
  parse_lock_age,
}
use restic_backup_operator.Controller.LockAge.Numbers.{
  IsCons, AreDigits-itoa, IsCons-itoa, value, value-itoa, power,
}
use restic_backup_operator.Controller.LockAge.Parts.{
  EndsUnit, parse_part-digits, parse_part-fraction,
}
use restic_backup_operator.Controller.LockAge.Age.{
  Age, number, unit_codes, seconds_codes, age_codes, HasDigits,
}
use restic_backup_operator.Controller.LockAge.Rounds.{
  EndsUnit-nil, EndsUnit-seconds, EndsUnit-minutes, amount, FractionFits, fraction_value,
  nanoseconds,
}
use restic_backup_operator.Controller.LockAge.RoundTrip.{lock_message, codes-lock_message}
use restic_backup_operator.Controller.LockAge.Search.{IsCons-append, opens_number, find_age-age}
use restic_backup_operator.Controller.LockAge.Errors.{
  parse_part-overflow, parse_part-digits_none, parse_part-fraction_none, parse_parts-none,
  parse_parts-over, parse_parts-end_none,
}
use restic_backup_operator.Controller.Repository.{get_stale_lock_threshold}

module _ (fraction : ℕ → ℕ → ℕ → ℕ) where
  -- A unit whose value is too large, and one that is taken.
  record Counts (u unit : ℕ) : Type 0 where
    no_number : is_digit_or_dot u ≡ false
    known : unit_value (u ∷ []) ≡ some unit
    over : (n : ℕ) → 2 ^ 63 < n * unit → part_value fraction n 0 1 (some unit) ≡ none
    within : (n : ℕ) → n * unit ≤ 2 ^ 63 → part_value fraction n 0 1 (some unit) ≡ some (n * unit)

  hour-Counts : Counts b'h' 3_600_000_000_000
  unfolding unit_value part_value
  hour-Counts = record {
    no_number = refl;
    known = refl;
    over = λ n h. ground arith;
    within = λ n h. ground arith;
  }

  minute-Counts : Counts b'm' 60_000_000_000
  unfolding unit_value part_value
  minute-Counts = record {
    no_number = refl;
    known = refl;
    over = λ n h. ground arith;
    within = λ n h. ground arith;
  }

  -- A unit that is given, or left out, before rounds that fail.
  parse_parts-unit_none :
      {u unit : ℕ} (o : Option ℕ) (fuel d : ℕ) (rest : List ℕ)
      → Counts u unit
      → EndsUnit rest
      → d < 2 ^ 63
      → (d + amount o unit ≤ 2 ^ 63
          → (f : ℕ) → parse_parts fraction f (d + amount o unit) rest ≡ none)
      → parse_parts fraction fuel d (unit_codes u o ++ rest) ≡ none
  parse_parts-unit_none none fuel d rest is end small next =
      subst (λ m. parse_parts fraction fuel m rest ≡ none) (omega arith) (next (omega arith) fuel)
  parse_parts-unit_none {u} {unit} (some n) fuel d rest is end small next =
      rw (append_assoc (number n) (u ∷ []) rest) (elim (Bool-cases (ltb (2 ^ 63) n)) [
        | inl long ↦ parse_parts-none fraction fuel d _ cons (
            parse_part-overflow fraction (number n) (u ∷ rest) (AreDigits-itoa n)
              (rw (value-itoa n) (ground arith)))
        | inr short ↦ elim (Bool-cases (ltb (2 ^ 63) (n * unit))) [
          | inl over ↦ parse_parts-none fraction fuel d _ cons (
              parse_part-digits_none fraction (number n) u unit rest (AreDigits-itoa n)
                (IsCons-itoa n) is.no_number end is.known (rw (value-itoa n) (ground arith))
                (rw (value-itoa n) (is.over n (ground arith))))
          | inr within ↦
              parse_parts-over fraction fuel d (n * unit) _ rest cons
                (parse_part-digits fraction (number n) u unit (n * unit) rest (AreDigits-itoa n)
                  (IsCons-itoa n) is.no_number end is.known (rw (value-itoa n) (ground arith))
                  (rw (value-itoa n) (is.within n (ground arith))))
                (ground arith) next
        ]
      ])
    where
      cons : IsCons (number n ++ (u ∷ rest))
      cons = IsCons-append (number n) (u ∷ rest) (IsCons-itoa n)

  second-Counts : Counts b's' 1_000_000_000
  unfolding unit_value part_value
  second-Counts = record {
    no_number = refl;
    known = refl;
    over = λ n h. ground arith;
    within = λ n h. ground arith;
  }

  -- The last part, of which the value or the sum is too large.
  parse_parts-last :
      (n total fuel d : ℕ) (s : List ℕ)
      → IsCons s
      → (2 ^ 63 < n → parse_part fraction s ≡ none)
      → (n ≤ 2 ^ 63 → 2 ^ 63 < total → parse_part fraction s ≡ none)
      → (n ≤ 2 ^ 63 → total ≤ 2 ^ 63 → parse_part fraction s ≡ some (total, []))
      → d < 2 ^ 63
      → 2 ^ 63 ≤ d + total
      → parse_parts fraction fuel d s ≡ none
  parse_parts-last n total fuel d s cons long over within small large =
      elim (Bool-cases (ltb (2 ^ 63) n)) [
        | inl h ↦ parse_parts-none fraction fuel d s cons (long (ground arith))
        | inr short ↦ elim (Bool-cases (ltb (2 ^ 63) total)) [
          | inl h ↦ parse_parts-none fraction fuel d s cons (over (ground arith) (ground arith))
          | inr h ↦
              parse_parts-over fraction fuel d total s [] cons
                (within (ground arith) (ground arith)) (ground arith)
                λ fits f.
                  subst (λ m. parse_parts fraction f m [] ≡ none)
                    (let same : 2 ^ 63 ≡ d + total = omega arith in same)
                    (parse_parts-end_none fraction f)
        ]
      ]

  part_value-second_over :
      (n f scale : ℕ)
      → 2 ^ 63 < n * 1_000_000_000 + (if ltb 0 f then fraction f 1_000_000_000 scale else 0)
      → part_value fraction n f scale (some 1_000_000_000) ≡ none
  unfolding part_value
  part_value-second_over n f scale h = ground arith

  part_value-second_within :
      (n f scale : ℕ)
      → n * 1_000_000_000 + (if ltb 0 f then fraction f 1_000_000_000 scale else 0) ≤ 2 ^ 63
      → part_value fraction n f scale (some 1_000_000_000)
        ≡ some (n * 1_000_000_000 + (if ltb 0 f then fraction f 1_000_000_000 scale else 0))
  unfolding part_value
  part_value-second_within n f scale h = ground arith

  parse_parts-seconds_none :
      (n : ℕ) (o : Option String) (fuel d : ℕ)
      → HasDigits o
      → FractionFits o
      → d < 2 ^ 63
      → 2 ^ 63 ≤ d + (n * 1_000_000_000 + fraction_value fraction o)
      → parse_parts fraction fuel d (seconds_codes n o ++ (b's' ∷ [])) ≡ none
  parse_parts-seconds_none n none fuel d _ _ small large =
      parse_parts-last n (n * 1_000_000_000) fuel d (number n ++ (b's' ∷ []))
        (IsCons-append (number n) (b's' ∷ []) (IsCons-itoa n))
        (λ long.
          parse_part-overflow fraction (number n) (b's' ∷ []) (AreDigits-itoa n)
            (rw (value-itoa n) long))
        (λ short over.
          parse_part-digits_none fraction (number n) b's' 1_000_000_000 [] (AreDigits-itoa n)
            (IsCons-itoa n) refl EndsUnit-nil second-Counts.known (rw (value-itoa n) short)
            (rw (value-itoa n) (second-Counts.over n over)))
        (λ short within.
          parse_part-digits fraction (number n) b's' 1_000_000_000 (n * 1_000_000_000) []
            (AreDigits-itoa n) (IsCons-itoa n) refl EndsUnit-nil second-Counts.known
            (rw (value-itoa n) short) (rw (value-itoa n) (second-Counts.within n within)))
        small (omega arith)
  parse_parts-seconds_none n (some digits) fuel d hd hf small large =
      let f = value 0 (codes digits) in
      let scale = power 1 (codes digits) in
      rw (append_assoc (number n) (b'.' ∷ codes digits) (b's' ∷ [])) (
        parse_parts-last n (n * 1_000_000_000 + fraction_value fraction (some digits)) fuel d _
          (IsCons-append (number n) (b'.' ∷ (codes digits ++ (b's' ∷ []))) (IsCons-itoa n))
          (λ long.
            parse_part-overflow fraction (number n) _ (AreDigits-itoa n) (rw (value-itoa n) long))
          (λ short over.
            parse_part-fraction_none fraction (number n) (codes digits) b's' 1_000_000_000 []
              (AreDigits-itoa n) (IsCons-itoa n) hd refl EndsUnit-nil second-Counts.known
              (rw (value-itoa n) short) hf
              (rw (value-itoa n) (part_value-second_over n f scale over)))
          (λ short within.
            parse_part-fraction fraction (number n) (codes digits) b's' 1_000_000_000
              (n * 1_000_000_000 + fraction_value fraction (some digits)) [] (AreDigits-itoa n)
              (IsCons-itoa n) hd refl EndsUnit-nil second-Counts.known (rw (value-itoa n) short) hf
              (rw (value-itoa n) (part_value-second_within n f scale within)))
          small large)

  -- Whole hours and minutes are never 2 ^ 63 nanoseconds.
  not_power : (h m : Option ℕ) → ¬ (amount h 3_600_000_000_000 + amount m 60_000_000_000 ≡ 2 ^ 63)
  not_power none none e = omega arith
  not_power none (some m) e = omega arith
  not_power (some h) none e = omega arith
  not_power (some h) (some m) e = omega arith

  parse_parts-age_none :
      (a : Age) (fuel : ℕ)
      → HasDigits a.fraction
      → FractionFits a.fraction
      → 2 ^ 63 ≤ nanoseconds fraction a
      → parse_parts fraction fuel 0 (age_codes a) ≡ none
  parse_parts-age_none a fuel hd hf large =
      let rest = seconds_codes a.seconds a.fraction ++ (b's' ∷ []) in
      let not_hours = not_power a.hours none in
      let not_sum = not_power a.hours a.minutes in
      parse_parts-unit_none a.hours fuel 0 (unit_codes b'm' a.minutes ++ rest) hour-Counts
        (EndsUnit-minutes b'm' a.minutes rest (EndsUnit-seconds a.seconds a.fraction (b's' ∷ [])))
        (omega arith)
        λ h1 f1.
          parse_parts-unit_none a.minutes f1 (0 + amount a.hours 3_600_000_000_000) rest
            minute-Counts (EndsUnit-seconds a.seconds a.fraction (b's' ∷ []))
            (below h1 λ e. not_hours (omega arith))
            λ h2 f2.
              parse_parts-seconds_none a.seconds a.fraction f2
                (0 + amount a.hours 3_600_000_000_000 + amount a.minutes 60_000_000_000) hd hf
                (below h2 λ e. not_sum (omega arith)) (omega arith)
    where
      below : {n : ℕ} → n ≤ 2 ^ 63 → ¬ (n ≡ 2 ^ 63) → n < 2 ^ 63
      below h other = omega arith

  threshold_positive : (configured : ℤ) → 0 < get_stale_lock_threshold configured
  unfolding get_stale_lock_threshold
  threshold_positive (pos zero) = omega arith
  threshold_positive (pos (suc n)) = omega arith
  threshold_positive (negsuc n) = omega arith

  -- For a message with a duration in hours, minutes and seconds, such as 3000000h0m0s, and
  -- " ago" in parentheses, before which no parenthesis opens before a digit or a dot, the age is 0 if
  -- the duration has more than 63 bits as a number of nanoseconds and its fraction without the dot
  -- has no more. It is then below every threshold, so that such a lock is not taken for stale.
  pub parse_lock_age-overflow :
      (configured : ℤ) (before : String) (a : Age) (after : String)
      → opens_number (codes before) ≡ false
      → HasDigits a.fraction
      → FractionFits a.fraction
      → 2 ^ 63 ≤ nanoseconds fraction a
      → (parse_lock_age fraction (lock_message before a after) ≡ 0)
        × (parse_lock_age fraction (lock_message before a after)
            < get_stale_lock_threshold configured)
  unfolding parse_lock_age parse_duration
  parse_lock_age-overflow configured before a after hb hd hf large =
      rw
        (
          codes-lock_message before a after,
          parse_lock_age,
          find_age-age a (codes before) (codes after) hb hd,
          parse_parts-age_none a (length (age_codes a)) hd hf large,
        )
        (refl, threshold_positive configured)
