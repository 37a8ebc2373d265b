-- ===== src/Controller/LockAge/RoundTrip.antt =====
-- `parseLockAge` gives back the age that a message on a lock states.
use text.Mathlib.TextLemmas.{nil-append}
use restic_backup_operator.Base.{
  ℕ, ◌+◌, ◌^◌, ◌≤◌, ◌<◌, String, ◌<>◌, false, Option, none, some, List, [], ◌∷◌, ◌++◌, ◌≡◌, refl,
  arith, length, length-append, itoa,
}
use restic_backup_operator.Controller.LockAge.{codes, parse_duration, parse_lock_age}
use restic_backup_operator.Controller.LockAge.Numbers.{IsCons, codes-append}
use restic_backup_operator.Controller.LockAge.Age.{
  Age, number, unit_codes, seconds_codes, age_codes, unit_text, seconds_text, HasDigits,
}
use restic_backup_operator.Controller.LockAge.Search.{opens_number, ending, find_age-age}
use restic_backup_operator.Controller.LockAge.Rounds.{
  steps, FractionFits, nanoseconds, parse_parts-age,
}

length-IsCons : (s : List ℕ) → IsCons s → 1 ≤ length s
length-IsCons [] h = elim h [ ]
length-IsCons (c ∷ s) h = omega arith

steps-length : (u : ℕ) (o : Option ℕ) → steps o ≤ length (unit_codes u o)
steps-length u none = omega arith
steps-length u (some n) = omega (arith, length-append (number n) (u ∷ []))

steps-length-age : (a : Age) → steps a.hours + (steps a.minutes + 1) ≤ length (age_codes a)
steps-length-age a = omega (
  arith,
  steps-length b'h' a.hours,
  steps-length b'm' a.minutes,
  length-append (unit_codes b'h' a.hours)
      (unit_codes b'm' a.minutes ++ (seconds_codes a.seconds a.fraction ++ (b's' ∷ []))),
  length-append (unit_codes b'm' a.minutes) (seconds_codes a.seconds a.fraction ++ (b's' ∷ [])),
  length-append (seconds_codes a.seconds a.fraction) (b's' ∷ []),
)

codes-unit_text :
    (u : ℕ) (unit : String) (o : Option ℕ) (rest : String)
    → codes unit ≡ u ∷ []
    → codes (unit_text unit o <> rest) ≡ unit_codes u o ++ codes rest
codes-unit_text u unit none rest h = rw (nil-append rest) refl
codes-unit_text u unit (some n) rest h =
    rw (codes-append (itoa n <> unit) rest, codes-append (itoa n) unit, h) refl

codes-seconds_text :
    (n : ℕ) (o : Option String) (rest : String)
    → codes (seconds_text n o <> rest) ≡ seconds_codes n o ++ codes rest
codes-seconds_text n none rest = codes-append (itoa n) rest
codes-seconds_text n (some digits) rest =
    rw
      (
        codes-append (itoa n <> ("." <> digits)) rest,
        codes-append (itoa n) ("." <> digits),
        codes-append "." digits,
      )
      refl

-- The message that restic gives for a lock: a text, the age in parentheses, and a text.
abbrev pub lock_message : String → Age → String → String
lock_message before a after =
    before
    <> ("("
        <> (unit_text "h" a.hours
            <> (unit_text "m" a.minutes
                <> (seconds_text a.seconds a.fraction <> ("s ago)" <> after)))))

pub codes-lock_message :
    (before : String) (a : Age) (after : String)
    → codes (lock_message before a after)
      ≡ codes before
        ++ (b'('
            ∷ (unit_codes b'h' a.hours
                ++ (unit_codes b'm' a.minutes
                    ++ (seconds_codes a.seconds a.fraction ++ ending (codes after)))))
codes-lock_message before a after =
    let seconds = seconds_text a.seconds a.fraction <> ("s ago)" <> after) in
    let minutes = unit_text "m" a.minutes <> seconds in
    let hours = unit_text "h" a.hours <> minutes in
    rw
      (
        codes-append before ("(" <> hours),
        codes-append "(" hours,
        codes-unit_text b'h' "h" a.hours minutes refl,
        codes-unit_text b'm' "m" a.minutes seconds refl,
        codes-seconds_text a.seconds a.fraction ("s ago)" <> after),
        codes-append "s ago)" after,
      )
      refl

-- For a message with a duration in hours, minutes and seconds, such as 12h36m32.091s or 45s, and
-- " ago" in parentheses, before which no parenthesis opens before a digit or a dot, the age is that
-- duration in nanoseconds, its fraction as the parser scales it, if the duration has 63 bits and so
-- has the fraction without its dot.
pub parse_lock_age-lock_message :
    (fraction : ℕ → ℕ → ℕ → ℕ) (before : String) (a : Age) (after : String)
    → opens_number (codes before) ≡ false
    → HasDigits a.fraction
    → FractionFits a.fraction
    → nanoseconds fraction a < 2 ^ 63
    → parse_lock_age fraction (lock_message before a after) ≡ nanoseconds fraction a
unfolding parse_lock_age parse_duration
parse_lock_age-lock_message fraction before a after hb hd hf small =
    rw
      (
        codes-lock_message before a after,
        parse_lock_age,
        find_age-age a (codes before) (codes after) hb hd,
        parse_parts-age fraction a (length (age_codes a)) hd hf small (steps-length-age a),
      )
      refl
