-- ===== src/Controller/LockAge.antt =====
-- internal/controller/resticrepository_controller.go: `parseLockAge` over the code points of a
-- message, with the regular expression `\((\d+h)?(\d+m)?[\d.]+s ago\)` and `time.ParseDuration`.
pub mod Numbers
pub mod Parts
pub mod Age
pub mod Search
pub mod Rounds
pub mod RoundTrip
pub mod Errors
pub mod Overflow
pub mod Fuel
use Prim.Native.Char.{code}
use Prim.Native.String
use restic_backup_operator.Base.{
  ℕ, zero, suc, ◌+◌, ◌-◌, ◌*◌, ◌/◌, ◌%◌, ◌^◌, String, Bool, true, false, ◌&&◌, ◌||◌, not, Option,
  none, some, List, [], ◌∷◌, ◌++◌, ◌≡◌, refl, eqb, leb, ltb, if◌then◌else◌, length,
}

abbrev pub codes : String → List ℕ
codes String.[] = []
codes (String.◌∷◌ c s) = code c ∷ codes s

abbrev pub is_digit : ℕ → Bool
is_digit c = leb b'0' c && leb c b'9'

abbrev pub is_digit_or_dot : ℕ → Bool
is_digit_or_dot c = is_digit c || eqb c b'.'

-- The longest prefix of characters that pass a test, and what follows it.
unfoldable pub take_while : (ℕ → Bool) → List ℕ → List ℕ
take_while p [] = []
take_while p (c ∷ s) = let rest = take_while p s in if p c then c ∷ rest else []

unfoldable pub drop_while : (ℕ → Bool) → List ℕ → List ℕ
drop_while p [] = []
drop_while p (c ∷ s) = let rest = drop_while p s in if p c then rest else c ∷ s

-- What follows a prefix, if it is there.
unfoldable pub strip_prefix : List ℕ → List ℕ → Option (List ℕ)
strip_prefix [] s = some s
strip_prefix (p ∷ ps) [] = none
strip_prefix (p ∷ ps) (c ∷ s) = let rest = strip_prefix ps s in if eqb p c then rest else none

-- `(\d+u)?`: the matched text and what follows. The digits cannot be matched in part, since the
-- unit must follow them, and a group that can match must, since what comes after it cannot begin
-- with its text.
matched_unit : ℕ → List ℕ → List ℕ → List ℕ → List ℕ × List ℕ
matched_unit u s (d ∷ ds) (c ∷ rest) = if eqb c u then ((d ∷ ds) ++ (u ∷ []), rest) else ([], s)
matched_unit u s _ _ = ([], s)

pub unit_part : ℕ → List ℕ → List ℕ × List ℕ
unfolding matched_unit
unit_part u s = matched_unit u s (take_while is_digit s) (drop_while is_digit s)

-- `[\d.]+s ago\)`: the matched number.
pub seconds_part : List ℕ → List ℕ → Option (List ℕ)
seconds_part [] rest = none
seconds_part (d ∷ ds) rest = elim (strip_prefix (codes "s ago)") rest) [
  | none ↦ none
  | some _ ↦ some ((d ∷ ds) ++ codes "s")
]

-- The expression behind the opening parenthesis; the duration is returned, without the parentheses
-- and the suffix " ago" that `TrimPrefix` and `TrimSuffix` take off the match.
pub match_inside : List ℕ → Option (List ℕ)
unfolding unit_part seconds_part
match_inside s =
    let (hours, s1) = unit_part b'h' s in
    let (minutes, s2) = unit_part b'm' s1 in
    elim (seconds_part (take_while is_digit_or_dot s2) (drop_while is_digit_or_dot s2)) [
      | none ↦ none
      | some seconds ↦ some (hours ++ (minutes ++ seconds))
    ]

-- `FindString`: the leftmost match.
unfoldable pub find_age : List ℕ → Option (List ℕ)
unfolding match_inside take_while drop_while strip_prefix
find_age [] = none
find_age (c ∷ s) =
    let later = find_age s in
    let here = match_inside s in
    if eqb c b'(' then elim here [ none ↦ later | some found ↦ some found ] else later

-- `leadingInt` of package time: an error is `none`.
unfoldable pub leading_int : ℕ → List ℕ → Option (ℕ × List ℕ)
leading_int x [] = some (x, [])
leading_int x (c ∷ s) =
    let x' = x * 10 + (c - b'0') in
    let rest = leading_int x' s in
    if is_digit c
    then (if ltb (2 ^ 63 / 10) x || ltb (2 ^ 63) x' then none else rest)
    else some (x, c ∷ s)

-- `leadingFraction`: the digits as a number, and the power of ten that they are to be divided by;
-- digits behind an overflow are dropped.
unfoldable pub leading_fraction : ℕ → ℕ → Bool → List ℕ → (ℕ × ℕ) × List ℕ
leading_fraction x scale overflow [] = ((x, scale), [])
leading_fraction x scale overflow (c ∷ s) =
    let x' = x * 10 + (c - b'0') in
    let stuck = overflow || (ltb ((2 ^ 63 - 1) / 10) x || ltb (2 ^ 63) x') in
    let rest =
      leading_fraction (if stuck then x else x') (if stuck then scale else scale * 10) stuck s in
    if is_digit c then rest else ((x, scale), c ∷ s)

abbrev is_unit_char : ℕ → Bool
is_unit_char c = not (is_digit_or_dot c)

abbrev same : List ℕ → List ℕ → Bool
same [] [] = true
same (a ∷ s) (b ∷ t) = eqb a b && same s t
same _ _ = false

-- `unitMap`, in nanoseconds.
pub unit_value : List ℕ → Option ℕ
unit_value u =
    if same u (codes "ns")
    then some 1
    else if same u (codes "us") || (same u (codes "µs") || same u (codes "μs"))
    then some 1000
    else if same u (codes "ms")
    then some 1_000_000
    else if same u (codes "s")
    then some 1_000_000_000
    else if same u (codes "m")
    then some 60_000_000_000
    else if same u (codes "h")
    then some 3_600_000_000_000
    else none

-- The fraction after a dot, with the number of its digits' power of ten and what follows.
pub fraction_part : List ℕ → (ℕ × ℕ) × List ℕ
unfolding leading_fraction
fraction_part [] = ((0, 1), [])
fraction_part (c ∷ s) =
    let found = leading_fraction 0 1 false s in if eqb c b'.' then found else ((0, 1), c ∷ s)

abbrev starts_digit : List ℕ → Bool
starts_digit [] = false
starts_digit (d ∷ _) = is_digit d

-- A part has a digit, before the dot or after it.
abbrev has_digits : List ℕ → Bool
has_digits [] = false
has_digits (c ∷ s) = is_digit c || (eqb c b'.' && starts_digit s)

-- `fraction f unit scale` is the whole part of f * (unit / scale), which Go computes in floats.
module _ (fraction : ℕ → ℕ → ℕ → ℕ) where
  -- One part, `[0-9]*(\.[0-9]*)?[a-z]+`: its value in nanoseconds and what follows it.
  pub part_value : ℕ → ℕ → ℕ → Option ℕ → Option ℕ
  part_value v f scale none = none
  part_value v f scale (some unit) =
      let total = if ltb 0 f then v * unit + fraction f unit scale else v * unit in
      if ltb (2 ^ 63 / unit) v || ltb (2 ^ 63) total then none else some total

  parse_unit : List ℕ → ℕ → (ℕ × ℕ) × List ℕ → Option (ℕ × List ℕ)
  unfolding part_value unit_value
  parse_unit s v ((f, scale), rest) =
      elim (part_value v f scale (unit_value (take_while is_unit_char rest))) [
        | none ↦ none
        | some value ↦ some (value, drop_while is_unit_char rest)
      ]

  pub parse_part : List ℕ → Option (ℕ × List ℕ)
  unfolding leading_int fraction_part parse_unit
  parse_part s = elim (leading_int 0 s) [
    | none ↦ none
    | some (v, rest) ↦ if has_digits s then parse_unit s v (fraction_part rest) else none
  ]

  -- The loop of `ParseDuration`, with the sum so far; each round takes at least one character, so
  -- the length of the text is enough fuel. `none` is an error, or the end of the fuel.
  pub parse_parts : ℕ → ℕ → List ℕ → Option ℕ
  parse_parts fuel d [] = if ltb (2 ^ 63 - 1) d then none else some d
  parse_parts zero d (c ∷ s) = none
  parse_parts (suc fuel) d (c ∷ s) = elim (parse_part (c ∷ s)) [
    | none ↦ none
    | some (v, rest) ↦ elim (ltb (2 ^ 63) ((d + v) % 2 ^ 64)) [
      | true ↦ none
      | false ↦ parse_parts fuel ((d + v) % 2 ^ 64) rest
    ]
  ]

  -- `time.ParseDuration` for a text that is not empty, has no sign and is not "0", as the
  -- expression matches none of these.
  unfoldable pub parse_duration : List ℕ → Option ℕ
  unfolding parse_parts parse_part take_while drop_while
  parse_duration s = parse_parts (length s) 0 s

  unfoldable pub parse_lock_age : String → ℕ
  parse_lock_age message = elim (find_age (codes message)) [
    | none ↦ 0
    | some text ↦ elim (parse_duration text) [ none ↦ 0 | some age ↦ age ]
  ]

abbrev exact : ℕ → ℕ → ℕ → ℕ
exact f unit scale = f * unit / scale

age_test :
    parse_lock_age exact "lock was created at 2025-12-26 21:32:34 (12h36m32.091009819s ago)"
    ≡ 45_392_091_009_819
unfolding parse_lock_age find_age parse_duration
age_test = refl

no_age_test : parse_lock_age exact "repository is already locked (PID 7)" ≡ 0
unfolding parse_lock_age find_age parse_duration
no_age_test = refl

seconds_test : parse_lock_age exact "x (1h s ago) (45.5s ago) (1s ago)" ≡ 45_500_000_000
unfolding parse_lock_age find_age parse_duration
seconds_test = refl
