-- ===== src/Controller/Bytes.antt =====
-- internal/controller/resticrepository_controller.go: `formatBytes`.
use restic_backup_operator.Base.{
  ℕ, zero, suc, ◌+◌, ◌*◌, ◌/◌, ◌%◌, ◌^◌, ◌≤◌, ◌<◌, String, ◌<>◌, true, false, Option, none, some,
  ◌≡◌, refl, arith, ltb, leb, itoa, if◌then◌else◌, Bool-cases, inl, inr,
}

-- The loop: `n`, `div` and `exp` are its variables, and `none` means that the fuel ran out. The
-- product is taken in uint64.
unfoldable pub scale : ℕ → ℕ → ℕ → ℕ → Option (ℕ × ℕ)
scale zero n div exp = none
scale (suc fuel) n div exp = elim (leb 1024 n) [
  | true ↦ scale fuel (n / 1024) ((div * 1024) % 2 ^ 64) (exp + 1)
  | false ↦ some (div, exp)
]

-- `"KMGTPE"[exp]`, where an index out of range panics.
unfoldable pub letter : ℕ → Option String
letter zero = some "K"
letter (suc zero) = some "M"
letter (suc (suc zero)) = some "G"
letter (suc (suc (suc zero))) = some "T"
letter (suc (suc (suc (suc zero)))) = some "P"
letter (suc (suc (suc (suc (suc zero))))) = some "E"
letter _ = none

-- `one_decimal a b` is the text of `%.1f` at the quotient of the two numbers as floats. A panic is
-- `none`. Six rounds are enough for a uint64.
module _ (one_decimal : ℕ → ℕ → String) where
  unfoldable pub scaled : ℕ → Option (ℕ × ℕ) → Option String
  scaled bytes none = none
  scaled bytes (some (div, exp)) = elim (letter exp) [
    | none ↦ none
    | some c ↦ some (one_decimal bytes div <> (" " <> (c <> "iB")))
  ]

  unfoldable pub format_bytes : ℕ → Option String
  unfolding scaled
  format_bytes bytes =
      if ltb bytes 1024
      then some (itoa bytes <> " B")
      else scaled bytes (scale 6 (bytes / 1024) 1024 0)

scale_bounds :
    (bytes : ℕ)
    → 1024 ≤ bytes
    → bytes < 2 ^ 64
    → (div : ℕ) × (exp : ℕ) × (scale 6 (bytes / 1024) 1024 0 ≡ some (div, exp))
      × (exp ≤ 5)
      × (div ≡ 1024 ^ (exp + 1))
      × (div ≤ bytes)
      × (bytes < 1024 * div)
unfolding scale
scale_bounds bytes lo hi = elim (Bool-cases (leb 1024 (bytes / 1024))) [
  | inr small ↦ (1024 ^ 1, 0, ground arith, omega arith, refl, ground arith, ground arith)
  | inl b1 ↦ elim (Bool-cases (leb 1024 (bytes / 1024 / 1024))) [
    | inr small ↦ (1024 ^ 2, 1, ground arith, omega arith, refl, ground arith, ground arith)
    | inl b2 ↦ elim (Bool-cases (leb 1024 (bytes / 1024 / 1024 / 1024))) [
      | inr small ↦ (1024 ^ 3, 2, ground arith, omega arith, refl, ground arith, ground arith)
      | inl b3 ↦ elim (Bool-cases (leb 1024 (bytes / 1024 / 1024 / 1024 / 1024))) [
        | inr small ↦ (1024 ^ 4, 3, ground arith, omega arith, refl, ground arith, ground arith)
        | inl b4 ↦ elim (Bool-cases (leb 1024 (bytes / 1024 / 1024 / 1024 / 1024 / 1024))) [
          | inr small ↦ (1024 ^ 5, 4, ground arith, omega arith, refl, ground arith, ground arith)
          | inl b5 ↦
              let e : bytes / 1024 / 1024 / 1024 / 1024 / 1024 / 1024 < 1024 = omega arith in
              (1024 ^ 6, 5, ground arith, omega arith, refl, ground arith, ground arith)
        ]
      ]
    ]
  ]
]

letter_total : (exp : ℕ) → exp ≤ 5 → (c : String) × (letter exp ≡ some c)
unfolding letter
letter_total zero h = ("K", refl)
letter_total (suc zero) h = ("M", refl)
letter_total (suc (suc zero)) h = ("G", refl)
letter_total (suc (suc (suc zero))) h = ("T", refl)
letter_total (suc (suc (suc (suc zero)))) h = ("P", refl)
letter_total (suc (suc (suc (suc (suc zero))))) h = ("E", refl)
letter_total (suc (suc (suc (suc (suc (suc n)))))) h = absurd (omega arith)

format_bytes_lem :
    (one_decimal : ℕ → ℕ → String) (bytes : ℕ)
    → 1024 ≤ bytes
    → (exp : ℕ) (c : String) → scale 6 (bytes / 1024) 1024 0 ≡ some (1024 ^ (exp + 1), exp)
    → letter exp ≡ some c
    → format_bytes one_decimal bytes
      ≡ some (one_decimal bytes (1024 ^ (exp + 1)) <> (" " <> (c <> "iB")))
unfolding format_bytes
format_bytes_lem one_decimal bytes lo exp c found named = ground arith

-- For every uint64 from 1024 up `formatBytes` ends within six rounds and does not index past the
-- letters; the divisor is the power of 1024 that belongs to the letter, has not wrapped, and leaves
-- a quotient of at least 1 and below 1024.
pub format_bytes_large :
    (one_decimal : ℕ → ℕ → String) (bytes : ℕ)
    → 1024 ≤ bytes
    → bytes < 2 ^ 64
    → (exp : ℕ) × (c : String) × (letter exp ≡ some c)
      × (format_bytes one_decimal bytes
          ≡ some (one_decimal bytes (1024 ^ (exp + 1)) <> (" " <> (c <> "iB"))))
      × (1024 ^ (exp + 1) ≤ bytes)
      × (bytes < 1024 * 1024 ^ (exp + 1))
format_bytes_large one_decimal bytes lo hi =
    let (div, exp, found, small, power, below, above) = scale_bounds bytes lo hi in
    let (c, named) = letter_total exp small in
    (
      exp,
      c,
      named,
      format_bytes_lem one_decimal bytes lo exp c (rw (← power) found) named,
      rw (← power) below,
      rw (← power) above,
    )
