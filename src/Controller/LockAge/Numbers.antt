-- ===== src/Controller/LockAge/Numbers.antt =====
-- The decimal numbers that the program prints, read again by the parsers of package time.
use Prim.Native.Char.{code}
use text.Mathlib.TextLemmas.{nil-append, cons-append}
use restic_backup_operator.Base.{
  ℕ, zero, suc, ◌+◌, ◌-◌, ◌*◌, ◌/◌, ◌%◌, ◌^◌, ◌≤◌, ◌<◌, String, ◌<>◌, Bool, true, false, ◌||◌, some,
  List, [], ◌∷◌, ◌++◌, ◌≡◌, refl, ap, ◌∙◌, arith, ltb, All, Bool-cases, inl, inr, digit,
  digits_from, itoa,
}
use restic_backup_operator.Controller.LockAge.{
  codes, is_digit, take_while, drop_while, leading_int, leading_fraction,
}

pub codes-append : (a b : String) → codes (a <> b) ≡ codes a ++ codes b
codes-append String.[] b = rw (nil-append b) refl
codes-append (String.◌∷◌ c a) b = rw (cons-append c a b) (ap (◌∷◌ (code c)) (codes-append a b))

-- There is a first character.
abbrev pub IsCons : List ℕ → Type 0
IsCons [] = ⊥
IsCons (_ ∷ _) = Unit

abbrev pub AreDigits : List ℕ → Type 0
AreDigits = All (λ c. is_digit c ≡ true)

-- The number that digits continue.
abbrev pub value : ℕ → List ℕ → ℕ
value x [] = x
value x (d ∷ ds) = value (x * 10 + (d - b'0')) ds

-- The power of ten by which a fraction is divided.
abbrev pub power : ℕ → List ℕ → ℕ
power scale [] = scale
power scale (d ∷ ds) = power (scale * 10) ds

value_mono : (x : ℕ) (ds : List ℕ) → x ≤ value x ds
value_mono x [] = omega arith
value_mono x (d ∷ ds) = omega (arith, value_mono (x * 10 + (d - b'0')) ds)

ltb-lt : (a b : ℕ) → ltb a b ≡ true → a < b
ltb-lt a b h = ground arith

ltb-ge : (a b : ℕ) → ltb a b ≡ false → b ≤ a
ltb-ge a b h = ground arith

too_large : (n : ℕ) → ¬ (suc (suc (suc (suc (suc (suc (suc (suc (suc (suc n))))))))) < 10)
too_large n h = omega arith

code_of_digit :
    (n : ℕ) → n < 10 → (d : ℕ) × (codes (digit n) ≡ d ∷ []) × (is_digit d ≡ true) × (d - b'0' ≡ n)
code_of_digit zero h = (b'0' + 0, refl, refl, refl)
code_of_digit (suc zero) h = (b'0' + 1, refl, refl, refl)
code_of_digit (suc (suc zero)) h = (b'0' + 2, refl, refl, refl)
code_of_digit (suc (suc (suc zero))) h = (b'0' + 3, refl, refl, refl)
code_of_digit (suc (suc (suc (suc zero)))) h = (b'0' + 4, refl, refl, refl)
code_of_digit (suc (suc (suc (suc (suc zero))))) h = (b'0' + 5, refl, refl, refl)
code_of_digit (suc (suc (suc (suc (suc (suc zero)))))) h = (b'0' + 6, refl, refl, refl)
code_of_digit (suc (suc (suc (suc (suc (suc (suc zero))))))) h = (b'0' + 7, refl, refl, refl)
code_of_digit (suc (suc (suc (suc (suc (suc (suc (suc zero)))))))) h = (b'0' + 8, refl, refl, refl)
code_of_digit (suc (suc (suc (suc (suc (suc (suc (suc (suc zero))))))))) h =
    (b'0' + 9, refl, refl, refl)
code_of_digit (suc (suc (suc (suc (suc (suc (suc (suc (suc (suc n)))))))))) h =
    elim (too_large n h) [ ]

AreDigits-digit :
    (n : ℕ) (out : String) → n < 10 → AreDigits (codes out) → AreDigits (codes (digit n <> out))
AreDigits-digit n out h ds =
    let (d, here, is, _) = code_of_digit n h in rw (codes-append (digit n) out, here) (is, ds)

IsCons-digit : (n : ℕ) (out : String) → n < 10 → IsCons (codes (digit n <> out))
IsCons-digit n out h =
    let (d, here, _, _) = code_of_digit n h in rw (codes-append (digit n) out, here) tt

value-digit :
    (x n : ℕ) (out : String)
    → n < 10
    → value x (codes (digit n <> out)) ≡ value (x * 10 + n) (codes out)
value-digit x n out h =
    let (d, here, _, is) = code_of_digit n h in
    rw (codes-append (digit n) out, here) (ap (λ k. value (x * 10 + k) (codes out)) is)

AreDigits-digits_from :
    (fuel n : ℕ) (out : String) → AreDigits (codes out) → AreDigits (codes (digits_from fuel n out))
unfolding digits_from
AreDigits-digits_from zero n out ds = ds
AreDigits-digits_from (suc fuel) n out ds = elim (Bool-cases (ltb n 10)) [
  | inl small ↦ rw (small, digits_from) (AreDigits-digit n out (ltb-lt n 10 small) ds)
  | inr large ↦
      rw (large, digits_from)
        (AreDigits-digits_from fuel (n / 10) (digit (n % 10) <> out)
          (AreDigits-digit (n % 10) out (omega arith) ds))
]

value-digits_from :
    (fuel n : ℕ) (out : String)
    → n < fuel
    → value 0 (codes (digits_from fuel n out)) ≡ value n (codes out)
unfolding digits_from
value-digits_from zero n out h = omega arith
value-digits_from (suc fuel) n out h = elim (Bool-cases (ltb n 10)) [
  | inl small ↦
      rw (small, digits_from)
        (value-digit 0 n out (ltb-lt n 10 small) ∙ ap (λ m. value m (codes out)) (omega arith))
  | inr large ↦
      rw (large, digits_from)
        (value-digits_from fuel (n / 10) (digit (n % 10) <> out) (omega (arith, ltb-ge n 10 large))
          ∙ (value-digit (n / 10) (n % 10) out (omega arith)
              ∙ ap (λ m. value m (codes out)) (omega arith)))
]

IsCons-digits_from :
    (fuel n : ℕ) (out : String) → IsCons (codes out) → IsCons (codes (digits_from fuel n out))
unfolding digits_from
IsCons-digits_from zero n out h = h
IsCons-digits_from (suc fuel) n out h = elim (Bool-cases (ltb n 10)) [
  | inl small ↦ rw (small, digits_from) (IsCons-digit n out (ltb-lt n 10 small))
  | inr large ↦
      rw (large, digits_from)
        (IsCons-digits_from fuel (n / 10) (digit (n % 10) <> out)
          (IsCons-digit (n % 10) out (omega arith)))
]

pub IsCons-itoa : (n : ℕ) → IsCons (codes (itoa n))
unfolding itoa digits_from
IsCons-itoa n = elim (Bool-cases (ltb n 10)) [
  | inl small ↦ rw (small, digits_from) (IsCons-digit n "" (ltb-lt n 10 small))
  | inr large ↦
      rw (large, digits_from)
        (IsCons-digits_from n (n / 10) (digit (n % 10) <> "")
          (IsCons-digit (n % 10) "" (omega arith)))
]

pub AreDigits-itoa : (n : ℕ) → AreDigits (codes (itoa n))
unfolding itoa
AreDigits-itoa n = AreDigits-digits_from (suc n) n "" tt

pub value-itoa : (n : ℕ) → value 0 (codes (itoa n)) ≡ n
unfolding itoa
value-itoa n = value-digits_from (suc n) n "" (omega arith)

fits_int :
    (x d : ℕ) (ds : List ℕ)
    → value (x * 10 + (d - b'0')) ds ≤ 2 ^ 63
    → (ltb (2 ^ 63 / 10) x || ltb (2 ^ 63) (x * 10 + (d - b'0'))) ≡ false
fits_int x d ds h = ground (arith, value_mono (x * 10 + (d - b'0')) ds)

fits_fraction :
    (x d : ℕ) (ds : List ℕ)
    → value (x * 10 + (d - b'0')) ds < 2 ^ 63
    → (ltb ((2 ^ 63 - 1) / 10) x || ltb (2 ^ 63) (x * 10 + (d - b'0'))) ≡ false
fits_fraction x d ds h = ground (arith, value_mono (x * 10 + (d - b'0')) ds)

-- A parser stops behind the digits, at a character that is none.
pub leading_int-digits :
    (x : ℕ) (ds : List ℕ) (u : ℕ) (rest : List ℕ)
    → AreDigits ds
    → is_digit u ≡ false
    → value x ds ≤ 2 ^ 63
    → leading_int x (ds ++ (u ∷ rest)) ≡ some (value x ds, u ∷ rest)
unfolding leading_int
leading_int-digits x [] u rest _ hu h = rw hu refl
leading_int-digits x (d ∷ ds) u rest (hd, hs) hu h =
    rw (hd, fits_int x d ds h) (leading_int-digits (x * 10 + (d - b'0')) ds u rest hs hu h)

pub leading_fraction-digits :
    (x scale : ℕ) (ds : List ℕ) (u : ℕ) (rest : List ℕ)
    → AreDigits ds
    → is_digit u ≡ false
    → value x ds < 2 ^ 63
    → leading_fraction x scale false (ds ++ (u ∷ rest)) ≡ ((value x ds, power scale ds), u ∷ rest)
unfolding leading_fraction
leading_fraction-digits x scale [] u rest _ hu h = rw hu refl
leading_fraction-digits x scale (d ∷ ds) u rest (hd, hs) hu h =
    rw (hd, fits_fraction x d ds h)
      (leading_fraction-digits (x * 10 + (d - b'0')) (scale * 10) ds u rest hs hu h)

module _ (p : ℕ → Bool) where
  pub take_while-stop :
      (ds : List ℕ) (u : ℕ) (rest : List ℕ)
      → All (λ c. p c ≡ true) ds
      → p u ≡ false
      → take_while p (ds ++ (u ∷ rest)) ≡ ds
  unfolding take_while
  take_while-stop [] u rest _ hu = rw hu refl
  take_while-stop (d ∷ ds) u rest (hd, hs) hu = rw (hd, take_while-stop ds u rest hs hu) refl

  pub drop_while-stop :
      (ds : List ℕ) (u : ℕ) (rest : List ℕ)
      → All (λ c. p c ≡ true) ds
      → p u ≡ false
      → drop_while p (ds ++ (u ∷ rest)) ≡ u ∷ rest
  unfolding drop_while
  drop_while-stop [] u rest _ hu = rw hu refl
  drop_while-stop (d ∷ ds) u rest (hd, hs) hu = rw hd (drop_while-stop ds u rest hs hu)
