-- ===== src/Base/Lines.antt =====
-- Texts that are joined with line breaks and split again.
use Prim.Native.Nat.{ℕ, zero, suc, ◌/◌, ◌%◌}
use Prim.Native.Char.{Char, code}
use Prim.Native.String.{String, ◌++◌ as ◌<>◌}
use mathlib.Core.Path.{◌≡◌, refl, ap, ◌∙◌}
use mathlib.Core.Logic.{inl, inr}
use mathlib.Core.Bool.{Bool, true, false, not, ◌&&◌}
use mathlib.Core.List.{List, [], ◌∷◌}
use text.Mathlib.TextLemmas.{nil-append, cons-append}
use restic_backup_operator.Base.Tests.{eqb, ltb, Bool-cases}
use restic_backup_operator.Base.Lists.{All, join}
use restic_backup_operator.Base.Decimal.{digit, digits_from, itoa}
use restic_backup_operator.Base.Text.{split_lines}

-- No line break.
unfoldable pub one_line : String → Bool
one_line String.[] = true
one_line (String.◌∷◌ c s) = not (eqb (code c) 10) && one_line s

pub record IsLine (s : String) : Type 0 where
  pub unbroken : one_line s ≡ true

pub not_and-eq-true : (b c : Bool) → not b && c ≡ true → (b ≡ false) × (c ≡ true)
not_and-eq-true true c h = cc
not_and-eq-true false c h = (refl, h)

one_line_head :
    (c : Char) (s : String)
    → one_line (String.◌∷◌ c s) ≡ true
    → (eqb (code c) 10 ≡ false) × (one_line s ≡ true)
unfolding one_line
one_line_head c s h = not_and-eq-true (eqb (code c) 10) (one_line s) h

pub one_line-append :
    (x y : String) → one_line x ≡ true → one_line y ≡ true → one_line (x <> y) ≡ true
unfolding one_line
one_line-append String.[] y hx hy = rw (nil-append y) hy
one_line-append (String.◌∷◌ c s) y hx hy =
    let (other, rest) = one_line_head c s hx in
    rw (cons-append c s y, other) (one_line-append s y rest hy)

split_lines-append :
    (x s : String) → one_line x ≡ true → split_lines (x <> ("\n" <> s)) ≡ x ∷ split_lines s
unfolding split_lines one_line
split_lines-append String.[] s h =
    rw (nil-append ("\n" <> s), cons-append "\n" "" s, nil-append s) refl
split_lines-append (String.◌∷◌ c x) s h =
    let (other, rest) = one_line_head c x h in
    rw (cons-append c x ("\n" <> s), other, split_lines-append x s rest) refl

split_lines-one_line : (x : String) → one_line x ≡ true → split_lines x ≡ x ∷ []
unfolding split_lines one_line
split_lines-one_line String.[] h = refl
split_lines-one_line (String.◌∷◌ c x) h =
    let (other, rest) = one_line_head c x h in rw (other, split_lines-one_line x rest) refl

pub split_lines-join :
    (x : String) (xs : List String)
    → All IsLine (x ∷ xs)
    → split_lines (join "\n" (x ∷ xs)) ≡ x ∷ xs
split_lines-join x [] (hx, _) = split_lines-one_line x hx.unbroken
split_lines-join x (y ∷ ys) (hx, hs) =
    split_lines-append x (join "\n" (y ∷ ys)) hx.unbroken ∙ ap (◌∷◌ x) (split_lines-join y ys hs)

one_line-digit : (n : ℕ) → one_line (digit n) ≡ true
unfolding one_line
one_line-digit zero = refl
one_line-digit (suc zero) = refl
one_line-digit (suc (suc zero)) = refl
one_line-digit (suc (suc (suc zero))) = refl
one_line-digit (suc (suc (suc (suc zero)))) = refl
one_line-digit (suc (suc (suc (suc (suc zero))))) = refl
one_line-digit (suc (suc (suc (suc (suc (suc zero)))))) = refl
one_line-digit (suc (suc (suc (suc (suc (suc (suc zero))))))) = refl
one_line-digit (suc (suc (suc (suc (suc (suc (suc (suc zero)))))))) = refl
one_line-digit _ = refl

one_line-digits_from :
    (fuel n : ℕ) (out : String) → one_line out ≡ true → one_line (digits_from fuel n out) ≡ true
unfolding digits_from
one_line-digits_from zero n out h = h
one_line-digits_from (suc fuel) n out h = elim (Bool-cases (ltb n 10)) [
  | inl small ↦ rw (small, digits_from) (one_line-append (digit n) out (one_line-digit n) h)
  | inr large ↦
      rw (large, digits_from)
        (one_line-digits_from fuel (n / 10) (digit (n % 10) <> out)
          (one_line-append (digit (n % 10)) out (one_line-digit (n % 10)) h))
]

pub one_line-itoa : (n : ℕ) → one_line (itoa n) ≡ true
unfolding itoa
one_line-itoa n = one_line-digits_from (suc n) n "" (unfold one_line in refl)
