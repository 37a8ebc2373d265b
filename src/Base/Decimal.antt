-- ===== src/Base/Decimal.antt =====
-- Decimal output of a number, as `strconv.Itoa` and the verb `%d` write it.
use Prim.Native.Nat.{ℕ, zero, suc, ◌/◌, ◌%◌}
use Prim.Native.String.{String, ◌++◌ as ◌<>◌}
use mathlib.Core.Path.{◌≡◌, refl}
use mathlib.Core.Bool.{true, false}
use restic_backup_operator.Base.Tests.{ltb}

abbrev pub digit : ℕ → String
digit zero = "0"
digit (suc zero) = "1"
digit (suc (suc zero)) = "2"
digit (suc (suc (suc zero))) = "3"
digit (suc (suc (suc (suc zero)))) = "4"
digit (suc (suc (suc (suc (suc zero))))) = "5"
digit (suc (suc (suc (suc (suc (suc zero)))))) = "6"
digit (suc (suc (suc (suc (suc (suc (suc zero))))))) = "7"
digit (suc (suc (suc (suc (suc (suc (suc (suc zero)))))))) = "8"
digit _ = "9"

-- The digits of `n` before `out`; the fuel is one more than `n`, which has fewer digits than that.
unfoldable pub digits_from : ℕ → ℕ → String → String
digits_from zero n out = out
digits_from (suc fuel) n out = elim (ltb n 10) [
  | true ↦ digit n <> out
  | false ↦ digits_from fuel (n / 10) (digit (n % 10) <> out)
]

unfoldable pub itoa : ℕ → String
unfolding digits_from
itoa n = digits_from (suc n) n ""

itoa_test : itoa 7200 ≡ "7200"
unfolding itoa
itoa_test = refl
