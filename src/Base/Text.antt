-- ===== src/Base/Text.antt =====
-- The functions of Go's package `strings` that the program calls, on texts of code points.
use Prim.Native.Nat.{ℕ}
use Prim.Native.Char.{Char, code}
use Prim.Native.String.{String}
use mathlib.Core.Path.{◌≡◌, refl}
use mathlib.Core.Bool.{Bool, true, false, ◌&&◌, ◌||◌}
use mathlib.Core.List.{List, [], ◌∷◌}
use text.Mathlib.Text.{◌==◌, find?}
use restic_backup_operator.Base.Tests.{eqb, leb, is_some, if◌then◌else◌}

-- `strings.Contains`
abbrev pub contains : String → String → Bool
contains s t = is_some (find? s t)

-- `unicode.IsSpace`
abbrev is_space : ℕ → Bool
is_space c =
    leb 9 c && leb c 13
    || (eqb c 32
        || (eqb c 0x85
            || (eqb c 0xa0
                || (eqb c 0x1680
                    || (leb 0x2000 c && leb c 0x200a
                        || (eqb c 0x2028
                            || (eqb c 0x2029
                                || (eqb c 0x202f || (eqb c 0x205f || eqb c 0x3000)))))))))

trim_left : String → String
trim_left String.[] = ""
trim_left (String.◌∷◌ c s) =
    let rest = trim_left s in if is_space (code c) then rest else String.◌∷◌ c s

trim_right : String → String
trim_right String.[] = ""
trim_right (String.◌∷◌ c s) =
    let rest = trim_right s in if is_space (code c) && rest == "" then "" else String.◌∷◌ c rest

-- `strings.TrimSpace`
unfoldable pub trim_space : String → String
unfolding trim_left trim_right
trim_space s = trim_right (trim_left s)

abbrev onto_head : Char → List String → List String
onto_head c [] = String.◌∷◌ c "" ∷ []
onto_head c (x ∷ xs) = String.◌∷◌ c x ∷ xs

-- `strings.Split(s, "\n")`
unfoldable pub split_lines : String → List String
split_lines String.[] = "" ∷ []
split_lines (String.◌∷◌ c s) =
    let rest = split_lines s in if eqb (code c) 10 then "" ∷ rest else onto_head c rest

-- A split has at least one part.
pub split_lines_cons : (s : String) → (x : String) × (xs : List String) × (split_lines s ≡ x ∷ xs)
unfolding split_lines
split_lines_cons String.[] = ("", [], refl)
split_lines_cons (String.◌∷◌ c s) = first (eqb (code c) 10) (split_lines s)
  where
    first :
        (b : Bool) (rest : List String)
        → (x : String) × (xs : List String) × ((if b then "" ∷ rest else onto_head c rest) ≡ x ∷ xs)
    first true rest = ("", rest, refl)
    first false [] = (String.◌∷◌ c "", [], refl)
    first false (y ∷ ys) = (String.◌∷◌ c y, ys, refl)

-- `strings.TrimSuffix` for a suffix of one character, given by its code.
unfoldable pub trim_suffix_char : String → ℕ → String
trim_suffix_char String.[] k = ""
trim_suffix_char (String.◌∷◌ c s) k =
    let rest = trim_suffix_char s k in if s == "" && eqb (code c) k then "" else String.◌∷◌ c rest

trim_test : split_lines (trim_space "  a b\nc\n") ≡ "a b" ∷ "c" ∷ []
unfolding trim_space split_lines
trim_test = refl

suffix_test : trim_suffix_char "http://x/" b'/' ≡ "http://x"
unfolding trim_suffix_char
suffix_test = refl
