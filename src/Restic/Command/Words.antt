-- ===== src/Restic/Command/Words.antt =====
-- How a command-line parser with long options reads an argument list: an option that takes a value
-- consumes the next argument, whatever that is; every other argument stands for itself.
use restic_backup_operator.Base.{String, Bool, true, false, ◌||◌, List, [], ◌∷◌, ◌==◌}

pub data Word : Type 0 where
  plain : String → Word
  option : String → String → Word

abbrev is_keep : String → Bool
is_keep a =
    a == "--keep-last"
    || (a == "--keep-hourly"
        || (a == "--keep-daily"
            || (a == "--keep-weekly" || (a == "--keep-monthly" || a == "--keep-yearly"))))

-- The options of the builder that take a value.
unfoldable pub takes_value : String → Bool
takes_value a =
    is_keep a
    || (a == "--host"
        || (a == "--tag"
            || (a == "--exclude"
                || (a == "--include"
                    || (a == "--target" || (a == "--group-by" || a == "--mode"))))))

unfoldable pub words : List String → List Word
words [] = []
words (a ∷ []) = plain a ∷ []
words (a ∷ v ∷ rest) = elim (takes_value a) [
  | true ↦ option a v ∷ words rest
  | false ↦ plain a ∷ words (v ∷ rest)
]
