-- ===== src/Restic/Command.antt =====
-- internal/restic/commands.go: the builder of restic's argument lists. A method that appends to the
-- receiver returns the new builder.
pub mod Words
pub mod Laws
use restic_backup_operator.Base.{
  ℕ, String, ◌<>◌, Bool, true, false, List, [], ◌∷◌, ◌++◌, ℤ, is_positive, to_nat, itoa, non_empty,
  concat, if◌then◌else◌,
}

pub record CommandBuilder : Type 0 where
  pub command : String
  pub args : List String

unfoldable pub new_command : String → CommandBuilder
new_command cmd = record { command = cmd; args = cmd ∷ [] }

-- `b.args = append(b.args, …)`
abbrev pub add : CommandBuilder → List String → CommandBuilder
add b more = record b { args = b.args ++ more }

unfoldable pub with_json : CommandBuilder → CommandBuilder
with_json b = add b ("--json" ∷ [])

unfoldable pub with_quiet : CommandBuilder → CommandBuilder
with_quiet b = add b ("--quiet" ∷ [])

unfoldable pub with_verbose : CommandBuilder → ℤ → CommandBuilder
unfolding itoa
with_verbose b level =
    if is_positive level
    then add b (("--verbose=" <> itoa (to_nat level)) ∷ [])
    else add b ("--verbose" ∷ [])

unfoldable pub with_host : CommandBuilder → String → CommandBuilder
with_host b value = if non_empty value then add b ("--host" ∷ value ∷ []) else b

unfoldable pub with_tag : CommandBuilder → String → CommandBuilder
with_tag b value = if non_empty value then add b ("--tag" ∷ value ∷ []) else b

unfoldable pub with_tags : CommandBuilder → List String → CommandBuilder
unfolding with_tag
with_tags b [] = b
with_tags b (value ∷ values) = with_tags (with_tag b value) values

unfoldable pub with_exclude : CommandBuilder → String → CommandBuilder
with_exclude b value = if non_empty value then add b ("--exclude" ∷ value ∷ []) else b

unfoldable pub with_excludes : CommandBuilder → List String → CommandBuilder
unfolding with_exclude
with_excludes b [] = b
with_excludes b (value ∷ values) = with_excludes (with_exclude b value) values

unfoldable pub with_include : CommandBuilder → String → CommandBuilder
with_include b value = if non_empty value then add b ("--include" ∷ value ∷ []) else b

unfoldable pub with_includes : CommandBuilder → List String → CommandBuilder
unfolding with_include
with_includes b [] = b
with_includes b (value ∷ values) = with_includes (with_include b value) values

unfoldable pub with_target : CommandBuilder → String → CommandBuilder
with_target b value = if non_empty value then add b ("--target" ∷ value ∷ []) else b

unfoldable pub with_keep_last : CommandBuilder → ℤ → CommandBuilder
unfolding itoa
with_keep_last b n = if is_positive n then add b ("--keep-last" ∷ itoa (to_nat n) ∷ []) else b

unfoldable pub with_keep_hourly : CommandBuilder → ℤ → CommandBuilder
unfolding itoa
with_keep_hourly b n = if is_positive n then add b ("--keep-hourly" ∷ itoa (to_nat n) ∷ []) else b

unfoldable pub with_keep_daily : CommandBuilder → ℤ → CommandBuilder
unfolding itoa
with_keep_daily b n = if is_positive n then add b ("--keep-daily" ∷ itoa (to_nat n) ∷ []) else b

unfoldable pub with_keep_weekly : CommandBuilder → ℤ → CommandBuilder
unfolding itoa
with_keep_weekly b n = if is_positive n then add b ("--keep-weekly" ∷ itoa (to_nat n) ∷ []) else b

unfoldable pub with_keep_monthly : CommandBuilder → ℤ → CommandBuilder
unfolding itoa
with_keep_monthly b n = if is_positive n then add b ("--keep-monthly" ∷ itoa (to_nat n) ∷ []) else b

unfoldable pub with_keep_yearly : CommandBuilder → ℤ → CommandBuilder
unfolding itoa
with_keep_yearly b n = if is_positive n then add b ("--keep-yearly" ∷ itoa (to_nat n) ∷ []) else b

unfoldable pub with_group_by : CommandBuilder → String → CommandBuilder
with_group_by b value = if non_empty value then add b ("--group-by" ∷ value ∷ []) else b

unfoldable pub with_prune : CommandBuilder → CommandBuilder
with_prune b = add b ("--prune" ∷ [])

unfoldable pub with_dry_run : CommandBuilder → CommandBuilder
with_dry_run b = add b ("--dry-run" ∷ [])

unfoldable pub with_path : CommandBuilder → String → CommandBuilder
with_path b path = if non_empty path then add b (path ∷ []) else b

unfoldable pub with_paths : CommandBuilder → List String → CommandBuilder
with_paths b paths = add b paths

unfoldable pub with_arg : CommandBuilder → String → CommandBuilder
with_arg b arg = if non_empty arg then add b (arg ∷ []) else b

unfoldable pub with_args : CommandBuilder → List String → CommandBuilder
with_args b args = add b args

unfoldable pub with_mode : CommandBuilder → String → CommandBuilder
with_mode b value = if non_empty value then add b ("--mode" ∷ value ∷ []) else b

unfoldable pub build : CommandBuilder → List String
build b = b.args

-- The method `String`.
unfoldable pub describe : CommandBuilder → String
describe b = "restic " <> b.command
