-- ===== src/Controller/Retention/Script.antt =====
-- internal/controller/globalretentionpolicy_controller.go: `buildRetentionScript`.
pub mod Laws
pub mod Lines
use restic_backup_operator.Base.{
  ℕ, ◌+◌, String, ◌<>◌, Bool, true, false, Option, none, some, List, [], ◌∷◌, ◌++◌, ℤ, is_positive,
  to_nat, itoa, non_empty, join, if◌then◌else◌,
}
use restic_backup_operator.Api.Retention.{GlobalRetentionPolicy, RetentionPolicyEntry}

-- `for _, tag := range tags { cmd += fmt.Sprintf(" --tag %s", tag) }`
unfoldable pub tag_filters : String → List String → String
tag_filters cmd [] = cmd
tag_filters cmd (tag ∷ tags) = tag_filters (cmd <> (" --tag " <> tag)) tags

unfoldable pub host_filter : String → String → String
host_filter cmd hostname = if non_empty hostname then cmd <> (" --host " <> hostname) else cmd

-- `if keep != nil && *keep > 0 { cmd += fmt.Sprintf(flag+"%d", *keep) }`
unfoldable pub keep_rule : String → String → Option ℤ → String
unfolding itoa
keep_rule cmd flag none = cmd
keep_rule cmd flag (some n) = if is_positive n then cmd <> (flag <> itoa (to_nat n)) else cmd

-- The body of the loop: the command of one policy.
unfoldable pub forget_command : RetentionPolicyEntry → String
unfolding tag_filters host_filter keep_rule
forget_command p =
    let cmd = host_filter (tag_filters "restic forget" p.selector.tags) p.selector.hostname in
    let cmd = keep_rule cmd " --keep-last " p.retention.keep_last in
    let cmd = keep_rule cmd " --keep-hourly " p.retention.keep_hourly in
    let cmd = keep_rule cmd " --keep-daily " p.retention.keep_daily in
    let cmd = keep_rule cmd " --keep-weekly " p.retention.keep_weekly in
    let cmd = keep_rule cmd " --keep-monthly " p.retention.keep_monthly in
    keep_rule cmd " --keep-yearly " p.retention.keep_yearly

-- The loop from index `i` on.
unfoldable pub policy_commands : ℕ → List RetentionPolicyEntry → List String
unfolding itoa forget_command
policy_commands i [] = []
policy_commands i (p ∷ ps) =
    ("echo 'Executing policy " <> (itoa (i + 1) <> "'"))
    ∷ (forget_command p ∷ policy_commands (i + 1) ps)

abbrev pub prune_commands : Bool → List String
prune_commands true = "echo 'Running prune'" ∷ "restic prune" ∷ []
prune_commands false = []

-- `commands` before it is joined.
unfoldable pub script_commands : GlobalRetentionPolicy → List String
unfolding policy_commands
script_commands policy =
    ("set -e" ∷ "echo 'Starting retention policy execution'" ∷ [])
    ++ (policy_commands 0 policy.spec.policies
        ++ (prune_commands policy.spec.prune
            ++ ("echo 'Retention policy execution completed'" ∷ [])))

unfoldable pub build_retention_script : GlobalRetentionPolicy → String
unfolding script_commands
build_retention_script policy = join "\n" (script_commands policy)
