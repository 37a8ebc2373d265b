-- ===== src/Restic/Executor/Arguments.antt =====
-- internal/restic/executor.go: the arguments that each operation passes to restic.
use restic_backup_operator.Base.{String, List, [], ◌∷◌, join, if◌then◌else◌, non_empty}
use restic_backup_operator.Restic.Types.{BackupOptions, RestoreOptions, ForgetOptions, StatsOptions}
use restic_backup_operator.Restic.Command.{
  CommandBuilder, build, new_command, with_json, with_host, with_tags, with_excludes, with_includes,
  with_target, with_arg, with_args, with_paths, with_mode, with_keep_last, with_keep_hourly,
  with_keep_daily, with_keep_weekly, with_keep_monthly, with_keep_yearly, with_group_by, with_prune,
  with_dry_run,
}

unfoldable pub init_args : List String
unfolding build new_command
init_args = build (new_command "init")

unfoldable pub unlock_args : List String
unfolding build new_command
unlock_args = build (new_command "unlock")

unfoldable pub check_args : List String
unfolding build new_command
check_args = build (new_command "check")

unfoldable pub prune_args : List String
unfolding build new_command
prune_args = build (new_command "prune")

unfoldable pub snapshots_args : List String
unfolding build new_command with_json
snapshots_args = build (with_json (new_command "snapshots"))

unfoldable pub stats_args : StatsOptions → List String
unfolding build new_command with_json with_mode
stats_args opts =
    let cmd = with_json (new_command "stats") in
    build (if non_empty opts.mode then with_mode cmd opts.mode else cmd)

-- The chain of `Backup`, without the arguments and paths at its end.
abbrev pub backup_flags : BackupOptions → CommandBuilder
backup_flags opts =
    with_excludes (with_tags (with_host (with_json (new_command "backup")) opts.hostname) opts.tags)
      opts.excludes

unfoldable pub backup_args : BackupOptions → List String
unfolding build new_command with_json with_host with_tags with_excludes with_args with_paths
backup_args opts = build (with_paths (with_args (backup_flags opts) opts.extra_args) opts.paths)

-- The chain of `Restore`, without the snapshot and the flag at its end.
abbrev pub restore_flags : RestoreOptions → CommandBuilder
restore_flags opts =
    with_excludes (with_includes (with_target (new_command "restore") opts.target) opts.include)
      opts.exclude

unfoldable pub restore_args : RestoreOptions → List String
unfolding build new_command with_target with_includes with_excludes with_arg
restore_args opts =
    let cmd = with_arg (restore_flags opts) opts.snapshot_id in
    build (if opts.verify then with_arg cmd "--verify" else cmd)

-- The chain of `Forget` up to the retention rules.
abbrev pub forget_rules : ForgetOptions → CommandBuilder
forget_rules opts =
    let cmd = with_tags (with_host (with_json (new_command "forget")) opts.hostname) opts.tags in
    let cmd =
      with_keep_daily (with_keep_hourly (with_keep_last cmd opts.keep_last) opts.keep_hourly)
        opts.keep_daily in
    with_keep_yearly (with_keep_monthly (with_keep_weekly cmd opts.keep_weekly) opts.keep_monthly)
      opts.keep_yearly

abbrev pub forget_grouped : ForgetOptions → CommandBuilder
forget_grouped opts = elim (opts.group_by) [
  | [] ↦ forget_rules opts
  | g ∷ gs ↦ with_group_by (forget_rules opts) (join "," (g ∷ gs))
]

unfoldable pub forget_args : ForgetOptions → List String
unfolding build new_command with_json with_host with_tags with_keep_last with_keep_hourly
    with_keep_daily with_keep_weekly with_keep_monthly with_keep_yearly with_group_by with_prune
    with_dry_run
forget_args opts =
    let cmd = forget_grouped opts in
    let cmd = if opts.prune then with_prune cmd else cmd in
    build (if opts.dry_run then with_dry_run cmd else cmd)
