-- ===== src/Tests/Restic.antt =====
-- The laws of internal/restic at concrete options and at a restic whose commands succeed.
use restic_backup_operator.Base.{String, ◌<>◌, true, false, some, [], ◌∷◌, ◌++◌, ◌≡◌, ◌↔◌, refl}
use restic_backup_operator.Restic.Types.{StatsOptions}
use restic_backup_operator.Restic.Command.Words.{plain, words, takes_value}
use restic_backup_operator.Restic.Executor.{ok, err, run, stats, backup, forget}
use restic_backup_operator.Restic.Executor.Arguments.{backup_args, restore_args, forget_args}
use restic_backup_operator.Restic.Executor.Laws.Arguments.{
  backup_words, forget_rule_words, group_words, switch_word, restore_words, words-backup_args,
  words-forget_args, words-restore_args,
}
use restic_backup_operator.Restic.Executor.Laws.Results.{backup-eq-err_iff}
use restic_backup_operator.Tests.Samples.{
  credentials, backup_options, restore_options, forget_options,
}
use restic_backup_operator.Tests.Services.{system}

words-backup_args_example :
    words (backup_args backup_options)
    ≡ backup_words backup_options ++ words ("--one-file-system" ∷ "/data" ∷ [])
words-backup_args_example = words-backup_args backup_options

words-forget_args_example :
    words (forget_args forget_options)
    ≡ ((forget_rule_words forget_options ++ group_words ("host" ∷ "paths" ∷ []))
        ++ switch_word true "--prune")
      ++ switch_word false "--dry-run"
words-forget_args_example = words-forget_args forget_options

words-restore_args_example :
    words (restore_args restore_options)
    ≡ (restore_words restore_options ++ (plain "latest" ∷ [])) ++ switch_word true "--verify"
unfolding takes_value
words-restore_args_example = words-restore_args restore_options refl

abbrev raw_data : StatsOptions
raw_data = record { mode = "raw-data" }

stats_run :
    (stats system "restic" credentials raw_data 7).0
    ≡ ok (record { total_size = 4096; total_file_count = 12; snapshot_count = 0 })
unfolding stats
stats_run = refl

backup-eq-err_iff_example :
    let (ran, _) = run system "restic" credentials (backup_args backup_options) 7 in
    ((backup system "restic" credentials backup_options 7).0 ≡ err "backup failed: exit status 1")
    ↔ ((cause : String) × (ran.error ≡ some cause)
        × ("backup failed: exit status 1" ≡ "backup failed: " <> cause))
backup-eq-err_iff_example =
    backup-eq-err_iff system "restic" credentials 7 backup_options "backup failed: exit status 1"

forget_run :
    (forget system "restic" credentials forget_options 7).0
    ≡ ok (record { snapshots_removed = 1; snapshots_kept = 2 })
unfolding forget
forget_run = refl
