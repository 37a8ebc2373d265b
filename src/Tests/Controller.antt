-- ===== src/Tests/Controller.antt =====
-- The laws of internal/controller at the services of Services, for the objects of Samples.
use restic_backup_operator.Cluster.{
  Env, run_handler, requeue_after, record_event, normal, update_backup_status, create_cron_job,
}
use restic_backup_operator.Base.{
  split_lines, one_line, false, true, none, List, ℕ, ◌+◌, ◌*◌, ◌/◌, ◌^◌, ◌<◌, ◌≤◌, String, ◌<>◌,
  some, [], ◌∷◌, ◌≡◌, refl, arith, pos,
}
use restic_backup_operator.Restic.Command.{
  build, new_command, with_args, with_excludes, with_host, with_paths, with_tags, with_includes,
  with_arg, with_target,
}
use restic_backup_operator.Controller.Bytes.{format_bytes, letter, format_bytes_large}
use restic_backup_operator.Controller.Repository
use restic_backup_operator.Controller.Repository.Laws
use restic_backup_operator.Controller.Restore
use restic_backup_operator.Controller.Restore.Phases
use restic_backup_operator.Controller.Restore.Phases.Laws.{reconcile-KeepsPhases}
use restic_backup_operator.Controller.Scheduling.Laws.{AllJustified}
use restic_backup_operator.Controller.Backup
use restic_backup_operator.Controller.Backup.Laws.{BackupBuilt, reconcile-AllScheduled}
use restic_backup_operator.Controller.Backup.Job.{
  build_backup_command, excludes_of, extra_args_of, paths_of,
}
use restic_backup_operator.Controller.Retention
use restic_backup_operator.Controller.Retention.Laws.{PolicyBuilt, reconcile-AllApplied}
use restic_backup_operator.Controller.Retention.Script.{forget_command, build_retention_script}
use restic_backup_operator.Controller.Retention.Script.Lines
use restic_backup_operator.Controller.Retention.Script.Laws.{
  spaced, forget_builder, forget_command-build,
}
use restic_backup_operator.Controller.Restore.Job.{restore_command}
use restic_backup_operator.Controller.Restore.{snapshot_id_of}
use restic_backup_operator.Controller.Commands.{
  build_backup_command-build, restore_command-build, verified,
}
use restic_backup_operator.Controller.Repository.Outcomes
use restic_backup_operator.Controller.Backup.Creation
use restic_backup_operator.Conditions.{is_condition_true}
use restic_backup_operator.Api.Backup.{ResticBackup}
use restic_backup_operator.Tests.Samples.{key, repository, backup, restore, entry, policy}
use restic_backup_operator.Tests.Services.{services, absent}

reconcile-AllJustified_example :
    Repository.Laws.AllJustified services
      (pos 0)
      (Repository.reconcile services (pos 0) (key "vault") []).1
reconcile-AllJustified_example =
    Repository.Laws.reconcile-AllJustified services (pos 0) (key "vault") [] tt

reconcile-KeepsPhases_example :
    Phases.AllJustified services (Restore.reconcile services (key "photos-back") []).1
reconcile-KeepsPhases_example = reconcile-KeepsPhases services (key "photos-back") [] tt

reconcile-AllScheduled_example :
    AllJustified services (BackupBuilt services) (Backup.reconcile services (key "photos") []).1
reconcile-AllScheduled_example = reconcile-AllScheduled services (key "photos") [] tt

reconcile-AllApplied_example :
    AllJustified services
      (PolicyBuilt services)
      (Retention.reconcile services (key "keep-a-week") []).1
reconcile-AllApplied_example = reconcile-AllApplied services (key "keep-a-week") [] tt

forget_command-build_example :
    forget_command entry ≡ "restic" <> spaced (build (forget_builder entry))
forget_command-build_example = forget_command-build entry (refl, tt)

forget_command_test :
    forget_command entry ≡ "restic forget --tag daily --host nas --keep-last 3 --keep-daily 7"
unfolding forget_command
forget_command_test = refl

split_lines-build_retention_script_example :
    let lines = split_lines (build_retention_script policy) in
    (Lines.restic_lines lines
      ≡ ("restic" <> spaced (build (forget_builder entry))) ∷ ("restic prune" ∷ []))
    × ((rest : List String) × (lines ≡ "set -e" ∷ rest))
split_lines-build_retention_script_example =
    Lines.split_lines-build_retention_script policy
      (
        (
          record { unbroken = unfold one_line in refl },
          (record { unbroken = unfold one_line in refl }, tt),
        ),
        tt,
      )
      ((refl, tt), tt)

build_backup_command-build_example :
    build_backup_command backup "nas" ("daily" ∷ [])
    ≡ "restic"
      ∷ build (
          with_paths
            (with_args
              (with_excludes
                (with_tags (with_host (new_command "backup") "nas") ("daily" ∷ []))
                (excludes_of backup.spec.source.pvc))
              (extra_args_of backup.spec.restic))
            (paths_of backup.spec.source.pvc))
unfolding excludes_of
build_backup_command-build_example =
    build_backup_command-build backup "nas" ("daily" ∷ []) refl (refl, tt) (refl, (refl, tt))

restore_command-build_example :
    let snapshot : String =
      snapshot_id_of restore.spec.snapshot_id restore.spec.snapshot_selector in
    restore_command restore snapshot
    ≡ "restic"
      ∷ build (
          verified
            (with_excludes
              (with_includes
                (with_target (with_arg (new_command "restore") snapshot) "/restore")
                restore.spec.include_paths)
              restore.spec.exclude_paths)
            restore.spec.options)
restore_command-build_example = restore_command-build restore (refl, tt) (refl, tt)

abbrev exact : ℕ → ℕ → ℕ → ℕ
exact f unit scale = f * unit / scale

format_bytes_large_example :
    (exp : ℕ) × (c : String) × (letter exp ≡ some c)
    × (format_bytes (λ _ _. "5.0") 5_368_709_120 ≡ some ("5.0" <> (" " <> (c <> "iB"))))
    × (1024 ^ (exp + 1) ≤ 5_368_709_120)
    × (5_368_709_120 < 1024 * 1024 ^ (exp + 1))
format_bytes_large_example =
    format_bytes_large (λ _ _. "5.0") 5_368_709_120 (omega arith) (omega arith)

-- A restic whose check fails without a lock, and whose repository exists.
abbrev failing : Env
failing = record services {
  check = λ _ _. (record { success = false; message = ""; duration = 1 }, some "wrong password");
}

reconcile-Tells_example :
    Outcomes.Tells failing
      (Repository.reconcile failing (pos 0) (key "vault") []).0
      (Repository.reconcile failing (pos 0) (key "vault") []).1
reconcile-Tells_example = Outcomes.reconcile-Tells failing (pos 0) (key "vault") []

schedule_backup-creates_example :
    let owners : List (String × String) = ("owner", "photos") ∷ [] in
    let job = Creation.sent services backup repository [] owners in
    (s : ResticBackup) × (is_condition_true s.status.conditions "Ready" ≡ true)
    × (s.status.cron_job_ref ≡ none)
    × (run_handler (Backup.schedule_backup services backup repository) [] ≡ (
      requeue_after 300_000_000_000,
      record_event normal "ReconcileSuccess" "Backup reconciled successfully"
          ∷ (update_backup_status s
              ∷ (record_event normal "CronJobCreated" ("Created CronJob " <> job.meta.name)
                  ∷ (create_cron_job job ∷ Creation.looked_up services backup repository []))),
    ))
schedule_backup-creates_example =
    Creation.schedule_backup-creates services backup repository [] (("owner", "photos") ∷ []) _
      absent refl refl refl refl (λ _ s. (s, refl))
