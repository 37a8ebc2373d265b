-- ===== src/Controller/Backup/Footprint.antt =====
-- The calls that the reconciler of backups makes.
use text.Mathlib.Text.{starts_with}
use text.Mathlib.TextPositions.{starts_with-append}
use restic_backup_operator.Base.{String, ◌<>◌, Bool, true, false, ◌≡◌, refl}
use restic_backup_operator.Api.Meta.{NamespacedName}
use restic_backup_operator.Api.Repository.{ResticRepository}
use restic_backup_operator.Api.Backup.{ResticBackup}
use restic_backup_operator.Cluster.{
  Trace, Env, Call, Reply, accepted, refused, get, repositories, backups, cron_jobs, update_backup,
  update_backup_status, create_cron_job, update_cron_job, record_event,
}
use restic_backup_operator.Cluster.Calls.{Within, Extends, Extends-run_handler, within_rules}
use restic_backup_operator.Controller.Scheduling.Footprint.{MayWrite, NamesKept, after_owner-Within}
use restic_backup_operator.Controller.Backup.Job.{build_backup_cron_job}
use restic_backup_operator.Controller.Backup.{
  Scheduled, referring, reject, reconcile_cron_job, after_cron_job, schedule_backup, get_repository,
  after_repository, ensure_finalizer, handle_deletion, reconcile_live, reconcile_handler, reconcile,
}

-- Reads of its own objects, of repositories and of cron jobs, writes of its own objects and of cron
-- jobs whose names start with "resticbackup-", and events.
abbrev pub backup_calls : Call → Bool
backup_calls (get repositories name) = true
backup_calls (get backups name) = true
backup_calls (get cron_jobs name) = true
backup_calls (update_backup x) = true
backup_calls (update_backup_status x) = true
backup_calls (create_cron_job job) = starts_with job.meta.name "resticbackup-"
backup_calls (update_cron_job job) = starts_with job.meta.name "resticbackup-"
backup_calls (record_event type reason message) = true
backup_calls _ = false

prefixed :
    (name own : String) → name ≡ "resticbackup-" <> own → starts_with name "resticbackup-" ≡ true
prefixed name own h = rw h (starts_with-append "resticbackup-" own)

may : (own : String) → MayWrite backup_calls ("resticbackup-" <> own)
may own = record {
  may_get = λ _. refl;
  may_create = λ job h. prefixed job.meta.name own h;
  may_update = λ job h. prefixed job.meta.name own h;
  may_record = λ _ _ _. refl;
}

module _ (e : Env) (kept : NamesKept e) where
  reject-Within :
      (x : ResticBackup) (reason message : String) → Within backup_calls (reject e x reason message)
  unfolding reject
  reject-Within x reason message = search within_rules

  reconcile_cron_job-Within :
      (x : ResticBackup) (r : ResticRepository) → Within backup_calls (reconcile_cron_job e x r)
  unfolding reconcile_cron_job build_backup_cron_job
  reconcile_cron_job-Within x r =
      after_owner-Within e referring backup_calls ("resticbackup-" <> x.meta.name) (may x.meta.name)
        x (build_backup_cron_job x r) _ kept refl

  after_cron_job-Within :
      (x : ResticBackup) (scheduled : Scheduled)
      → Within backup_calls (after_cron_job e x scheduled)
  unfolding after_cron_job
  after_cron_job-Within x (refused problem) = reject-Within x _ _
  after_cron_job-Within x (accepted scheduled) = search within_rules

  schedule_backup-Within :
      (x : ResticBackup) (r : ResticRepository) → Within backup_calls (schedule_backup e x r)
  unfolding schedule_backup
  schedule_backup-Within x r =
      search (within_rules, reconcile_cron_job-Within, after_cron_job-Within)

  get_repository-Within : (x : ResticBackup) → Within backup_calls (get_repository e x)
  unfolding get_repository
  get_repository-Within x = search within_rules

  after_repository-Within :
      (x : ResticBackup) (reply : Reply ResticRepository)
      → Within backup_calls (after_repository e x reply)
  unfolding after_repository
  after_repository-Within x (refused problem) = reject-Within x _ _
  after_repository-Within x (accepted r) = search (within_rules, schedule_backup-Within)

  ensure_finalizer-Within : (x : ResticBackup) → Within backup_calls (ensure_finalizer e x)
  unfolding ensure_finalizer
  ensure_finalizer-Within x = search within_rules

  handle_deletion-Within : (x : ResticBackup) → Within backup_calls (handle_deletion e x)
  unfolding handle_deletion
  handle_deletion-Within x = search within_rules

  reconcile_live-Within : (x : ResticBackup) → Within backup_calls (reconcile_live e x)
  unfolding reconcile_live
  reconcile_live-Within x =
      search (within_rules, ensure_finalizer-Within, get_repository-Within, after_repository-Within)

  reconcile_handler-Within :
      (name : NamespacedName) → Within backup_calls (reconcile_handler e name)
  unfolding reconcile_handler
  reconcile_handler-Within name =
      search (within_rules, handle_deletion-Within, reconcile_live-Within)

  pub backup_footprint :
      (name : NamespacedName) (t : Trace) → Extends backup_calls t (reconcile e name t).1
  unfolding reconcile
  backup_footprint name t = Extends-run_handler _ t (reconcile_handler-Within name)
