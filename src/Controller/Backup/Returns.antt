-- ===== src/Controller/Backup/Returns.antt =====
-- The reconciler of backups comes back to one that is there.
use restic_backup_operator.Base.{String, false, ◌∷◌, ◌≡◌}
use restic_backup_operator.Api.Meta.{NamespacedName, is_deleted}
use restic_backup_operator.Api.Repository.{ResticRepository}
use restic_backup_operator.Api.Backup.{ResticBackup}
use restic_backup_operator.Cluster.{Trace, Env, Reply, accepted, refused, get, backups}
use restic_backup_operator.Cluster.Logic.{Meets-run_handler}
use restic_backup_operator.Cluster.Outcomes.{ComesBack, Anything, Guarantees, outcome_rules}
use restic_backup_operator.Controller.Scheduling.Returns.{after_owner-Guarantees}
use restic_backup_operator.Controller.Backup.Job.{build_backup_cron_job}
use restic_backup_operator.Controller.Backup.{
  Scheduled, referring, reject, reconcile_cron_job, after_cron_job, schedule_backup, get_repository,
  after_repository, ensure_finalizer, reconcile_live, reconcile_handler, reconcile,
}

module _ (e : Env) where
  reject-Guarantees :
      (x : ResticBackup) (reason message : String)
      → Guarantees ComesBack (reject e x reason message)
  unfolding reject
  reject-Guarantees x reason message = search outcome_rules

  reconcile_cron_job-Guarantees :
      (x : ResticBackup) (r : ResticRepository) → Guarantees Anything (reconcile_cron_job e x r)
  unfolding reconcile_cron_job
  reconcile_cron_job-Guarantees x r =
      after_owner-Guarantees e referring x (build_backup_cron_job x r) _

  after_cron_job-Guarantees :
      (x : ResticBackup) (scheduled : Scheduled)
      → Guarantees ComesBack (after_cron_job e x scheduled)
  unfolding after_cron_job
  after_cron_job-Guarantees x (refused problem) = reject-Guarantees x _ _
  after_cron_job-Guarantees x (accepted scheduled) = search outcome_rules

  schedule_backup-Guarantees :
      (x : ResticBackup) (r : ResticRepository) → Guarantees ComesBack (schedule_backup e x r)
  unfolding schedule_backup
  schedule_backup-Guarantees x r =
      search (outcome_rules, reconcile_cron_job-Guarantees, after_cron_job-Guarantees)

  get_repository-Guarantees : (x : ResticBackup) → Guarantees Anything (get_repository e x)
  unfolding get_repository
  get_repository-Guarantees x = search outcome_rules

  after_repository-Guarantees :
      (x : ResticBackup) (reply : Reply ResticRepository)
      → Guarantees ComesBack (after_repository e x reply)
  unfolding after_repository
  after_repository-Guarantees x (refused problem) = reject-Guarantees x _ _
  after_repository-Guarantees x (accepted r) = search (outcome_rules, schedule_backup-Guarantees)

  ensure_finalizer-Guarantees : (x : ResticBackup) → Guarantees Anything (ensure_finalizer e x)
  unfolding ensure_finalizer
  ensure_finalizer-Guarantees x = search outcome_rules

  reconcile_live-Guarantees : (x : ResticBackup) → Guarantees ComesBack (reconcile_live e x)
  unfolding reconcile_live
  reconcile_live-Guarantees x = search (
    outcome_rules, ensure_finalizer-Guarantees, get_repository-Guarantees,
    after_repository-Guarantees,
  )

  pub backup_returns :
      (name : NamespacedName) (t : Trace) (x : ResticBackup)
      → e.get_backup t name ≡ accepted x
      → is_deleted x.meta ≡ false
      → ComesBack (reconcile e name t).0
  unfolding reconcile reconcile_handler
  backup_returns name t x found live =
      Meets-run_handler {R = λ o u. ComesBack o} (reconcile_handler e name) t
        (rw (found, live) ((reconcile_live-Guarantees x).at (get backups name ∷ t)))
