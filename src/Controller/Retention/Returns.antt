-- ===== src/Controller/Retention/Returns.antt =====
-- The reconciler of retention policies comes back to one that is there.
use restic_backup_operator.Base.{String, false, ◌∷◌, ◌≡◌}
use restic_backup_operator.Api.Meta.{NamespacedName, is_deleted}
use restic_backup_operator.Api.Repository.{ResticRepository}
use restic_backup_operator.Api.Retention.{GlobalRetentionPolicy}
use restic_backup_operator.Cluster.{Trace, Env, Reply, accepted, refused, get, policies}
use restic_backup_operator.Cluster.Logic.{Meets-run_handler}
use restic_backup_operator.Cluster.Outcomes.{ComesBack, Anything, Guarantees, outcome_rules}
use restic_backup_operator.Controller.Scheduling.Returns.{after_owner-Guarantees}
use restic_backup_operator.Controller.Retention.Job.{build_retention_cron_job}
use restic_backup_operator.Controller.Retention.{
  Scheduled, referring, reject, reconcile_cron_job, after_cron_job, schedule_policy, get_repository,
  after_repository, ensure_finalizer, reconcile_live, reconcile_handler, reconcile,
}

module _ (e : Env) where
  reject-Guarantees :
      (x : GlobalRetentionPolicy) (reason message : String)
      → Guarantees ComesBack (reject e x reason message)
  unfolding reject
  reject-Guarantees x reason message = search outcome_rules

  reconcile_cron_job-Guarantees :
      (x : GlobalRetentionPolicy) (r : ResticRepository)
      → Guarantees Anything (reconcile_cron_job e x r)
  unfolding reconcile_cron_job
  reconcile_cron_job-Guarantees x r =
      after_owner-Guarantees e referring x (build_retention_cron_job x r) _

  after_cron_job-Guarantees :
      (x : GlobalRetentionPolicy) (scheduled : Scheduled)
      → Guarantees ComesBack (after_cron_job e x scheduled)
  unfolding after_cron_job
  after_cron_job-Guarantees x (refused problem) = reject-Guarantees x _ _
  after_cron_job-Guarantees x (accepted scheduled) = search outcome_rules

  schedule_policy-Guarantees :
      (x : GlobalRetentionPolicy) (r : ResticRepository)
      → Guarantees ComesBack (schedule_policy e x r)
  unfolding schedule_policy
  schedule_policy-Guarantees x r =
      search (outcome_rules, reconcile_cron_job-Guarantees, after_cron_job-Guarantees)

  get_repository-Guarantees : (x : GlobalRetentionPolicy) → Guarantees Anything (get_repository e x)
  unfolding get_repository
  get_repository-Guarantees x = search outcome_rules

  after_repository-Guarantees :
      (x : GlobalRetentionPolicy) (reply : Reply ResticRepository)
      → Guarantees ComesBack (after_repository e x reply)
  unfolding after_repository
  after_repository-Guarantees x (refused problem) = reject-Guarantees x _ _
  after_repository-Guarantees x (accepted r) = search (outcome_rules, schedule_policy-Guarantees)

  ensure_finalizer-Guarantees :
      (x : GlobalRetentionPolicy) → Guarantees Anything (ensure_finalizer e x)
  unfolding ensure_finalizer
  ensure_finalizer-Guarantees x = search outcome_rules

  reconcile_live-Guarantees :
      (x : GlobalRetentionPolicy) → Guarantees ComesBack (reconcile_live e x)
  unfolding reconcile_live
  reconcile_live-Guarantees x = search (
    outcome_rules, ensure_finalizer-Guarantees, get_repository-Guarantees,
    after_repository-Guarantees,
  )

  pub policy_returns :
      (name : NamespacedName) (t : Trace) (x : GlobalRetentionPolicy)
      → e.get_policy t name ≡ accepted x
      → is_deleted x.meta ≡ false
      → ComesBack (reconcile e name t).0
  unfolding reconcile reconcile_handler
  policy_returns name t x found live =
      Meets-run_handler {R = λ o u. ComesBack o} (reconcile_handler e name) t
        (rw (found, live) ((reconcile_live-Guarantees x).at (get policies name ∷ t)))
