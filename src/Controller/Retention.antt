-- ===== src/Controller/Retention.antt =====
-- internal/controller/globalretentionpolicy_controller.go: the reconciler of retention policies.
pub mod Script
pub mod Job
pub mod Laws
pub mod Footprint
pub mod Returns
use restic_backup_operator.Base.{
  ℕ, String, ◌<>◌, Bool, true, false, Option, none, some, List, [], ◌∷◌, if◌then◌else◌,
}
use restic_backup_operator.Conditions.{
  Condition, set_condition, is_condition_true, ready_condition, not_ready_condition,
}
use restic_backup_operator.Api.Meta.{NamespacedName, is_deleted}
use restic_backup_operator.Api.Shared.{ObjectReference}
use restic_backup_operator.Api.Repository.{ResticRepository}
use restic_backup_operator.Api.Retention.{GlobalRetentionPolicy}
use restic_backup_operator.Cluster.{
  wrapped, Trace, Env, Handler, Outcome, finished, requeue_after, Reply, accepted, refused, normal,
  warning, get, policies, repositories, update_policy, update_policy_status, ◌>>=◌, ◌>>◌, pure,
  call, ask, event, or_fail, or_ignore, run_handler, error_requeue_interval,
}
use restic_backup_operator.Controller.Restore.{resolve}
use restic_backup_operator.Controller.Scheduling.{after_owner}
use restic_backup_operator.Controller.Retention.Job.{build_retention_cron_job}

abbrev pub retention_finalizer : String
retention_finalizer = "backup.resticbackup.io/globalretentionpolicy-finalizer"

abbrev pub set_policy_condition : ℕ → GlobalRetentionPolicy → Condition → GlobalRetentionPolicy
set_policy_condition now p c = record p {
  status = record p.status { conditions = set_condition now p.status.conditions c };
}

-- `policy.Status.CronJobRef = …`
abbrev pub referring : GlobalRetentionPolicy → ObjectReference → GlobalRetentionPolicy
referring p ref = record p { status = record p.status { cron_job_ref = some ref } }

-- What `reconcileCronJob` leaves: the backup with its reference, or an error.
abbrev pub Scheduled : Type 0
Scheduled = Reply GlobalRetentionPolicy

module _ (e : Env) where
  abbrev pub save_status : GlobalRetentionPolicy → Handler GlobalRetentionPolicy
  save_status p = do
    reply ← call (update_policy_status p) (λ t. e.put_policy_status t p)
    or_fail reply

  abbrev pub save : GlobalRetentionPolicy → Handler GlobalRetentionPolicy
  save p = do reply ← call (update_policy p) (λ t. e.put_policy t p); or_fail reply

  unfoldable pub handle_deletion : GlobalRetentionPolicy → Handler Outcome
  handle_deletion p =
      if e.contains_finalizer p.meta.finalizers retention_finalizer
      then save (record p {
        meta = record p.meta {
          finalizers = e.remove_finalizer p.meta.finalizers retention_finalizer;
        };
      })
        >>= (λ _. pure finished)
      else pure finished

  unfoldable pub ensure_finalizer : GlobalRetentionPolicy → Handler GlobalRetentionPolicy
  ensure_finalizer p =
      if e.contains_finalizer p.meta.finalizers retention_finalizer
      then pure p
      else save (record p {
        meta = record p.meta { finalizers = e.add_finalizer p.meta.finalizers retention_finalizer };
      })

  -- A status that is not ready, and a run again after the interval for errors (30 seconds).
  abbrev pub save_not_ready : GlobalRetentionPolicy → String → String → Handler Outcome
  save_not_ready p reason message = do
    now ← ask e.now
    save_status (set_policy_condition now p (not_ready_condition now reason message))
    pure (requeue_after error_requeue_interval)

  unfoldable pub reject : GlobalRetentionPolicy → String → String → Handler Outcome
  reject p reason message = do
    now ← ask e.now
    event warning reason message
    save_status (set_policy_condition now p (not_ready_condition now reason message))
    pure (requeue_after error_requeue_interval)

  unfoldable pub reconcile_cron_job : GlobalRetentionPolicy → ResticRepository → Handler Scheduled
  unfolding after_owner build_retention_cron_job
  reconcile_cron_job p repository =
      let job = build_retention_cron_job p repository in
      after_owner e referring p job (e.controller_reference p.meta job.meta)

  unfoldable pub calculate_next_run : GlobalRetentionPolicy → ℕ → Option ℕ
  calculate_next_run p now = e.next_time p.spec.schedule now

  -- A schedule that cannot be parsed leaves the old time.
  unfoldable pub with_next_run : GlobalRetentionPolicy → Option ℕ → GlobalRetentionPolicy
  with_next_run p none = p
  with_next_run p (some next) = record p { status = record p.status { next_run = some next } }

  unfoldable pub configured_policy : GlobalRetentionPolicy → ℕ → GlobalRetentionPolicy
  unfolding with_next_run calculate_next_run
  configured_policy p now =
      let marked = set_policy_condition now (with_next_run p (calculate_next_run p now)) (
        ready_condition now "RetentionPolicyConfigured" "Retention policy CronJob is configured") in
      record marked {
        status = record marked.status { observed_generation = marked.meta.generation };
      }

  abbrev pub report_success : Handler Outcome
  report_success = do
    event normal "ReconcileSuccess" "Retention policy reconciled successfully"
    pure (requeue_after 300_000_000_000)

  unfoldable pub after_cron_job : GlobalRetentionPolicy → Scheduled → Handler Outcome
  unfolding reject configured_policy
  after_cron_job p (refused problem) = reject p "CronJobFailed" problem.message
  after_cron_job p (accepted scheduled) = do
    now ← ask e.now
    save_status (configured_policy scheduled now)
    report_success

  unfoldable pub schedule_policy : GlobalRetentionPolicy → ResticRepository → Handler Outcome
  unfolding reconcile_cron_job after_cron_job
  schedule_policy p repository = do
    scheduled ← reconcile_cron_job p repository
    after_cron_job p scheduled

  unfoldable pub get_repository : GlobalRetentionPolicy → Handler (Reply ResticRepository)
  get_repository p =
      let name = resolve p.spec.repository_ref p.meta.namespace in
      do
        reply ← call (get repositories name) (λ t. e.get_repository t name)
        pure (wrapped "failed to get repository: " reply)

  unfoldable pub after_repository : GlobalRetentionPolicy → Reply ResticRepository → Handler Outcome
  unfolding reject schedule_policy
  after_repository p (refused problem) = reject p "RepositoryNotFound" problem.message
  after_repository p (accepted repository) =
      if is_condition_true repository.status.conditions "Ready"
      then schedule_policy p repository
      else save_not_ready p "RepositoryNotReady" "Referenced repository is not ready"

  unfoldable pub reconcile_live : GlobalRetentionPolicy → Handler Outcome
  unfolding ensure_finalizer get_repository after_repository
  reconcile_live p = do
    held ← ensure_finalizer p
    reply ← get_repository held
    after_repository held reply

  unfoldable pub reconcile_handler : NamespacedName → Handler Outcome
  unfolding reconcile_live handle_deletion
  reconcile_handler name = do
    reply ← call (get policies name) (λ t. e.get_policy t name)
    p ← or_ignore reply
    if is_deleted p.meta then handle_deletion p else reconcile_live p

  unfoldable pub reconcile : NamespacedName → Trace → Outcome × Trace
  unfolding reconcile_handler
  reconcile name = run_handler (reconcile_handler name)
