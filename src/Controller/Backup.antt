-- ===== src/Controller/Backup.antt =====
-- internal/controller/resticbackup_controller.go: the reconciler of backups.
pub mod Job
pub mod Laws
pub mod Creation
pub mod Footprint
pub mod Steady
pub mod Returns
use restic_backup_operator.Base.{
  ℕ, String, ◌<>◌, Bool, true, false, Option, none, some, List, [], ◌∷◌, if◌then◌else◌,
}
use restic_backup_operator.Conditions.{
  Condition, set_condition, is_condition_true, ready_condition, not_ready_condition, new_condition,
  condition_true,
}
use restic_backup_operator.Api.Meta.{NamespacedName, is_deleted}
use restic_backup_operator.Api.Shared.{ObjectReference, condition_repository_ready}
use restic_backup_operator.Api.Repository.{ResticRepository}
use restic_backup_operator.Api.Backup.{ResticBackup}
use restic_backup_operator.Api.Workload.{CronJob}
use restic_backup_operator.Cluster.{
  Trace, Env, Handler, Exit, go, Outcome, failed, finished, requeue_after, Reply, accepted, refused,
  ApiError, normal, warning, get, backups, repositories, cron_jobs, update_backup,
  update_backup_status, create_cron_job, update_cron_job, ◌>>=◌, ◌>>◌, pure, stop_with, call, ask,
  event, or_fail, or_ignore, run_handler, continue, wrap, wrapped, error_requeue_interval,
}
use restic_backup_operator.Controller.Restore.{resolve}
use restic_backup_operator.Controller.Scheduling.{after_owner}
use restic_backup_operator.Controller.Backup.Job.{build_backup_cron_job}

abbrev pub backup_finalizer : String
backup_finalizer = "backup.resticbackup.io/resticbackup-finalizer"

abbrev pub set_backup_condition : ℕ → ResticBackup → Condition → ResticBackup
set_backup_condition now b c = record b {
  status = record b.status { conditions = set_condition now b.status.conditions c };
}

-- `backup.Status.CronJobRef = …`
abbrev pub referring : ResticBackup → ObjectReference → ResticBackup
referring b ref = record b { status = record b.status { cron_job_ref = some ref } }

-- What `reconcileCronJob` leaves: the backup with its reference, or an error.
abbrev pub Scheduled : Type 0
Scheduled = Reply ResticBackup

module _ (e : Env) where
  abbrev pub save_status : ResticBackup → Handler ResticBackup
  save_status b = do
    reply ← call (update_backup_status b) (λ t. e.put_backup_status t b)
    or_fail reply

  abbrev pub save : ResticBackup → Handler ResticBackup
  save b = do reply ← call (update_backup b) (λ t. e.put_backup t b); or_fail reply

  unfoldable pub handle_deletion : ResticBackup → Handler Outcome
  handle_deletion b =
      if e.contains_finalizer b.meta.finalizers backup_finalizer
      then save (record b {
        meta = record b.meta { finalizers = e.remove_finalizer b.meta.finalizers backup_finalizer };
      })
        >>= (λ _. pure finished)
      else pure finished

  unfoldable pub ensure_finalizer : ResticBackup → Handler ResticBackup
  ensure_finalizer b =
      if e.contains_finalizer b.meta.finalizers backup_finalizer
      then pure b
      else save (record b {
        meta = record b.meta { finalizers = e.add_finalizer b.meta.finalizers backup_finalizer };
      })

  -- A status that is not ready, and a run again after the interval for errors (30 seconds).
  abbrev pub save_not_ready : ResticBackup → String → String → Handler Outcome
  save_not_ready b reason message = do
    now ← ask e.now
    save_status (set_backup_condition now b (not_ready_condition now reason message))
    pure (requeue_after error_requeue_interval)

  unfoldable pub reject : ResticBackup → String → String → Handler Outcome
  reject b reason message = do
    now ← ask e.now
    event warning reason message
    save_status (set_backup_condition now b (not_ready_condition now reason message))
    pure (requeue_after error_requeue_interval)

  unfoldable pub reconcile_cron_job : ResticBackup → ResticRepository → Handler Scheduled
  unfolding after_owner build_backup_cron_job
  reconcile_cron_job b repository =
      let job = build_backup_cron_job b repository in
      after_owner e referring b job (e.controller_reference b.meta job.meta)

  unfoldable pub calculate_next_backup : ResticBackup → ℕ → Option ℕ
  calculate_next_backup b now = e.next_time b.spec.schedule now

  -- A schedule that cannot be parsed leaves the old time.
  unfoldable pub with_next_backup : ResticBackup → Option ℕ → ResticBackup
  with_next_backup b none = b
  with_next_backup b (some next) = record b { status = record b.status { next_backup = some next } }

  unfoldable pub configured_backup : ResticBackup → ℕ → ResticBackup
  unfolding with_next_backup calculate_next_backup
  configured_backup b now =
      let marked =
        set_backup_condition now (with_next_backup b (calculate_next_backup b now))
          (ready_condition now "BackupConfigured" "Backup CronJob is configured and running") in
      record marked {
        status = record marked.status { observed_generation = marked.meta.generation };
      }

  abbrev pub report_success : Handler Outcome
  report_success = do
    event normal "ReconcileSuccess" "Backup reconciled successfully"
    pure (requeue_after 300_000_000_000)

  unfoldable pub after_cron_job : ResticBackup → Scheduled → Handler Outcome
  unfolding reject configured_backup
  after_cron_job b (refused problem) = reject b "CronJobFailed" problem.message
  after_cron_job b (accepted scheduled) = do
    now ← ask e.now
    save_status (configured_backup scheduled now)
    report_success

  -- The backup with the condition that its repository is ready.
  abbrev pub repository_ready : ℕ → ResticBackup → ResticBackup
  repository_ready now b = set_backup_condition now b (record {
    type = condition_repository_ready;
    status = condition_true;
    last_transition_time = 0;
    reason = "RepositoryAccessible";
    message = "Referenced repository is ready";
  })

  unfoldable pub schedule_backup : ResticBackup → ResticRepository → Handler Outcome
  unfolding reconcile_cron_job after_cron_job
  schedule_backup b repository = do
    now ← ask e.now
    scheduled ← reconcile_cron_job (repository_ready now b) repository
    after_cron_job (repository_ready now b) scheduled

  unfoldable pub get_repository : ResticBackup → Handler (Reply ResticRepository)
  get_repository b =
      let name = resolve b.spec.repository_ref b.meta.namespace in
      do
        reply ← call (get repositories name) (λ t. e.get_repository t name)
        pure (wrapped "failed to get repository: " reply)

  unfoldable pub after_repository : ResticBackup → Reply ResticRepository → Handler Outcome
  unfolding reject schedule_backup
  after_repository b (refused problem) = reject b "RepositoryNotFound" problem.message
  after_repository b (accepted repository) =
      if is_condition_true repository.status.conditions "Ready"
      then schedule_backup b repository
      else save_not_ready b "RepositoryNotReady" "Referenced repository is not ready"

  unfoldable pub reconcile_live : ResticBackup → Handler Outcome
  unfolding ensure_finalizer get_repository after_repository
  reconcile_live b = do
    held ← ensure_finalizer b
    reply ← get_repository held
    after_repository held reply

  unfoldable pub reconcile_handler : NamespacedName → Handler Outcome
  unfolding reconcile_live handle_deletion
  reconcile_handler name = do
    reply ← call (get backups name) (λ t. e.get_backup t name)
    b ← or_ignore reply
    if is_deleted b.meta then handle_deletion b else reconcile_live b

  unfoldable pub reconcile : NamespacedName → Trace → Outcome × Trace
  unfolding reconcile_handler
  reconcile name = run_handler (reconcile_handler name)
