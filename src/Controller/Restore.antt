-- ===== src/Controller/Restore.antt =====
-- internal/controller/resticrestore_controller.go: the reconciler of restores.
pub mod Job
pub mod Phases
pub mod Lifecycle
pub mod Completion
pub mod Start
pub mod Footprint
pub mod Returns
use restic_backup_operator.Base.{
  ℕ, String, ◌<>◌, Bool, true, false, Option, none, some, List, [], ◌∷◌, ◌==◌, ℤ, is_positive,
  if◌then◌else◌,
}
use restic_backup_operator.Conditions.{
  Condition, set_condition, ready_condition, not_ready_condition, new_condition, condition_unknown,
}
use restic_backup_operator.Api.Meta.{NamespacedName, is_deleted}
use restic_backup_operator.Api.Shared.{ObjectReference, CrossNamespaceObjectReference}
use restic_backup_operator.Api.Repository.{ResticRepository}
use restic_backup_operator.Api.Backup.{ResticBackup}
use restic_backup_operator.Api.Restore.{
  ResticRestore, RestorePhase, SnapshotSelector, unset, pending, in_progress, completed, failed,
  other,
}
use restic_backup_operator.Api.Workload
use restic_backup_operator.Cluster
use restic_backup_operator.Cluster.{
  Trace, Env, Handler, Exit, go, Outcome, finished, requeue_after, Reply, accepted, refused,
  ApiError, EventType, normal, warning, get, restores, backups, repositories, jobs, update_restore,
  update_restore_status, create_job, ◌>>=◌, ◌>>◌, pure, stop_with, call, ask, event, or_fail,
  or_ignore, run_handler, continue, wrap, second,
}
use restic_backup_operator.Controller.Restore.Job.{build_restore_job}

abbrev pub restore_finalizer : String
restore_finalizer = "backup.resticbackup.io/resticrestore-finalizer"

-- The name behind a reference, in the namespace of the referring object if it gives none.
abbrev pub resolve : CrossNamespaceObjectReference → String → NamespacedName
resolve ref own = record {
  name = ref.name;
  namespace = if ref.namespace == "" then own else ref.namespace;
}

abbrev pub set_restore_condition : ℕ → ResticRestore → Condition → ResticRestore
set_restore_condition now r c = record r {
  status = record r.status { conditions = set_condition now r.status.conditions c };
}

abbrev pub set_phase : ResticRestore → RestorePhase → ResticRestore
set_phase r p = record r { status = record r.status { phase = p } }

-- The snapshot to restore. A selector leads to "latest", as its absence does.
unfoldable pub snapshot_id_of : String → Option SnapshotSelector → String
snapshot_id_of id selector =
    let selected : String = elim selector [
      | none ↦ id
      | some _ ↦ if id == "" then "latest" else id
    ] in
    if selected == "" then "latest" else selected

module _ (e : Env) where
  abbrev pub save_status : ResticRestore → Handler ResticRestore
  save_status r = do
    reply ← call (update_restore_status r) (λ t. e.put_restore_status t r)
    or_fail reply

  abbrev pub save : ResticRestore → Handler ResticRestore
  save r = do reply ← call (update_restore r) (λ t. e.put_restore t r); or_fail reply

  -- The write of a status with which the run is over.
  abbrev pub finish_with : ResticRestore → Handler Outcome
  finish_with r = save_status r >>= λ _. pure finished

  unfoldable pub handle_deletion : ResticRestore → Handler Outcome
  handle_deletion r =
      if e.contains_finalizer r.meta.finalizers restore_finalizer
      then save (record r {
        meta = record r.meta {
          finalizers = e.remove_finalizer r.meta.finalizers restore_finalizer;
        };
      })
        >>= (λ _. pure finished)
      else pure finished

  -- The three failures of `handlePending`; only the first is recorded as an event.
  unfoldable pub fail_pending : ResticRestore → String → String → Handler Outcome
  fail_pending r reason message = do
    now ← ask e.now
    finish_with
        (set_phase (set_restore_condition now r (not_ready_condition now reason message)) failed)

  unfoldable pub fail_missing_backup : ResticRestore → String → Handler Outcome
  fail_missing_backup r message = do
    now ← ask e.now
    let c = set_restore_condition now r (not_ready_condition now "BackupNotFound" message)
    event warning "BackupNotFound" message
    finish_with (set_phase c failed)

  abbrev pub report_started : Workload.Job → Handler Outcome
  report_started job = do
    event normal "RestoreStarted" ("Restore job " <> (job.meta.name <> " created"))
    pure (requeue_after 10_000_000_000)

  -- The end of `handlePending`, where the job is there, created now or before.
  unfoldable pub start_restore : ResticRestore → Workload.Job → String → Handler Outcome
  start_restore r job snapshot = do
    now ← ask e.now
    let started = record r {
      status = record r.status {
        phase = in_progress;
        start_time = some now;
        restored_snapshot = snapshot;
        job_ref = some (record { name = job.meta.name; namespace = job.meta.namespace });
      };
    }
    save_status (
        set_restore_condition now started (
          new_condition now "Ready" condition_unknown "RestoreInProgress" "Restore job is running"))
    report_started job

  unfoldable pub after_create :
      ResticRestore → Workload.Job → String → Reply Workload.Job → Handler Outcome
  unfolding fail_pending start_restore
  after_create r job snapshot (accepted created) = start_restore r created snapshot
  after_create r job snapshot (refused problem) =
      if problem.already_exists
      then start_restore r job snapshot
      else fail_pending r "JobCreationFailed" problem.message

  unfoldable pub after_owner :
      ResticRestore → Workload.Job → String → Reply (List (String × String)) → Handler Outcome
  unfolding after_create
  after_owner r job snapshot (refused problem) =
      stop_with (Cluster.failed ("failed to set owner reference: " <> problem.message))
  after_owner r job snapshot (accepted owners) =
      let owned = record job { meta = record job.meta { owner_references = owners } } in
      do
        reply ← call (create_job owned) (λ t. e.post_job t owned)
        after_create r owned snapshot reply

  unfoldable pub after_repository :
      ResticRestore → ResticBackup → Reply ResticRepository → Handler Outcome
  unfolding after_owner fail_pending snapshot_id_of build_restore_job
  after_repository r backup (refused problem) =
      fail_pending r "RepositoryNotFound" ("failed to get repository: " <> problem.message)
  after_repository r backup (accepted repository) =
      let snapshot = snapshot_id_of r.spec.snapshot_id r.spec.snapshot_selector in
      let job = build_restore_job r backup repository snapshot in
      after_owner r job snapshot (e.controller_reference r.meta job.meta)

  unfoldable pub after_backup : ResticRestore → Reply ResticBackup → Handler Outcome
  unfolding after_repository fail_missing_backup
  after_backup r (refused problem) =
      fail_missing_backup r ("failed to get backup: " <> problem.message)
  after_backup r (accepted backup) =
      let name = resolve backup.spec.repository_ref backup.meta.namespace in
      do
        reply ← call (get repositories name) (λ t. e.get_repository t name)
        after_repository r backup reply

  unfoldable pub handle_pending : ResticRestore → Handler Outcome
  unfolding after_backup
  handle_pending r =
      let name = resolve r.spec.backup_ref r.meta.namespace in
      do reply ← call (get backups name) (λ t. e.get_backup t name); after_backup r reply

  unfoldable pub job_missing : ResticRestore → String → Handler Outcome
  job_missing r message = do
    now ← ask e.now
    finish_with (
        set_restore_condition now (set_phase r failed)
          (not_ready_condition now "JobNotFound" message))

  -- The two ends of a job: the phase, the completion time, the condition and the event.
  unfoldable pub job_ended :
      ResticRestore → RestorePhase → EventType → String → String → (ℕ → Condition) → Handler Outcome
  job_ended r phase type reason message condition = do
    now ← ask e.now
    let ended = record r { status = record r.status { phase = phase; completion_time = some now } }
    event type reason message
    finish_with (set_restore_condition now ended (condition now))

  unfoldable pub after_job : ResticRestore → Reply Workload.Job → Handler Outcome
  unfolding job_missing job_ended
  after_job r (refused problem) =
      if problem.not_found
      then job_missing r "Restore job was not found"
      else stop_with (Cluster.failed problem.message)
  after_job r (accepted job) =
      if is_positive job.succeeded
      then job_ended r completed normal "RestoreCompleted" "Restore completed successfully"
          (λ now. ready_condition now "RestoreCompleted" "Restore completed successfully")
      else if is_positive job.failed
      then job_ended r failed warning "RestoreFailed" "Restore job failed"
          (λ now. not_ready_condition now "RestoreFailed" "Restore job failed")
      else pure (requeue_after 10_000_000_000)

  unfoldable pub in_progress_with : ResticRestore → Option ObjectReference → Handler Outcome
  unfolding after_job job_missing
  in_progress_with r none = job_missing r "No job reference in status"
  in_progress_with r (some ref) =
      let name : NamespacedName = record { name = ref.name; namespace = ref.namespace } in
      do reply ← call (get jobs name) (λ t. e.get_job t name); after_job r reply

  unfoldable pub handle_in_progress : ResticRestore → Handler Outcome
  unfolding in_progress_with
  handle_in_progress r = in_progress_with r r.status.job_ref

  -- The `switch` on the phase.
  unfoldable pub dispatch : ResticRestore → RestorePhase → Handler Outcome
  unfolding handle_pending handle_in_progress
  dispatch r pending = handle_pending r
  dispatch r in_progress = handle_in_progress r
  dispatch r _ = pure finished

  unfoldable pub initialize_phase : ResticRestore → RestorePhase → Handler ResticRestore
  initialize_phase r unset = save_status (set_phase r pending)
  initialize_phase r _ = pure r

  unfoldable pub ensure_finalizer : ResticRestore → Handler ResticRestore
  ensure_finalizer r =
      if e.contains_finalizer r.meta.finalizers restore_finalizer
      then pure r
      else save (record r {
        meta = record r.meta { finalizers = e.add_finalizer r.meta.finalizers restore_finalizer };
      })

  unfoldable pub reconcile_live : ResticRestore → Handler Outcome
  unfolding ensure_finalizer initialize_phase dispatch
  reconcile_live r = do
    held ← ensure_finalizer r
    phased ← initialize_phase held held.status.phase
    dispatch phased phased.status.phase

  unfoldable pub reconcile_handler : NamespacedName → Handler Outcome
  unfolding reconcile_live handle_deletion
  reconcile_handler name = do
    reply ← call (get restores name) (λ t. e.get_restore t name)
    r ← or_ignore reply
    if is_deleted r.meta then handle_deletion r else reconcile_live r

  unfoldable pub reconcile : NamespacedName → Trace → Outcome × Trace
  unfolding reconcile_handler
  reconcile name = run_handler (reconcile_handler name)
