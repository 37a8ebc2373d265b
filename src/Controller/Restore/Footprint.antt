-- ===== src/Controller/Restore/Footprint.antt =====
-- The calls that the reconciler of restores makes.
use restic_backup_operator.Base.{ℕ, String, Bool, true, false, Option, none, some, List}
use restic_backup_operator.Conditions.{Condition}
use restic_backup_operator.Api.Meta.{NamespacedName}
use restic_backup_operator.Api.Shared.{ObjectReference}
use restic_backup_operator.Api.Repository.{ResticRepository}
use restic_backup_operator.Api.Backup.{ResticBackup}
use restic_backup_operator.Api.Restore.{ResticRestore, RestorePhase, unset, pending, in_progress}
use restic_backup_operator.Api.Workload
use restic_backup_operator.Cluster.{
  Trace, Env, Call, EventType, Reply, accepted, refused, get, restores, backups, repositories, jobs,
  update_restore, update_restore_status, create_job, record_event,
}
use restic_backup_operator.Cluster.Calls.{Within, Extends, Extends-run_handler, within_rules}
use restic_backup_operator.Controller.Restore.Job.{build_restore_job}
use restic_backup_operator.Controller.Restore.{
  snapshot_id_of, handle_deletion, fail_pending, fail_missing_backup, start_restore, after_create,
  after_owner, after_repository, after_backup, handle_pending, job_missing, job_ended, after_job,
  in_progress_with, handle_in_progress, dispatch, initialize_phase, ensure_finalizer,
  reconcile_live, reconcile_handler, reconcile,
}

-- Reads of restores, backups, repositories and jobs, writes of restores, the creation of jobs, and
-- events.
abbrev pub restore_calls : Call → Bool
restore_calls (get repositories name) = true
restore_calls (get backups name) = true
restore_calls (get restores name) = true
restore_calls (get jobs name) = true
restore_calls (update_restore r) = true
restore_calls (update_restore_status r) = true
restore_calls (create_job job) = true
restore_calls (record_event type reason message) = true
restore_calls _ = false

module _ (e : Env) where
  fail_pending-Within :
      (r : ResticRestore) (reason message : String)
      → Within restore_calls (fail_pending e r reason message)
  unfolding fail_pending
  fail_pending-Within r reason message = search within_rules

  fail_missing_backup-Within :
      (r : ResticRestore) (message : String)
      → Within restore_calls (fail_missing_backup e r message)
  unfolding fail_missing_backup
  fail_missing_backup-Within r message = search within_rules

  start_restore-Within :
      (r : ResticRestore) (job : Workload.Job) (snapshot : String)
      → Within restore_calls (start_restore e r job snapshot)
  unfolding start_restore
  start_restore-Within r job snapshot = search within_rules

  after_create-Within :
      (r : ResticRestore) (job : Workload.Job) (snapshot : String) (reply : Reply Workload.Job)
      → Within restore_calls (after_create e r job snapshot reply)
  unfolding after_create
  after_create-Within r job snapshot (accepted created) = start_restore-Within r created snapshot
  after_create-Within r job snapshot (refused problem) =
      search (within_rules, start_restore-Within, fail_pending-Within)

  after_owner-Within :
      (r : ResticRestore) (job : Workload.Job) (snapshot : String)
      (reply : Reply (List (String × String)))
      → Within restore_calls (after_owner e r job snapshot reply)
  unfolding after_owner
  after_owner-Within r job snapshot (refused problem) = search within_rules
  after_owner-Within r job snapshot (accepted owners) = search (within_rules, after_create-Within)

  after_repository-Within :
      (r : ResticRestore) (backup : ResticBackup) (reply : Reply ResticRepository)
      → Within restore_calls (after_repository e r backup reply)
  unfolding after_repository
  after_repository-Within r backup (refused problem) = fail_pending-Within r _ _
  after_repository-Within r backup (accepted repository) =
      let snapshot = snapshot_id_of r.spec.snapshot_id r.spec.snapshot_selector in
      after_owner-Within r (build_restore_job r backup repository snapshot) snapshot _

  after_backup-Within :
      (r : ResticRestore) (reply : Reply ResticBackup)
      → Within restore_calls (after_backup e r reply)
  unfolding after_backup
  after_backup-Within r (refused problem) = fail_missing_backup-Within r _
  after_backup-Within r (accepted backup) = search (within_rules, after_repository-Within)

  handle_pending-Within : (r : ResticRestore) → Within restore_calls (handle_pending e r)
  unfolding handle_pending
  handle_pending-Within r = search (within_rules, after_backup-Within)

  job_missing-Within :
      (r : ResticRestore) (message : String) → Within restore_calls (job_missing e r message)
  unfolding job_missing
  job_missing-Within r message = search within_rules

  job_ended-Within :
      (r : ResticRestore) (phase : RestorePhase) (type : EventType) (reason message : String)
      (condition : ℕ → Condition)
      → Within restore_calls (job_ended e r phase type reason message condition)
  unfolding job_ended
  job_ended-Within r phase type reason message condition = search within_rules

  after_job-Within :
      (r : ResticRestore) (reply : Reply Workload.Job) → Within restore_calls (after_job e r reply)
  unfolding after_job
  after_job-Within r (refused problem) = search (within_rules, job_missing-Within)
  after_job-Within r (accepted job) = search (within_rules, job_ended-Within)

  in_progress_with-Within :
      (r : ResticRestore) (o : Option ObjectReference)
      → Within restore_calls (in_progress_with e r o)
  unfolding in_progress_with
  in_progress_with-Within r none = job_missing-Within r _
  in_progress_with-Within r (some ref) = search (within_rules, after_job-Within)

  handle_in_progress-Within : (r : ResticRestore) → Within restore_calls (handle_in_progress e r)
  unfolding handle_in_progress
  handle_in_progress-Within r = in_progress_with-Within r _

  dispatch-Within :
      (r : ResticRestore) (phase : RestorePhase) → Within restore_calls (dispatch e r phase)
  unfolding dispatch
  dispatch-Within r pending = handle_pending-Within r
  dispatch-Within r in_progress = handle_in_progress-Within r
  dispatch-Within r _ = search within_rules

  initialize_phase-Within :
      (r : ResticRestore) (phase : RestorePhase) → Within restore_calls (initialize_phase e r phase)
  unfolding initialize_phase
  initialize_phase-Within r unset = search within_rules
  initialize_phase-Within r _ = search within_rules

  ensure_finalizer-Within : (r : ResticRestore) → Within restore_calls (ensure_finalizer e r)
  unfolding ensure_finalizer
  ensure_finalizer-Within r = search within_rules

  handle_deletion-Within : (r : ResticRestore) → Within restore_calls (handle_deletion e r)
  unfolding handle_deletion
  handle_deletion-Within r = search within_rules

  reconcile_live-Within : (r : ResticRestore) → Within restore_calls (reconcile_live e r)
  unfolding reconcile_live
  reconcile_live-Within r =
      search (within_rules, ensure_finalizer-Within, initialize_phase-Within, dispatch-Within)

  reconcile_handler-Within :
      (name : NamespacedName) → Within restore_calls (reconcile_handler e name)
  unfolding reconcile_handler
  reconcile_handler-Within name =
      search (within_rules, handle_deletion-Within, reconcile_live-Within)

  pub restore_footprint :
      (name : NamespacedName) (t : Trace) → Extends restore_calls t (reconcile e name t).1
  unfolding reconcile
  restore_footprint name t = Extends-run_handler _ t (reconcile_handler-Within name)
