-- ===== src/Controller/Restore/Phases/Pending.antt =====
-- internal/controller/resticrestore_controller.go: what `handlePending` guarantees.
use restic_backup_operator.Base.{
  String, ◌<>◌, Bool, true, false, List, ◌∷◌, ◌≡◌, refl, sym, subst, if◌then◌else◌,
}
use restic_backup_operator.Api.Repository.{ResticRepository}
use restic_backup_operator.Api.Backup.{ResticBackup}
use restic_backup_operator.Api.Restore.{ResticRestore, pending, in_progress, failed}
use restic_backup_operator.Api.Workload
use restic_backup_operator.Controller.Restore.Job.{build_restore_job}
use restic_backup_operator.Cluster.{
  Trace, Env, warning, Reply, accepted, refused, create_job, record_event,
}
use restic_backup_operator.Cluster.Logic.{Meets, stopped, goes, Meets-continue}
use restic_backup_operator.Controller.Restore.{
  report_started, fail_pending, fail_missing_backup, start_restore, after_create, after_owner,
  after_repository, after_backup, snapshot_id_of,
}
use restic_backup_operator.Controller.Restore.Phases.{
  JobIsThere, Edge, Ends, InHand, from_known, saved-Meets, finish_with-Meets,
}

abbrev chosen_snapshot : ResticRestore → String
chosen_snapshot r = snapshot_id_of r.spec.snapshot_id r.spec.snapshot_selector

module _ (e : Env) where
  fail_pending-Meets :
      (r : ResticRestore) (reason message : String) (t : Trace)
      → InHand e r t
      → r.status.phase ≡ pending
      → Meets (Ends e) (Ends e) (fail_pending e r reason message t)
  unfolding fail_pending
  fail_pending-Meets r reason message t k h =
      finish_with-Meets e r _ t k (subst (λ p. Edge e t p failed) (sym h) tt)

  start_restore-Meets :
      (r : ResticRestore) (job : Workload.Job) (snapshot : String) (t : Trace)
      → InHand e r t
      → r.status.phase ≡ pending
      → JobIsThere e t
      → Meets (Ends e) (Ends e) (start_restore e r job snapshot t)
  unfolding start_restore
  start_restore-Meets r job snapshot t k h there =
      Meets-continue {f = λ _. report_started e job}
        (saved-Meets e r _ t k (subst (λ p. Edge e t p in_progress) (sym h) there))
        (λ a t' k'. goes (tt, k'.past))

  after_create-Meets :
      (r : ResticRestore) (job : Workload.Job) (snapshot : String) (reply : Reply Workload.Job)
      (t : Trace)
      → e.post_job t job ≡ reply
      → InHand e r t
      → r.status.phase ≡ pending
      → Meets (Ends e) (Ends e) (after_create e r job snapshot reply (create_job job ∷ t))
  unfolding after_create
  after_create-Meets r job snapshot (accepted created) t made k h =
      start_restore-Meets r created snapshot _ (after_job_call k h) h (rw made tt)
    where
      after_job_call : InHand e r t → r.status.phase ≡ pending → InHand e r (create_job job ∷ t)
      after_job_call k h = record {
        latest = k.latest;
        past = (from_known e (λ p. p ≡ pending) k.latest h, k.past);
      }
  after_create-Meets r job snapshot (refused problem) t made k h =
      by_cause problem.already_exists refl
    where
      now_known : InHand e r (create_job job ∷ t)
      now_known = record {
        latest = k.latest;
        past = (from_known e (λ p. p ≡ pending) k.latest h, k.past);
      }

      by_cause :
          (exists_ : Bool)
          → problem.already_exists ≡ exists_
          → Meets (Ends e) (Ends e) (
              (if exists_
                  then start_restore e r job snapshot
                  else fail_pending e r "JobCreationFailed" problem.message)
                (create_job job ∷ t))
      by_cause true there = start_restore-Meets r job snapshot _ now_known h (rw made there)
      by_cause false there = fail_pending-Meets r "JobCreationFailed" problem.message _ now_known h

  after_owner-Meets :
      (r : ResticRestore) (job : Workload.Job) (snapshot : String)
      (reply : Reply (List (String × String))) (t : Trace)
      → InHand e r t
      → r.status.phase ≡ pending
      → Meets (Ends e) (Ends e) (after_owner e r job snapshot reply t)
  unfolding after_owner
  after_owner-Meets r job snapshot (refused problem) t k h = stopped k.past
  after_owner-Meets r job snapshot (accepted owners) t k h =
      after_create-Meets r _ snapshot _ t refl k h

  -- A read of another object keeps what is known of the restore.
  after_repository-Meets :
      (r : ResticRestore) (backup : ResticBackup) (reply : Reply ResticRepository) (t : Trace)
      → InHand e r t
      → r.status.phase ≡ pending
      → Meets (Ends e) (Ends e) (after_repository e r backup reply t)
  unfolding after_repository
  after_repository-Meets r backup (refused problem) t k h =
      fail_pending-Meets r "RepositoryNotFound" _ t k h
  after_repository-Meets r backup (accepted repository) t k h =
      after_owner-Meets r (build_restore_job r backup repository (chosen_snapshot r))
        (chosen_snapshot r)
        (e.controller_reference r.meta
          (build_restore_job r backup repository (chosen_snapshot r)).meta)
        t k h

  pub after_backup-Meets :
      (r : ResticRestore) (reply : Reply ResticBackup) (t : Trace)
      → InHand e r t
      → r.status.phase ≡ pending
      → Meets (Ends e) (Ends e) (after_backup e r reply t)
  unfolding after_backup fail_missing_backup
  after_backup-Meets r (refused problem) t k h =
      finish_with-Meets e r _ _ (record { latest = k.latest; past = (tt, k.past) })
        (subst
          (λ p.
            Edge e
              (record_event warning "BackupNotFound" ("failed to get backup: " <> problem.message)
                ∷ t)
              p failed)
          (sym h) tt)
  after_backup-Meets r (accepted backup) t k h =
      after_repository-Meets r backup _ _ (record { latest = k.latest; past = (tt, k.past) }) h
