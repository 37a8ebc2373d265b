-- ===== src/Controller/Restore/Phases/Running.antt =====
-- internal/controller/resticrestore_controller.go: what `handleInProgress` guarantees.
use restic_backup_operator.Base.{
  ℕ, String, Bool, true, false, Option, none, some, ◌∷◌, ◌≡◌, refl, sym, subst, is_positive,
  Bool-cases, inl, inr, if◌then◌else◌,
}
use restic_backup_operator.Api.Meta.{NamespacedName}
use restic_backup_operator.Api.Shared.{ObjectReference}
use restic_backup_operator.Api.Restore.{ResticRestore, RestorePhase, in_progress, completed, failed}
use restic_backup_operator.Api.Workload
use restic_backup_operator.Conditions.{Condition, ready_condition, not_ready_condition}
use restic_backup_operator.Cluster
use restic_backup_operator.Cluster.{
  Trace, Env, Call, Handler, Exit, stop, go, Outcome, finished, normal, warning, Reply, accepted,
  refused, EventType, get, restores, backups, repositories, jobs, update_restore,
  update_restore_status, create_job, record_event, pure, ◌>>=◌, requeue_after, or_fail, or_ignore,
  continue, stop_with,
}
use restic_backup_operator.Cluster.Logic.{Meets, stopped, goes}
use restic_backup_operator.Controller.Restore.{job_missing, job_ended, after_job, in_progress_with}
use restic_backup_operator.Controller.Restore.Phases.{Edge, Ends, InHand, finish_with-Meets}

module _ (e : Env) where
  job_missing-Meets :
      (r : ResticRestore) (message : String) (t : Trace)
      → InHand e r t
      → r.status.phase ≡ in_progress
      → Meets (Ends e) (Ends e) (job_missing e r message t)
  unfolding job_missing
  job_missing-Meets r message t k h =
      finish_with-Meets e r _ t k (subst (λ p. Edge e t p failed) (sym h) tt)

  job_ended-Meets :
      (r : ResticRestore) (phase : RestorePhase) (type : EventType) (reason message : String)
      (condition : ℕ → Condition) (t : Trace)
      → InHand e r t
      → Edge e (record_event type reason message ∷ t) r.status.phase phase
      → Meets (Ends e) (Ends e) (job_ended e r phase type reason message condition t)
  unfolding job_ended
  job_ended-Meets r phase type reason message condition t k edge =
      finish_with-Meets e r _ _ (record { latest = k.latest; past = (tt, k.past) }) edge

  after_job-Meets :
      (r : ResticRestore) (name : NamespacedName) (reply : Reply Workload.Job) (t : Trace)
      → e.get_job t name ≡ reply
      → InHand e r t
      → r.status.phase ≡ in_progress
      → Meets (Ends e) (Ends e) (after_job e r reply (get jobs name ∷ t))
  unfolding after_job
  after_job-Meets r name (refused problem) t found k h = by_cause problem.not_found
    where
      read : InHand e r (get jobs name ∷ t)
      read = record { latest = k.latest; past = (tt, k.past) }

      by_cause :
          (missing : Bool)
          → Meets (Ends e) (Ends e) (
              (if missing
                  then job_missing e r "Restore job was not found"
                  else stop_with (Cluster.failed problem.message))
                (get jobs name ∷ t))
      by_cause true = job_missing-Meets r _ _ read h
      by_cause false = stopped read.past
  after_job-Meets r name (accepted job) t found k h =
      elim (Bool-cases (is_positive job.succeeded)) [
        | inl done ↦ rw done (
            job_ended-Meets r completed normal "RestoreCompleted" "Restore completed successfully"
              (λ now. ready_condition now "RestoreCompleted" "Restore completed successfully")
              (get jobs name ∷ t) read
              (subst
                (λ p.
                  Edge e
                    (record_event normal "RestoreCompleted" "Restore completed successfully"
                      ∷ (get jobs name ∷ t))
                    p completed)
                (sym h) (job, found, done)))
        | inr open_ ↦ rw open_ (elim (Bool-cases (is_positive job.failed)) [
          | inl broken ↦ rw broken (
              job_ended-Meets r failed warning "RestoreFailed" "Restore job failed"
                (λ now. not_ready_condition now "RestoreFailed" "Restore job failed")
                (get jobs name ∷ t) read
                (subst
                  (λ p.
                    Edge e
                      (record_event warning "RestoreFailed" "Restore job failed"
                        ∷ (get jobs name ∷ t))
                      p failed)
                  (sym h) tt))
          | inr running ↦ rw running (goes read.past)
        ])
      ]
    where
      read : InHand e r (get jobs name ∷ t)
      read = record { latest = k.latest; past = (tt, k.past) }

  pub in_progress_with-Meets :
      (r : ResticRestore) (ref : Option ObjectReference) (t : Trace)
      → InHand e r t
      → r.status.phase ≡ in_progress
      → Meets (Ends e) (Ends e) (in_progress_with e r ref t)
  unfolding in_progress_with
  in_progress_with-Meets r none t k h = job_missing-Meets r _ t k h
  in_progress_with-Meets r (some ref) t k h = after_job-Meets r _ _ t refl k h
