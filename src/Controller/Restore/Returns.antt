-- ===== src/Controller/Restore/Returns.antt =====
-- The reconciler of restores comes back to one that is there, until its phase is an end.
pub mod Reconcile
use restic_backup_operator.Base.{
  ℕ, String, Bool, true, false, Option, none, some, List, ◌∷◌, ◌≡◌, ◌≢◌, refl, sym, subst, ◌∙◌, ◌⊎◌,
  inl, inr, Bool-cases, if◌then◌else◌,
}
use restic_backup_operator.Conditions.{Condition}
use restic_backup_operator.Api.Meta.{NamespacedName, is_deleted}
use restic_backup_operator.Api.Shared.{ObjectReference}
use restic_backup_operator.Api.Repository.{ResticRepository}
use restic_backup_operator.Api.Backup.{ResticBackup}
use restic_backup_operator.Api.Restore.{
  ResticRestore, RestorePhase, unset, pending, in_progress, completed, failed, other,
}
use restic_backup_operator.Api.Workload
use restic_backup_operator.Cluster.{
  Trace, Env, Call, EventType, Handler, Outcome, finished, Reply, accepted, refused, get, restores,
  pure, stop_with, call, ask, or_fail, ◌>>=◌, update_restore_status, update_restore,
}
use restic_backup_operator.Cluster.Logic.{Meets, stopped, goes, Meets-continue, Meets-run_handler}
use restic_backup_operator.Cluster.Outcomes.{ComesBack, half_a_minute, ten_seconds}
use restic_backup_operator.Controller.Restore.Job.{build_restore_job}
use restic_backup_operator.Controller.Restore.Lifecycle.{stored, IsFaithful}
use restic_backup_operator.Controller.Restore.{
  finish_with, fail_pending, fail_missing_backup, start_restore, after_create, after_owner,
  after_repository, after_backup, handle_pending, job_missing, job_ended, after_job,
  in_progress_with, handle_in_progress, dispatch, initialize_phase, ensure_finalizer,
  restore_finalizer, snapshot_id_of, reconcile_live, reconcile_handler, reconcile,
}

-- A phase that the code leaves alone: Completed, Failed, and any that it does not know.
abbrev pub IsEnd : RestorePhase → Type 0
IsEnd completed = Unit
IsEnd failed = Unit
IsEnd (other name) = Unit
IsEnd _ = ⊥

module _ (e : Env) (start : RestorePhase) where
  -- The reconciler comes back, or it is finished and the phase that the server holds is an end.
  abbrev pub Settled : Outcome → Trace → Type 0
  Settled o t = ComesBack o ⊎ ((o ≡ finished) × IsEnd (stored e start t))

  abbrev Anything : {A : Type 0} → A → Trace → Type 0
  Anything a t = Unit {0}

  -- A handler in the midst of a run, and one that ends it.
  record Goes {A : Type 0} (m : Handler A) : Type 0 where
    at : (t : Trace) → Meets Settled Anything (m t)

  record Settles (m : Handler Outcome) : Type 0 where
    at : (t : Trace) → Meets Settled Settled (m t)

  module _ {A : Type 0} where
    Goes-call : (c : Call) (answer : Trace → A) → Goes (call c answer)
    Goes-call c answer = record { at = λ t. goes tt }

    Goes-ask : (f : Trace → A) → Goes (ask f)
    Goes-ask f = record { at = λ t. goes tt }

    Goes-or_fail : (reply : Reply A) → Goes (or_fail reply)
    Goes-or_fail (accepted a) = record { at = λ t. goes tt }
    Goes-or_fail (refused problem) = record { at = λ t. stopped (inl tt) }

    Goes-bind :
        {B : Type 0} (m : Handler A) (f : A → Handler B)
        → Goes m
        → ((a : A) → Goes (f a))
        → Goes (m >>= f)
    Goes-bind m f gm gf = record {
      at = λ t. Meets-continue {f = f} (gm.at t) (λ a t' u. (gf a).at t');
    }

    Settles-bind :
        (m : Handler A) (f : A → Handler Outcome)
        → Goes m
        → ((a : A) → Settles (f a))
        → Settles (m >>= f)
    Settles-bind m f gm gf = record {
      at = λ t. Meets-continue {f = f} (gm.at t) (λ a t' u. (gf a).at t');
    }

  Settles-pure : (o : Outcome) → ComesBack o → Settles (pure o)
  Settles-pure o h = record { at = λ t. goes (inl h) }

  Settles-stop_with : (o : Outcome) → ComesBack o → Settles (stop_with o)
  Settles-stop_with o h = record { at = λ t. stopped (inl h) }

  Settles-if :
      (b : Bool) (m n : Handler Outcome) → Settles m → Settles n → Settles (if b then m else n)
  Settles-if true m n sm sn = sm
  Settles-if false m n sm sn = sn

  -- The write of an end.
  Settles-finish_with : (r : ResticRestore) → IsEnd r.status.phase → Settles (finish_with e r)
  Settles-finish_with r end = record { at = λ t. by_reply t (e.put_restore_status t r) refl }
    where
      by_reply :
          (t : Trace) (reply : Reply ResticRestore)
          → e.put_restore_status t r ≡ reply
          → Meets Settled Settled
              ((or_fail reply >>= λ _. pure finished) (update_restore_status r ∷ t))
      by_reply t (accepted a) h =
          unfold stored in goes {t = update_restore_status r ∷ t} (inr (refl, rw h end))
      by_reply t (refused problem) h = stopped (inl tt)

  ruleset settled_rules = (
    tt, half_a_minute, ten_seconds, Goes-call, Goes-ask, Goes-or_fail, Goes-bind,
    Settles-finish_with, Settles-pure, Settles-stop_with, Settles-if, Settles-bind,
  )

  fail_pending-Settles :
      (r : ResticRestore) (reason message : String) → Settles (fail_pending e r reason message)
  unfolding fail_pending
  fail_pending-Settles r reason message = search settled_rules

  fail_missing_backup-Settles :
      (r : ResticRestore) (message : String) → Settles (fail_missing_backup e r message)
  unfolding fail_missing_backup
  fail_missing_backup-Settles r message = search settled_rules

  start_restore-Settles :
      (r : ResticRestore) (job : Workload.Job) (snapshot : String)
      → Settles (start_restore e r job snapshot)
  unfolding start_restore
  start_restore-Settles r job snapshot = search settled_rules

  after_create-Settles :
      (r : ResticRestore) (job : Workload.Job) (snapshot : String) (reply : Reply Workload.Job)
      → Settles (after_create e r job snapshot reply)
  unfolding after_create
  after_create-Settles r job snapshot (accepted created) = start_restore-Settles r created snapshot
  after_create-Settles r job snapshot (refused problem) =
      search (settled_rules, start_restore-Settles, fail_pending-Settles)

  after_owner-Settles :
      (r : ResticRestore) (job : Workload.Job) (snapshot : String)
      (reply : Reply (List (String × String)))
      → Settles (after_owner e r job snapshot reply)
  unfolding after_owner
  after_owner-Settles r job snapshot (refused problem) = search settled_rules
  after_owner-Settles r job snapshot (accepted owners) =
      search (settled_rules, after_create-Settles)

  after_repository-Settles :
      (r : ResticRestore) (backup : ResticBackup) (reply : Reply ResticRepository)
      → Settles (after_repository e r backup reply)
  unfolding after_repository
  after_repository-Settles r backup (refused problem) = fail_pending-Settles r _ _
  after_repository-Settles r backup (accepted repository) =
      let snapshot = snapshot_id_of r.spec.snapshot_id r.spec.snapshot_selector in
      after_owner-Settles r (build_restore_job r backup repository snapshot) snapshot _

  after_backup-Settles :
      (r : ResticRestore) (reply : Reply ResticBackup) → Settles (after_backup e r reply)
  unfolding after_backup
  after_backup-Settles r (refused problem) = fail_missing_backup-Settles r _
  after_backup-Settles r (accepted backup) = search (settled_rules, after_repository-Settles)

  handle_pending-Settles : (r : ResticRestore) → Settles (handle_pending e r)
  unfolding handle_pending
  handle_pending-Settles r = search (settled_rules, after_backup-Settles)

  job_missing-Settles : (r : ResticRestore) (message : String) → Settles (job_missing e r message)
  unfolding job_missing
  job_missing-Settles r message = search settled_rules

  job_ended-Settles :
      (r : ResticRestore) (phase : RestorePhase) (type : EventType) (reason message : String)
      (condition : ℕ → Condition)
      → IsEnd phase
      → Settles (job_ended e r phase type reason message condition)
  unfolding job_ended
  job_ended-Settles r phase type reason message condition end = search (settled_rules, end)

  after_job-Settles :
      (r : ResticRestore) (reply : Reply Workload.Job) → Settles (after_job e r reply)
  unfolding after_job
  after_job-Settles r (refused problem) = search (settled_rules, job_missing-Settles)
  after_job-Settles r (accepted job) = search (settled_rules, job_ended-Settles)

  in_progress_with-Settles :
      (r : ResticRestore) (o : Option ObjectReference) → Settles (in_progress_with e r o)
  unfolding in_progress_with
  in_progress_with-Settles r none = job_missing-Settles r _
  in_progress_with-Settles r (some ref) = search (settled_rules, after_job-Settles)
