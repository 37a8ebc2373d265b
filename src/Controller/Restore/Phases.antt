-- ===== src/Controller/Restore/Phases.antt =====
-- The changes of the phase of a restore, each with the calls that must stand before it.
pub mod Pending
pub mod Running
pub mod Laws
use restic_backup_operator.Base.{
  ℕ, String, ◌<>◌, Bool, true, false, Option, none, some, List, [], ◌∷◌, ◌≡◌, refl, sym, subst,
  arith, ℤ, is_positive, Bool-cases, inl, inr, if◌then◌else◌,
}
use restic_backup_operator.Api.Meta.{NamespacedName, is_deleted}
use restic_backup_operator.Api.Shared.{ObjectReference}
use restic_backup_operator.Api.Repository.{ResticRepository}
use restic_backup_operator.Api.Backup.{ResticBackup}
use restic_backup_operator.Api.Restore.{
  ResticRestore, RestorePhase, unset, pending, in_progress, completed, failed, other,
}
use restic_backup_operator.Api.Workload
use restic_backup_operator.Conditions.{Condition, ready_condition, not_ready_condition}
use restic_backup_operator.Controller.Restore.Job.{build_restore_job}
use restic_backup_operator.Cluster
use restic_backup_operator.Cluster.{
  Trace, Env, Call, Handler, Exit, stop, go, Outcome, finished, normal, warning, Reply, accepted,
  refused, EventType, get, restores, backups, repositories, jobs, update_restore,
  update_restore_status, create_job, record_event, pure, ◌>>=◌, requeue_after, or_fail, or_ignore,
  continue, stop_with,
}
use restic_backup_operator.Cluster.Logic.{
  Meets, stopped, goes, Meets-continue, Meets-or_fail, Meets-or_ignore, Meets-run_handler,
}
use restic_backup_operator.Controller.Restore.{
  save_status, save, finish_with, report_started, handle_deletion, fail_pending,
  fail_missing_backup, start_restore, after_create, after_owner, after_repository, after_backup,
  handle_pending, job_missing, job_ended, after_job, in_progress_with, handle_in_progress, dispatch,
  initialize_phase, ensure_finalizer, restore_finalizer, snapshot_id_of, reconcile_live,
  reconcile_handler, reconcile,
}

-- What an answer tells of the restore, beside what was known before.
abbrev pub learn : Reply ResticRestore → Option ResticRestore → Option ResticRestore
learn (accepted r) old = some r
learn (refused _) old = old

abbrev pub Present : Reply Workload.Job → Type 0
Present (accepted _) = Unit
Present (refused problem) = problem.already_exists ≡ true

module _ (e : Env) where
  abbrev pub learned : Call → Trace → Option ResticRestore → Option ResticRestore
  learned (get restores name) t old = learn (e.get_restore t name) old
  learned (update_restore r) t old = learn (e.put_restore t r) old
  learned (update_restore_status r) t old = learn (e.put_restore_status t r) old
  learned _ t old = old

  -- The restore as the server last sent it.
  abbrev pub known : Trace → Option ResticRestore
  known [] = none
  known (c ∷ t) = learned c t (known t)

  -- The last call created the job of the restore, or found that it is there already.
  abbrev pub JobIsThere : Trace → Type 0
  JobIsThere (create_job job ∷ t) = Present (e.post_job t job)
  JobIsThere _ = ⊥

  -- The last read found the job with a pod that succeeded.
  abbrev pub JobSucceeded : Trace → Type 0
  JobSucceeded (record_event _ _ _ ∷ (get jobs name ∷ t)) =
      (job : Workload.Job) × (e.get_job t name ≡ accepted job) × (is_positive job.succeeded ≡ true)
  JobSucceeded _ = ⊥

  -- The changes of the phase.
  abbrev pub Edge : Trace → RestorePhase → RestorePhase → Type 0
  Edge t unset pending = Unit
  Edge t pending in_progress = JobIsThere t
  Edge t pending failed = Unit
  Edge t in_progress completed = JobSucceeded t
  Edge t in_progress failed = Unit
  Edge t _ _ = ⊥

  abbrev pub FromKnown : (RestorePhase → Type 0) → Option ResticRestore → Type 0
  FromKnown P none = ⊥
  FromKnown P (some r) = P r.status.phase

  abbrev pub Justified : Call → Trace → Type 0
  Justified (update_restore_status r) t = FromKnown (λ p. Edge t p r.status.phase) (known t)
  Justified (create_job _) t = FromKnown (λ p. p ≡ pending) (known t)
  Justified _ t = Unit

  -- Each write of the trace is justified by what was known before it.
  abbrev pub AllJustified : Trace → Type 0
  AllJustified [] = Unit
  AllJustified (c ∷ t) = Justified c t × AllJustified t

  abbrev pub Ends : Outcome → Trace → Type 0
  Ends o t = AllJustified t

  -- The restore in hand is the one that the server last sent.
  pub record InHand (r : ResticRestore) (t : Trace) : Type 0 where
    pub latest : known t ≡ some r
    pub past : AllJustified t

  abbrev pub from_known :
      (P : RestorePhase → Type 0) {r : ResticRestore} {o : Option ResticRestore}
      → o ≡ some r
      → P r.status.phase
      → FromKnown P o
  from_known P h p = subst (FromKnown P) (sym h) p

  pub saved-Meets :
      (r r' : ResticRestore) (t : Trace)
      → InHand r t
      → Edge t r.status.phase r'.status.phase
      → Meets Ends InHand (save_status e r' t)
  saved-Meets r r' t k edge = by_reply (e.put_restore_status t r') refl
    where
      written : AllJustified (update_restore_status r' ∷ t)
      written = (from_known (λ p. Edge t p r'.status.phase) k.latest edge, k.past)

      by_reply :
          (reply : Reply ResticRestore)
          → e.put_restore_status t r' ≡ reply
          → Meets Ends InHand (or_fail reply (update_restore_status r' ∷ t))
      by_reply (accepted a) h = goes (record { latest = rw h; past = written })
      by_reply (refused problem) h = stopped written

  pub finish_with-Meets :
      (r r' : ResticRestore) (t : Trace)
      → InHand r t
      → Edge t r.status.phase r'.status.phase
      → Meets Ends Ends (finish_with e r' t)
  finish_with-Meets r r' t k edge =
      Meets-continue {f = λ _. pure finished} (saved-Meets r r' t k edge) (λ a t' k'. goes k'.past)
