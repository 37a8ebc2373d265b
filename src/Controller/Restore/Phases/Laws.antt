-- ===== src/Controller/Restore/Phases/Laws.antt =====
-- internal/controller/resticrestore_controller.go: what the reconciler of restores guarantees.
use restic_backup_operator.Base.{
  Bool, true, false, ◌∷◌, ◌≡◌, refl, sym, subst, Bool-cases, inl, inr, if◌then◌else◌,
}
use restic_backup_operator.Api.Meta.{NamespacedName, is_deleted}
use restic_backup_operator.Api.Restore.{
  ResticRestore, RestorePhase, unset, pending, in_progress, completed, failed, other,
}
use restic_backup_operator.Cluster.{
  Trace, Env, Handler, Outcome, finished, Reply, accepted, refused, get, restores, update_restore,
  pure, ◌>>=◌, or_fail, or_ignore, continue,
}
use restic_backup_operator.Cluster.Logic.{Meets, stopped, goes, Meets-continue, Meets-run_handler}
use restic_backup_operator.Controller.Restore.{
  save, handle_deletion, dispatch, initialize_phase, ensure_finalizer, restore_finalizer,
  reconcile_live, reconcile_handler, reconcile,
}
use restic_backup_operator.Controller.Restore.Phases.{Edge, AllJustified, Ends, InHand, saved-Meets}
use restic_backup_operator.Controller.Restore.Phases.Pending.{after_backup-Meets}
use restic_backup_operator.Controller.Restore.Phases.Running.{in_progress_with-Meets}

module _ (e : Env) where
  dispatch-Meets :
      (r : ResticRestore) (phase : RestorePhase) (t : Trace)
      → r.status.phase ≡ phase
      → InHand e r t
      → Meets (Ends e) (Ends e) (dispatch e r phase t)
  unfolding dispatch
  dispatch-Meets r pending t h k =
      after_backup-Meets e r _ _ (record { latest = k.latest; past = (tt, k.past) }) h
  dispatch-Meets r in_progress t h k = in_progress_with-Meets e r r.status.job_ref t k h
  dispatch-Meets r unset t h k = goes k.past
  dispatch-Meets r completed t h k = goes k.past
  dispatch-Meets r failed t h k = goes k.past
  dispatch-Meets r (other s) t h k = goes k.past

  initialize_phase-Meets :
      (r : ResticRestore) (phase : RestorePhase) (t : Trace)
      → r.status.phase ≡ phase
      → InHand e r t
      → Meets (Ends e) (InHand e) (initialize_phase e r phase t)
  unfolding initialize_phase
  initialize_phase-Meets r unset t h k =
      saved-Meets e r _ t k (subst (λ p. Edge e t p pending) (sym h) tt)
  initialize_phase-Meets r pending t h k = goes k
  initialize_phase-Meets r in_progress t h k = goes k
  initialize_phase-Meets r completed t h k = goes k
  initialize_phase-Meets r failed t h k = goes k
  initialize_phase-Meets r (other s) t h k = goes k

  -- A write of the object alone leaves the status to the server.
  stored-Meets :
      (r r' : ResticRestore) (t : Trace) → InHand e r t → Meets (Ends e) (InHand e) (save e r' t)
  stored-Meets r r' t k = by_reply (e.put_restore t r') refl
    where
      by_reply :
          (reply : Reply ResticRestore)
          → e.put_restore t r' ≡ reply
          → Meets (Ends e) (InHand e) (or_fail reply (update_restore r' ∷ t))
      by_reply (accepted a) h = goes (record { latest = rw h; past = (tt, k.past) })
      by_reply (refused problem) h = stopped (tt, k.past)

  ensure_finalizer-Meets :
      (r : ResticRestore) (t : Trace)
      → InHand e r t
      → Meets (Ends e) (InHand e) (ensure_finalizer e r t)
  unfolding ensure_finalizer
  ensure_finalizer-Meets r t k =
      elim (Bool-cases (e.contains_finalizer r.meta.finalizers restore_finalizer)) [
        | inl held ↦ rw held (goes k)
        | inr bare ↦ rw bare (stored-Meets r _ t k)
      ]

  handle_deletion-Meets :
      (r : ResticRestore) (t : Trace)
      → InHand e r t
      → Meets (Ends e) (Ends e) (handle_deletion e r t)
  unfolding handle_deletion
  handle_deletion-Meets r t k =
      elim (Bool-cases (e.contains_finalizer r.meta.finalizers restore_finalizer)) [
        | inr bare ↦ rw bare (goes k.past)
        | inl held ↦ rw held (
            Meets-continue {f = λ _. pure finished} (stored-Meets r _ t k)
              (λ a t' k'. goes k'.past))
      ]

  reconcile_live-Meets :
      (r : ResticRestore) (t : Trace)
      → InHand e r t
      → Meets (Ends e) (Ends e) (reconcile_live e r t)
  unfolding reconcile_live
  reconcile_live-Meets r t k =
      Meets-continue {f = λ held. initialize_phase e held held.status.phase >>= switch}
        (ensure_finalizer-Meets r t k)
        λ held t1 k1.
          Meets-continue {f = switch} (initialize_phase-Meets held _ t1 refl k1)
            λ phased t2 k2. dispatch-Meets phased _ t2 refl k2
    where
      switch : ResticRestore → Handler Outcome
      switch phased = dispatch e phased phased.status.phase

  whole-Meets :
      (name : NamespacedName) (t : Trace)
      → AllJustified e t
      → Meets (Ends e) (Ends e) (reconcile_handler e name t)
  unfolding reconcile_handler
  whole-Meets name t j = by_reply (e.get_restore t name) refl
    where
      fetched : ResticRestore → Handler Outcome
      fetched r = if is_deleted r.meta then handle_deletion e r else reconcile_live e r

      by_deletion :
          (deleted : Bool) (r : ResticRestore) (t' : Trace)
          → InHand e r t'
          → Meets
              (Ends e)
              (Ends e)
              ((if deleted then handle_deletion e r else reconcile_live e r) t')
      by_deletion true r t' k = handle_deletion-Meets r t' k
      by_deletion false r t' k = reconcile_live-Meets r t' k

      by_reply :
          (reply : Reply ResticRestore)
          → e.get_restore t name ≡ reply
          → Meets (Ends e) (Ends e) (continue (or_ignore reply (get restores name ∷ t)) fetched)
      by_reply (refused problem) h = stopped (tt, j)
      by_reply (accepted r) h =
          by_deletion (is_deleted r.meta) r _ (record { latest = rw h; past = (tt, j) })

  -- Whatever the services answer, a reconciliation changes the phase of a restore only from unset
  -- to Pending, from Pending to Failed, from Pending to InProgress directly after the job was
  -- created or found to exist, from InProgress to Completed directly after the job was read with a
  -- success, and from InProgress to Failed; it never writes the status of a restore that the server
  -- last sent as Completed or Failed, and it creates a job only for a Pending one.
  pub reconcile-KeepsPhases :
      (name : NamespacedName) (t : Trace) → AllJustified e t → AllJustified e (reconcile e name t).1
  unfolding reconcile
  reconcile-KeepsPhases name t j =
      Meets-run_handler {R = Ends e} (reconcile_handler e name) t (whole-Meets name t j)
