-- ===== src/Controller/Restore/Returns/Reconcile.antt =====
-- A reconciliation of a restore comes back, until its phase is an end.
use restic_backup_operator.Base.{false, ◌∷◌, ◌≡◌, ◌≢◌, refl, sym, subst, ◌∙◌, inl, inr, Bool-cases}
use restic_backup_operator.Api.Meta.{NamespacedName, is_deleted}
use restic_backup_operator.Api.Restore.{
  ResticRestore, RestorePhase, unset, pending, in_progress, completed, failed, other,
}
use restic_backup_operator.Cluster.{
  Trace, Env, Handler, Outcome, Reply, accepted, refused, get, restores, or_fail, ◌>>=◌,
  update_restore_status, update_restore,
}
use restic_backup_operator.Cluster.Logic.{Meets, stopped, goes, Meets-continue, Meets-run_handler}
use restic_backup_operator.Controller.Restore.Lifecycle.{stored, IsFaithful}
use restic_backup_operator.Controller.Restore.{
  handle_in_progress, dispatch, initialize_phase, ensure_finalizer, restore_finalizer,
  reconcile_live, reconcile_handler, reconcile,
}
use restic_backup_operator.Controller.Restore.Returns.{
  IsEnd, Settled, handle_pending-Settles, in_progress_with-Settles,
}

pending≢unset : pending ≢ unset
pending≢unset h = cc

module _ (e : Env) (start : RestorePhase) (faithful : IsFaithful e start) where
  -- The phase in hand is the one that the server holds.
  abbrev InHand : ResticRestore → Trace → Type 0
  InHand r t = r.status.phase ≡ stored e start t

  dispatch-Settled :
      (r : ResticRestore) (phase : RestorePhase) (t : Trace)
      → phase ≢ unset
      → phase ≡ stored e start t
      → Meets (Settled e start) (Settled e start) (dispatch e r phase t)
  unfolding dispatch handle_in_progress
  dispatch-Settled r unset t apart h = absurd (apart refl)
  dispatch-Settled r pending t apart h = (handle_pending-Settles e start r).at t
  dispatch-Settled r in_progress t apart h = (in_progress_with-Settles e start r _).at t
  dispatch-Settled r completed t apart h = goes {t = t} (inr (refl, subst IsEnd h tt))
  dispatch-Settled r failed t apart h = goes {t = t} (inr (refl, subst IsEnd h tt))
  dispatch-Settled r (other name) t apart h = goes {t = t} (inr (refl, subst IsEnd h tt))

  -- The phase is not unset any more.
  abbrev Phased : ResticRestore → Trace → Type 0
  Phased r t = (r.status.phase ≢ unset) × InHand r t

  initialize_phase-Phased :
      (r : ResticRestore) (phase : RestorePhase) (t : Trace)
      → r.status.phase ≡ phase
      → InHand r t
      → Meets (Settled e start) Phased (initialize_phase e r phase t)
  unfolding initialize_phase
  initialize_phase-Phased r unset t h k = by_reply (e.put_restore_status t sent) refl
    where
      sent : ResticRestore
      sent = record r { status = record r.status { phase = pending } }

      by_reply :
          (reply : Reply ResticRestore)
          → e.put_restore_status t sent ≡ reply
          → Meets (Settled e start) Phased (or_fail reply (update_restore_status sent ∷ t))
      by_reply (accepted a) found =
          let told : a.status.phase ≡ pending = faithful.on_put_status t sent a found in
          unfold stored in
          goes {a = a} {t = update_restore_status sent ∷ t}
            ((λ new. pending≢unset (sym told ∙ new)), rw found told)
      by_reply (refused problem) found = stopped (inl tt)
  initialize_phase-Phased r _ t h k = goes {t = t} ((λ new. cc), k)

  ensure_finalizer-InHand :
      (r : ResticRestore) (t : Trace)
      → InHand r t
      → Meets (Settled e start) InHand (ensure_finalizer e r t)
  unfolding ensure_finalizer
  ensure_finalizer-InHand r t k =
      elim (Bool-cases (e.contains_finalizer r.meta.finalizers restore_finalizer)) [
        | inl held ↦ rw held (goes {t = t} k)
        | inr bare ↦ rw bare (by_reply _ (e.put_restore t _) refl)
      ]
    where
      by_reply :
          (sent : ResticRestore) (reply : Reply ResticRestore)
          → e.put_restore t sent ≡ reply
          → Meets (Settled e start) InHand (or_fail reply (update_restore sent ∷ t))
      by_reply sent (accepted a) found =
          unfold stored in goes {t = update_restore sent ∷ t} (faithful.on_put t sent a found)
      by_reply sent (refused problem) found = stopped (inl tt)

  reconcile_live-Settled :
      (r : ResticRestore) (t : Trace)
      → InHand r t
      → Meets (Settled e start) (Settled e start) (reconcile_live e r t)
  unfolding reconcile_live
  reconcile_live-Settled r t k =
      Meets-continue {P = InHand} {f = λ held. initialize_phase e held held.status.phase >>= switch}
        (ensure_finalizer-InHand r t k)
        λ held t1 k1.
          Meets-continue {P = Phased} {f = switch} (initialize_phase-Phased held _ t1 refl k1)
            λ phased t2 k2. dispatch-Settled phased _ t2 k2.0 k2.1
    where
      switch : ResticRestore → Handler Outcome
      switch phased = dispatch e phased phased.status.phase

  -- On a server that answers with the phase it holds, a reconciliation of a restore that is there and
  -- not deleted comes back, or it is finished and the phase that the server then holds is an end.
  pub restore_returns :
      (name : NamespacedName) (t : Trace) (r : ResticRestore)
      → e.get_restore t name ≡ accepted r
      → is_deleted r.meta ≡ false
      → let (o, ended) = reconcile e name t in Settled e start o ended
  unfolding reconcile reconcile_handler
  restore_returns name t r found live =
      Meets-run_handler {R = Settled e start} (reconcile_handler e name) t (
        rw (found, live)
          (reconcile_live-Settled r (get restores name ∷ t)
            (unfold stored in faithful.on_get t name r found)))
