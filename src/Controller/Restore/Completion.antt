-- ===== src/Controller/Restore/Completion.antt =====
-- internal/controller/resticrestore_controller.go: a restore on a server that keeps what is written and
-- in a cluster where its job succeeds.
use restic_backup_operator.Base.{
  String, true, false, some, List, [], ◌∷◌, ◌≡◌, refl, sym, subst, is_positive, Bool-cases, inl,
  inr,
}
use restic_backup_operator.Api.Meta.{NamespacedName, ObjectMeta, is_deleted}
use restic_backup_operator.Api.Shared.{ObjectReference}
use restic_backup_operator.Api.Repository.{ResticRepository}
use restic_backup_operator.Api.Backup.{ResticBackup}
use restic_backup_operator.Api.Restore.{
  ResticRestore, ResticRestoreStatus, RestorePhase, unset, pending, in_progress, completed,
}
use restic_backup_operator.Api.Workload
use restic_backup_operator.Cluster.{
  Trace, Env, Handler, Outcome, accepted, get, restores, backups, update_restore,
  update_restore_status, ◌>>=◌, continue,
}
use restic_backup_operator.Cluster.Logic.{Meets, goes, Meets-continue, Meets-run_handler}
use restic_backup_operator.Controller.Restore.{
  handle_pending, after_backup, after_repository, after_owner, after_create, start_restore,
  in_progress_with, after_job, job_ended, dispatch, initialize_phase, ensure_finalizer,
  restore_finalizer, reconcile_live, reconcile_handler, reconcile, handle_in_progress,
}
use restic_backup_operator.Controller.Restore.Start
use restic_backup_operator.Controller.Restore.Lifecycle.{reconcile_times}

-- The restore that a server holds which takes the object and the status apart.
module _ (first : ResticRestore) where
  unfoldable pub held : Trace → ResticRestore
  held [] = first
  held (update_restore r ∷ t) = record (held t) { meta = r.meta }
  held (update_restore_status r ∷ t) = record (held t) { status = r.status }
  held (_ ∷ t) = held t

-- The server answers with what it holds, the objects that a restore needs are there, its job is
-- created, and each job that is read has a pod that succeeded.
pub record GoesWell (e : Env) (first : ResticRestore) : Type 0 where
  pub on_get : (t : Trace) (name : NamespacedName) → e.get_restore t name ≡ accepted (held first t)
  pub on_put :
      (t : Trace) (r : ResticRestore)
      → e.put_restore t r ≡ accepted (record (held first t) { meta = r.meta })
  pub on_put_status :
      (t : Trace) (r : ResticRestore)
      → e.put_restore_status t r ≡ accepted (record (held first t) { status = r.status })
  pub on_backup :
      (t : Trace) (name : NamespacedName) → (b : ResticBackup) × (e.get_backup t name ≡ accepted b)
  pub on_repository :
      (t : Trace) (name : NamespacedName)
      → (r : ResticRepository) × (e.get_repository t name ≡ accepted r)
  pub on_owner :
      (owner meta : ObjectMeta)
      → (refs : List (String × String)) × (e.controller_reference owner meta ≡ accepted refs)
  pub on_create :
      (t : Trace) (job : Workload.Job) → (j : Workload.Job) × (e.post_job t job ≡ accepted j)
  pub on_job :
      (t : Trace) (name : NamespacedName)
      → (job : Workload.Job) × (e.get_job t name ≡ accepted job)
        × (is_positive job.succeeded ≡ true)

module _ (e : Env) (first : ResticRestore) (w : GoesWell e first) where
  abbrev pub IsNew : ResticRestoreStatus → Type 0
  IsNew s = s.phase ≡ unset

  abbrev IsPending : ResticRestoreStatus → Type 0
  IsPending s = s.phase ≡ pending

  -- The job is known.
  abbrev pub IsRunning : ResticRestoreStatus → Type 0
  IsRunning s = (s.phase ≡ in_progress) × ((ref : ObjectReference) × (s.job_ref ≡ some ref))

  abbrev pub IsDone : ResticRestoreStatus → Type 0
  IsDone s = s.phase ≡ completed

  -- The restore that the server holds is not deleted, and its status is such a one.
  abbrev pub Stage : (ResticRestoreStatus → Type 0) → Trace → Type 0
  Stage P t = P (held first t).status × (is_deleted (held first t).meta ≡ false)

  abbrev Running : Outcome → Trace → Type 0
  Running o t = Stage IsRunning t

  abbrev Done : Outcome → Trace → Type 0
  Done o t = Stage IsDone t

  -- The restore in hand is the one that the server holds.
  record Held (P : ResticRestoreStatus → Type 0) (r : ResticRestore) (t : Trace) : Type 0 where
    same : r ≡ held first t
    status : P r.status
    live : is_deleted r.meta ≡ false

  handle_pending-Running :
      (r : ResticRestore) (t : Trace)
      → Held IsPending r t
      → Meets Running Running (handle_pending e r t)
  unfolding handle_pending after_backup after_repository after_owner after_create start_restore held
  handle_pending-Running r t k =
      let (b, hb) = w.on_backup t (Start.backup_name e r t) in
      let (repository, hr) =
        w.on_repository (get backups (Start.backup_name e r t) ∷ t)
          (Start.repository_name e r t b) in
      let (owners, ho) = w.on_owner r.meta (Start.sent e r t b repository []).meta in
      let (created, hj) = w.on_create (Start.read e r t b) (Start.sent e r t b repository owners) in
      rw (hb, hr, ho, hj, w.on_put_status _ _)
        (goes ((refl, (_, refl)), subst (λ s. is_deleted s.meta ≡ false) k.same k.live))

  in_progress-Done :
      (r : ResticRestore) (ref : ObjectReference) (t : Trace)
      → is_deleted (held first t).meta ≡ false
      → Meets Done Done (in_progress_with e r (some ref) t)
  unfolding in_progress_with after_job job_ended held
  in_progress-Done r ref t live =
      let (job, hj, succeeded) =
        w.on_job t (record { name = ref.name; namespace = ref.namespace }) in
      rw (hj, succeeded, w.on_put_status _ _) (goes (refl, live))

  ensure_finalizer-Held :
      (P : ResticRestoreStatus → Type 0) (r : ResticRestore) (t : Trace)
      {R : Outcome → Trace → Type 0}
      → Held P r t
      → Meets R (Held P) (ensure_finalizer e r t)
  unfolding ensure_finalizer held
  ensure_finalizer-Held P r t k =
      elim (Bool-cases (e.contains_finalizer r.meta.finalizers restore_finalizer)) [
        | inl there ↦ rw there (goes k)
        | inr bare ↦
            rw (bare, w.on_put _ _)
              (goes (record {
                same = refl;
                status = subst (λ s. P s.status) k.same k.status;
                live = k.live;
              }))
      ]

  initialize_phase-Held :
      (r : ResticRestore) (t : Trace) {R : Outcome → Trace → Type 0}
      → Held IsNew r t
      → Meets R (Held IsPending) (initialize_phase e r unset t)
  unfolding initialize_phase held
  initialize_phase-Held r t k = rw (w.on_put_status _ _) (
      goes (record {
        same = refl;
        status = refl;
        live = subst (λ s. is_deleted s.meta ≡ false) k.same k.live;
      }))

  -- A reconciliation of a restore whose phase is unset starts its job.
  first-Running :
      (r : ResticRestore) (t : Trace)
      → Held IsNew r t
      → Meets Running Running (reconcile_live e r t)
  unfolding reconcile_live dispatch
  first-Running r t k =
      Meets-continue {P = Held IsNew} {f = λ h. initialize_phase e h h.status.phase >>= switch}
        (ensure_finalizer-Held IsNew r t k)
        λ h t1 k1.
          Meets-continue {P = Held IsPending} {f = switch}
            (rw (k1.status) (initialize_phase-Held h t1 k1))
            λ p t2 k2. rw (k2.status) (handle_pending-Running p t2 k2)
    where
      switch : ResticRestore → Handler Outcome
      switch phased = dispatch e phased phased.status.phase

  -- The next one finds the job.
  second-Done :
      (r : ResticRestore) (t : Trace) → Held IsRunning r t → Meets Done Done (reconcile_live e r t)
  unfolding reconcile_live initialize_phase dispatch handle_in_progress
  second-Done r t k =
      Meets-continue {P = Held IsRunning} {f = λ h. initialize_phase e h h.status.phase >>= switch}
        (ensure_finalizer-Held IsRunning r t k)
        λ h t1 k1.
          let (running, (ref, found)) = k1.status in
          subst (λ p. Meets Done Done (continue (initialize_phase e h p t1) switch)) (sym running)
            (subst (λ p. Meets Done Done (dispatch e h p t1)) (sym running)
              (subst (λ o. Meets Done Done (in_progress_with e h o t1)) (sym found)
                (in_progress-Done h ref t1
                  (subst (λ x. is_deleted x.meta ≡ false) k1.same k1.live))))
    where
      switch : ResticRestore → Handler Outcome
      switch phased = dispatch e phased phased.status.phase

  -- A restore that is completed is left alone, but for its finalizer.
  third-Done :
      (r : ResticRestore) (t : Trace) → Held IsDone r t → Meets Done Done (reconcile_live e r t)
  unfolding reconcile_live initialize_phase dispatch
  third-Done r t k =
      Meets-continue {P = Held IsDone} {f = λ h. initialize_phase e h h.status.phase >>= switch}
        (ensure_finalizer-Held IsDone r t k)
        λ h t1 k1.
          subst (λ p. Meets Done Done (continue (initialize_phase e h p t1) switch)) (sym k1.status)
            (subst (λ p. Meets Done Done (dispatch e h p t1)) (sym k1.status)
              (goes (
                subst (λ x. x.status.phase ≡ completed) k1.same k1.status,
                subst (λ x. is_deleted x.meta ≡ false) k1.same k1.live,
              )))
    where
      switch : ResticRestore → Handler Outcome
      switch phased = dispatch e phased phased.status.phase

  by_state :
      (P : ResticRestoreStatus → Type 0) (R : Outcome → Trace → Type 0)
      → ((r : ResticRestore) (t : Trace) → Held P r t → Meets R R (reconcile_live e r t))
      → (name : NamespacedName) (t : Trace) → P (held first t).status
      → is_deleted (held first t).meta ≡ false
      → R (reconcile e name t).0 (reconcile e name t).1
  unfolding reconcile reconcile_handler held
  by_state P R step name t state live =
      Meets-run_handler {R = R} (reconcile_handler e name) t fetched
    where
      fetched : Meets R R (reconcile_handler e name t)
      fetched =
          rw (w.on_get t name, live)
            (step (held first t) (get restores name ∷ t)
              (record { same = refl; status = state; live = live }))

  -- One reconciliation, from each stage.
  pub new-Running :
      (name : NamespacedName) (t : Trace) → Stage IsNew t → Stage IsRunning (reconcile e name t).1
  new-Running name t (new, live) = by_state IsNew Running first-Running name t new live

  pub running-Done :
      (name : NamespacedName) (t : Trace) → Stage IsRunning t → Stage IsDone (reconcile e name t).1
  running-Done name t (running, live) = by_state IsRunning Done second-Done name t running live

  pub last-Done :
      (name : NamespacedName) (t : Trace) → Stage IsDone t → Stage IsDone (reconcile e name t).1
  last-Done name t (done, live) = by_state IsDone Done third-Done name t done live

  -- On a server that keeps what is written, where the backup and the repository are there and jobs are
  -- created and succeed, two reconciliations complete a restore that is new and not deleted.
  reconcile_times-completed :
      (start : RestorePhase) (name : NamespacedName)
      → first.status.phase ≡ unset
      → is_deleted first.meta ≡ false
      → (held first (reconcile_times e start 2 name)).status.phase ≡ completed
  unfolding reconcile_times held
  reconcile_times-completed start name new live =
      (running-Done name _ (new-Running name [] (new, live))).0
