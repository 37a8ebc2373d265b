-- ===== src/Controller/Retention/Laws.antt =====
-- What the reconciler of retention policies promises, for every answer of the services that it
-- calls.
use restic_backup_operator.Base.{
  String, Bool, true, false, Option, none, some, [], ◌∷◌, ◌≡◌, refl, sym, subst, Bool-cases, inl,
  inr, if◌then◌else◌,
}
use restic_backup_operator.Conditions.{is_condition_true}
use restic_backup_operator.Conditions.Laws.{not_ready_write}
use restic_backup_operator.Api.Meta.{NamespacedName, is_deleted}
use restic_backup_operator.Api.Repository.{ResticRepository}
use restic_backup_operator.Api.Retention.{GlobalRetentionPolicy}
use restic_backup_operator.Api.Workload.{CronJobSpec}
use restic_backup_operator.Cluster.{
  wrapped, Trace, Env, Call, finished, Reply, accepted, refused, warning, get, policies,
  repositories, update_policy, update_policy_status, record_event, pure, ◌>>=◌, requeue_after,
  error_requeue_interval,
}
use restic_backup_operator.Cluster.Logic.{
  Meets, goes, Meets-continue, Meets-or_fail, Meets-or_ignore, Meets-run_handler,
}
use restic_backup_operator.Controller.Retention.Job.{build_retention_cron_job}
use restic_backup_operator.Controller.Scheduling.Laws.{
  BuiltFor, AllJustified, Ends, Kept, Written, CronJobWritten, fetched, after_owner-Meets,
}
use restic_backup_operator.Controller.Retention.{
  referring, Scheduled, retention_finalizer, handle_deletion, ensure_finalizer, reject,
  reconcile_cron_job, configured_policy, after_cron_job, schedule_policy, after_repository,
  get_repository, reconcile_live, reconcile_handler, reconcile, save_status, save, report_success,
  save_not_ready,
}

-- What an answer tells of the policy, beside what was known before.
abbrev learn :
    Reply GlobalRetentionPolicy → Option GlobalRetentionPolicy → Option GlobalRetentionPolicy
learn (accepted p) old = some p
learn (refused _) old = old

module _ (e : Env) where
  abbrev learned : Call → Trace → Option GlobalRetentionPolicy → Option GlobalRetentionPolicy
  learned (get policies name) t old = learn (e.get_policy t name) old
  learned (update_policy p) t old = learn (e.put_policy t p) old
  learned (update_policy_status p) t old = learn (e.put_policy_status t p) old
  learned _ t old = old

  -- The policy as the server last sent it.
  abbrev pub known : Trace → Option GlobalRetentionPolicy
  known [] = none
  known (c ∷ t) = learned c t (known t)

  -- The specification that is built for the policy as the server last sent it.
  abbrev pub PolicyBuilt : Trace → CronJobSpec → ResticRepository → Type 0
  PolicyBuilt t spec r =
      (p : GlobalRetentionPolicy) × (known t ≡ some p)
      × (spec ≡ (build_retention_cron_job p r).spec)

  -- The policy in hand is the one that the server last sent.
  record Held (p : GlobalRetentionPolicy) (t : Trace) : Type 0 where
    latest : known t ≡ some p
    past : AllJustified e PolicyBuilt t

module _ (e : Env) where
  save-Meets :
      (p : GlobalRetentionPolicy) (t : Trace)
      → (is_condition_true p.status.conditions "Ready" ≡ true → CronJobWritten e t)
      → AllJustified e (PolicyBuilt e) t
      → Meets (Ends e (PolicyBuilt e)) (Kept e (PolicyBuilt e)) (save_status e p t)
  save-Meets p t backed j =
      Meets-or_fail (e.put_policy_status t p) (update_policy_status p ∷ t) (λ o. (backed, j))
        (λ a _. (backed, j))

  reject-Meets :
      (p : GlobalRetentionPolicy) (reason message : String) (t : Trace)
      → AllJustified e (PolicyBuilt e) t
      → Meets (Ends e (PolicyBuilt e)) (Ends e (PolicyBuilt e)) (reject e p reason message t)
  unfolding reject
  reject-Meets p reason message t j =
      Meets-continue {P = Kept e (PolicyBuilt e)}
        {f = λ _. pure (requeue_after error_requeue_interval)}
        (save-Meets _ (record_event warning reason message ∷ t)
          (λ h. cc (not_ready_write (e.now t) (e.now t) p.status.conditions reason message))
          (tt, j))
        (λ a t' q. goes q)

  save_not_ready-Meets :
      (p : GlobalRetentionPolicy) (reason message : String) (t : Trace)
      → AllJustified e (PolicyBuilt e) t
      → Meets
          (Ends e (PolicyBuilt e))
          (Ends e (PolicyBuilt e))
          (save_not_ready e p reason message t)
  save_not_ready-Meets p reason message t j =
      Meets-continue {P = Kept e (PolicyBuilt e)}
        {f = λ _. pure (requeue_after error_requeue_interval)}
        (save-Meets _ t
          (λ h. cc (not_ready_write (e.now t) (e.now t) p.status.conditions reason message)) j)
        (λ a t' q. goes q)

  after_cron_job-Meets :
      (p : GlobalRetentionPolicy) (scheduled : Scheduled) (t : Trace)
      → Written e (PolicyBuilt e) scheduled t
      → Meets (Ends e (PolicyBuilt e)) (Ends e (PolicyBuilt e)) (after_cron_job e p scheduled t)
  unfolding after_cron_job
  after_cron_job-Meets p (refused problem) t j = reject-Meets p "CronJobFailed" problem.message t j
  after_cron_job-Meets p (accepted scheduled) t (written, j) =
      Meets-continue {P = Kept e (PolicyBuilt e)} {f = λ _. report_success e}
        (save-Meets (configured_policy e scheduled (e.now t)) t (λ h. written) j)
        (λ a t' q. goes (tt, q))

  schedule_policy-Meets :
      (p : GlobalRetentionPolicy) (r : ResticRepository) (t : Trace)
      → fetched e t ≡ some r
      → known e t ≡ some p
      → is_condition_true r.status.conditions "Ready" ≡ true
      → AllJustified e (PolicyBuilt e) t
      → Meets (Ends e (PolicyBuilt e)) (Ends e (PolicyBuilt e)) (schedule_policy e p r t)
  unfolding schedule_policy reconcile_cron_job
  schedule_policy-Meets p r t found held ready j =
      Meets-continue {P = Written e (PolicyBuilt e)} {f = after_cron_job e p}
        (after_owner-Meets e (PolicyBuilt e) referring p (build_retention_cron_job p r)
          (e.controller_reference p.meta (build_retention_cron_job p r).meta) t
          (λ name r' built'. built') built j)
        (λ scheduled t' q. after_cron_job-Meets p scheduled t' q)
    where
      built : BuiltFor (PolicyBuilt e t) (build_retention_cron_job p r).spec (fetched e t)
      built =
          subst (BuiltFor (PolicyBuilt e t) (build_retention_cron_job p r).spec) (sym found)
            (ready, (p, held, refl))

  after_repository-Meets :
      (p : GlobalRetentionPolicy) (name : NamespacedName) (reply : Reply ResticRepository)
      (t : Trace)
      → e.get_repository t name ≡ reply
      → Held e p t
      → Meets (Ends e (PolicyBuilt e)) (Ends e (PolicyBuilt e)) (
          after_repository e p
            (wrapped "failed to get repository: " reply)
            (get repositories name ∷ t))
  unfolding after_repository
  after_repository-Meets p name (refused problem) t h k = reject-Meets p _ _ _ (tt, k.past)
  after_repository-Meets p name (accepted r) t h k =
      elim (Bool-cases (is_condition_true r.status.conditions "Ready")) [
        | inl ready ↦ rw ready (
            schedule_policy-Meets p r (get repositories name ∷ t) (rw h) k.latest ready
              (tt, k.past))
        | inr unready ↦ rw unready (
            save_not_ready-Meets p "RepositoryNotReady" "Referenced repository is not ready" _
              (tt, k.past))
      ]

  stored-Meets :
      (p : GlobalRetentionPolicy) (t : Trace)
      → AllJustified e (PolicyBuilt e) t
      → Meets (Ends e (PolicyBuilt e)) (Held e) (save e p t)
  stored-Meets p t j =
      Meets-or_fail (e.put_policy t p) (update_policy p ∷ t) (λ o. (tt, j))
        (λ a h. record { latest = rw h refl; past = (tt, j) })

  ensure_finalizer-Meets :
      (p : GlobalRetentionPolicy) (t : Trace)
      → Held e p t
      → Meets (Ends e (PolicyBuilt e)) (Held e) (ensure_finalizer e p t)
  unfolding ensure_finalizer
  ensure_finalizer-Meets p t k =
      elim (Bool-cases (e.contains_finalizer p.meta.finalizers retention_finalizer)) [
        | inl held ↦ rw held (goes k)
        | inr bare ↦ rw bare (stored-Meets _ t k.past)
      ]

  handle_deletion-Meets :
      (p : GlobalRetentionPolicy) (t : Trace)
      → AllJustified e (PolicyBuilt e) t
      → Meets (Ends e (PolicyBuilt e)) (Ends e (PolicyBuilt e)) (handle_deletion e p t)
  unfolding handle_deletion
  handle_deletion-Meets p t j =
      elim (Bool-cases (e.contains_finalizer p.meta.finalizers retention_finalizer)) [
        | inr bare ↦ rw bare (goes j)
        | inl held ↦ rw held (
            Meets-continue {P = Held e} {f = λ _. pure finished} (stored-Meets _ t j)
              (λ a t' k. goes k.past))
      ]

  reconcile_live-Meets :
      (p : GlobalRetentionPolicy) (t : Trace)
      → Held e p t
      → Meets (Ends e (PolicyBuilt e)) (Ends e (PolicyBuilt e)) (reconcile_live e p t)
  unfolding reconcile_live get_repository
  reconcile_live-Meets p t k =
      Meets-continue {P = Held e} {f = λ held. get_repository e held >>= after_repository e held}
        (ensure_finalizer-Meets p t k) (λ held t' q. after_repository-Meets held _ _ t' refl q)

  -- Whatever the services answer, a reconciliation creates or updates a cron job only with the
  -- specification that is built for the policy as the server last sent it and for a repository that
  -- was just read and is Ready, and it writes the status of a policy as Ready only after its cron
  -- job was written and the write was accepted.
  pub reconcile-AllApplied :
      (name : NamespacedName) (t : Trace)
      → AllJustified e (PolicyBuilt e) t
      → AllJustified e (PolicyBuilt e) (reconcile e name t).1
  unfolding reconcile
  reconcile-AllApplied name t j =
      Meets-run_handler {R = Ends e (PolicyBuilt e)} (reconcile_handler e name) t whole
    where
      by_deletion :
          (deleted : Bool) (p : GlobalRetentionPolicy) (t' : Trace)
          → Held e p t'
          → Meets
              (Ends e (PolicyBuilt e))
              (Ends e (PolicyBuilt e))
              ((if deleted then handle_deletion e p else reconcile_live e p) t')
      by_deletion true p t' q = handle_deletion-Meets p t' q.past
      by_deletion false p t' q = reconcile_live-Meets p t' q

      whole : Meets (Ends e (PolicyBuilt e)) (Ends e (PolicyBuilt e)) (reconcile_handler e name t)
      whole =
          Meets-continue {P = Held e}
            {f = λ p. if is_deleted p.meta then handle_deletion e p else reconcile_live e p}
            (Meets-or_ignore (e.get_policy t name) (get policies name ∷ t) (λ o. (tt, j))
              (λ p h. record { latest = rw h refl; past = (tt, j) }))
            (λ p t' q. by_deletion (is_deleted p.meta) p t' q)
