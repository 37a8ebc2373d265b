-- ===== src/Controller/Backup/Laws.antt =====
-- What the reconciler of backups promises, for every answer of the services that it calls.
use restic_backup_operator.Base.{
  String, Bool, true, false, Option, none, some, [], ◌∷◌, ◌≡◌, refl, sym, subst, Bool-cases, inl,
  inr, if◌then◌else◌,
}
use restic_backup_operator.Conditions.{is_condition_true}
use restic_backup_operator.Conditions.Laws.{not_ready_write}
use restic_backup_operator.Api.Meta.{NamespacedName, is_deleted}
use restic_backup_operator.Api.Repository.{ResticRepository}
use restic_backup_operator.Api.Backup.{ResticBackup}
use restic_backup_operator.Api.Workload.{CronJobSpec}
use restic_backup_operator.Cluster.{
  wrapped, Trace, Env, Call, finished, Reply, accepted, refused, warning, get, backups,
  repositories, update_backup, update_backup_status, record_event, pure, ◌>>=◌, requeue_after,
  error_requeue_interval,
}
use restic_backup_operator.Cluster.Logic.{
  Meets, goes, Meets-continue, Meets-or_fail, Meets-or_ignore, Meets-run_handler,
}
use restic_backup_operator.Controller.Backup.Job.{build_backup_cron_job}
use restic_backup_operator.Controller.Scheduling.Laws.{
  BuiltFor, AllJustified, Ends, Kept, Written, CronJobWritten, fetched, after_owner-Meets,
}
use restic_backup_operator.Controller.Backup.{
  referring, Scheduled, backup_finalizer, handle_deletion, ensure_finalizer, reject,
  reconcile_cron_job, configured_backup, after_cron_job, repository_ready, schedule_backup,
  after_repository, get_repository, reconcile_live, reconcile_handler, reconcile, save_status, save,
  report_success, save_not_ready,
}

-- What an answer tells of the backup, beside what was known before.
abbrev learn : Reply ResticBackup → Option ResticBackup → Option ResticBackup
learn (accepted b) old = some b
learn (refused _) old = old

module _ (e : Env) where
  abbrev learned : Call → Trace → Option ResticBackup → Option ResticBackup
  learned (get backups name) t old = learn (e.get_backup t name) old
  learned (update_backup b) t old = learn (e.put_backup t b) old
  learned (update_backup_status b) t old = learn (e.put_backup_status t b) old
  learned _ t old = old

  -- The backup as the server last sent it.
  abbrev pub known : Trace → Option ResticBackup
  known [] = none
  known (c ∷ t) = learned c t (known t)

  -- The specification that is built for the backup as the server last sent it.
  abbrev pub BackupBuilt : Trace → CronJobSpec → ResticRepository → Type 0
  BackupBuilt t spec r =
      (b : ResticBackup) × (known t ≡ some b) × (spec ≡ (build_backup_cron_job b r).spec)

  -- The backup in hand is the one that the server last sent.
  record Held (b : ResticBackup) (t : Trace) : Type 0 where
    latest : known t ≡ some b
    past : AllJustified e BackupBuilt t

module _ (e : Env) where
  save-Meets :
      (b : ResticBackup) (t : Trace)
      → (is_condition_true b.status.conditions "Ready" ≡ true → CronJobWritten e t)
      → AllJustified e (BackupBuilt e) t
      → Meets (Ends e (BackupBuilt e)) (Kept e (BackupBuilt e)) (save_status e b t)
  save-Meets b t backed j =
      Meets-or_fail (e.put_backup_status t b) (update_backup_status b ∷ t) (λ o. (backed, j))
        (λ a _. (backed, j))

  reject-Meets :
      (b : ResticBackup) (reason message : String) (t : Trace)
      → AllJustified e (BackupBuilt e) t
      → Meets (Ends e (BackupBuilt e)) (Ends e (BackupBuilt e)) (reject e b reason message t)
  unfolding reject
  reject-Meets b reason message t j =
      Meets-continue {P = Kept e (BackupBuilt e)}
        {f = λ _. pure (requeue_after error_requeue_interval)}
        (save-Meets _ (record_event warning reason message ∷ t)
          (λ h. cc (not_ready_write (e.now t) (e.now t) b.status.conditions reason message))
          (tt, j))
        (λ a t' q. goes q)

  save_not_ready-Meets :
      (b : ResticBackup) (reason message : String) (t : Trace)
      → AllJustified e (BackupBuilt e) t
      → Meets
          (Ends e (BackupBuilt e))
          (Ends e (BackupBuilt e))
          (save_not_ready e b reason message t)
  save_not_ready-Meets b reason message t j =
      Meets-continue {P = Kept e (BackupBuilt e)}
        {f = λ _. pure (requeue_after error_requeue_interval)}
        (save-Meets _ t
          (λ h. cc (not_ready_write (e.now t) (e.now t) b.status.conditions reason message)) j)
        (λ a t' q. goes q)

  after_cron_job-Meets :
      (b : ResticBackup) (scheduled : Scheduled) (t : Trace)
      → Written e (BackupBuilt e) scheduled t
      → Meets (Ends e (BackupBuilt e)) (Ends e (BackupBuilt e)) (after_cron_job e b scheduled t)
  unfolding after_cron_job
  after_cron_job-Meets b (refused problem) t j = reject-Meets b "CronJobFailed" problem.message t j
  after_cron_job-Meets b (accepted scheduled) t (written, j) =
      Meets-continue {P = Kept e (BackupBuilt e)} {f = λ _. report_success e}
        (save-Meets (configured_backup e scheduled (e.now t)) t (λ h. written) j)
        (λ a t' q. goes (tt, q))

  schedule_backup-Meets :
      (b : ResticBackup) (r : ResticRepository) (t : Trace)
      → fetched e t ≡ some r
      → known e t ≡ some b
      → is_condition_true r.status.conditions "Ready" ≡ true
      → AllJustified e (BackupBuilt e) t
      → Meets (Ends e (BackupBuilt e)) (Ends e (BackupBuilt e)) (schedule_backup e b r t)
  unfolding schedule_backup reconcile_cron_job
  schedule_backup-Meets b r t found held ready j =
      Meets-continue {P = Written e (BackupBuilt e)} {f = after_cron_job e marked}
        (after_owner-Meets e (BackupBuilt e) referring marked (build_backup_cron_job marked r)
          (e.controller_reference marked.meta (build_backup_cron_job marked r).meta) t
          (λ name r' built'. built') built j)
        (λ scheduled t' q. after_cron_job-Meets marked scheduled t' q)
    where
      marked : ResticBackup
      marked = repository_ready e (e.now t) b

      built : BuiltFor (BackupBuilt e t) (build_backup_cron_job marked r).spec (fetched e t)
      built =
          subst (BuiltFor (BackupBuilt e t) (build_backup_cron_job marked r).spec) (sym found)
            (ready, (b, held, unfold build_backup_cron_job in refl))

  after_repository-Meets :
      (b : ResticBackup) (name : NamespacedName) (reply : Reply ResticRepository) (t : Trace)
      → e.get_repository t name ≡ reply
      → Held e b t
      → Meets (Ends e (BackupBuilt e)) (Ends e (BackupBuilt e)) (
          after_repository e b
            (wrapped "failed to get repository: " reply)
            (get repositories name ∷ t))
  unfolding after_repository
  after_repository-Meets b name (refused problem) t h k = reject-Meets b _ _ _ (tt, k.past)
  after_repository-Meets b name (accepted r) t h k =
      elim (Bool-cases (is_condition_true r.status.conditions "Ready")) [
        | inl ready ↦ rw ready (
            schedule_backup-Meets b r (get repositories name ∷ t) (rw h) k.latest ready
              (tt, k.past))
        | inr unready ↦ rw unready (
            save_not_ready-Meets b "RepositoryNotReady" "Referenced repository is not ready" _
              (tt, k.past))
      ]

  stored-Meets :
      (b : ResticBackup) (t : Trace)
      → AllJustified e (BackupBuilt e) t
      → Meets (Ends e (BackupBuilt e)) (Held e) (save e b t)
  stored-Meets b t j =
      Meets-or_fail (e.put_backup t b) (update_backup b ∷ t) (λ o. (tt, j))
        (λ a h. record { latest = rw h refl; past = (tt, j) })

  ensure_finalizer-Meets :
      (b : ResticBackup) (t : Trace)
      → Held e b t
      → Meets (Ends e (BackupBuilt e)) (Held e) (ensure_finalizer e b t)
  unfolding ensure_finalizer
  ensure_finalizer-Meets b t k =
      elim (Bool-cases (e.contains_finalizer b.meta.finalizers backup_finalizer)) [
        | inl held ↦ rw held (goes k)
        | inr bare ↦ rw bare (stored-Meets _ t k.past)
      ]

  handle_deletion-Meets :
      (b : ResticBackup) (t : Trace)
      → AllJustified e (BackupBuilt e) t
      → Meets (Ends e (BackupBuilt e)) (Ends e (BackupBuilt e)) (handle_deletion e b t)
  unfolding handle_deletion
  handle_deletion-Meets b t j =
      elim (Bool-cases (e.contains_finalizer b.meta.finalizers backup_finalizer)) [
        | inr bare ↦ rw bare (goes j)
        | inl held ↦ rw held (
            Meets-continue {P = Held e} {f = λ _. pure finished} (stored-Meets _ t j)
              (λ a t' k. goes k.past))
      ]

  reconcile_live-Meets :
      (b : ResticBackup) (t : Trace)
      → Held e b t
      → Meets (Ends e (BackupBuilt e)) (Ends e (BackupBuilt e)) (reconcile_live e b t)
  unfolding reconcile_live get_repository
  reconcile_live-Meets b t k =
      Meets-continue {P = Held e} {f = λ held. get_repository e held >>= after_repository e held}
        (ensure_finalizer-Meets b t k) (λ held t' q. after_repository-Meets held _ _ t' refl q)

  -- Whatever the services answer, a reconciliation creates or updates a cron job only with the
  -- specification that is built for the backup as the server last sent it and for a repository that
  -- was just read and is Ready, and it writes the status of a backup as Ready only after its cron
  -- job was written and the write was accepted.
  pub reconcile-AllScheduled :
      (name : NamespacedName) (t : Trace)
      → AllJustified e (BackupBuilt e) t
      → AllJustified e (BackupBuilt e) (reconcile e name t).1
  unfolding reconcile
  reconcile-AllScheduled name t j =
      Meets-run_handler {R = Ends e (BackupBuilt e)} (reconcile_handler e name) t whole
    where
      by_deletion :
          (deleted : Bool) (b : ResticBackup) (t' : Trace)
          → Held e b t'
          → Meets
              (Ends e (BackupBuilt e))
              (Ends e (BackupBuilt e))
              ((if deleted then handle_deletion e b else reconcile_live e b) t')
      by_deletion true b t' q = handle_deletion-Meets b t' q.past
      by_deletion false b t' q = reconcile_live-Meets b t' q

      whole : Meets (Ends e (BackupBuilt e)) (Ends e (BackupBuilt e)) (reconcile_handler e name t)
      whole =
          Meets-continue {P = Held e}
            {f = λ b. if is_deleted b.meta then handle_deletion e b else reconcile_live e b}
            (Meets-or_ignore (e.get_backup t name) (get backups name ∷ t) (λ o. (tt, j))
              (λ b h. record { latest = rw h refl; past = (tt, j) }))
            (λ b t' q. by_deletion (is_deleted b.meta) b t' q)
