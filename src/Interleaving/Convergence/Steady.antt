-- ===== src/Interleaving/Convergence/Steady.antt =====
-- A backup that is scheduled and named is left as it is, but for the time of its next run.
use restic_backup_operator.Base.{
  ℕ, String, false, Option, none, some, List, ◌∷◌, ◌++◌, ◌≡◌, refl, sym, ap, ◌∙◌, subst, ℤ,
}
use restic_backup_operator.Api.Meta.{is_deleted}
use restic_backup_operator.Api.Repository.{ResticRepository}
use restic_backup_operator.Api.Backup.{ResticBackup, ResticBackupStatus}
use restic_backup_operator.Api.Workload.{CronJob}
use restic_backup_operator.Cluster.{Trace, Env}
use restic_backup_operator.Controller.Restore.{resolve}
use restic_backup_operator.Controller.Backup.{referring, repository_ready}
use restic_backup_operator.Controller.Backup.Steady.{
  IsMarked, configured_backup-IsMarked, configured_backup-steady,
}
use restic_backup_operator.Interleaving.{
  Turn, repository_turn, backup_turn, restore_turn, policy_turn, key_of, backup_status,
  cron_job_key, take_turn, run_turns, turns_keep,
}
use restic_backup_operator.Interleaving.Server.{Serves}
use restic_backup_operator.Interleaving.Frames.{others-backup_state}
use restic_backup_operator.Interleaving.BackupTurn.{Leaves, version, written}
use restic_backup_operator.Interleaving.BackupTurn.Writes.{backup_turn-Leaves}
use restic_backup_operator.Interleaving.Convergence.{
  Named, run-Settled, run-Named, after-Named, after,
}

module _ (repository : ResticRepository) (backup : ResticBackup) where
  -- The status of the backup is this one, but for the time of the next run.
  abbrev pub MovedTo : ResticBackupStatus → Trace → Type 0
  MovedTo status t =
      (next : Option ℕ) × (backup_status backup t ≡ record status { next_backup = next })

  abbrev Marked : Trace → Type 0
  Marked t = IsMarked backup.meta.generation (backup_status backup t)

  MovedTo-Marked :
      (status : ResticBackupStatus) (t : Trace)
      → IsMarked backup.meta.generation status
      → MovedTo status t
      → Marked t
  MovedTo-Marked status t m (next, moved) =
      subst (IsMarked backup.meta.generation) (sym moved) (record {
        repository_since = m.repository_since;
        ready_since = m.ready_since;
        repository = m.repository;
        ready = m.ready;
        observed = m.observed;
      })

  written-IsMarked :
      (e : Env) (before : Option CronJob) (finalizers : List String) (status : ResticBackupStatus)
      (marked_at written_at : ℕ)
      → IsMarked backup.meta.generation
          (written repository backup e before finalizers status marked_at written_at)
  written-IsMarked e none finalizers status marked_at written_at =
      configured_backup-IsMarked e
        (repository_ready e marked_at (version repository backup finalizers status))
        status.conditions marked_at written_at refl
  written-IsMarked e (some existing) finalizers status marked_at written_at =
      configured_backup-IsMarked e
        (referring (repository_ready e marked_at (version repository backup finalizers status))
          (record { name = (cron_job_key backup).name; namespace = backup.meta.namespace }))
        status.conditions marked_at written_at refl

  Leaves-Marked :
      (e : Env) (before : Option CronJob) (status : ResticBackupStatus) (t : Trace)
      → Leaves repository backup e before status t
      → Marked t
  Leaves-Marked e before status t k =
      subst (IsMarked backup.meta.generation) (sym k.wrote)
        (written-IsMarked e before k.finalizers status k.marked_at k.written_at)

  Leaves-MovedTo :
      (e : Env) (existing : CronJob) (status : ResticBackupStatus) (t : Trace)
      → Leaves repository backup e (some existing) status t
      → IsMarked backup.meta.generation status
      → status.cron_job_ref
        ≡ some (record { name = (cron_job_key backup).name; namespace = backup.meta.namespace })
      → MovedTo status t
  Leaves-MovedTo e existing status t k m named = (
    _,
    k.wrote
        ∙ configured_backup-steady e (version repository backup k.finalizers status) k.marked_at
            k.written_at _ m named,
  )

module _ (e : Env) (configured : ℤ) (repository : ResticRepository) (backup : ResticBackup)
    (s : Serves e configured repository backup)
    (refers : resolve backup.spec.repository_ref backup.meta.namespace ≡ key_of repository.meta)
    (live : is_deleted backup.meta ≡ false) where
  abbrev Reached : Trace → Type 0
  Reached t = Named e configured repository backup s refers live t × Marked repository backup t

  -- One turn moves the time of the next run at most.
  turn-MovedTo :
      (turn : Turn) (t : Trace)
      → Reached t
      → MovedTo repository backup
          (backup_status backup t)
          (after e configured repository backup s refers live turn t)
  unfolding take_turn
  turn-MovedTo backup_turn t (named, m) =
      Leaves-MovedTo repository backup e named.1.job (backup_status backup t) _
        (subst
          (λ o.
            Leaves repository backup e o (backup_status backup t)
              (take_turn e configured repository backup backup_turn t))
          named.1.kept (backup_turn-Leaves e configured repository backup s t refers live named.0))
        m named.2
  turn-MovedTo repository_turn t p = (
    _,
    ap (λ k. k.1)
        (others-backup_state backup e configured (key_of repository.meta) t s.names_kept).0,
  )
  turn-MovedTo (restore_turn name) t p =
      (_, ap (λ k. k.1) (others-backup_state backup e configured name t s.names_kept).1)
  turn-MovedTo (policy_turn name) t p =
      (_, ap (λ k. k.1) (others-backup_state backup e configured name t s.names_kept).2)

  -- The same of the status of an earlier time.
  abbrev Unmoved : ResticBackupStatus → Trace → Type 0
  Unmoved status t = Reached t × MovedTo repository backup status t

  turn-Unmoved :
      (status : ResticBackupStatus) (turn : Turn) (t : Trace)
      → Unmoved status t
      → Unmoved status (after e configured repository backup s refers live turn t)
  turn-Unmoved status turn t ((named, m), (next, moved)) =
      let (later, again) = turn-MovedTo turn t (named, m) in
      (
        (
          after-Named e configured repository backup s refers live turn t named,
          MovedTo-Marked repository backup (backup_status backup t) _ m (later, again),
        ),
        (
          later,
          again ∙ ap {A = ResticBackupStatus} (λ st. record st { next_backup = later }) moved,
        ),
      )

  first-Reached :
      (later middle earlier : List Turn)
      → Reached (
          run_turns e configured repository backup
            (backup_turn ∷ (later ++ backup_turn ∷ (middle ++ repository_turn ∷ earlier))))
  unfolding run_turns take_turn
  first-Reached later middle earlier =
      let named = run-Settled e configured repository backup s refers live later middle earlier in
      (
        run-Named e configured repository backup s refers live later middle earlier,
        Leaves-Marked repository backup e _ _ _
            (backup_turn-Leaves e configured repository backup s _ refers live named.0),
      )

  -- On a server that keeps what is written and answers with it, where the secret of the credentials
  -- holds a password and restic reaches the repository, with sizes of 64 bits, once a turn of the
  -- repository and after it two of a backup that refers to it and is not deleted were taken, the
  -- server's status of the backup stays the same over all further turns of the four reconcilers,
  -- but for the time of the next run: no condition, no time of a transition and no reference is
  -- written anew.
  pub run_turns-MovedTo :
      (further later middle earlier : List Turn)
      → let settled =
          backup_turn ∷ (later ++ backup_turn ∷ (middle ++ repository_turn ∷ earlier)) in
        MovedTo repository backup
          (backup_status backup (run_turns e configured repository backup settled))
          (run_turns e configured repository backup (further ++ settled))
  run_turns-MovedTo further later middle earlier =
      let settled : List Turn =
        backup_turn ∷ (later ++ backup_turn ∷ (middle ++ repository_turn ∷ earlier)) in
      let status = backup_status backup (run_turns e configured repository backup settled) in
      (turns_keep e configured repository backup (Unmoved status) (turn-Unmoved status) further
        settled (first-Reached later middle earlier, (_, refl))).1
