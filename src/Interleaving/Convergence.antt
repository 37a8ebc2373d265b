-- ===== src/Interleaving/Convergence.antt =====
-- Any sequence of turns on a server that keeps what is written: what is reached stays.
pub mod Steady
use restic_backup_operator.Base.{
  true, false, Option, some, List, [], ◌∷◌, ◌++◌, ◌≡◌, sym, ap, ◌∙◌, subst, ℤ,
}
use restic_backup_operator.Conditions.{is_condition_true}
use restic_backup_operator.Api.Meta.{is_deleted}
use restic_backup_operator.Api.Repository.{ResticRepository}
use restic_backup_operator.Api.Backup.{ResticBackup}
use restic_backup_operator.Api.Workload.{CronJob}
use restic_backup_operator.Cluster.{Trace, Env}
use restic_backup_operator.Controller.Repository.Laws.{is_ready}
use restic_backup_operator.Controller.Restore.{resolve}
use restic_backup_operator.Interleaving.{
  Turn, repository_turn, backup_turn, restore_turn, policy_turn, key_of, repository_status,
  cron_job_of, take_turn, run_turns, turns_keep,
}
use restic_backup_operator.Interleaving.Server.{Serves}
use restic_backup_operator.Interleaving.Frames.{
  backup_state, others-backup_state, others-repository_status,
}
use restic_backup_operator.Interleaving.RepositoryTurn.{IsReady, repository_turn-IsReady}
use restic_backup_operator.Interleaving.BackupTurn.{IsScheduled, IsReferred, Follows}
use restic_backup_operator.Interleaving.BackupTurn.Writes.{backup_turn-Leaves}

module _ (repository : ResticRepository) (backup : ResticBackup) where
  same-IsReady :
      (t t' : Trace)
      → repository_status repository t' ≡ repository_status repository t
      → IsReady repository t
      → IsReady repository t'
  same-IsReady t t' same ready =
      subst (λ s. is_ready (record repository { status = s }) ≡ true) (sym same) ready

  same-IsScheduled :
      (t t' : Trace)
      → backup_state backup t' ≡ backup_state backup t
      → IsScheduled repository backup t
      → IsScheduled repository backup t'
  same-IsScheduled t t' same k = record {
    job = k.job;
    kept = ap (λ s. s.2) same ∙ k.kept;
    built = k.built;
    ready = subst (λ s. is_condition_true s.1.conditions "Ready" ≡ true) (sym same) k.ready;
  }

  same-IsReferred :
      (t t' : Trace)
      → backup_state backup t' ≡ backup_state backup t
      → IsReferred repository backup t
      → IsReferred repository backup t'
  same-IsReferred t t' same k = ap (λ s. s.1.cron_job_ref) same ∙ k

module _ (e : Env) (configured : ℤ) (repository : ResticRepository) (backup : ResticBackup)
    (s : Serves e configured repository backup)
    (refers : resolve backup.spec.repository_ref backup.meta.namespace ≡ key_of repository.meta)
    (live : is_deleted backup.meta ≡ false) where
  -- What the turns reach, one after the other.
  abbrev Settled : Trace → Type 0
  Settled t = IsReady repository t × IsScheduled repository backup t

  abbrev Named : Trace → Type 0
  Named t = IsReady repository t × IsScheduled repository backup t × IsReferred repository backup t

  abbrev after : Turn → Trace → Trace
  after = take_turn e configured repository backup

  after-IsReady :
      (turn : Turn) (t : Trace) → IsReady repository t → IsReady repository (after turn t)
  unfolding take_turn
  after-IsReady repository_turn t k = repository_turn-IsReady e configured repository backup s t
  after-IsReady backup_turn t k =
      same-IsReady repository backup t _
        (others-repository_status repository e (key_of backup.meta) t s.names_kept).0 k
  after-IsReady (restore_turn name) t k =
      same-IsReady repository backup t _
        (others-repository_status repository e name t s.names_kept).1 k
  after-IsReady (policy_turn name) t k =
      same-IsReady repository backup t _
        (others-repository_status repository e name t s.names_kept).2 k

  -- A turn of the backup schedules it; another one leaves what the server keeps of the backup.
  after-IsScheduled :
      (turn : Turn) (t : Trace)
      → IsReady repository t
      → IsScheduled repository backup t
      → IsScheduled repository backup (after turn t)
  unfolding take_turn
  after-IsScheduled backup_turn t ready k =
      (backup_turn-Leaves e configured repository backup s t refers live ready).scheduled
  after-IsScheduled repository_turn t ready k =
      same-IsScheduled repository backup t _
        (others-backup_state backup e configured (key_of repository.meta) t s.names_kept).0 k
  after-IsScheduled (restore_turn name) t ready k =
      same-IsScheduled repository backup t _
        (others-backup_state backup e configured name t s.names_kept).1 k
  after-IsScheduled (policy_turn name) t ready k =
      same-IsScheduled repository backup t _
        (others-backup_state backup e configured name t s.names_kept).2 k

  backup_turn-IsReferred :
      (t : Trace)
      → IsReady repository t
      → IsScheduled repository backup t
      → IsReferred repository backup (after backup_turn t)
  unfolding take_turn
  backup_turn-IsReferred t ready k =
      subst (λ o. Follows repository backup o (after backup_turn t)) k.kept
        (backup_turn-Leaves e configured repository backup s t refers live ready).follows

  after-IsReferred :
      (turn : Turn) (t : Trace)
      → IsReady repository t
      → IsScheduled repository backup t
      → IsReferred repository backup t
      → IsReferred repository backup (after turn t)
  unfolding take_turn
  after-IsReferred backup_turn t ready k r = backup_turn-IsReferred t ready k
  after-IsReferred repository_turn t ready k r =
      same-IsReferred repository backup t _
        (others-backup_state backup e configured (key_of repository.meta) t s.names_kept).0 r
  after-IsReferred (restore_turn name) t ready k r =
      same-IsReferred repository backup t _
        (others-backup_state backup e configured name t s.names_kept).1 r
  after-IsReferred (policy_turn name) t ready k r =
      same-IsReferred repository backup t _
        (others-backup_state backup e configured name t s.names_kept).2 r

  abbrev run : List Turn → Trace
  run = run_turns e configured repository backup

  -- A turn of the repository, and later one of the backup.
  run-Settled :
      (later middle earlier : List Turn)
      → Settled (run (later ++ backup_turn ∷ (middle ++ repository_turn ∷ earlier)))
  unfolding run_turns take_turn
  run-Settled later middle earlier =
      turns_keep e configured repository backup Settled
        (λ turn t p. (after-IsReady turn t p.0, after-IsScheduled turn t p.0 p.1)) later
        (backup_turn ∷ (middle ++ repository_turn ∷ earlier))
        (
          after-IsReady backup_turn before ready,
          (backup_turn-Leaves e configured repository backup s before refers live ready).scheduled,
        )
    where
      before : Trace
      before = run (middle ++ repository_turn ∷ earlier)

      ready : IsReady repository before
      ready =
          turns_keep e configured repository backup (IsReady repository) after-IsReady middle
            (repository_turn ∷ earlier)
            (repository_turn-IsReady e configured repository backup s (run earlier))

  -- On a server that keeps what is written and answers with it, where the secret of the credentials
  -- holds a password and restic reaches the repository, with sizes of 64 bits, whichever turns of
  -- the four reconcilers are taken in whichever order, once a turn of the repository and after it
  -- one of a backup that refers to it and is not deleted were taken, the server keeps a cron job of
  -- the backup with the specification that is built for the two, and the backup as Ready.
  pub run_turns-IsScheduled :
      (later middle earlier : List Turn)
      → IsScheduled repository backup (
          run_turns e configured repository backup
            (later ++ backup_turn ∷ (middle ++ repository_turn ∷ earlier)))
  run_turns-IsScheduled later middle earlier = (run-Settled later middle earlier).1

  run-Named :
      (later middle earlier : List Turn)
      → Named (run (backup_turn ∷ (later ++ backup_turn ∷ (middle ++ repository_turn ∷ earlier))))
  unfolding run_turns
  run-Named later middle earlier =
      let (ready, scheduled) = run-Settled later middle earlier in
      (
        after-IsReady backup_turn _ ready,
        after-IsScheduled backup_turn _ ready scheduled,
        backup_turn-IsReferred _ ready scheduled,
      )

  after-Named : (turn : Turn) (t : Trace) → Named t → Named (after turn t)
  after-Named turn t p = (
    after-IsReady turn t p.0,
    after-IsScheduled turn t p.0 p.1,
    after-IsReferred turn t p.0 p.1 p.2,
  )

  -- On a server that keeps what is written and answers with it, where the secret of the credentials
  -- holds a password and restic reaches the repository, with sizes of 64 bits, once a turn of the
  -- repository and after it two of a backup that refers to it and is not deleted were taken, with
  -- any other turns of the four reconcilers before, between and after them, the status of the
  -- backup names its cron job.
  pub run_turns-IsReferred :
      (last later middle earlier : List Turn)
      → IsReferred repository backup (
          run_turns e configured repository backup
            (last ++ backup_turn ∷ (later ++ backup_turn ∷ (middle ++ repository_turn ∷ earlier))))
  run_turns-IsReferred last later middle earlier =
      (turns_keep e configured repository backup Named after-Named last
        (backup_turn ∷ (later ++ backup_turn ∷ (middle ++ repository_turn ∷ earlier)))
        (run-Named later middle earlier)).2
