-- ===== src/Interleaving.antt =====
-- internal/controller: the four reconcilers on one server, in any order. The manager of
-- cmd/main.go runs each of them for an object when that object or one that it owns changes.
pub mod Frames
pub mod Server
pub mod RepositoryTurn
pub mod BackupTurn
pub mod Convergence
pub mod Restores
pub mod Deleted
use restic_backup_operator.Base.{
  String, ◌<>◌, Bool, true, false, ◌&&◌, Option, none, some, List, [], ◌∷◌, ◌++◌, ◌==◌, ◌≡◌, ℤ,
  if◌then◌else◌,
}
use restic_backup_operator.Api.Meta.{NamespacedName, ObjectMeta}
use restic_backup_operator.Api.Repository.{ResticRepository, ResticRepositoryStatus}
use restic_backup_operator.Api.Backup.{ResticBackup, ResticBackupStatus}
use restic_backup_operator.Api.Workload.{CronJob}
use restic_backup_operator.Cluster.{
  Trace, Env, ApiError, Reply, accepted, refused, update_repository_status, update_backup,
  update_backup_status, create_cron_job, update_cron_job,
}
use restic_backup_operator.Controller.Repository
use restic_backup_operator.Controller.Backup
use restic_backup_operator.Controller.Restore
use restic_backup_operator.Controller.Retention

abbrev pub key_of : ObjectMeta → NamespacedName
key_of m = record { name = m.name; namespace = m.namespace }

-- One reconciliation: of the repository, of the backup, of any restore or of any policy.
pub data Turn : Type 0 where
  repository_turn backup_turn : Turn
  restore_turn policy_turn : NamespacedName → Turn

-- What a server keeps of the repository: a write of the status is all that a reconciler makes.
module _ (repository : ResticRepository) where
  unfoldable pub repository_status : Trace → ResticRepositoryStatus
  repository_status [] = repository.status
  repository_status (update_repository_status r ∷ t) = r.status
  repository_status (_ ∷ t) = repository_status t

  abbrev pub held_repository : Trace → ResticRepository
  held_repository t = record repository { status = repository_status t }

-- What it keeps of the backup: its finalizers, its status, and the cron job of its name.
module _ (backup : ResticBackup) where
  unfoldable pub backup_finalizers : Trace → List String
  backup_finalizers [] = backup.meta.finalizers
  backup_finalizers (update_backup b ∷ t) = b.meta.finalizers
  backup_finalizers (_ ∷ t) = backup_finalizers t

  unfoldable pub backup_status : Trace → ResticBackupStatus
  backup_status [] = backup.status
  backup_status (update_backup_status b ∷ t) = b.status
  backup_status (_ ∷ t) = backup_status t

  abbrev pub held_backup : Trace → ResticBackup
  held_backup t = record backup {
    meta = record backup.meta { finalizers = backup_finalizers t };
    status = backup_status t;
  }

  abbrev pub cron_job_key : NamespacedName
  cron_job_key = record {
    name = "resticbackup-" <> backup.meta.name;
    namespace = backup.meta.namespace;
  }

  unfoldable pub is_its_cron_job : CronJob → Bool
  is_its_cron_job job =
      job.meta.name == cron_job_key.name && job.meta.namespace == cron_job_key.namespace

  unfoldable pub cron_job_of : Trace → Option CronJob
  unfolding is_its_cron_job
  cron_job_of [] = none
  cron_job_of (create_cron_job job ∷ t) =
      let before = cron_job_of t in if is_its_cron_job job then some job else before
  cron_job_of (update_cron_job job ∷ t) =
      let before = cron_job_of t in if is_its_cron_job job then some job else before
  cron_job_of (_ ∷ t) = cron_job_of t

module _ (e : Env) (configured : ℤ) (repository : ResticRepository) (backup : ResticBackup) where
  unfoldable pub take_turn : Turn → Trace → Trace
  take_turn repository_turn t = (Repository.reconcile e configured (key_of repository.meta) t).1
  take_turn backup_turn t = (Backup.reconcile e (key_of backup.meta) t).1
  take_turn (restore_turn name) t = (Restore.reconcile e name t).1
  take_turn (policy_turn name) t = (Retention.reconcile e name t).1

  -- The calls of these turns, the latest first.
  unfoldable pub run_turns : List Turn → Trace
  unfolding take_turn
  run_turns [] = []
  run_turns (turn ∷ turns) = take_turn turn (run_turns turns)

  -- What each turn keeps, any sequence of turns keeps.
  pub turns_keep :
      (P : Trace → Type 0)
      → ((turn : Turn) (t : Trace) → P t → P (take_turn turn t))
      → (later earlier : List Turn) → P (run_turns earlier)
      → P (run_turns (later ++ earlier))
  unfolding run_turns
  turns_keep P step [] earlier p = p
  turns_keep P step (turn ∷ later) earlier p =
      step turn (run_turns (later ++ earlier)) (turns_keep P step later earlier p)
