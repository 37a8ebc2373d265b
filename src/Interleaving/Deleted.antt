-- ===== src/Interleaving/Deleted.antt =====
-- A deleted backup on a server that keeps what is written: it is released and left alone.
use restic_backup_operator.Base.{String, true, false, none, List, ◌≡◌, ℤ}
use restic_backup_operator.Api.Meta.{is_deleted}
use restic_backup_operator.Api.Repository.{ResticRepository}
use restic_backup_operator.Api.Backup.{ResticBackup}
use restic_backup_operator.Cluster.{Trace, Env}
use restic_backup_operator.Controller.Backup
use restic_backup_operator.Controller.Backup.{backup_finalizer}
use restic_backup_operator.Interleaving.{backup_finalizers, backup_status, cron_job_of}
use restic_backup_operator.Interleaving.Server.{Serves}
use restic_backup_operator.Interleaving.Frames.{BackupState}

-- The status of the backup is the one it had, and it has no cron job.
abbrev pub IsUntouched : ResticBackup → Trace → Type 0
IsUntouched backup t = (backup_status backup t ≡ backup.status) × (cron_job_of backup t ≡ none)

-- The server keeps no finalizer of the operator.
abbrev pub IsReleased : Env → ResticBackup → Trace → Type 0
IsReleased e backup t = e.contains_finalizer (backup_finalizers backup t) backup_finalizer ≡ false

-- What `controllerutil.RemoveFinalizer` removes is no longer there.
abbrev pub Removes : Env → Type 0
Removes e =
    (held : List String)
    → e.contains_finalizer (e.remove_finalizer held backup_finalizer) backup_finalizer ≡ false

module _ (e : Env) (configured : ℤ) (repository : ResticRepository) (backup : ResticBackup)
    (s : Serves e configured repository backup) where
  module _ (deleted : is_deleted backup.meta ≡ true) where
    abbrev Unwritten : BackupState → Type 0
    Unwritten state = (state.1 ≡ backup.status) × (state.2 ≡ none)

    abbrev Bare : BackupState → Type 0
    Bare state =
        (e.contains_finalizer state.0 backup_finalizer ≡ false)
        × (state.1 ≡ backup.status)
        × (state.2 ≡ none)
