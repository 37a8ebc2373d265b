-- ===== src/Controller/Footprints.antt =====
-- Which calls each of the four reconcilers makes.
use restic_backup_operator.Base.{ℤ}
use restic_backup_operator.Api.Meta.{NamespacedName}
use restic_backup_operator.Cluster.{Trace, Env}
use restic_backup_operator.Cluster.Calls.{Extends}
use restic_backup_operator.Controller.Repository
use restic_backup_operator.Controller.Repository.Footprint.{repository_calls, repository_footprint}
use restic_backup_operator.Controller.Backup
use restic_backup_operator.Controller.Backup.Footprint.{backup_calls, backup_footprint}
use restic_backup_operator.Controller.Restore
use restic_backup_operator.Controller.Restore.Footprint.{restore_calls, restore_footprint}
use restic_backup_operator.Controller.Retention
use restic_backup_operator.Controller.Retention.Footprint.{policy_calls, policy_footprint}
use restic_backup_operator.Controller.Scheduling.Footprint.{NamesKept}

-- Where the server answers the lookup of a cron job with one of that name, and whatever else is
-- answered, a reconciliation only adds calls of its own kind to those before. One of a repository reads
-- repositories and secrets, writes the status of a repository and runs restic. One of a backup or of
-- a policy reads its own kind, repositories and cron jobs, and writes its own kind and cron jobs with
-- the prefix of its kind, "resticbackup-" or "globalretention-". One of a restore reads restores,
-- backups, repositories and jobs, writes restores and creates jobs. All of them record events.
pub reconcile-Extends :
    (e : Env) (configured : ℤ) (name : NamespacedName) (t : Trace)
    → NamesKept e
    → Extends repository_calls t (Repository.reconcile e configured name t).1
      × Extends backup_calls t (Backup.reconcile e name t).1
      × Extends restore_calls t (Restore.reconcile e name t).1
      × Extends policy_calls t (Retention.reconcile e name t).1
reconcile-Extends e configured name t kept = (
  repository_footprint e configured name t,
  backup_footprint e kept name t,
  restore_footprint e name t,
  policy_footprint e kept name t,
)
