-- ===== src/Controller/Restore/Start.antt =====
-- The start of a restore: the names that `handlePending` reads, and the job that it sends.
use restic_backup_operator.Base.{String, List, ◌∷◌}
use restic_backup_operator.Api.Meta.{NamespacedName}
use restic_backup_operator.Api.Repository.{ResticRepository}
use restic_backup_operator.Api.Backup.{ResticBackup}
use restic_backup_operator.Api.Restore.{ResticRestore}
use restic_backup_operator.Api.Workload
use restic_backup_operator.Cluster.{Trace, Env, get, backups, repositories}
use restic_backup_operator.Controller.Restore.Job.{build_restore_job}
use restic_backup_operator.Controller.Restore.{resolve, snapshot_id_of}

module _ (e : Env) (r : ResticRestore) (t : Trace) where
  abbrev pub backup_name : NamespacedName
  backup_name = resolve r.spec.backup_ref r.meta.namespace

  abbrev pub repository_name : ResticBackup → NamespacedName
  repository_name b = resolve b.spec.repository_ref b.meta.namespace

  abbrev pub read : ResticBackup → Trace
  read b = get repositories (repository_name b) ∷ (get backups backup_name ∷ t)

  -- The job that is sent, with the owner.
  abbrev pub sent : ResticBackup → ResticRepository → List (String × String) → Workload.Job
  sent b repository owners =
      let job =
        build_restore_job r b repository
          (snapshot_id_of r.spec.snapshot_id r.spec.snapshot_selector) in
      record job { meta = record job.meta { owner_references = owners } }
