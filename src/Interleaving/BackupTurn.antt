-- ===== src/Interleaving/BackupTurn.antt =====
-- What a reconciliation of the backup leaves on a server that keeps what is written.
pub mod Writes
use restic_backup_operator.Base.{
  ℕ, String, ◌<>◌, Bool, true, false, Option, none, some, List, [], ◌∷◌, ◌≡◌, refl, sym, ap, subst,
  ℤ, Bool-cases, inl, inr, eq_refl, if◌then◌else◌,
}
use restic_backup_operator.Conditions.{is_condition_true}
use restic_backup_operator.Api.Meta.{is_deleted}
use restic_backup_operator.Api.Repository.{ResticRepository, ResticRepositoryStatus}
use restic_backup_operator.Api.Backup.{ResticBackup, ResticBackupStatus}
use restic_backup_operator.Api.Workload.{CronJob}
use restic_backup_operator.Cluster.{
  Trace, Env, Outcome, get, repositories, backups, cron_jobs, create_cron_job, update_cron_job,
  ◌>>=◌,
}
use restic_backup_operator.Cluster.Logic.{Meets, goes, Meets-continue, Meets-run_handler}
use restic_backup_operator.Controller.Restore.{resolve}
use restic_backup_operator.Controller.Scheduling.{
  after_owner, after_lookup, after_create, after_update,
}
use restic_backup_operator.Controller.Backup.Job.{build_backup_cron_job}
use restic_backup_operator.Controller.Backup.Creation.{
  configured_backup-is_ready, configured_backup-cron_job_ref,
}
use restic_backup_operator.Controller.Backup.{
  backup_finalizer, referring, configured_backup, repository_ready, schedule_backup,
  reconcile_cron_job, after_cron_job, get_repository, after_repository, ensure_finalizer,
  reconcile_live, reconcile_handler, reconcile,
}
use restic_backup_operator.Interleaving.{
  key_of, repository_status, backup_finalizers, backup_status, cron_job_key, is_its_cron_job,
  cron_job_of,
}
use restic_backup_operator.Interleaving.Server.{Serves}
use restic_backup_operator.Interleaving.RepositoryTurn.{IsReady}

module _ (repository : ResticRepository) (backup : ResticBackup) where
  -- The server keeps a cron job that runs the backup to the repository, and the backup as Ready.
  pub record IsScheduled (t : Trace) : Type 0 where
    pub job : CronJob
    pub kept : cron_job_of backup t ≡ some job
    pub built : job.spec ≡ (build_backup_cron_job backup repository).spec
    pub ready : is_condition_true (backup_status backup t).conditions "Ready" ≡ true

  -- The status names the cron job.
  abbrev pub IsReferred : Trace → Type 0
  IsReferred t =
      (backup_status backup t).cron_job_ref
      ≡ some (record { name = (cron_job_key backup).name; namespace = backup.meta.namespace })

  -- It does where the cron job was there before.
  abbrev pub Follows : Option CronJob → Trace → Type 0
  Follows none t = Unit
  Follows (some existing) t = IsReferred t

  -- The backup with other finalizers and another status.
  abbrev pub version : List String → ResticBackupStatus → ResticBackup
  version finalizers status = record backup {
    meta = record backup.meta { finalizers = finalizers };
    status = status;
  }

  -- The status that a run writes at these times, by whether the cron job was there before.
  abbrev pub written :
      Env → Option CronJob → List String → ResticBackupStatus → ℕ → ℕ → ResticBackupStatus
  written e none finalizers status marked_at written_at =
      (configured_backup e (repository_ready e marked_at (version finalizers status))
        written_at).status
  written e (some existing) finalizers status marked_at written_at =
      (configured_backup e
        (referring (repository_ready e marked_at (version finalizers status))
          (record { name = (cron_job_key backup).name; namespace = backup.meta.namespace }))
        written_at).status

  -- What a run that found this cron job and this status leaves.
  pub record Leaves (e : Env) (before : Option CronJob) (status : ResticBackupStatus) (t : Trace)
      : Type 0 where
    pub scheduled : IsScheduled t
    pub follows : Follows before t
    pub finalizers : List String
    pub marked_at : ℕ
    pub written_at : ℕ
    pub wrote : backup_status backup t ≡ written e before finalizers status marked_at written_at

  -- The backup in hand, of which the spec and the name are those of the start.
  record Held (before : Option CronJob) (status : ResticBackupStatus) (b : ResticBackup) (t : Trace)
      : Type 0 where
    finalizers : List String
    same : b ≡ version finalizers status
    ready : IsReady repository t
    there : cron_job_of backup t ≡ before

latest-is_its_cron_job :
    (backup : ResticBackup) (sent job : CronJob) (before : Option CronJob) (b : Bool)
    → is_its_cron_job backup sent ≡ b
    → (if b then some sent else before) ≡ some job
    → (before ≡ some job → is_its_cron_job backup job ≡ true)
    → is_its_cron_job backup job ≡ true
latest-is_its_cron_job backup sent job before true its h earlier = cc
latest-is_its_cron_job backup sent job before false its h earlier = earlier h

-- What is kept as the cron job of the backup has its name and namespace.
pub cron_job_of-is_its_cron_job :
    (backup : ResticBackup) (t : Trace) (job : CronJob)
    → cron_job_of backup t ≡ some job
    → is_its_cron_job backup job ≡ true
unfolding cron_job_of
cron_job_of-is_its_cron_job backup [] job h = cc
cron_job_of-is_its_cron_job backup (create_cron_job sent ∷ t) job h =
    latest-is_its_cron_job backup sent job (cron_job_of backup t) _ refl h
      (cron_job_of-is_its_cron_job backup t job)
cron_job_of-is_its_cron_job backup (update_cron_job sent ∷ t) job h =
    latest-is_its_cron_job backup sent job (cron_job_of backup t) _ refl h
      (cron_job_of-is_its_cron_job backup t job)
cron_job_of-is_its_cron_job backup (_ ∷ t) job h = cron_job_of-is_its_cron_job backup t job h
