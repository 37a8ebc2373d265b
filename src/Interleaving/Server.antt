-- ===== src/Interleaving/Server.antt =====
-- A server that keeps what is written of a repository, of a backup and of its cron job.
use restic_backup_operator.Base.{String, true, Option, none, some, List, ◌≡◌, ℤ}
use restic_backup_operator.Restic.Types.{Credentials}
use restic_backup_operator.Api.Meta.{NamespacedName, ObjectMeta}
use restic_backup_operator.Api.Repository.{ResticRepository}
use restic_backup_operator.Api.Backup.{ResticBackup}
use restic_backup_operator.Api.Workload.{CronJob, Secret}
use restic_backup_operator.Cluster.{Trace, Env, ApiError, Reply, accepted, refused}
use restic_backup_operator.Controller.Repository.{secret_value}
use restic_backup_operator.Controller.Repository.Success.{Accessible, StatsFit}
use restic_backup_operator.Controller.Scheduling.Footprint.{NamesKept}
use restic_backup_operator.Interleaving.{
  key_of, held_repository, backup_finalizers, backup_status, held_backup, cron_job_key, cron_job_of,
}

abbrev pub answer : ApiError → Option CronJob → Reply CronJob
answer absent none = refused absent
answer absent (some job) = accepted job

-- The server answers with what it keeps, and accepts the writes; the secret holds a password, restic
-- reaches the repository, and the sizes that it tells have 64 bits.
pub record Serves (e : Env) (configured : ℤ) (repository : ResticRepository) (backup : ResticBackup)
    : Type 0 where
  pub on_get_repository :
      (t : Trace)
      → e.get_repository t (key_of repository.meta) ≡ accepted (held_repository repository t)
  pub on_put_repository_status :
      (t : Trace) (r : ResticRepository)
      → e.put_repository_status t r ≡ accepted (record repository { status = r.status })
  pub on_get_backup :
      (t : Trace) → e.get_backup t (key_of backup.meta) ≡ accepted (held_backup backup t)
  pub on_put_backup :
      (t : Trace) (b : ResticBackup)
      → e.put_backup t b
        ≡ accepted (record backup {
          meta = record backup.meta { finalizers = b.meta.finalizers };
          status = backup_status backup t;
        })
  pub on_put_backup_status :
      (t : Trace) (b : ResticBackup)
      → e.put_backup_status t b
        ≡ accepted (record backup {
          meta = record backup.meta { finalizers = backup_finalizers backup t };
          status = b.status;
        })
  pub absent : ApiError
  pub is_absent : absent.not_found ≡ true
  pub on_get_cron_job :
      (t : Trace) → e.get_cron_job t (cron_job_key backup) ≡ answer absent (cron_job_of backup t)
  pub names_kept : NamesKept e
  pub on_create : (t : Trace) (job : CronJob) → (j : CronJob) × (e.post_cron_job t job ≡ accepted j)
  pub on_update : (t : Trace) (job : CronJob) → (j : CronJob) × (e.put_cron_job t job ≡ accepted j)
  pub on_owner :
      (owner meta : ObjectMeta)
      → (refs : List (String × String)) × (e.controller_reference owner meta ≡ accepted refs)
  pub on_secret :
      (t : Trace) (name : NamespacedName)
      → (secret : Secret) × (password : String) × (e.get_secret t name ≡ accepted secret)
        × (secret_value secret.entries "RESTIC_PASSWORD" ≡ some password)
  pub on_restic : (t : Trace) (creds : Credentials) → Accessible e configured creds t
  pub on_sizes : (creds : Credentials) → StatsFit e creds
