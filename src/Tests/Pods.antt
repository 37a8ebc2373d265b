-- ===== src/Tests/Pods.antt =====
-- The pods of the sample backup, restore and policy. The repository is in the namespace of none of them.
use restic_backup_operator.Base.{[], ◌∷◌, ◌≡◌, All}
use restic_backup_operator.Api.Repository.{ResticRepository}
use restic_backup_operator.Cluster.{get, secrets}
use restic_backup_operator.Controller.Repository.{get_credentials}
use restic_backup_operator.Controller.Backup.Job.{build_backup_cron_job, backup_pod}
use restic_backup_operator.Controller.Restore.Job.{build_restore_job, restore_pod}
use restic_backup_operator.Controller.Retention.Job.{build_retention_cron_job, retention_pod}
use restic_backup_operator.Controller.Secrets
use restic_backup_operator.Controller.Secrets.{pod_secrets, checked_secret, IsCheckedIn}
use restic_backup_operator.Controller.Hardening
use restic_backup_operator.Controller.Hardening.{IsHardened, IsReadOnly}
use restic_backup_operator.Tests.Samples.{repository, backup, restore, policy}
use restic_backup_operator.Tests.Services.{services}

abbrev elsewhere : ResticRepository
elsewhere = record repository { meta = record repository.meta { namespace = "backup-system" } }

get_credentials-pod_secrets_example :
    let scheduled = build_backup_cron_job backup elsewhere in
    let restoring = build_restore_job restore backup elsewhere "latest" in
    let retaining = build_retention_cron_job policy elsewhere in
    ((get_credentials services elsewhere []).1 ≡ get secrets (checked_secret elsewhere) ∷ [])
    × All
        (IsCheckedIn elsewhere backup.meta.namespace)
        (pod_secrets scheduled.meta.namespace scheduled.spec.job.template)
    × All
        (IsCheckedIn elsewhere restore.meta.namespace)
        (pod_secrets restoring.meta.namespace restoring.spec.template)
    × All
        (IsCheckedIn elsewhere policy.meta.namespace)
        (pod_secrets retaining.meta.namespace retaining.spec.job.template)
get_credentials-pod_secrets_example =
    Secrets.get_credentials-pod_secrets services [] elsewhere backup restore policy "latest"

pods-IsHardened_example :
    (IsHardened elsewhere.spec.credentials_secret_ref.name (backup_pod backup elsewhere)
      × IsReadOnly (backup_pod backup elsewhere))
    × IsHardened elsewhere.spec.credentials_secret_ref.name
        (restore_pod restore backup elsewhere "latest")
    × IsHardened elsewhere.spec.credentials_secret_ref.name (retention_pod policy elsewhere)
pods-IsHardened_example = Hardening.pods-IsHardened elsewhere backup restore policy "latest"
