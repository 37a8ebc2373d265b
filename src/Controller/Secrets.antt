-- ===== src/Controller/Secrets.antt =====
-- internal/controller: where the reconciler of repositories reads the credentials, and where the pods of
-- the three other reconcilers read them.
use restic_backup_operator.Base.{String, List, [], ◌∷◌, ◌++◌, ◌≡◌, ◌↔◌, refl, ap, All}
use restic_backup_operator.Api.Meta.{NamespacedName}
use restic_backup_operator.Api.Repository.{ResticRepository}
use restic_backup_operator.Api.Backup.{ResticBackup}
use restic_backup_operator.Api.Restore.{ResticRestore}
use restic_backup_operator.Api.Retention.{GlobalRetentionPolicy}
use restic_backup_operator.Api.Workload.{
  EnvVar, EnvValue, value, secret_key, Container, PodTemplate,
}
use restic_backup_operator.Cluster.{Trace, Env, get, secrets}
use restic_backup_operator.Controller.Pods.{credential_env}
use restic_backup_operator.Controller.Repository.{get_credentials}
use restic_backup_operator.Controller.Backup.Job.{build_backup_cron_job}
use restic_backup_operator.Controller.Restore.Job.{build_restore_job}
use restic_backup_operator.Controller.Retention.Job.{build_retention_cron_job}

-- A key of a secret is read in the namespace of the pod.
abbrev secret_read : String → EnvValue → List NamespacedName
secret_read namespace (value _) = []
secret_read namespace (secret_key secret _ _) = record { name = secret; namespace = namespace } ∷ []

abbrev env_secrets : String → List EnvVar → List NamespacedName
env_secrets namespace [] = []
env_secrets namespace (v ∷ vs) = secret_read namespace v.source ++ env_secrets namespace vs

abbrev container_secrets : String → List Container → List NamespacedName
container_secrets namespace [] = []
container_secrets namespace (c ∷ cs) = env_secrets namespace c.env ++ container_secrets namespace cs

-- The secrets that the pods of a job in a namespace read.
abbrev pub pod_secrets : String → PodTemplate → List NamespacedName
pod_secrets namespace pod = container_secrets namespace pod.containers

-- The secret that was found when the repository became Ready.
abbrev pub checked_secret : ResticRepository → NamespacedName
checked_secret repository = record {
  name = repository.spec.credentials_secret_ref.name;
  namespace = repository.meta.namespace;
}

-- It is this one exactly in the repository's own namespace.
abbrev pub IsCheckedIn : ResticRepository → String → NamespacedName → Type 0
IsCheckedIn repository namespace secret =
    (secret ≡ checked_secret repository) ↔ (namespace ≡ repository.meta.namespace)

credential_env-IsCheckedIn :
    (repository : ResticRepository) (namespace : String)
    → All (IsCheckedIn repository namespace) (env_secrets namespace (credential_env repository))
unfolding credential_env
credential_env-IsCheckedIn repository namespace =
    let here : IsCheckedIn repository namespace
        (record { name = repository.spec.credentials_secret_ref.name; namespace = namespace }) =
      ((λ same. ap (λ s. s.namespace) same), λ same. rw same refl) in
    (here, (here, (here, tt)))

-- The reconciler of repositories reads the secret of the credentials in the namespace of the
-- repository; each secret that a pod of a backup, a restore or a retention policy reads is this one
-- exactly if the backup, the restore or the policy is in the namespace of the repository.
pub get_credentials-pod_secrets :
    (e : Env) (t : Trace) (repository : ResticRepository) (backup : ResticBackup)
    (restore : ResticRestore) (policy : GlobalRetentionPolicy) (snapshot : String)
    → let scheduled = build_backup_cron_job backup repository in
      let restoring = build_restore_job restore backup repository snapshot in
      let retaining = build_retention_cron_job policy repository in
      ((get_credentials e repository t).1 ≡ get secrets (checked_secret repository) ∷ t)
      × All
          (IsCheckedIn repository backup.meta.namespace)
          (pod_secrets scheduled.meta.namespace scheduled.spec.job.template)
      × All
          (IsCheckedIn repository restore.meta.namespace)
          (pod_secrets restoring.meta.namespace restoring.spec.template)
      × All
          (IsCheckedIn repository policy.meta.namespace)
          (pod_secrets retaining.meta.namespace retaining.spec.job.template)
unfolding get_credentials build_backup_cron_job build_restore_job build_retention_cron_job
    credential_env
get_credentials-pod_secrets e t repository backup restore policy snapshot = (
  refl,
  credential_env-IsCheckedIn repository backup.meta.namespace,
  credential_env-IsCheckedIn repository restore.meta.namespace,
  credential_env-IsCheckedIn repository policy.meta.namespace,
)
