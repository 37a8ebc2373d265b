-- ===== src/Controller/Hardening.antt =====
-- internal/controller: the rights of the pods that the reconcilers of backups, restores and retention
-- policies build.
use restic_backup_operator.Base.{
  String, Bool, true, false, Option, none, some, List, [], ◌∷◌, ◌==◌, ◌||◌, ◌≡◌, refl, All,
}
use restic_backup_operator.Api.Repository.{ResticRepository}
use restic_backup_operator.Api.Backup.{ResticBackup, PvcSource}
use restic_backup_operator.Api.Restore.{ResticRestore}
use restic_backup_operator.Api.Retention.{GlobalRetentionPolicy}
use restic_backup_operator.Api.Workload.{
  EnvVar, value, secret_key, PodTemplate, Volume, SecurityContext,
}
use restic_backup_operator.Controller.Pods.{credential_env, container_security}
use restic_backup_operator.Controller.Backup.Job.{build_pod_spec, backup_pod, volumes_of, mounts_of}
use restic_backup_operator.Controller.Restore.Job.{restore_pod}
use restic_backup_operator.Controller.Retention.Job.{retention_pod}

abbrev pub is_declared : String → List Volume → Bool
is_declared name [] = false
is_declared name (v ∷ vs) = v.name == name || is_declared name vs

-- A value that stands in the pod itself is the address of the repository; all else is a reference to
-- this secret.
abbrev pub KeepsSecret : String → EnvVar → Type 0
KeepsSecret secret v = elim (v.source) [
  | value _ ↦ v.name ≡ "RESTIC_REPOSITORY"
  | secret_key s _ _ ↦ s ≡ secret
]

abbrev pub IsConfined : SecurityContext → Type 0
IsConfined c =
    (c.allow_privilege_escalation ≡ false) × (c.run_as_non_root ≡ true) × (c.drop ≡ "ALL" ∷ [])

-- No container can gain rights, shows a secret or mounts what the pod does not declare.
abbrev pub IsHardened : String → PodTemplate → Type 0
IsHardened secret pod =
    (pod.restart_policy ≡ "Never")
    × All
        (λ c.
          IsConfined c.security_context
          × All (KeepsSecret secret) c.env
          × All (λ m. is_declared m.name pod.volumes ≡ true) c.volume_mounts)
        pod.containers

-- The data that are backed up cannot be changed.
abbrev pub IsReadOnly : PodTemplate → Type 0
IsReadOnly pod =
    All (λ v. v.read_only ≡ true) pod.volumes
    × All (λ c. All (λ m. m.read_only ≡ true) c.volume_mounts) pod.containers

container_security-IsConfined : IsConfined container_security
unfolding container_security
container_security-IsConfined = (refl, refl, refl)

credential_env-KeepsSecret :
    (repository : ResticRepository)
    → All (KeepsSecret repository.spec.credentials_secret_ref.name) (credential_env repository)
unfolding credential_env
credential_env-KeepsSecret repository = (refl, (refl, (refl, (refl, tt))))

mounts_of-declared :
    (o : Option PvcSource) → All (λ m. is_declared m.name (volumes_of o) ≡ true) (mounts_of o)
unfolding volumes_of mounts_of
mounts_of-declared none = tt
mounts_of-declared (some p) = (refl, tt)

volumes_of-read_only : (o : Option PvcSource) → All (λ v. v.read_only ≡ true) (volumes_of o)
unfolding volumes_of
volumes_of-read_only none = tt
volumes_of-read_only (some p) = (refl, tt)

mounts_of-read_only : (o : Option PvcSource) → All (λ m. m.read_only ≡ true) (mounts_of o)
unfolding mounts_of
mounts_of-read_only none = tt
mounts_of-read_only (some p) = (refl, tt)

-- The pods of a backup, a restore and a retention policy are not restarted; their containers run
-- without root, cannot gain rights and drop all capabilities, have no credential in plain text but
-- references to the secret of the repository, and mount only declared volumes; what a backup mounts it
-- mounts for reading only.
pub pods-IsHardened :
    (repository : ResticRepository) (backup : ResticBackup) (restore : ResticRestore)
    (policy : GlobalRetentionPolicy) (snapshot : String)
    → let secret = repository.spec.credentials_secret_ref.name in
      (IsHardened secret (backup_pod backup repository) × IsReadOnly (backup_pod backup repository))
      × IsHardened secret (restore_pod restore backup repository snapshot)
      × IsHardened secret (retention_pod policy repository)
unfolding backup_pod build_pod_spec restore_pod retention_pod
pods-IsHardened repository backup restore policy snapshot =
    let confined = container_security-IsConfined in
    let kept = credential_env-KeepsSecret repository in
    let source = backup.spec.source.pvc in
    (
      (
        (refl, ((confined, kept, mounts_of-declared source), tt)),
        (volumes_of-read_only source, (mounts_of-read_only source, tt)),
      ),
      (refl, ((confined, kept, (refl, tt)), tt)),
      (refl, ((confined, kept, tt), tt)),
    )
