-- ===== src/Controller/Pods.antt =====
-- The parts of a pod that the three builders of internal/controller write alike: the environment of
-- restic, the two security contexts, and the defaults of a job.
use restic_backup_operator.Base.{
  String, Bool, true, false, Option, none, some, List, [], ◌∷◌, pos, non_empty, if◌then◌else◌,
}
use restic_backup_operator.Api.Shared.{JobConfiguration, PodSecurityContext}
use restic_backup_operator.Api.Repository.{ResticRepository}
use restic_backup_operator.Api.Backup.{ResticConfig}
use restic_backup_operator.Api.Workload.{EnvVar, value, secret_key, SecurityContext}

abbrev secret_var : String → Bool → String → EnvVar
secret_var secret optional name = record { name = name; source = secret_key secret name optional }

unfoldable pub credential_env : ResticRepository → List EnvVar
credential_env repository =
    let secret = repository.spec.credentials_secret_ref.name in
    record { name = "RESTIC_REPOSITORY"; source = value repository.spec.repository_url }
    ∷ (secret_var secret false "RESTIC_PASSWORD"
        ∷ secret_var secret true "AWS_ACCESS_KEY_ID"
        ∷ secret_var secret true "AWS_SECRET_ACCESS_KEY"
        ∷ [])

unfoldable pub default_pod_security : PodSecurityContext
default_pod_security = record {
  run_as_non_root = some true;
  run_as_user = some (pos 65532);
  fs_group = some (pos 65532);
  seccomp_profile = some "RuntimeDefault";
  rest = none;
}

unfoldable pub container_security : SecurityContext
container_security = record {
  allow_privilege_escalation = false;
  read_only_root_filesystem = false;
  run_as_non_root = true;
  drop = "ALL" ∷ [];
}

abbrev pub default_image : String
default_image = "ghcr.io/restic/restic:0.18.0"

-- `if p != nil { x = *p }`
abbrev pub or_default {ℓ} : {A : Type ℓ} → Option A → A → A
or_default none d = d
or_default (some a) d = a

-- The image of the backup, if it names one.
unfoldable pub restic_image : Option ResticConfig → String
restic_image none = default_image
restic_image (some c) = if non_empty c.image then c.image else default_image

-- `for _, x := range xs { cmd = append(cmd, flag, x) }`
unfoldable pub each_flag : String → List String → List String
each_flag flag [] = []
each_flag flag (x ∷ xs) = flag ∷ (x ∷ each_flag flag xs)

-- The field of an optional configuration, or a default.
abbrev pub configured {ℓ} :
    {A : Type ℓ} → Option JobConfiguration → (JobConfiguration → Option A) → A → A
configured none field default = default
configured (some c) field default = or_default (field c) default
