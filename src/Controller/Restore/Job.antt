-- ===== src/Controller/Restore/Job.antt =====
-- internal/controller/resticrestore_controller.go: `buildRestoreJob`.
use restic_backup_operator.Base.{
  String, ◌<>◌, false, Option, none, some, List, [], ◌∷◌, ◌++◌, ℤ, pos, if◌then◌else◌,
}
use restic_backup_operator.Api.Shared.{JobConfiguration}
use restic_backup_operator.Api.Repository.{ResticRepository}
use restic_backup_operator.Api.Backup.{ResticBackup}
use restic_backup_operator.Api.Restore.{ResticRestore, RestoreTarget, RestoreOptions}
use restic_backup_operator.Api.Workload.{Job, PodTemplate}
use restic_backup_operator.Controller.Pods.{
  credential_env, default_pod_security, container_security, restic_image, each_flag, or_default,
}

unfoldable pub verify_flag : Option RestoreOptions → List String
verify_flag none = []
verify_flag (some o) = if o.verify then "--verify" ∷ [] else []

unfoldable pub restore_command : ResticRestore → String → List String
unfolding each_flag verify_flag
restore_command restore snapshot =
    ("restic" ∷ "restore" ∷ snapshot ∷ "--target" ∷ "/restore" ∷ [])
    ++ (each_flag "--include" restore.spec.include_paths
        ++ (each_flag "--exclude" restore.spec.exclude_paths ++ verify_flag restore.spec.options))

-- The claim that the job mounts; without a target its name is empty.
unfoldable pub target_claim : RestoreTarget → String
target_claim target = elim (target.pvc) [
  | some p ↦ p.claim_name
  | none ↦ elim (target.new_pvc) [ some n ↦ n.name | none ↦ "" ]
]

backoff_of : Option JobConfiguration → ℤ
backoff_of none = pos 0
backoff_of (some c) = or_default c.backoff_limit (pos 0)

deadline_of : Option JobConfiguration → ℤ
deadline_of none = pos 3600
deadline_of (some c) = or_default c.active_deadline_seconds (pos 3600)

pod_labels : ResticRestore → List (String × String)
pod_labels restore =
    ("app.kubernetes.io/name", "restic-backup-operator")
    ∷ (("app.kubernetes.io/component", "restore")
        ∷ ("backup.resticbackup.io/restore", restore.meta.name)
        ∷ [])

unfoldable pub restore_pod : ResticRestore → ResticBackup → ResticRepository → String → PodTemplate
unfolding restore_command restic_image target_claim credential_env default_pod_security
    container_security pod_labels
restore_pod restore backup repository snapshot = record {
  labels = pod_labels restore;
  restart_policy = "Never";
  security_context = default_pod_security;
  containers =
      record {
        name = "restic";
        image = restic_image backup.spec.restic;
        image_pull_policy = "IfNotPresent";
        command = restore_command restore snapshot;
        args = [];
        env = credential_env repository;
        volume_mounts =
            record { name = "restore-target"; mount_path = "/restore"; read_only = false } ∷ [];
        security_context = container_security;
        resources = none;
      }
      ∷ [];
  volumes =
      record {
        name = "restore-target";
        claim_name = target_claim restore.spec.target;
        read_only = false;
      }
      ∷ [];
  node_selector = none;
  tolerations = none;
  affinity = none;
  service_account_name = "";
}

unfoldable pub build_restore_job : ResticRestore → ResticBackup → ResticRepository → String → Job
unfolding restore_pod backoff_of deadline_of
build_restore_job restore backup repository snapshot = record {
  meta = record {
    name = "resticrestore-" <> restore.meta.name;
    namespace = restore.meta.namespace;
    generation = pos 0;
    deletion_timestamp = none;
    finalizers = [];
    labels =
        ("app.kubernetes.io/name", "restic-backup-operator")
        ∷ (("app.kubernetes.io/component", "restore")
            ∷ (("app.kubernetes.io/managed-by", "restic-backup-operator")
                ∷ ("backup.resticbackup.io/restore", restore.meta.name)
                ∷ []));
    owner_references = [];
  };
  spec = record {
    backoff_limit = backoff_of restore.spec.job_config;
    active_deadline_seconds = deadline_of restore.spec.job_config;
    template = restore_pod restore backup repository snapshot;
  };
  succeeded = pos 0;
  failed = pos 0;
}
