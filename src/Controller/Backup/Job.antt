-- ===== src/Controller/Backup/Job.antt =====
-- internal/controller/resticbackup_controller.go: `buildCronJob`, `buildBackupCommand` and
-- `buildPodSpec`.
use restic_backup_operator.Base.{
  String, ◌<>◌, true, Option, none, some, List, [], ◌∷◌, ◌++◌, ◌==◌, ◌||◌, pos, non_empty,
  if◌then◌else◌,
}
use restic_backup_operator.Api.Shared.{JobConfiguration}
use restic_backup_operator.Api.Repository.{ResticRepository}
use restic_backup_operator.Api.Backup.{ResticBackup, ResticConfig, PvcSource}
use restic_backup_operator.Api.Workload.{
  CronJob, PodTemplate, Volume, VolumeMount, ConcurrencyPolicy, allow_concurrent, forbid_concurrent,
  replace_concurrent,
}
use restic_backup_operator.Controller.Pods.{
  credential_env, default_pod_security, container_security, restic_image, each_flag, configured,
}

abbrev passed_on {ℓ} :
    {A : Type ℓ} → Option JobConfiguration → (JobConfiguration → Option A) → Option A
passed_on none field = none
passed_on (some c) field = field c

hostname_of : String → Option ResticConfig → String
hostname_of name none = name
hostname_of name (some c) = if non_empty c.hostname then c.hostname else name

tags_of : Option ResticConfig → List String
tags_of none = []
tags_of (some c) = c.tags

unfoldable pub extra_args_of : Option ResticConfig → List String
extra_args_of none = []
extra_args_of (some c) = c.extra_args

unfoldable pub excludes_of : Option PvcSource → List String
excludes_of none = []
excludes_of (some p) = p.excludes

-- `for _, path := range paths { cmd = append(cmd, "/backup"+path) }`
unfoldable pub under_backup : List String → List String
under_backup [] = []
under_backup (path ∷ paths) = ("/backup" <> path) ∷ under_backup paths

unfoldable paths_or_root : List String → List String
unfolding under_backup
paths_or_root [] = "/backup" ∷ []
paths_or_root (path ∷ paths) = under_backup (path ∷ paths)

unfoldable pub paths_of : Option PvcSource → List String
unfolding paths_or_root
paths_of none = []
paths_of (some p) = paths_or_root p.paths

unfoldable pub build_backup_command : ResticBackup → String → List String → List String
unfolding each_flag excludes_of extra_args_of paths_of
build_backup_command backup hostname tags =
    ("restic" ∷ "backup" ∷ "--host" ∷ hostname ∷ [])
    ++ (each_flag "--tag" tags
        ++ (each_flag "--exclude" (excludes_of backup.spec.source.pvc)
            ++ (extra_args_of backup.spec.restic ++ paths_of backup.spec.source.pvc)))

unfoldable pub volumes_of : Option PvcSource → List Volume
volumes_of none = []
volumes_of (some p) =
    record { name = "backup-source"; claim_name = p.claim_name; read_only = true } ∷ []

unfoldable pub mounts_of : Option PvcSource → List VolumeMount
mounts_of none = []
mounts_of (some p) =
    record { name = "backup-source"; mount_path = "/backup"; read_only = true } ∷ []

service_account_of : Option JobConfiguration → String
service_account_of none = ""
service_account_of (some c) = c.service_account_name

backup_labels : ResticBackup → List (String × String)
backup_labels backup =
    ("app.kubernetes.io/name", "restic-backup-operator")
    ∷ (("app.kubernetes.io/component", "backup")
        ∷ ("backup.resticbackup.io/backup", backup.meta.name)
        ∷ [])

unfoldable pub build_pod_spec : ResticBackup → ResticRepository → String → List String → PodTemplate
unfolding credential_env default_pod_security container_security volumes_of mounts_of
    service_account_of backup_labels
build_pod_spec backup repository image command = record {
  labels = backup_labels backup;
  restart_policy = "Never";
  security_context =
      configured backup.spec.job_config (λ c. c.security_context) default_pod_security;
  containers =
      record {
        name = "restic";
        image = image;
        image_pull_policy = "IfNotPresent";
        command = command;
        args = [];
        env = credential_env repository;
        volume_mounts = mounts_of backup.spec.source.pvc;
        security_context = container_security;
        resources = passed_on backup.spec.job_config (λ c. c.resources);
      }
      ∷ [];
  volumes = volumes_of backup.spec.source.pvc;
  node_selector = passed_on backup.spec.job_config (λ c. c.node_selector);
  tolerations = passed_on backup.spec.job_config (λ c. c.tolerations);
  affinity = passed_on backup.spec.job_config (λ c. c.affinity);
  service_account_name = service_account_of backup.spec.job_config;
}

-- An unknown policy, "Forbid" among them, forbids.
concurrency_of : Option JobConfiguration → ConcurrencyPolicy
concurrency_of none = forbid_concurrent
concurrency_of (some c) =
    if c.concurrency_policy == "Allow"
    then allow_concurrent
    else if c.concurrency_policy == "Replace"
    then replace_concurrent
    else forbid_concurrent

time_zone_of : String → Option String
time_zone_of zone = if zone == "" || zone == "UTC" then none else some zone

unfoldable pub backup_pod : ResticBackup → ResticRepository → PodTemplate
unfolding build_pod_spec build_backup_command hostname_of tags_of restic_image
backup_pod backup repository = build_pod_spec backup repository (restic_image backup.spec.restic) (
    build_backup_command backup (hostname_of backup.meta.name backup.spec.restic)
      (tags_of backup.spec.restic))

unfoldable pub build_backup_cron_job : ResticBackup → ResticRepository → CronJob
unfolding backup_pod concurrency_of time_zone_of backup_labels
build_backup_cron_job backup repository = record {
  meta = record {
    name = "resticbackup-" <> backup.meta.name;
    namespace = backup.meta.namespace;
    generation = pos 0;
    deletion_timestamp = none;
    finalizers = [];
    labels =
        ("app.kubernetes.io/name", "restic-backup-operator")
        ∷ (("app.kubernetes.io/component", "backup")
            ∷ (("app.kubernetes.io/managed-by", "restic-backup-operator")
                ∷ ("backup.resticbackup.io/backup", backup.meta.name)
                ∷ []));
    owner_references = [];
  };
  spec = record {
    schedule = backup.spec.schedule;
    time_zone = time_zone_of backup.spec.timezone;
    suspend = backup.spec.suspend;
    concurrency_policy = concurrency_of backup.spec.job_config;
    successful_jobs_history_limit =
        configured backup.spec.job_config (λ c. c.successful_jobs_history_limit) (pos 3);
    failed_jobs_history_limit =
        configured backup.spec.job_config (λ c. c.failed_jobs_history_limit) (pos 3);
    job_labels = backup_labels backup;
    job = record {
      backoff_limit = configured backup.spec.job_config (λ c. c.backoff_limit) (pos 0);
      active_deadline_seconds =
          configured backup.spec.job_config (λ c. c.active_deadline_seconds) (pos 3600);
      template = backup_pod backup repository;
    };
  };
}
