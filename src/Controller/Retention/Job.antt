-- ===== src/Controller/Retention/Job.antt =====
-- internal/controller/globalretentionpolicy_controller.go: `buildCronJob`.
use restic_backup_operator.Base.{String, ◌<>◌, none, List, [], ◌∷◌, pos}
use restic_backup_operator.Api.Repository.{ResticRepository}
use restic_backup_operator.Api.Retention.{GlobalRetentionPolicy}
use restic_backup_operator.Api.Workload.{CronJob, PodTemplate, forbid_concurrent}
use restic_backup_operator.Controller.Pods.{
  credential_env, default_pod_security, container_security, default_image, configured,
}
use restic_backup_operator.Controller.Retention.Script.{build_retention_script}

policy_labels : GlobalRetentionPolicy → List (String × String)
policy_labels policy =
    ("app.kubernetes.io/name", "restic-backup-operator")
    ∷ (("app.kubernetes.io/component", "retention")
        ∷ ("backup.resticbackup.io/retentionpolicy", policy.meta.name)
        ∷ [])

unfoldable pub retention_pod : GlobalRetentionPolicy → ResticRepository → PodTemplate
unfolding credential_env default_pod_security container_security policy_labels
    build_retention_script
retention_pod policy repository = record {
  labels = policy_labels policy;
  restart_policy = "Never";
  security_context = default_pod_security;
  containers =
      record {
        name = "restic";
        image = default_image;
        image_pull_policy = "IfNotPresent";
        command = "/bin/sh" ∷ "-c" ∷ [];
        args = build_retention_script policy ∷ [];
        env = credential_env repository;
        volume_mounts = [];
        security_context = container_security;
        resources = none;
      }
      ∷ [];
  volumes = [];
  node_selector = none;
  tolerations = none;
  affinity = none;
  service_account_name = "";
}

unfoldable pub build_retention_cron_job : GlobalRetentionPolicy → ResticRepository → CronJob
unfolding retention_pod policy_labels
build_retention_cron_job policy repository = record {
  meta = record {
    name = "globalretention-" <> policy.meta.name;
    namespace = policy.meta.namespace;
    generation = pos 0;
    deletion_timestamp = none;
    finalizers = [];
    labels =
        ("app.kubernetes.io/name", "restic-backup-operator")
        ∷ (("app.kubernetes.io/component", "retention")
            ∷ (("app.kubernetes.io/managed-by", "restic-backup-operator")
                ∷ ("backup.resticbackup.io/retentionpolicy", policy.meta.name)
                ∷ []));
    owner_references = [];
  };
  spec = record {
    schedule = policy.spec.schedule;
    time_zone = none;
    suspend = policy.spec.suspend;
    concurrency_policy = forbid_concurrent;
    successful_jobs_history_limit =
        configured policy.spec.job_config (λ c. c.successful_jobs_history_limit) (pos 3);
    failed_jobs_history_limit =
        configured policy.spec.job_config (λ c. c.failed_jobs_history_limit) (pos 3);
    job_labels = policy_labels policy;
    job = record {
      backoff_limit = configured policy.spec.job_config (λ c. c.backoff_limit) (pos 0);
      active_deadline_seconds =
          configured policy.spec.job_config (λ c. c.active_deadline_seconds) (pos 7200);
      template = retention_pod policy repository;
    };
  };
}
