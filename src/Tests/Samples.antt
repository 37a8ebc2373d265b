-- ===== src/Tests/Samples.antt =====
-- Objects of a cluster: a repository, a backup to it, a restore of it and a retention policy for
-- it.
use restic_backup_operator.Base.{String, true, false, none, some, [], ◌∷◌, pos, negsuc}
use restic_backup_operator.Conditions.{Condition, condition_true}
use restic_backup_operator.Restic.Types.{Credentials, BackupOptions, RestoreOptions, ForgetOptions}
use restic_backup_operator.Api.Meta.{NamespacedName, ObjectMeta}
use restic_backup_operator.Api.Shared.{CrossNamespaceObjectReference}
use restic_backup_operator.Api.Repository.{ResticRepository}
use restic_backup_operator.Api.Backup.{ResticBackup}
use restic_backup_operator.Api.Restore.{ResticRestore, pending}
use restic_backup_operator.Api.Retention.{GlobalRetentionPolicy, RetentionPolicyEntry}
use restic_backup_operator.Api.Workload.{Secret}

abbrev named : String → ObjectMeta
named name = record {
  name = name;
  namespace = "storage";
  generation = pos 2;
  deletion_timestamp = none;
  finalizers = [];
  labels = [];
  owner_references = [];
}

abbrev pub key : String → NamespacedName
key name = record { name = name; namespace = "storage" }

abbrev refer : String → CrossNamespaceObjectReference
refer name = record { name = name; namespace = "" }

abbrev pub ready : Condition
ready = record {
  type = "Ready";
  status = condition_true;
  reason = "RepositoryReady";
  message = "Repository is accessible";
  last_transition_time = 5;
}

abbrev pub repository : ResticRepository
repository = record {
  meta = named "vault";
  spec = record {
    repository_url = "s3:https://minio/backups";
    credentials_secret_ref = record { name = "vault-secret"; key = "" };
    integrity_check = none;
    cache = none;
  };
  status = record {
    conditions = ready ∷ [];
    last_integrity_check = none;
    last_integrity_check_result = "";
    statistics = none;
    observed_generation = pos 1;
  };
}

abbrev pub secret : Secret
secret = record { entries = ("RESTIC_PASSWORD", "swordfish") ∷ [] }

abbrev pub backup : ResticBackup
backup = record {
  meta = named "photos";
  spec = record {
    repository_ref = refer "vault";
    schedule = "0 2 * * *";
    timezone = "Europe/Berlin";
    source = record {
      pvc = some (record {
        claim_name = "photos-claim";
        paths = "/album" ∷ [];
        excludes = "*.tmp" ∷ "cache" ∷ [];
      });
      pod_volume_backup = none;
      custom_source = none;
    };
    restic = some (record {
      hostname = "nas";
      tags = "daily" ∷ "photos" ∷ [];
      extra_args = "--one-file-system" ∷ [];
      image = "";
    });
    hooks = none;
    retention = none;
    notifications = none;
    job_config = none;
    suspend = false;
  };
  status = record {
    conditions = [];
    last_backup = none;
    last_successful_backup = none;
    next_backup = none;
    statistics = none;
    last_retention_run = none;
    snapshots_after_retention = pos 0;
    cron_job_ref = none;
    observed_generation = pos 0;
  };
}

abbrev pub restore : ResticRestore
restore = record {
  meta = named "photos-back";
  spec = record {
    backup_ref = refer "photos";
    snapshot_id = "";
    snapshot_selector = none;
    target = record {
      pvc = some (record { claim_name = "photos-claim"; path = "" });
      new_pvc = none;
    };
    include_paths = "/album/2024" ∷ [];
    exclude_paths = "*.tmp" ∷ [];
    options = some (record { overwrite = false; verify = true });
    hooks = none;
    job_config = none;
  };
  status = record {
    conditions = [];
    phase = pending;
    start_time = none;
    completion_time = none;
    restored_snapshot = "";
    restored_files = pos 0;
    restored_size = "";
    job_ref = none;
    observed_generation = pos 0;
  };
}

abbrev pub entry : RetentionPolicyEntry
entry = record {
  selector = record { tags = "daily" ∷ []; hostname = "nas" };
  retention = record {
    keep_last = some (pos 3);
    keep_hourly = none;
    keep_daily = some (pos 7);
    keep_weekly = some (pos 0);
    keep_monthly = none;
    keep_yearly = none;
  };
}

abbrev pub policy : GlobalRetentionPolicy
policy = record {
  meta = named "keep-a-week";
  spec = record {
    repository_ref = refer "vault";
    schedule = "0 4 * * 0";
    policies = entry ∷ [];
    prune = true;
    notifications = none;
    job_config = none;
    suspend = false;
  };
  status = record {
    conditions = [];
    last_run = none;
    last_run_result = "";
    last_run_duration = "";
    repository_size_before = "";
    repository_size_after = "";
    snapshots_removed = pos 0;
    next_run = none;
    cron_job_ref = none;
    observed_generation = pos 0;
  };
}

abbrev pub credentials : Credentials
credentials = record {
  repository = "s3:https://minio/backups";
  password = "swordfish";
  aws_access_key_id = "";
  aws_secret_access_key = "";
  cache_dir = "";
}

abbrev pub backup_options : BackupOptions
backup_options = record {
  paths = "/data" ∷ [];
  excludes = "--json" ∷ [];
  hostname = "nas";
  tags = "daily" ∷ "" ∷ [];
  extra_args = "--one-file-system" ∷ [];
}

abbrev pub restore_options : RestoreOptions
restore_options = record {
  snapshot_id = "latest";
  target = "/restore";
  include = "/album" ∷ [];
  exclude = [];
  overwrite = true;
  verify = true;
}

abbrev pub forget_options : ForgetOptions
forget_options = record {
  keep_last = pos 3;
  keep_hourly = pos 0;
  keep_daily = pos 7;
  keep_weekly = pos 0;
  keep_monthly = pos 0;
  keep_yearly = negsuc 0;
  tags = "daily" ∷ [];
  hostname = "nas";
  group_by = "host" ∷ "paths" ∷ [];
  prune = true;
  dry_run = false;
}
