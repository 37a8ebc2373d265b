-- ===== src/Api/Backup.antt =====
-- api/v1alpha1/resticbackup_types.go
use restic_backup_operator.Base.{ℕ, String, Bool, Option, List, ℤ}
use restic_backup_operator.Conditions.{Condition}
use restic_backup_operator.Api.Meta.{ObjectMeta, Raw}
use restic_backup_operator.Api.Shared.{
  CrossNamespaceObjectReference, ObjectReference, RetentionPolicy, NotificationConfig, BackupHooks,
  JobConfiguration,
}

pub record PvcSource : Type 0 where
  pub claim_name : String
  pub paths : List String
  pub excludes : List String

pub record PodVolumeBackupSource : Type 0 where
  pub selector : Raw
  pub volume_name : String
  pub container : String

pub record CustomSource : Type 0 where
  pub pod_template : Raw
  pub backup_path : String

pub record BackupSource : Type 0 where
  pub pvc : Option PvcSource
  pub pod_volume_backup : Option PodVolumeBackupSource
  pub custom_source : Option CustomSource

pub record ResticConfig : Type 0 where
  pub hostname : String
  pub tags : List String
  pub extra_args : List String
  pub image : String

pub record RetentionConfig : Type 0 where
  pub enabled : Bool
  pub policy : Option RetentionPolicy
  pub prune : Bool
  pub group_by : List String

pub record BackupRunStatus : Type 0 where
  pub start_time : Option ℕ
  pub completion_time : Option ℕ
  pub duration : String
  pub snapshot_id : String
  pub result : String

pub record BackupStatistics : Type 0 where
  pub total_backups : ℤ
  pub successful_backups : ℤ
  pub failed_backups : ℤ
  pub last_backup_size : String
  pub last_backup_files : ℤ

pub record ResticBackupSpec : Type 0 where
  pub repository_ref : CrossNamespaceObjectReference
  pub schedule : String
  pub timezone : String
  pub source : BackupSource
  pub restic : Option ResticConfig
  pub hooks : Option BackupHooks
  pub retention : Option RetentionConfig
  pub notifications : Option NotificationConfig
  pub job_config : Option JobConfiguration
  pub suspend : Bool

pub record ResticBackupStatus : Type 0 where
  pub conditions : List Condition
  pub last_backup : Option BackupRunStatus
  pub last_successful_backup : Option ℕ
  pub next_backup : Option ℕ
  pub statistics : Option BackupStatistics
  pub last_retention_run : Option ℕ
  pub snapshots_after_retention : ℤ
  pub cron_job_ref : Option ObjectReference
  pub observed_generation : ℤ

pub record ResticBackup : Type 0 where
  pub meta : ObjectMeta
  pub spec : ResticBackupSpec
  pub status : ResticBackupStatus
