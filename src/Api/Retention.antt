-- ===== src/Api/Retention.antt =====
-- api/v1alpha1/globalretentionpolicy_types.go
use restic_backup_operator.Base.{ℕ, String, Bool, Option, List, ℤ}
use restic_backup_operator.Conditions.{Condition}
use restic_backup_operator.Api.Meta.{ObjectMeta}
use restic_backup_operator.Api.Shared.{
  CrossNamespaceObjectReference, ObjectReference, RetentionPolicy, NtfyConfig, JobConfiguration,
}

pub record RetentionSelector : Type 0 where
  pub tags : List String
  pub hostname : String

pub record RetentionPolicyEntry : Type 0 where
  pub selector : RetentionSelector
  pub retention : RetentionPolicy

pub record EmailNotificationConfig : Type 0 where
  pub enabled : Bool
  pub smtp_server : String
  pub from : String
  pub to : String
  pub subject : String

pub record GlobalRetentionNotificationConfig : Type 0 where
  pub email : Option EmailNotificationConfig
  pub ntfy : Option NtfyConfig

pub record GlobalRetentionPolicySpec : Type 0 where
  pub repository_ref : CrossNamespaceObjectReference
  pub schedule : String
  pub policies : List RetentionPolicyEntry
  pub prune : Bool
  pub notifications : Option GlobalRetentionNotificationConfig
  pub job_config : Option JobConfiguration
  pub suspend : Bool

pub record GlobalRetentionPolicyStatus : Type 0 where
  pub conditions : List Condition
  pub last_run : Option ℕ
  pub last_run_result : String
  pub last_run_duration : String
  pub repository_size_before : String
  pub repository_size_after : String
  pub snapshots_removed : ℤ
  pub next_run : Option ℕ
  pub cron_job_ref : Option ObjectReference
  pub observed_generation : ℤ

pub record GlobalRetentionPolicy : Type 0 where
  pub meta : ObjectMeta
  pub spec : GlobalRetentionPolicySpec
  pub status : GlobalRetentionPolicyStatus
