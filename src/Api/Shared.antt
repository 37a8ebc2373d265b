-- ===== src/Api/Shared.antt =====
-- api/v1alpha1/common_types.go. A pointer is an `Option`.
use restic_backup_operator.Base.{ℕ, String, Bool, Option, List, ℤ}
use restic_backup_operator.Api.Meta.{Raw}

abbrev pub condition_ready : String
condition_ready = "Ready"

abbrev pub condition_repository_ready : String
condition_repository_ready = "RepositoryReady"

pub record SecretKeySelector : Type 0 where
  pub name : String
  pub key : String

pub record CrossNamespaceObjectReference : Type 0 where
  pub name : String
  pub namespace : String

pub record ObjectReference : Type 0 where
  pub name : String
  pub namespace : String

pub record RetentionPolicy : Type 0 where
  pub keep_last : Option ℤ
  pub keep_hourly : Option ℤ
  pub keep_daily : Option ℤ
  pub keep_weekly : Option ℤ
  pub keep_monthly : Option ℤ
  pub keep_yearly : Option ℤ

pub record PushgatewayConfig : Type 0 where
  pub enabled : Bool
  pub url : String
  pub job_name : String

pub record NtfyCredentialsSecretRef : Type 0 where
  pub name : String
  pub namespace : String

pub record NtfyConfig : Type 0 where
  pub enabled : Bool
  pub server_url : String
  pub topic : String
  pub credentials_secret_ref : Option NtfyCredentialsSecretRef
  pub only_on_failure : Bool
  pub priority : ℤ
  pub tags : List String

pub record NotificationConfig : Type 0 where
  pub pushgateway : Option PushgatewayConfig
  pub ntfy : Option NtfyConfig

pub record ExecHook : Type 0 where
  pub pod_selector : Raw
  pub container : String
  pub command : List String
  pub timeout : Option ℕ

pub record JobHook : Type 0 where
  pub pod_template : Raw

pub record Hook : Type 0 where
  pub exec : Option ExecHook
  pub job : Option JobHook

pub record BackupHooks : Type 0 where
  pub pre_backup : Option Hook
  pub post_backup : Option Hook
  pub on_failure : Option Hook

pub record RestoreHooks : Type 0 where
  pub pre_restore : Option Hook
  pub post_restore : Option Hook

-- `corev1.PodSecurityContext`, with the fields that this program sets; a context that a user gives
-- is passed on with the rest of its fields.
pub record PodSecurityContext : Type 0 where
  pub run_as_non_root : Option Bool
  pub run_as_user : Option ℤ
  pub fs_group : Option ℤ
  pub seccomp_profile : Option String
  pub rest : Option Raw

pub record JobConfiguration : Type 0 where
  pub concurrency_policy : String
  pub successful_jobs_history_limit : Option ℤ
  pub failed_jobs_history_limit : Option ℤ
  pub active_deadline_seconds : Option ℤ
  pub backoff_limit : Option ℤ
  pub security_context : Option PodSecurityContext
  pub resources : Option Raw
  pub node_selector : Option (List (String × String))
  pub tolerations : Option (List Raw)
  pub affinity : Option Raw
  pub service_account_name : String
