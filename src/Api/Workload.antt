-- ===== src/Api/Workload.antt =====
-- The jobs, cron jobs and pods that the operator builds (`batchv1`, `corev1`), with the fields that
-- it sets, and the secrets and job statuses that it reads.
use restic_backup_operator.Base.{String, Bool, Option, List, ℤ}
use restic_backup_operator.Api.Meta.{ObjectMeta, Raw}
use restic_backup_operator.Api.Shared.{PodSecurityContext}

-- `corev1.EnvVar`: a value, or a key of a secret that may be declared optional.
pub data EnvValue : Type 0 where
  value : String → EnvValue
  secret_key : (secret key : String) → (optional : Bool) → EnvValue

pub record EnvVar : Type 0 where
  pub name : String
  pub source : EnvValue

pub record VolumeMount : Type 0 where
  pub name : String
  pub mount_path : String
  pub read_only : Bool

-- `corev1.Volume` with a `PersistentVolumeClaimVolumeSource`.
pub record Volume : Type 0 where
  pub name : String
  pub claim_name : String
  pub read_only : Bool

-- `corev1.SecurityContext`
pub record SecurityContext : Type 0 where
  pub allow_privilege_escalation : Bool
  pub read_only_root_filesystem : Bool
  pub run_as_non_root : Bool
  pub drop : List String

pub record Container : Type 0 where
  pub name : String
  pub image : String
  pub image_pull_policy : String
  pub command : List String
  pub args : List String
  pub env : List EnvVar
  pub volume_mounts : List VolumeMount
  pub security_context : SecurityContext
  pub resources : Option Raw

-- `corev1.PodTemplateSpec` with its `PodSpec`
pub record PodTemplate : Type 0 where
  pub labels : List (String × String)
  pub restart_policy : String
  pub security_context : PodSecurityContext
  pub containers : List Container
  pub volumes : List Volume
  pub node_selector : Option (List (String × String))
  pub tolerations : Option (List Raw)
  pub affinity : Option Raw
  pub service_account_name : String

-- `batchv1.JobSpec`
pub record JobSpec : Type 0 where
  pub backoff_limit : ℤ
  pub active_deadline_seconds : ℤ
  pub template : PodTemplate

-- `batchv1.Job`, with the counts of its status.
pub record Job : Type 0 where
  pub meta : ObjectMeta
  pub spec : JobSpec
  pub succeeded : ℤ
  pub failed : ℤ

pub data ConcurrencyPolicy : Type 0 where
  allow_concurrent forbid_concurrent replace_concurrent : ConcurrencyPolicy

-- `batchv1.CronJobSpec`
pub record CronJobSpec : Type 0 where
  pub schedule : String
  pub time_zone : Option String
  pub suspend : Bool
  pub concurrency_policy : ConcurrencyPolicy
  pub successful_jobs_history_limit : ℤ
  pub failed_jobs_history_limit : ℤ
  pub job_labels : List (String × String)
  pub job : JobSpec

pub record CronJob : Type 0 where
  pub meta : ObjectMeta
  pub spec : CronJobSpec

-- `corev1.Secret`; a value is the text of its bytes.
pub record Secret : Type 0 where
  pub entries : List (String × String)
