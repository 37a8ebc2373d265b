-- ===== src/Api/Restore.antt =====
-- api/v1alpha1/resticrestore_types.go
use restic_backup_operator.Base.{ℕ, String, Bool, Option, List, ℤ}
use restic_backup_operator.Conditions.{Condition}
use restic_backup_operator.Api.Meta.{ObjectMeta}
use restic_backup_operator.Api.Shared.{
  CrossNamespaceObjectReference, ObjectReference, RestoreHooks, JobConfiguration,
}

pub record SnapshotSelector : Type 0 where
  pub latest : Bool
  pub tags : List String
  pub hostname : String
  pub before : Option ℕ

pub record PvcTarget : Type 0 where
  pub claim_name : String
  pub path : String

pub record NewPvcTarget : Type 0 where
  pub name : String
  pub storage_class_name : String
  pub access_modes : List String
  pub size : String

pub record RestoreTarget : Type 0 where
  pub pvc : Option PvcTarget
  pub new_pvc : Option NewPvcTarget

pub record RestoreOptions : Type 0 where
  pub overwrite : Bool
  pub verify : Bool

-- `RestorePhase`: the empty text is `unset`, and a text that is none of the constants is `other`.
pub data RestorePhase : Type 0 where
  unset pending in_progress completed failed : RestorePhase
  other : String → RestorePhase

pub record ResticRestoreSpec : Type 0 where
  pub backup_ref : CrossNamespaceObjectReference
  pub snapshot_id : String
  pub snapshot_selector : Option SnapshotSelector
  pub target : RestoreTarget
  pub include_paths : List String
  pub exclude_paths : List String
  pub options : Option RestoreOptions
  pub hooks : Option RestoreHooks
  pub job_config : Option JobConfiguration

pub record ResticRestoreStatus : Type 0 where
  pub conditions : List Condition
  pub phase : RestorePhase
  pub start_time : Option ℕ
  pub completion_time : Option ℕ
  pub restored_snapshot : String
  pub restored_files : ℤ
  pub restored_size : String
  pub job_ref : Option ObjectReference
  pub observed_generation : ℤ

pub record ResticRestore : Type 0 where
  pub meta : ObjectMeta
  pub spec : ResticRestoreSpec
  pub status : ResticRestoreStatus
