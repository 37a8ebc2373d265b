-- ===== src/Api/Repository.antt =====
-- api/v1alpha1/resticrepository_types.go
use restic_backup_operator.Base.{ℕ, String, Bool, Option, List, ℤ}
use restic_backup_operator.Conditions.{Condition}
use restic_backup_operator.Api.Meta.{ObjectMeta}
use restic_backup_operator.Api.Shared.{SecretKeySelector}

pub record IntegrityCheckConfig : Type 0 where
  pub enabled : Bool
  pub schedule : String

pub record CacheConfig : Type 0 where
  pub enabled : Bool
  pub size : String
  pub storage_class_name : String

pub record RepositoryStatistics : Type 0 where
  pub total_size : String
  pub total_file_count : ℤ
  pub snapshot_count : ℤ

pub record ResticRepositorySpec : Type 0 where
  pub repository_url : String
  pub credentials_secret_ref : SecretKeySelector
  pub integrity_check : Option IntegrityCheckConfig
  pub cache : Option CacheConfig

pub record ResticRepositoryStatus : Type 0 where
  pub conditions : List Condition
  pub last_integrity_check : Option ℕ
  pub last_integrity_check_result : String
  pub statistics : Option RepositoryStatistics
  pub observed_generation : ℤ

pub record ResticRepository : Type 0 where
  pub meta : ObjectMeta
  pub spec : ResticRepositorySpec
  pub status : ResticRepositoryStatus
