-- ===== src/Restic/Types.antt =====
-- internal/restic/types.go: credentials, options and results. Durations are in nanoseconds.
use restic_backup_operator.Base.{ℕ, String, Bool, List, ℤ}

pub record Credentials : Type 0 where
  pub repository : String
  pub password : String
  pub aws_access_key_id : String
  pub aws_secret_access_key : String
  pub cache_dir : String

pub record Snapshot : Type 0 where
  pub id : String
  pub short_id : String
  pub time : ℕ
  pub hostname : String
  pub username : String
  pub tree : String
  pub paths : List String
  pub tags : List String
  pub parent : String

pub record RepoStats : Type 0 where
  pub total_size : ℕ
  pub total_file_count : ℕ
  pub snapshot_count : ℕ

pub record BackupResult : Type 0 where
  pub snapshot_id : String
  pub files_new : ℤ
  pub files_changed : ℤ
  pub files_unmodified : ℤ
  pub dirs_new : ℤ
  pub dirs_changed : ℤ
  pub dirs_unmodified : ℤ
  pub data_added : ℕ
  pub total_files : ℤ
  pub total_bytes : ℕ
  pub duration : ℕ

pub record RestoreResult : Type 0 where
  pub restored_files : ℤ
  pub restored_bytes : ℕ
  pub duration : ℕ

pub record ForgetResult : Type 0 where
  pub snapshots_removed : ℕ
  pub snapshots_kept : ℕ

pub record PruneResult : Type 0 where
  pub packs_deleted : ℕ
  pub bytes_freed : ℕ
  pub duration : ℕ

pub record CheckResult : Type 0 where
  pub success : Bool
  pub message : String
  pub duration : ℕ

pub record BackupOptions : Type 0 where
  pub paths : List String
  pub excludes : List String
  pub hostname : String
  pub tags : List String
  pub extra_args : List String

pub record RestoreOptions : Type 0 where
  pub snapshot_id : String
  pub target : String
  pub include : List String
  pub exclude : List String
  pub overwrite : Bool
  pub verify : Bool

pub record ForgetOptions : Type 0 where
  pub keep_last : ℤ
  pub keep_hourly : ℤ
  pub keep_daily : ℤ
  pub keep_weekly : ℤ
  pub keep_monthly : ℤ
  pub keep_yearly : ℤ
  pub tags : List String
  pub hostname : String
  pub group_by : List String
  pub prune : Bool
  pub dry_run : Bool

pub record StatsOptions : Type 0 where
  pub mode : String
