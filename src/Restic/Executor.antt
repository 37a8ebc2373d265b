-- ===== src/Restic/Executor.antt =====
-- internal/restic/executor.go: the operations of `DefaultExecutor`. What lies outside the program
-- is the record `System`: running a process, the clock, and the decoders of restic's JSON output.
pub mod SummaryLine
pub mod Arguments
pub mod Laws
use restic_backup_operator.Base.{
  ℕ, ◌+◌, ◌-◌, String, ◌<>◌, Bool, true, false, not, ◌&&◌, ◌||◌, Option, none, some, List, [], ◌∷◌,
  ◌++◌, ◌==◌, if◌then◌else◌, contains, length, pos, non_empty, trim_space, split_lines, is_some,
}
use restic_backup_operator.Restic.Types.{
  Credentials, Snapshot, RepoStats, BackupResult, RestoreResult, ForgetResult, PruneResult,
  CheckResult, BackupOptions, RestoreOptions, ForgetOptions, StatsOptions,
}
use restic_backup_operator.Restic.Executor.SummaryLine.{Summary, no_summary, parse_summary}
use restic_backup_operator.Restic.Executor.Arguments.{
  init_args, unlock_args, check_args, stats_args, snapshots_args, backup_args, restore_args,
  forget_args, prune_args,
}

-- An error is the text of its message.
pub data Result {ℓ} (A : Type ℓ) : Type ℓ where
  ok : A → Result A
  err : String → Result A

-- What a finished process leaves: its two streams, and the error of `cmd.Run()` if it failed.
pub record Ran : Type 0 where
  pub stdout : String
  pub stderr : String
  pub error : Option String

-- One group of the output of `restic forget --json`, by the ids of its snapshots.
pub record ForgetGroup : Type 0 where
  pub remove : List String
  pub keep : List String

-- `execute binary env args` runs a process in a world, which it may change. A decoder answers
-- `none` where `json.Unmarshal` fails; that of a summary line works on the struct it is given, and
-- returns it with the fields that were set and whether it succeeded.
pub record System : Type 1 where
  pub World : Type 0
  pub execute : String → List String → List String → World → Ran × World
  pub now : World → ℕ
  pub decode_stats : String → Option (ℕ × ℕ)
  pub decode_snapshots : String → Option (List Snapshot)
  pub decode_summary : String → Summary → Summary × Bool
  pub decode_forget : String → Option (List ForgetGroup)

unfoldable pub build_env : Credentials → List String
build_env creds =
    (("RESTIC_REPOSITORY=" <> creds.repository) ∷ ("RESTIC_PASSWORD=" <> creds.password) ∷ [])
    ++ ((if non_empty creds.aws_access_key_id
          then ("AWS_ACCESS_KEY_ID=" <> creds.aws_access_key_id) ∷ []
          else [])
        ++ ((if non_empty creds.aws_secret_access_key
              then ("AWS_SECRET_ACCESS_KEY=" <> creds.aws_secret_access_key) ∷ []
              else [])
            ++ (if non_empty creds.cache_dir
                then ("RESTIC_CACHE_DIR=" <> creds.cache_dir) ∷ []
                else [])))

-- The binary of `NewExecutorWithBinary`; `NewExecutor` is the case of an empty text.
unfoldable pub executor_binary : String → String
executor_binary binary = if binary == "" then "restic" else binary

-- The two loops over the groups: what each step adds, from the sums so far.
unfoldable pub count_groups : ForgetResult → List ForgetGroup → ForgetResult
count_groups r [] = r
count_groups r (g ∷ gs) =
    count_groups
      (record {
        snapshots_removed = r.snapshots_removed + length g.remove;
        snapshots_kept = r.snapshots_kept + length g.keep;
      })
      gs

abbrev pub no_snapshots : ForgetResult
no_snapshots = record { snapshots_removed = 0; snapshots_kept = 0 }

-- The messages by which `Init` tells a repository that is there already.
unfoldable pub already_initialized : String → Bool
already_initialized stderr =
    contains stderr "already exists"
    || (contains stderr "repository master key and config already initialized"
        || contains stderr "config file already exists")

module _ (sys : System) (binary : String) where
  open sys use {World, execute, now, decode_stats, decode_snapshots, decode_summary, decode_forget}

  abbrev pub run : Credentials → List String → World → Ran × World
  run creds args w = execute binary (build_env creds) args w

  unfoldable pub init : Credentials → World → Option String × World
  init creds w =
      let (ran, w') = run creds init_args w in
      elim (ran.error) [
        | none ↦ (none, w')
        | some e ↦
            if already_initialized ran.stderr
            then (none, w')
            else (some ("failed to initialize repository: " <> e), w')
      ]

  unfoldable pub unlock : Credentials → World → Option String × World
  unlock creds w =
      let (ran, w') = run creds unlock_args w in
      elim (ran.error) [
        | none ↦ (none, w')
        | some e ↦ (some ("failed to unlock repository: " <> e), w')
      ]

  -- The result comes back beside the error too.
  unfoldable pub check : Credentials → World → CheckResult × Option String × World
  check creds w =
      let (ran, w') = run creds check_args w in
      (
        record {
          success = not (is_some ran.error);
          message = ran.stderr;
          duration = now w' - now w;
        },
        elim (ran.error) [
          | none ↦ none
          | some e ↦ some ("repository check failed: " <> (e <> (": " <> ran.stderr)))
        ],
        w',
      )

  unfoldable pub snapshots : Credentials → World → Result (List Snapshot) × World
  snapshots creds w =
      let (ran, w') = run creds snapshots_args w in
      elim (ran.error) [
        | some e ↦
            if contains e "no snapshots"
            then (ok [], w')
            else (err ("failed to list snapshots: " <> e), w')
        | none ↦ elim (decode_snapshots ran.stdout) [
          | some found ↦ (ok found, w')
          | none ↦
              if ran.stdout == "" || ran.stdout == "null"
              then (ok [], w')
              else (err "failed to parse snapshots output", w')
        ]
      ]

  stats_of : ℕ → ℕ → Result (List Snapshot) × World → Result RepoStats × World
  stats_of size files (err e, w) = (err ("failed to get snapshot count: " <> e), w)
  stats_of size files (ok found, w) = (
    ok (record { total_size = size; total_file_count = files; snapshot_count = length found }),
    w,
  )

  unfoldable pub stats : Credentials → StatsOptions → World → Result RepoStats × World
  unfolding stats_of snapshots
  stats creds opts w =
      let (ran, w') = run creds (stats_args opts) w in
      elim (ran.error) [
        | some e ↦ (err ("failed to get repository stats: " <> e), w')
        | none ↦ elim (decode_stats ran.stdout) [
          | none ↦ (err "failed to parse stats output", w')
          | some (size, files) ↦ stats_of size files (snapshots creds w')
        ]
      ]

  -- What `Backup` returns for the lines of the output.
  backup_result : List String → ℕ → Result BackupResult
  backup_result [] duration = err "no output from backup command"
  backup_result (line ∷ lines) duration =
      let s = parse_summary decode_summary (line ∷ lines) in
      ok (record {
        snapshot_id = s.snapshot_id;
        files_new = s.files_new;
        files_changed = s.files_changed;
        files_unmodified = s.files_unmodified;
        dirs_new = s.dirs_new;
        dirs_changed = s.dirs_changed;
        dirs_unmodified = s.dirs_unmodified;
        data_added = s.data_added;
        total_files = s.total_files_processed;
        total_bytes = s.total_bytes_processed;
        duration = duration;
      })

  unfoldable pub backup : Credentials → BackupOptions → World → Result BackupResult × World
  unfolding backup_result
  backup creds opts w =
      let (ran, w') = run creds (backup_args opts) w in
      elim (ran.error) [
        | some e ↦ (err ("backup failed: " <> e), w')
        | none ↦ (backup_result (split_lines (trim_space ran.stdout)) (now w' - now w), w')
      ]

  unfoldable pub restore : Credentials → RestoreOptions → World → Result RestoreResult × World
  restore creds opts w =
      let (ran, w') = run creds (restore_args opts) w in
      elim (ran.error) [
        | some e ↦ (err ("restore failed: " <> e), w')
        | none ↦ (
          ok (record { restored_files = pos 0; restored_bytes = 0; duration = now w' - now w }),
          w',
        )
      ]

  unfoldable pub forget : Credentials → ForgetOptions → World → Result ForgetResult × World
  unfolding count_groups
  forget creds opts w =
      let (ran, w') = run creds (forget_args opts) w in
      elim (ran.error) [
        | some e ↦ (err ("forget failed: " <> e), w')
        | none ↦ elim (decode_forget ran.stdout) [
          | none ↦ (ok no_snapshots, w')
          | some groups ↦ (ok (count_groups no_snapshots groups), w')
        ]
      ]

  unfoldable pub prune : Credentials → World → Result PruneResult × World
  prune creds w =
      let (ran, w') = run creds prune_args w in
      elim (ran.error) [
        | some e ↦ (err ("prune failed: " <> e), w')
        | none ↦ (ok (record { packs_deleted = 0; bytes_freed = 0; duration = now w' - now w }), w')
      ]
