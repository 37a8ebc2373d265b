-- ===== src/Restic/Executor/SummaryLine.antt =====
-- internal/restic/executor.go: the search of `Backup` for the summary line of restic's output.
use restic_backup_operator.Base.{ℕ, String, Bool, true, false, ◌&&◌, List, [], ◌∷◌, ℤ, pos, ◌==◌}
use mathlib.Core.List.{reverse}

-- The struct that the lines are decoded into.
pub record Summary : Type 0 where
  pub message_type : String
  pub snapshot_id : String
  pub files_new : ℤ
  pub files_changed : ℤ
  pub files_unmodified : ℤ
  pub dirs_new : ℤ
  pub dirs_changed : ℤ
  pub dirs_unmodified : ℤ
  pub data_added : ℕ
  pub total_files_processed : ℤ
  pub total_bytes_processed : ℕ

-- The zero value of the struct.
abbrev pub no_summary : Summary
no_summary = record {
  message_type = "";
  snapshot_id = "";
  files_new = pos 0;
  files_changed = pos 0;
  files_unmodified = pos 0;
  dirs_new = pos 0;
  dirs_changed = pos 0;
  dirs_unmodified = pos 0;
  data_added = 0;
  total_files_processed = pos 0;
  total_bytes_processed = 0;
}

module _ (decode : String → Summary → Summary × Bool) where
  -- The loop, over the lines that are left, the last line of the output first. Each line is decoded
  -- into the same struct, which keeps what the lines before have set.
  unfoldable pub find_summary : List String → Summary → Summary
  find_summary [] s = s
  find_summary (line ∷ lines) s =
      let (s', decoded) = decode line s in
      let rest = find_summary lines s' in
      elim (decoded && s'.message_type == "summary") [ true ↦ s' | false ↦ rest ]

  unfoldable pub parse_summary : List String → Summary
  unfolding find_summary
  parse_summary lines = find_summary (reverse lines) no_summary
