-- ===== src/Restic/Executor/Laws/Results.antt =====
-- The results of the operations of the executor, errors included.
use mathlib.Core.List.{reverse, reverse-append, reverse-cons, append_assoc}
use restic_backup_operator.Base.{
  ◌+◌, String, ◌<>◌, Bool, true, false, ◌&&◌, none, some, List, [], ◌∷◌, ◌++◌, ◌≡◌, ◌↔◌, ◌⊎◌, arith,
  ◌==◌, eq_iff, length, length-append, All, All-append, split_lines_cons, trim_space,
}
use restic_backup_operator.Restic.Types.{
  Credentials, Snapshot, RepoStats, BackupOptions, ForgetOptions, StatsOptions, ForgetResult,
}
use restic_backup_operator.Restic.Executor.{
  ok, err, System, ForgetGroup, already_initialized, count_groups, run, init, check, snapshots,
  stats, backup, forget, no_snapshots,
}
use restic_backup_operator.Restic.Executor.Arguments.{
  init_args, check_args, stats_args, backup_args, forget_args,
}
use restic_backup_operator.Restic.Executor.SummaryLine.{
  Summary, find_summary, parse_summary, no_summary,
}

module _ (sys : System) (binary : String) (creds : Credentials) (w : sys.World) where
  -- `Init` succeeds exactly when `restic init` does or its error output names a repository that is
  -- there already; it runs that one command and no other.
  pub init-eq-none_iff :
      let (ran, w') = run sys binary creds init_args w in
      (((init sys binary creds w).0 ≡ none)
        ↔ ((ran.error ≡ none) ⊎ (already_initialized ran.stderr ≡ true)))
      × ((init sys binary creds w).1 ≡ w')
  unfolding init
  init-eq-none_iff = ground arith

  -- `Check` reports success exactly when it returns no error, which is when `restic check` ends
  -- well.
  pub check-success_iff :
      let (result, error, _) = check sys binary creds w in
      let (ran, _) = run sys binary creds check_args w in
      ((result.success ≡ true) ↔ (error ≡ none)) × ((error ≡ none) ↔ (ran.error ≡ none))
  unfolding check
  check-success_iff = ground arith

  -- The statistics that `Stats` returns are those that its first command printed, with the number
  -- of the snapshots that a second command listed; it returns none unless both commands gave them.
  pub stats-eq-ok :
      (opts : StatsOptions) {r : RepoStats}
      → (stats sys binary creds opts w).0 ≡ ok r
      → let (ran, w') = run sys binary creds (stats_args opts) w in
        (ran.error ≡ none)
        × (sys.decode_stats ran.stdout ≡ some (r.total_size, r.total_file_count))
        × ((found : List Snapshot) × ((snapshots sys binary creds w').0 ≡ ok found)
            × (r.snapshot_count ≡ length found))
  unfolding stats
  stats-eq-ok opts h = ground arith

  -- `Backup` fails exactly when `restic backup` does: the output always has a line, so the error
  -- for an empty output is never returned, and a missing summary line is no error.
  pub backup-eq-err_iff :
      (opts : BackupOptions) (e : String)
      → let (ran, _) = run sys binary creds (backup_args opts) w in
        ((backup sys binary creds opts w).0 ≡ err e)
        ↔ ((cause : String) × (ran.error ≡ some cause) × (e ≡ "backup failed: " <> cause))
  unfolding backup
  backup-eq-err_iff opts e =
      let (x, xs, lines) =
        split_lines_cons (trim_space (run sys binary creds (backup_args opts) w).0.stdout) in
      ground arith

abbrev pub removed_ids : List ForgetGroup → List String
removed_ids [] = []
removed_ids (g ∷ gs) = g.remove ++ removed_ids gs

abbrev pub kept_ids : List ForgetGroup → List String
kept_ids [] = []
kept_ids (g ∷ gs) = g.keep ++ kept_ids gs

count_groups_lem :
    (r : ForgetResult) (gs : List ForgetGroup)
    → ((count_groups r gs).snapshots_removed ≡ r.snapshots_removed + length (removed_ids gs))
      × ((count_groups r gs).snapshots_kept ≡ r.snapshots_kept + length (kept_ids gs))
unfolding count_groups
count_groups_lem r [] = omega arith
count_groups_lem r (g ∷ gs) = ground (
  arith,
  length-append g.remove (removed_ids gs),
  length-append g.keep (kept_ids gs),
  count_groups_lem
      (record {
        snapshots_removed = r.snapshots_removed + length g.remove;
        snapshots_kept = r.snapshots_kept + length g.keep;
      })
      gs,
)

-- The counts that `Forget` returns are the numbers of all removed and all kept snapshots that the
-- output lists, over its groups.
forget_counts :
    (sys : System) (binary : String) (creds : Credentials) (opts : ForgetOptions) (w : sys.World)
    {r : ForgetResult} {groups : List ForgetGroup}
    → (forget sys binary creds opts w).0 ≡ ok r
    → sys.decode_forget (run sys binary creds (forget_args opts) w).0.stdout ≡ some groups
    → (r.snapshots_removed ≡ length (removed_ids groups))
      × (r.snapshots_kept ≡ length (kept_ids groups))
unfolding forget
forget_counts sys binary creds opts w {groups = groups} h d =
    ground (arith, count_groups_lem no_snapshots groups)

module _ (decode : String → Summary → Summary × Bool) where
  -- A line that sets the whole struct, as the summary line does.
  abbrev pub IsSummary : Summary → String → Type 0
  IsSummary s line =
      (before : Summary) → (decode line before ≡ (s, true)) × (s.message_type ≡ "summary")

  -- A line of another type, or none that can be decoded.
  abbrev pub IsOther : String → Type 0
  IsOther line =
      (before : Summary)
      → ((decode line before).1 && ((decode line before).0.message_type == "summary")) ≡ false

  find_summary_lem :
      (after before : List String) (line : String) (s t : Summary)
      → All IsOther after
      → IsSummary s line
      → find_summary decode (after ++ line ∷ before) t ≡ s
  unfolding find_summary
  find_summary_lem [] before line s t others found =
      ground (arith, found t, eq_iff s.message_type "summary")
  find_summary_lem (x ∷ after) before line s t others found =
      ground (arith, others.0 t, find_summary_lem after before line s (decode x t).0 others.1 found)

  All-reverse : (xs : List String) → All IsOther xs → All IsOther (reverse xs)
  All-reverse [] h = tt
  All-reverse (x ∷ xs) h =
      rw reverse-cons (All-append IsOther (reverse xs) (x ∷ []) (All-reverse xs h.1) (h.0, tt))

  -- Whatever lines precede it, and whatever they set, the last summary line of the output is the
  -- one that counts.
  parse_summary_last :
      (before after : List String) (line : String) (s : Summary)
      → All IsOther after
      → IsSummary s line
      → parse_summary decode (before ++ line ∷ after) ≡ s
  unfolding parse_summary
  parse_summary_last before after line s others found =
      rw
        (
          reverse-append before (line ∷ after),
          reverse-cons line after,
          append_assoc (reverse after),
        )
        (find_summary_lem (reverse after) (reverse before) line s no_summary
          (All-reverse after others) found)
