-- ===== src/Restic/Executor/Laws/Arguments.antt =====
-- The arguments of `Backup`, `Restore` and `Forget`, as a parser of long options reads them.
use mathlib.Core.List.{append_assoc, append-nil}
use restic_backup_operator.Base.{
  String, Bool, true, false, List, [], ◌∷◌, ◌++◌, ◌≡◌, refl, ap, sym, ◌∙◌, join, non_empty,
  if◌then◌else◌,
}
use restic_backup_operator.Restic.Types.{BackupOptions, RestoreOptions, ForgetOptions}
use restic_backup_operator.Restic.Command.{
  CommandBuilder, new_command, with_json, with_arg, with_group_by, with_prune,
}
use restic_backup_operator.Restic.Command.Words.{Word, plain, takes_value, words}
use restic_backup_operator.Restic.Command.Laws.{
  Says, Says-nothing, Says-new_command, Says-with_json, Says-with_host, Says-with_tags,
  Says-with_excludes, Says-with_includes, Says-with_target, Says-with_arg, Says-with_keep_last,
  Says-with_keep_hourly, Says-with_keep_daily, Says-with_keep_weekly, Says-with_keep_monthly,
  Says-with_keep_yearly, Says-with_group_by, Says-with_prune, Says-with_dry_run, text_word,
  number_word, text_words,
}
use restic_backup_operator.Restic.Executor.Arguments.{
  backup_flags, backup_args, restore_flags, restore_args, forget_rules, forget_grouped, forget_args,
}

-- A command that takes JSON output.
Says-json_command :
    (cmd : String)
    → takes_value cmd ≡ false
    → Says (with_json (new_command cmd)) (plain cmd ∷ plain "--json" ∷ [])
Says-json_command cmd h = Says-with_json (Says-new_command cmd h)

abbrev pub backup_words : BackupOptions → List Word
backup_words o =
    (((plain "backup" ∷ plain "--json" ∷ []) ++ text_word "--host" o.hostname)
      ++ text_words "--tag" o.tags)
    ++ text_words "--exclude" o.excludes

Says-backup_flags : (o : BackupOptions) → Says (backup_flags o) (backup_words o)
unfolding takes_value
Says-backup_flags o =
    Says-with_excludes o.excludes
      (Says-with_tags o.tags (Says-with_host o.hostname (Says-json_command "backup" refl)))

-- restic reads the arguments of `Backup` as the command, `--json`, the host if it is set, each tag
-- and each exclude pattern that is not empty, in order and whatever their texts, and then the
-- extra arguments and the paths as they are.
pub words-backup_args :
    (o : BackupOptions) → words (backup_args o) ≡ backup_words o ++ words (o.extra_args ++ o.paths)
unfolding backup_args
words-backup_args o = rw append_assoc ((Says-backup_flags o).reads (o.extra_args ++ o.paths))

abbrev pub forget_rule_words : ForgetOptions → List Word
forget_rule_words o =
    ((((((((plain "forget" ∷ plain "--json" ∷ []) ++ text_word "--host" o.hostname)
                ++ text_words "--tag" o.tags)
              ++ number_word "--keep-last" o.keep_last)
            ++ number_word "--keep-hourly" o.keep_hourly)
          ++ number_word "--keep-daily" o.keep_daily)
        ++ number_word "--keep-weekly" o.keep_weekly)
      ++ number_word "--keep-monthly" o.keep_monthly)
    ++ number_word "--keep-yearly" o.keep_yearly

Says-forget_rules : (o : ForgetOptions) → Says (forget_rules o) (forget_rule_words o)
unfolding takes_value
Says-forget_rules o = Says-with_keep_yearly o.keep_yearly (
    Says-with_keep_monthly o.keep_monthly (
      Says-with_keep_weekly o.keep_weekly (
        Says-with_keep_daily o.keep_daily (
          Says-with_keep_hourly o.keep_hourly (
            Says-with_keep_last o.keep_last (
              Says-with_tags o.tags
                (Says-with_host o.hostname (Says-json_command "forget" refl))))))))

abbrev pub group_words : List String → List Word
group_words [] = []
group_words (g ∷ gs) = text_word "--group-by" (join "," (g ∷ gs))

abbrev pub switch_word : Bool → String → List Word
switch_word b flag = if b then plain flag ∷ [] else []

Says-forget_grouped :
    (o : ForgetOptions) → Says (forget_grouped o) (forget_rule_words o ++ group_words o.group_by)
Says-forget_grouped o = by_groups o.group_by
  where
    by_groups :
        (gs : List String)
        → Says
            (elim gs [
              | [] ↦ forget_rules o
              | g ∷ rest ↦ with_group_by (forget_rules o) (join "," (g ∷ rest))
            ])
            (forget_rule_words o ++ group_words gs)
    by_groups [] = Says-nothing (Says-forget_rules o)
    by_groups (g ∷ gs) = Says-with_group_by (join "," (g ∷ gs)) (Says-forget_rules o)

Says-switch :
    (b : Bool) (flag : String) {cmd more : CommandBuilder} {ws : List Word}
    → Says cmd ws
    → Says more (ws ++ (plain flag ∷ []))
    → Says (if b then more else cmd) (ws ++ switch_word b flag)
Says-switch true flag s t = t
Says-switch false flag s t = Says-nothing s

Says-build : {b : CommandBuilder} {ws : List Word} → Says b ws → words b.args ≡ ws
unfolding words
Says-build {b} {ws} s = ap words (sym (append-nil b.args)) ∙ (s.reads [] ∙ append-nil ws)

-- restic reads the arguments of `Forget` as the command, `--json`, the host if it is set, each tag
-- that is not empty, one rule for each number to keep that is positive, the grouping if one is
-- given, `--prune` and `--dry-run` if they are asked for, and nothing else, whatever the texts are.
pub words-forget_args :
    (o : ForgetOptions)
    → words (forget_args o)
      ≡ ((forget_rule_words o ++ group_words o.group_by) ++ switch_word o.prune "--prune")
        ++ switch_word o.dry_run "--dry-run"
unfolding forget_args
words-forget_args o =
    Says-build (Says-switch o.dry_run "--dry-run" pruned (Says-with_dry_run pruned))
  where
    grouped : Says (forget_grouped o) (forget_rule_words o ++ group_words o.group_by)
    grouped = Says-forget_grouped o

    pruned :
        Says
          (if o.prune then with_prune (forget_grouped o) else forget_grouped o)
          ((forget_rule_words o ++ group_words o.group_by) ++ switch_word o.prune "--prune")
    pruned = Says-switch o.prune "--prune" grouped (Says-with_prune grouped)

abbrev pub restore_words : RestoreOptions → List Word
restore_words o =
    (((plain "restore" ∷ []) ++ text_word "--target" o.target) ++ text_words "--include" o.include)
    ++ text_words "--exclude" o.exclude

Says-restore_flags : (o : RestoreOptions) → Says (restore_flags o) (restore_words o)
unfolding takes_value
Says-restore_flags o =
    Says-with_excludes o.exclude
      (Says-with_includes o.include (Says-with_target o.target (Says-new_command "restore" refl)))

-- Where the snapshot's id is not itself an option that takes a value, restic reads the arguments of
-- `Restore` as the command, the target if it is set, each include and exclude pattern that is not
-- empty, in order, the snapshot if its id is not empty, and `--verify` if it is asked for.
pub words-restore_args :
    (o : RestoreOptions)
    → takes_value o.snapshot_id ≡ false
    → words (restore_args o)
      ≡ (restore_words o ++ (if non_empty o.snapshot_id then plain o.snapshot_id ∷ [] else []))
        ++ switch_word o.verify "--verify"
unfolding restore_args takes_value
words-restore_args o h = Says-build (Says-switch o.verify "--verify" named verified)
  where
    named :
        Says
          (with_arg (restore_flags o) o.snapshot_id)
          (restore_words o ++ (if non_empty o.snapshot_id then plain o.snapshot_id ∷ [] else []))
    named = Says-with_arg o.snapshot_id h (Says-restore_flags o)

    verified : Says (with_arg (with_arg (restore_flags o) o.snapshot_id) "--verify") (
        (restore_words o ++ (if non_empty o.snapshot_id then plain o.snapshot_id ∷ [] else []))
        ++ (plain "--verify" ∷ []))
    verified = Says-with_arg "--verify" refl named
