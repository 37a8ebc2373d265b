-- ===== src/Controller/Commands.antt =====
-- The commands of the jobs (internal/controller) beside the argument lists of the command builder
-- (internal/restic/commands.go).
use mathlib.Core.List.{append_assoc, append-nil}
use restic_backup_operator.Base.{
  String, true, Option, none, some, List, [], ◌∷◌, ◌++◌, ◌==◌, ◌≡◌, refl, sym, ap, non_empty, All,
  if◌then◌else◌, Bool-cases, inl, inr,
}
use restic_backup_operator.Restic.Command.{
  CommandBuilder, add, build, new_command, with_tag, with_tags, with_host, with_exclude,
  with_excludes, with_include, with_includes, with_args, with_paths, with_arg, with_target,
}
use restic_backup_operator.Api.Backup.{ResticBackup}
use restic_backup_operator.Api.Restore.{ResticRestore, RestoreOptions, SnapshotSelector}
use restic_backup_operator.Controller.Pods.{each_flag}
use restic_backup_operator.Controller.Backup.Job.{
  build_backup_command, excludes_of, extra_args_of, paths_of,
}
use restic_backup_operator.Controller.Restore.Job.{restore_command, verify_flag}
use restic_backup_operator.Controller.Restore.{snapshot_id_of}

with_tags-args :
    (vs : List String) (b : CommandBuilder)
    → All (λ v. non_empty v ≡ true) vs
    → with_tags b vs ≡ add b (each_flag "--tag" vs)
unfolding with_tags with_tag each_flag
with_tags-args [] b _ = rw (append-nil b.args) refl
with_tags-args (v ∷ vs) b (h, hs) =
    rw (h, with_tags-args vs (add b ("--tag" ∷ v ∷ [])) hs, append_assoc b.args) refl

with_excludes-args :
    (vs : List String) (b : CommandBuilder)
    → All (λ v. non_empty v ≡ true) vs
    → with_excludes b vs ≡ add b (each_flag "--exclude" vs)
unfolding with_excludes with_exclude each_flag
with_excludes-args [] b _ = rw (append-nil b.args) refl
with_excludes-args (v ∷ vs) b (h, hs) =
    rw (h, with_excludes-args vs (add b ("--exclude" ∷ v ∷ [])) hs, append_assoc b.args) refl

with_includes-args :
    (vs : List String) (b : CommandBuilder)
    → All (λ v. non_empty v ≡ true) vs
    → with_includes b vs ≡ add b (each_flag "--include" vs)
unfolding with_includes with_include each_flag
with_includes-args [] b _ = rw (append-nil b.args) refl
with_includes-args (v ∷ vs) b (h, hs) =
    rw (h, with_includes-args vs (add b ("--include" ∷ v ∷ [])) hs, append_assoc b.args) refl

regroup : (h t x e p : List String) → h ++ (t ++ (x ++ (e ++ p))) ≡ (((h ++ t) ++ x) ++ e) ++ p
regroup h t x e p =
    rw
      (
        append_assoc ((h ++ t) ++ x) e p,
        append_assoc (h ++ t) x (e ++ p),
        append_assoc h t (x ++ (e ++ p)),
      )
      refl

-- Where the host, the tags and the excludes are not empty, the command of a backup's pod is restic
-- with the argument list that the command builder gives for the same host, tags, excludes, extra
-- arguments and paths under /backup.
pub build_backup_command-build :
    (backup : ResticBackup) (hostname : String) (tags : List String)
    → non_empty hostname ≡ true
    → All (λ v. non_empty v ≡ true) tags
    → All (λ v. non_empty v ≡ true) (excludes_of backup.spec.source.pvc)
    → build_backup_command backup hostname tags
      ≡ "restic"
        ∷ build (
            with_paths
              (with_args
                (with_excludes
                  (with_tags (with_host (new_command "backup") hostname) tags)
                  (excludes_of backup.spec.source.pvc))
                (extra_args_of backup.spec.restic))
              (paths_of backup.spec.source.pvc))
unfolding build_backup_command build with_paths with_args with_host new_command
build_backup_command-build backup hostname tags h ht hx =
    rw (h, with_tags-args tags begun ht, with_excludes-args excludes (add begun flags) hx)
      (ap (λ args. "restic" ∷ args) (regroup begun.args flags excluded extra paths))
  where
    begun : CommandBuilder
    begun = record { command = "backup"; args = "backup" ∷ "--host" ∷ hostname ∷ [] }

    flags : List String
    flags = each_flag "--tag" tags

    excludes : List String
    excludes = excludes_of backup.spec.source.pvc

    excluded : List String
    excluded = each_flag "--exclude" excludes

    extra : List String
    extra = extra_args_of backup.spec.restic

    paths : List String
    paths = paths_of backup.spec.source.pvc

-- The snapshot that is restored is never empty, with or without a selector.
snapshot_id_of-nonempty :
    (r : ResticRestore)
    → non_empty (snapshot_id_of r.spec.snapshot_id r.spec.snapshot_selector) ≡ true
unfolding snapshot_id_of
snapshot_id_of-nonempty r = chosen r.spec.snapshot_selector r.spec.snapshot_id
  where
    at_least_latest : (id : String) → non_empty (if id == "" then "latest" else id) ≡ true
    at_least_latest id = elim (Bool-cases (id == "")) [
      | inl h ↦ rw h refl
      | inr h ↦ rw h (rw h refl)
    ]

    chosen :
        (selector : Option SnapshotSelector) (id : String)
        → non_empty (snapshot_id_of id selector) ≡ true
    chosen none id = at_least_latest id
    chosen (some s) id = at_least_latest (if id == "" then "latest" else id)

-- The last word of the builder, if the options ask for it.
abbrev pub verified : CommandBuilder → Option RestoreOptions → CommandBuilder
verified b none = b
verified b (some o) = if o.verify then with_arg b "--verify" else b

-- Where no path to include or exclude is empty, the command of a restore's pod is restic with the
-- argument list that the command builder gives for the chosen snapshot, the target /restore, the
-- same paths, and `--verify` if the options ask for it.
pub restore_command-build :
    (r : ResticRestore)
    → All (λ v. non_empty v ≡ true) r.spec.include_paths
    → All (λ v. non_empty v ≡ true) r.spec.exclude_paths
    → let snapshot : String = snapshot_id_of r.spec.snapshot_id r.spec.snapshot_selector in
      restore_command r snapshot
      ≡ "restic"
        ∷ build (
            verified
              (with_excludes
                (with_includes
                  (with_target (with_arg (new_command "restore") snapshot) "/restore")
                  r.spec.include_paths)
                r.spec.exclude_paths)
              r.spec.options)
unfolding restore_command build with_arg with_target new_command verify_flag
restore_command-build r hi hx =
    rw
      (
        snapshot_id_of-nonempty r,
        with_includes-args r.spec.include_paths begun hi,
        with_excludes-args r.spec.exclude_paths (add begun included) hx,
      )
      (ap (λ args. "restic" ∷ args) (by_options r.spec.options))
  where
    begun : CommandBuilder
    begun = record {
      command = "restore";
      args =
          "restore"
          ∷ snapshot_id_of r.spec.snapshot_id r.spec.snapshot_selector
          ∷ "--target"
          ∷ "/restore"
          ∷ [];
    }

    included : List String
    included = each_flag "--include" r.spec.include_paths

    excluded : List String
    excluded = each_flag "--exclude" r.spec.exclude_paths

    by_options :
        (o : Option RestoreOptions)
        → begun.args ++ (included ++ (excluded ++ verify_flag o))
          ≡ (verified (add (add begun included) excluded) o).args
    by_options none = rw append-nil (sym (append_assoc begun.args included excluded))
    by_options (some o) = elim (Bool-cases o.verify) [
      | inl asked ↦ rw asked (
          rw
            (
              append_assoc (begun.args ++ included) excluded ("--verify" ∷ []),
              append_assoc begun.args included (excluded ++ ("--verify" ∷ [])),
            )
            refl)
      | inr plain ↦ rw plain (rw append-nil (sym (append_assoc begun.args included excluded)))
    ]
