-- ===== src/Tests/Interleaving.antt =====
-- The sample repository and backup on a server that keeps what is written, and some turns of the
-- reconcilers.
use restic_backup_operator.Base.{
  String, ◌<>◌, Bool, true, false, Option, none, some, List, [], ◌∷◌, ◌++◌, ◌&&◌, ◌==◌, ◌≡◌, refl,
  sym, ◌∙◌, pos, eq_iff, inl, if◌then◌else◌, arith,
}
use restic_backup_operator.Api.Meta.{NamespacedName}
use restic_backup_operator.Api.Repository.{ResticRepository}
use restic_backup_operator.Api.Workload.{CronJob}
use restic_backup_operator.Cluster.{Trace, Env, Reply, accepted, refused}
use restic_backup_operator.Controller.Repository.{secret_value}
use restic_backup_operator.Api.Backup.{ResticBackup}
use restic_backup_operator.Cluster.Calls.{Extends}
use restic_backup_operator.Controller.Repository
use restic_backup_operator.Controller.Repository.Footprint.{repository_calls}
use restic_backup_operator.Conditions.{get_condition, is_condition_true}
use restic_backup_operator.Controller.Backup
use restic_backup_operator.Controller.Backup.{backup_finalizer}
use restic_backup_operator.Controller.Backup.Footprint.{backup_calls}
use restic_backup_operator.Controller.Restore.{restore_finalizer}
use restic_backup_operator.Controller.Restore.Footprint.{restore_calls}
use restic_backup_operator.Controller.Retention.{retention_finalizer}
use restic_backup_operator.Controller.Retention.Footprint.{policy_calls}
use restic_backup_operator.Controller.Footprints.{reconcile-Extends}
use restic_backup_operator.Interleaving.Convergence.Steady.{MovedTo, run_turns-MovedTo}
use restic_backup_operator.Controller.Restore
use restic_backup_operator.Controller.Retention
use restic_backup_operator.Interleaving.{
  repository_status, Turn, repository_turn, backup_turn, restore_turn, policy_turn, held_repository,
  backup_finalizers, backup_status, held_backup, is_its_cron_job, cron_job_of, cron_job_key,
  run_turns,
}
use restic_backup_operator.Interleaving.Server.{Serves, answer}
use restic_backup_operator.Interleaving.Frames.{backup_state, others-backup_state}
use restic_backup_operator.Interleaving.BackupTurn.{
  IsScheduled, IsReferred, cron_job_of-is_its_cron_job,
}
use restic_backup_operator.Interleaving.Convergence.{run_turns-IsScheduled, run_turns-IsReferred}
use restic_backup_operator.Tests.Samples.{repository, backup, secret, key}
use restic_backup_operator.Tests.Services.{services, absent}

-- The repository before its first reconciliation.
abbrev new_repository : ResticRepository
new_repository = record repository { status = record repository.status { conditions = [] } }

abbrev is_one : List String → Bool
is_one [] = false
is_one (x ∷ xs) = true

answer-eq-accepted :
    (o : Option CronJob) (job : CronJob) → answer absent o ≡ accepted job → o ≡ some job
answer-eq-accepted none job h = cc
answer-eq-accepted (some existing) job h = cc

first_part : (a b : Bool) → a && b ≡ true → a ≡ true
first_part true b h = refl
first_part false b h = h

module _ (kept : ResticBackup) where
  abbrev look_up : Trace → NamespacedName → Reply CronJob
  look_up t name =
      if name.name == ("resticbackup-" <> kept.meta.name)
      then answer absent (cron_job_of kept t)
      else refused absent

  -- A server that keeps this backup. A finalizer that is there is the only one.
  abbrev server : Env
  server = record services {
    get_repository = λ t _. accepted (held_repository new_repository t);
    put_repository_status = λ _ r. accepted (record new_repository { status = r.status });
    get_backup = λ t _. accepted (held_backup kept t);
    put_backup = λ t b. accepted (record kept {
      meta = record kept.meta { finalizers = b.meta.finalizers };
      status = backup_status kept t;
    });
    put_backup_status = λ t b. accepted (record kept {
      meta = record kept.meta { finalizers = backup_finalizers kept t };
      status = b.status;
    });
    get_cron_job = look_up;
    check = λ _ _. (record { success = true; message = ""; duration = 4 }, none);
    contains_finalizer = λ held _. is_one held;
  }

  look_up-name :
      (t : Trace) (name : NamespacedName) (job : CronJob)
      → look_up t name ≡ accepted job
      → job.meta.name ≡ name.name
  unfolding is_its_cron_job
  look_up-name t name job = by_name (name.name == ("resticbackup-" <> kept.meta.name)) refl
    where
      by_name :
          (b : Bool)
          → (name.name == ("resticbackup-" <> kept.meta.name)) ≡ b
          → (if b then answer absent (cron_job_of kept t) else refused absent) ≡ accepted job
          → job.meta.name ≡ name.name
      by_name false other h = cc
      by_name true same h =
          (eq_iff job.meta.name ("resticbackup-" <> kept.meta.name)).0 (
            first_part _ _ (
              unfold is_its_cron_job in
              cron_job_of-is_its_cron_job kept t job
                (answer-eq-accepted (cron_job_of kept t) job h)))
          ∙ sym ((eq_iff name.name ("resticbackup-" <> kept.meta.name)).0 same)

  look_up-own : (t : Trace) → look_up t (cron_job_key kept) ≡ answer absent (cron_job_of kept t)
  look_up-own t = rw ((eq_iff (cron_job_key kept).name (cron_job_key kept).name).1 refl) refl

  serves : Serves server (pos 0) new_repository kept
  unfolding secret_value
  serves = record {
    on_get_repository = λ _. refl;
    on_put_repository_status = λ _ _. refl;
    on_get_backup = λ _. refl;
    on_put_backup = λ _ _. refl;
    on_put_backup_status = λ _ _. refl;
    absent = absent;
    is_absent = refl;
    on_get_cron_job = look_up-own;
    names_kept = look_up-name;
    on_create = λ _ job. (job, refl);
    on_update = λ _ job. (job, refl);
    on_owner = λ owner meta. (("owner", owner.name) ∷ [], refl);
    on_secret = λ _ _. (secret, "swordfish", refl, refl);
    on_restic = λ _ _. inl refl;
    on_sizes = λ creds t opts found h. ground arith;
  }

abbrev keeping : Env
keeping = server backup

-- A backup that is first too early, then scheduled, then looked at again.
abbrev later_turns : List Turn
later_turns = restore_turn (key "photos-back") ∷ (repository_turn ∷ [])

abbrev middle_turns : List Turn
middle_turns = policy_turn (key "weekly") ∷ []

abbrev earlier_turns : List Turn
earlier_turns = backup_turn ∷ (restore_turn (key "photos-back") ∷ [])

run_turns-IsScheduled_example : IsScheduled new_repository backup (
    run_turns keeping
      (pos 0)
      new_repository
      backup
      (later_turns ++ backup_turn ∷ (middle_turns ++ repository_turn ∷ earlier_turns)))
run_turns-IsScheduled_example =
    run_turns-IsScheduled keeping (pos 0) new_repository backup (serves backup) refl refl
      later_turns middle_turns earlier_turns

run_turns-IsReferred_example : IsReferred new_repository backup (
    run_turns keeping (pos 0) new_repository backup (
      middle_turns
      ++ backup_turn
        ∷ (later_turns ++ backup_turn ∷ (middle_turns ++ repository_turn ∷ earlier_turns))))
run_turns-IsReferred_example =
    run_turns-IsReferred keeping (pos 0) new_repository backup (serves backup) refl refl
      middle_turns later_turns middle_turns earlier_turns

others-backup_state_example :
    (backup_state backup (Repository.reconcile keeping (pos 0) (key "vault") []).1
      ≡ backup_state backup [])
    × (backup_state backup (Restore.reconcile keeping (key "vault") []).1 ≡ backup_state backup [])
    × (backup_state backup (Retention.reconcile keeping (key "vault") []).1
        ≡ backup_state backup [])
others-backup_state_example =
    others-backup_state backup keeping (pos 0) (key "vault") [] (look_up-name backup)

reconcile-Extends_example :
    Extends repository_calls [] (Repository.reconcile keeping (pos 0) (key "photos") []).1
    × Extends backup_calls [] (Backup.reconcile keeping (key "photos") []).1
    × Extends restore_calls [] (Restore.reconcile keeping (key "photos") []).1
    × Extends policy_calls [] (Retention.reconcile keeping (key "photos") []).1
reconcile-Extends_example =
    reconcile-Extends keeping (pos 0) (key "photos") [] (look_up-name backup)

run_turns-MovedTo_example :
    let settled : List Turn =
      backup_turn
      ∷ (later_turns ++ backup_turn ∷ (middle_turns ++ repository_turn ∷ earlier_turns)) in
    MovedTo new_repository backup
      (backup_status backup (run_turns keeping (pos 0) new_repository backup settled))
      (run_turns keeping (pos 0) new_repository backup (earlier_turns ++ settled))
run_turns-MovedTo_example =
    run_turns-MovedTo keeping (pos 0) new_repository backup (serves backup) refl refl earlier_turns
      later_turns middle_turns earlier_turns

-- A backup that is deleted and has its finalizer.
abbrev deleted_backup : ResticBackup
deleted_backup = record backup {
  meta = record backup.meta { deletion_timestamp = some 90; finalizers = backup_finalizer ∷ [] };
}

-- A backup before its repository is Ready has no cron job.
early_test :
    cron_job_of backup (run_turns keeping (pos 0) new_repository backup (backup_turn ∷ [])) ≡ none
unfolding cron_job_of run_turns Backup.reconcile Backup.reconcile_handler Backup.reconcile_live
    Backup.ensure_finalizer Backup.get_repository Backup.after_repository is_condition_true
    get_condition repository_status backup_finalizers
early_test = refl
