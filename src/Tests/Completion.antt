-- ===== src/Tests/Completion.antt =====
-- The sample restore in a cluster where everything is there and jobs succeed.
use restic_backup_operator.Base.{◌++◌, [], ◌∷◌, ◌≡◌, refl, pos}
use restic_backup_operator.Api.Restore.{ResticRestore, unset, completed}
use restic_backup_operator.Api.Workload
use restic_backup_operator.Cluster.{Env, accepted}
use restic_backup_operator.Controller.Restore.Job.{build_restore_job}
use restic_backup_operator.Controller.Scheduling.Footprint.{NamesKept}
use restic_backup_operator.Interleaving.{
  repository_turn, backup_turn, restore_turn, policy_turn, run_turns,
}
use restic_backup_operator.Interleaving.Restores.{run_turns-completed}
use restic_backup_operator.Controller.Restore.Completion.{GoesWell, held}
use restic_backup_operator.Tests.Samples.{repository, backup, restore, key}
use restic_backup_operator.Tests.Services.{services}

abbrev new_restore : ResticRestore
new_restore = record restore { status = record restore.status { phase = unset } }

abbrev succeeded_job : Workload.Job
succeeded_job = record (build_restore_job restore backup repository "latest") { succeeded = pos 1 }

abbrev cluster : Env
cluster = record services {
  get_restore = λ t _. accepted (held new_restore t);
  put_restore = λ t r. accepted (record (held new_restore t) { meta = r.meta });
  put_restore_status = λ t r. accepted (record (held new_restore t) { status = r.status });
  get_job = λ _ _. accepted succeeded_job;
}

all_well : GoesWell cluster new_restore
all_well = record {
  on_get = λ _ _. refl;
  on_put = λ _ _. refl;
  on_put_status = λ _ _. refl;
  on_backup = λ _ _. (backup, refl);
  on_repository = λ _ _. (repository, refl);
  on_owner = λ owner meta. (("owner", owner.name) ∷ [], refl);
  on_create = λ _ job. (job, refl);
  on_job = λ _ _. (succeeded_job, refl, refl);
}

names_kept : NamesKept cluster
names_kept t name job h = cc

run_turns-completed_example :
    (held new_restore (
      run_turns cluster (pos 0) repository backup (
        (policy_turn (key "weekly") ∷ [])
        ++ restore_turn (key "photos-back")
          ∷ ((backup_turn ∷ [])
              ++ restore_turn (key "photos-back") ∷ repository_turn ∷ [])))).status.phase
    ≡ completed
run_turns-completed_example =
    run_turns-completed cluster (pos 0) repository backup new_restore all_well names_kept
      (key "photos-back") (key "photos-back") (policy_turn (key "weekly") ∷ []) (backup_turn ∷ [])
      (repository_turn ∷ []) refl refl
