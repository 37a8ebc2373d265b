-- ===== src/Tests/Damaged.antt =====
-- A repository that is there and whose check fails, with the executor of internal/restic.
use restic_backup_operator.Base.{
  String, none, some, List, [], ◌∷◌, ◌==◌, ◌≡◌, inr, refl, arith, pos, if◌then◌else◌,
}
use restic_backup_operator.Restic.Executor.{System, Ran, already_initialized}
use restic_backup_operator.Restic.Executor.Arguments.{check_args, init_args}
use restic_backup_operator.Cluster.{requeue_after, default_requeue_interval, run_handler}
use restic_backup_operator.Controller.Repository.{reconcile_with}
use restic_backup_operator.Controller.Repository.Success.{WroteReady}
use restic_backup_operator.Controller.Repository.WithRestic
use restic_backup_operator.Tests.Samples.{repository, credentials}
use restic_backup_operator.Tests.Services.{services, system}

abbrev first_word : List String → String
first_word [] = ""
first_word (word ∷ _) = word

abbrev damaged_run : String → Ran
damaged_run command =
    if command == "check"
    then record { stdout = ""; stderr = "error: index is corrupted"; error = some "exit status 1" }
    else if command == "init"
    then record { stdout = ""; stderr = "config file already exists"; error = some "exit status 1" }
    else record { stdout = ""; stderr = ""; error = none }

abbrev damaged : System
damaged = record system { execute = λ _ _ args w. (damaged_run (first_word args), w) }

decoded_fits : WithRestic.SizesFit damaged 0
decoded_fits text size files h = ground arith

reconcile_with-ProcessesSuffice_example :
    let ended =
      run_handler
        (reconcile_with (WithRestic.with_restic damaged 0 services) (pos 0) repository credentials)
        [] in
    (ended.0 ≡ requeue_after default_requeue_interval) × WroteReady ended.1
unfolding check_args init_args already_initialized
reconcile_with-ProcessesSuffice_example =
    WithRestic.reconcile_with-ProcessesSuffice damaged 0 services (pos 0) credentials repository []
      (inr ("exit status 1", refl, refl, inr refl)) (λ _ r. (r, refl)) decoded_fits
