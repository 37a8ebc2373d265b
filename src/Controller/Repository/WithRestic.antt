-- ===== src/Controller/Repository/WithRestic.antt =====
-- The reconciler of repositories together with the executor of internal/restic: what the processes of
-- restic do decides what becomes of the repository.
use restic_backup_operator.Base.{
  ℕ, ◌<◌, ◌^◌, String, ◌<>◌, true, false, none, some, [], ◌∷◌, ◌≡◌, ◌⊎◌, inl, inr, ℤ, contains,
  arith,
}
use restic_backup_operator.Restic.Types.{Credentials, StatsOptions}
use restic_backup_operator.Restic.Executor
use restic_backup_operator.Restic.Executor.{System, ok, run, already_initialized}
use restic_backup_operator.Restic.Executor.Arguments.{check_args, init_args}
use restic_backup_operator.Restic.Executor.Laws.Results.{
  check-success_iff, init-eq-none_iff, stats-eq-ok,
}
use restic_backup_operator.Api.Repository.{ResticRepository}
use restic_backup_operator.Cluster.{
  Trace, Env, restic_check, restic_unlock, restic_init, restic_stats, requeue_after,
  default_requeue_interval, run_handler,
}
use restic_backup_operator.Controller.Repository.{reconcile_with}
use restic_backup_operator.Controller.Repository.Success.{
  Accessible, WritesAccepted, StatsFit, WroteReady, reconcile_with-Accessible,
}

-- The statistics that the reconciler asks for.
abbrev restore_size : StatsOptions
restore_size = record { mode = "restore-size" }

module _ (sys : System) (start : sys.World) where
  -- The world after the processes that the calls have run.
  unfoldable pub world : Trace → sys.World
  world [] = start
  world (restic_check creds ∷ t) = (Executor.check sys "restic" creds (world t)).2
  world (restic_unlock creds ∷ t) = (Executor.unlock sys "restic" creds (world t)).1
  world (restic_init creds ∷ t) = (Executor.init sys "restic" creds (world t)).1
  world (restic_stats creds ∷ t) = (Executor.stats sys "restic" creds restore_size (world t)).1
  world (_ ∷ t) = world t

  -- The services, with `NewExecutor` for restic.
  abbrev pub with_restic : Env → Env
  with_restic e = record e {
    check = λ t creds. (
      (Executor.check sys "restic" creds (world t)).0,
      (Executor.check sys "restic" creds (world t)).1,
    );
    unlock = λ t creds. (Executor.unlock sys "restic" creds (world t)).0;
    init = λ t creds. (Executor.init sys "restic" creds (world t)).0;
    stats = λ t creds opts. (Executor.stats sys "restic" creds opts (world t)).0;
  }

  -- A size that is decoded has 64 bits.
  abbrev pub SizesFit : Type 0
  SizesFit =
      (text : String) (size files : ℕ) → sys.decode_stats text ≡ some (size, files) → size < 2 ^ 64

  -- The error of a check whose process failed.
  abbrev pub check_error : String → String → String
  check_error cause stderr = "repository check failed: " <> (cause <> (": " <> stderr))

  check-eq-some :
      (creds : Credentials) (w : sys.World) {cause : String}
      → (run sys "restic" creds check_args w).0.error ≡ some cause
      → (Executor.check sys "restic" creds w).1
        ≡ some (check_error cause (run sys "restic" creds check_args w).0.stderr)
  unfolding Executor.check
  check-eq-some creds w ended = ground arith

  -- The process of the check ends well; or it fails with an error that reports no lock, and the process
  -- of the initialization after it ends well or reports that the repository is there already.
  abbrev pub ProcessesSuffice : Credentials → Trace → Type 0
  ProcessesSuffice creds t =
      let (checked, w) = run sys "restic" creds check_args (world t) in
      let (made, _) = run sys "restic" creds init_args w in
      (checked.error ≡ none)
      ⊎ ((cause : String) × (checked.error ≡ some cause)
          × (contains (check_error cause checked.stderr) "repository is already locked" ≡ false)
          × ((made.error ≡ none) ⊎ (already_initialized made.stderr ≡ true)))

  module _ (e : Env) (configured : ℤ) (creds : Credentials) where
    with_restic-Accessible :
        (t : Trace) → ProcessesSuffice creds t → Accessible (with_restic e) configured creds t
    unfolding Executor.check world
    with_restic-Accessible t (inl ended) =
        inl ((check-success_iff sys "restic" creds (world t)).1.1 ended)
    with_restic-Accessible t (inr (cause, ended, free, made)) = inr (
      check_error cause (run sys "restic" creds check_args (world t)).0.stderr,
      check-eq-some creds (world t) ended,
      inl (free, (init-eq-none_iff sys "restic" creds _).0.1 made),
    )

    with_restic-StatsFit : SizesFit → StatsFit (with_restic e) creds
    with_restic-StatsFit fits t opts s h =
        let (_, decoded, _) = stats-eq-ok sys "restic" creds (world t) opts {r = s} h in
        fits _ _ _ decoded

    -- Where the process of the check ends well, or fails with an error that reports no lock before a
    -- process of the initialization that ends well or reports that the repository is there already,
    -- where the writes of the status are accepted and decoded sizes have 64 bits, the reconciliation
    -- ends with a new run in an hour, and the status was written as Ready: a repository that is there
    -- is Ready though its check failed.
    pub reconcile_with-ProcessesSuffice :
        (r : ResticRepository) (t : Trace)
        → ProcessesSuffice creds t
        → WritesAccepted e
        → SizesFit
        → let ended = run_handler (reconcile_with (with_restic e) configured r creds) t in
          (ended.0 ≡ requeue_after default_requeue_interval) × WroteReady ended.1
    reconcile_with-ProcessesSuffice r t enough writes fits =
        reconcile_with-Accessible (with_restic e) configured creds r t
          (with_restic-Accessible t enough) writes (with_restic-StatsFit fits)
