-- ===== src/Operator/Laws.antt =====
-- cmd/main.go: what the start of the operator guarantees.
use restic_backup_operator.Base.{
  ℕ, String, Option, none, some, List, [], ◌∷◌, ℤ, pos, non_empty, if◌then◌else◌, All, ◌≡◌, ◌↔◌,
  refl, is_positive, to_nat, Bool-cases, inl, inr, ap,
}
use restic_backup_operator.Operator.{
  CommandLine, Action, new_manager, set_up_with_manager, add_healthz_check, add_readyz_check, start,
  returned, Run, attempt, main, manager_options, stale_lock_threshold, default_threshold,
  repository_controller, backup_controller, restore_controller, policy_controller, given_or,
}
use restic_backup_operator.Controller.Repository.{get_stale_lock_threshold}

-- The actions of a start that succeeds.
abbrev pub plan : (String → Option ℤ) → String → CommandLine → List Action
plan parse_duration env line =
    new_manager (manager_options line)
    ∷ (set_up_with_manager (repository_controller (stale_lock_threshold parse_duration env line))
        ∷ (set_up_with_manager backup_controller
            ∷ (set_up_with_manager restore_controller
                ∷ (set_up_with_manager policy_controller
                    ∷ (add_healthz_check "healthz" ∷ (add_readyz_check "readyz" ∷ (start ∷ [])))))))

module _ (refuses : Action → Option String) where
  abbrev pub IsAccepted : Action → Type 0
  IsAccepted action = refuses action ≡ none

  abbrev cut : Option String → Action → List Action → List Action
  cut (some _) action rest = action ∷ []
  cut none action rest = action ∷ rest

  -- A list up to its first refused action, which is the last one that is attempted.
  abbrev pub up_to_refused : List Action → List Action
  up_to_refused [] = []
  up_to_refused (action ∷ rest) = cut (refuses action) action (up_to_refused rest)

  -- What a run has attempted, and when it completes.
  record Follows (actions : List Action) (run : Run) : Type 0 where
    attempted : run.1 ≡ up_to_refused actions
    completes : (run.0 ≡ returned) ↔ All IsAccepted actions

  attempt-Follows :
      (action : Action) (message : String) {actions : List Action} {rest : Run}
      → Follows actions rest
      → Follows (action ∷ actions) (attempt refuses action message rest)
  unfolding attempt
  attempt-Follows action message {actions} {rest} f = by_answer (refuses action) refl
    where
      by_answer :
          (answer : Option String)
          → refuses action ≡ answer
          → Follows (action ∷ actions) (attempt refuses action message rest)
      by_answer none accepted = record {
        attempted = rw accepted (ap (◌∷◌ action) f.attempted);
        completes = rw accepted ((λ done. (refl, f.completes.0 done)), λ all. f.completes.1 all.1);
      }
      by_answer (some problem) refused = record {
        attempted = rw refused refl;
        completes = rw refused ((λ done. cc), λ all. cc);
      }

  main-Follows :
      (parse_duration : String → Option ℤ) (env : String) (line : CommandLine)
      → Follows (plan parse_duration env line) (main refuses parse_duration env line)
  unfolding main
  main-Follows parse_duration env line = attempt-Follows _ _ (
      attempt-Follows _ _ (
        attempt-Follows _ _ (
          attempt-Follows _ _ (
            attempt-Follows _ _ (
              attempt-Follows _ _ (
                attempt-Follows _ _ (
                  attempt-Follows _ _
                    (record { attempted = refl; completes = ((λ _. tt), λ _. refl) }))))))))

  -- The operator attempts the manager, the four reconcilers, the two probes and the start of the
  -- manager in this order, up to the first that is refused and nothing after it; it returns if all are
  -- accepted, and only then.
  pub main-attempted :
      (parse_duration : String → Option ℤ) (env : String) (line : CommandLine)
      → ((main refuses parse_duration env line).1 ≡ up_to_refused (plan parse_duration env line))
        × (((main refuses parse_duration env line).0 ≡ returned)
            ↔ All IsAccepted (plan parse_duration env line))
  main-attempted parse_duration env line =
      let f = main-Follows parse_duration env line in (f.attempted, f.completes)

-- The duration that is asked for, by the flag or else by the variable.
abbrev pub asked_for : Option ℤ → Option ℤ → Option ℤ
asked_for (some flag) variable = some flag
asked_for none variable = variable

abbrev pub half_hour_or : Option ℤ → ℕ
half_hour_or none = 1_800_000_000_000
half_hour_or (some d) = if is_positive d then to_nat d else 1_800_000_000_000

asked_for-given_or :
    (flag variable : Option ℤ)
    → get_stale_lock_threshold (given_or flag (given_or variable (pos 1_800_000_000_000)))
      ≡ half_hour_or (asked_for flag variable)
unfolding get_stale_lock_threshold
asked_for-given_or (some flag) variable = refl
asked_for-given_or none (some variable) = refl
asked_for-given_or none none = refl

-- The age from which the reconciler of repositories, as the operator sets it up, takes a lock for
-- stale is what the flag asks for, or else what the variable asks for if it is set to a duration; it
-- is half an hour if neither asks for one, and also if the one asked for is not positive.
pub get_stale_lock_threshold-stale_lock_threshold :
    (parse_duration : String → Option ℤ) (env : String) (line : CommandLine)
    → get_stale_lock_threshold (stale_lock_threshold parse_duration env line)
      ≡ half_hour_or
          (asked_for line.stale_lock_threshold (if non_empty env then parse_duration env else none))
unfolding stale_lock_threshold default_threshold
get_stale_lock_threshold-stale_lock_threshold parse_duration env line =
    elim (Bool-cases (non_empty env)) [
      | inl set ↦ rw set (asked_for-given_or line.stale_lock_threshold (parse_duration env))
      | inr missing ↦ rw missing (asked_for-given_or line.stale_lock_threshold none)
    ]
