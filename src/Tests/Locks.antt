-- ===== src/Tests/Locks.antt =====
-- The age in a message of restic, as in the comment of `parseLockAge`.
use restic_backup_operator.Base.{
  ℕ, ◌*◌, ◌/◌, ◌<◌, String, ◌<>◌, false, some, none, [], ◌∷◌, ◌≡◌, refl, arith, pos, itoa,
}
use restic_backup_operator.Cluster.{
  Env, Trace, update_repository_status, restic_check, record_event, warning, get, repositories,
  secrets, requeue_after, error_requeue_interval,
}
use restic_backup_operator.Controller.LockAge.{codes, parse_lock_age}
use restic_backup_operator.Controller.LockAge.Age.{Age}
use restic_backup_operator.Controller.LockAge.RoundTrip
use restic_backup_operator.Controller.LockAge.Overflow
use restic_backup_operator.Controller.LockAge.Search.{opens_number}
use restic_backup_operator.Controller.Repository.{
  reconcile, secret_value, credentials_of, get_stale_lock_threshold,
}
use restic_backup_operator.Controller.Repository.Locks
use restic_backup_operator.Tests.Samples.{key, repository, secret, credentials}
use restic_backup_operator.Tests.Services.{services}

abbrev half_a_day : Age
half_a_day = record { hours = some 12; minutes = some 36; seconds = 32; fraction = some "091" }

abbrev whole_part : ℕ → ℕ → ℕ → ℕ
whole_part f unit scale = f * unit / scale

-- The message of restic up to the age has parentheses of its own.
abbrev the_lock : String
the_lock =
    "unable to create lock in backend: repository is already locked by PID 7 on host by root (UID 0, GID 0)\nlock was created at 2025-12-26 21:32:34 ("

abbrev the_hint : String
the_hint = " ago)\nstorage ID 7c4c2c5a\nthe `unlock` command can be used to remove stale locks"

abbrev before_age : String
before_age =
    "unable to create lock in backend: repository is already locked by PID 7 on host by root (UID 0, GID 0)\nlock was created at 2025-12-26 21:32:34 "

abbrev after_age : String
after_age = "\nstorage ID 7c4c2c5a\nthe `unlock` command can be used to remove stale locks"

closed_before : opens_number (codes before_age) ≡ false
unfolding opens_number
closed_before = refl

parse_lock_age-lock_message_example :
    parse_lock_age whole_part (the_lock <> ("12h36m32.091s" <> the_hint)) ≡ 45_392_091_000_000
unfolding itoa
parse_lock_age-lock_message_example =
    RoundTrip.parse_lock_age-lock_message whole_part before_age half_a_day after_age closed_before
      (refl, (refl, (refl, tt))) (omega arith) (omega arith)

-- More than the 2562047 hours that 63 bits hold.
abbrev three_centuries : Age
three_centuries = record { hours = some 3_000_000; minutes = some 0; seconds = 0; fraction = none }

parse_lock_age-overflow_example :
    (parse_lock_age whole_part (the_lock <> ("3000000h0m0s" <> the_hint)) ≡ 0)
    × (parse_lock_age whole_part (the_lock <> ("3000000h0m0s" <> the_hint))
        < get_stale_lock_threshold (pos 0))
unfolding itoa
parse_lock_age-overflow_example =
    Overflow.parse_lock_age-overflow whole_part (pos 0) before_age three_centuries after_age
      closed_before tt tt (omega arith)

abbrev two_hours : Age
two_hours = record { hours = some 2; minutes = some 10; seconds = 3; fraction = some "5" }

abbrev the_error : String
the_error = the_lock <> ("2h10m3.5s" <> the_hint)

reported : Locks.ReportsLock services.fraction the_error two_hours
unfolding itoa
reported = record {
  before = before_age;
  after = after_age;
  text = refl;
  locked = refl;
  clear = closed_before;
  digits = (refl, tt);
  fits = omega arith;
  short = omega arith;
}

abbrev locked_services : Env
locked_services = record services {
  check = λ _ _. (record { success = false; message = ""; duration = 4 }, some the_error);
}

abbrev before_check : Trace
before_check = get secrets (Locks.secret_name repository) ∷ (get repositories (key "vault") ∷ [])

reconcile-fresh_lock_example :
    reconcile locked_services (pos 8_000_000_000_000) (key "vault") [] ≡ (
      requeue_after error_requeue_interval,
      update_repository_status (
            Locks.left_locked locked_services
              (pos 8_000_000_000_000)
              credentials
              repository
              before_check
              7_803_500_000_000)
          ∷ (record_event warning "RepositoryLocked" (
                Locks.left_message locked_services
                  (pos 8_000_000_000_000)
                  credentials
                  repository
                  before_check
                  7_803_500_000_000)
              ∷ (restic_check credentials ∷ before_check)),
    )
unfolding get_stale_lock_threshold credentials_of secret_value
reconcile-fresh_lock_example =
    Locks.reconcile-fresh_lock locked_services (pos 8_000_000_000_000) (key "vault") [] repository
      secret credentials the_error two_hours refl refl refl refl reported (omega arith)
      (λ _ r. (r, refl))
