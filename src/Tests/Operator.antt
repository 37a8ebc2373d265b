-- ===== src/Tests/Operator.antt =====
-- Starts of the operator with a manager that refuses an action.
use restic_backup_operator.Base.{
  String, true, Option, none, some, ◌==◌, ◌≡◌, ◌↔◌, refl, ℤ, pos, All, if◌then◌else◌,
}
use restic_backup_operator.Operator
use restic_backup_operator.Operator.{
  CommandLine, Action, add_readyz_check, returned, exited, stale_lock_threshold,
}
use restic_backup_operator.Operator.Laws
use restic_backup_operator.Controller.Repository.{get_stale_lock_threshold}

abbrev bare_line : CommandLine
bare_line = record {
  metrics_bind_address = some ":8443";
  health_probe_bind_address = none;
  leader_elect = some true;
  metrics_secure = none;
  enable_http2 = none;
  stale_lock_threshold = none;
}

-- `time.ParseDuration` on one text.
abbrev two_hours : String → Option ℤ
two_hours text = if text == "2h" then some (pos 7_200_000_000_000) else none

abbrev no_ready_check : Action → Option String
no_ready_check (add_readyz_check _) = some "checker is set already"
no_ready_check _ = none

not_ready_exit :
    (Operator.main no_ready_check two_hours "2h" bare_line).0
    ≡ exited 1 "unable to set up ready check"
unfolding Operator.main
not_ready_exit = refl

main-attempted_example :
    ((Operator.main no_ready_check two_hours "2h" bare_line).1
      ≡ Laws.up_to_refused no_ready_check (Laws.plan two_hours "2h" bare_line))
    × (((Operator.main no_ready_check two_hours "2h" bare_line).0 ≡ returned)
        ↔ All (Laws.IsAccepted no_ready_check) (Laws.plan two_hours "2h" bare_line))
main-attempted_example = Laws.main-attempted no_ready_check two_hours "2h" bare_line

get_stale_lock_threshold-stale_lock_threshold_example :
    get_stale_lock_threshold (stale_lock_threshold two_hours "2h" bare_line) ≡ 7_200_000_000_000
get_stale_lock_threshold-stale_lock_threshold_example =
    Laws.get_stale_lock_threshold-stale_lock_threshold two_hours "2h" bare_line
