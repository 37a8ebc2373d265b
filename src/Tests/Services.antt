-- ===== src/Tests/Services.antt =====
-- Services that answer: a repository with a stale lock, no jobs yet, and every write accepted. A
-- restic whose commands succeed.
use restic_backup_operator.Base.{
  ℕ, ◌+◌, ◌*◌, ◌/◌, String, Bool, true, false, Option, none, some, [], ◌∷◌, ◌++◌, ◌==◌,
  if◌then◌else◌,
}
use restic_backup_operator.Restic.Executor.{System, ok}
use restic_backup_operator.Restic.Executor.SummaryLine.{Summary, no_summary}
use restic_backup_operator.Cluster.{Env, Trace, accepted, refused, ApiError, restic_unlock}
use restic_backup_operator.Tests.Samples.{repository, secret, backup, restore, policy}

abbrev pub absent : ApiError
absent = record { not_found = true; already_exists = false; message = "not found" }

-- A lock is there until `restic unlock` runs.
abbrev unlocked : Trace → Bool
unlocked [] = false
unlocked (restic_unlock _ ∷ t) = true
unlocked (_ ∷ t) = unlocked t

abbrev lock_error : Bool → Option String
lock_error true = none
lock_error false = some "repository is already locked by PID 7 (2h10m3.5s ago)"

abbrev pub services : Env
services = record {
  get_repository = λ _ _. accepted repository;
  get_backup = λ _ _. accepted backup;
  get_restore = λ _ _. accepted restore;
  get_policy = λ _ _. accepted policy;
  get_secret = λ _ _. accepted secret;
  get_cron_job = λ _ _. refused absent;
  get_job = λ _ _. refused absent;
  put_backup = λ _ b. accepted b;
  put_restore = λ _ r. accepted r;
  put_policy = λ _ p. accepted p;
  put_repository_status = λ _ r. accepted r;
  put_backup_status = λ _ b. accepted b;
  put_restore_status = λ _ r. accepted r;
  put_policy_status = λ _ p. accepted p;
  post_cron_job = λ _ job. accepted job;
  put_cron_job = λ _ job. accepted job;
  post_job = λ _ job. accepted job;
  check =
      λ t _. (record { success = unlocked t; message = ""; duration = 4 }, lock_error (unlocked t));
  unlock = λ _ _. none;
  init = λ _ _. none;
  stats = λ _ _ _. ok (record { total_size = 4096; total_file_count = 12; snapshot_count = 3 });
  now = λ _. 100;
  contains_finalizer = λ held _. false;
  add_finalizer = λ held finalizer. held ++ (finalizer ∷ []);
  remove_finalizer = λ held _. [];
  controller_reference = λ owner _. accepted (("owner", owner.name) ∷ []);
  next_time = λ _ now. some (now + 60);
  duration_text = λ _. "2h10m3s";
  one_decimal = λ _ _. "4.0";
  fraction = λ f unit scale. f * unit / scale;
}

abbrev pub summary : Summary
summary = record no_summary { message_type = "summary"; snapshot_id = "4f3a" }

-- Only the text "done" is decoded, as the summary line.
abbrev pub decode_line : String → Summary → Summary × Bool
decode_line line before = if line == "done" then (summary, true) else (before, false)

-- Each command takes one tick, and prints a line and the summary.
abbrev pub system : System
system = record {
  World = ℕ;
  execute = λ _ _ _ w. (record { stdout = "scan\ndone\n"; stderr = ""; error = none }, w + 1);
  now = λ w. w;
  decode_stats = λ _. some (4096, 12);
  decode_snapshots = λ _. some [];
  decode_summary = decode_line;
  decode_forget = λ _. some (record { remove = "a" ∷ []; keep = "b" ∷ "c" ∷ [] } ∷ []);
}
