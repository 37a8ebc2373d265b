-- ===== src/Notifications/Manager.antt =====
-- internal/notifications/manager.go: `Notify` and the four events that are built for it.
use restic_backup_operator.Base.{
  ℕ, String, ◌<>◌, Bool, false, not, ◌||◌, Option, none, some, List, [], ◌∷◌, ◌++◌, ℤ, pos, negsuc,
  suc, itoa, join, non_empty, if◌then◌else◌,
}
use restic_backup_operator.Notifications.Events.{
  Event, success, failure, is_failure, Config, PushgatewayConfig, NtfyConfig, Network,
}
use restic_backup_operator.Notifications.Ntfy.{ntfy_notify}
use restic_backup_operator.Notifications.Pushgateway.{pushgateway_notify}

-- `errs = append(errs, fmt.Errorf(prefix+"%w", err))`, if there is an error.
unfoldable pub collect : String → Option String → List String
collect prefix none = []
collect prefix (some e) = (prefix <> e) ∷ []

-- `%v` of a list of errors.
unfoldable pub joined_errors : List String → Option String
joined_errors [] = none
joined_errors (e ∷ es) = some ("notification errors: [" <> (join " " (e ∷ es) <> "]"))

-- `%d` of an int64.
decimal : ℤ → String
unfolding itoa
decimal (pos n) = itoa n
decimal (negsuc n) = "-" <> itoa (suc n)

-- The events of the four methods, at the time `now`.
unfoldable pub backup_success : (resource namespace snapshot_id size : String) → ℤ → ℕ → ℕ → Event
unfolding decimal
backup_success resource namespace snapshot_id size files duration now = record {
  type = success;
  resource = resource;
  namespace = namespace;
  message = "Backup completed successfully: " <> snapshot_id;
  details = ("snapshot_id", snapshot_id) ∷ (("size", size) ∷ (("files", decimal files) ∷ []));
  timestamp = now;
  duration = duration;
  snapshot_id = snapshot_id;
  size = size;
  files = files;
}

unfoldable pub restore_success : (resource namespace snapshot_id : String) → ℕ → ℕ → Event
restore_success resource namespace snapshot_id duration now = record {
  type = success;
  resource = resource;
  namespace = namespace;
  message = "Restore completed successfully from snapshot: " <> snapshot_id;
  details = [];
  timestamp = now;
  duration = duration;
  snapshot_id = snapshot_id;
  size = "";
  files = pos 0;
}

failure_of : (prefix resource namespace error : String) → ℕ → ℕ → Event
failure_of prefix resource namespace error duration now = record {
  type = failure;
  resource = resource;
  namespace = namespace;
  message = prefix <> error;
  details = ("error", error) ∷ [];
  timestamp = now;
  duration = duration;
  snapshot_id = "";
  size = "";
  files = pos 0;
}

unfoldable pub backup_failure : (resource namespace error : String) → ℕ → ℕ → Event
unfolding failure_of
backup_failure = failure_of "Backup failed: "

unfoldable pub restore_failure : (resource namespace error : String) → ℕ → ℕ → Event
unfolding failure_of
restore_failure = failure_of "Restore failed: "

module _ (net : Network) where
  unfoldable pub try_pushgateway :
      Option PushgatewayConfig → Event → net.World → List String × net.World
  unfolding collect
  try_pushgateway none event w = ([], w)
  try_pushgateway (some config) event w =
      let (error, w') = pushgateway_notify net config event w in
      if non_empty config.url then (collect "pushgateway: " error, w') else ([], w)

  -- The two guards around the call of ntfy.
  abbrev pub wants_ntfy : NtfyConfig → Event → Bool
  wants_ntfy config event =
      if non_empty config.server_url
      then not config.only_on_failure || is_failure event.type
      else false

  unfoldable pub try_ntfy : Option NtfyConfig → Event → net.World → List String × net.World
  unfolding collect
  try_ntfy none event w = ([], w)
  try_ntfy (some config) event w =
      let (error, w') = ntfy_notify net config event w in
      if wants_ntfy config event then (collect "ntfy: " error, w') else ([], w)

  unfoldable pub notify : Config → Event → net.World → Option String × net.World
  unfolding try_pushgateway try_ntfy joined_errors
  notify config event w =
      let (pushed, w1) = try_pushgateway config.pushgateway event w in
      let (sent, w2) = try_ntfy config.ntfy event w1 in (joined_errors (pushed ++ sent), w2)

  abbrev pub notify_backup_success :
      Config
      → (resource namespace snapshot_id size : String) → ℤ
      → ℕ
      → ℕ
      → net.World
      → Option String × net.World
  notify_backup_success config resource namespace snapshot_id size files duration now =
      notify config (backup_success resource namespace snapshot_id size files duration now)

  abbrev pub notify_backup_failure :
      Config → (resource namespace error : String) → ℕ → ℕ → net.World → Option String × net.World
  notify_backup_failure config resource namespace error duration now =
      notify config (backup_failure resource namespace error duration now)

  abbrev pub notify_restore_success :
      Config
      → (resource namespace snapshot_id : String) → ℕ
      → ℕ
      → net.World
      → Option String × net.World
  notify_restore_success config resource namespace snapshot_id duration now =
      notify config (restore_success resource namespace snapshot_id duration now)

  abbrev pub notify_restore_failure :
      Config → (resource namespace error : String) → ℕ → ℕ → net.World → Option String × net.World
  notify_restore_failure config resource namespace error duration now =
      notify config (restore_failure resource namespace error duration now)
