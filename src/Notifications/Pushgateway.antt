-- ===== src/Notifications/Pushgateway.antt =====
-- internal/notifications/pushgateway.go
use restic_backup_operator.Base.{
  String, ◌<>◌, Option, none, some, List, [], ◌∷◌, ◌++◌, ℤ, pos, is_positive, non_empty,
  if◌then◌else◌,
}
use restic_backup_operator.Notifications.Events.{
  Event, is_success, PushgatewayConfig, Push, Network,
}

files_gauge : ℤ → List (String × ℤ)
files_gauge files = if is_positive files then ("backup_snapshot_files_total", files) ∷ [] else []

module _ (net : Network) where
  unfoldable pub push_of : PushgatewayConfig → Event → Push
  unfolding files_gauge
  push_of config event = record {
    url = config.url;
    job = if non_empty config.job_name then config.job_name else "backup";
    grouping = ("backup", event.resource) ∷ (("namespace", event.namespace) ∷ []);
    gauges =
        (("backup_duration_seconds", net.seconds event.duration)
          ∷ (("backup_start_timestamp", net.unix event.timestamp)
              ∷ (("backup_status", if is_success event.type then pos 1 else pos 0) ∷ [])))
        ++ files_gauge event.files;
  }

  push_error : Option String → Option String
  push_error none = none
  push_error (some e) = some ("failed to push metrics to Pushgateway: " <> e)

  unfoldable pub pushgateway_notify :
      PushgatewayConfig → Event → net.World → Option String × net.World
  unfolding push_of push_error
  pushgateway_notify config event w =
      let (error, w') = net.push (push_of config event) w in (push_error error, w')
