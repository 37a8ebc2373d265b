-- ===== src/Tests/Notifications.antt =====
-- The laws of internal/notifications at a network on which the push fails and ntfy answers 200.
use restic_backup_operator.Base.{ℕ, ◌+◌, true, none, some, [], ◌≡◌, ◌↔◌, refl, pos}
use restic_backup_operator.Notifications.Events.{
  Event, Config, PushgatewayConfig, NtfyConfig, status, Network,
}
use restic_backup_operator.Notifications.Ntfy.{ntfy_notify, ntfy_request}
use restic_backup_operator.Notifications.Pushgateway.{pushgateway_notify}
use restic_backup_operator.Notifications.Manager.{notify_backup_failure, backup_failure}
use restic_backup_operator.Notifications.Laws.{
  Accepts, ntfy_notify-eq-none_iff, notify_backup_failure-both,
}

-- The world counts the requests.
abbrev network : Network
network = record {
  World = ℕ;
  post = λ _ w. (status 200, w + 1);
  push = λ _ w. (some "connection refused", w + 1);
  encode = λ _. "{}";
  base64 = λ s. s;
  check_url = λ _. none;
  duration_text = λ _. "5s";
  seconds = λ n. pos n;
  unix = λ n. pos n;
}

abbrev push_config : PushgatewayConfig
push_config = record { url = "http://push:9091"; job_name = "" }

abbrev ntfy_config : NtfyConfig
ntfy_config = record {
  server_url = "https://ntfy.sh/";
  topic = "backups";
  token = "";
  username = "";
  password = "";
  only_on_failure = true;
  priority = pos 0;
  tags = [];
}

abbrev event : Event
event = backup_failure "photos" "storage" "exit status 1" 5 100

ntfy_notify-eq-none_iff_example :
    let request = ntfy_request network ntfy_config event in
    (((ntfy_notify network ntfy_config event 3).0 ≡ none)
      ↔ ((network.check_url request.url ≡ none) × Accepts (network.post request 3).0))
    × ((ntfy_notify network ntfy_config event 3).1 ≡ 4)
ntfy_notify-eq-none_iff_example = ntfy_notify-eq-none_iff network ntfy_config event 3

notify_backup_failure-both_example :
    let config : Config = record { pushgateway = some push_config; ntfy = some ntfy_config } in
    let (pushed, w1) = pushgateway_notify network push_config event 3 in
    let (sent, w2) = ntfy_notify network ntfy_config event w1 in
    let ended = notify_backup_failure network config "photos" "storage" "exit status 1" 5 100 3 in
    ((ended.0 ≡ none) ↔ ((pushed ≡ none) × (sent ≡ none))) × (ended.1 ≡ w2)
notify_backup_failure-both_example =
    notify_backup_failure-both network push_config ntfy_config "photos" "storage" "exit status 1" 5
      100 3 refl refl
