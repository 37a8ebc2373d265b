-- ===== src/Notifications/Laws.antt =====
-- What the manager of notifications and the ntfy backend promise.
use restic_backup_operator.Base.{ℕ, ◌≤◌, ◌<◌, String, true, none, some, ◌≡◌, ◌↔◌, arith, non_empty}
use restic_backup_operator.Notifications.Events.{
  Event, Config, PushgatewayConfig, NtfyConfig, Response, status, broken, Network,
}
use restic_backup_operator.Notifications.Ntfy.{ntfy_notify, ntfy_request, response_error}
use restic_backup_operator.Notifications.Pushgateway.{pushgateway_notify}
use restic_backup_operator.Notifications.Manager.{
  collect, joined_errors, try_pushgateway, try_ntfy, notify, notify_backup_failure, backup_failure,
}

-- The server answered with a status from 200 to 299.
abbrev pub Accepts : Response → Type 0
Accepts (status code) = (200 ≤ code) × (code < 300)
Accepts (broken e) = ⊥

response_error_lem : (r : Response) → (response_error r ≡ none) ↔ Accepts r
unfolding response_error
response_error_lem (status code) = ground arith
response_error_lem (broken e) = ground arith

module _ (net : Network) where
  -- ntfy is notified without an error exactly when the request can be built and the server answers
  -- with a status from 200 to 299; the request is sent once, and not at all where it cannot be
  -- built.
  pub ntfy_notify-eq-none_iff :
      (config : NtfyConfig) (event : Event) (w : net.World)
      → let request = ntfy_request net config event in
        (((ntfy_notify net config event w).0 ≡ none)
          ↔ ((net.check_url request.url ≡ none) × Accepts (net.post request w).0))
        × ((ntfy_notify net config event w).1
            ≡ elim (net.check_url request.url) [ some e ↦ w | none ↦ (net.post request w).1 ])
  unfolding ntfy_notify
  ntfy_notify-eq-none_iff config event w =
      ground (arith, response_error_lem (net.post (ntfy_request net config event) w).0)

  -- The failure of a backup is sent to both backends where their URLs are set, to ntfy also if it
  -- takes failures only and also after the push has failed; the result is without an error exactly
  -- when both are.
  pub notify_backup_failure-both :
      (p : PushgatewayConfig) (n : NtfyConfig) (resource namespace error : String)
      (duration now : ℕ) (w : net.World)
      → non_empty p.url ≡ true
      → non_empty n.server_url ≡ true
      → let event = backup_failure resource namespace error duration now in
        let config : Config = record { pushgateway = some p; ntfy = some n } in
        let (pushed, w1) = pushgateway_notify net p event w in
        let (sent, w2) = ntfy_notify net n event w1 in
        let ended = notify_backup_failure net config resource namespace error duration now w in
        ((ended.0 ≡ none) ↔ ((pushed ≡ none) × (sent ≡ none))) × (ended.1 ≡ w2)
  unfolding notify try_pushgateway try_ntfy collect joined_errors backup_failure
  notify_backup_failure-both p n resource namespace error duration now w hp hn = ground arith
