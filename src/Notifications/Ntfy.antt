-- ===== src/Notifications/Ntfy.antt =====
-- internal/notifications/ntfy.go
use restic_backup_operator.Base.{
  String, ◌<>◌, ◌&&◌, Option, none, some, List, [], ◌∷◌, ℤ, pos, is_positive, is_zero, to_nat, ltb,
  leb, itoa, non_empty, trim_suffix_char, if◌then◌else◌,
}
use restic_backup_operator.Notifications.Events.{
  EventType, success, failure, warning, other, Event, NtfyConfig, NtfyMessage, Request, Response,
  status, broken, Network,
}

title_suffix : EventType → String
title_suffix success = " Succeeded"
title_suffix failure = " Failed"
title_suffix warning = " Warning"
title_suffix (other _) = ""

unfoldable pub title_of : Event → String
unfolding title_suffix
title_of event =
    (event.namespace <> ("/" <> (event.resource <> " - Backup"))) <> title_suffix event.type

default_tags : EventType → List String
default_tags success = "white_check_mark" ∷ []
default_tags failure = "x" ∷ []
default_tags warning = "warning" ∷ []
default_tags (other _) = []

unfoldable pub tags_for : List String → EventType → List String
unfolding default_tags
tags_for [] type = default_tags type
tags_for (tag ∷ tags) type = tag ∷ tags

default_priority : EventType → ℤ
default_priority success = pos 3
default_priority failure = pos 5
default_priority warning = pos 4
default_priority (other _) = pos 0

unfoldable pub priority_for : ℤ → EventType → ℤ
unfolding default_priority
priority_for configured type = if is_zero configured then default_priority type else configured

-- The header: a token goes before a name with a password.
unfoldable pub authorization_of : (String → String) → NtfyConfig → Option String
authorization_of base64 config =
    if non_empty config.token
    then some ("Bearer " <> config.token)
    else if non_empty config.username && non_empty config.password
    then some ("Basic " <> base64 (config.username <> (":" <> config.password)))
    else none

unfoldable pub response_error : Response → Option String
response_error (broken e) = some ("failed to send ntfy notification: " <> e)
response_error (status code) =
    if ltb code 200
    then some ("ntfy returned status code " <> itoa code)
    else if leb 300 code
    then some ("ntfy returned status code " <> itoa code)
    else none

module _ (net : Network) where
  unfoldable pub message_text : Event → String
  unfolding itoa
  message_text event =
      event.message
      <> ((if ltb 0 event.duration then "\nDuration: " <> net.duration_text event.duration else "")
          <> ((if non_empty event.size then "\nSize: " <> event.size else "")
              <> (if is_positive event.files
                  then "\nFiles: " <> itoa (to_nat event.files)
                  else "")))

  unfoldable pub ntfy_message : NtfyConfig → Event → NtfyMessage
  unfolding title_of message_text priority_for tags_for
  ntfy_message config event = record {
    topic = config.topic;
    message = message_text event;
    title = title_of event;
    priority = priority_for config.priority event.type;
    tags = tags_for config.tags event.type;
  }

  unfoldable pub ntfy_request : NtfyConfig → Event → Request
  unfolding ntfy_message authorization_of
  ntfy_request config event = record {
    url = trim_suffix_char config.server_url b'/';
    authorization = authorization_of net.base64 config;
    body = net.encode (ntfy_message config event);
  }

  unfoldable pub ntfy_notify : NtfyConfig → Event → net.World → Option String × net.World
  unfolding ntfy_request response_error
  ntfy_notify config event w =
      let request = ntfy_request config event in
      let (response, w') = net.post request w in
      elim (net.check_url request.url) [
        | some e ↦ (some ("failed to create ntfy request: " <> e), w)
        | none ↦ (response_error response, w')
      ]
