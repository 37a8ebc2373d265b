-- ===== src/Notifications/Events.antt =====
-- internal/notifications/manager.go: events and configurations; and the network that the backends
-- use.
use restic_backup_operator.Base.{ℕ, String, Bool, true, false, Option, List, ℤ}

-- `EventType`, where a text that is none of the constants is `other`.
pub data EventType : Type 0 where
  success failure warning : EventType
  other : String → EventType

abbrev pub is_success : EventType → Bool
is_success success = true
is_success _ = false

abbrev pub is_failure : EventType → Bool
is_failure failure = true
is_failure _ = false

-- A duration is in nanoseconds, and a map is a list of pairs.
pub record Event : Type 0 where
  pub type : EventType
  pub resource : String
  pub namespace : String
  pub message : String
  pub details : List (String × String)
  pub timestamp : ℕ
  pub duration : ℕ
  pub snapshot_id : String
  pub size : String
  pub files : ℤ

pub record PushgatewayConfig : Type 0 where
  pub url : String
  pub job_name : String

pub record NtfyConfig : Type 0 where
  pub server_url : String
  pub topic : String
  pub token : String
  pub username : String
  pub password : String
  pub only_on_failure : Bool
  pub priority : ℤ
  pub tags : List String

pub record Config : Type 0 where
  pub pushgateway : Option PushgatewayConfig
  pub ntfy : Option NtfyConfig

-- The message of ntfy, before it is written as JSON.
pub record NtfyMessage : Type 0 where
  pub topic : String
  pub message : String
  pub title : String
  pub priority : ℤ
  pub tags : List String

-- A POST request: the URL, the `Authorization` header if it is set, and the body.
pub record Request : Type 0 where
  pub url : String
  pub authorization : Option String
  pub body : String

-- The gauges that are pushed, by name, under a job and a grouping.
pub record Push : Type 0 where
  pub url : String
  pub job : String
  pub grouping : List (String × String)
  pub gauges : List (String × ℤ)

-- What the HTTP client answers: a status code, or an error.
pub data Response : Type 0 where
  status : ℕ → Response
  broken : String → Response

-- The packages net/http, encoding/json, encoding/base64 and prometheus, on a world. `check_url` is
-- the error of a request that cannot be built, and `duration_text` is `%s` of a duration in whole
-- seconds.
pub record Network : Type 1 where
  pub World : Type 0
  pub post : Request → World → Response × World
  pub push : Push → World → Option String × World
  pub encode : NtfyMessage → String
  pub base64 : String → String
  pub check_url : String → Option String
  pub duration_text : ℕ → String
  -- `Duration.Seconds()` and `Timestamp.Unix()` as the values of gauges.
  pub seconds : ℕ → ℤ
  pub unix : ℕ → ℤ
