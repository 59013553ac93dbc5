-- ===== src/Audit.antt =====
-- internal/audit/logger.go: the security log. A log line is the list of its fields, in order, with
-- the message; writing it is zerolog's.
pub mod Details
use kakao_relay.Prelude.{ℕ, Str, Bool, List, [], ◌∷◌, ◌++◌, lit, is_empty, if◌then◌else◌}
use kakao_relay.Model.{ℤ, Json}

pub data EventType : Type 0 where
  token_regenerate account_create rate_limit_exceed auth_failure session_create : EventType

unfoldable pub event_type_text : EventType → Str
event_type_text token_regenerate = lit "token_regenerate"
event_type_text account_create = lit "account_create"
event_type_text rate_limit_exceed = lit "rate_limit_exceeded"
event_type_text auth_failure = lit "auth_failure"
event_type_text session_create = lit "session_create"

-- A value of `Details`, by the cases of `addField`.
pub data Value : Type 0 where
  str : Str → Value
  int int64 : ℤ → Value
  bool : Bool → Value
  interface : Json → Value

-- `Event`; the details are in the order in which the loop meets them, which Go leaves free.
pub record Event : Type 0 where
  pub type : EventType
  pub user_id : Str
  pub account_id : Str
  pub ip : Str
  pub user_agent : Str
  pub details : List (Str × Value)

-- A field as the zerolog method that adds it.
pub data LogField : Type 0 where
  str_field : Str → Str → LogField
  time_field : Str → ℕ → LogField
  int_field int64_field : Str → ℤ → LogField
  bool_field : Str → Bool → LogField
  interface_field : Str → Json → LogField

-- `addField`
unfoldable pub add_field : List LogField → Str → Value → List LogField
add_field e key (str v) = e ++ str_field key v ∷ []
add_field e key (int v) = e ++ int_field key v ∷ []
add_field e key (int64 v) = e ++ int64_field key v ∷ []
add_field e key (bool v) = e ++ bool_field key v ∷ []
add_field e key (interface v) = e ++ interface_field key v ∷ []

-- A field that is left out if its value is empty.
abbrev pub with_text : Str → Str → List LogField → List LogField
with_text key value logger = if is_empty value then logger else logger ++ str_field key value ∷ []

-- The loop over the details.
unfoldable pub add_details : List (Str × Value) → List LogField → List LogField
unfolding add_field
add_details [] e = e
add_details ((k, v) ∷ rest) e = add_details rest (add_field e k v)

abbrev pub start_fields : Event → ℕ → List LogField
start_fields event now =
    str_field (lit "audit") (lit "security")
    ∷ str_field (lit "event_type") (event_type_text event.type)
    ∷ time_field (lit "timestamp") now
    ∷ []

-- `Log`, at a time: the fields of the line.
unfoldable pub log : ℕ → Event → List LogField
unfolding add_details event_type_text
log now event = add_details event.details (
    with_text (lit "user_agent") event.user_agent (
      with_text (lit "ip") event.ip (
        with_text (lit "account_id") event.account_id
          (with_text (lit "user_id") event.user_id (start_fields event now)))))

-- The headers that are read, "" where absent, and the peer's address.
pub record LogRequest : Type 0 where
  pub forwarded_for : Str
  pub real_ip : Str
  pub remote_addr : Str
  pub user_agent : Str

-- `getClientIP`
unfoldable pub get_client_ip : LogRequest → Str
get_client_ip r =
    if is_empty r.forwarded_for
    then (if is_empty r.real_ip then r.remote_addr else r.real_ip)
    else r.forwarded_for

-- `LogFromRequest`
unfoldable pub log_from_request : LogRequest → ℕ → Event → List LogField
unfolding log get_client_ip
log_from_request r now event =
    log now (record event { ip = get_client_ip r; user_agent = r.user_agent })
