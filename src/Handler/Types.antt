-- ===== src/Handler/Types.antt =====
-- internal/handler/kakao_types.go
use kakao_relay.Prelude.{
  Str, str_eq, Bool, true, false, Option, none, some, List, [], ◌∷◌, lit, if◌then◌else◌, is_empty,
}
use kakao_relay.Model.{Json, Fields, end, field}

-- The request; `user_others` and `others` are the fields that the program only passes on
-- (params and block; intent, action and contexts).
pub record KakaoWebhookRequest : Type 0 where
  pub user_id : Str
  pub user_type : Str
  pub properties : Option Fields
  pub utterance : Str
  pub callback_url : Str
  pub user_others : Fields
  pub bot : Option (Str × Str)
  pub others : Fields

pub record KakaoResponse : Type 0 where
  pub version : Str
  pub outputs : Option (List Str)
  pub use_callback : Bool

-- `NewTextResponse`: one simpleText output.
unfoldable pub new_text_response : Str → KakaoResponse
new_text_response text = record {
  version = lit "2.0";
  outputs = some (text ∷ []);
  use_callback = false;
}

-- `NewCallbackResponse`
unfoldable pub new_callback_response : KakaoResponse
new_callback_response = record { version = lit "2.0"; outputs = none; use_callback = true }

-- A key of a decoded object: the last one counts.
abbrev pub or_else : Option Json → Option Json → Option Json
or_else (some v) other = some v
or_else none other = other

unfoldable pub lookup_field : Str → Fields → Option Json
lookup_field key end = none
lookup_field key (field k v fs) =
    or_else (lookup_field key fs) (if str_eq k key then some v else none)

abbrev pub text_or : Str → Option Json → Str
text_or d (some (Json.str s)) = s
text_or d _ = d

abbrev pub property : Str → Option Fields → Option Json
property key none = none
property key (some fs) = lookup_field key fs

-- `GetPlusfriendUserKey`
unfoldable pub get_plusfriend_user_key : KakaoWebhookRequest → Str
unfolding lookup_field
get_plusfriend_user_key r = text_or r.user_id (property (lit "plusfriendUserKey") r.properties)

abbrev pub channel_of : Option (Str × Str) → Str
channel_of none = lit "default"
channel_of (some (id, name)) = if is_empty id then lit "default" else id

-- `GetChannelID`
unfoldable pub get_channel_id : KakaoWebhookRequest → Str
get_channel_id r = channel_of r.bot

-- `omitempty`
abbrev pub optional_text : Str → Str → Fields → Fields
optional_text key value rest = if is_empty value then rest else field key (Json.str value) rest

abbrev pub optional_object : Str → Option Fields → Fields → Fields
optional_object key none rest = rest
optional_object key (some end) rest = rest
optional_object key (some fs) rest = field key (Json.obj fs) rest

abbrev pub optional_bot : Option (Str × Str) → Fields → Fields
optional_bot none rest = rest
optional_bot (some (id, name)) rest =
    field (lit "bot")
      (Json.obj (field (lit "id") (Json.str id) (optional_text (lit "name") name end))) rest

-- `ToJSON`
unfoldable pub to_json : KakaoWebhookRequest → Json
to_json r =
    let user = field (lit "id") (Json.str r.user_id) (
      optional_text (lit "type") r.user_type
        (optional_object (lit "properties") r.properties end)) in
    let request = field (lit "user") (Json.obj user) (
      field (lit "utterance") (Json.str r.utterance)
        (optional_text (lit "callbackUrl") r.callback_url r.user_others)) in
    Json.obj (field (lit "userRequest") (Json.obj request) (optional_bot r.bot r.others))
