-- ===== src/Handler/Kakao.antt =====
-- internal/handler/kakao.go: the webhook and the chat commands.
pub mod Orphans
pub mod Queueing
pub mod Relaying
pub mod Commands
use kakao_relay.Prelude.{
  ℕ, ◌+◌, Str, Bool, true, Option, none, some, ◌++◌, lit, if◌then◌else◌, is_empty, decimal,
}
use kakao_relay.Model.{
  Json, end, field, ConversationMapping, InboundMessage, Session, unpaired, paired, is_paired,
  to_sse_event_data,
}
use kakao_relay.World.{Event, World, Result, ok, err}
use kakao_relay.Runtime.{Runtime}
use kakao_relay.Broker.{publish}
use kakao_relay.Repository.Inbound.{CreateInboundParams}
use kakao_relay.Repository.Sessions
use kakao_relay.Service.Conversation.{build_conversation_key, find_or_create, update_state}
use kakao_relay.Service.Message.{QuickStats, create_inbound, get_quick_stats}
use kakao_relay.Service.Session.{
  SessionPairResult, success, invalid_code, internal_error, verify_pairing_code,
  publish_pairing_complete,
}
use kakao_relay.Handler.Command.{
  Command, CommandType, pair, unpair, status, help, unknown, parse_command,
}
use kakao_relay.Handler.Types.{
  KakaoWebhookRequest, KakaoResponse, new_text_response, new_callback_response,
  get_plusfriend_user_key, get_channel_id, to_json,
}

-- A handler that answers Kakao.
abbrev pub Handles : Type 0
Handles = World → KakaoResponse × World

abbrev pub says : Str → Handles
says text w = (new_text_response text, w)

abbrev pub not_connected_text : Str
not_connected_text =
    lit "OpenClaw에 연결되지 않았습니다.\n\n연결하려면 페어링 코드를 받은 후:\n/pair <코드>\n\n를 입력해주세요.\n\n도움말: /help"

abbrev pub no_code_text : Str
no_code_text = lit "페어링 코드를 입력해주세요.\n\n예: /pair ABCD-1234"

abbrev pub already_paired_text : Str
already_paired_text = lit "이미 OpenClaw에 연결되어 있습니다.\n\n다른 봇에 연결하려면 먼저 /unpair 로 연결을 해제하세요."

abbrev pub invalid_code_text : Str
invalid_code_text = lit "❌ 유효하지 않은 코드입니다.\n\n코드를 다시 확인해주세요."

abbrev pub internal_error_text : Str
internal_error_text = lit "❌ 오류가 발생했습니다. 다시 시도해주세요."

abbrev pub paired_text : Str
paired_text = lit "✅ OpenClaw에 연결되었습니다!\n\n이제 자유롭게 대화를 시작하세요."

-- The lookup of the session after pairing, and the event; errors are logged only.
unfoldable pub announce : Str → Result (Option Session) × World → World
announce key (ok (some s), w) = (publish_pairing_complete s key w).1
announce key (_, w) = w

-- What follows `VerifyPairingCode`; the error of `UpdateState` is logged only.
unfoldable pub after_pairing : Str → SessionPairResult × World → KakaoResponse × World
unfolding announce
after_pairing key (invalid_code, w) = says invalid_code_text w
after_pairing key (internal_error, w) = says internal_error_text w
after_pairing key (success session_id account_id token, w) =
    let (r, w') = update_state key paired (some account_id) w in
    says paired_text (announce key (Sessions.find_by_id session_id w'))

unfoldable pub handle_pair : Runtime → Str → ConversationMapping → Str → Handles
unfolding after_pairing
handle_pair rt code conv key w =
    if is_empty code
    then says no_code_text w
    else if is_paired conv.state
    then says already_paired_text w
    else after_pairing key (verify_pairing_code rt code key w)

abbrev pub not_paired_text : Str
not_paired_text = lit "연결된 OpenClaw가 없습니다."

abbrev pub unpair_failed_text : Str
unpair_failed_text = lit "연결 해제에 실패했습니다. 다시 시도해주세요."

abbrev pub unpaired_text : Str
unpaired_text = lit "연결이 해제되었습니다.\n\n다시 연결하려면 /pair <코드>를 사용하세요."

abbrev pub unpair_text : Result (Unit {0}) → Str
unpair_text (ok _) = unpaired_text
unpair_text (err _) = unpair_failed_text

unfoldable pub handle_unpair : ConversationMapping → Str → Handles
handle_unpair conv key w =
    if is_paired conv.state
    then (let (r, w') = update_state key unpaired none w in says (unpair_text r) w')
    else says not_paired_text w

abbrev pub paired_at_text : Runtime → Option ℕ → Str
paired_at_text rt none = lit "알 수 없음"
paired_at_text rt (some t) = rt.format_time t

abbrev pub stats_text : Str → Result QuickStats → Str
stats_text paired_at (err _) = lit "✅ 연결됨\n\n연결 시간: " ++ paired_at
stats_text paired_at (ok s) =
    lit "✅ 연결됨\n\n📊 오늘 통계\n• 수신: "
    ++ decimal s.inbound_today
    ++ lit "건\n• 발신: "
    ++ decimal s.outbound_today
    ++ lit "건 (실패 "
    ++ decimal s.outbound_failed
    ++ lit ")\n\n📈 전체 통계\n• 총 수신: "
    ++ decimal s.inbound_total
    ++ lit "건\n• 총 발신: "
    ++ decimal s.outbound_total
    ++ lit "건\n\n연결 시간: "
    ++ paired_at

abbrev pub disconnected_text : Str
disconnected_text = lit "❌ 연결되지 않음\n\n/pair <코드>로 연결하세요."

unfoldable pub status_of_account : Runtime → ConversationMapping → Option Str → Handles
status_of_account rt conv none w = says disconnected_text w
status_of_account rt conv (some account_id) w =
    let (r, w') = get_quick_stats rt account_id w in
    says (stats_text (paired_at_text rt conv.paired_at) r) w'

unfoldable pub handle_status : Runtime → ConversationMapping → Handles
unfolding status_of_account
handle_status rt conv w =
    if is_paired conv.state
    then status_of_account rt conv conv.account_id w
    else says disconnected_text w

abbrev pub help_text : Str
help_text =
    lit
      "📖 도움말\n\n이 봇은 OpenClaw AI 에이전트와 연결하는 중계 서비스입니다.\n\n명령어:\n• /pair <코드> - OpenClaw에 연결\n• /unpair - 연결 해제\n• /status - 연결 상태 확인\n• /help - 이 도움말"

abbrev pub unknown_text : Str
unknown_text = lit "알 수 없는 명령어입니다. /help를 입력해 도움말을 확인하세요."

-- The `switch` of `handleCommand`.
unfoldable pub dispatch_command : Runtime → CommandType → Str → ConversationMapping → Str → Handles
unfolding handle_pair handle_unpair handle_status
dispatch_command rt pair code conv key w = handle_pair rt code conv key w
dispatch_command rt unpair code conv key w = handle_unpair conv key w
dispatch_command rt status code conv key w = handle_status rt conv w
dispatch_command rt help code conv key w = says help_text w
dispatch_command rt unknown code conv key w = says unknown_text w

-- `handleCommand`
unfoldable pub handle_command : Runtime → Command → ConversationMapping → Str → Handles
unfolding dispatch_command
handle_command rt cmd conv key w = dispatch_command rt cmd.type cmd.code conv key w

-- The normalized message.
abbrev pub normalized : KakaoWebhookRequest → Json
normalized r = Json.obj (
    field (lit "userId") (Json.str (get_plusfriend_user_key r)) (
      field (lit "text") (Json.str r.utterance)
        (field (lit "channelId") (Json.str (get_channel_id r)) end)))

abbrev pub key_of : KakaoWebhookRequest → Str
key_of r = build_conversation_key (get_channel_id r) (get_plusfriend_user_key r)

abbrev pub callback_url_of : KakaoWebhookRequest → Option Str
callback_url_of r = if is_empty r.callback_url then none else some r.callback_url

abbrev pub callback_expiry_of : KakaoWebhookRequest → ℕ → ℕ → Option ℕ
callback_expiry_of r ttl now = if is_empty r.callback_url then none else some (now + ttl)

abbrev pub inbound_params : KakaoWebhookRequest → ℕ → ℕ → Str → CreateInboundParams
inbound_params r ttl now account_id = record {
  account_id = account_id;
  conversation_key = key_of r;
  kakao_payload = to_json r;
  normalized_message = normalized r;
  callback_url = callback_url_of r;
  callback_expires_at = callback_expiry_of r ttl now;
  source_event_id = none;
}

abbrev pub message_event : InboundMessage → Event
message_event m = record { type = lit "message"; payload = to_sse_event_data m }

-- After `CreateInbound`; the error of `Publish` is logged only.
unfoldable pub publish_created : Str → Result InboundMessage × World → KakaoResponse × World
publish_created account_id (err _, w) = (new_callback_response, w)
publish_created account_id (ok m, w) =
    (new_callback_response, (publish account_id (message_event m) w).1)

unfoldable pub relay_message : KakaoWebhookRequest → ℕ → Bool → Option Str → Handles
unfolding publish_created
relay_message r ttl true (some account_id) w =
    publish_created account_id (create_inbound (inbound_params r ttl w.now account_id) w)
relay_message r ttl _ _ w = says not_connected_text w

unfoldable pub on_utterance :
    Runtime → KakaoWebhookRequest → ℕ → ConversationMapping → Option Command → Handles
unfolding handle_command relay_message
on_utterance rt r ttl conv (some cmd) w = handle_command rt cmd conv (key_of r) w
on_utterance rt r ttl conv none w = relay_message r ttl (is_paired conv.state) conv.account_id w

-- After `FindOrCreate`.
unfoldable pub on_conversation :
    Runtime → KakaoWebhookRequest → ℕ → Result ConversationMapping × World → KakaoResponse × World
unfolding on_utterance
on_conversation rt r ttl (err _, w) = (new_callback_response, w)
on_conversation rt r ttl (ok conv, w) =
    on_utterance rt r ttl conv (parse_command rt.upper_table r.utterance) w

pub data WebhookAnswer : Type 0 where
  bad_request : WebhookAnswer
  answer : KakaoResponse → WebhookAnswer

-- `Webhook` of a decoded request.
unfoldable pub handle_webhook : Runtime → ℕ → KakaoWebhookRequest → Handles
unfolding on_conversation
handle_webhook rt ttl r w = on_conversation rt r ttl (
    find_or_create (get_channel_id r) (get_plusfriend_user_key r) (callback_url_of r)
      (callback_expiry_of r ttl w.now) w)

-- `Webhook`: a body that does not decode is `none`.
unfoldable pub webhook : Runtime → ℕ → Option KakaoWebhookRequest → World → WebhookAnswer × World
unfolding handle_webhook
webhook rt ttl none w = (bad_request, w)
webhook rt ttl (some r) w = let (a, w') = handle_webhook rt ttl r w in (answer a, w')
