-- ===== src/Handler/Kakao/Commands.antt =====
-- The chat commands leave the queue of inbound messages alone.
use kakao_relay.Prelude.{Str, Option, none, some, List, subst, ◌≡◌, refl, ap, ◌∙◌, arith}
use kakao_relay.Model.{ConversationMapping, InboundMessage, PairingState, Session}
use kakao_relay.World.{Database, World, Result, ok, err}
use kakao_relay.Runtime.{Runtime}
use kakao_relay.Broker.{publish}
use kakao_relay.Repository.Conversations
use kakao_relay.Repository.Inbound
use kakao_relay.Repository.Outbound
use kakao_relay.Repository.Sessions
use kakao_relay.Service.Conversation.{update_state}
use kakao_relay.Service.Message.{get_quick_stats}
use kakao_relay.Service.Session.{
  SessionPairResult, success, invalid_code, internal_error, verify_pairing_code,
  publish_pairing_complete, publish_to,
}
use kakao_relay.Service.Session.Atomicity.{Unchanged, verify-Unchanged}
use kakao_relay.Service.Session.Pairing.{verify-Paired}
use kakao_relay.Handler.Command.{Command, CommandType, pair, unpair, status, help, unknown}
use kakao_relay.Handler.Kakao.{
  announce, after_pairing, handle_pair, handle_unpair, status_of_account, handle_status,
  dispatch_command, handle_command,
}

abbrev pub inbound_of : World → List InboundMessage
inbound_of w = w.db.inbound

keeps-pairing :
    (rt : Runtime) (code key : Str) (w w' : World) (o : SessionPairResult)
    → verify_pairing_code rt code key w ≡ (o, w')
    → inbound_of w' ≡ inbound_of w
keeps-pairing rt code key w w' (success id account_id token) h =
    ap (λ (db : Database). db.inbound) (verify-Paired rt code key w w' id account_id token h).rows
keeps-pairing rt code key w w' invalid_code h =
    ap (λ (db : Database). db.inbound) (subst (Unchanged w.db) h (verify-Unchanged rt key code w))
keeps-pairing rt code key w w' internal_error h =
    ap (λ (db : Database). db.inbound) (subst (Unchanged w.db) h (verify-Unchanged rt key code w))

keeps-update_state :
    (key : Str) (st : PairingState) (o : Option Str) (w : World)
    → inbound_of (update_state key st o w).1 ≡ inbound_of w
unfolding update_state Conversations.update_state
keeps-update_state key st o w = ground arith

keeps-announce :
    (key : Str) (r : Result (Option Session)) (w : World)
    → inbound_of (announce key (r, w)) ≡ inbound_of w
unfolding announce publish_pairing_complete publish_to publish
keeps-announce key (ok (some s)) w = ground arith
keeps-announce key (ok none) w = refl
keeps-announce key (err e) w = refl

keeps-find : (id : Str) (w : World) → inbound_of (Sessions.find_by_id id w).1 ≡ inbound_of w
unfolding Sessions.find_by_id
keeps-find id w = ground arith

keeps-after_pairing :
    (key : Str) (o : SessionPairResult) (w : World)
    → inbound_of (after_pairing key (o, w)).1 ≡ inbound_of w
unfolding after_pairing
keeps-after_pairing key invalid_code w = refl
keeps-after_pairing key internal_error w = refl
keeps-after_pairing key (success id account_id token) w =
    let w' = (update_state key PairingState.paired (some account_id) w).1 in
    let (r, v) = Sessions.find_by_id id w' in
    keeps-announce key r v
    ∙ keeps-find id w'
    ∙ keeps-update_state key PairingState.paired (some account_id) w

keeps-handle_pair :
    (rt : Runtime) (code : Str) (conv : ConversationMapping) (key : Str) (w : World)
    → inbound_of (handle_pair rt code conv key w).1 ≡ inbound_of w
unfolding handle_pair
keeps-handle_pair rt code conv key w =
    let (o, w') = verify_pairing_code rt code key w in
    let paired : inbound_of (after_pairing key (o, w')).1 ≡ inbound_of w =
      keeps-after_pairing key o w' ∙ keeps-pairing rt code key w w' o refl in
    ground (arith, paired)

keeps-handle_unpair :
    (conv : ConversationMapping) (key : Str) (w : World)
    → inbound_of (handle_unpair conv key w).1 ≡ inbound_of w
unfolding handle_unpair
keeps-handle_unpair conv key w = ground (arith, keeps-update_state key PairingState.unpaired none w)

keeps-stats :
    (rt : Runtime) (id : Str) (w : World) → inbound_of (get_quick_stats rt id w).1 ≡ inbound_of w
unfolding get_quick_stats Inbound.count_by_account_id Inbound.count_by_account_id_since
    Outbound.count_by_account_id Outbound.count_by_account_id_since
    Outbound.count_by_account_id_and_status
keeps-stats rt id w = ground arith

keeps-status_of_account :
    (rt : Runtime) (conv : ConversationMapping) (o : Option Str) (w : World)
    → inbound_of (status_of_account rt conv o w).1 ≡ inbound_of w
unfolding status_of_account
keeps-status_of_account rt conv none w = refl
keeps-status_of_account rt conv (some id) w = keeps-stats rt id w

keeps-handle_status :
    (rt : Runtime) (conv : ConversationMapping) (w : World)
    → inbound_of (handle_status rt conv w).1 ≡ inbound_of w
unfolding handle_status
keeps-handle_status rt conv w = ground (arith, keeps-status_of_account rt conv conv.account_id w)

keeps-dispatch_command :
    (rt : Runtime) (t : CommandType) (code : Str) (conv : ConversationMapping) (key : Str)
    (w : World)
    → inbound_of (dispatch_command rt t code conv key w).1 ≡ inbound_of w
unfolding dispatch_command
keeps-dispatch_command rt pair code conv key w = keeps-handle_pair rt code conv key w
keeps-dispatch_command rt unpair code conv key w = keeps-handle_unpair conv key w
keeps-dispatch_command rt status code conv key w = keeps-handle_status rt conv w
keeps-dispatch_command rt help code conv key w = refl
keeps-dispatch_command rt unknown code conv key w = refl

-- No chat command adds, removes or changes an inbound message, whichever calls fail.
pub handle_command-inbound :
    (rt : Runtime) (cmd : Command) (conv : ConversationMapping) (key : Str) (w : World)
    → inbound_of (handle_command rt cmd conv key w).1 ≡ inbound_of w
unfolding handle_command
handle_command-inbound rt cmd conv key w = keeps-dispatch_command rt cmd.type cmd.code conv key w
