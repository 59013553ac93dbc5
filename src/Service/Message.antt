-- ===== src/Service/Message.antt =====
-- internal/service/message.go
use kakao_relay.Prelude.{ℕ, Str, Option, List, lit}
use kakao_relay.Model.{InboundMessage, OutboundMessage, is_failed}
use kakao_relay.World.{M, pure, wrapped, ◌>>=◌}
use kakao_relay.Runtime.{Runtime}
use kakao_relay.Repository.Inbound
use kakao_relay.Repository.Inbound.{CreateInboundParams}
use kakao_relay.Repository.Outbound
use kakao_relay.Repository.Outbound.{CreateOutboundParams}

unfoldable pub create_inbound : CreateInboundParams → M InboundMessage
create_inbound p = wrapped (lit "create inbound message") (Inbound.create p)

unfoldable pub find_inbound_by_id : Str → M (Option InboundMessage)
find_inbound_by_id id = Inbound.find_by_id id

unfoldable pub find_queued_by_account_id : Str → M (List InboundMessage)
find_queued_by_account_id id = Inbound.find_queued_by_account_id id

unfoldable pub mark_delivered : Str → M (Unit {0})
mark_delivered id = wrapped (lit "mark delivered") (Inbound.mark_delivered id)

unfoldable pub mark_acked : Str → M (Unit {0})
mark_acked id = wrapped (lit "mark acked") (Inbound.mark_acked id)

unfoldable pub create_outbound : CreateOutboundParams → M OutboundMessage
create_outbound p = wrapped (lit "create outbound message") (Outbound.create p)

unfoldable pub mark_outbound_sent : Str → M (Unit {0})
mark_outbound_sent id = Outbound.mark_sent id

unfoldable pub mark_outbound_failed : Str → Str → M (Unit {0})
mark_outbound_failed id e = Outbound.mark_failed id e

pub record QuickStats : Type 0 where
  pub inbound_today : ℕ
  pub inbound_total : ℕ
  pub outbound_today : ℕ
  pub outbound_total : ℕ
  pub outbound_failed : ℕ

-- The clock's value, as an action.
abbrev pub read_now : M ℕ
read_now w = pure w.now w

unfoldable pub get_quick_stats : Runtime → Str → M QuickStats
get_quick_stats rt id = do
  now ← read_now
  let today = rt.day_start now
  inbound_total ← wrapped (lit "count inbound messages") (Inbound.count_by_account_id id)
  inbound_today ← wrapped (lit "count inbound today") (Inbound.count_by_account_id_since id today)
  outbound_total ← wrapped (lit "count outbound messages") (Outbound.count_by_account_id id)
  outbound_today ←
      wrapped (lit "count outbound today") (Outbound.count_by_account_id_since id today)
  failed ←
      wrapped (lit "count failed messages") (Outbound.count_by_account_id_and_status id is_failed)
  pure (record {
    inbound_today = inbound_today;
    inbound_total = inbound_total;
    outbound_today = outbound_today;
    outbound_total = outbound_total;
    outbound_failed = failed;
  })
