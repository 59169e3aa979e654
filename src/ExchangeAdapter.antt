-- ===== src/ExchangeAdapter.antt =====
-- src/modules/exchange/exchange_adapter.h: what an exchange's adapter offers to its connection. The
-- book that `parse_orderbook_message` fills is passed in and out, since a failure leaves it half
-- filled; a message is a list of bytes. The name and the endpoint, which only logs use, are left out.
use dpdk_cex_source.Base.{ℕ, Bool, List}
use dpdk_cex_source.AeroTypes.{ExchangeId}
use dpdk_cex_source.UdpFeed.{ParsedOrderBook}

pub record IExchangeAdapter (Q : Type 0) : Type 0 where
  pub exchange_id : ExchangeId
  pub parse_orderbook_message : List ℕ → ParsedOrderBook Q → Bool × ParsedOrderBook Q
  pub generate_subscribe_message : List ℕ → List ℕ → List ℕ
  pub generate_unsubscribe_message : List ℕ → List ℕ → List ℕ
  pub generate_pong_message : List ℕ
  pub is_ping_message : List ℕ → Bool
  pub is_subscription_response : List ℕ → Bool
