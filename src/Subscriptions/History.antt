-- ===== src/Subscriptions/History.antt =====
-- The histories of the subscriptions of a client: its operations, the answers of the exchange, and the
-- changes of its state by the handshake.
use dpdk_cex_source.Base.{ℕ, false, List, [], ◌∷◌}
use dpdk_cex_source.AeroTypes.{ExchangeId}
use dpdk_cex_source.Subscriptions.{
  WsState, ws_disconnected, WebSocketClient, subscribe, unsubscribe, disconnect, on_subscribed,
  initiate_reconnect, try_reconnect, restore_subscriptions,
}

pub data SubscriptionEvent : Type 0 where
  subscribe_called : ExchangeId → List ℕ → List ℕ → SubscriptionEvent
  unsubscribe_called : ExchangeId → List ℕ → List ℕ → SubscriptionEvent
  disconnect_called : SubscriptionEvent
  answered : List ℕ → List ℕ → SubscriptionEvent
  reconnect_initiated : ℕ → SubscriptionEvent
  reconnect_tried : ℕ → SubscriptionEvent
  restore_called : SubscriptionEvent
  -- `set_state` by connect and process_rx
  moved : WsState → SubscriptionEvent

-- What the constructor leaves of these fields.
unfoldable pub new_client : WebSocketClient
new_client = record {
  state = ws_disconnected;
  subscriptions = [];
  saved_subscriptions = [];
  reconnect_attempts = 0;
  next_reconnect_time = 0;
  reconnect_pending = false;
}

unfoldable pub happens : WebSocketClient → SubscriptionEvent → WebSocketClient
unfolding subscribe unsubscribe disconnect on_subscribed initiate_reconnect try_reconnect
    restore_subscriptions
happens c (subscribe_called e instrument channel) = (subscribe c e instrument channel).0
happens c (unsubscribe_called e instrument channel) = (unsubscribe c e instrument channel).0
happens c disconnect_called = (disconnect c).0
happens c (answered instrument channel) = on_subscribed c instrument channel
happens c (reconnect_initiated now) = initiate_reconnect c now
happens c (reconnect_tried now) = (try_reconnect c now).0
happens c restore_called = (restore_subscriptions c).0
happens c (moved s) = record c { state = s }

unfoldable pub after : WebSocketClient → List SubscriptionEvent → WebSocketClient
unfolding happens
after c [] = c
after c (e ∷ events) = after (happens c e) events
