-- ===== src/Subscriptions/Tests.antt =====
-- Runs of the subscriptions and the reconnection on a concrete client.
use dpdk_cex_source.Base.{List, ◌≡◌, refl, false, [], ◌∷◌, arith}
use dpdk_cex_source.AeroTypes.{okx, bybit}
use dpdk_cex_source.Base.SortedMap.{find, insert}
use dpdk_cex_source.Subscriptions.{
  Subscription, pending, confirmed, ws_connected, WebSocketClient, make_subscription_key,
  initiate_reconnect, try_reconnect, subscribe, on_subscribed,
}
use dpdk_cex_source.Subscriptions.History.{
  SubscriptionEvent, moved, subscribe_called, answered, new_client, happens, after,
}
use dpdk_cex_source.Subscriptions.Restore.{pending_again, requests_for}
use dpdk_cex_source.Subscriptions.Reconnect.{
  reconnected, restore_subscriptions-after, initiate_reconnect-forgets,
}

abbrev books : Subscription
books = record { exchange = okx; instrument = 66 ∷ []; channel = 98 ∷ []; state = confirmed }

abbrev trades : Subscription
trades = record { exchange = bybit; instrument = 66 ∷ []; channel = 116 ∷ []; state = pending }

abbrev client : WebSocketClient
client = record {
  state = ws_connected;
  subscriptions =
      (make_subscription_key okx (66 ∷ []) (98 ∷ []), books)
      ∷ (make_subscription_key bybit (66 ∷ []) (116 ∷ []), trades)
      ∷ [];
  saved_subscriptions = [];
  reconnect_attempts = 0;
  next_reconnect_time = 0;
  reconnect_pending = false;
}

-- Two subscriptions, of which the exchange confirms one.
abbrev events : List SubscriptionEvent
events =
    moved ws_connected
    ∷ subscribe_called okx (66 ∷ []) (98 ∷ [])
    ∷ answered (66 ∷ []) (98 ∷ [])
    ∷ subscribe_called bybit (66 ∷ []) (116 ∷ [])
    ∷ []

events-client : after new_client events ≡ client
unfolding after happens new_client subscribe on_subscribed find insert
events-client = refl

restore_subscriptions-after_example :
    ((reconnected (after new_client events) 1000 40000).0.subscriptions
      ≡ pending_again (after new_client events).subscriptions)
    × ((reconnected (after new_client events) 1000 40000).1
        ≡ requests_for (after new_client events).subscriptions)
    × ((reconnected (after new_client events) 1000 40000).0.reconnect_pending ≡ false)
unfolding after happens new_client subscribe on_subscribed find insert
restore_subscriptions-after_example =
    restore_subscriptions-after events 1000 40000 refl (omega arith) (omega arith)

initiate_reconnect-forgets_example :
    (initiate_reconnect
      (try_reconnect (initiate_reconnect client 1000) 40000).0
      50000).saved_subscriptions
    ≡ []
initiate_reconnect-forgets_example =
    initiate_reconnect-forgets client 1000 40000 50000 refl (omega arith) (omega arith)
