-- ===== src/Subscriptions/Tracking.antt =====
-- The map of subscriptions keeps its order and its keys under every operation.
use dpdk_cex_source.Base.{
  ℕ, ◌≡◌, refl, true, List, [], ◌∷◌, arith, inl, inr, Option-cases, Bool-cases,
}
use dpdk_cex_source.AeroTypes.{ExchangeId, okx}
use dpdk_cex_source.Base.Ord.{string_ord}
use dpdk_cex_source.Base.SortedMap.{SortedMap, find, insert, erase, insert-IsSorted, erase-IsSorted}
use dpdk_cex_source.Base.SortedMap.Entries.{Entries, Entries-insert, Entries-erase, Entries-find}
use dpdk_cex_source.Subscriptions.{
  Subscription, pending, confirmed, WebSocketClient, make_subscription_key, is_known, subscribe,
  unsubscribe, disconnect, on_subscribed, initiate_reconnect, try_reconnect, subscribe_all,
  restore_subscriptions,
}
use dpdk_cex_source.Subscriptions.History.{
  SubscriptionEvent, subscribe_called, unsubscribe_called, disconnect_called, answered,
  reconnect_initiated, reconnect_tried, restore_called, moved, new_client, happens, after,
}
use dpdk_cex_source.Subscriptions.Restore.{key_of, Tracked, IsTracking}

-- Tracked, as a relation of the entries.
abbrev IsTracked : List ℕ → Subscription → Type 0
IsTracked k s = (k ≡ key_of s) × (is_known s.exchange ≡ true)

Tracked-Entries : (m : SortedMap (List ℕ) Subscription) → Tracked m → Entries string_ord IsTracked m
Tracked-Entries [] t = tt
Tracked-Entries ((k, s) ∷ m) (e, known, t) = ((e, known), Tracked-Entries m t)

Entries-Tracked : (m : SortedMap (List ℕ) Subscription) → Entries string_ord IsTracked m → Tracked m
Entries-Tracked [] t = tt
Entries-Tracked ((k, s) ∷ m) ((e, known), t) = (e, known, Entries-Tracked m t)

-- A client whose map has one more entry, or one less.
insert-IsTracking :
    (c : WebSocketClient) (k : List ℕ) (s : Subscription)
    → IsTracked k s
    → IsTracking c
    → IsTracking (record c { subscriptions = insert string_ord k s c.subscriptions })
insert-IsTracking c k s p (o, t) = (
  insert-IsSorted string_ord k s c.subscriptions o,
  Entries-Tracked (insert string_ord k s c.subscriptions) (
      Entries-insert string_ord IsTracked k s c.subscriptions p
        (Tracked-Entries c.subscriptions t)),
)

erase-IsTracking :
    (c : WebSocketClient) (k : List ℕ)
    → IsTracking c
    → IsTracking (record c { subscriptions = erase string_ord k c.subscriptions })
erase-IsTracking c k (o, t) = (
  erase-IsSorted string_ord k c.subscriptions o,
  Entries-Tracked (erase string_ord k c.subscriptions)
      (Entries-erase string_ord IsTracked k c.subscriptions (Tracked-Entries c.subscriptions t)),
)

subscribe-IsTracking :
    (c : WebSocketClient) (e : ExchangeId) (instrument channel : List ℕ)
    → IsTracking c
    → IsTracking (subscribe c e instrument channel).0
unfolding subscribe
subscribe-IsTracking c e instrument channel v =
    let key = make_subscription_key e instrument channel in
    let s : Subscription = record {
      exchange = e;
      instrument = instrument;
      channel = channel;
      state = pending;
    } in
    elim (Bool-cases (is_known e)) [
      | inl known ↦ ground (arith, known, insert-IsTracking c key s (refl, known) v)
      | inr other ↦ ground (arith, other)
    ]

unsubscribe-IsTracking :
    (c : WebSocketClient) (e : ExchangeId) (instrument channel : List ℕ)
    → IsTracking c
    → IsTracking (unsubscribe c e instrument channel).0
unfolding unsubscribe
unsubscribe-IsTracking c e instrument channel v =
    ground (arith, erase-IsTracking c (make_subscription_key e instrument channel) v)

on_subscribed-IsTracking :
    (c : WebSocketClient) (instrument channel : List ℕ)
    → IsTracking c
    → IsTracking (on_subscribed c instrument channel)
unfolding on_subscribed
on_subscribed-IsTracking c instrument channel v =
    let key = make_subscription_key okx instrument channel in
    elim (Option-cases (find string_ord key c.subscriptions)) [
      | inl e ↦ ground (arith, e)
      | inr (s, e) ↦
          let p =
            Entries-find string_ord IsTracked key s c.subscriptions
              (Tracked-Entries c.subscriptions v.1) e in
          ground (arith, e, insert-IsTracking c key (record s { state = confirmed }) p v)
    ]

disconnect-IsTracking : (c : WebSocketClient) → IsTracking c → IsTracking (disconnect c).0
unfolding disconnect
disconnect-IsTracking c v = ground arith

initiate_reconnect-IsTracking :
    (c : WebSocketClient) (now : ℕ) → IsTracking c → IsTracking (initiate_reconnect c now)
unfolding initiate_reconnect
initiate_reconnect-IsTracking c now v = ground arith

try_reconnect-IsTracking :
    (c : WebSocketClient) (now : ℕ) → IsTracking c → IsTracking (try_reconnect c now).0
unfolding try_reconnect
try_reconnect-IsTracking c now v = ground arith

subscribe_all-IsTracking :
    (c : WebSocketClient) (ss : List Subscription)
    → IsTracking c
    → IsTracking (subscribe_all c ss).0
unfolding subscribe_all
subscribe_all-IsTracking c [] v = v
subscribe_all-IsTracking c (s ∷ ss) v =
    subscribe_all-IsTracking (subscribe c s.exchange s.instrument s.channel).0 ss
      (subscribe-IsTracking c s.exchange s.instrument s.channel v)

restore_subscriptions-IsTracking :
    (c : WebSocketClient) → IsTracking c → IsTracking (restore_subscriptions c).0
unfolding restore_subscriptions
restore_subscriptions-IsTracking c v =
    let all =
      subscribe_all-IsTracking (record c { reconnect_attempts = 0 }) c.saved_subscriptions v in
    ground (arith, all)

happens-IsTracking :
    (c : WebSocketClient) (e : SubscriptionEvent) → IsTracking c → IsTracking (happens c e)
unfolding happens
happens-IsTracking c (subscribe_called e i ch) v = subscribe-IsTracking c e i ch v
happens-IsTracking c (unsubscribe_called e i ch) v = unsubscribe-IsTracking c e i ch v
happens-IsTracking c disconnect_called v = disconnect-IsTracking c v
happens-IsTracking c (answered i ch) v = on_subscribed-IsTracking c i ch v
happens-IsTracking c (reconnect_initiated now) v = initiate_reconnect-IsTracking c now v
happens-IsTracking c (reconnect_tried now) v = try_reconnect-IsTracking c now v
happens-IsTracking c restore_called v = restore_subscriptions-IsTracking c v
happens-IsTracking c (moved s) v = v

after-IsTracking :
    (c : WebSocketClient) (events : List SubscriptionEvent)
    → IsTracking c
    → IsTracking (after c events)
unfolding after
after-IsTracking c [] v = v
after-IsTracking c (e ∷ events) v = after-IsTracking (happens c e) events (happens-IsTracking c e v)

-- The map of any client that a history of operations on a new one leads to is sorted, and its entries
-- stand under their own keys.
pub history-IsTracking : (events : List SubscriptionEvent) → IsTracking (after new_client events)
unfolding new_client
history-IsTracking events = after-IsTracking new_client events (tt, tt)
