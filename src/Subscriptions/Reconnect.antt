-- ===== src/Subscriptions/Reconnect.antt =====
-- What a reconnection does to the subscriptions.

use dpdk_cex_source.Base.{ℕ, ◌+◌, ◌≤◌, ◌<◌, ◌≡◌, refl, ap, ◌∙◌, true, false, List, [], ◌∷◌, arith}
use dpdk_cex_source.Base.Bytes.{u32}
use dpdk_cex_source.Base.Ord.{string_ord}
use dpdk_cex_source.Base.SortedMap.{SortedMap}
use dpdk_cex_source.Subscriptions.{
  Subscription, ws_connected, WebSocketClient, calculate_backoff_ms, Step, confirmed_of,
  initiate_reconnect, try_reconnect, subscribe_all, restore_subscriptions,
}
use dpdk_cex_source.Subscriptions.History.{SubscriptionEvent, new_client, after}
use dpdk_cex_source.Subscriptions.Tracking.{history-IsTracking}
use dpdk_cex_source.Subscriptions.Keys.{Before}
use dpdk_cex_source.Subscriptions.Restore.{
  IsTracking, pending_again, requests_for, subscribe_all-confirmed,
}

-- Losing the connection and getting it back: `initiate_reconnect`, `try_reconnect` when the time has
-- come, and `restore_subscriptions` once the handshake is over.
abbrev pub reconnected : WebSocketClient → ℕ → ℕ → Step
reconnected c now later =
    restore_subscriptions
      (record (try_reconnect (initiate_reconnect c now) later).0 { state = ws_connected })

Before-nil : (m : SortedMap (List ℕ) Subscription) → Before string_ord [] m
Before-nil [] = tt
Before-nil (x ∷ m) = tt

-- The client behind the handshake, with the subscriptions to restore.
abbrev ready : WebSocketClient → List Subscription → ℕ → ℕ → WebSocketClient
ready c ss attempts next = record {
  state = ws_connected;
  subscriptions = [];
  saved_subscriptions = ss;
  reconnect_attempts = attempts;
  next_reconnect_time = next;
  reconnect_pending = false;
}

-- The client that waits for its next attempt.
abbrev lost : WebSocketClient → ℕ → WebSocketClient
lost c next = record {
  state = c.state;
  subscriptions = [];
  saved_subscriptions = confirmed_of c.subscriptions;
  reconnect_attempts = c.reconnect_attempts + 1;
  next_reconnect_time = next;
  reconnect_pending = true;
}

pub calculate_backoff_ms-bound : (c : WebSocketClient) → calculate_backoff_ms c ≤ 30000
unfolding calculate_backoff_ms
calculate_backoff_ms-bound c = omega arith

small_count : (n : ℕ) → n < 10 → u32 (n + 1) ≡ n + 1
small_count n h = omega arith

initiate_reconnect-lost :
    (c : WebSocketClient) (now : ℕ)
    → c.reconnect_pending ≡ false
    → c.reconnect_attempts < 10
    → (next : ℕ) × (initiate_reconnect c now ≡ lost c next) × (next ≤ now + 30000)
unfolding initiate_reconnect
initiate_reconnect-lost c now idle few =
    let wait = calculate_backoff_ms (lost c 0) in
    (
      now + wait,
      rw (idle, small_count c.reconnect_attempts few) refl,
      omega (arith, calculate_backoff_ms-bound (lost c 0)),
    )

try_reconnect-lost :
    (c : WebSocketClient) (next later : ℕ)
    → c.reconnect_attempts < 10
    → next ≤ later
    → record (try_reconnect (lost c next) later).0 { state = ws_connected }
      ≡ ready c (confirmed_of c.subscriptions) (c.reconnect_attempts + 1) next
unfolding try_reconnect
try_reconnect-lost c next later few wait = ground arith

reconnected-ready :
    (c : WebSocketClient) (now later : ℕ)
    → c.reconnect_pending ≡ false
    → c.reconnect_attempts < 10
    → now + 30000 ≤ later
    → (next : ℕ) × (reconnected c now later
        ≡ restore_subscriptions
            (ready c (confirmed_of c.subscriptions) (c.reconnect_attempts + 1) next))
reconnected-ready c now later idle few wait =
    let (next, e, soon) = initiate_reconnect-lost c now idle few in
    (next, rw e (ap restore_subscriptions (try_reconnect-lost c next later few (omega arith))))

restored :
    (c : WebSocketClient) (ss : List Subscription) (attempts next : ℕ)
    → let r = restore_subscriptions (ready c ss attempts next) in
      let a = subscribe_all (ready c ss 0 next) ss in
      (r.0.subscriptions ≡ a.0.subscriptions)
      × (r.1 ≡ a.1)
      × (r.0.reconnect_pending ≡ a.0.reconnect_pending)
unfolding restore_subscriptions subscribe_all
restored c [] attempts next = (refl, refl, refl)
restored c (s ∷ ss) attempts next = (refl, refl, refl)

-- A reconnection within the allowed attempts brings back exactly the confirmed subscriptions, each
-- pending again and with one subscribe message in the order of the map, and no others; no other
-- reconnection is pending then.
restore_subscriptions-reconnected :
    (c : WebSocketClient) (now later : ℕ)
    → IsTracking c
    → c.reconnect_pending ≡ false
    → c.reconnect_attempts < 10
    → now + 30000 ≤ later
    → ((reconnected c now later).0.subscriptions ≡ pending_again c.subscriptions)
      × ((reconnected c now later).1 ≡ requests_for c.subscriptions)
      × ((reconnected c now later).0.reconnect_pending ≡ false)
restore_subscriptions-reconnected c now later (o, t) idle few wait =
    let ss = confirmed_of c.subscriptions in
    let (next, e) = reconnected-ready c now later idle few wait in
    let (x, y, z) = restored c ss (c.reconnect_attempts + 1) next in
    let all =
      subscribe_all-confirmed (ready c ss 0 next) [] c.subscriptions refl o t
        (Before-nil c.subscriptions) in
    rw e (
      x ∙ ap (λ (q : Step). q.0.subscriptions) all,
      y ∙ ap (λ (q : Step). q.1) all,
      z ∙ ap (λ (q : Step). q.0.reconnect_pending) all,
    )

-- After any history of a new client that leaves no reconnection pending and fewer than ten attempts,
-- a reconnection whose attempt comes at least 30 seconds after it began and succeeds brings back
-- exactly the confirmed subscriptions, each pending again and with one subscribe message in the order
-- of the map, and no others; no other reconnection is pending then.
pub restore_subscriptions-after :
    (events : List SubscriptionEvent) (now later : ℕ)
    → (after new_client events).reconnect_pending ≡ false
    → (after new_client events).reconnect_attempts < 10
    → now + 30000 ≤ later
    → ((reconnected (after new_client events) now later).0.subscriptions
        ≡ pending_again (after new_client events).subscriptions)
      × ((reconnected (after new_client events) now later).1
          ≡ requests_for (after new_client events).subscriptions)
      × ((reconnected (after new_client events) now later).0.reconnect_pending ≡ false)
restore_subscriptions-after events now later =
    restore_subscriptions-reconnected (after new_client events) now later
      (history-IsTracking events)

initiate_reconnect_empty :
    (c : WebSocketClient) (next later again : ℕ)
    → c.reconnect_attempts < 10
    → next ≤ later
    → (initiate_reconnect (try_reconnect (lost c next) later).0 again).saved_subscriptions ≡ []
unfolding initiate_reconnect try_reconnect confirmed_of
initiate_reconnect_empty c next later again few wait = ground arith

-- A reconnection whose connection fails before the subscriptions are restored loses them: the next
-- `initiate_reconnect` saves none.
pub initiate_reconnect-forgets :
    (c : WebSocketClient) (now later again : ℕ)
    → c.reconnect_pending ≡ false
    → c.reconnect_attempts < 10
    → now + 30000 ≤ later
    → (initiate_reconnect
        (try_reconnect (initiate_reconnect c now) later).0
        again).saved_subscriptions
      ≡ []
initiate_reconnect-forgets c now later again idle few wait =
    let (next, e, soon) = initiate_reconnect-lost c now idle few in
    rw e (initiate_reconnect_empty c next later again few (omega arith))
