-- ===== src/Subscriptions.antt =====
-- The subscriptions of WebSocketClient and its reconnection, src/modules/network/websocket_client.h
-- and websocket_client.cpp. What is sent to the exchange is a value of Request, of which the source
-- writes the JSON text; the callbacks leave no trace. Times are milliseconds of the steady clock.
pub mod Keys
pub mod Restore
pub mod History
pub mod Tracking
pub mod Reconnect
mod Tests
use dpdk_cex_source.Base.{
  ℕ, zero, suc, ◌+◌, ◌*◌, ◌^◌, min, Bool, true, false, if◌then◌else◌, ltb, List, [], ◌∷◌, ◌++◌,
  Option, none, some,
}
use dpdk_cex_source.Base.Bytes.{u32}
use dpdk_cex_source.Base.Ord.{string_ord}
use dpdk_cex_source.Base.SortedMap.{SortedMap, find, insert, erase}
use dpdk_cex_source.AeroTypes.{ExchangeId, okx, bybit, binance, gate, bitget, mexc, unknown}

pub data SubscriptionState : Type 0 where
  pending confirmed failed : SubscriptionState

pub record Subscription : Type 0 where
  pub exchange : ExchangeId
  pub instrument : List ℕ
  pub channel : List ℕ
  pub state : SubscriptionState

pub data WsState : Type 0 where
  ws_disconnected ws_connecting_tcp ws_connecting_tls ws_handshake_sent ws_connected : WsState

pub record WebSocketClient : Type 0 where
  pub state : WsState
  pub subscriptions : SortedMap (List ℕ) Subscription
  pub saved_subscriptions : List Subscription
  pub reconnect_attempts : ℕ
  pub next_reconnect_time : ℕ
  pub reconnect_pending : Bool

pub data Request : Type 0 where
  subscribes : ExchangeId → List ℕ → List ℕ → Request
  unsubscribes : ExchangeId → List ℕ → List ℕ → Request
  closes : Request
  connects : Request

-- A client's new state, and what it hands to the layer below.
abbrev pub Step : Type 0
Step = WebSocketClient × List Request

-- `static_cast<int>(exchange)` in decimal.
abbrev pub exchange_digits : ExchangeId → List ℕ
exchange_digits okx = 48 ∷ []
exchange_digits bybit = 49 ∷ []
exchange_digits binance = 50 ∷ []
exchange_digits gate = 51 ∷ []
exchange_digits bitget = 52 ∷ []
exchange_digits mexc = 53 ∷ []
exchange_digits unknown = 50 ∷ 53 ∷ 53 ∷ []

abbrev pub make_subscription_key : ExchangeId → List ℕ → List ℕ → List ℕ
make_subscription_key e instrument channel =
    exchange_digits e ++ (58 ∷ instrument ++ (58 ∷ channel))

-- The exchanges whose subscribe message the client can write.
abbrev pub is_known : ExchangeId → Bool
is_known okx = true
is_known bybit = true
is_known _ = false

unfoldable pub subscribe : WebSocketClient → ExchangeId → List ℕ → List ℕ → Step
subscribe c e instrument channel = elim c.state [
  | ws_connected ↦
      let key = make_subscription_key e instrument channel in
      elim (find string_ord key c.subscriptions) [
        | some s ↦ (c, [])
        | none ↦
            if is_known e
            then (
              record c {
                subscriptions =
                    insert string_ord key
                      (record {
                        exchange = e;
                        instrument = instrument;
                        channel = channel;
                        state = pending;
                      })
                      c.subscriptions;
              },
              subscribes e instrument channel ∷ [],
            )
            else (c, [])
      ]
  | _ ↦ (c, [])
]

unfoldable pub unsubscribe : WebSocketClient → ExchangeId → List ℕ → List ℕ → Step
unsubscribe c e instrument channel = elim c.state [
  | ws_connected ↦
      let key = make_subscription_key e instrument channel in
      elim (find string_ord key c.subscriptions) [
        | none ↦ (c, [])
        | some s ↦ (
          record c { subscriptions = erase string_ord key c.subscriptions },
          unsubscribes e instrument channel ∷ [],
        )
      ]
  | _ ↦ (c, [])
]

unfoldable pub disconnect : WebSocketClient → Step
disconnect c = elim c.state [
  | ws_disconnected ↦ (c, [])
  | _ ↦ (record c { subscriptions = []; state = ws_disconnected }, closes ∷ [])
]

-- The answer of OKX to a subscribe message, with the fields that the JSON library read.
unfoldable pub on_subscribed : WebSocketClient → List ℕ → List ℕ → WebSocketClient
on_subscribed c instrument channel =
    let key = make_subscription_key okx instrument channel in
    elim (find string_ord key c.subscriptions) [
      | none ↦ c
      | some s ↦ record c {
        subscriptions = insert string_ord key (record s { state = confirmed }) c.subscriptions;
      }
    ]

-- The loop of initiate_reconnect over the map.
unfoldable pub confirmed_of : SortedMap (List ℕ) Subscription → List Subscription
confirmed_of [] = []
confirmed_of ((key, s) ∷ m) = elim s.state [
  | confirmed ↦ s ∷ confirmed_of m
  | pending ↦ confirmed_of m
  | failed ↦ confirmed_of m
]

unfoldable pub calculate_backoff_ms : WebSocketClient → ℕ
calculate_backoff_ms c = min (u32 (1000 * 2 ^ min c.reconnect_attempts 10)) 30000

unfoldable pub initiate_reconnect : WebSocketClient → ℕ → WebSocketClient
unfolding confirmed_of calculate_backoff_ms
initiate_reconnect c now =
    if c.reconnect_pending
    then c
    else (let c' = record c {
      saved_subscriptions = confirmed_of c.subscriptions;
      subscriptions = [];
      reconnect_pending = true;
      reconnect_attempts = u32 (c.reconnect_attempts + 1);
    } in
        record c' { next_reconnect_time = now + calculate_backoff_ms c' })

abbrev pub max_reconnect_attempts : ℕ
max_reconnect_attempts = 10

-- A new connection is started from WS_DISCONNECTED.
unfoldable pub try_reconnect : WebSocketClient → ℕ → Step
try_reconnect c now =
    if c.reconnect_pending
    then if ltb now c.next_reconnect_time
      then (c, [])
      else if ltb max_reconnect_attempts c.reconnect_attempts
      then (record c { reconnect_pending = false }, [])
      else (record c { reconnect_pending = false; state = ws_connecting_tcp }, connects ∷ [])
    else (c, [])

unfoldable pub subscribe_all : WebSocketClient → List Subscription → Step
subscribe_all c [] = (c, [])
subscribe_all c (s ∷ ss) =
    let (c1, sent) = subscribe c s.exchange s.instrument s.channel in
    let (c2, rest) = subscribe_all c1 ss in (c2, sent ++ rest)

abbrev pub restore_all : WebSocketClient → Step
restore_all c =
    let (c', sent) = subscribe_all (record c { reconnect_attempts = 0 }) c.saved_subscriptions in
    (record c' { saved_subscriptions = [] }, sent)

unfoldable pub restore_subscriptions : WebSocketClient → Step
restore_subscriptions c = elim c.state [
  | ws_connected ↦ elim c.saved_subscriptions [ [] ↦ (c, []) | s ∷ ss ↦ restore_all c ]
  | _ ↦ (c, [])
]
