-- ===== src/Connection.antt =====
-- src/modules/exchange/okx_connection.cpp and bybit_connection.cpp: a connection to an exchange over
-- the Boost client, an adapter and the UDP publisher. The two files differ in the adapter with its
-- exchange, the text of the heartbeat, and whether an empty pong is sent: a Profile has the last two.
-- The messages that the IO thread enqueues while `poll` runs are left to the next call.
pub mod History
pub mod Covers
pub mod Poll
pub mod Subscribed
pub mod Safety
mod Tests
use dpdk_cex_source.Base.{
  ◌+◌, ℕ, zero, suc, Bool, true, false, ◌&&◌, ◌||◌, not, if◌then◌else◌, List, [], ◌∷◌, ◌++◌, Option,
  none, some, length,
}
use dpdk_cex_source.Base.Text.{bytes}
use dpdk_cex_source.UdpFeed.{ParsedOrderBook, UdpPublisher, Os, publish}
use dpdk_cex_source.ExchangeAdapter.{IExchangeAdapter}
use dpdk_cex_source.BoostClient as Boost
use dpdk_cex_source.BoostClient.{Client, RetryConfig, new, send, get_next_message}

pub record Subscription : Type 0 where
  pub instruments : List (List ℕ)
  pub channel : List ℕ

pub record Profile : Type 0 where
  pub heartbeat : List ℕ
  -- a pong is sent even if its text is empty
  pub sends_empty_pong : Bool

abbrev pub okx_profile : Profile
okx_profile = record { heartbeat = bytes "ping"; sends_empty_pong = true }

abbrev pub bybit_profile : Profile
bybit_profile = record { heartbeat = bytes "{\"op\":\"ping\"}"; sends_empty_pong = false }

-- `delivered` are the books that the callback of `poll` was given.
pub record Connection (D Q : Type 0) : Type 0 where
  pub ws_client : Client D
  pub udp_publisher : Option UdpPublisher
  pub active_subscriptions : List Subscription
  pub delivered : List (ParsedOrderBook Q)

abbrev pub is_empty : List ℕ → Bool
is_empty [] = true
is_empty (b ∷ bs) = false

abbrev pub is_initialized : UdpPublisher → Bool
is_initialized u = elim u.socket_fd [ none ↦ false | some fd ↦ true ]

-- A book as the default constructor leaves it: its flag and its time are not initialised.
abbrev pub default_book : {Q : Type 0} → Bool → ℕ → ParsedOrderBook Q
default_book flag time = record {
  instrument = [];
  bids = [];
  asks = [];
  is_snapshot = flag;
  timestamp_ms = time;
}

module _ {D Q : Type 0} where
  -- The constructor.
  unfoldable pub new_connection : Option UdpPublisher → Connection D Q
  unfolding new
  new_connection udp_publisher = record {
    ws_client = new;
    udp_publisher = udp_publisher;
    active_subscriptions = [];
    delivered = [];
  }

  unfoldable pub send_order : Connection D Q → List ℕ → Connection D Q
  unfolding send
  send_order c json_msg = record c { ws_client = send c.ws_client json_msg }

module _ {Q : Type 0} (adapter : IExchangeAdapter Q) (bits : Q → ℕ) (os : Os) (now : ℕ → ℕ) where
  -- The publisher's clock: `now n` is the time when it has handed over n datagrams.
  unfoldable pub broadcast : Option UdpPublisher → ParsedOrderBook Q → Option UdpPublisher
  unfolding publish
  broadcast none book = none
  broadcast (some u) book =
      if is_initialized u
      then some (publish bits os u book adapter.exchange_id (now (length u.sent)))
      else some u

module _ {D Q : Type 0} (adapter : IExchangeAdapter Q) where
  -- The loops over the instruments of a subscription, and over the subscriptions.
  unfoldable pub subscribe_each : List ℕ → List (List ℕ) → Client D → Client D
  unfolding send
  subscribe_each channel [] c = c
  subscribe_each channel (inst ∷ rest) c =
      subscribe_each channel rest (send c (adapter.generate_subscribe_message inst channel))

  unfoldable pub resubscribe : List Subscription → Client D → Client D
  unfolding subscribe_each
  resubscribe [] c = c
  resubscribe (sub ∷ subs) c = resubscribe subs (subscribe_each sub.channel sub.instruments c)

  -- `ok` tells whether the client's connect succeeds.
  unfoldable pub connect : RetryConfig D → Connection D Q → Bool → Bool × Connection D Q
  unfolding resubscribe Boost.connect
  connect cfg c ok =
      let (success, client) = Boost.connect cfg c.ws_client ok in
      if success
      then (true, record c { ws_client = resubscribe c.active_subscriptions client })
      else (false, record c { ws_client = client })

  unfoldable pub subscribe : Connection D Q → List (List ℕ) → List ℕ → Connection D Q
  unfolding subscribe_each
  subscribe c instruments channel =
      let saved = record c {
        active_subscriptions =
            c.active_subscriptions ++ record { instruments = instruments; channel = channel } ∷ [];
      } in
      if not c.ws_client.is_connected
      then saved
      else record saved { ws_client = subscribe_each channel instruments c.ws_client }

  module _ (profile : Profile) (bits : Q → ℕ) (os : Os) (now : ℕ → ℕ) where
    -- `local_book` is the variable `book`; `listening` tells that the callback is not empty.
    unfoldable pub process_message :
        ParsedOrderBook Q → Bool → Connection D Q → List ℕ → Connection D Q
    unfolding broadcast send
    process_message local_book listening c msg =
        if adapter.is_ping_message msg
        then (let pong = adapter.generate_pong_message in
            if profile.sends_empty_pong || not (is_empty pong)
            then record c { ws_client = send c.ws_client pong }
            else c)
        else if adapter.is_subscription_response msg
        then c
        else let (parsed, book) = adapter.parse_orderbook_message msg local_book in
          if parsed
          then record c {
            udp_publisher = broadcast adapter bits os now c.udp_publisher book;
            delivered = if listening then c.delivered ++ book ∷ [] else c.delivered;
          }
          else c

    -- The loop, with a bound on its rounds; none if it has not ended. `local_books k` is what the
    -- variable `book`, which each message has anew, holds for the k-th message.
    unfoldable pub poll :
        (ℕ → ParsedOrderBook Q) → Bool → ℕ → Connection D Q → Option (Connection D Q)
    unfolding process_message get_next_message
    poll local_books listening zero c = none
    poll local_books listening (suc fuel) c =
        let (msg_opt, client) = get_next_message c.ws_client in
        elim msg_opt [
          | none ↦ some (record c { ws_client = client })
          | some msg ↦
              poll (λ k. local_books (k + 1)) listening fuel
                (process_message (local_books 0) listening (record c { ws_client = client }) msg)
        ]

    unfoldable pub send_heartbeat : Connection D Q → Connection D Q
    unfolding send
    send_heartbeat c =
        if c.ws_client.is_connected
        then record c { ws_client = send c.ws_client profile.heartbeat }
        else c
