-- ===== src/OkxAdapter.antt =====
-- src/modules/exchange/okx_adapter.cpp.
pub mod Parse
pub mod Meaning
mod Tests
use dpdk_cex_source.Base.{
  ℕ, Bool, true, false, ◌||◌, ◌&&◌, not, ◌==◌, if◌then◌else◌, List, [], ◌∷◌, ◌++◌, Option, none,
  some, length, bytes_eq,
}
use dpdk_cex_source.Base.Text.{bytes}
use dpdk_cex_source.AeroTypes.{okx}
use dpdk_cex_source.UdpFeed.{ParsedOrderBook}
use dpdk_cex_source.ExchangeAdapter.{IExchangeAdapter}
use dpdk_cex_source.Json.{
  Dom, Numbers, or_fail, then_run, string_at, string_in, has_value, add_bids, add_asks,
}

abbrev pub is_book_channel : List ℕ → Bool
is_book_channel channel =
    bytes_eq channel (bytes "books-l2-tbt")
    || (bytes_eq channel (bytes "books5") || bytes_eq channel (bytes "books"))

abbrev pub generate_subscribe_message : List ℕ → List ℕ → List ℕ
generate_subscribe_message instrument channel =
    bytes "{\"op\":\"subscribe\",\"args\":[{\"channel\":\""
    ++ (channel ++ (bytes "\",\"instId\":\"" ++ (instrument ++ bytes "\"}]}")))

abbrev pub generate_unsubscribe_message : List ℕ → List ℕ → List ℕ
generate_unsubscribe_message instrument channel =
    bytes "{\"op\":\"unsubscribe\",\"args\":[{\"channel\":\""
    ++ (channel ++ (bytes "\",\"instId\":\"" ++ (instrument ++ bytes "\"}]}")))

abbrev pub generate_pong_message : List ℕ
generate_pong_message = bytes "pong"

unfoldable pub is_ping_message : List ℕ → Bool
is_ping_message m = (length m == 4) && bytes_eq m (bytes "ping")

module _ {E Q : Type 0} (dom : Dom E) (numbers : Numbers Q) where
  -- The flag of the book, from the action or else from the channel.
  abbrev pub snapshot_flag : E → List ℕ → Bool
  snapshot_flag doc channel = elim (string_at dom doc (bytes "action")) [
    | none ↦ bytes_eq channel (bytes "books5")
    | some action ↦ bytes_eq action (bytes "snapshot")
  ]

  abbrev pub set_time : Option (List ℕ) → ParsedOrderBook Q → Bool × ParsedOrderBook Q
  set_time none book = (true, book)
  set_time (some ts_str) book =
      or_fail (numbers.stoull ts_str) book (λ ts. (true, record book { timestamp_ms = ts }))

  abbrev pub add_time : E → ParsedOrderBook Q → Bool × ParsedOrderBook Q
  add_time item book = set_time (string_at dom item (bytes "ts")) book

  -- The loop over the data, which stops after the first item.
  unfoldable pub first_item : List E → ParsedOrderBook Q → Bool × ParsedOrderBook Q
  unfolding add_bids add_asks
  first_item [] book = (true, book)
  first_item (item ∷ items) book =
      then_run (add_bids dom numbers (dom.field item (bytes "bids")) book) (λ book'.
        then_run (add_asks dom numbers (dom.field item (bytes "asks")) book')
          (λ book''. add_time item book''))

  unfoldable pub parse_document : E → ParsedOrderBook Q → Bool × ParsedOrderBook Q
  unfolding first_item
  parse_document doc book =
      or_fail (string_in dom doc (bytes "arg") (bytes "channel")) book (λ channel.
        if not (is_book_channel channel)
        then (false, book)
        else or_fail (string_in dom doc (bytes "arg") (bytes "instId")) book (λ inst_id.
          let named = record book {
            instrument = inst_id;
            is_snapshot = snapshot_flag doc channel;
          } in
          or_fail (dom.field doc (bytes "data")) named
            (λ contents. or_fail (dom.items contents) named (λ items. first_item items named))))

  unfoldable pub parse_orderbook_message : List ℕ → ParsedOrderBook Q → Bool × ParsedOrderBook Q
  unfolding parse_document
  parse_orderbook_message m book = or_fail (dom.parse m) book (λ doc. parse_document doc book)

  unfoldable pub is_subscription_response : List ℕ → Bool
  is_subscription_response m = elim (dom.parse m) [
    | none ↦ false
    | some doc ↦ elim (string_at dom doc (bytes "event")) [
      | none ↦ has_value dom doc (bytes "op") (bytes "subscribe")
      | some event ↦
          bytes_eq event (bytes "subscribe")
          || (bytes_eq event (bytes "unsubscribe") || bytes_eq event (bytes "error"))
    ]
  ]

  unfoldable pub okx_adapter : IExchangeAdapter Q
  unfolding parse_orderbook_message is_ping_message is_subscription_response
  okx_adapter = record {
    exchange_id = okx;
    parse_orderbook_message = parse_orderbook_message;
    generate_subscribe_message = generate_subscribe_message;
    generate_unsubscribe_message = generate_unsubscribe_message;
    generate_pong_message = generate_pong_message;
    is_ping_message = is_ping_message;
    is_subscription_response = is_subscription_response;
  }
