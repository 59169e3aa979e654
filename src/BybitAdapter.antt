-- ===== src/BybitAdapter.antt =====
-- src/modules/exchange/bybit_adapter.cpp.
pub mod Parse
pub mod Meaning
mod Tests
use dpdk_cex_source.Base.{
  ℕ, Bool, true, false, ◌||◌, ◌&&◌, not, ◌==◌, if◌then◌else◌, List, [], ◌∷◌, ◌++◌, Option, none,
  some, bytes_eq,
}
use dpdk_cex_source.Base.Text.{bytes}
use dpdk_cex_source.AeroTypes.{bybit}
use dpdk_cex_source.UdpFeed.{ParsedOrderBook}
use dpdk_cex_source.ExchangeAdapter.{IExchangeAdapter}
use dpdk_cex_source.Json.{
  Dom, Numbers, ◌>>=◌, or_fail, then_run, string_at, has_value, add_bids, add_asks,
}

-- `topic.find(part) != npos`
abbrev pub starts_with : List ℕ → List ℕ → Bool
starts_with [] text = true
starts_with (b ∷ part) [] = false
starts_with (b ∷ part) (c ∷ text) = (b == c) && starts_with part text

abbrev pub contains : List ℕ → List ℕ → Bool
contains part [] = starts_with part []
contains part (c ∷ text) = starts_with part (c ∷ text) || contains part text

-- `topic.substr(topic.rfind('.') + 1)`; none if there is no dot.
abbrev pub after_last_dot : List ℕ → Option (List ℕ)
after_last_dot [] = none
after_last_dot (c ∷ text) = elim (after_last_dot text) [
  | none ↦ if c == 46 then some text else none
  | some rest ↦ some rest
]

abbrev pub generate_subscribe_message : List ℕ → List ℕ → List ℕ
generate_subscribe_message instrument channel =
    bytes "{\"op\":\"subscribe\",\"args\":[\""
    ++ (channel ++ (bytes "." ++ (instrument ++ bytes "\"]}")))

abbrev pub generate_unsubscribe_message : List ℕ → List ℕ → List ℕ
generate_unsubscribe_message instrument channel =
    bytes "{\"op\":\"unsubscribe\",\"args\":[\""
    ++ (channel ++ (bytes "." ++ (instrument ++ bytes "\"]}")))

abbrev pub generate_pong_message : List ℕ
generate_pong_message = bytes "{\"op\":\"pong\"}"

module _ {E Q : Type 0} (dom : Dom E) (numbers : Numbers Q) where
  abbrev pub set_time : Option ℕ → ParsedOrderBook Q → Bool × ParsedOrderBook Q
  set_time none book = (true, book)
  set_time (some ts) book = (true, record book { timestamp_ms = ts })

  abbrev pub add_time : E → ParsedOrderBook Q → Bool × ParsedOrderBook Q
  add_time contents book = set_time (dom.field contents (bytes "ts") >>= dom.get_uint64) book

  -- Bids, asks and time, from the object `data`.
  unfoldable pub fill : E → ParsedOrderBook Q → Bool × ParsedOrderBook Q
  unfolding add_bids add_asks
  fill contents book =
      then_run (add_bids dom numbers (dom.field contents (bytes "b")) book) (λ book'.
        then_run (add_asks dom numbers (dom.field contents (bytes "a")) book')
          (λ book''. add_time contents book''))

  unfoldable pub parse_document : E → ParsedOrderBook Q → Bool × ParsedOrderBook Q
  unfolding fill
  parse_document doc book = or_fail (string_at dom doc (bytes "topic")) book (λ topic.
      if not (contains (bytes "orderbook") topic)
      then (false, book)
      else or_fail (after_last_dot topic) book (λ instrument.
        let named = record book {
          instrument = instrument;
          is_snapshot = has_value dom doc (bytes "type") (bytes "snapshot");
        } in
        or_fail (dom.field doc (bytes "data")) named (λ contents. fill contents named)))

  unfoldable pub parse_orderbook_message : List ℕ → ParsedOrderBook Q → Bool × ParsedOrderBook Q
  unfolding parse_document
  parse_orderbook_message m book = or_fail (dom.parse m) book (λ doc. parse_document doc book)

  unfoldable pub is_ping_message : List ℕ → Bool
  is_ping_message m = elim (dom.parse m) [
    | none ↦ false
    | some doc ↦ elim (string_at dom doc (bytes "op")) [
      | none ↦ false
      | some op ↦ elim (dom.field doc (bytes "success") >>= dom.get_bool) [
        | none ↦ bytes_eq op (bytes "ping")
        | some success ↦ false
      ]
    ]
  ]

  unfoldable pub is_subscription_response : List ℕ → Bool
  is_subscription_response m = elim (dom.parse m) [
    | none ↦ false
    | some doc ↦ elim (dom.field doc (bytes "success") >>= dom.get_bool) [
      | none ↦ false
      | some success ↦
          has_value dom doc (bytes "op") (bytes "subscribe")
          || has_value dom doc (bytes "op") (bytes "unsubscribe")
    ]
  ]

  unfoldable pub bybit_adapter : IExchangeAdapter Q
  unfolding parse_orderbook_message is_ping_message is_subscription_response
  bybit_adapter = record {
    exchange_id = bybit;
    parse_orderbook_message = parse_orderbook_message;
    generate_subscribe_message = generate_subscribe_message;
    generate_unsubscribe_message = generate_unsubscribe_message;
    generate_pong_message = generate_pong_message;
    is_ping_message = is_ping_message;
    is_subscription_response = is_subscription_response;
  }
