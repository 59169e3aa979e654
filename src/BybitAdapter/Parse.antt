-- ===== src/BybitAdapter/Parse.antt =====
-- The book that a Bybit message holds, as one value.
use dpdk_cex_source.Base.{ℕ, ◌≡◌, refl, ◌∙◌, Bool, if◌then◌else◌, List, [], Option, none, some}
use dpdk_cex_source.Base.Text.{bytes}
use dpdk_cex_source.UdpFeed.{ParsedOrderBook}
use dpdk_cex_source.Connection.{default_book}
use dpdk_cex_source.Json.{Dom, Numbers, ◌>>=◌, string_at, has_value, add_bids, add_asks}
use dpdk_cex_source.Json.Books.{
  filled, filled-then, filled-lookup, filled-guard, bind_both, side_levels, filled-add_bids,
  filled-add_asks,
}
use dpdk_cex_source.BybitAdapter.{
  contains, after_last_dot, set_time, fill, parse_document, parse_orderbook_message,
}

module _ {E Q : Type 0} (dom : Dom E) (numbers : Numbers Q) where
  abbrev pub time_or : Option ℕ → ℕ → ℕ
  time_or none time = time
  time_or (some ts) time = ts

  abbrev pub data_book : ParsedOrderBook Q → E → Option (ParsedOrderBook Q)
  data_book named contents = do
    bids ← side_levels dom numbers (dom.field contents (bytes "b"))
    asks ← side_levels dom numbers (dom.field contents (bytes "a"))
    some (record named {
      bids = bids;
      asks = asks;
      timestamp_ms =
          time_or (dom.field contents (bytes "ts") >>= dom.get_uint64) named.timestamp_ms;
    })

  abbrev pub topic_book : Bool → ℕ → List ℕ → E → Option (ParsedOrderBook Q)
  topic_book flag time topic doc = do
    instrument ← after_last_dot topic
    contents ← dom.field doc (bytes "data")
    data_book
        (record (default_book flag time) {
          instrument = instrument;
          is_snapshot = has_value dom doc (bytes "type") (bytes "snapshot");
        })
        contents

  -- The book of a document, where a part that is missing or malformed leaves none; `flag` and `time`
  -- are what the variable held.
  abbrev pub bybit_book : Bool → ℕ → E → Option (ParsedOrderBook Q)
  bybit_book flag time doc = do
    topic ← string_at dom doc (bytes "topic")
    if contains (bytes "orderbook") topic then topic_book flag time topic doc else none

  filled-set_time :
      (o : Option ℕ) (book : ParsedOrderBook Q)
      → filled (set_time dom numbers o book)
        ≡ some (record book { timestamp_ms = time_or o book.timestamp_ms })
  filled-set_time none book = refl
  filled-set_time (some ts) book = refl

  filled-fill :
      (contents : E) (named : ParsedOrderBook Q)
      → filled (fill dom numbers contents (record named { bids = []; asks = [] }))
        ≡ data_book (record named { bids = []; asks = [] }) contents
  unfolding fill
  filled-fill contents named =
      let bids = dom.field contents (bytes "b") in
      let asks = dom.field contents (bytes "a") in
      let ts = dom.field contents (bytes "ts") >>= dom.get_uint64 in
      filled-then (add_bids dom numbers bids (record named { bids = []; asks = [] })) _
        (side_levels dom numbers bids) (λ ls. record named { bids = ls; asks = [] })
        (filled-add_bids dom numbers bids (record named { asks = [] }))
      ∙ bind_both (side_levels dom numbers bids) (λ ls.
        filled-then (add_asks dom numbers asks (record named { bids = ls; asks = [] })) _
          (side_levels dom numbers asks) (λ ms. record named { bids = ls; asks = ms })
          (filled-add_asks dom numbers asks (record named { bids = ls }))
        ∙ bind_both (side_levels dom numbers asks)
            (λ ms. filled-set_time ts (record named { bids = ls; asks = ms })))

  -- Parsing a Bybit message into a default-constructed book returns true exactly when the document has
  -- a topic that contains "orderbook" and a dot, and data in which every level of the sides that it has
  -- is well formed; the book is then bybit_book: what follows the last dot, the flag, the sides and the
  -- time, where a missing side is empty and a missing time is what the variable held.
  pub parse_orderbook_message-bybit_book :
      (m : List ℕ) (flag : Bool) (time : ℕ)
      → filled (parse_orderbook_message dom numbers m (default_book flag time))
        ≡ (dom.parse m >>= bybit_book flag time)
  unfolding parse_orderbook_message parse_document
  parse_orderbook_message-bybit_book m flag time =
      filled-lookup (dom.parse m) (default_book flag time) _ (λ doc.
        filled-lookup (string_at dom doc (bytes "topic")) (default_book flag time) _ (λ topic.
          filled-guard (contains (bytes "orderbook") topic) (default_book flag time) _ (
            filled-lookup (after_last_dot topic) (default_book flag time) _ (λ instrument.
              let named : ParsedOrderBook Q = record (default_book flag time) {
                instrument = instrument;
                is_snapshot = has_value dom doc (bytes "type") (bytes "snapshot");
              } in
              filled-lookup (dom.field doc (bytes "data")) named _
                (λ contents. filled-fill contents named)))))
