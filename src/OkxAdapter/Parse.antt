-- ===== src/OkxAdapter/Parse.antt =====
-- The book that an OKX message holds, as one value.
use dpdk_cex_source.Base.{ℕ, ◌≡◌, refl, ◌∙◌, Bool, if◌then◌else◌, List, [], ◌∷◌, Option, none, some}
use dpdk_cex_source.Base.Text.{bytes}
use dpdk_cex_source.UdpFeed.{ParsedOrderBook}
use dpdk_cex_source.Connection.{default_book}
use dpdk_cex_source.Json.{Dom, Numbers, ◌>>=◌, string_at, string_in, add_bids, add_asks}
use dpdk_cex_source.Json.Books.{
  filled, filled-then, filled-lookup, filled-guard, bind_both, side_levels, filled-add_bids,
  filled-add_asks,
}
use dpdk_cex_source.OkxAdapter.{
  is_book_channel, snapshot_flag, set_time, first_item, parse_document, parse_orderbook_message,
}

module _ {E Q : Type 0} (dom : Dom E) (numbers : Numbers Q) where
  abbrev pub time_or : Option (List ℕ) → ℕ → Option ℕ
  time_or none time = some time
  time_or (some ts_str) time = numbers.stoull ts_str

  abbrev pub item_book : ParsedOrderBook Q → List E → Option (ParsedOrderBook Q)
  item_book named [] = some named
  item_book named (item ∷ items) = do
    bids ← side_levels dom numbers (dom.field item (bytes "bids"))
    asks ← side_levels dom numbers (dom.field item (bytes "asks"))
    time ← time_or (string_at dom item (bytes "ts")) named.timestamp_ms
    some (record named { bids = bids; asks = asks; timestamp_ms = time })

  abbrev pub instrument_book : Bool → ℕ → List ℕ → E → Option (ParsedOrderBook Q)
  instrument_book flag time channel doc = do
    inst_id ← string_in dom doc (bytes "arg") (bytes "instId")
    contents ← dom.field doc (bytes "data")
    items ← dom.items contents
    item_book
        (record (default_book flag time) {
          instrument = inst_id;
          is_snapshot = snapshot_flag dom numbers doc channel;
        })
        items

  -- The book of a document, where a part that is missing or malformed leaves none; `flag` and `time`
  -- are what the variable held.
  abbrev pub okx_book : Bool → ℕ → E → Option (ParsedOrderBook Q)
  okx_book flag time doc = do
    channel ← string_in dom doc (bytes "arg") (bytes "channel")
    if is_book_channel channel then instrument_book flag time channel doc else none

  filled-set_time :
      (o : Option (List ℕ)) (book : ParsedOrderBook Q)
      → filled (set_time dom numbers o book)
        ≡ (time_or o book.timestamp_ms >>= λ time. some (record book { timestamp_ms = time }))
  filled-set_time none book = refl
  filled-set_time (some ts_str) book = filled-lookup (numbers.stoull ts_str) book _ (λ ts. refl)

  filled-first_item :
      (items : List E) (named : ParsedOrderBook Q)
      → filled (first_item dom numbers items (record named { bids = []; asks = [] }))
        ≡ item_book (record named { bids = []; asks = [] }) items
  unfolding first_item
  filled-first_item [] named = refl
  filled-first_item (item ∷ items) named =
      let bids = dom.field item (bytes "bids") in
      let asks = dom.field item (bytes "asks") in
      filled-then (add_bids dom numbers bids (record named { bids = []; asks = [] })) _
        (side_levels dom numbers bids) (λ ls. record named { bids = ls; asks = [] })
        (filled-add_bids dom numbers bids (record named { asks = [] }))
      ∙ bind_both (side_levels dom numbers bids) (λ ls.
        filled-then (add_asks dom numbers asks (record named { bids = ls; asks = [] })) _
          (side_levels dom numbers asks) (λ ms. record named { bids = ls; asks = ms })
          (filled-add_asks dom numbers asks (record named { bids = ls }))
        ∙ bind_both (side_levels dom numbers asks) (λ ms.
          filled-set_time (string_at dom item (bytes "ts"))
            (record named { bids = ls; asks = ms })))

  -- Parsing an OKX message into a default-constructed book returns true exactly when the document has
  -- an order book channel, an instrument and a data array of whose first item, if any, every level and
  -- the time, if there is one, are well formed; the book is then okx_book: that instrument, flag, sides
  -- and time, where a missing side is empty and a missing time is what the variable held.
  pub parse_orderbook_message-okx_book :
      (m : List ℕ) (flag : Bool) (time : ℕ)
      → filled (parse_orderbook_message dom numbers m (default_book flag time))
        ≡ (dom.parse m >>= okx_book flag time)
  unfolding parse_orderbook_message parse_document
  parse_orderbook_message-okx_book m flag time =
      filled-lookup (dom.parse m) (default_book flag time) _ (λ doc.
        filled-lookup (string_in dom doc (bytes "arg") (bytes "channel")) (default_book flag time) _
          (λ channel. filled-guard (is_book_channel channel) (default_book flag time) _ (
            filled-lookup (string_in dom doc (bytes "arg") (bytes "instId"))
              (default_book flag time) _
              (λ inst_id.
                let named : ParsedOrderBook Q = record (default_book flag time) {
                  instrument = inst_id;
                  is_snapshot = snapshot_flag dom numbers doc channel;
                } in
                filled-lookup (dom.field doc (bytes "data")) named _ (λ contents.
                  filled-lookup (dom.items contents) named _
                    (λ items. filled-first_item items named))))))
