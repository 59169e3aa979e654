-- ===== src/JsonParser/MarketData.antt =====
-- The market data that a message holds, as one value: a part that is missing or malformed leaves none.
use dpdk_cex_source.Base.{
  ℕ, ◌≡◌, refl, sym, ap, ◌∙◌, Bool, true, List, [], ◌∷◌, ◌++◌, Option, none, some, take,
}
use mathlib.Core.List.{append_assoc, append-nil}
use dpdk_cex_source.Base.Text.{bytes}
use dpdk_cex_source.AeroTypes.{ExchangeId, okx, bybit, binance, gate, bitget, mexc, unknown}
use dpdk_cex_source.OrderBook.{Side, bid, ask, OrderBookUpdate}
use dpdk_cex_source.Json.{Dom, Numbers, ◌>>=◌, string_at, string_in}
use dpdk_cex_source.Json.Books.{
  filled, filled-then, filled-lookup, bind_both, bind_assoc, bind_some, bind_none,
}
use dpdk_cex_source.JsonParser.Validity.{
  when_valid, done, done_end, done-lookup, done-then, bind_four,
}
use dpdk_cex_source.JsonParser.{
  MessageType, ErrorMessage, ParsedMarketData, empty_result, copy_symbol, ms_to_ns, parse_update,
  add_updates, add_side, array_at, object_at, add_elements, okx_type, bybit_type, fill_okx,
  fill_bybit, okx_result, bybit_result, typed, with_type, parse_okx_message, parse_bybit_message,
  parse_packet,
}

module _ {E Q : Type 0} (dom : Dom E) (numbers : Numbers Q) where
  abbrev pub updates_of : Side → List E → Option (List (OrderBookUpdate Q))
  updates_of side [] = some []
  updates_of side (e ∷ es) = do
    u ← parse_update dom numbers side e
    us ← updates_of side es
    some (u ∷ us)

  abbrev pub side_updates : Side → Option (List E) → Option (List (OrderBookUpdate Q))
  side_updates side none = some []
  side_updates side (some es) = updates_of side es

  -- The time of the last element, and the updates of all of them.
  abbrev pub elements_data : ℕ → List E → Option (ℕ × List (OrderBookUpdate Q))
  elements_data time [] = some (time, [])
  elements_data time (e ∷ es) = do
    ts_str ← string_at dom e (bytes "ts")
    bids ← side_updates bid (array_at dom numbers e (bytes "bids"))
    asks ← side_updates ask (array_at dom numbers e (bytes "asks"))
    rest ← elements_data (ms_to_ns (numbers.strtoull (take 31 ts_str))) es
    some (rest.0, bids ++ (asks ++ rest.1))

  abbrev pub okx_data : E → ParsedMarketData Q → Option (ParsedMarketData Q)
  okx_data doc r = do
    inst_id ← string_in dom doc (bytes "arg") (bytes "instId")
    es ← array_at dom numbers doc (bytes "data")
    contents ← elements_data 0 es
    some (record r {
      symbol = copy_symbol inst_id;
      timestamp_ns = contents.0;
      updates = contents.1;
      valid = true;
    })

  abbrev pub bybit_data : E → ParsedMarketData Q → Option (ParsedMarketData Q)
  bybit_data doc r = do
    ts_ms ← dom.field doc (bytes "ts") >>= dom.get_uint64
    contents ← object_at dom numbers doc
    symbol ← string_at dom contents (bytes "s")
    bids ← side_updates bid (array_at dom numbers contents (bytes "b"))
    asks ← side_updates ask (array_at dom numbers contents (bytes "a"))
    some (record r {
      symbol = copy_symbol symbol;
      timestamp_ns = ms_to_ns ts_ms;
      updates = bids ++ asks;
      valid = true;
    })

  -- The market data of a document of an exchange.
  abbrev pub market_data : ExchangeId → E → Option (ParsedMarketData Q)
  market_data okx doc = do
    action ← string_at dom doc (bytes "action")
    msg_type ← okx_type dom numbers action
    okx_data doc (record (empty_result okx) { msg_type = msg_type })
  market_data bybit doc = do
    type_str ← string_at dom doc (bytes "type")
    msg_type ← bybit_type dom numbers type_str
    bybit_data doc (record (empty_result bybit) { msg_type = msg_type })
  market_data exchange doc = none

  with_updates : ParsedMarketData Q → List (OrderBookUpdate Q) → ParsedMarketData Q
  with_updates r us = record r { updates = r.updates ++ us }

  filled-add_updates :
      (side : Side) (es : List E) (r : ParsedMarketData Q)
      → filled (add_updates dom numbers side es r)
        ≡ (updates_of side es >>= λ us. some (with_updates r us))
  unfolding add_updates with_updates
  filled-add_updates side [] r =
      ap (λ us. some (record r { updates = us })) (sym (append-nil r.updates))
  filled-add_updates side (e ∷ es) r =
      filled-lookup (parse_update dom numbers side e) r _ (λ u.
        filled-add_updates side es (record r { updates = r.updates ++ u ∷ [] })
        ∙ bind_both (updates_of side es) (λ us.
          ap (λ vs. some (record r { updates = vs })) (append_assoc r.updates (u ∷ []) us)))
      ∙ sym (
          bind_assoc (parse_update dom numbers side e) _ _
          ∙ bind_both (parse_update dom numbers side e)
              (λ u. bind_some (updates_of side es) (λ us. u ∷ us) (λ us. some (with_updates r us))))

  filled-add_side :
      (side : Side) (o : Option (List E)) (r : ParsedMarketData Q)
      → filled (add_side dom numbers side o r)
        ≡ (side_updates side o >>= λ us. some (with_updates r us))
  unfolding add_side with_updates
  filled-add_side side none r =
      ap (λ us. some (record r { updates = us })) (sym (append-nil r.updates))
  filled-add_side side (some es) r = filled-add_updates side es r

  with_data : ParsedMarketData Q → ℕ × List (OrderBookUpdate Q) → ParsedMarketData Q
  with_data r p = record r { timestamp_ns = p.0; updates = r.updates ++ p.1 }

  filled-add_elements :
      (es : List E) (r : ParsedMarketData Q)
      → filled (add_elements dom numbers es r)
        ≡ (elements_data r.timestamp_ns es >>= λ p. some (with_data r p))
  unfolding add_elements with_data with_updates
  filled-add_elements [] r =
      ap (λ us. some (record r { updates = us })) (sym (append-nil r.updates))
  filled-add_elements (e ∷ es) r =
      filled-lookup (string_at dom e (bytes "ts")) r _ (λ ts_str.
        let time = ms_to_ns (numbers.strtoull (take 31 ts_str)) in
        let timed : ParsedMarketData Q = record r { timestamp_ns = time } in
        let bids = side_updates bid (array_at dom numbers e (bytes "bids")) in
        let asks = side_updates ask (array_at dom numbers e (bytes "asks")) in
        filled-then _ _ bids (with_updates timed)
          (filled-add_side bid (array_at dom numbers e (bytes "bids")) timed)
        ∙ bind_both bids (λ us.
          filled-then _ _ asks (with_updates (with_updates timed us))
            (filled-add_side ask (array_at dom numbers e (bytes "asks")) (with_updates timed us))
          ∙ bind_both asks (λ vs.
            filled-add_elements es (with_updates (with_updates timed us) vs)
            ∙ bind_both (elements_data time es) (λ p.
              ap (λ x. some (record r { timestamp_ns = p.0; updates = x }))
                (append_assoc (r.updates ++ us) vs p.1 ∙ append_assoc r.updates us (vs ++ p.1))))))
      ∙ sym (
          bind_four (string_at dom e (bytes "ts"))
            (side_updates bid (array_at dom numbers e (bytes "bids")))
            (side_updates ask (array_at dom numbers e (bytes "asks")))
            (λ ts_str. elements_data (ms_to_ns (numbers.strtoull (take 31 ts_str))) es)
            (λ us vs p. (p.0, us ++ (vs ++ p.1))) (λ p. some (with_data r p)))

  -- The result has no updates and no error before it is filled.
  done-fill_okx :
      (doc : E) (t : MessageType)
      → done (fill_okx dom numbers doc (record (empty_result okx) { msg_type = t }))
        ≡ okx_data doc (record (empty_result okx) { msg_type = t })
  unfolding fill_okx with_data
  done-fill_okx doc t =
      done-lookup (string_in dom doc (bytes "arg") (bytes "instId")) _ _ (λ inst_id.
        let named : ParsedMarketData Q = record (empty_result okx) {
          msg_type = t;
          symbol = copy_symbol inst_id;
        } in
        done-lookup (array_at dom numbers doc (bytes "data")) _ _
          (λ es. done_end _ (elements_data 0 es) (with_data named) (filled-add_elements es named)))

  done-fill_bybit :
      (doc : E) (t : MessageType)
      → done (fill_bybit dom numbers doc (record (empty_result bybit) { msg_type = t }))
        ≡ bybit_data doc (record (empty_result bybit) { msg_type = t })
  unfolding fill_bybit with_updates
  done-fill_bybit doc t = done-lookup (dom.field doc (bytes "ts") >>= dom.get_uint64) _ _ (λ ts_ms.
      done-lookup (object_at dom numbers doc) _ _ (λ contents.
        done-lookup (string_at dom contents (bytes "s")) _ _ (λ symbol.
          let named : ParsedMarketData Q = record (empty_result bybit) {
            msg_type = t;
            timestamp_ns = ms_to_ns ts_ms;
            symbol = copy_symbol symbol;
          } in
          let bids = array_at dom numbers contents (bytes "b") in
          let asks = array_at dom numbers contents (bytes "a") in
          done-then _ _ (side_updates bid bids) (with_updates named)
            (filled-add_side bid bids named)
          ∙ bind_both (side_updates bid bids) (λ us.
            done_end _ (side_updates ask asks) (with_updates (with_updates named us))
              (filled-add_side ask asks (with_updates named us))))))

  done-typed :
      (message : ErrorMessage) (fill : ParsedMarketData Q → Bool × ParsedMarketData Q)
      (exchange : ExchangeId) (o : Option MessageType)
      {g : MessageType → Option (ParsedMarketData Q)}
      → ((t : MessageType) → done (fill (record (empty_result exchange) { msg_type = t })) ≡ g t)
      → when_valid (typed dom numbers message fill (empty_result exchange) o) ≡ (o >>= g)
  done-typed message fill exchange none h = refl
  done-typed message fill exchange (some t) h = h t

  -- The look at the type comes first.
  done-with_type :
      (message : ErrorMessage) (type_of : List ℕ → Option MessageType)
      (fill : ParsedMarketData Q → Bool × ParsedMarketData Q) (exchange : ExchangeId)
      (o : Option (List ℕ)) {g : MessageType → Option (ParsedMarketData Q)}
      → ((t : MessageType) → done (fill (record (empty_result exchange) { msg_type = t })) ≡ g t)
      → when_valid (with_type dom numbers message type_of fill (empty_result exchange) o)
        ≡ (o >>= λ text. type_of text >>= g)
  done-with_type message type_of fill exchange none h = refl
  done-with_type message type_of fill exchange (some text) h =
      done-typed message fill exchange (type_of text) h

  okx_result-market_data :
      (o : Option E) → when_valid (okx_result dom numbers o) ≡ (o >>= market_data okx)
  unfolding okx_result
  okx_result-market_data none = refl
  okx_result-market_data (some doc) =
      done-with_type _ (okx_type dom numbers) (fill_okx dom numbers doc) okx
        (string_at dom doc (bytes "action")) (done-fill_okx doc)

  bybit_result-market_data :
      (o : Option E) → when_valid (bybit_result dom numbers o) ≡ (o >>= market_data bybit)
  unfolding bybit_result
  bybit_result-market_data none = refl
  bybit_result-market_data (some doc) =
      done-with_type _ (bybit_type dom numbers) (fill_bybit dom numbers doc) bybit
        (string_at dom doc (bytes "type")) (done-fill_bybit doc)

  -- What parse_packet returns is valid exactly when the payload is a document that has market data of
  -- the exchange, and it is then those data: the message type, the symbol cut to 31 bytes, the time in
  -- nanoseconds modulo 2^64, and the updates of the bids and then of the asks of every element, in
  -- their order; a payload of an exchange other than OKX and Bybit is never valid.
  pub parse_packet-market_data :
      (payload : List ℕ) (exchange : ExchangeId)
      → when_valid (parse_packet dom numbers payload exchange)
        ≡ (dom.parse payload >>= market_data exchange)
  unfolding parse_packet parse_okx_message parse_bybit_message
  parse_packet-market_data payload okx = okx_result-market_data (dom.parse payload)
  parse_packet-market_data payload bybit = bybit_result-market_data (dom.parse payload)
  parse_packet-market_data payload binance = sym (bind_none (dom.parse payload))
  parse_packet-market_data payload gate = sym (bind_none (dom.parse payload))
  parse_packet-market_data payload bitget = sym (bind_none (dom.parse payload))
  parse_packet-market_data payload mexc = sym (bind_none (dom.parse payload))
  parse_packet-market_data payload unknown = sym (bind_none (dom.parse payload))
