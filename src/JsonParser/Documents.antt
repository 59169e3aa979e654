-- ===== src/JsonParser/Documents.antt =====
-- The documents of OKX and Bybit that JsonParser of src/modules/parser/json_parser.cpp accepts, and
-- what it makes of them.
use dpdk_cex_source.Base.{
  ℕ, ◌≡◌, ◌↔◌, refl, sym, ap, ◌∙◌, Bool, true, List, ◌++◌, Option, none, some, take,
}
use dpdk_cex_source.Base.Text.{bytes}
use dpdk_cex_source.AeroTypes.{ExchangeId, okx, bybit, binance, gate, bitget, mexc, unknown}
use dpdk_cex_source.OrderBook.{bid, ask, OrderBookUpdate}
use dpdk_cex_source.Json.{Dom, Numbers, ◌>>=◌, string_at, string_in}
use dpdk_cex_source.Json.Sides.{bound, some-injective, guarded}
use dpdk_cex_source.JsonParser.{
  MessageType, ErrorMessage, ParsedMarketData, okx_type, bybit_type, array_at, object_at,
  parse_packet,
}
use dpdk_cex_source.JsonParser.Validity.{when_valid}
use dpdk_cex_source.JsonParser.MarketData.{
  side_updates, elements_data, market_data, parse_packet-market_data,
}
use dpdk_cex_source.JsonParser.Meaning.{
  IsType, okx_type_iff, bybit_type_iff, IsSideOf, side_iff, ns, AreElements, read_elements,
  write_elements,
}

-- Market data are their seven fields.
same_data :
    {Q : Type 0} (r : ParsedMarketData Q) (exchange : ExchangeId) (msg_type : MessageType)
    (symbol : List ℕ) (timestamp_ns : ℕ) (updates : List (OrderBookUpdate Q)) (valid : Bool)
    (error_msg : Option ErrorMessage)
    → r.exchange ≡ exchange
    → r.msg_type ≡ msg_type
    → r.symbol ≡ symbol
    → r.timestamp_ns ≡ timestamp_ns
    → r.updates ≡ updates
    → r.valid ≡ valid
    → r.error_msg ≡ error_msg
    → some (record r {
      exchange = exchange;
      msg_type = msg_type;
      symbol = symbol;
      timestamp_ns = timestamp_ns;
      updates = updates;
      valid = valid;
      error_msg = error_msg;
    })
      ≡ some r
same_data r _ _ _ _ _ _ _ a b c d e f g = rw (sym a, sym b, sym c, sym d, sym e, sym f, sym g) refl

module _ {E Q : Type 0} (dom : Dom E) (numbers : Numbers Q) where
  pub record IsOkxData (doc : E) (r : ParsedMarketData Q) : Type 0 where
    pub action : List ℕ
    pub inst_id : List ℕ
    pub items : List E
    pub of_okx : r.exchange ≡ okx
    pub has_action : string_at dom doc (bytes "action") ≡ some action
    pub of_type : IsType (bytes "update") action r.msg_type
    pub has_instrument : string_in dom doc (bytes "arg") (bytes "instId") ≡ some inst_id
    pub has_symbol : r.symbol ≡ take 31 inst_id
    pub has_items : array_at dom numbers doc (bytes "data") ≡ some items
    pub has_contents : AreElements dom numbers 0 items (r.timestamp_ns, r.updates)
    pub is_valid : r.valid ≡ true
    pub no_error : r.error_msg ≡ none

  pub record IsBybitData (doc : E) (r : ParsedMarketData Q) : Type 0 where
    pub type_str : List ℕ
    pub ts_ms : ℕ
    pub contents : E
    pub symbol : List ℕ
    pub bids : List (OrderBookUpdate Q)
    pub asks : List (OrderBookUpdate Q)
    pub of_bybit : r.exchange ≡ bybit
    pub has_type : string_at dom doc (bytes "type") ≡ some type_str
    pub of_type : IsType (bytes "delta") type_str r.msg_type
    pub has_ts : (dom.field doc (bytes "ts") >>= dom.get_uint64) ≡ some ts_ms
    pub has_time : r.timestamp_ns ≡ ns dom numbers ts_ms
    pub has_data : dom.field doc (bytes "data") ≡ some contents
    pub is_object : dom.is_object contents ≡ true
    pub has_name : string_at dom contents (bytes "s") ≡ some symbol
    pub has_symbol : r.symbol ≡ take 31 symbol
    pub has_bids : IsSideOf dom numbers bid (array_at dom numbers contents (bytes "b")) bids
    pub has_asks : IsSideOf dom numbers ask (array_at dom numbers contents (bytes "a")) asks
    pub has_updates : r.updates ≡ bids ++ asks
    pub is_valid : r.valid ≡ true
    pub no_error : r.error_msg ≡ none

  -- The parser knows no other exchange.
  abbrev pub IsData : ExchangeId → E → ParsedMarketData Q → Type 0
  IsData okx doc r = IsOkxData doc r
  IsData bybit doc r = IsBybitData doc r
  IsData exchange doc r = ⊥

  read_okx :
      (doc : E) (r : ParsedMarketData Q)
      → market_data dom numbers okx doc ≡ some r
      → IsOkxData doc r
  read_okx doc r h =
      let (action, a, h1) = bound (string_at dom doc (bytes "action")) _ r h in
      let (t, b, h2) = bound (okx_type dom numbers action) _ r h1 in
      let (inst_id, c, h3) = bound (string_in dom doc (bytes "arg") (bytes "instId")) _ r h2 in
      let (items, k, h4) = bound (array_at dom numbers doc (bytes "data")) _ r h3 in
      let (p, l, h5) = bound (elements_data dom numbers 0 items) _ r h4 in
      let same = some-injective _ r h5 in
      record {
        action = action;
        inst_id = inst_id;
        items = items;
        of_okx = sym (ap (λ (x : ParsedMarketData Q). x.exchange) same);
        has_action = a;
        of_type =
            (okx_type_iff dom numbers action r.msg_type).0
              (b ∙ ap (λ (x : ParsedMarketData Q). some x.msg_type) same);
        has_instrument = c;
        has_symbol = sym (ap (λ (x : ParsedMarketData Q). x.symbol) same);
        has_items = k;
        has_contents =
            read_elements dom numbers 0 items (r.timestamp_ns, r.updates)
              (l ∙ ap (λ (x : ParsedMarketData Q). some (x.timestamp_ns, x.updates)) same);
        is_valid = sym (ap (λ (x : ParsedMarketData Q). x.valid) same);
        no_error = sym (ap (λ (x : ParsedMarketData Q). x.error_msg) same);
      }

  write_okx :
      (doc : E) (r : ParsedMarketData Q)
      → IsOkxData doc r
      → market_data dom numbers okx doc ≡ some r
  write_okx doc r v =
      rw
        (
          v.has_action,
          (okx_type_iff dom numbers v.action r.msg_type).1 v.of_type,
          v.has_instrument,
          v.has_items,
          write_elements dom numbers 0 v.items (r.timestamp_ns, r.updates) v.has_contents,
        )
        (same_data r _ _ _ _ _ _ _ v.of_okx refl v.has_symbol refl refl v.is_valid v.no_error)

  read_bybit :
      (doc : E) (r : ParsedMarketData Q)
      → market_data dom numbers bybit doc ≡ some r
      → IsBybitData doc r
  read_bybit doc r h =
      let (type_str, a, h1) = bound (string_at dom doc (bytes "type")) _ r h in
      let (t, b, h2) = bound (bybit_type dom numbers type_str) _ r h1 in
      let (ts_ms, c, h3) = bound (dom.field doc (bytes "ts") >>= dom.get_uint64) _ r h2 in
      let (contents, k, h4) = bound (object_at dom numbers doc) _ r h3 in
      let (found, has_data, k1) = bound (dom.field doc (bytes "data")) _ contents k in
      let (is_object, k2) = guarded (dom.is_object found) (some found) contents k1 in
      let one = some-injective found contents k2 in
      let (symbol, l, h5) = bound (string_at dom contents (bytes "s")) _ r h4 in
      let bid_items = array_at dom numbers contents (bytes "b") in
      let ask_items = array_at dom numbers contents (bytes "a") in
      let (bids, m, h6) = bound (side_updates dom numbers bid bid_items) _ r h5 in
      let (asks, n, h7) = bound (side_updates dom numbers ask ask_items) _ r h6 in
      let same = some-injective _ r h7 in
      record {
        type_str = type_str;
        ts_ms = ts_ms;
        contents = contents;
        symbol = symbol;
        bids = bids;
        asks = asks;
        of_bybit = sym (ap (λ (x : ParsedMarketData Q). x.exchange) same);
        has_type = a;
        of_type =
            (bybit_type_iff dom numbers type_str r.msg_type).0
              (b ∙ ap (λ (x : ParsedMarketData Q). some x.msg_type) same);
        has_ts = c;
        has_time = sym (ap (λ (x : ParsedMarketData Q). x.timestamp_ns) same);
        has_data = has_data ∙ ap some one;
        is_object = sym (ap dom.is_object one) ∙ is_object;
        has_name = l;
        has_symbol = sym (ap (λ (x : ParsedMarketData Q). x.symbol) same);
        has_bids = (side_iff dom numbers bid bid_items bids).0 m;
        has_asks = (side_iff dom numbers ask ask_items asks).0 n;
        has_updates = sym (ap (λ (x : ParsedMarketData Q). x.updates) same);
        is_valid = sym (ap (λ (x : ParsedMarketData Q). x.valid) same);
        no_error = sym (ap (λ (x : ParsedMarketData Q). x.error_msg) same);
      }

  write_bybit :
      (doc : E) (r : ParsedMarketData Q)
      → IsBybitData doc r
      → market_data dom numbers bybit doc ≡ some r
  write_bybit doc r v =
      rw
        (
          v.has_type,
          (bybit_type_iff dom numbers v.type_str r.msg_type).1 v.of_type,
          v.has_ts,
          v.has_data,
          v.is_object,
          v.has_name,
          (side_iff dom numbers bid (array_at dom numbers v.contents (bytes "b")) v.bids).1
              v.has_bids,
          (side_iff dom numbers ask (array_at dom numbers v.contents (bytes "a")) v.asks).1
              v.has_asks,
        )
        (same_data r _ _ _ _ _ _ _ v.of_bybit refl v.has_symbol v.has_time v.has_updates v.is_valid
          v.no_error)

  market_data_iff :
      (exchange : ExchangeId) (doc : E) (r : ParsedMarketData Q)
      → (market_data dom numbers exchange doc ≡ some r) ↔ IsData exchange doc r
  market_data_iff okx doc r = (read_okx doc r, write_okx doc r)
  market_data_iff bybit doc r = (read_bybit doc r, write_bybit doc r)
  market_data_iff binance doc r = ((λ e. cc), λ v. absurd v)
  market_data_iff gate doc r = ((λ e. cc), λ v. absurd v)
  market_data_iff bitget doc r = ((λ e. cc), λ v. absurd v)
  market_data_iff mexc doc r = ((λ e. cc), λ v. absurd v)
  market_data_iff unknown doc r = ((λ e. cc), λ v. absurd v)

  -- What parse_packet returns is valid and `r` exactly when the payload is a document of the exchange,
  -- OKX or Bybit, with the data of `r`: the type is a snapshot or an update, by the text that the
  -- exchange uses for it; the symbol is cut to 31 bytes; the time is in nanoseconds modulo 2^64; and
  -- the updates are, element by element, the bids and then the asks, with the first text the price,
  -- scaled, and the second the size, zero for a level that is deleted. A payload of another exchange
  -- is never valid.
  pub parse_packet-IsData :
      (payload : List ℕ) (exchange : ExchangeId) (r : ParsedMarketData Q)
      → (when_valid (parse_packet dom numbers payload exchange) ≡ some r)
        ↔ ((doc : E) × (dom.parse payload ≡ some doc) × IsData exchange doc r)
  parse_packet-IsData payload exchange r =
      let e = parse_packet-market_data dom numbers payload exchange in
      (
        λ h.
            let (doc, parses, h1) = bound (dom.parse payload) _ r (sym e ∙ h) in
            (doc, parses, (market_data_iff exchange doc r).0 h1),
        λ (doc, parses, v).
            e
            ∙ ap (λ (o : Option E). o >>= market_data dom numbers exchange) parses
            ∙ (market_data_iff exchange doc r).1 v,
      )
