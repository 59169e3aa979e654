-- ===== src/JsonParser.antt =====
-- src/modules/parser/json_parser.h and json_parser.cpp, class JsonParser. An exception of simdjson
-- leaves the result half filled: `true` beside a result says that none was thrown so far.
pub mod Validity
pub mod MarketData
pub mod Meaning
pub mod Documents
mod Tests
use dpdk_cex_source.Base.{
  ℕ, ◌+◌, ◌*◌, Bool, true, false, if◌then◌else◌, List, [], ◌∷◌, ◌++◌, Option, none, some, take,
  bytes_eq,
}
use dpdk_cex_source.Base.Bytes.{u64}
use dpdk_cex_source.Base.Text.{bytes}
use dpdk_cex_source.AeroTypes.{ExchangeId, okx, bybit, unknown}
use dpdk_cex_source.OrderBook.{Side, bid, ask, OrderBookUpdate}
use dpdk_cex_source.Json.{
  Dom, Numbers, ◌>>=◌, or_fail, then_run, string_at, string_in, string_of_item,
}

pub data MessageType : Type 0 where
  snapshot update unknown_type : MessageType

-- The texts that `error_msg` can point to, and that of an exception.
pub data ErrorMessage : Type 0 where
  unknown_exchange unknown_action unknown_message_type simdjson_error : ErrorMessage

-- `symbol` is the string that is copied into the array of 32 bytes.
pub record ParsedMarketData (Q : Type 0) : Type 0 where
  pub exchange : ExchangeId
  pub msg_type : MessageType
  pub symbol : List ℕ
  pub timestamp_ns : ℕ
  pub updates : List (OrderBookUpdate Q)
  pub valid : Bool
  pub error_msg : Option ErrorMessage

-- `ParsedMarketData result{}`, whose message type is the enumerator 0.
abbrev pub empty_result : {Q : Type 0} → ExchangeId → ParsedMarketData Q
empty_result exchange = record {
  exchange = exchange;
  msg_type = snapshot;
  symbol = [];
  timestamp_ns = 0;
  updates = [];
  valid = false;
  error_msg = none;
}

-- The copy into `symbol`.
abbrev pub copy_symbol : List ℕ → List ℕ
copy_symbol text = take 31 text

abbrev pub ms_to_ns : ℕ → ℕ
ms_to_ns ts_ms = u64 (ts_ms * 1000000)

-- The ends of the two `try` blocks.
abbrev pub finish : {Q : Type 0} → Bool × ParsedMarketData Q → ParsedMarketData Q
finish (true, r) = record r { valid = true; error_msg = none }
finish (false, r) = record r { valid = false; error_msg = some simdjson_error }

module _ {E Q : Type 0} (dom : Dom E) (numbers : Numbers Q) where
  abbrev pub parse_price_to_int : List ℕ → ℕ
  parse_price_to_int price_str = numbers.truncate_scaled (numbers.strtod (take 63 price_str))

  abbrev pub parse_quantity : List ℕ → Q
  parse_quantity qty_str = numbers.strtod (take 63 qty_str)

  abbrev pub update_of : Side → List ℕ → List ℕ → OrderBookUpdate Q
  update_of side price_str size_str = record {
    price_int = parse_price_to_int price_str;
    quantity = parse_quantity size_str;
    side = side;
    is_delete = numbers.is_zero (parse_quantity size_str);
  }

  -- The body of the loops over a side; none if it throws.
  abbrev pub parse_update : Side → E → Option (OrderBookUpdate Q)
  parse_update side e = do
    price_str ← string_of_item dom e 0
    size_str ← string_of_item dom e 1
    some (update_of side price_str size_str)

  unfoldable pub add_updates : Side → List E → ParsedMarketData Q → Bool × ParsedMarketData Q
  add_updates side [] r = (true, r)
  add_updates side (e ∷ es) r =
      or_fail (parse_update side e) r
        (λ u. add_updates side es (record r { updates = r.updates ++ u ∷ [] }))

  -- A side that is missing or no array is skipped.
  unfoldable pub add_side : Side → Option (List E) → ParsedMarketData Q → Bool × ParsedMarketData Q
  unfolding add_updates
  add_side side none r = (true, r)
  add_side side (some es) r = add_updates side es r

  abbrev pub array_at : E → List ℕ → Option (List E)
  array_at e name = do side ← dom.field e name; dom.items side

  -- The loop over the elements of `data` of an OKX message.
  unfoldable pub add_elements : List E → ParsedMarketData Q → Bool × ParsedMarketData Q
  unfolding add_side
  add_elements [] r = (true, r)
  add_elements (e ∷ es) r = or_fail (string_at dom e (bytes "ts")) r (λ ts_str.
      let timed = record r { timestamp_ns = ms_to_ns (numbers.strtoull (take 31 ts_str)) } in
      then_run (add_side bid (array_at e (bytes "bids")) timed)
        (λ r'. then_run (add_side ask (array_at e (bytes "asks")) r') (λ r''. add_elements es r'')))

  abbrev pub okx_type : List ℕ → Option MessageType
  okx_type action =
      if bytes_eq action (bytes "snapshot")
      then some snapshot
      else if bytes_eq action (bytes "update")
      then some update
      else none

  abbrev pub bybit_type : List ℕ → Option MessageType
  bybit_type type_str =
      if bytes_eq type_str (bytes "snapshot")
      then some snapshot
      else if bytes_eq type_str (bytes "delta")
      then some update
      else none

  -- What follows the type of an OKX message.
  unfoldable pub fill_okx : E → ParsedMarketData Q → Bool × ParsedMarketData Q
  unfolding add_elements
  fill_okx doc r = or_fail (string_in dom doc (bytes "arg") (bytes "instId")) r (λ inst_id.
      let named = record r { symbol = copy_symbol inst_id } in
      or_fail (array_at doc (bytes "data")) named (λ es. add_elements es named))

  -- `doc["data"].get_object().value()`
  abbrev pub object_at : E → Option E
  object_at doc = do
    contents ← dom.field doc (bytes "data")
    if dom.is_object contents then some contents else none

  -- What follows the type of a Bybit message.
  unfoldable pub fill_bybit : E → ParsedMarketData Q → Bool × ParsedMarketData Q
  unfolding add_side
  fill_bybit doc r = or_fail (dom.field doc (bytes "ts") >>= dom.get_uint64) r (λ ts_ms.
      let timed = record r { timestamp_ns = ms_to_ns ts_ms } in
      or_fail (object_at doc) timed (λ contents.
        or_fail (string_at dom contents (bytes "s")) timed (λ symbol.
          let named = record timed { symbol = copy_symbol symbol } in
          then_run (add_side bid (array_at contents (bytes "b")) named)
            (λ r'. add_side ask (array_at contents (bytes "a")) r'))))

  -- The result for a type, if it is known.
  abbrev pub typed :
      ErrorMessage
      → (ParsedMarketData Q → Bool × ParsedMarketData Q)
      → ParsedMarketData Q
      → Option MessageType
      → ParsedMarketData Q
  typed message fill r none = record r { error_msg = some message }
  typed message fill r (some msg_type) = finish (fill (record r { msg_type = msg_type }))

  -- The type is looked at first: if it is unknown, the function returns, and if there is none, simdjson
  -- throws.
  abbrev pub with_type :
      ErrorMessage
      → (List ℕ → Option MessageType)
      → (ParsedMarketData Q → Bool × ParsedMarketData Q)
      → ParsedMarketData Q
      → Option (List ℕ)
      → ParsedMarketData Q
  with_type message type_of fill r none = finish (false, r)
  with_type message type_of fill r (some text) = typed message fill r (type_of text)

  unfoldable pub okx_result : Option E → ParsedMarketData Q
  unfolding fill_okx
  okx_result none = finish (false, empty_result okx)
  okx_result (some doc) =
      with_type unknown_action okx_type (fill_okx doc) (empty_result okx)
        (string_at dom doc (bytes "action"))

  unfoldable pub parse_okx_message : List ℕ → ParsedMarketData Q
  unfolding okx_result
  parse_okx_message json = okx_result (dom.parse json)

  unfoldable pub bybit_result : Option E → ParsedMarketData Q
  unfolding fill_bybit
  bybit_result none = finish (false, empty_result bybit)
  bybit_result (some doc) =
      with_type unknown_message_type bybit_type (fill_bybit doc) (empty_result bybit)
        (string_at dom doc (bytes "type"))

  unfoldable pub parse_bybit_message : List ℕ → ParsedMarketData Q
  unfolding bybit_result
  parse_bybit_message json = bybit_result (dom.parse json)

  -- The caller's buffer is padded.
  unfoldable pub parse_packet : List ℕ → ExchangeId → ParsedMarketData Q
  unfolding parse_okx_message parse_bybit_message
  parse_packet payload okx = parse_okx_message payload
  parse_packet payload bybit = parse_bybit_message payload
  parse_packet payload exchange = record (empty_result exchange) {
    msg_type = unknown_type;
    error_msg = some unknown_exchange;
  }

  -- The payload is copied to a padded buffer first.
  unfoldable pub parse_packet_safe : List ℕ → ExchangeId → ParsedMarketData Q
  unfolding parse_okx_message parse_bybit_message
  parse_packet_safe payload okx = parse_okx_message payload
  parse_packet_safe payload bybit = parse_bybit_message payload
  parse_packet_safe payload exchange = record (empty_result exchange) {
    msg_type = unknown_type;
    error_msg = some unknown_exchange;
  }
