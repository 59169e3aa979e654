-- ===== src/Messages.antt =====
-- The messages of the exchanges in src/modules/network/websocket_client.cpp,
-- WebSocketClient::process_websocket_frame: a text frame of OKX or Bybit updates an order book. The
-- parts of the method are functions into Outcome, which tells how a part ends. simdjson and the
-- conversions are the parameters of Json; the printed texts leave no trace.
pub mod Books
pub mod Delivery
mod Tests
use dpdk_cex_source.Base.{
  ℕ, Bool, true, false, if◌then◌else◌, ◌==◌, List, [], ◌∷◌, ◌++◌, Option, none, some, bytes_eq,
}
use dpdk_cex_source.Base.Text.{bytes}
use dpdk_cex_source.AeroTypes.{ExchangeId, okx, bybit}
use dpdk_cex_source.OrderBook.Manager.{OrderBookLevel, OrderBookManager, manager_apply_update}
use dpdk_cex_source.Json.{Dom, Numbers, string_at, string_in, string_of_item}
use dpdk_cex_source.WebSocket.{Frame, parse_frame}
use dpdk_cex_source.Subscriptions.{WsState, ws_disconnected}

-- A part ends with a value, by a `return` of the method, or by an exception: a simdjson_error, or one
-- of std::stod.
pub data Outcome (A : Type 0) : Type 0 where
  value : A → Outcome A
  returns throws_json throws_stod : Outcome A

infixl 5 ◌>>=◌
abbrev pub ◌>>=◌ : {A B : Type 0} → Outcome A → (A → Outcome B) → Outcome B
value a >>= f = f a
returns >>= f = returns
throws_json >>= f = throws_json
throws_stod >>= f = throws_stod

-- An answer of simdjson, and one of std::stod.
abbrev pub read : {A : Type 0} → Option A → Outcome A
read none = throws_json
read (some a) = value a

abbrev pub convert : {A : Type 0} → Option A → Outcome A
convert none = throws_stod
convert (some a) = value a

-- The arguments of the call of OrderBookManager::apply_update.
pub record BookUpdate (Q : Type 0) : Type 0 where
  pub exchange : ExchangeId
  pub instrument_id : List ℕ
  pub new_bids : List (OrderBookLevel Q)
  pub new_asks : List (OrderBookLevel Q)
  pub is_snapshot : Bool

-- What the method changes: the state, the books, and the messages that the callback has received.
pub record Receiver (Q : Type 0) : Type 0 where
  pub state : WsState
  pub order_book_manager : OrderBookManager Q
  pub delivered : List (List ℕ)

module _ {E Q : Type 0} (dom : Dom E) (numbers : Numbers Q) where
  -- The body of the loops over a side.
  unfoldable pub level_of : E → Outcome (OrderBookLevel Q)
  level_of e = do
    price_str ← read (string_of_item dom e 0)
    price ← convert (numbers.stod price_str)
    size_str ← read (string_of_item dom e 1)
    size ← convert (numbers.stod size_str)
    value (record { price_int = numbers.truncate_scaled price; size = size })

  unfoldable pub levels_of : List E → Outcome (List (OrderBookLevel Q))
  unfolding level_of
  levels_of [] = value []
  levels_of (e ∷ es) = do level ← level_of e; levels ← levels_of es; value (level ∷ levels)

  abbrev pub items_of : Option E → Option (List E)
  items_of none = none
  items_of (some e) = dom.items e

  -- `element[name].get_array()`
  abbrev pub array_at : E → List ℕ → Option (List E)
  array_at e name = items_of (dom.field e name)

  -- The first element of the array, behind the test that it has one.
  abbrev pub first_of : List E → Outcome E
  first_of [] = returns
  first_of (e ∷ es) = value e

  unfoldable pub okx_update : E → Outcome (BookUpdate Q)
  unfolding levels_of
  okx_update doc = do
    channel_type ← read (string_in dom doc (bytes "arg") (bytes "channel"))
    instrument_id ← read (string_in dom doc (bytes "arg") (bytes "instId"))
    message_type ← read (string_at dom doc (bytes "action"))
    data_array ← read (array_at doc (bytes "data"))
    data_obj ← first_of data_array
    bids ← read (array_at data_obj (bytes "bids"))
    new_bids ← levels_of bids
    asks ← read (array_at data_obj (bytes "asks"))
    new_asks ← levels_of asks
    value (record {
      exchange = okx;
      instrument_id = instrument_id;
      new_bids = new_bids;
      new_asks = new_asks;
      is_snapshot = bytes_eq message_type (bytes "snapshot");
    })

  -- `if (data_obj.at_key(name).is_array())` and the loop.
  unfoldable pub side_of : Option (List E) → Outcome (List (OrderBookLevel Q))
  unfolding levels_of
  side_of none = value []
  side_of (some es) = levels_of es

  unfoldable pub bybit_update : E → Outcome (BookUpdate Q)
  unfolding side_of
  bybit_update doc = do
    data_array ← read (array_at doc (bytes "data"))
    data_obj ← first_of data_array
    message_type ← read (string_at dom doc (bytes "type"))
    instrument_id ← read (string_at dom doc (bytes "topic"))
    new_bids ← side_of (array_at data_obj (bytes "b"))
    new_asks ← side_of (array_at data_obj (bytes "a"))
    value (record {
      exchange = bybit;
      instrument_id = instrument_id;
      new_bids = new_bids;
      new_asks = new_asks;
      is_snapshot = bytes_eq message_type (bytes "snapshot");
    })

  -- The handler of the simdjson_error of the OKX part is the Bybit part.
  abbrev pub or_bybit : Outcome (BookUpdate Q) → E → Outcome (BookUpdate Q)
  or_bybit throws_json doc = bybit_update doc
  or_bybit result doc = result

  unfoldable pub market_update : E → Outcome (BookUpdate Q)
  unfolding okx_update
  market_update doc = or_bybit (okx_update doc) doc

  module _ (le_zero : Q → Bool) where
    unfoldable pub deliver : Receiver Q → List ℕ → Receiver Q
    deliver r message = record r { delivered = r.delivered ++ message ∷ [] }

    abbrev pub apply : Receiver Q → BookUpdate Q → Receiver Q
    apply r u = record r {
      order_book_manager =
          manager_apply_update le_zero r.order_book_manager u.exchange u.instrument_id u.new_bids
            u.new_asks u.is_snapshot;
    }

    -- What follows the parts: `true` beside the receiver says that an exception leaves the method.
    unfoldable pub conclude : Receiver Q → List ℕ → Outcome (BookUpdate Q) → Bool × Receiver Q
    unfolding deliver
    conclude r message (value u) = (false, deliver (apply r u) message)
    conclude r message throws_json = (false, deliver r message)
    conclude r message returns = (false, r)
    conclude r message throws_stod = (true, r)

    abbrev pub parsed : Option E → Receiver Q → List ℕ → Bool × Receiver Q
    parsed none r message = (false, r)
    parsed (some doc) r message = conclude r message (market_update doc)

    unfoldable pub on_text : Receiver Q → List ℕ → Bool × Receiver Q
    unfolding market_update conclude
    on_text r message = parsed (dom.parse message) r message

    -- The tests of the opcode.
    unfoldable pub on_frame : Receiver Q → Frame → Bool × Receiver Q
    unfolding on_text
    on_frame r f =
        if f.opcode == 1
        then on_text r f.payload
        else if f.opcode == 8
        then (false, record r { state = ws_disconnected })
        else (false, r)

    abbrev pub framed : Option Frame → Receiver Q → Bool × Receiver Q
    framed none r = (false, r)
    framed (some f) r = on_frame r f

    unfoldable pub process_websocket_frame : Receiver Q → List ℕ → Bool × Receiver Q
    unfolding on_frame
    process_websocket_frame r data' = framed (parse_frame data') r
