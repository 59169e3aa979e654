-- ===== src/Messages/Tests.antt =====
-- The two documents of Json/Samples in text frames of a server.
use dpdk_cex_source.Base.{
  ℕ, ◌≡◌, ◌↔◌, refl, Bool, true, false, if◌then◌else◌, List, [], ◌∷◌, none, some, ◌==◌, arith,
}
use dpdk_cex_source.Base.Text.{bytes}
use dpdk_cex_source.Base.SortedMap.{find}
use dpdk_cex_source.AeroTypes.{ExchangeId, okx}
use dpdk_cex_source.Json.Samples.{level, okx_document, bybit_document, integers, trees_dom}
use dpdk_cex_source.OrderBook.{Side}
use dpdk_cex_source.OrderBook.Levels as Levels
use dpdk_cex_source.OrderBook.Manager.Sizes.{last_size, of_side, left_by}
use dpdk_cex_source.OrderBook.Manager.Books.{same_book, book_at}
use dpdk_cex_source.OrderBook.Manager.Updates.{IsValid, old_level}
use dpdk_cex_source.WebSocket.{frame_message}
use dpdk_cex_source.Subscriptions.{ws_connected}
use dpdk_cex_source.Messages.{value, BookUpdate, Receiver, okx_update, process_websocket_frame}
use dpdk_cex_source.Messages.Books.{no_levels, level_and, IsOkxMessage, okx_update_iff}
use dpdk_cex_source.Messages.Delivery.{
  process_websocket_frame-levels, process_websocket_frame-object,
}

abbrev no_quantity : ℕ → Bool
no_quantity q = q == 0

abbrev receiver : Receiver ℕ
receiver = record {
  state = ws_connected;
  order_book_manager = record { books = [] };
  delivered = [];
}

abbrev snapshot_update : BookUpdate ℕ
snapshot_update = record {
  exchange = okx;
  instrument_id = bytes "BTC-USDT";
  new_bids = record { price_int = 9500000000; size = 2 } ∷ [];
  new_asks = record { price_int = 9700000000; size = 0 } ∷ [];
  is_snapshot = true;
}

abbrev okx_frame : List ℕ
okx_frame = 129 ∷ 3 ∷ bytes "okx"

abbrev bybit_frame : List ℕ
bybit_frame = 129 ∷ 5 ∷ bytes "bybit"

okx_frame_lem : frame_message 64 (bytes "okx") 1 none ≡ some okx_frame
unfolding frame_message
okx_frame_lem = refl

bybit_frame_lem : frame_message 64 (bytes "bybit") 1 none ≡ some bybit_frame
unfolding frame_message
bybit_frame_lem = refl

okx_document-IsOkxMessage : IsOkxMessage trees_dom integers okx_document snapshot_update
okx_document-IsOkxMessage = record {
  channel = bytes "books5";
  action = bytes "snapshot";
  data_obj = _;
  others = [];
  bids = level (bytes "95") (bytes "2") ∷ [];
  asks = level (bytes "97") (bytes "0") ∷ [];
  has_exchange = refl;
  has_channel = refl;
  has_instrument = refl;
  has_action = refl;
  has_kind = refl;
  has_data = refl;
  has_bids = refl;
  are_bids =
      level_and
        (record {
          price_str = bytes "95";
          price = 95;
          size_str = bytes "2";
          price_text = refl;
          price_number = refl;
          price_scaled = refl;
          size_text = refl;
          size_number = refl;
        })
        no_levels;
  has_asks = refl;
  are_asks =
      level_and
        (record {
          price_str = bytes "97";
          price = 97;
          size_str = bytes "0";
          price_text = refl;
          price_number = refl;
          price_scaled = refl;
          size_text = refl;
          size_number = refl;
        })
        no_levels;
}

okx_update_iff_example :
    (okx_update trees_dom integers okx_document ≡ value snapshot_update)
    ↔ IsOkxMessage trees_dom integers okx_document snapshot_update
okx_update_iff_example = okx_update_iff trees_dom integers okx_document snapshot_update

no_books-IsValid : IsValid no_quantity receiver.order_book_manager
unfolding find
no_books-IsValid = record {
  maps = record { exchanges_sorted = tt; instruments_sorted = tt };
  all_books =
      λ f j. record { bids_sorted = tt; asks_sorted = tt; bids_positive = tt; asks_positive = tt };
}

process_websocket_frame-levels_example :
    let (threw, r') = process_websocket_frame trees_dom integers no_quantity receiver okx_frame in
    (threw ≡ false)
    × (r'.delivered ≡ bytes "okx" ∷ [])
    × (r'.state ≡ ws_connected)
    × ((f : ExchangeId) (j : List ℕ) (s : Side) (p : ℕ)
        → Levels.level (book_at r'.order_book_manager f j) s p ≡ (
            if same_book okx (bytes "BTC-USDT") f j
            then left_by no_quantity
                (last_size (of_side s snapshot_update.new_bids snapshot_update.new_asks) p)
                (old_level no_quantity receiver.order_book_manager okx (bytes "BTC-USDT") true s p)
            else Levels.level (book_at receiver.order_book_manager f j) s p))
process_websocket_frame-levels_example =
    process_websocket_frame-levels trees_dom integers no_quantity receiver 64 (bytes "okx")
      okx_frame none okx_document snapshot_update (omega arith, (omega arith, (omega arith, tt)))
      (omega arith) okx_frame_lem refl okx_document-IsOkxMessage no_books-IsValid

process_websocket_frame-object_example :
    process_websocket_frame trees_dom integers no_quantity receiver bybit_frame
    ≡ (false, record receiver { delivered = bytes "bybit" ∷ [] })
process_websocket_frame-object_example =
    process_websocket_frame-object trees_dom integers no_quantity receiver 64 (bytes "bybit")
      bybit_frame none bybit_document
      (omega arith, (omega arith, (omega arith, (omega arith, (omega arith, tt))))) (omega arith)
      bybit_frame_lem refl refl refl
