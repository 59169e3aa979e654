-- ===== src/Messages/Delivery.antt =====
-- From the bytes of a frame to the order books and the callback, in
-- WebSocketClient::process_websocket_frame of src/modules/network/websocket_client.cpp.
use dpdk_cex_source.Base.{
  ℕ, ◌+◌, ◌^◌, ◌<◌, ◌≡◌, refl, sym, ◌∙◌, inl, inr, Bool, false, if◌then◌else◌, List, [], ◌∷◌, ◌++◌,
  Option, none, some, length,
}
use dpdk_cex_source.Base.Text.{bytes}
use dpdk_cex_source.AeroTypes.{ExchangeId, okx}
use dpdk_cex_source.Json.{Dom, Numbers, string_in}
use dpdk_cex_source.OrderBook.{Side}
use dpdk_cex_source.OrderBook.Levels.{level}
use dpdk_cex_source.OrderBook.Manager.Sizes.{last_size, of_side, left_by}
use dpdk_cex_source.OrderBook.Manager.Books.{same_book, book_at}
use dpdk_cex_source.OrderBook.Manager.Updates.{IsValid, old_level, level-manager_apply_update}
use dpdk_cex_source.WebSocket.{MaskKey, frame_message}
use dpdk_cex_source.WebSocket.Xor.{IsBytes}
use dpdk_cex_source.WebSocket.RoundTrip.{parse_frame-frame_message}
use dpdk_cex_source.Messages.{
  value, BookUpdate, Receiver, array_at, okx_update, bybit_update, market_update, conclude, on_text,
  on_frame, process_websocket_frame, deliver, apply,
}
use dpdk_cex_source.Messages.Books.{IsOkxMessage, okx_update_iff}

module _ {E Q : Type 0} (dom : Dom E) (numbers : Numbers Q) (le_zero : Q → Bool) where
  -- A framed text message of a server is handed to the text part.
  frame_message-on_text :
      (r : Receiver Q) (buffer_len : ℕ) (message frame : List ℕ) (key : Option MaskKey)
      → IsBytes message
      → 14 + length message < 2 ^ 64
      → frame_message buffer_len message 1 key ≡ some frame
      → process_websocket_frame dom numbers le_zero r frame ≡ on_text dom numbers le_zero r message
  unfolding process_websocket_frame on_frame
  frame_message-on_text r buffer_len message frame key bs fits e =
      elim (parse_frame-frame_message buffer_len message 1 key bs fits) [
        | inl (small, refused) ↦ absurd (some_none (sym e ∙ refused))
        | inr (frame', written, len, need, parses) ↦
            rw (some-injective (sym e ∙ written), parses) refl
      ]
    where
      some_none : some frame ≡ none → ⊥
      some_none h = cc

      some-injective : {a b : List ℕ} → some a ≡ some b → a ≡ b
      some-injective h = cc

  on_text-okx :
      (r : Receiver Q) (message : List ℕ) (doc : E) (u : BookUpdate Q)
      → dom.parse message ≡ some doc
      → okx_update dom numbers doc ≡ value u
      → on_text dom numbers le_zero r message
        ≡ (false, deliver dom numbers le_zero (apply dom numbers le_zero r u) message)
  unfolding on_text market_update conclude
  on_text-okx r message doc u e h = rw (e, h) refl

  process_websocket_frame-okx :
      (r : Receiver Q) (buffer_len : ℕ) (message frame : List ℕ) (key : Option MaskKey) (doc : E)
      (u : BookUpdate Q)
      → IsBytes message
      → 14 + length message < 2 ^ 64
      → frame_message buffer_len message 1 key ≡ some frame
      → dom.parse message ≡ some doc
      → IsOkxMessage dom numbers doc u
      → process_websocket_frame dom numbers le_zero r frame
        ≡ (false, deliver dom numbers le_zero (apply dom numbers le_zero r u) message)
  process_websocket_frame-okx r buffer_len message frame key doc u bs fits e parses v =
      frame_message-on_text r buffer_len message frame key bs fits e
      ∙ on_text-okx r message doc u parses ((okx_update_iff dom numbers doc u).1 v)

  -- A well-formed message of OKX that a server puts in a text frame, masked or not, reaches the
  -- books and the application: no exception leaves the method, the message is delivered after those
  -- before it, the state stays, each bid level of the book of its instrument holds the size that the
  -- last bid entry of the message for its price names (none if the size is zero or less) and each
  -- ask level that of the last ask entry, a level without an entry holds what it held before, or
  -- nothing in a snapshot, and all other books are as before. The message must be of bytes, fit a
  -- frame and parse, and the books must be well-formed.
  pub process_websocket_frame-levels :
      (r : Receiver Q) (buffer_len : ℕ) (message frame : List ℕ) (key : Option MaskKey) (doc : E)
      (u : BookUpdate Q)
      → IsBytes message
      → 14 + length message < 2 ^ 64
      → frame_message buffer_len message 1 key ≡ some frame
      → dom.parse message ≡ some doc
      → IsOkxMessage dom numbers doc u
      → IsValid le_zero r.order_book_manager
      → let (threw, r') = process_websocket_frame dom numbers le_zero r frame in
        (threw ≡ false)
        × (r'.delivered ≡ r.delivered ++ message ∷ [])
        × (r'.state ≡ r.state)
        × ((f : ExchangeId) (j : List ℕ) (s : Side) (p : ℕ)
            → level (book_at r'.order_book_manager f j) s p ≡ (
                if same_book okx u.instrument_id f j
                then left_by le_zero
                    (last_size (of_side s u.new_bids u.new_asks) p)
                    (old_level le_zero r.order_book_manager okx u.instrument_id u.is_snapshot s p)
                else level (book_at r.order_book_manager f j) s p))
  unfolding deliver
  process_websocket_frame-levels r buffer_len message frame key doc u bs fits e parses v valid =
      rw (process_websocket_frame-okx r buffer_len message frame key doc u bs fits e parses v) (
        refl,
        refl,
        refl,
        λ f j s p. rw (v.has_exchange) (
            level-manager_apply_update le_zero r.order_book_manager okx u.instrument_id u.new_bids
              u.new_asks u.is_snapshot f j s p valid),
      )

  on_text-object :
      (r : Receiver Q) (message : List ℕ) (doc : E)
      → dom.parse message ≡ some doc
      → string_in dom doc (bytes "arg") (bytes "channel") ≡ none
      → array_at dom numbers doc (bytes "data") ≡ none
      → on_text dom numbers le_zero r message ≡ (false, deliver dom numbers le_zero r message)
  unfolding on_text market_update okx_update bybit_update conclude
  on_text-object r message doc e no_arg no_array = rw (e, no_arg, no_array) refl

  -- A message without the argument of OKX whose data is no array, as in the documented format of
  -- Bybit, changes no book: the method delivers its text and does nothing else, in whatever text
  -- frame it comes. The message must be of bytes, fit a frame and parse.
  pub process_websocket_frame-object :
      (r : Receiver Q) (buffer_len : ℕ) (message frame : List ℕ) (key : Option MaskKey) (doc : E)
      → IsBytes message
      → 14 + length message < 2 ^ 64
      → frame_message buffer_len message 1 key ≡ some frame
      → dom.parse message ≡ some doc
      → string_in dom doc (bytes "arg") (bytes "channel") ≡ none
      → array_at dom numbers doc (bytes "data") ≡ none
      → process_websocket_frame dom numbers le_zero r frame
        ≡ (false, record r { delivered = r.delivered ++ message ∷ [] })
  unfolding deliver
  process_websocket_frame-object r buffer_len message frame key doc bs fits e parses no_arg
        no_array =
      frame_message-on_text r buffer_len message frame key bs fits e
      ∙ on_text-object r message doc parses no_arg no_array
