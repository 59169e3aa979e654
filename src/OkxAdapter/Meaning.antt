-- ===== src/OkxAdapter/Meaning.antt =====
-- What an OKX message says, as a relation between the document and the book that OkxAdapter of
-- src/modules/exchange/okx_adapter.cpp makes of it.
use dpdk_cex_source.Base.{
  ℕ, ◌≡◌, ◌↔◌, ◌⊎◌, inl, inr, refl, sym, ap, ◌∙◌, Bool, true, List, [], ◌∷◌, Option, none, some,
  bytes_eq, Bool-cases, arith,
}
use dpdk_cex_source.Base.Text.{bytes}
use dpdk_cex_source.UdpFeed.{ParsedOrderBook}
use dpdk_cex_source.Connection.{default_book}
use dpdk_cex_source.Json.{Dom, Numbers, ◌>>=◌, string_at, string_in}
use dpdk_cex_source.Json.Books.{filled, side_levels}
use dpdk_cex_source.Json.Sides.{
  bound, some-injective, some_book, guarded, bytes_eq_iff, same_test, IsSide, side_levels-IsSide,
  IsSide-side_levels,
}
use dpdk_cex_source.OkxAdapter.{is_book_channel, snapshot_flag, parse_orderbook_message}
use dpdk_cex_source.OkxAdapter.Parse.{
  time_or, item_book, okx_book, parse_orderbook_message-okx_book,
}

-- The three channels of order books.
abbrev pub IsBookChannel : List ℕ → Type 0
IsBookChannel channel =
    (channel ≡ bytes "books-l2-tbt") ⊎ ((channel ≡ bytes "books5") ⊎ (channel ≡ bytes "books"))

-- Whether the book is a snapshot: what the action says, and without an action, whether the channel is
-- the one that has only snapshots.
abbrev pub IsKind : Option (List ℕ) → List ℕ → Bool → Type 0
IsKind none channel value = (value ≡ true) ↔ (channel ≡ bytes "books5")
IsKind (some action) channel value = (value ≡ true) ↔ (action ≡ bytes "snapshot")

is_book_channel-IsBookChannel :
    (channel : List ℕ) → is_book_channel channel ≡ true → IsBookChannel channel
is_book_channel-IsBookChannel channel e =
    elim (Bool-cases (bytes_eq channel (bytes "books-l2-tbt"))) [
      | inl h ↦ inl ((bytes_eq_iff channel _).0 h)
      | inr h ↦ elim (Bool-cases (bytes_eq channel (bytes "books5"))) [
        | inl k ↦ inr (inl ((bytes_eq_iff channel _).0 k))
        | inr k ↦ inr (inr ((bytes_eq_iff channel _).0 (ground (arith, e, h, k))))
      ]
    ]

IsBookChannel-is_book_channel :
    (channel : List ℕ) → IsBookChannel channel → is_book_channel channel ≡ true
IsBookChannel-is_book_channel channel (inl e) = rw e refl
IsBookChannel-is_book_channel channel (inr (inl e)) = rw e refl
IsBookChannel-is_book_channel channel (inr (inr e)) = rw e refl

module _ {E Q : Type 0} (dom : Dom E) (numbers : Numbers Q) where
  -- The time of the element, or what the variable held.
  abbrev pub IsTime : Option (List ℕ) → ℕ → ℕ → Type 0
  IsTime none time value = value ≡ time
  IsTime (some ts_str) time value = numbers.stoull ts_str ≡ some value

  -- Only the first element of the data counts.
  abbrev pub IsFirst : ℕ → List E → ParsedOrderBook Q → Type 0
  IsFirst time [] b = (b.bids ≡ []) × (b.asks ≡ []) × (b.timestamp_ms ≡ time)
  IsFirst time (item ∷ items) b =
      IsSide dom numbers (dom.field item (bytes "bids")) b.bids
      × IsSide dom numbers (dom.field item (bytes "asks")) b.asks
      × IsTime (string_at dom item (bytes "ts")) time b.timestamp_ms

  -- The document is a message of OKX with this book.
  pub record IsOkxBook (time : ℕ) (doc : E) (b : ParsedOrderBook Q) : Type 0 where
    pub channel : List ℕ
    pub contents : E
    pub items : List E
    pub has_channel : string_in dom doc (bytes "arg") (bytes "channel") ≡ some channel
    pub of_books : IsBookChannel channel
    pub has_instrument : string_in dom doc (bytes "arg") (bytes "instId") ≡ some b.instrument
    pub has_kind : IsKind (string_at dom doc (bytes "action")) channel b.is_snapshot
    pub has_data : dom.field doc (bytes "data") ≡ some contents
    pub has_items : dom.items contents ≡ some items
    pub has_first : IsFirst time items b

  snapshot_flag-IsKind :
      (doc : E) (channel : List ℕ) (o : Option (List ℕ))
      → string_at dom doc (bytes "action") ≡ o
      → IsKind o channel (snapshot_flag dom numbers doc channel)
  snapshot_flag-IsKind doc channel none e = rw (e, snapshot_flag) (bytes_eq_iff channel _)
  snapshot_flag-IsKind doc channel (some action) e = rw (e, snapshot_flag) (bytes_eq_iff action _)

  IsKind-unique :
      (o : Option (List ℕ)) (channel : List ℕ) (v w : Bool)
      → IsKind o channel v
      → IsKind o channel w
      → v ≡ w
  IsKind-unique none channel v w h k = same_test v w h k
  IsKind-unique (some action) channel v w h k = same_test v w h k

  time_or-IsTime :
      (o : Option (List ℕ)) (time value : ℕ)
      → time_or dom numbers o time ≡ some value
      → IsTime o time value
  time_or-IsTime none time value h = sym (some-injective time value h)
  time_or-IsTime (some ts_str) time value h = h

  IsTime-time_or :
      (o : Option (List ℕ)) (time value : ℕ)
      → IsTime o time value
      → time_or dom numbers o time ≡ some value
  IsTime-time_or none time value h = ap some (sym h)
  IsTime-time_or (some ts_str) time value h = h

  -- The book before its first element.
  abbrev named : List ℕ → Bool → ℕ → ParsedOrderBook Q
  named instrument flag time = record (default_book flag time) { instrument = instrument }

  item_book-IsFirst :
      (items : List E) (instrument : List ℕ) (flag : Bool) (time : ℕ) (b : ParsedOrderBook Q)
      → item_book dom numbers (named instrument flag time) items ≡ some b
      → (b.instrument ≡ instrument) × (b.is_snapshot ≡ flag) × IsFirst time items b
  item_book-IsFirst [] instrument flag time b h =
      let same = some-injective _ b h in
      (
        sym (ap (λ (x : ParsedOrderBook Q). x.instrument) same),
        sym (ap (λ (x : ParsedOrderBook Q). x.is_snapshot) same),
        (
          sym (ap (λ (x : ParsedOrderBook Q). x.bids) same),
          sym (ap (λ (x : ParsedOrderBook Q). x.asks) same),
          sym (ap (λ (x : ParsedOrderBook Q). x.timestamp_ms) same),
        ),
      )
  item_book-IsFirst (item ∷ items) instrument flag time b h =
      let (bids, a, h1) = bound (side_levels dom numbers (dom.field item (bytes "bids"))) _ b h in
      let (asks, c, h2) = bound (side_levels dom numbers (dom.field item (bytes "asks"))) _ b h1 in
      let (ts, k, h3) = bound (time_or dom numbers (string_at dom item (bytes "ts")) time) _ b h2 in
      let same = some-injective _ b h3 in
      (
        sym (ap (λ (x : ParsedOrderBook Q). x.instrument) same),
        sym (ap (λ (x : ParsedOrderBook Q). x.is_snapshot) same),
        (
          side_levels-IsSide dom numbers _ b.bids
              (a ∙ ap (λ (x : ParsedOrderBook Q). some x.bids) same),
          side_levels-IsSide dom numbers _ b.asks
              (c ∙ ap (λ (x : ParsedOrderBook Q). some x.asks) same),
          time_or-IsTime _ time b.timestamp_ms
              (k ∙ ap (λ (x : ParsedOrderBook Q). some x.timestamp_ms) same),
        ),
      )

  IsFirst-item_book :
      (items : List E) (time : ℕ) (b : ParsedOrderBook Q)
      → IsFirst time items b
      → item_book dom numbers (named b.instrument b.is_snapshot time) items ≡ some b
  IsFirst-item_book [] time b (no_bids, no_asks, now) = some_book b [] [] time no_bids no_asks now
  IsFirst-item_book (item ∷ items) time b (bids, asks, now) =
      rw
        (
          IsSide-side_levels dom numbers (dom.field item (bytes "bids")) b.bids bids,
          IsSide-side_levels dom numbers (dom.field item (bytes "asks")) b.asks asks,
          IsTime-time_or (string_at dom item (bytes "ts")) time b.timestamp_ms now,
        )
        refl

  okx_book-IsOkxBook :
      (flag : Bool) (time : ℕ) (doc : E) (b : ParsedOrderBook Q)
      → okx_book dom numbers flag time doc ≡ some b
      → IsOkxBook time doc b
  okx_book-IsOkxBook flag time doc b h =
      let (channel, a, h1) = bound (string_in dom doc (bytes "arg") (bytes "channel")) _ b h in
      let (of_books, h2) = guarded (is_book_channel channel) _ b h1 in
      let (inst_id, c, h3) = bound (string_in dom doc (bytes "arg") (bytes "instId")) _ b h2 in
      let (contents, k, h4) = bound (dom.field doc (bytes "data")) _ b h3 in
      let (items, l, h5) = bound (dom.items contents) _ b h4 in
      let (same_name, same_kind, first) =
        item_book-IsFirst items inst_id (snapshot_flag dom numbers doc channel) time b h5 in
      record {
        channel = channel;
        contents = contents;
        items = items;
        has_channel = a;
        of_books = is_book_channel-IsBookChannel channel of_books;
        has_instrument = c ∙ ap some (sym same_name);
        has_kind = rw same_kind (snapshot_flag-IsKind doc channel _ refl);
        has_data = k;
        has_items = l;
        has_first = first;
      }

  IsOkxBook-okx_book :
      (flag : Bool) (time : ℕ) (doc : E) (b : ParsedOrderBook Q)
      → IsOkxBook time doc b
      → okx_book dom numbers flag time doc ≡ some b
  IsOkxBook-okx_book flag time doc b v =
      let kind =
        IsKind-unique (string_at dom doc (bytes "action")) v.channel
          (snapshot_flag dom numbers doc v.channel) b.is_snapshot
          (snapshot_flag-IsKind doc v.channel _ refl) v.has_kind in
      rw
        (
          v.has_channel,
          IsBookChannel-is_book_channel v.channel v.of_books,
          v.has_instrument,
          v.has_data,
          v.has_items,
        )
        (ap (λ (f : Bool). item_book dom numbers (named b.instrument f time) v.items) kind
          ∙ IsFirst-item_book v.items time b v.has_first)

  -- Parsing an OKX message into a default-constructed book returns true with the book `b` exactly when
  -- the text is a document with one of the three channels of order books, the instrument of `b`, and a
  -- data array such that `b` is a snapshot exactly if the action says so (without an action, if the
  -- channel is books5), and the sides and the time of `b` are those of the first element: of each
  -- level, the first text is the price, scaled and rounded, and the second the size; a missing side is
  -- empty, a missing time is what the variable held, and without elements both sides are empty.
  pub parse_orderbook_message-IsOkxBook :
      (m : List ℕ) (flag : Bool) (time : ℕ) (b : ParsedOrderBook Q)
      → (filled (parse_orderbook_message dom numbers m (default_book flag time)) ≡ some b)
        ↔ ((doc : E) × (dom.parse m ≡ some doc) × IsOkxBook time doc b)
  parse_orderbook_message-IsOkxBook m flag time b =
      let e = parse_orderbook_message-okx_book dom numbers m flag time in
      (
        λ h.
            let (doc, parses, h1) = bound (dom.parse m) _ b (sym e ∙ h) in
            (doc, parses, okx_book-IsOkxBook flag time doc b h1),
        λ (doc, parses, v).
            e
            ∙ ap (λ (o : Option E). o >>= okx_book dom numbers flag time) parses
            ∙ IsOkxBook-okx_book flag time doc b v,
      )
