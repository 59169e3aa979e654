-- ===== src/BybitAdapter/Meaning.antt =====
-- What a Bybit message says, as a relation between the document and the book that BybitAdapter of
-- src/modules/exchange/bybit_adapter.cpp makes of it.
use dpdk_cex_source.Base.{
  ℕ, ◌≡◌, ◌↔◌, inl, inr, refl, sym, ap, ◌∙◌, Bool, true, false, ◌||◌, ◌==◌, if◌then◌else◌, List, [],
  ◌∷◌, ◌++◌, Option, none, some, All, Bool-cases, Option-cases, ==_iff, arith,
}
use dpdk_cex_source.Base.Text.{bytes}
use dpdk_cex_source.UdpFeed.{ParsedOrderBook}
use dpdk_cex_source.Connection.{default_book}
use dpdk_cex_source.Json.{Dom, Numbers, ◌>>=◌, string_at, has_value}
use dpdk_cex_source.Json.Books.{filled, side_levels}
use dpdk_cex_source.Json.Sides.{
  bound, some-injective, some_book, guarded, bytes_eq_iff, same_test, IsSide, side_levels-IsSide,
  IsSide-side_levels,
}
use dpdk_cex_source.BybitAdapter.{starts_with, contains, after_last_dot, parse_orderbook_message}
use dpdk_cex_source.BybitAdapter.Parse.{
  time_or, data_book, topic_book, bybit_book, parse_orderbook_message-bybit_book,
}

-- The text has this part somewhere.
abbrev pub HasPart : List ℕ → List ℕ → Type 0
HasPart part text = (before : List ℕ) × (after : List ℕ) × (text ≡ before ++ (part ++ after))

-- The text ends with a dot, and this rest without a dot.
abbrev pub IsAfterDot : List ℕ → List ℕ → Type 0
IsAfterDot text rest =
    (before : List ℕ) × (text ≡ before ++ (46 ∷ rest)) × All (λ c. (c == 46) ≡ false) rest

starts_with-rest :
    (part text : List ℕ) → starts_with part text ≡ true → (after : List ℕ) × (text ≡ part ++ after)
starts_with-rest [] text h = (text, refl)
starts_with-rest (b ∷ part) [] h = cc
starts_with-rest (b ∷ part) (c ∷ text) h =
    let (after, e) = starts_with-rest part text (ground (arith, h)) in
    (after, rw (e, (==_iff b c).0 (ground (arith, h))) refl)

starts_with-append : (part after : List ℕ) → starts_with part (part ++ after) ≡ true
starts_with-append [] after = refl
starts_with-append (b ∷ part) after = rw ((==_iff b b).1 refl, starts_with-append part after) refl

contains-HasPart : (part text : List ℕ) → contains part text ≡ true → HasPart part text
contains-HasPart part [] h = let (after, e) = starts_with-rest part [] h in ([], after, e)
contains-HasPart part (c ∷ text) h = elim (Bool-cases (starts_with part (c ∷ text))) [
  | inl here ↦ (let (after, e) = starts_with-rest part (c ∷ text) here in ([], after, e))
  | inr later ↦
      (let (before, after, e) = contains-HasPart part text (ground (arith, h, later)) in
        (c ∷ before, after, ap (◌∷◌ c) e))
]

contains-start : (part text : List ℕ) → starts_with part text ≡ true → contains part text ≡ true
contains-start part [] h = h
contains-start part (c ∷ text) h = rw h refl

or_true : (b : Bool) → (b || true) ≡ true
or_true true = refl
or_true false = refl

contains-append : (part before after : List ℕ) → contains part (before ++ (part ++ after)) ≡ true
contains-append part [] after = contains-start part (part ++ after) (starts_with-append part after)
contains-append part (c ∷ before) after = rw (contains-append part before after) (or_true _)

no_dot : (text : List ℕ) → after_last_dot text ≡ none → All (λ c. (c == 46) ≡ false) text
no_dot [] h = tt
no_dot (c ∷ text) h = elim (Option-cases (after_last_dot text)) [
  | inl e ↦ (ground (arith, h, e), no_dot text e)
  | inr (rest, e) ↦ ground (arith, h, e)
]

dotless : (text : List ℕ) → All (λ c. (c == 46) ≡ false) text → after_last_dot text ≡ none
dotless [] h = refl
dotless (c ∷ text) (h, hs) = rw (dotless text hs, h) refl

after_last_dot-IsAfterDot :
    (text rest : List ℕ) → after_last_dot text ≡ some rest → IsAfterDot text rest
after_last_dot-IsAfterDot [] rest h = cc
after_last_dot-IsAfterDot (c ∷ text) rest h = elim (Option-cases (after_last_dot text)) [
  | inl e ↦
      (let (dot, same) = guarded (c == 46) (some text) rest (ground (arith, h, e)) in
        (
          [],
          rw ((==_iff c 46).0 dot, some-injective text rest same) refl,
          rw⁻¹ (some-injective text rest same) (no_dot text e),
        ))
  | inr (found, e) ↦
      (let (before, split, clean) = after_last_dot-IsAfterDot text rest (ground (arith, h, e)) in
        (c ∷ before, ap (◌∷◌ c) split, clean))
]

after_last_dot-append :
    (before rest : List ℕ)
    → All (λ c. (c == 46) ≡ false) rest
    → after_last_dot (before ++ (46 ∷ rest)) ≡ some rest
after_last_dot-append [] rest h = rw (dotless rest h) refl
after_last_dot-append (c ∷ before) rest h = rw (after_last_dot-append before rest h) refl

-- Whether the book is a snapshot: the type says so.
abbrev pub IsKind : Option (List ℕ) → Bool → Type 0
IsKind none value = value ≡ false
IsKind (some type_str) value = (value ≡ true) ↔ (type_str ≡ bytes "snapshot")

IsKind-unique : (o : Option (List ℕ)) (v w : Bool) → IsKind o v → IsKind o w → v ≡ w
IsKind-unique none v w h k = h ∙ sym k
IsKind-unique (some type_str) v w h k = same_test v w h k

-- The time in the data, or what the variable held.
abbrev pub IsTime : Option ℕ → ℕ → ℕ → Type 0
IsTime none time value = value ≡ time
IsTime (some ts) time value = value ≡ ts

module _ {E Q : Type 0} (dom : Dom E) (numbers : Numbers Q) where
  time_or-IsTime :
      (o : Option ℕ) (time value : ℕ) → value ≡ time_or dom numbers o time → IsTime o time value
  time_or-IsTime none time value h = h
  time_or-IsTime (some ts) time value h = h

  IsTime-time_or :
      (o : Option ℕ) (time value : ℕ) → IsTime o time value → value ≡ time_or dom numbers o time
  IsTime-time_or none time value h = h
  IsTime-time_or (some ts) time value h = h

  -- The document is a message of Bybit with this book.
  pub record IsBybitBook (time : ℕ) (doc : E) (b : ParsedOrderBook Q) : Type 0 where
    pub topic : List ℕ
    pub contents : E
    pub has_topic : string_at dom doc (bytes "topic") ≡ some topic
    pub of_books : HasPart (bytes "orderbook") topic
    pub has_instrument : IsAfterDot topic b.instrument
    pub has_kind : IsKind (string_at dom doc (bytes "type")) b.is_snapshot
    pub has_data : dom.field doc (bytes "data") ≡ some contents
    pub has_bids : IsSide dom numbers (dom.field contents (bytes "b")) b.bids
    pub has_asks : IsSide dom numbers (dom.field contents (bytes "a")) b.asks
    pub has_time : IsTime (dom.field contents (bytes "ts") >>= dom.get_uint64) time b.timestamp_ms

  has_value-IsKind :
      (doc : E) (o : Option (List ℕ))
      → string_at dom doc (bytes "type") ≡ o
      → IsKind o (has_value dom doc (bytes "type") (bytes "snapshot"))
  has_value-IsKind doc none e = rw (e, has_value) refl
  has_value-IsKind doc (some type_str) e = rw (e, has_value) (bytes_eq_iff type_str _)

  -- The book before its data.
  abbrev named : List ℕ → Bool → ℕ → ParsedOrderBook Q
  named instrument flag time = record (default_book flag time) { instrument = instrument }

  bybit_book-IsBybitBook :
      (flag : Bool) (time : ℕ) (doc : E) (b : ParsedOrderBook Q)
      → bybit_book dom numbers flag time doc ≡ some b
      → IsBybitBook time doc b
  bybit_book-IsBybitBook flag time doc b h =
      let (topic, a, h1) = bound (string_at dom doc (bytes "topic")) _ b h in
      let (of_books, h2) = guarded (contains (bytes "orderbook") topic) _ b h1 in
      let (instrument, c, h3) = bound (after_last_dot topic) _ b h2 in
      let (contents, k, h4) = bound (dom.field doc (bytes "data")) _ b h3 in
      let (bids, l, h5) = bound (side_levels dom numbers (dom.field contents (bytes "b"))) _ b h4 in
      let (asks, n, h6) = bound (side_levels dom numbers (dom.field contents (bytes "a"))) _ b h5 in
      let same = some-injective _ b h6 in
      record {
        topic = topic;
        contents = contents;
        has_topic = a;
        of_books = contains-HasPart (bytes "orderbook") topic of_books;
        has_instrument =
            after_last_dot-IsAfterDot topic b.instrument
              (c ∙ ap (λ (x : ParsedOrderBook Q). some x.instrument) same);
        has_kind =
            rw⁻¹ (ap (λ (x : ParsedOrderBook Q). x.is_snapshot) same) (has_value-IsKind doc _ refl);
        has_data = k;
        has_bids =
            side_levels-IsSide dom numbers _ b.bids
              (l ∙ ap (λ (x : ParsedOrderBook Q). some x.bids) same);
        has_asks =
            side_levels-IsSide dom numbers _ b.asks
              (n ∙ ap (λ (x : ParsedOrderBook Q). some x.asks) same);
        has_time =
            time_or-IsTime _ time b.timestamp_ms
              (sym (ap (λ (x : ParsedOrderBook Q). x.timestamp_ms) same));
      }

  IsBybitBook-data_book :
      (time : ℕ) (doc : E) (b : ParsedOrderBook Q) (v : IsBybitBook time doc b)
      → data_book dom numbers (named b.instrument b.is_snapshot time) v.contents ≡ some b
  IsBybitBook-data_book time doc b v =
      rw
        (
          IsSide-side_levels dom numbers (dom.field v.contents (bytes "b")) b.bids v.has_bids,
          IsSide-side_levels dom numbers (dom.field v.contents (bytes "a")) b.asks v.has_asks,
        )
        (some_book b b.bids b.asks _ refl refl (
          IsTime-time_or (dom.field v.contents (bytes "ts") >>= dom.get_uint64) time b.timestamp_ms
            v.has_time))

  topic_book-some :
      (flag : Bool) (time : ℕ) (doc : E) (b : ParsedOrderBook Q) (v : IsBybitBook time doc b)
      → topic_book dom numbers flag time v.topic doc ≡ some b
  topic_book-some flag time doc b v =
      let (before, split, clean) = v.has_instrument in
      let instrument : after_last_dot v.topic ≡ some b.instrument =
        ap after_last_dot split ∙ after_last_dot-append before b.instrument clean in
      let kind =
        IsKind-unique (string_at dom doc (bytes "type"))
          (has_value dom doc (bytes "type") (bytes "snapshot")) b.is_snapshot
          (has_value-IsKind doc _ refl) v.has_kind in
      rw (instrument, v.has_data)
        (ap (λ (f : Bool). data_book dom numbers (named b.instrument f time) v.contents) kind
          ∙ IsBybitBook-data_book time doc b v)

  IsBybitBook-bybit_book :
      (flag : Bool) (time : ℕ) (doc : E) (b : ParsedOrderBook Q)
      → IsBybitBook time doc b
      → bybit_book dom numbers flag time doc ≡ some b
  IsBybitBook-bybit_book flag time doc b v =
      let (before, after, split) = v.of_books in
      let of_books : contains (bytes "orderbook") v.topic ≡ true =
        ap (contains (bytes "orderbook")) split
        ∙ contains-append (bytes "orderbook") before after in
      ap
        (λ (o : Option (List ℕ)). o >>= λ topic.
          if contains (bytes "orderbook") topic
          then topic_book dom numbers flag time topic doc
          else none)
        v.has_topic
      ∙ ap (λ (t : Bool). if t then topic_book dom numbers flag time v.topic doc else none) of_books
      ∙ topic_book-some flag time doc b v

  -- Parsing a Bybit message into a default-constructed book returns true with the book `b` exactly when
  -- the text is a document whose topic has "orderbook" in it and ends with a dot and the instrument of
  -- `b`, which has no dot, and whose data are such that the sides and the time of `b` are those of the
  -- data: of each level, the first text is the price, scaled and rounded, and the second the size; a
  -- missing side is empty, and a missing time is what the variable held. And `b` is a snapshot exactly
  -- if the type is "snapshot".
  pub parse_orderbook_message-IsBybitBook :
      (m : List ℕ) (flag : Bool) (time : ℕ) (b : ParsedOrderBook Q)
      → (filled (parse_orderbook_message dom numbers m (default_book flag time)) ≡ some b)
        ↔ ((doc : E) × (dom.parse m ≡ some doc) × IsBybitBook time doc b)
  parse_orderbook_message-IsBybitBook m flag time b =
      let e = parse_orderbook_message-bybit_book dom numbers m flag time in
      (
        λ h.
            let (doc, parses, h1) = bound (dom.parse m) _ b (sym e ∙ h) in
            (doc, parses, bybit_book-IsBybitBook flag time doc b h1),
        λ (doc, parses, v).
            e
            ∙ ap (λ (o : Option E). o >>= bybit_book dom numbers flag time) parses
            ∙ IsBybitBook-bybit_book flag time doc b v,
      )
