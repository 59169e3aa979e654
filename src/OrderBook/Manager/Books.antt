-- ===== src/OrderBook/Manager/Books.antt =====
-- The manager as a function from exchange and instrument to a book.
use dpdk_cex_source.Base.{
  ℕ, ◌≡◌, ap, inl, inr, Bool, false, ◌&&◌, if◌then◌else◌, ◌==◌, List, [], some, arith, bytes_eq,
  bytes_eq→eq, bytes_eq_refl, Bool-cases, Option-cases, ==_iff,
}
use dpdk_cex_source.Base.Ord.{string_ord}
use dpdk_cex_source.Base.SortedMap.{
  SortedMap, find, insert, IsSorted, find-insert_self, find-insert_ne, insert-IsSorted,
}
use dpdk_cex_source.Base.SortedMap.Ext.{AllValues, AllValues-insert, AllValues-find}
use dpdk_cex_source.AeroTypes.{ExchangeId, exchange_ord, exchange_code, exchange_code-injective}
use dpdk_cex_source.OrderBook.{OrderBook, empty}
use dpdk_cex_source.OrderBook.Manager.{OrderBookManager, or_new, put_book}

abbrev pub same_book : ExchangeId → List ℕ → ExchangeId → List ℕ → Bool
same_book e i e' i' = exchange_code e == exchange_code e' && bytes_eq i i'

ne_of_bytes : (i j : List ℕ) → bytes_eq i j ≡ false → ¬ (j ≡ i)
ne_of_bytes i j h e = ground (arith, bytes_eq_refl i)

ne_of_code : (e f : ExchangeId) → (exchange_code e == exchange_code f) ≡ false → ¬ (f ≡ e)
ne_of_code e f h q = ground (arith, ap exchange_code q)

module _ {Q : Type 0} where
  -- The instruments of one exchange.
  abbrev pub instruments : OrderBookManager Q → ExchangeId → SortedMap (List ℕ) (OrderBook Q)
  instruments m e = or_new (find exchange_ord e m.books) []

  -- The book of an instrument; one that was never made is empty.
  abbrev pub book_at : OrderBookManager Q → ExchangeId → List ℕ → OrderBook Q
  book_at m e i = or_new (find string_ord i (instruments m e)) empty

  -- Both levels of the map of maps are in order.
  pub record IsManager (m : OrderBookManager Q) : Type 0 where
    pub exchanges_sorted : IsSorted exchange_ord m.books
    pub instruments_sorted : AllValues (IsSorted string_ord) m.books

  instruments-IsSorted :
      (m : OrderBookManager Q) (e : ExchangeId)
      → IsManager m
      → IsSorted string_ord (instruments m e)
  instruments-IsSorted m e v = elim (Option-cases (find exchange_ord e m.books)) [
    | inl no_entry ↦ rw no_entry tt
    | inr (s, entry) ↦
        rw entry
          (AllValues-find exchange_ord (IsSorted string_ord) e s m.books v.instruments_sorted entry)
  ]

  pub put_book-IsManager :
      (m : OrderBookManager Q) (e : ExchangeId) (i : List ℕ) (b : OrderBook Q)
      → IsManager m
      → IsManager (put_book m e i b)
  unfolding put_book
  put_book-IsManager m e i b v = record {
    exchanges_sorted = insert-IsSorted exchange_ord e _ m.books v.exchanges_sorted;
    instruments_sorted =
        AllValues-insert exchange_ord (IsSorted string_ord) e _ m.books
          (insert-IsSorted string_ord i b _ (instruments-IsSorted m e v)) v.instruments_sorted;
  }

  instruments-put_book :
      (m : OrderBookManager Q) (e : ExchangeId) (i : List ℕ) (b : OrderBook Q) (f : ExchangeId)
      → IsManager m
      → instruments (put_book m e i b) f ≡ (
          if exchange_code e == exchange_code f
          then insert string_ord i b (instruments m f)
          else instruments m f)
  unfolding put_book
  instruments-put_book m e i b f v = elim (Bool-cases (exchange_code e == exchange_code f)) [
    | inl here ↦
        rw (here, exchange_code-injective e f ((==_iff _ _).0 here))
          (rw (find-insert_self exchange_ord f _ m.books))
    | inr away ↦
        rw away
          (rw (find-insert_ne exchange_ord e f _ m.books (ne_of_code e f away) v.exchanges_sorted))
  ]

  string_lookup :
      (i j : List ℕ) (b : OrderBook Q) (s : SortedMap (List ℕ) (OrderBook Q))
      → IsSorted string_ord s
      → find string_ord j (insert string_ord i b s)
        ≡ (if bytes_eq i j then some b else find string_ord j s)
  string_lookup i j b s v = elim (Bool-cases (bytes_eq i j)) [
    | inl hit ↦ rw (hit, bytes_eq→eq i j hit) (find-insert_self string_ord j b s)
    | inr miss ↦ rw miss (find-insert_ne string_ord i j b s (ne_of_bytes i j miss) v)
  ]

  -- Writing one book leaves every other as it was.
  pub book_at-put_book :
      (m : OrderBookManager Q) (e : ExchangeId) (i : List ℕ) (b : OrderBook Q) (f : ExchangeId)
      (j : List ℕ)
      → IsManager m
      → book_at (put_book m e i b) f j ≡ (if same_book e i f j then b else book_at m f j)
  book_at-put_book m e i b f j v = elim (Bool-cases (exchange_code e == exchange_code f)) [
    | inl here ↦
        rw (instruments-put_book m e i b f v, here)
          (rw (string_lookup i j b (instruments m f) (instruments-IsSorted m f v)) (ground arith))
    | inr away ↦ rw (instruments-put_book m e i b f v, away)
  ]
