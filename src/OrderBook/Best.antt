-- ===== src/OrderBook/Best.antt =====
-- `get_bbo` returns the best levels of a well-formed book.
use dpdk_cex_source.Base.{
  ℕ, ◌≤◌, ◌≡◌, refl, ◌⊎◌, inl, inr, Bool, ◌∷◌, [], Option, none, some, arith,
}
use dpdk_cex_source.Base.Ord.{ascending, descending}
use dpdk_cex_source.Base.SortedMap.{SortedMap, find, IsSorted}
use dpdk_cex_source.Base.SortedMap.Ext.{head-least, find_head}
use dpdk_cex_source.OrderBook.{bid, ask, OrderBook, BestBidOffer, get_bbo, best}
use dpdk_cex_source.OrderBook.Levels.{level, IsBook}

module _ {Q : Type 0} where
  -- What the answer says of a book: no answer if a side is empty, else a bid and an ask that are
  -- levels of the book with no better level on their side.
  abbrev pub IsBestOf : OrderBook Q → Option (BestBidOffer Q) → Type 0
  IsBestOf b none = ((p : ℕ) → level b bid p ≡ none) ⊎ ((p : ℕ) → level b ask p ≡ none)
  IsBestOf b (some r) =
      (level b bid r.bid_price ≡ some r.bid_qty)
      × (level b ask r.ask_price ≡ some r.ask_qty)
      × ((p : ℕ) (q : Q) → level b bid p ≡ some q → p ≤ r.bid_price)
      × ((p : ℕ) (q : Q) → level b ask p ≡ some q → r.ask_price ≤ p)

  highest :
      (j : ℕ) (w : Q) (m : SortedMap ℕ Q)
      → IsSorted descending ((j, w) ∷ m)
      → (p : ℕ) (q : Q) → find descending p ((j, w) ∷ m) ≡ some q
      → p ≤ j
  highest j w m s p q h = ground (arith, head-least descending j p w m s h)

  lowest :
      (j : ℕ) (w : Q) (m : SortedMap ℕ Q)
      → IsSorted ascending ((j, w) ∷ m)
      → (p : ℕ) (q : Q) → find ascending p ((j, w) ∷ m) ≡ some q
      → j ≤ p
  lowest j w m s p q h = ground (arith, head-least ascending j p w m s h)

  best-IsBestOf :
      (bids asks : SortedMap ℕ Q)
      → IsSorted descending bids
      → IsSorted ascending asks
      → IsBestOf (record { bids = bids; asks = asks }) (best bids asks)
  unfolding best level find
  best-IsBestOf [] asks sb sa = inl (λ p. refl)
  best-IsBestOf (b ∷ bs) [] sb sa = inr (λ p. refl)
  best-IsBestOf ((j, v) ∷ bs) ((i, w) ∷ as') sb sa = (
    find_head descending j v bs,
    find_head ascending i w as',
    highest j v bs sb,
    lowest i w as' sa,
  )

  -- In a well-formed book `get_bbo` gives the highest bid and the lowest ask, each with the
  -- quantity that the book holds there, and fails exactly when a side has no level.
  pub get_bbo-IsBestOf :
      (le_zero : Q → Bool) (b : OrderBook Q) → IsBook le_zero b → IsBestOf b (get_bbo b)
  unfolding get_bbo
  get_bbo-IsBestOf le_zero b v = best-IsBestOf b.bids b.asks v.bids_sorted v.asks_sorted
