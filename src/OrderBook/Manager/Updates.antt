-- ===== src/OrderBook/Manager/Updates.antt =====
-- What the manager's calls do to the books: the addressed book is updated, every other is kept.
use dpdk_cex_source.Base.{
  ℕ, ◌≡◌, refl, ◌∙◌, inl, inr, Bool, true, false, if◌then◌else◌, List, Option, some, none, arith,
  bytes_eq→eq, Bool-cases, ap,
}
use dpdk_cex_source.AeroTypes.{ExchangeId, exchange_code-injective}
use dpdk_cex_source.Base.SortedMap.{find}
use dpdk_cex_source.OrderBook.{
  Side, bid, ask, OrderBookUpdate, OrderBook, BestBidOffer, clear, apply_updates, apply_snapshot,
  get_bbo,
}
use dpdk_cex_source.OrderBook.Levels.{
  level, last_update, resolve, IsBook, clear-IsBook, apply_updates-IsBook, apply_snapshot-IsBook,
  level-apply_updates,
}
use dpdk_cex_source.OrderBook.Best.{IsBestOf, get_bbo-IsBestOf}
use dpdk_cex_source.OrderBook.Manager.{
  OrderBookManager, OrderBookLevel, BestPrices, put_book, level_updates, manager_apply_updates,
  manager_apply_update, get_best_prices, double_prices,
}
use dpdk_cex_source.OrderBook.Manager.Sizes.{last_size, of_side, left_by, resolve-level_updates}
use dpdk_cex_source.OrderBook.Manager.Books.{
  IsManager, book_at, same_book, put_book-IsManager, book_at-put_book,
}

module _ {Q : Type 0} where
  level-clear : (b : OrderBook Q) (s : Side) (p : ℕ) → level (clear b) s p ≡ none
  unfolding level clear find
  level-clear b bid p = refl
  level-clear b ask p = refl

  book_at_same :
      (m : OrderBookManager Q) (e : ExchangeId) (i : List ℕ) (f : ExchangeId) (j : List ℕ)
      → same_book e i f j ≡ true
      → book_at m e i ≡ book_at m f j
  book_at_same m e i f j h =
      rw (exchange_code-injective e f (ground arith)) (rw (bytes_eq→eq i j (ground arith)))

module _ {Q : Type 0} (le_zero : Q → Bool) where
  -- The manager's maps are in order, and every book is well formed.
  pub record IsValid (m : OrderBookManager Q) : Type 0 where
    pub maps : IsManager m
    pub all_books : (f : ExchangeId) (j : List ℕ) → IsBook le_zero (book_at m f j)

  abbrev apply_batch : OrderBook Q → List (OrderBookUpdate Q) → Bool → OrderBook Q
  apply_batch b us is_snapshot =
      if is_snapshot then apply_snapshot le_zero b us else apply_updates le_zero b us

  apply_batch-IsBook :
      (b : OrderBook Q) (us : List (OrderBookUpdate Q)) (is_snapshot : Bool)
      → IsBook le_zero b
      → IsBook le_zero (apply_batch b us is_snapshot)
  apply_batch-IsBook b us true v = apply_snapshot-IsBook le_zero b us
  apply_batch-IsBook b us false v = apply_updates-IsBook le_zero b us v

  twice_put :
      (m : OrderBookManager Q) (e : ExchangeId) (i : List ℕ) (b c : OrderBook Q) (f : ExchangeId)
      (j : List ℕ)
      → IsManager m
      → book_at (put_book (put_book m e i b) e i c) f j
        ≡ (if same_book e i f j then c else book_at m f j)
  twice_put m e i b c f j v = elim (Bool-cases (same_book e i f j)) [
    | inl same ↦
        rw (book_at-put_book (put_book m e i b) e i c f j (put_book-IsManager m e i b v), same)
    | inr other ↦
        rw (book_at-put_book (put_book m e i b) e i c f j (put_book-IsManager m e i b v), other)
          (rw (book_at-put_book m e i b f j v, other))
  ]

  -- The addressed book takes the batch, as a snapshot or as increments; every other stays.
  pub book_at-manager_apply_updates :
      (m : OrderBookManager Q) (e : ExchangeId) (i : List ℕ) (us : List (OrderBookUpdate Q))
      (is_snapshot : Bool) (f : ExchangeId) (j : List ℕ)
      → IsManager m
      → book_at (manager_apply_updates le_zero m e i us is_snapshot) f j
        ≡ (if same_book e i f j then apply_batch (book_at m e i) us is_snapshot else book_at m f j)
  unfolding manager_apply_updates
  book_at-manager_apply_updates m e i us is_snapshot f j v =
      twice_put m e i (book_at m e i) (apply_batch (book_at m e i) us is_snapshot) f j v

  manager_apply_update-eq :
      (m : OrderBookManager Q) (e : ExchangeId) (i : List ℕ) (bids asks : List (OrderBookLevel Q))
      (is_snapshot : Bool)
      → manager_apply_update le_zero m e i bids asks is_snapshot
        ≡ manager_apply_updates le_zero m e i (level_updates le_zero bids asks) is_snapshot
  unfolding manager_apply_update manager_apply_updates
  manager_apply_update-eq m e i bids asks is_snapshot = refl

  if_IsBook :
      (t : Bool) (b c : OrderBook Q)
      → IsBook le_zero b
      → IsBook le_zero c
      → IsBook le_zero (if t then b else c)
  if_IsBook true b c v w = v
  if_IsBook false b c v w = w

  manager_apply_updates-IsManager :
      (m : OrderBookManager Q) (e : ExchangeId) (i : List ℕ) (us : List (OrderBookUpdate Q))
      (is_snapshot : Bool)
      → IsManager m
      → IsManager (manager_apply_updates le_zero m e i us is_snapshot)
  unfolding manager_apply_updates
  manager_apply_updates-IsManager m e i us is_snapshot v =
      put_book-IsManager _ e i _ (put_book-IsManager m e i _ v)

  -- Applying a batch, as a snapshot or as increments, keeps the manager well formed.
  pub manager_apply_updates-IsValid :
      (m : OrderBookManager Q) (e : ExchangeId) (i : List ℕ) (us : List (OrderBookUpdate Q))
      (is_snapshot : Bool)
      → IsValid m
      → IsValid (manager_apply_updates le_zero m e i us is_snapshot)
  manager_apply_updates-IsValid m e i us is_snapshot v = record {
    maps = manager_apply_updates-IsManager m e i us is_snapshot v.maps;
    all_books = λ f j. rw (book_at-manager_apply_updates m e i us is_snapshot f j v.maps) (
        if_IsBook (same_book e i f j) _ _
          (apply_batch-IsBook (book_at m e i) us is_snapshot (v.all_books e i)) (v.all_books f j));
  }

  -- What the addressed book held before a batch: nothing, for a snapshot.
  abbrev pub old_level : OrderBookManager Q → ExchangeId → List ℕ → Bool → Side → ℕ → Option Q
  old_level m e i is_snapshot s p = if is_snapshot then none else level (book_at m e i) s p

  level-apply_batch :
      (b : OrderBook Q) (us : List (OrderBookUpdate Q)) (is_snapshot : Bool) (s : Side) (p : ℕ)
      → IsBook le_zero b
      → level (apply_batch b us is_snapshot) s p
        ≡ resolve le_zero (last_update us s p) (if is_snapshot then none else level b s p)
  unfolding apply_snapshot
  level-apply_batch b us false s p v = level-apply_updates le_zero b us s p v
  level-apply_batch b us true s p v =
      level-apply_updates le_zero (clear b) us s p (clear-IsBook le_zero b) ∙ rw (level-clear b s p)

  resolve-manager_apply_update :
      (m : OrderBookManager Q) (e : ExchangeId) (i : List ℕ) (bids asks : List (OrderBookLevel Q))
      (is_snapshot : Bool) (f : ExchangeId) (j : List ℕ) (s : Side) (p : ℕ)
      → IsValid m
      → level (book_at (manager_apply_update le_zero m e i bids asks is_snapshot) f j) s p ≡ (
          if same_book e i f j
          then resolve le_zero
              (last_update (level_updates le_zero bids asks) s p)
              (old_level m e i is_snapshot s p)
          else level (book_at m f j) s p)
  resolve-manager_apply_update m e i bids asks is_snapshot f j s p v =
      rw (manager_apply_update-eq m e i bids asks is_snapshot) (
        rw
          (book_at-manager_apply_updates m e i (level_updates le_zero bids asks) is_snapshot f j
            v.maps)
          (if_level (same_book e i f j)))
    where
      if_level :
          (t : Bool)
          → level
              (if t
                then apply_batch (book_at m e i) (level_updates le_zero bids asks) is_snapshot
                else book_at m f j)
              s
              p
            ≡ (if t
                then resolve le_zero
                    (last_update (level_updates le_zero bids asks) s p)
                    (old_level m e i is_snapshot s p)
                else level (book_at m f j) s p)
      if_level true =
          level-apply_batch (book_at m e i) (level_updates le_zero bids asks) is_snapshot s p
            (v.all_books e i)
      if_level false = refl

  -- A client's call in terms of levels. After `apply_update` with lists of bid and ask levels, each
  -- bid level of the addressed book holds the size that the last entry for its price in the first
  -- list names (none if the size is zero or less), and each ask level that of the second list; a
  -- level without an entry holds what it held before, or nothing if the call was a snapshot. The
  -- levels of all other books are as before. The manager must be well formed.
  pub level-manager_apply_update :
      (m : OrderBookManager Q) (e : ExchangeId) (i : List ℕ) (bids asks : List (OrderBookLevel Q))
      (is_snapshot : Bool) (f : ExchangeId) (j : List ℕ) (s : Side) (p : ℕ)
      → IsValid m
      → level (book_at (manager_apply_update le_zero m e i bids asks is_snapshot) f j) s p ≡ (
          if same_book e i f j
          then left_by le_zero (last_size (of_side s bids asks) p) (old_level m e i is_snapshot s p)
          else level (book_at m f j) s p)
  level-manager_apply_update m e i bids asks is_snapshot f j s p v =
      resolve-manager_apply_update m e i bids asks is_snapshot f j s p v
      ∙ ap (λ (x : Option Q). if same_book e i f j then x else level (book_at m f j) s p)
          (resolve-level_updates le_zero bids asks s p (old_level m e i is_snapshot s p))

module _ {Q : Type 0} (to_double : ℕ → Q) where
  -- What `get_best_prices` may answer for a book.
  abbrev pub IsPriced : OrderBook Q → Option (BestPrices Q) → Type 0
  IsPriced b none = IsBestOf b none
  IsPriced b (some prices) =
      (r : BestBidOffer Q) × IsBestOf b (some r) × (prices ≡ double_prices to_double r)

  priced :
      (b : OrderBook Q) (o : Option (BestBidOffer Q))
      → IsBestOf b o
      → IsPriced b (elim o [ none ↦ none | some r ↦ some (double_prices to_double r) ])
  priced b none h = h
  priced b (some r) h = (r, h, refl)

  -- In a well-formed manager `get_best_prices` answers with the best bid and ask of the addressed
  -- book, their prices converted to double, or fails when that book has an empty side; and it
  -- changes no book, though it may make an empty one.
  pub get_best_prices-IsPriced :
      (le_zero : Q → Bool) (m : OrderBookManager Q) (e : ExchangeId) (i : List ℕ)
      → IsValid le_zero m
      → IsPriced (book_at m e i) (get_best_prices to_double m e i).0
        × ((f : ExchangeId) (j : List ℕ)
            → book_at (get_best_prices to_double m e i).1 f j ≡ book_at m f j)
  unfolding get_best_prices
  get_best_prices-IsPriced le_zero m e i v = (
    priced (book_at m e i) (get_bbo (book_at m e i))
        (get_bbo-IsBestOf le_zero (book_at m e i) (v.all_books e i)),
    λ f j. book_at-put_book m e i (book_at m e i) f j v.maps ∙ unchanged f j,
  )
    where
      unchanged :
          (f : ExchangeId) (j : List ℕ)
          → (if same_book e i f j then book_at m e i else book_at m f j) ≡ book_at m f j
      unchanged f j = elim (Bool-cases (same_book e i f j)) [
        | inl same ↦ rw same (book_at_same m e i f j same)
        | inr other ↦ rw other
      ]
