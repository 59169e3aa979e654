-- ===== src/OrderBook/Levels.antt =====
-- The book's invariant, and the book as a function from side and price to a quantity.
use dpdk_cex_source.Base.{
  ℕ, ◌≡◌, refl, ◌∙◌, ◌⊎◌, Bool, true, false, ◌||◌, ◌&&◌, if◌then◌else◌, ◌==◌, List, [], ◌∷◌, Option,
  none, some, inl, inr, arith, Bool-cases, ==_iff,
}
use dpdk_cex_source.Base.Ord.{Ord, ascending, descending}
use dpdk_cex_source.Base.SortedMap.{
  SortedMap, find, insert, erase, IsSorted, insert-IsSorted, erase-IsSorted, find-insert_self,
  find-insert_ne, find-erase_self, find-erase_ne,
}
use dpdk_cex_source.Base.SortedMap.Ext.{AllValues, AllValues-insert, AllValues-erase}
use dpdk_cex_source.OrderBook.{
  Side, bid, ask, OrderBookUpdate, OrderBook, clear, apply_update_internal, apply_updates,
  apply_snapshot,
}

abbrev pub same_side : Side → Side → Bool
same_side bid bid = true
same_side bid ask = false
same_side ask bid = false
same_side ask ask = true

Side-cases : (s : Side) → (s ≡ bid) ⊎ (s ≡ ask)
Side-cases bid = inl refl
Side-cases ask = inr refl

module _ {Q : Type 0} (o : Ord ℕ) where
  find-insert :
      (k p : ℕ) (v : Q) (m : SortedMap ℕ Q)
      → IsSorted o m
      → find o p (insert o k v m) ≡ (if k == p then some v else find o p m)
  find-insert k p v m s = elim (Bool-cases (k == p)) [
    | inl e ↦ rw (e, (==_iff k p).0 e) (find-insert_self o p v m)
    | inr e ↦ rw e (find-insert_ne o k p v m (λ q. ground arith) s)
  ]

  find-erase :
      (k p : ℕ) (m : SortedMap ℕ Q)
      → IsSorted o m
      → find o p (erase o k m) ≡ (if k == p then none else find o p m)
  find-erase k p m s = elim (Bool-cases (k == p)) [
    | inl e ↦ rw (e, (==_iff k p).0 e) (find-erase_self o p m s)
    | inr e ↦ rw e (find-erase_ne o k p m (λ q. ground arith) s)
  ]

module _ {Q : Type 0} where
  -- The quantity at a price of one side.
  unfoldable pub level : OrderBook Q → Side → ℕ → Option Q
  level b bid p = find descending p b.bids
  level b ask p = find ascending p b.asks

  -- The update speaks of this level.
  abbrev pub touches : OrderBookUpdate Q → Side → ℕ → Bool
  touches u s p = same_side u.side s && (u.price_int == p)

  -- The last update of a batch that speaks of a level.
  unfoldable pub last_update : List (OrderBookUpdate Q) → Side → ℕ → Option (OrderBookUpdate Q)
  last_update [] s p = none
  last_update (u ∷ us) s p = elim (last_update us s p) [
    | some w ↦ some w
    | none ↦ if touches u s p then some u else none
  ]

module _ {Q : Type 0} (le_zero : Q → Bool) where
  -- What an update leaves at its level.
  abbrev pub settled : OrderBookUpdate Q → Option Q
  settled u = if u.is_delete || le_zero u.quantity then none else some u.quantity

  -- What a batch leaves at a level that held `old`, given its last update there.
  abbrev pub resolve : Option (OrderBookUpdate Q) → Option Q → Option Q
  resolve none old = old
  resolve (some u) old = settled u

  -- Both maps are in order, and no level has a quantity of zero or less.
  pub record IsBook (b : OrderBook Q) : Type 0 where
    pub bids_sorted : IsSorted descending b.bids
    pub asks_sorted : IsSorted ascending b.asks
    pub bids_positive : AllValues (λ q. le_zero q ≡ false) b.bids
    pub asks_positive : AllValues (λ q. le_zero q ≡ false) b.asks

  pub clear-IsBook : (b : OrderBook Q) → IsBook (clear b)
  unfolding clear
  clear-IsBook b = record {
    bids_sorted = tt;
    asks_sorted = tt;
    bids_positive = tt;
    asks_positive = tt;
  }

  pub apply_update_internal-IsBook :
      (b : OrderBook Q) (u : OrderBookUpdate Q)
      → IsBook b
      → IsBook (apply_update_internal le_zero b u)
  unfolding apply_update_internal
  apply_update_internal-IsBook b u v = elim (Side-cases u.side) [
    | inl on_bid ↦ elim (Bool-cases (u.is_delete || le_zero u.quantity)) [
      | inl gone ↦
          rw (on_bid, gone, apply_update_internal)
            (record {
              bids_sorted = erase-IsSorted descending u.price_int b.bids v.bids_sorted;
              asks_sorted = v.asks_sorted;
              bids_positive = AllValues-erase descending _ u.price_int b.bids v.bids_positive;
              asks_positive = v.asks_positive;
            })
      | inr kept ↦
          rw (on_bid, kept, apply_update_internal)
            (record {
              bids_sorted = insert-IsSorted descending u.price_int u.quantity b.bids v.bids_sorted;
              asks_sorted = v.asks_sorted;
              bids_positive =
                  AllValues-insert descending _ u.price_int u.quantity b.bids (ground arith)
                    v.bids_positive;
              asks_positive = v.asks_positive;
            })
    ]
    | inr on_ask ↦ elim (Bool-cases (u.is_delete || le_zero u.quantity)) [
      | inl gone ↦
          rw (on_ask, gone, apply_update_internal)
            (record {
              bids_sorted = v.bids_sorted;
              asks_sorted = erase-IsSorted ascending u.price_int b.asks v.asks_sorted;
              bids_positive = v.bids_positive;
              asks_positive = AllValues-erase ascending _ u.price_int b.asks v.asks_positive;
            })
      | inr kept ↦
          rw (on_ask, kept, apply_update_internal)
            (record {
              bids_sorted = v.bids_sorted;
              asks_sorted = insert-IsSorted ascending u.price_int u.quantity b.asks v.asks_sorted;
              bids_positive = v.bids_positive;
              asks_positive =
                  AllValues-insert ascending _ u.price_int u.quantity b.asks (ground arith)
                    v.asks_positive;
            })
    ]
  ]

  pub apply_updates-IsBook :
      (b : OrderBook Q) (us : List (OrderBookUpdate Q))
      → IsBook b
      → IsBook (apply_updates le_zero b us)
  unfolding apply_updates
  apply_updates-IsBook b [] v = v
  apply_updates-IsBook b (u ∷ us) v =
      apply_updates-IsBook (apply_update_internal le_zero b u) us
        (apply_update_internal-IsBook b u v)

  pub apply_snapshot-IsBook :
      (b : OrderBook Q) (us : List (OrderBookUpdate Q)) → IsBook (apply_snapshot le_zero b us)
  unfolding apply_snapshot
  apply_snapshot-IsBook b us = apply_updates-IsBook (clear b) us (clear-IsBook b)

  -- One update changes its own level and no other.
  pub level-apply_update_internal :
      (b : OrderBook Q) (u : OrderBookUpdate Q) (s : Side) (p : ℕ)
      → IsBook b
      → level (apply_update_internal le_zero b u) s p
        ≡ (if touches u s p then settled u else level b s p)
  unfolding level apply_update_internal
  level-apply_update_internal b u bid p v = ground (
    arith,
    find-insert descending u.price_int p u.quantity b.bids v.bids_sorted,
    find-erase descending u.price_int p b.bids v.bids_sorted,
  )
  level-apply_update_internal b u ask p v = ground (
    arith,
    find-insert ascending u.price_int p u.quantity b.asks v.asks_sorted,
    find-erase ascending u.price_int p b.asks v.asks_sorted,
  )

  -- A batch leaves at a level what its last update of that level says, and keeps the level if no
  -- update speaks of it.
  pub level-apply_updates :
      (b : OrderBook Q) (us : List (OrderBookUpdate Q)) (s : Side) (p : ℕ)
      → IsBook b
      → level (apply_updates le_zero b us) s p ≡ resolve (last_update us s p) (level b s p)
  unfolding apply_updates last_update
  level-apply_updates b [] s p v = refl
  level-apply_updates b (u ∷ us) s p v =
      level-apply_updates (apply_update_internal le_zero b u) us s p
        (apply_update_internal-IsBook b u v)
      ∙ ground (arith, level-apply_update_internal b u s p v)
