-- ===== src/OrderBook/Canonical.antt =====
-- A book is determined by its levels, so batches that leave the same levels leave the same book.
use dpdk_cex_source.Base.{ℕ, ◌≡◌, refl, Bool, false, ◌&&◌, ◌==◌, List, Option, some, none, arith}
use dpdk_cex_source.Base.Ord.{ascending, descending}
use dpdk_cex_source.Base.SortedMap.Ext.{find_ext}
use dpdk_cex_source.OrderBook.{
  Side, bid, ask, OrderBookUpdate, OrderBook, clear, apply_update, apply_updates, apply_snapshot,
  apply_update_internal,
}
use dpdk_cex_source.OrderBook.Levels.{
  level, last_update, same_side, resolve, IsBook, clear-IsBook, apply_update_internal-IsBook,
  apply_updates-IsBook, apply_snapshot-IsBook, level-apply_update_internal, level-apply_updates,
}

module _ {Q : Type 0} where
  Book-eq : (b c : OrderBook Q) → b.bids ≡ c.bids → b.asks ≡ c.asks → b ≡ c
  Book-eq b c p q = λ i. record { bids = p i; asks = q i }

module _ {Q : Type 0} (le_zero : Q → Bool) where
  pub book_ext :
      (b c : OrderBook Q)
      → IsBook le_zero b
      → IsBook le_zero c
      → ((s : Side) (p : ℕ) → level b s p ≡ level c s p)
      → b ≡ c
  unfolding level
  book_ext b c v w h =
      Book-eq b c (find_ext descending b.bids c.bids v.bids_sorted w.bids_sorted (h bid))
        (find_ext ascending b.asks c.asks v.asks_sorted w.asks_sorted (h ask))

  last_again :
      (old : Option Q) (o : Option (OrderBookUpdate Q))
      → resolve le_zero o (resolve le_zero o old) ≡ resolve le_zero o old
  last_again old none = refl
  last_again old (some u) = refl

  -- Applying a batch of updates a second time changes nothing, in any well-formed book.
  pub apply_updates_twice :
      (b : OrderBook Q) (us : List (OrderBookUpdate Q))
      → IsBook le_zero b
      → apply_updates le_zero (apply_updates le_zero b us) us ≡ apply_updates le_zero b us
  apply_updates_twice b us v =
      book_ext _ _ (apply_updates-IsBook le_zero _ us once) once (λ s p. agree s p)
    where
      once : IsBook le_zero (apply_updates le_zero b us)
      once = apply_updates-IsBook le_zero b us v

      agree :
          (s : Side) (p : ℕ)
          → level (apply_updates le_zero (apply_updates le_zero b us) us) s p
            ≡ level (apply_updates le_zero b us) s p
      agree s p = rw (level-apply_updates le_zero (apply_updates le_zero b us) us s p once) (
          rw (level-apply_updates le_zero b us s p v)
            (last_again (level b s p) (last_update us s p)))

  -- Two updates of different levels may be applied in either order.
  pub apply_update_comm :
      (b : OrderBook Q) (u w : OrderBookUpdate Q)
      → IsBook le_zero b
      → (same_side u.side w.side && (u.price_int == w.price_int)) ≡ false
      → apply_update le_zero (apply_update le_zero b u) w
        ≡ apply_update le_zero (apply_update le_zero b w) u
  unfolding apply_update
  apply_update_comm b u w v apart = book_ext _ _ (kept u w) (kept w u) (λ s p. agree s p)
    where
      kept :
          (x y : OrderBookUpdate Q)
          → IsBook le_zero (apply_update_internal le_zero (apply_update_internal le_zero b x) y)
      kept x y =
          apply_update_internal-IsBook le_zero _ y (apply_update_internal-IsBook le_zero b x v)

      agree :
          (s : Side) (p : ℕ)
          → level (apply_update_internal le_zero (apply_update_internal le_zero b u) w) s p
            ≡ level (apply_update_internal le_zero (apply_update_internal le_zero b w) u) s p
      agree s p = ground (
        arith,
        level-apply_update_internal le_zero _ w s p (apply_update_internal-IsBook le_zero b u v),
        level-apply_update_internal le_zero _ u s p (apply_update_internal-IsBook le_zero b w v),
        level-apply_update_internal le_zero b u s p v,
        level-apply_update_internal le_zero b w s p v,
      )

  -- A snapshot forgets the book it replaces, and depends on its updates only through the last one
  -- of each level: batches that agree there give one and the same book.
  pub apply_snapshot-eq :
      (b c : OrderBook Q) (us ws : List (OrderBookUpdate Q))
      → ((s : Side) (p : ℕ) → last_update us s p ≡ last_update ws s p)
      → apply_snapshot le_zero b us ≡ apply_snapshot le_zero c ws
  unfolding apply_snapshot
  apply_snapshot-eq b c us ws h =
      book_ext _ _ (apply_snapshot-IsBook le_zero b us) (apply_snapshot-IsBook le_zero c ws)
        (λ s p. agree s p)
    where
      agree :
          (s : Side) (p : ℕ)
          → level (apply_updates le_zero (clear b) us) s p
            ≡ level (apply_updates le_zero (clear c) ws) s p
      agree s p = rw (level-apply_updates le_zero (clear b) us s p (clear-IsBook le_zero b)) (
          rw (level-apply_updates le_zero (clear c) ws s p (clear-IsBook le_zero c))
            (rw (h s p) refl))
