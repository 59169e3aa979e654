-- ===== src/OrderBook/Manager/Sizes.antt =====
-- What two lists of levels say of one level of a book, in terms of the sizes that they name, and that
-- the updates made from them by OrderBookManager::apply_update of
-- src/modules/market_data/order_book.cpp say the same.
use dpdk_cex_source.Base.{
  ℕ, ◌≡◌, refl, Bool, true, false, ◌||◌, if◌then◌else◌, ◌==◌, List, [], ◌∷◌, map, Option, none,
  some,
}
use dpdk_cex_source.OrderBook.{Side, bid, ask, OrderBookUpdate}
use dpdk_cex_source.OrderBook.Levels.{last_update, resolve}
use dpdk_cex_source.OrderBook.Manager.{OrderBookLevel, level_update, level_updates}

module _ {Q : Type 0} where
  -- The size of the last entry for a price.
  abbrev pub last_size : List (OrderBookLevel Q) → ℕ → Option Q
  last_size [] p = none
  last_size (l ∷ ls) p = elim (last_size ls p) [
    | some q ↦ some q
    | none ↦ if l.price_int == p then some l.size else none
  ]

  -- The list of a side.
  abbrev pub of_side :
      Side → List (OrderBookLevel Q) → List (OrderBookLevel Q) → List (OrderBookLevel Q)
  of_side bid bids asks = bids
  of_side ask bids asks = asks

module _ {Q : Type 0} (le_zero : Q → Bool) where
  -- A level that held `old`, after a list with this last size for it.
  abbrev pub left_by : Option Q → Option Q → Option Q
  left_by none old = old
  left_by (some q) old = if le_zero q then none else some q

  abbrev Agrees : Option (OrderBookUpdate Q) → Option Q → Type 0
  Agrees none none = Unit
  Agrees none (some q) = ⊥
  Agrees (some u) none = ⊥
  Agrees (some u) (some q) = (u.quantity ≡ q) × (u.is_delete ≡ le_zero q)

  Agrees-cons :
      (s : Side) (l : OrderBookLevel Q) (t : Bool) (o : Option (OrderBookUpdate Q)) (w : Option Q)
      → Agrees o w
      → Agrees
          (elim o [ some u ↦ some u | none ↦ if t then some (level_update le_zero s l) else none ])
          (elim w [ some q ↦ some q | none ↦ if t then some l.size else none ])
  Agrees-cons s l true none none h = (refl, refl)
  Agrees-cons s l false none none h = tt
  Agrees-cons s l t none (some q) h = absurd h
  Agrees-cons s l t (some u) none h = absurd h
  Agrees-cons s l t (some u) (some q) h = h

  no_bid :
      (asks : List (OrderBookLevel Q)) (p : ℕ)
      → last_update (map (level_update le_zero ask) asks) bid p ≡ none
  unfolding last_update
  no_bid [] p = refl
  no_bid (l ∷ ls) p = rw (no_bid ls p)

  ask_Agrees :
      (asks : List (OrderBookLevel Q)) (p : ℕ)
      → Agrees (last_update (map (level_update le_zero ask) asks) ask p) (last_size asks p)
  unfolding last_update
  ask_Agrees [] p = tt
  ask_Agrees (l ∷ ls) p = Agrees-cons ask l (l.price_int == p) _ _ (ask_Agrees ls p)

  level_updates-Agrees :
      (bids asks : List (OrderBookLevel Q)) (s : Side) (p : ℕ)
      → Agrees
          (last_update (level_updates le_zero bids asks) s p)
          (last_size (of_side s bids asks) p)
  unfolding level_updates last_update
  level_updates-Agrees [] asks bid p = rw (no_bid asks p) tt
  level_updates-Agrees [] asks ask p = ask_Agrees asks p
  level_updates-Agrees (l ∷ ls) asks bid p =
      Agrees-cons bid l (l.price_int == p) _ _ (level_updates-Agrees ls asks bid p)
  level_updates-Agrees (l ∷ ls) asks ask p = skipped _ _ (level_updates-Agrees ls asks ask p)
    where
      skipped :
          (o : Option (OrderBookUpdate Q)) (w : Option Q)
          → Agrees o w
          → Agrees (elim o [ some u ↦ some u | none ↦ none ]) w
      skipped none w h = h
      skipped (some u) w h = h

  resolve-Agrees :
      (o : Option (OrderBookUpdate Q)) (w old : Option Q)
      → Agrees o w
      → resolve le_zero o old ≡ left_by w old
  resolve-Agrees none none old h = refl
  resolve-Agrees none (some q) old h = absurd h
  resolve-Agrees (some u) none old h = absurd h
  resolve-Agrees (some u) (some q) old h = rw (h.0, h.1) (twice (le_zero q))
    where
      twice : (t : Bool) → (if t || t then none else some q) ≡ (if t then none else some q)
      twice true = refl
      twice false = refl

  -- The updates made from two lists leave at a level what the list of its side says.
  pub resolve-level_updates :
      (bids asks : List (OrderBookLevel Q)) (s : Side) (p : ℕ) (old : Option Q)
      → resolve le_zero (last_update (level_updates le_zero bids asks) s p) old
        ≡ left_by (last_size (of_side s bids asks) p) old
  resolve-level_updates bids asks s p old =
      resolve-Agrees _ _ old (level_updates-Agrees bids asks s p)
