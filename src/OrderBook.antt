-- ===== src/OrderBook.antt =====
-- src/modules/market_data/order_book.h and order_book.cpp, class OrderBook, with the update type of
-- src/modules/parser/json_parser.h. Each method takes the book's mutex for its whole body, so it is
-- one atomic function of the state. `Q` stands for `double`, and `le_zero x` for `x <= 0.0`.
pub mod Levels
pub mod Canonical
pub mod Best
pub mod Manager
mod Tests
use dpdk_cex_source.Base.{
  ℕ, Bool, true, false, ◌||◌, if◌then◌else◌, List, [], ◌∷◌, Option, none, some,
}
use dpdk_cex_source.Base.Ord.{ascending, descending}
use dpdk_cex_source.Base.SortedMap.{SortedMap, insert, erase}

pub data Side : Type 0 where
  bid ask : Side

pub record OrderBookUpdate (Q : Type 0) : Type 0 where
  pub price_int : ℕ
  pub quantity : Q
  pub side : Side
  pub is_delete : Bool

-- The levels in the order of the two maps: bids from the highest price, asks from the lowest.
pub record OrderBook (Q : Type 0) : Type 0 where
  pub bids : SortedMap ℕ Q
  pub asks : SortedMap ℕ Q

pub record BestBidOffer (Q : Type 0) : Type 0 where
  pub bid_price : ℕ
  pub bid_qty : Q
  pub ask_price : ℕ
  pub ask_qty : Q

module _ {Q : Type 0} where
  abbrev pub empty : OrderBook Q
  empty = record { bids = []; asks = [] }

  unfoldable pub clear : OrderBook Q → OrderBook Q
  clear b = record b { bids = []; asks = [] }

  -- `none` is the result `false`, which leaves the output parameter as it was.
  best : SortedMap ℕ Q → SortedMap ℕ Q → Option (BestBidOffer Q)
  best [] asks = none
  best (b ∷ bs) [] = none
  best ((bid_price, bid_qty) ∷ bs) ((ask_price, ask_qty) ∷ as') = some (record {
    bid_price = bid_price;
    bid_qty = bid_qty;
    ask_price = ask_price;
    ask_qty = ask_qty;
  })

  unfoldable pub get_bbo : OrderBook Q → Option (BestBidOffer Q)
  unfolding best
  get_bbo b = best b.bids b.asks

module _ {Q : Type 0} (le_zero : Q → Bool) where
  unfoldable pub apply_update_internal : OrderBook Q → OrderBookUpdate Q → OrderBook Q
  apply_update_internal b u =
      let is_delete = u.is_delete || le_zero u.quantity in
      elim u.side [
        | bid ↦
            if is_delete
            then record b { bids = erase descending u.price_int b.bids }
            else record b { bids = insert descending u.price_int u.quantity b.bids }
        | ask ↦
            if is_delete
            then record b { asks = erase ascending u.price_int b.asks }
            else record b { asks = insert ascending u.price_int u.quantity b.asks }
      ]

  unfoldable pub apply_update : OrderBook Q → OrderBookUpdate Q → OrderBook Q
  apply_update b u = apply_update_internal b u

  unfoldable pub apply_updates : OrderBook Q → List (OrderBookUpdate Q) → OrderBook Q
  apply_updates b [] = b
  apply_updates b (u ∷ us) = apply_updates (apply_update_internal b u) us

  unfoldable pub apply_snapshot : OrderBook Q → List (OrderBookUpdate Q) → OrderBook Q
  unfolding clear
  apply_snapshot b us = apply_updates (clear b) us
