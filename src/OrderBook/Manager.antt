-- ===== src/OrderBook/Manager.antt =====
-- src/modules/market_data/order_book.h and order_book.cpp, class OrderBookManager. A reference to a
-- book of the map is the pair of its exchange and instrument: `get_book` reads it, making it if it
-- is missing, and `put_book` is the effect of a method call through the reference.
pub mod Books
pub mod Sizes
pub mod Updates
use dpdk_cex_source.Base.{ℕ, Bool, if◌then◌else◌, List, [], ◌++◌, map, Option, none, some}
use dpdk_cex_source.Base.Ord.{string_ord}
use dpdk_cex_source.Base.SortedMap.{SortedMap, find, insert}
use dpdk_cex_source.AeroTypes.{ExchangeId, exchange_ord}
use dpdk_cex_source.OrderBook.{
  Side, bid, ask, OrderBookUpdate, OrderBook, BestBidOffer, empty, apply_updates, apply_snapshot,
  get_bbo,
}

pub record OrderBookLevel (Q : Type 0) : Type 0 where
  pub price_int : ℕ
  pub size : Q

pub record OrderBookManager (Q : Type 0) : Type 0 where
  pub books : SortedMap ExchangeId (SortedMap (List ℕ) (OrderBook Q))

pub record BestPrices (Q : Type 0) : Type 0 where
  pub bid_price : Q
  pub bid_qty : Q
  pub ask_price : Q
  pub ask_qty : Q

-- The value that `operator[]` finds or makes.
abbrev pub or_new {ℓ} : {A : Type ℓ} → Option A → A → A
or_new none a = a
or_new (some x) a = x

module _ {Q : Type 0} where
  unfoldable pub put_book :
      OrderBookManager Q → ExchangeId → List ℕ → OrderBook Q → OrderBookManager Q
  put_book m e i b = record {
    books =
        insert exchange_ord e (insert string_ord i b (or_new (find exchange_ord e m.books) []))
          m.books;
  }

  -- `books_[exchange][instrument]`
  unfoldable pub get_book :
      OrderBookManager Q → ExchangeId → List ℕ → OrderBook Q × OrderBookManager Q
  unfolding put_book
  get_book m e i =
      let b = or_new (find string_ord i (or_new (find exchange_ord e m.books) [])) empty in
      (b, put_book m e i b)

module _ {Q : Type 0} (le_zero : Q → Bool) where
  abbrev pub level_update : Side → OrderBookLevel Q → OrderBookUpdate Q
  level_update s l = record {
    price_int = l.price_int;
    quantity = l.size;
    side = s;
    is_delete = le_zero l.size;
  }

  -- The vector that `apply_update` builds.
  unfoldable pub level_updates :
      List (OrderBookLevel Q) → List (OrderBookLevel Q) → List (OrderBookUpdate Q)
  level_updates bids asks = map (level_update bid) bids ++ map (level_update ask) asks

  unfoldable pub manager_apply_updates :
      OrderBookManager Q
      → ExchangeId
      → List ℕ
      → List (OrderBookUpdate Q)
      → Bool
      → OrderBookManager Q
  unfolding get_book put_book
  manager_apply_updates m e i updates is_snapshot =
      let (b, m') = get_book m e i in
      put_book m' e i
        (if is_snapshot then apply_snapshot le_zero b updates else apply_updates le_zero b updates)

  unfoldable pub manager_apply_update :
      OrderBookManager Q
      → ExchangeId
      → List ℕ
      → List (OrderBookLevel Q)
      → List (OrderBookLevel Q)
      → Bool
      → OrderBookManager Q
  unfolding get_book put_book level_updates
  manager_apply_update m e i bids asks is_snapshot =
      let updates = level_updates bids asks in
      let (b, m') = get_book m e i in
      put_book m' e i
        (if is_snapshot then apply_snapshot le_zero b updates else apply_updates le_zero b updates)

-- `to_double` is the conversion `static_cast<double>` of a `uint64_t`.
module _ {Q : Type 0} (to_double : ℕ → Q) where
  abbrev pub double_prices : BestBidOffer Q → BestPrices Q
  double_prices r = record {
    bid_price = to_double r.bid_price;
    bid_qty = r.bid_qty;
    ask_price = to_double r.ask_price;
    ask_qty = r.ask_qty;
  }

  -- The result, and the manager: the lookup makes a missing book.
  unfoldable pub get_best_prices :
      OrderBookManager Q → ExchangeId → List ℕ → Option (BestPrices Q) × OrderBookManager Q
  unfolding get_book put_book
  get_best_prices m e i =
      let (b, m') = get_book m e i in
      (elim (get_bbo b) [ none ↦ none | some r ↦ some (double_prices r) ], m')
