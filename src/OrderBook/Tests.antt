-- ===== src/OrderBook/Tests.antt =====
-- Runs of the order book on concrete books; quantities are natural numbers here.
use dpdk_cex_source.Base.{
  ℕ, ◌≡◌, refl, Bool, true, false, if◌then◌else◌, ◌==◌, List, [], ◌∷◌, arith,
}
use dpdk_cex_source.AeroTypes.{okx, bybit}
use dpdk_cex_source.Base.SortedMap.{find}
use dpdk_cex_source.OrderBook.{Side, bid, ask, OrderBookUpdate, OrderBook, get_bbo}
use dpdk_cex_source.OrderBook.Levels.{IsBook, level, last_update}
use dpdk_cex_source.OrderBook.Best.{IsBestOf, get_bbo-IsBestOf}
use dpdk_cex_source.OrderBook.Manager.{OrderBookLevel, OrderBookManager, manager_apply_update}
use dpdk_cex_source.OrderBook.Manager.Sizes.{last_size, of_side, left_by}
use dpdk_cex_source.OrderBook.Manager.Books.{book_at, same_book}
use dpdk_cex_source.OrderBook.Manager.Updates.{IsValid, old_level, level-manager_apply_update}

abbrev no_quantity : ℕ → Bool
no_quantity q = q == 0

abbrev book : OrderBook ℕ
book = record { bids = (101, 5) ∷ (100, 3) ∷ []; asks = (102, 4) ∷ (105, 1) ∷ [] }

book-IsBook : IsBook no_quantity book
book-IsBook = record {
  bids_sorted = ((refl, tt), (tt, tt));
  asks_sorted = ((refl, tt), (tt, tt));
  bids_positive = (refl, (refl, tt));
  asks_positive = (refl, (refl, tt));
}

abbrev remove_bid : OrderBookUpdate ℕ
remove_bid = record { price_int = 101; quantity = 0; side = bid; is_delete = false }

abbrev add_ask : OrderBookUpdate ℕ
add_ask = record { price_int = 103; quantity = 7; side = ask; is_delete = false }

abbrev batch : List (OrderBookUpdate ℕ)
batch = remove_bid ∷ add_ask ∷ []

get_bbo-IsBestOf_example : IsBestOf book (get_bbo book)
get_bbo-IsBestOf_example = get_bbo-IsBestOf no_quantity book book-IsBook

swapped-last :
    (s : Side) (p : ℕ)
    → last_update (remove_bid ∷ add_ask ∷ []) s p ≡ last_update (add_ask ∷ remove_bid ∷ []) s p
unfolding last_update
swapped-last bid p = ground arith
swapped-last ask p = ground arith

abbrev no_books : OrderBookManager ℕ
no_books = record { books = [] }

no_books-IsValid : IsValid no_quantity no_books
unfolding find
no_books-IsValid = record {
  maps = record { exchanges_sorted = tt; instruments_sorted = tt };
  all_books =
      λ f j. record { bids_sorted = tt; asks_sorted = tt; bids_positive = tt; asks_positive = tt };
}

abbrev sizes : List (OrderBookLevel ℕ)
sizes = record { price_int = 100; size = 3 } ∷ []

level-manager_apply_update_example :
    level
      (book_at
        (manager_apply_update no_quantity no_books okx (66 ∷ []) sizes [] true)
        bybit
        (66 ∷ []))
      bid
      100
    ≡ (if same_book okx (66 ∷ []) bybit (66 ∷ [])
        then left_by no_quantity
            (last_size (of_side bid sizes []) 100)
            (old_level no_quantity no_books okx (66 ∷ []) true bid 100)
        else level (book_at no_books bybit (66 ∷ [])) bid 100)
level-manager_apply_update_example =
    level-manager_apply_update no_quantity no_books okx (66 ∷ []) sizes [] true bybit (66 ∷ []) bid
      100 no_books-IsValid

abbrev id_price : ℕ → ℕ
id_price p = p
