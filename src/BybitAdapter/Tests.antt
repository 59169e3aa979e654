-- ===== src/BybitAdapter/Tests.antt =====
-- Runs of the Bybit adapter.
use dpdk_cex_source.Base.{ℕ, ◌≡◌, ◌↔◌, refl, false, [], ◌∷◌, some}
use dpdk_cex_source.Base.Text.{bytes}
use dpdk_cex_source.UdpFeed.{ParsedOrderBook}
use dpdk_cex_source.Connection.{default_book}
use dpdk_cex_source.Json.{◌>>=◌}
use dpdk_cex_source.Json.Books.{filled}
use dpdk_cex_source.Json.Samples.{trees_dom, integers}
use dpdk_cex_source.BybitAdapter.{parse_orderbook_message}
use dpdk_cex_source.BybitAdapter.Parse.{bybit_book}
use dpdk_cex_source.BybitAdapter.Meaning.{IsBybitBook, parse_orderbook_message-IsBybitBook}

-- The time of the message stands outside `data`, so that the variable keeps its value.
abbrev parsed : ParsedOrderBook ℕ
parsed = record {
  instrument = bytes "BTCUSDT";
  bids = record { price_int = 9500000000; size = 2 } ∷ [];
  asks = [];
  is_snapshot = false;
  timestamp_ms = 7;
}

document-book :
    (trees_dom.parse (bytes "bybit") >>= bybit_book trees_dom integers false 7) ≡ some parsed
document-book = refl

parse_orderbook_message-IsBybitBook_example :
    (filled (parse_orderbook_message trees_dom integers (bytes "bybit") (default_book false 7))
      ≡ some parsed)
    ↔ ((doc : _) × (trees_dom.parse (bytes "bybit") ≡ some doc)
        × IsBybitBook trees_dom integers 7 doc parsed)
parse_orderbook_message-IsBybitBook_example =
    parse_orderbook_message-IsBybitBook trees_dom integers (bytes "bybit") false 7 parsed
