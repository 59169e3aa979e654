-- ===== src/OkxAdapter/Tests.antt =====
-- Runs of the OKX adapter.
use dpdk_cex_source.Base.{ℕ, ◌≡◌, ◌↔◌, refl, true, false, [], ◌∷◌, some}
use dpdk_cex_source.Base.Text.{bytes}
use dpdk_cex_source.UdpFeed.{ParsedOrderBook}
use dpdk_cex_source.Connection.{default_book}
use dpdk_cex_source.Json.{◌>>=◌}
use dpdk_cex_source.Json.Books.{filled}
use dpdk_cex_source.Json.Samples.{trees_dom, integers}
use dpdk_cex_source.OkxAdapter.{parse_orderbook_message, is_ping_message}
use dpdk_cex_source.OkxAdapter.Parse.{okx_book}
use dpdk_cex_source.OkxAdapter.Meaning.{IsOkxBook, parse_orderbook_message-IsOkxBook}

abbrev parsed : ParsedOrderBook ℕ
parsed = record {
  instrument = bytes "BTC-USDT";
  bids = record { price_int = 9500000000; size = 2 } ∷ [];
  asks = record { price_int = 9700000000; size = 0 } ∷ [];
  is_snapshot = true;
  timestamp_ms = 1597;
}

document-book :
    (trees_dom.parse (bytes "okx") >>= okx_book trees_dom integers false 7) ≡ some parsed
document-book = refl

ping-is_ping_message : is_ping_message (bytes "ping") ≡ true
unfolding is_ping_message
ping-is_ping_message = refl

parse_orderbook_message-IsOkxBook_example :
    (filled (parse_orderbook_message trees_dom integers (bytes "okx") (default_book false 7))
      ≡ some parsed)
    ↔ ((doc : _) × (trees_dom.parse (bytes "okx") ≡ some doc)
        × IsOkxBook trees_dom integers 7 doc parsed)
parse_orderbook_message-IsOkxBook_example =
    parse_orderbook_message-IsOkxBook trees_dom integers (bytes "okx") false 7 parsed
