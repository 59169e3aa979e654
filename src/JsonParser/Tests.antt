-- ===== src/JsonParser/Tests.antt =====
-- Runs of the parser.
use dpdk_cex_source.Base.{ℕ, ◌≡◌, ◌↔◌, refl, [], ◌∷◌, some, none, true, false}
use dpdk_cex_source.Base.Text.{bytes}
use dpdk_cex_source.AeroTypes.{okx}
use dpdk_cex_source.OrderBook.{bid, ask}
use dpdk_cex_source.Json.{◌>>=◌}
use dpdk_cex_source.Json.Samples.{trees_dom, integers}
use dpdk_cex_source.JsonParser.{ParsedMarketData, snapshot, parse_packet}
use dpdk_cex_source.JsonParser.Validity.{when_valid}
use dpdk_cex_source.JsonParser.MarketData.{market_data}
use dpdk_cex_source.JsonParser.Documents.{IsData, parse_packet-IsData}

abbrev parsed : ParsedMarketData ℕ
parsed = record {
  exchange = okx;
  msg_type = snapshot;
  symbol = bytes "BTC-USDT";
  timestamp_ns = 1597000000;
  updates =
      record { price_int = 9500000000; quantity = 2; side = bid; is_delete = false }
      ∷ record { price_int = 9700000000; quantity = 0; side = ask; is_delete = true }
      ∷ [];
  valid = true;
  error_msg = none;
}

document-data : (trees_dom.parse (bytes "okx") >>= market_data trees_dom integers okx) ≡ some parsed
document-data = refl

parse_packet-IsData_example :
    (when_valid (parse_packet trees_dom integers (bytes "okx") okx) ≡ some parsed) ↔ (
      (doc : _) × (trees_dom.parse (bytes "okx") ≡ some doc)
      × IsData trees_dom integers okx doc parsed)
parse_packet-IsData_example = parse_packet-IsData trees_dom integers (bytes "okx") okx parsed
