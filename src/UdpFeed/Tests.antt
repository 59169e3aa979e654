-- ===== src/UdpFeed/Tests.antt =====
-- Runs of the feed on a concrete book; sizes are their own bit patterns here.
use dpdk_cex_source.Base.{ℕ, ◌≡◌, true, refl, [], ◌∷◌, none, some, arith}
use dpdk_cex_source.AeroTypes.{bybit}
use dpdk_cex_source.UdpFeed.{ParsedOrderBook, serialize, Os, new}
use dpdk_cex_source.UdpFeed.Decode.{decode, update_of, IsPublishable, decode-serialize}

abbrev id_bits : ℕ → ℕ
id_bits q = q

abbrev book : ParsedOrderBook ℕ
book = record {
  instrument = 66 ∷ 84 ∷ 67 ∷ [];
  bids = record { price_int = 9500000000000; size = 0x3FF0000000000000 } ∷ [];
  asks = record { price_int = 9500100000000; size = 0x4000000000000000 } ∷ [];
  is_snapshot = true;
  timestamp_ms = 5;
}

book-IsPublishable : IsPublishable id_bits book
book-IsPublishable = record {
  symbol_fits = omega arith;
  bids_fit = omega arith;
  asks_fit = omega arith;
  bid_levels = ((omega arith, omega arith), tt);
  ask_levels = ((omega arith, omega arith), tt);
}

decode-serialize_example :
    decode (serialize id_bits book bybit 123456789) ≡ some (update_of id_bits book bybit 123456789)
decode-serialize_example = decode-serialize id_bits book bybit 123456789 book-IsPublishable

abbrev os : Os
os = record { socket = some 5; fcntl_get = true; fcntl_set = true; inet_pton = λ address. true }

new_closed : new.socket_fd ≡ none
unfolding new
new_closed = refl
