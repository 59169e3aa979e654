-- ===== src/UdpFeed/Decode.antt =====
-- The feed's format, from the receiver's side: a reader written from the packet layout alone.
use mathlib.Core.Path.{ap₂}
use mathlib.Core.List.{append-nil}
use dpdk_cex_source.Base.{
  ℕ, zero, suc, ◌+◌, ◌*◌, ◌/◌, ◌%◌, ◌^◌, ◌<◌, ◌≡◌, refl, sym, ap, ◌∙◌, Bool, true, false,
  if◌then◌else◌, ◌&&◌, ◌==◌, List, [], ◌∷◌, ◌++◌, Option, none, some, length, get_or, take, drop,
  map, arith, All, length-append, take-length_append, drop-length_append,
}
use dpdk_cex_source.Base.Bytes.{u16, u32, u64, of_be16, of_be32, of_be64, of_be64-be64}
use dpdk_cex_source.AeroTypes.{ExchangeId, exchange_code}
use dpdk_cex_source.UdpFeed.{
  PriceLevel, ParsedOrderBook, udp_feed_magic, udp_feed_version, push_levels, serialize,
}

-- What a datagram says; a size is the bytes of a double as an integer.
pub record Update : Type 0 where
  pub is_snapshot : Bool
  pub exchange : ℕ
  pub timestamp_ns : ℕ
  pub symbol : List ℕ
  pub bids : List (ℕ × ℕ)
  pub asks : List (ℕ × ℕ)

abbrev pub number64 : List ℕ → ℕ
number64 (a ∷ b ∷ c ∷ d ∷ e ∷ f ∷ g ∷ h ∷ _) = of_be64 a b c d e f g h
number64 _ = 0

-- `n` levels of 16 bytes, and what follows them.
abbrev pub read_levels : ℕ → List ℕ → List (ℕ × ℕ) × List ℕ
read_levels zero xs = ([], xs)
read_levels (suc n) xs =
    let rest = read_levels n (drop 16 xs) in ((number64 xs, number64 (drop 8 xs)) ∷ rest.0, rest.1)

abbrev pub read16 : List ℕ → ℕ → ℕ
read16 xs i = of_be16 (get_or xs i 0) (get_or xs (i + 1) 0)

abbrev pub read32 : List ℕ → ℕ → ℕ
read32 xs i =
    of_be32 (get_or xs i 0) (get_or xs (i + 1) 0) (get_or xs (i + 2) 0) (get_or xs (i + 3) 0)

abbrev pub decode : List ℕ → Option Update
decode xs =
    if read32 xs 0 == udp_feed_magic && read16 xs 4 == udp_feed_version
    then (let body = drop 24 xs in
        let symbol_len = read32 xs 16 in
        let bids = read_levels (read16 xs 20) (drop symbol_len body) in
        let asks = read_levels (read16 xs 22) bids.1 in
        some (record {
          is_snapshot = get_or xs 6 0 == 1;
          exchange = get_or xs 7 0;
          timestamp_ns = number64 (drop 8 xs);
          symbol = take symbol_len body;
          bids = bids.0;
          asks = asks.0;
        }))
    else none

field16 : (n : ℕ) → n < 2 ^ 16 → of_be16 (u16 n / 2 ^ 8 % 2 ^ 8) (u16 n % 2 ^ 8) ≡ n
field16 n h = omega arith

field32 :
    (n : ℕ)
    → n < 2 ^ 32
    → of_be32
        (u32 n / 2 ^ 24 % 2 ^ 8)
        (u32 n / 2 ^ 16 % 2 ^ 8)
        (u32 n / 2 ^ 8 % 2 ^ 8)
        (u32 n % 2 ^ 8)
      ≡ n
field32 n h = omega arith

snapshot_flag : (b : Bool) → ((if b then 1 else 2) == 1) ≡ b
snapshot_flag true = refl
snapshot_flag false = refl

u64_fits : (n : ℕ) → u64 n < 2 ^ 64
u64_fits n = omega arith

module _ {Q : Type 0} (bits : Q → ℕ) where
  abbrev pub as_pair : PriceLevel Q → ℕ × ℕ
  as_pair l = (l.price_int, bits l.size)

  -- The numbers of a level are 64-bit.
  abbrev pub IsLevel : PriceLevel Q → Type 0
  IsLevel l = (l.price_int < 2 ^ 64) × (bits l.size < 2 ^ 64)

  read_levels-push_levels :
      (ls : List (PriceLevel Q)) (rest : List ℕ)
      → All IsLevel ls
      → read_levels (length ls) (push_levels bits ls ++ rest) ≡ (map as_pair ls, rest)
  unfolding push_levels
  read_levels-push_levels [] rest h = refl
  read_levels-push_levels (l ∷ ls) rest ((a, b), h) =
      rw (of_be64-be64 l.price_int a, of_be64-be64 (bits l.size) b)
        (ap (λ (r : List (ℕ × ℕ) × List ℕ). (as_pair l ∷ r.0, r.1))
          (read_levels-push_levels ls rest h))

  last_levels :
      (ls : List (PriceLevel Q))
      → All IsLevel ls
      → (read_levels (length ls) (push_levels bits ls)).0 ≡ map as_pair ls
  last_levels ls h =
      ap (λ xs. (read_levels (length ls) xs).0) (sym (append-nil (push_levels bits ls)))
      ∙ ap (λ (r : List (ℕ × ℕ) × List ℕ). r.0) (read_levels-push_levels ls [] h)

  length-push_levels : (ls : List (PriceLevel Q)) → length (push_levels bits ls) ≡ 16 * length ls
  unfolding push_levels
  length-push_levels [] = omega arith
  length-push_levels (l ∷ ls) = omega (arith, length-push_levels ls)

  -- A datagram has 24 bytes of header, the symbol, and 16 bytes for each level of the book.
  pub length-serialize :
      (book : ParsedOrderBook Q) (exchange_id : ExchangeId) (now_ns : ℕ)
      → length (serialize bits book exchange_id now_ns)
        ≡ 24 + length book.instrument + 16 * (length book.bids + length book.asks)
  unfolding serialize
  length-serialize book exchange_id now_ns = omega (
    arith,
    length-append book.instrument (push_levels bits book.bids ++ push_levels bits book.asks),
    length-append (push_levels bits book.bids) (push_levels bits book.asks),
    length-push_levels book.bids,
    length-push_levels book.asks,
  )

  abbrev pub update_of : ParsedOrderBook Q → ExchangeId → ℕ → Update
  update_of book exchange_id now_ns = record {
    is_snapshot = book.is_snapshot;
    exchange = exchange_code exchange_id;
    timestamp_ns = u64 now_ns;
    symbol = book.instrument;
    bids = map as_pair book.bids;
    asks = map as_pair book.asks;
  }

  -- The numbers of a book fit the fields of the header and of the levels.
  pub record IsPublishable (book : ParsedOrderBook Q) : Type 0 where
    pub symbol_fits : length book.instrument < 2 ^ 32
    pub bids_fit : length book.bids < 2 ^ 16
    pub asks_fit : length book.asks < 2 ^ 16
    pub bid_levels : All IsLevel book.bids
    pub ask_levels : All IsLevel book.asks

  -- A receiver that knows the layout only reads a published book back: whether it is a snapshot, the
  -- exchange, the time, the symbol, and every level of both sides in order, if the book's lengths
  -- and numbers fit their fields.
  pub decode-serialize :
      (book : ParsedOrderBook Q) (exchange_id : ExchangeId) (now_ns : ℕ)
      → IsPublishable book
      → decode (serialize bits book exchange_id now_ns) ≡ some (update_of book exchange_id now_ns)
  unfolding serialize
  decode-serialize book exchange_id now_ns v =
      rw
        (
          field32 (length book.instrument) v.symbol_fits,
          field16 (length book.bids) v.bids_fit,
          field16 (length book.asks) v.asks_fit,
          of_be64-be64 (u64 now_ns) (u64_fits now_ns),
          drop-length_append book.instrument
              (push_levels bits book.bids ++ push_levels bits book.asks),
          take-length_append book.instrument
              (push_levels bits book.bids ++ push_levels bits book.asks),
          read_levels-push_levels book.bids (push_levels bits book.asks) v.bid_levels,
        )
        (ap₂
          (λ flag asks.
            some (record (update_of book exchange_id now_ns) { is_snapshot = flag; asks = asks }))
          (snapshot_flag book.is_snapshot) (last_levels book.asks v.ask_levels))
