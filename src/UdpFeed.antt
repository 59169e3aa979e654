-- ===== src/UdpFeed.antt =====
-- src/modules/network/udp_publisher.h and udp_publisher.cpp: the binary feed of order book updates.
-- A double is a value of Q, and `bits` its eight bytes as an integer. The socket calls are
-- parameters: whether each succeeds, and the clock's time.
pub mod Decode
pub mod Sessions
mod Tests
use dpdk_cex_source.Base.{
  ℕ, zero, suc, ◌+◌, ◌*◌, ◌/◌, ◌%◌, ◌^◌, Bool, true, false, if◌then◌else◌, ◌&&◌, ◌==◌, List, [],
  ◌∷◌, ◌++◌, Option, none, some, length,
}
use dpdk_cex_source.Base.Bytes.{be16, be32, be64, u16, u32, u64}
use dpdk_cex_source.AeroTypes.{ExchangeId, exchange_code}

pub record PriceLevel (Q : Type 0) : Type 0 where
  pub price_int : ℕ
  pub size : Q

pub record ParsedOrderBook (Q : Type 0) : Type 0 where
  pub instrument : List ℕ
  pub bids : List (PriceLevel Q)
  pub asks : List (PriceLevel Q)
  pub is_snapshot : Bool
  pub timestamp_ms : ℕ

abbrev pub udp_feed_magic : ℕ
udp_feed_magic = 0x48465444

abbrev pub udp_feed_version : ℕ
udp_feed_version = 1

-- The socket, if it is open, and the datagrams handed to it, each with its address and port.
pub record UdpPublisher : Type 0 where
  pub socket_fd : Option ℕ
  pub target_address : List ℕ
  pub target_port : ℕ
  pub sent : List (List ℕ × ℕ × List ℕ)
  -- the descriptors that the process holds open for the publisher
  pub open_fds : List ℕ

-- The calls of the operating system: the descriptor that `socket` gives, whether both `fcntl` calls
-- succeed, and whether `inet_pton` reads the address.
pub record Os : Type 0 where
  pub socket : Option ℕ
  pub fcntl_get : Bool
  pub fcntl_set : Bool
  pub inet_pton : List ℕ → Bool

unfoldable pub new : UdpPublisher
new = record { socket_fd = none; target_address = []; target_port = 0; sent = []; open_fds = [] }

-- The result, and the publisher.
unfoldable pub init : Os → UdpPublisher → List ℕ → ℕ → Bool × UdpPublisher
init os u address port =
    let u' = record u { target_address = address; target_port = port } in
    elim os.socket [
      | none ↦ (false, record u' { socket_fd = none })
      | some fd ↦
          if os.fcntl_get && os.fcntl_set
          then (true, record u' { socket_fd = some fd; open_fds = fd ∷ u.open_fds })
          else (false, record u' { socket_fd = none })
    ]

abbrev pub remove_fd : ℕ → List ℕ → List ℕ
remove_fd fd [] = []
remove_fd fd (x ∷ xs) = if fd == x then xs else x ∷ remove_fd fd xs

unfoldable pub close : UdpPublisher → UdpPublisher
close u = elim u.socket_fd [
  | none ↦ u
  | some fd ↦ record u { socket_fd = none; open_fds = remove_fd fd u.open_fds }
]

module _ {Q : Type 0} (bits : Q → ℕ) where
  -- The loop over one side of the book.
  unfoldable pub push_levels : List (PriceLevel Q) → List ℕ
  push_levels [] = []
  push_levels (l ∷ ls) = be64 l.price_int ++ (be64 (bits l.size) ++ push_levels ls)

  abbrev pub header : ParsedOrderBook Q → ExchangeId → ℕ → List ℕ
  header book exchange_id now_ns =
      be32 udp_feed_magic
      ++ be16 udp_feed_version
      ++ ((if book.is_snapshot then 1 else 2) ∷ exchange_code exchange_id ∷ be64 (u64 now_ns))
      ++ be32 (u32 (length book.instrument))
      ++ be16 (u16 (length book.bids))
      ++ be16 (u16 (length book.asks))

  -- The buffer that serialize_and_send fills.
  unfoldable pub serialize : ParsedOrderBook Q → ExchangeId → ℕ → List ℕ
  unfolding push_levels
  serialize book exchange_id now_ns =
      header book exchange_id now_ns
      ++ (book.instrument ++ (push_levels book.bids ++ push_levels book.asks))

  unfoldable pub publish : Os → UdpPublisher → ParsedOrderBook Q → ExchangeId → ℕ → UdpPublisher
  unfolding serialize
  publish os u book exchange_id now_ns = elim u.socket_fd [
    | none ↦ u
    | some fd ↦
        if os.inet_pton u.target_address
        then record u {
          sent = (u.target_address, u.target_port, serialize book exchange_id now_ns) ∷ u.sent;
        }
        else u
  ]
