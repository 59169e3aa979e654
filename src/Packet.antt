-- ===== src/Packet.antt =====
-- A received or sent packet as DPDK's `rte_mbuf` presents it: `data_len`, and the memory from
-- `rte_pktmbuf_mtod` on. Reads past the end of the memory give 0. The sizes and field offsets are
-- those of DPDK's packed headers: rte_ether_hdr 14 bytes, rte_ipv4_hdr 20, rte_tcp_hdr 20,
-- rte_udp_hdr 8.
use dpdk_cex_source.Base.{ℕ, ◌+◌, zero, suc, List, [], ◌∷◌, get_or}
use dpdk_cex_source.Base.Bytes.{of_be16, of_be32}

pub record Mbuf : Type 0 where
  pub data_len : ℕ
  pub bytes : List ℕ

abbrev pub ether_hdr_len : ℕ
ether_hdr_len = 14

abbrev pub ipv4_hdr_len : ℕ
ipv4_hdr_len = 20

abbrev pub tcp_hdr_len : ℕ
tcp_hdr_len = 20

abbrev pub udp_hdr_len : ℕ
udp_hdr_len = 8

-- RTE_ETHER_TYPE_IPV4, and the protocol numbers of the IPv4 header.
abbrev pub ether_type_ipv4 : ℕ
ether_type_ipv4 = 0x0800

abbrev pub ipproto_tcp : ℕ
ipproto_tcp = 6

abbrev pub ipproto_udp : ℕ
ipproto_udp = 17

abbrev pub read8 : Mbuf → ℕ → ℕ
read8 m i = get_or m.bytes i 0

abbrev pub read16 : Mbuf → ℕ → ℕ
read16 m i = of_be16 (read8 m i) (read8 m (i + 1))

abbrev pub read32 : Mbuf → ℕ → ℕ
read32 m i = of_be32 (read8 m i) (read8 m (i + 1)) (read8 m (i + 2)) (read8 m (i + 3))

-- The `n` bytes from `i` on.
unfoldable pub slice : Mbuf → ℕ → ℕ → List ℕ
slice m i zero = []
slice m i (suc n) = read8 m i ∷ slice m (i + 1) n
