-- ===== src/MicroTcp/Header.antt =====
-- Which packets `parse_tcp_packet` accepts, and that the headers it finds lie inside the packet.
use dpdk_cex_source.Base.{◌+◌, ◌≤◌, ◌≡◌, ◌↔◌, ◌⊎◌, none, some, arith}
use dpdk_cex_source.Packet.{
  Mbuf, read8, read16, ether_hdr_len, ipv4_hdr_len, tcp_hdr_len, ether_type_ipv4, ipproto_tcp,
}
use dpdk_cex_source.MicroTcp.{
  Headers, ip_header_length, tcp_header_length, parse_mbuf, parse_tcp_packet,
}

-- An Ethernet frame that holds a whole IPv4 and a whole TCP header, options included.
pub record IsTcpFrame (m : Mbuf) : Type 0 where
  pub is_ipv4 : read16 m 12 ≡ ether_type_ipv4
  pub is_tcp : read8 m 23 ≡ ipproto_tcp
  pub ip_length : ipv4_hdr_len ≤ ip_header_length m
  pub tcp_length : tcp_hdr_len ≤ tcp_header_length m (ether_hdr_len + ip_header_length m)
  pub whole :
      ether_hdr_len + ip_header_length m + tcp_header_length m (ether_hdr_len + ip_header_length m)
      ≤ m.data_len

abbrev pub headers_of : Mbuf → Headers
headers_of m = record { ipv4_hdr = ether_hdr_len; tcp_hdr = ether_hdr_len + ip_header_length m }

accepts : (m : Mbuf) → IsTcpFrame m → parse_mbuf m ≡ some (headers_of m)
unfolding parse_mbuf
accepts m f = ground arith

rejects : (m : Mbuf) → (parse_mbuf m ≡ none) ⊎ (IsTcpFrame m × (parse_mbuf m ≡ some (headers_of m)))
unfolding parse_mbuf
rejects m = ground arith

-- The parser accepts exactly the frames that hold both headers whole, and finds the TCP header
-- behind the IPv4 header with its options.
pub parse_tcp_packet_iff :
    (m : Mbuf) (h : Headers)
    → (parse_tcp_packet (some m) ≡ some h) ↔ (IsTcpFrame m × (h ≡ headers_of m))
unfolding parse_tcp_packet
parse_tcp_packet_iff m h = (λ p. ground (arith, rejects m), λ q. ground (arith, accepts m q.0))

-- Every header byte that the connection reads after a successful parse lies inside the packet: the
-- IPv4 header ends before the TCP header begins, and the TCP header, its options included, ends
-- within `data_len`.
pub parse_tcp_packet_bounds :
    (m : Mbuf) (h : Headers)
    → parse_tcp_packet (some m) ≡ some h
    → (h.ipv4_hdr + ipv4_hdr_len ≤ h.tcp_hdr)
      × (h.tcp_hdr + tcp_hdr_len ≤ h.tcp_hdr + tcp_header_length m h.tcp_hdr)
      × (h.tcp_hdr + tcp_header_length m h.tcp_hdr ≤ m.data_len)
parse_tcp_packet_bounds m h p =
    let (f, e) = (parse_tcp_packet_iff m h).0 p in
    ground (arith, f.whole, f.ip_length, f.tcp_length)
