-- ===== src/Classifier.antt =====
-- src/modules/classifier/classifier.cpp and src/core/types.h: which packets take the fast path.
-- The source reads the headers without a look at `data_len`; a read behind the packet gives 0 here.
-- The debugging output is left out.
use dpdk_cex_source.Base.{
  ℕ, ◌+◌, ◌*◌, ◌%◌, ◌^◌, ◌<◌, ◌≡◌, Bool, ◌||◌, not, if◌then◌else◌, ◌==◌, List, arith, length, ◌⊎◌,
  ap,
}
use dpdk_cex_source.Packet.{
  Mbuf, read8, read16, ether_hdr_len, ether_type_ipv4, ipproto_tcp, ipproto_udp,
}
use dpdk_cex_source.MicroTcp.{MicroTcp, EtherAddr, Dpdk, ip_header_length}
use dpdk_cex_source.MicroTcp.Process.{Segment}
use dpdk_cex_source.MicroTcp.Header.{parse_tcp_packet_iff}
use dpdk_cex_source.MicroTcp.Create.{HasTemplate, IsEncodable, packet, parse-create}

pub data TrafficType : Type 0 where
  standard hft ignored : TrafficType

abbrev pub is_target : ℕ → ℕ → ℕ → Bool
is_target port src_port dst_port = src_port == port || dst_port == port

-- The constructor's `target_port` is kept in a field that the method does not read.
unfoldable pub classify : Mbuf → TrafficType
classify m =
    if not (read16 m 12 == ether_type_ipv4)
    then standard
    else if read8 m (ether_hdr_len + 9) == ipproto_udp
    then standard
    else if read8 m (ether_hdr_len + 9) == ipproto_tcp
    then (let tcp_hdr = ether_hdr_len + read8 m ether_hdr_len % 16 * 4 in
        let src_port = read16 m tcp_hdr in
        let dst_port = read16 m (tcp_hdr + 2) in
        if is_target 8443 src_port dst_port
        then hft
        else if is_target 443 src_port dst_port
        then hft
        else standard)
    else standard

-- What the classifier is for: one of the ports of the exchanges at either end.
abbrev pub IsExchangePort : ℕ → Type 0
IsExchangePort p = (p ≡ 443) ⊎ (p ≡ 8443)

abbrev pub is_exchange_port : ℕ → Bool
is_exchange_port p = p == 443 || p == 8443

classify_tcp :
    (m : Mbuf) (src_port dst_port : ℕ)
    → read16 m 12 ≡ ether_type_ipv4
    → read8 m 23 ≡ ipproto_tcp
    → read16 m (ether_hdr_len + ip_header_length m) ≡ src_port
    → read16 m (ether_hdr_len + ip_header_length m + 2) ≡ dst_port
    → classify m
      ≡ (if is_exchange_port src_port || is_exchange_port dst_port then hft else standard)
unfolding classify
classify_tcp m src_port dst_port e p s d = ground arith

-- The packets of a connection take the fast path exactly when one of its ports is 443 or 8443,
-- whatever their flags and payload, if the connection's numbers fit the packet and its length fits
-- 16 bits.
pub classify-packet :
    (d : Dpdk) (t : MicroTcp) (flags : ℕ) (payload : List ℕ) (src_mac dst_mac : EtherAddr)
    → HasTemplate t src_mac dst_mac
    → IsEncodable t
    → 54 + length payload < 2 ^ 16
    → classify (packet d t flags payload)
      ≡ (if is_exchange_port t.src_port || is_exchange_port t.dst_port then hft else standard)
classify-packet d t flags payload src_mac dst_mac e v fits =
    let (parsed, fields, rest) = parse-create d t flags payload src_mac dst_mac e v fits in
    let frame = (parse_tcp_packet_iff (packet d t flags payload) _).0 parsed in
    classify_tcp (packet d t flags payload) t.src_port t.dst_port frame.0.is_ipv4 frame.0.is_tcp
      (ap (λ (s : Segment). s.src_port) fields) (ap (λ (s : Segment). s.dst_port) fields)
