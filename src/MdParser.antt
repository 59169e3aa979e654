-- ===== src/MdParser.antt =====
-- src/modules/parser/parser.cpp, parser.h and protocol.h: finding a book update in a UDP packet.
use dpdk_cex_source.Base.{
  ℕ, ◌+◌, ◌*◌, ◌≤◌, ◌^◌, ◌≡◌, not, if◌then◌else◌, ltb, ◌==◌, Option, none, some, arith, ◌↔◌, ◌⊎◌,
  ◌%◌, ap, sym, ◌∙◌,
}
use dpdk_cex_source.Packet.{
  Mbuf, read8, read16, ether_hdr_len, ipv4_hdr_len, udp_hdr_len, ether_type_ipv4, ipproto_udp,
}
use dpdk_cex_source.Classifier.{classify, standard}

-- sizeof(MdHeader) and sizeof(MdBookUpdate); both are packed.
abbrev pub md_header_len : ℕ
md_header_len = 2 + 2 + 8 + 8

abbrev pub md_book_update_len : ℕ
md_book_update_len = 16 + 8 + 8 + 1 + 7

abbrev pub payload_offset : ℕ
payload_offset = ether_hdr_len + ipv4_hdr_len + udp_hdr_len

-- rte_le_to_cpu_16 of the two bytes at `i`.
abbrev pub read_le16 : Mbuf → ℕ → ℕ
read_le16 m i = read8 m i + read8 m (i + 1) * 2 ^ 8

-- The pointer to the update is its offset in the packet; `none` is a result that is not valid.
abbrev pub parse_md_mbuf : Mbuf → Option ℕ
parse_md_mbuf m =
    if ltb m.data_len ether_hdr_len
    then none
    else if not (read16 m 12 == ether_type_ipv4)
    then none
    else if ltb m.data_len (ether_hdr_len + ipv4_hdr_len)
    then none
    else if not (read8 m (ether_hdr_len + 9) == ipproto_udp)
    then none
    else if ltb m.data_len (ether_hdr_len + ipv4_hdr_len + udp_hdr_len)
    then none
    else if ltb m.data_len (payload_offset + md_header_len)
    then none
    else if not (read_le16 m payload_offset == 0xAABB)
    then none
    else if not (read_le16 m (payload_offset + 2) == 0x0001)
    then none
    else if ltb m.data_len (payload_offset + md_header_len + md_book_update_len)
    then none
    else some (payload_offset + md_header_len)

unfoldable pub parse_md : Option Mbuf → Option ℕ
parse_md none = none
parse_md (some m) = parse_md_mbuf m

-- Where the IPv4 header that the packet holds says that its UDP payload begins.
abbrev pub udp_payload : Mbuf → ℕ
udp_payload m = 14 + read8 m 14 % 16 * 4 + 8

-- A whole book update in a UDP packet.
pub record IsBookUpdate (m : Mbuf) : Type 0 where
  pub ipv4 : read16 m 12 ≡ ether_type_ipv4
  pub udp : read8 m 23 ≡ ipproto_udp
  pub magic : read_le16 m (udp_payload m) ≡ 0xAABB
  pub book_update : read_le16 m (udp_payload m + 2) ≡ 1
  pub whole : udp_payload m + 60 ≤ m.data_len

-- What the code reads, always at the same places.
record HasFields (m : Mbuf) : Type 0 where
  ipv4 : read16 m 12 ≡ ether_type_ipv4
  udp : read8 m 23 ≡ ipproto_udp
  magic : read_le16 m 42 ≡ 0xAABB
  book_update : read_le16 m 44 ≡ 1
  whole : 102 ≤ m.data_len

accepted : (m : Mbuf) → HasFields m → parse_md_mbuf m ≡ some 62
accepted m f = ground (arith, f.ipv4, f.udp, f.magic, f.book_update, f.whole)

decided : (m : Mbuf) → (parse_md_mbuf m ≡ none) ⊎ (HasFields m × (parse_md_mbuf m ≡ some 62))
decided m = ground arith

parse_md_fields : (m : Mbuf) (i : ℕ) → (parse_md (some m) ≡ some i) ↔ (HasFields m × (i ≡ 62))
unfolding parse_md
parse_md_fields m i = (λ p. ground (arith, decided m), λ q. ground (arith, accepted m q.0))

udp_payload_eq : (m : Mbuf) → read8 m 14 % 16 ≡ 5 → udp_payload m ≡ 42
udp_payload_eq m e = rw e

fields_iff : (m : Mbuf) → read8 m 14 % 16 ≡ 5 → HasFields m ↔ IsBookUpdate m
fields_iff m e = (
  λ f. record {
    ipv4 = f.ipv4;
    udp = f.udp;
    magic = rw (udp_payload_eq m e) f.magic;
    book_update = rw (udp_payload_eq m e) f.book_update;
    whole = rw (udp_payload_eq m e) f.whole;
  },
  λ f. record {
    ipv4 = f.ipv4;
    udp = f.udp;
    magic = ap (read_le16 m) (sym (udp_payload_eq m e)) ∙ f.magic;
    book_update = ap (λ (k : ℕ). read_le16 m (k + 2)) (sym (udp_payload_eq m e)) ∙ f.book_update;
    whole = omega (arith, f.whole, udp_payload_eq m e);
  },
)

-- Of the packets whose IPv4 header has no options (an IHL of 5), the parser accepts exactly the UDP
-- packets that hold, behind the headers, a whole book update with the right magic number and type,
-- and points 20 bytes into the payload, at the update behind the market-data header.
pub parse_md_iff :
    (m : Mbuf) (i : ℕ)
    → read8 m 14 % 16 ≡ 5
    → (parse_md (some m) ≡ some i) ↔ (IsBookUpdate m × (i ≡ udp_payload m + 20))
parse_md_iff m i e = (
  λ p.
      let (f, at) = (parse_md_fields m i).0 p in
      ((fields_iff m e).0 f, omega (arith, at, udp_payload_eq m e)),
  λ q. (parse_md_fields m i).1 ((fields_iff m e).1 q.0, omega (arith, q.1, udp_payload_eq m e)),
)

-- A packet that the market-data parser accepts is not one that the classifier puts on the fast path.
pub classify-parse_md : (m : Mbuf) (i : ℕ) → parse_md (some m) ≡ some i → classify m ≡ standard
unfolding classify
classify-parse_md m i h = let (f, e) = (parse_md_fields m i).0 h in ground (arith, f.ipv4, f.udp)
