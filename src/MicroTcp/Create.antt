-- ===== src/MicroTcp/Create.antt =====
-- The bytes that `create_tcp_packet` lays out, and that `parse_tcp_packet` reads them back.
use mathlib.Core.Path.{ap₂}
use native.Mathlib.Numerals.{add-one}
use dpdk_cex_source.Base.{
  ℕ, zero, suc, ◌+◌, ◌-◌, ◌^◌, ◌<◌, ◌≡◌, refl, inl, inr, if◌then◌else◌, List, [], ◌∷◌, ◌++◌, some,
  arith, length, take, drop, get_or, Bool-cases, ap, ◌∙◌, true,
}
use dpdk_cex_source.Base.Bytes.{be16, be32, u16}
use dpdk_cex_source.Packet.{Mbuf, slice}
use dpdk_cex_source.MicroTcp.{
  MicroTcp, EtherAddr, mac_bytes, template, Dpdk, syn_flag, has_flag, packet_bytes, ip_sum, tcp_sum,
  total_len, parse_tcp_packet, u16_bytes, create_tcp_packet, send_data, consume, established,
  update_snd_nxt,
}
use dpdk_cex_source.MicroTcp.Process.{Segment, segment, payload_of}
use dpdk_cex_source.MicroTcp.Header.{IsTcpFrame, headers_of, parse_tcp_packet_iff}

-- The sequence and acknowledgement numbers that a packet with these flags carries.
abbrev pub sequence : MicroTcp → ℕ → ℕ
sequence t flags = if has_flag flags syn_flag then t.iss else t.snd_nxt

abbrev pub acknowledged : MicroTcp → ℕ → ℕ
acknowledged t flags = if has_flag flags syn_flag then 0 else t.rcv_nxt

-- The headers of a packet, with the bytes of the two checksums.
abbrev layout : MicroTcp → EtherAddr → EtherAddr → ℕ → ℕ → ℕ → ℕ → ℕ × ℕ → ℕ × ℕ → List ℕ
layout t src_mac dst_mac flags len seq ack ip tcp =
    (mac_bytes dst_mac ++ mac_bytes src_mac ++ be16 0x0800)
    ++ (0x45 ∷ 0 ∷ be16 (u16 (u16 (54 + len) + 2 ^ 16 - 14))
        ++ 0 ∷ 0 ∷ be16 0x4000
        ++ 64 ∷ 6 ∷ ip.0 ∷ ip.1 ∷ be32 t.src_ip
        ++ be32 t.dst_ip)
    ++ (be16 t.src_port
        ++ be16 t.dst_port
        ++ be32 seq
        ++ be32 ack
        ++ 0x50 ∷ flags ∷ be16 65535
        ++ tcp.0 ∷ tcp.1 ∷ 0 ∷ 0 ∷ [])

-- The template is the one that the constructor made for these addresses.
abbrev pub HasTemplate : MicroTcp → EtherAddr → EtherAddr → Type 0
HasTemplate t src_mac dst_mac =
    t.cached_headers ≡ template t.src_ip t.src_port t.dst_ip t.dst_port src_mac dst_mac

packet_bytes_lem :
    (d : Dpdk) (t : MicroTcp) (flags : ℕ) (payload : List ℕ) (src_mac dst_mac : EtherAddr)
    → HasTemplate t src_mac dst_mac
    → (ip : ℕ × ℕ) × (tcp : ℕ × ℕ) × (packet_bytes d t flags payload
        ≡ layout t src_mac dst_mac flags
            (length payload)
            (sequence t flags)
            (acknowledged t flags)
            ip
            tcp
          ++ payload)
packet_bytes_lem d t flags payload src_mac dst_mac e = elim (Bool-cases (has_flag flags syn_flag)) [
  | inl syn ↦ (ip_sum d t payload, tcp_sum d t flags payload, rw (e, syn) refl)
  | inr other ↦ (ip_sum d t payload, tcp_sum d t flags payload, rw (e, other) refl)
]

head_of_drop : (i : ℕ) (ys : List ℕ) (x : ℕ) (xs : List ℕ) → drop i ys ≡ x ∷ xs → get_or ys i 0 ≡ x
head_of_drop zero [] x xs e = cc
head_of_drop zero (y ∷ ys) x xs e = cc
head_of_drop (suc i) [] x xs e = cc
head_of_drop (suc i) (y ∷ ys) x xs e = head_of_drop i ys x xs e

tail_of_drop :
    (i : ℕ) (ys : List ℕ) (x : ℕ) (xs : List ℕ) → drop i ys ≡ x ∷ xs → drop (suc i) ys ≡ xs
tail_of_drop zero [] x xs e = cc
tail_of_drop zero (y ∷ ys) x xs e = cc
tail_of_drop (suc i) [] x xs e = cc
tail_of_drop (suc i) (y ∷ ys) x xs e = tail_of_drop i ys x xs e

slice_of_drop : (m : Mbuf) (i : ℕ) (xs : List ℕ) → drop i m.bytes ≡ xs → slice m i (length xs) ≡ xs
unfolding slice
slice_of_drop m i [] e = refl
slice_of_drop m i (x ∷ xs) e =
    ap₂ ◌∷◌ (head_of_drop i m.bytes x xs e)
      (slice_of_drop m (i + 1) xs (rw add-one (tail_of_drop i m.bytes x xs e)))

-- The mbuf that `create_tcp_packet` fills in.
abbrev pub packet : Dpdk → MicroTcp → ℕ → List ℕ → Mbuf
packet d t flags payload = record {
  data_len = total_len payload;
  bytes = packet_bytes d t flags payload;
}

take_all : (bs : List ℕ) → take (length bs) bs ≡ bs
take_all [] = refl
take_all (b ∷ bs) = ap (◌∷◌ b) (take_all bs)

-- A length that fits 16 bits is not cut.
pub u16_bytes_lem : (bs : List ℕ) → length bs < 2 ^ 16 → u16_bytes bs ≡ bs
u16_bytes_lem bs fits =
    let small : u16 (length bs) ≡ length bs = omega (arith, fits) in
    ap (λ (n : ℕ). take n bs) small ∙ take_all bs

create_tcp_packet-packet :
    (d : Dpdk) (t : MicroTcp) (flags : ℕ) (bs : List ℕ)
    → length bs < 2 ^ 16
    → d.alloc t.allocations ≡ true
    → create_tcp_packet d t flags bs ≡ (
      consume (record t { allocations = t.allocations + 1 }) flags bs,
      some (packet d t flags bs),
    )
unfolding create_tcp_packet update_snd_nxt
create_tcp_packet-packet d t flags bs fits a = rw (u16_bytes_lem bs fits, a) refl

send_data-create :
    (d : Dpdk) (t : MicroTcp) (bs : List ℕ)
    → t.state ≡ established
    → send_data d t bs ≡ create_tcp_packet d t 24 (u16_bytes bs)
unfolding send_data
send_data-create d t bs e = rw e refl

-- What an established connection sends if an mbuf is to be had and the length fits 16 bits.
pub send_data-packet :
    (d : Dpdk) (t : MicroTcp) (bs : List ℕ)
    → t.state ≡ established
    → length bs < 2 ^ 16
    → d.alloc t.allocations ≡ true
    → send_data d t bs
      ≡ (consume (record t { allocations = t.allocations + 1 }) 24 bs, some (packet d t 24 bs))
send_data-packet d t bs e fits a =
    send_data-create d t bs e
    ∙ ap (create_tcp_packet d t 24) (u16_bytes_lem bs fits)
    ∙ create_tcp_packet-packet d t 24 bs fits a

-- The fields that the peer reads in a packet.
abbrev pub sent_segment : MicroTcp → ℕ → List ℕ → Segment
sent_segment t flags payload = record {
  src_addr = t.src_ip;
  dst_addr = t.dst_ip;
  src_port = t.src_port;
  dst_port = t.dst_port;
  total_length = 40 + length payload;
  ip_hdr_len = 20;
  tcp_hdr_len = 20;
  tcp_flags = flags;
  received_seq = sequence t flags;
  received_ack = acknowledged t flags;
}

-- The numbers of a connection fit the fields of a packet.
pub record IsEncodable (t : MicroTcp) : Type 0 where
  pub src_ip_fits : t.src_ip < 2 ^ 32
  pub dst_ip_fits : t.dst_ip < 2 ^ 32
  pub src_port_fits : t.src_port < 2 ^ 16
  pub dst_port_fits : t.dst_port < 2 ^ 16
  pub iss_fits : t.iss < 2 ^ 32
  pub snd_nxt_fits : t.snd_nxt < 2 ^ 32
  pub rcv_nxt_fits : t.rcv_nxt < 2 ^ 32

layout_frame :
    (m : Mbuf) (t : MicroTcp) (src_mac dst_mac : EtherAddr) (flags seq ack : ℕ) (ip tcp : ℕ × ℕ)
    (payload : List ℕ)
    → IsEncodable t
    → seq < 2 ^ 32
    → ack < 2 ^ 32
    → 54 + length payload < 2 ^ 16
    → m.data_len ≡ u16 (54 + length payload)
    → m.bytes ≡ layout t src_mac dst_mac flags (length payload) seq ack ip tcp ++ payload
    → IsTcpFrame m
      × (segment m (headers_of m)
          ≡ record (sent_segment t flags payload) { received_seq = seq; received_ack = ack })
      × (drop 54 m.bytes ≡ payload)
layout_frame m t src_mac dst_mac flags seq ack ip tcp payload v hs ha fits len e =
    rw e (omega arith, ground arith, refl)

length_left : (xs : List ℕ) → 40 + length xs - 20 - 20 ≡ length xs
length_left xs = omega arith

sequence_fits : (t : MicroTcp) (flags : ℕ) → IsEncodable t → sequence t flags < 2 ^ 32
sequence_fits t flags v = ground arith

acknowledged_fits : (t : MicroTcp) (flags : ℕ) → IsEncodable t → acknowledged t flags < 2 ^ 32
acknowledged_fits t flags v = ground arith

-- A packet that a connection builds is read back by the receive path as it was meant: it parses,
-- its fields are the connection's addresses and ports, its flags, and its sequence and
-- acknowledgement numbers, and its payload is the one that was sent. The connection must have its
-- own template and numbers that fit their fields, and the length of the packet must fit 16 bits.
pub parse-create :
    (d : Dpdk) (t : MicroTcp) (flags : ℕ) (payload : List ℕ) (src_mac dst_mac : EtherAddr)
    → HasTemplate t src_mac dst_mac
    → IsEncodable t
    → 54 + length payload < 2 ^ 16
    → (parse_tcp_packet (some (packet d t flags payload))
        ≡ some (headers_of (packet d t flags payload)))
      × (segment (packet d t flags payload) (headers_of (packet d t flags payload))
          ≡ sent_segment t flags payload)
      × (payload_of (packet d t flags payload) (sent_segment t flags payload) ≡ payload)
parse-create d t flags payload src_mac dst_mac e v fits =
    let (ip, tcp, bytes) = packet_bytes_lem d t flags payload src_mac dst_mac e in
    let (frame, fields, rest) =
      layout_frame (packet d t flags payload) t src_mac dst_mac flags (sequence t flags)
        (acknowledged t flags) ip tcp payload v (sequence_fits t flags v)
        (acknowledged_fits t flags v) fits refl bytes in
    (
      (parse_tcp_packet_iff _ _).1 (frame, refl),
      fields,
      rw (length_left payload) (slice_of_drop (packet d t flags payload) 54 payload rest),
    )

-- Behind the 54 bytes of the headers stands the payload.
pub packet_bytes-payload :
    (d : Dpdk) (t : MicroTcp) (flags : ℕ) (payload : List ℕ) (src_mac dst_mac : EtherAddr)
    → HasTemplate t src_mac dst_mac
    → drop 54 (packet_bytes d t flags payload) ≡ payload
packet_bytes-payload d t flags payload src_mac dst_mac e =
    let (ip, tcp, same) = packet_bytes_lem d t flags payload src_mac dst_mac e in rw same refl
