-- ===== src/MicroTcp/Exchange.antt =====
-- Two connections that are each other's peer: what one sends is what the other receives.
use dpdk_cex_source.Base.{
  ℕ, ◌+◌, ◌^◌, ◌≤◌, ◌<◌, ◌≡◌, refl, sym, ap, ◌∙◌, true, false, not, List, [], ◌++◌, some, arith,
  length, ltb, if◌then◌else◌,
}
use dpdk_cex_source.Base.Bytes.{u32}
use dpdk_cex_source.Packet.{Mbuf}
use dpdk_cex_source.MicroTcp.{
  MicroTcp, TcpState, fin_wait_2, update_snd_nxt, established, syn_sent, EtherAddr, Dpdk,
  max_rx_buffer_size, fin_flag, has_flag, send_data, parse_tcp_packet, Headers,
}
use dpdk_cex_source.MicroTcp.Process.{
  Segment, segment, payload_of, is_ours, Reply, accept_data, on_data, on_ack, on_fin,
  on_established, on_syn_sent, on_fin_wait_2, on_segment, process_rx,
}
use dpdk_cex_source.MicroTcp.Machine.{reply_ack-keeps}
use dpdk_cex_source.MicroTcp.Create.{
  HasTemplate, IsEncodable, packet, sent_segment, parse-create, send_data-packet,
}

-- Each end's addresses and ports are the other's, turned round.
pub record ArePeers (a b : MicroTcp) : Type 0 where
  pub src_ips : a.src_ip ≡ b.dst_ip
  pub src_ports : a.src_port ≡ b.dst_port
  pub dst_ips : a.dst_ip ≡ b.src_ip
  pub dst_ports : a.dst_port ≡ b.src_port

sent-is_ours :
    (a b : MicroTcp) (flags : ℕ) (payload : List ℕ)
    → ArePeers a b
    → is_ours b (sent_segment a flags payload) ≡ true
sent-is_ours a b flags payload v = ground arith

-- What `process_rx` does with the fields of a packet that parses.
abbrev handle : Dpdk → MicroTcp → Mbuf → Segment → Reply
handle d t m s =
    if not (is_ours t s)
    then (t, [])
    else if ltb s.total_length (s.ip_hdr_len + s.tcp_hdr_len)
    then (t, [])
    else on_segment d t s (payload_of m s)

process_rx-handle :
    (d : Dpdk) (t : MicroTcp) (m : Mbuf) (h : Headers)
    → parse_tcp_packet (some m) ≡ some h
    → process_rx d t (some m) ≡ handle d t m (segment m h)
unfolding process_rx
process_rx-handle d t m h e = rw (e, process_rx)

handle-on_segment :
    (d : Dpdk) (t : MicroTcp) (m : Mbuf) (s : Segment) (payload : List ℕ)
    → is_ours t s ≡ true
    → ltb s.total_length (s.ip_hdr_len + s.tcp_hdr_len) ≡ false
    → payload_of m s ≡ payload
    → handle d t m s ≡ on_segment d t s payload
handle-on_segment d t m s payload ours long rest = rw (ours, long, rest)

-- The receiver of a packet handles the segment and the payload that the sender meant, if the sender
-- has its own template, the sender's numbers fit their fields, the two are peers, and the length of
-- the packet fits 16 bits.
pub process_rx-packet :
    (d : Dpdk) (a b : MicroTcp) (flags : ℕ) (payload : List ℕ) (src_mac dst_mac : EtherAddr)
    → HasTemplate a src_mac dst_mac
    → IsEncodable a
    → ArePeers a b
    → 54 + length payload < 2 ^ 16
    → process_rx d b (some (packet d a flags payload))
      ≡ on_segment d b (sent_segment a flags payload) payload
unfolding process_rx
process_rx-packet d a b flags payload src_mac dst_mac e v peers fits =
    let (parsed, fields, rest) = parse-create d a flags payload src_mac dst_mac e v fits in
    process_rx-handle d b (packet d a flags payload) _ parsed
    ∙ ap (handle d b (packet d a flags payload)) fields
    ∙ handle-on_segment d b (packet d a flags payload) (sent_segment a flags payload) payload
        (sent-is_ours a b flags payload peers) (not_short (length payload)) rest
  where
    not_short : (n : ℕ) → ltb (40 + n) (20 + 20) ≡ false
    not_short n = ground arith

-- The receiver has room for the payload.
abbrev pub HasRoom : MicroTcp → List ℕ → Type 0
HasRoom t payload = length t.rx_buffer + length payload ≤ max_rx_buffer_size

established_data :
    (d : Dpdk) (a b : MicroTcp) (payload : List ℕ)
    → a.snd_nxt ≡ b.rcv_nxt
    → 0 < length payload
    → HasRoom b payload
    → let b' = (on_data d b (sent_segment a 24 payload) payload).0 in
      (b'.rx_buffer ≡ b.rx_buffer ++ payload)
      × (b'.rcv_nxt ≡ u32 (b.rcv_nxt + length payload))
      × (b'.state ≡ b.state)
unfolding on_data accept_data
established_data d a b payload in_step some_data room =
    ground (arith, reply_ack-keeps d (accept_data b payload))

acked-keeps :
    (d : Dpdk) (t : MicroTcp) (s : Segment)
    → has_flag s.tcp_flags fin_flag ≡ false
    → let t' = (on_fin d (on_ack t s) s).0 in
      (t'.rx_buffer ≡ t.rx_buffer) × (t'.rcv_nxt ≡ t.rcv_nxt) × (t'.state ≡ t.state)
unfolding on_fin on_ack
acked-keeps d t s h = ground arith

on_segment-established :
    (d : Dpdk) (b : MicroTcp) (s : Segment) (payload : List ℕ)
    → b.state ≡ established
    → on_segment d b s payload ≡ on_established d b s payload
unfolding on_segment
on_segment-established d b s payload eb =
    ap
      (λ (st : TcpState). elim st [
        | syn_sent ↦ on_syn_sent d b s
        | established ↦ on_established d b s payload
        | fin_wait_2 ↦ on_fin_wait_2 d b s
        | _ ↦ (b, [])
      ])
      eb

-- Handling the data of an established peer.
delivered :
    (d : Dpdk) (a b : MicroTcp) (payload : List ℕ)
    → a.snd_nxt ≡ b.rcv_nxt
    → 0 < length payload
    → HasRoom b payload
    → b.state ≡ established
    → let b' = (on_segment d b (sent_segment a 24 payload) payload).0 in
      (b'.rx_buffer ≡ b.rx_buffer ++ payload)
      × (b'.rcv_nxt ≡ u32 (b.rcv_nxt + length payload))
      × (b'.state ≡ b.state)
unfolding on_established
delivered d a b payload in_step some_data room eb =
    let b1 = (on_data d b (sent_segment a 24 payload) payload).0 in
    let (x1, x2, x3) = established_data d a b payload in_step some_data room in
    let (y1, y2, y3) = acked-keeps d b1 (sent_segment a 24 payload) refl in
    simp (on_segment-established d b (sent_segment a 24 payload) payload eb)
      (y1 ∙ x1, y2 ∙ x2, y3 ∙ x3)

sent_packet :
    (d : Dpdk) (a : MicroTcp) (payload : List ℕ)
    → a.state ≡ established
    → 0 < length payload
    → length payload < 2 ^ 16
    → d.alloc a.allocations ≡ true
    → ((send_data d a payload).1 ≡ some (packet d a 24 payload))
      × ((send_data d a payload).0.snd_nxt ≡ u32 (a.snd_nxt + length payload))
unfolding update_snd_nxt
sent_packet d a payload ea some_data fits ok =
    rw (send_data-packet d a payload ea fits ok) (refl, ground (arith, some_data))

-- Data sent by one established end arrives at the other. If the ends are peers, the sender has its own
-- template and numbers that fit their fields, the payload is not empty and the packet's length fits
-- 16 bits, the receiver expects the sender's next sequence number and has room, and the sender's
-- allocation succeeds, then the packet that `send_data` makes leads the receiver to append exactly
-- the sent bytes to its buffer, to stay established, and to expect the sender's new sequence number.
pub send_data-process_rx :
    (d : Dpdk) (a b : MicroTcp) (payload : List ℕ) (src_mac dst_mac : EtherAddr)
    → HasTemplate a src_mac dst_mac
    → IsEncodable a
    → ArePeers a b
    → 54 + length payload < 2 ^ 16
    → 0 < length payload
    → a.state ≡ established
    → b.state ≡ established
    → a.snd_nxt ≡ b.rcv_nxt
    → HasRoom b payload
    → d.alloc a.allocations ≡ true
    → let (a', sent) = send_data d a payload in
      let (b', replies) = process_rx d b sent in
      (b'.rx_buffer ≡ b.rx_buffer ++ payload) × (b'.rcv_nxt ≡ a'.snd_nxt) × (b'.state ≡ established)
send_data-process_rx d a b payload src_mac dst_mac e v peers fits some_data ea eb in_step room ok =
    let (sent, next) = sent_packet d a payload ea some_data (omega (arith, fits)) ok in
    let (r1, r2, r3) = delivered d a b payload in_step some_data room eb in
    let handled = process_rx-packet d a b 24 payload src_mac dst_mac e v peers fits in
    rw (sent, next, handled) (r1, r2 ∙ sym (ap (λ n. u32 (n + length payload)) in_step), r3 ∙ eb)
