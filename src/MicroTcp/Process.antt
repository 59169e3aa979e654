-- ===== src/MicroTcp/Process.antt =====
-- MicroTcp::process_rx of src/modules/network/micro_tcp.cpp, one function for each part of the
-- method: the filters, and a handler for each state of the connection.
use dpdk_cex_source.Base.{
  ℕ, ◌+◌, ◌-◌, Bool, ◌&&◌, if◌then◌else◌, ltb, ◌==◌, not, List, [], ◌∷◌, ◌++◌, Option, none, some,
  length,
}
use dpdk_cex_source.Base.Bytes.{u32}
use dpdk_cex_source.Packet.{Mbuf, read8, read16, read32, slice, ether_hdr_len}
use dpdk_cex_source.MicroTcp.{
  MicroTcp, syn_sent, established, fin_wait_1, fin_wait_2, time_wait, Dpdk, Headers,
  max_rx_buffer_size, fin_flag, syn_flag, ack_flag, has_flag, create_tcp_packet, parse_tcp_packet,
  ip_header_length, tcp_header_length,
}

-- The packet fields that the method reads, in host byte order.
pub record Segment : Type 0 where
  pub src_addr : ℕ
  pub dst_addr : ℕ
  pub src_port : ℕ
  pub dst_port : ℕ
  pub total_length : ℕ
  pub ip_hdr_len : ℕ
  pub tcp_hdr_len : ℕ
  pub tcp_flags : ℕ
  pub received_seq : ℕ
  pub received_ack : ℕ

abbrev pub segment : Mbuf → Headers → Segment
segment m h = record {
  src_addr = read32 m (h.ipv4_hdr + 12);
  dst_addr = read32 m (h.ipv4_hdr + 16);
  src_port = read16 m h.tcp_hdr;
  dst_port = read16 m (h.tcp_hdr + 2);
  total_length = read16 m (h.ipv4_hdr + 2);
  ip_hdr_len = ip_header_length m;
  tcp_hdr_len = tcp_header_length m h.tcp_hdr;
  tcp_flags = read8 m (h.tcp_hdr + 13);
  received_seq = read32 m (h.tcp_hdr + 4);
  received_ack = read32 m (h.tcp_hdr + 8);
}

-- The packet is for this connection and from its peer.
abbrev pub is_ours : MicroTcp → Segment → Bool
is_ours t s =
    (s.dst_addr == t.src_ip && s.dst_port == t.src_port)
    && (s.src_addr == t.dst_ip && s.src_port == t.dst_port)

-- `ip_len - ip_hdr_len - tcp_hdr_len`, where that is not negative.
abbrev pub tcp_data_len : Segment → ℕ
tcp_data_len s = s.total_length - s.ip_hdr_len - s.tcp_hdr_len

-- The payload as the source copies it: `tcp_data_len` bytes from the end of the headers.
abbrev pub payload_of : Mbuf → Segment → List ℕ
payload_of m s = slice m (ether_hdr_len + s.ip_hdr_len + s.tcp_hdr_len) (tcp_data_len s)

-- A method's new state and the packets that it sends; `none` stands for a null pointer.
abbrev pub Reply : Type 0
Reply = MicroTcp × List (Option Mbuf)

unfoldable pub reply_ack : Dpdk → MicroTcp → Reply
reply_ack d t = let (t', p) = create_tcp_packet d t ack_flag [] in (t', p ∷ [])

-- case SYN_SENT
unfoldable pub on_syn_sent : Dpdk → MicroTcp → Segment → Reply
unfolding reply_ack
on_syn_sent d t s =
    if has_flag s.tcp_flags syn_flag && has_flag s.tcp_flags ack_flag
    then if s.received_ack == u32 (t.iss + 1)
      then reply_ack d (record t {
        rcv_nxt = u32 (s.received_seq + 1);
        snd_una = s.received_ack;
        state = established;
      })
      else (t, [])
    else (t, [])

-- Data in order: it is kept if the receive buffer has room, and acknowledged in either case.
unfoldable pub accept_data : MicroTcp → List ℕ → MicroTcp
accept_data t payload = record t {
  rx_buffer =
      if ltb max_rx_buffer_size (length t.rx_buffer + length payload)
      then t.rx_buffer
      else t.rx_buffer ++ payload;
  rcv_nxt = u32 (t.rcv_nxt + length payload);
}

-- case ESTABLISHED, incoming data
unfoldable pub on_data : Dpdk → MicroTcp → Segment → List ℕ → Reply
unfolding reply_ack accept_data
on_data d t s payload =
    if ltb 0 (length payload)
    then if s.received_seq == t.rcv_nxt
      then reply_ack d (accept_data t payload)
      else if ltb s.received_seq t.rcv_nxt
      then reply_ack d t
      else (t, [])
    else (t, [])

-- case ESTABLISHED, the peer's acknowledgements
unfoldable pub on_ack : MicroTcp → Segment → MicroTcp
on_ack t s = if ltb t.snd_una s.received_ack then record t { snd_una = s.received_ack } else t

-- case ESTABLISHED, the peer's FIN
unfoldable pub on_fin : Dpdk → MicroTcp → Segment → Reply
unfolding reply_ack
on_fin d t s =
    if has_flag s.tcp_flags fin_flag
    then (let (t', sent) =
          reply_ack d (record t { rcv_nxt = u32 (t.rcv_nxt + 1); state = fin_wait_1 }) in
        (record t' { state = fin_wait_2 }, sent))
    else (t, [])

unfoldable pub on_established : Dpdk → MicroTcp → Segment → List ℕ → Reply
unfolding on_data on_ack on_fin
on_established d t s payload =
    let (t1, data_acks) = on_data d t s payload in
    let (t2, fin_acks) = on_fin d (on_ack t1 s) s in (t2, data_acks ++ fin_acks)

-- case FIN_WAIT_2
unfoldable pub on_fin_wait_2 : Dpdk → MicroTcp → Segment → Reply
unfolding reply_ack
on_fin_wait_2 d t s =
    if has_flag s.tcp_flags fin_flag
    then (let (t', sent) = reply_ack d (record t { rcv_nxt = u32 (t.rcv_nxt + 1) }) in
        (record t' { state = time_wait }, sent))
    else (t, [])

unfoldable pub on_segment : Dpdk → MicroTcp → Segment → List ℕ → Reply
unfolding on_syn_sent on_established on_fin_wait_2
on_segment d t s payload = elim t.state [
  | syn_sent ↦ on_syn_sent d t s
  | established ↦ on_established d t s payload
  | fin_wait_2 ↦ on_fin_wait_2 d t s
  | _ ↦ (t, [])
]

unfoldable pub process_rx : Dpdk → MicroTcp → Option Mbuf → Reply
unfolding on_segment
process_rx d t none = (t, [])
process_rx d t (some m) = elim (parse_tcp_packet (some m)) [
  | none ↦ (t, [])
  | some h ↦
      let s = segment m h in
      if not (is_ours t s)
      then (t, [])
      else if ltb s.total_length (s.ip_hdr_len + s.tcp_hdr_len)
      then (t, [])
      else on_segment d t s (payload_of m s)
]
