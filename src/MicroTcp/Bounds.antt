-- ===== src/MicroTcp/Bounds.antt =====
-- The bounds that hold of a connection after any history of calls.
use dpdk_cex_source.Base.{
  ℕ, ◌+◌, ◌^◌, ◌≤◌, ◌<◌, ◌≢◌, List, [], ◌∷◌, Option, none, some, arith, length, length-append,
  Option-cases, inl, inr,
}
use dpdk_cex_source.Base.Bytes.{u32}
use dpdk_cex_source.Packet.{Mbuf}
use dpdk_cex_source.MicroTcp.{
  MicroTcp, syn_sent, established, fin_wait_1, EtherAddr, Dpdk, max_rx_buffer_size, new,
  create_tcp_packet, connect, send_data, u16_bytes, extract_rx_data, ack_flag, parse_tcp_packet,
}
use dpdk_cex_source.MicroTcp.Process.{
  Segment, segment, payload_of, reply_ack, on_syn_sent, accept_data, on_data, on_ack, on_fin,
  on_established, on_fin_wait_2, on_segment, process_rx,
}
use dpdk_cex_source.MicroTcp.Machine.{create_tcp_packet-keeps}

-- Sequence numbers are 32-bit, the receive buffer is bounded, and FIN_WAIT_1 is never left behind.
pub record IsSane (t : MicroTcp) : Type 0 where
  pub snd_nxt_fits : t.snd_nxt < 2 ^ 32
  pub rcv_nxt_fits : t.rcv_nxt < 2 ^ 32
  pub buffer_bounded : length t.rx_buffer ≤ max_rx_buffer_size
  pub not_half_closed : t.state ≢ fin_wait_1

-- The calls of a client, `received none` being a null packet.
pub data Call : Type 0 where
  connects : Call
  received : Option Mbuf → Call
  sends : List ℕ → Call
  extracts : Call

unfoldable pub call : Dpdk → MicroTcp → Call → MicroTcp
call d t connects = (connect d t).0
call d t (received m) = (process_rx d t m).0
call d t (sends bytes) = (send_data d t bytes).0
call d t extracts = (extract_rx_data t).1

unfoldable pub run : Dpdk → MicroTcp → List Call → MicroTcp
run d t [] = t
run d t (c ∷ cs) = run d (call d t c) cs

create-fits :
    (d : Dpdk) (t : MicroTcp) (flags : ℕ) (payload : List ℕ)
    → t.snd_nxt < 2 ^ 32
    → (create_tcp_packet d t flags payload).0.snd_nxt < 2 ^ 32
unfolding create_tcp_packet
create-fits d t flags payload h = ground arith

create-IsSane :
    (d : Dpdk) (t : MicroTcp) (flags : ℕ) (payload : List ℕ)
    → IsSane t
    → IsSane (create_tcp_packet d t flags payload).0
create-IsSane d t flags payload v =
    ground (
      arith,
      create_tcp_packet-keeps d t flags payload,
      create-fits d t flags payload v.snd_nxt_fits,
    )

reply_ack-IsSane : (d : Dpdk) (t : MicroTcp) → IsSane t → IsSane (reply_ack d t).0
unfolding reply_ack
reply_ack-IsSane d t v = create-IsSane d t ack_flag [] v

accept_data-IsSane : (t : MicroTcp) (p : List ℕ) → IsSane t → IsSane (accept_data t p)
unfolding accept_data
accept_data-IsSane t p v = ground (arith, length-append t.rx_buffer p)

on_data-IsSane :
    (d : Dpdk) (t : MicroTcp) (s : Segment) (p : List ℕ) → IsSane t → IsSane (on_data d t s p).0
unfolding on_data
on_data-IsSane d t s p v =
    ground (
      arith,
      reply_ack-IsSane d t v,
      reply_ack-IsSane d (accept_data t p) (accept_data-IsSane t p v),
    )

on_ack-IsSane : (t : MicroTcp) (s : Segment) → IsSane t → IsSane (on_ack t s)
unfolding on_ack
on_ack-IsSane t s v = ground arith

on_fin-IsSane : (d : Dpdk) (t : MicroTcp) (s : Segment) → IsSane t → IsSane (on_fin d t s).0
unfolding on_fin reply_ack
on_fin-IsSane d t s v =
    ground (arith, create_tcp_packet-keeps d closing ack_flag [], create-fits d closing ack_flag [])
  where
    closing : MicroTcp
    closing = record t { rcv_nxt = u32 (t.rcv_nxt + 1); state = fin_wait_1 }

on_syn_sent-IsSane :
    (d : Dpdk) (t : MicroTcp) (s : Segment) → IsSane t → IsSane (on_syn_sent d t s).0
unfolding on_syn_sent
on_syn_sent-IsSane d t s v = ground (arith, reply_ack-IsSane d opened)
  where
    opened : MicroTcp
    opened = record t {
      rcv_nxt = u32 (s.received_seq + 1);
      snd_una = s.received_ack;
      state = established;
    }

on_fin_wait_2-IsSane :
    (d : Dpdk) (t : MicroTcp) (s : Segment) → IsSane t → IsSane (on_fin_wait_2 d t s).0
unfolding on_fin_wait_2 reply_ack
on_fin_wait_2-IsSane d t s v =
    ground (arith, create_tcp_packet-keeps d closing ack_flag [], create-fits d closing ack_flag [])
  where
    closing : MicroTcp
    closing = record t { rcv_nxt = u32 (t.rcv_nxt + 1) }

on_segment-IsSane :
    (d : Dpdk) (t : MicroTcp) (s : Segment) (p : List ℕ) → IsSane t → IsSane (on_segment d t s p).0
unfolding on_segment on_established
on_segment-IsSane d t s p v = ground (
  arith,
  on_syn_sent-IsSane d t s v,
  on_fin_wait_2-IsSane d t s v,
  on_fin-IsSane d (on_ack (on_data d t s p).0 s) s
      (on_ack-IsSane (on_data d t s p).0 s (on_data-IsSane d t s p v)),
)

process_rx-IsSane :
    (d : Dpdk) (t : MicroTcp) (m : Option Mbuf) → IsSane t → IsSane (process_rx d t m).0
unfolding process_rx
process_rx-IsSane d t none v = v
process_rx-IsSane d t (some m) v = elim (Option-cases (parse_tcp_packet (some m))) [
  | inl bad ↦ rw (bad, process_rx) v
  | inr (h, good) ↦
      ground (arith, on_segment-IsSane d t (segment m h) (payload_of m (segment m h)) v)
]

call-IsSane : (d : Dpdk) (t : MicroTcp) (c : Call) → IsSane t → IsSane (call d t c)
unfolding call connect send_data extract_rx_data
call-IsSane d t connects v = ground (arith, create-IsSane d (record t { state = syn_sent }) 2 [])
call-IsSane d t (received m) v = process_rx-IsSane d t m v
call-IsSane d t (sends bytes) v = ground (arith, create-IsSane d t 24 (u16_bytes bytes) v)
call-IsSane d t extracts v = ground arith

run-IsSane : (d : Dpdk) (t : MicroTcp) (cs : List Call) → IsSane t → IsSane (run d t cs)
unfolding run
run-IsSane d t [] v = v
run-IsSane d t (c ∷ cs) v = run-IsSane d (call d t c) cs (call-IsSane d t c v)

-- After any history of calls on a new connection, whatever packets arrive and whatever allocations
-- fail, the next sequence numbers fit 32 bits, the receive buffer holds at most 10 MiB, and the
-- connection is not in FIN_WAIT_1.
pub run-new-IsSane :
    (d : Dpdk) (src_ip src_port dst_ip dst_port : ℕ) (src_mac dst_mac : EtherAddr) (rand : ℕ)
    (cs : List Call)
    → IsSane (run d (new src_ip src_port dst_ip dst_port src_mac dst_mac rand) cs)
unfolding new
run-new-IsSane d src_ip src_port dst_ip dst_port src_mac dst_mac rand cs =
    run-IsSane d _ cs (ground arith)
