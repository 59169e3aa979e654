-- ===== src/MicroTcp/Machine.antt =====
-- The connection's state machine: which states follow which, and what packets are ignored.
use mathlib.Core.Path.{subst}
use dpdk_cex_source.Base.{
  ℕ, ◌+◌, ◌≡◌, refl, ◌⊎◌, inl, inr, true, ◌&&◌, ◌==◌, ltb, Bool-cases, Option-cases, List, [], some,
  arith,
}
use dpdk_cex_source.Base.Bytes.{u32}
use dpdk_cex_source.Packet.{Mbuf}
use dpdk_cex_source.MicroTcp.{
  MicroTcp, TcpState, syn_sent, established, fin_wait_2, time_wait, Dpdk, Headers, fin_flag,
  syn_flag, ack_flag, has_flag, create_tcp_packet, parse_tcp_packet,
}
use dpdk_cex_source.MicroTcp.Process.{
  Segment, segment, is_ours, payload_of, Reply, reply_ack, on_syn_sent, accept_data, on_data,
  on_ack, on_fin, on_established, on_fin_wait_2, on_segment, process_rx,
}

-- The moves that a packet may cause in the state of the connection, each with its cause.
pub data Move (t : MicroTcp) (s : Segment) (t' : MicroTcp) : Type 0 where
  stay : t'.state ≡ t.state → Move t s t'
  establish :
      t.state ≡ syn_sent
      → has_flag s.tcp_flags syn_flag ≡ true
      → has_flag s.tcp_flags ack_flag ≡ true
      → s.received_ack ≡ u32 (t.iss + 1)
      → t'.state ≡ established
      → t'.rcv_nxt ≡ u32 (s.received_seq + 1)
      → t'.snd_una ≡ s.received_ack
      → Move t s t'
  peer_closes :
      t.state ≡ established
      → has_flag s.tcp_flags fin_flag ≡ true
      → t'.state ≡ fin_wait_2
      → Move t s t'
  finish :
      t.state ≡ fin_wait_2
      → has_flag s.tcp_flags fin_flag ≡ true
      → t'.state ≡ time_wait
      → Move t s t'

-- Sending changes the send sequence only.
pub create_tcp_packet-keeps :
    (d : Dpdk) (t : MicroTcp) (flags : ℕ) (payload : List ℕ)
    → let t' = (create_tcp_packet d t flags payload).0 in
      (t'.state ≡ t.state)
      × (t'.rx_buffer ≡ t.rx_buffer)
      × (t'.rcv_nxt ≡ t.rcv_nxt)
      × (t'.snd_una ≡ t.snd_una)
unfolding create_tcp_packet
create_tcp_packet-keeps d t flags payload = ground arith

pub reply_ack-keeps :
    (d : Dpdk) (t : MicroTcp)
    → let t' = (reply_ack d t).0 in
      (t'.state ≡ t.state)
      × (t'.rx_buffer ≡ t.rx_buffer)
      × (t'.rcv_nxt ≡ t.rcv_nxt)
      × (t'.snd_una ≡ t.snd_una)
unfolding reply_ack
reply_ack-keeps d t = create_tcp_packet-keeps d t ack_flag []

on_data-state :
    (d : Dpdk) (t : MicroTcp) (s : Segment) (p : List ℕ) → (on_data d t s p).0.state ≡ t.state
unfolding on_data accept_data
on_data-state d t s p = ground (arith, reply_ack-keeps d t, reply_ack-keeps d (accept_data t p))

on_ack-state : (t : MicroTcp) (s : Segment) → (on_ack t s).state ≡ t.state
unfolding on_ack
on_ack-state t s = ground arith

on_fin-state :
    (d : Dpdk) (t : MicroTcp) (s : Segment)
    → ((on_fin d t s).0.state ≡ t.state)
      ⊎ ((has_flag s.tcp_flags fin_flag ≡ true) × ((on_fin d t s).0.state ≡ fin_wait_2))
unfolding on_fin
on_fin-state d t s = ground arith

syn_sent-Move :
    (d : Dpdk) (t : MicroTcp) (s : Segment) → t.state ≡ syn_sent → Move t s (on_syn_sent d t s).0
unfolding on_syn_sent
syn_sent-Move d t s e =
    elim (Bool-cases (has_flag s.tcp_flags syn_flag && has_flag s.tcp_flags ack_flag)) [
      | inl flags ↦ elim (Bool-cases (s.received_ack == u32 (t.iss + 1))) [
        | inl acked ↦
            rw (flags, acked, on_syn_sent)
              (establish e (ground arith) (ground arith) (ground arith)
                (ground (arith, reply_ack-keeps d opened))
                (ground (arith, reply_ack-keeps d opened))
                (ground (arith, reply_ack-keeps d opened)))
        | inr other ↦ rw (flags, other, on_syn_sent) (stay refl)
      ]
      | inr other ↦ rw (other, on_syn_sent) (stay refl)
    ]
  where
    opened : MicroTcp
    opened = record t {
      rcv_nxt = u32 (s.received_seq + 1);
      snd_una = s.received_ack;
      state = established;
    }

established-Move :
    (d : Dpdk) (t : MicroTcp) (s : Segment) (p : List ℕ)
    → t.state ≡ established
    → Move t s (on_established d t s p).0
unfolding on_established
established-Move d t s p e = elim (on_fin-state d (on_ack (on_data d t s p).0 s) s) [
  | inl same ↦ stay (ground (arith, on_ack-state (on_data d t s p).0 s, on_data-state d t s p))
  | inr (fin, now) ↦ peer_closes e fin now
]

fin_wait_2-Move :
    (d : Dpdk) (t : MicroTcp) (s : Segment)
    → t.state ≡ fin_wait_2
    → Move t s (on_fin_wait_2 d t s).0
unfolding on_fin_wait_2
fin_wait_2-Move d t s e = elim (Bool-cases (has_flag s.tcp_flags fin_flag)) [
  | inl fin ↦ rw (fin, on_fin_wait_2) (finish e fin refl)
  | inr other ↦ rw (other, on_fin_wait_2) (stay refl)
]

on_segment_syn_sent :
    (d : Dpdk) (t : MicroTcp) (s : Segment) (p : List ℕ)
    → t.state ≡ syn_sent
    → on_syn_sent d t s ≡ on_segment d t s p
unfolding on_segment
on_segment_syn_sent d t s p e = ground arith

on_segment_established :
    (d : Dpdk) (t : MicroTcp) (s : Segment) (p : List ℕ)
    → t.state ≡ established
    → on_established d t s p ≡ on_segment d t s p
unfolding on_segment
on_segment_established d t s p e = ground arith

on_segment_fin_wait_2 :
    (d : Dpdk) (t : MicroTcp) (s : Segment) (p : List ℕ)
    → t.state ≡ fin_wait_2
    → on_fin_wait_2 d t s ≡ on_segment d t s p
unfolding on_segment
on_segment_fin_wait_2 d t s p e = ground arith

on_segment-Move :
    (d : Dpdk) (t : MicroTcp) (s : Segment) (p : List ℕ) (k : TcpState)
    → t.state ≡ k
    → Move t s (on_segment d t s p).0
unfolding on_segment
on_segment-Move d t s p syn_sent e =
    subst (λ (r : Reply). Move t s r.0) (on_segment_syn_sent d t s p e) (syn_sent-Move d t s e)
on_segment-Move d t s p established e =
    subst (λ (r : Reply). Move t s r.0) (on_segment_established d t s p e)
      (established-Move d t s p e)
on_segment-Move d t s p fin_wait_2 e =
    subst (λ (r : Reply). Move t s r.0) (on_segment_fin_wait_2 d t s p e) (fin_wait_2-Move d t s e)
on_segment-Move d t s p _ e = stay (ground arith)

-- A received packet either changes nothing and is answered by nothing, or it is a whole TCP frame of
-- this connection and its peer, and then the state moves only by one of the four moves: the
-- handshake completes on a SYN with an ACK of our initial sequence number, and a connection is left
-- on the peer's FIN.
pub process_rx-Move :
    (d : Dpdk) (t : MicroTcp) (m : Mbuf)
    → (process_rx d t (some m) ≡ (t, []))
      ⊎ ((h : Headers) × (parse_tcp_packet (some m) ≡ some h)
          × (is_ours t (segment m h) ≡ true)
          × Move t (segment m h) (process_rx d t (some m)).0)
unfolding process_rx
process_rx-Move d t m = elim (Option-cases (parse_tcp_packet (some m))) [
  | inl bad ↦ inl (rw (bad, process_rx))
  | inr (h, good) ↦ elim (Bool-cases (is_ours t (segment m h))) [
    | inl ours ↦
        elim (Bool-cases
          (ltb (segment m h).total_length ((segment m h).ip_hdr_len + (segment m h).tcp_hdr_len))) [
            | inl short ↦ inl (ground arith)
            | inr long ↦ inr (
              h,
              good,
              ours,
              rw (good, process_rx)
                  (rw (ours, long)
                    (on_segment-Move d t (segment m h) (payload_of m (segment m h)) t.state refl)),
            )
          ]
    | inr foreign ↦ inl (ground arith)
  ]
]
