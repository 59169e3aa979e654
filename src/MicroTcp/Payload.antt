-- ===== src/MicroTcp/Payload.antt =====
-- The payloads of the packets that src/modules/network/micro_tcp.cpp sends: the answers of process_rx
-- have none.
use mathlib.Core.Path.{ap₂}
use mathlib.Core.List.{append_assoc}
use dpdk_cex_source.Base.{
  ℕ, ◌+◌, Bool, if◌then◌else◌, Option-cases, ◌≡◌, refl, sym, ap, ◌∙◌, Bool-cases, true, false, ltb,
  inl, inr, List, [], ◌∷◌, ◌++◌, Option, none, some, arith, drop,
}
use dpdk_cex_source.Packet.{Mbuf}
use dpdk_cex_source.MicroTcp.{
  MicroTcp, TcpState, syn_sent, established, fin_wait_2, time_wait, Dpdk, EtherAddr, ack_flag,
  consume, update_snd_nxt, create_tcp_packet, parse_tcp_packet,
}
use dpdk_cex_source.MicroTcp.Process.{
  Segment, segment, payload_of as segment_payload, Reply, reply_ack, on_syn_sent, accept_data,
  on_data, on_ack, on_fin, on_established, on_fin_wait_2, on_segment, process_rx,
}
use dpdk_cex_source.MicroTcp.Create.{HasTemplate, packet_bytes-payload}

-- The payload of a packet of MicroTcp, behind its headers.
abbrev pub payload_of : Option Mbuf → List ℕ
payload_of none = []
payload_of (some m) = drop 54 m.bytes

abbrev pub payloads : List (Option Mbuf) → List ℕ
payloads [] = []
payloads (m ∷ ms) = payload_of m ++ payloads ms

pub payloads-append :
    (ms ns : List (Option Mbuf)) → payloads (ms ++ ns) ≡ payloads ms ++ payloads ns
payloads-append [] ns = refl
payloads-append (m ∷ ms) ns =
    ap (◌++◌ (payload_of m)) (payloads-append ms ns)
    ∙ sym (append_assoc (payload_of m) (payloads ms) (payloads ns))

-- The template is the one of the constructor, for some pair of hardware addresses.
abbrev pub HasOwnTemplate : MicroTcp → Type 0
HasOwnTemplate t = (macs : EtherAddr × EtherAddr) × HasTemplate t macs.0 macs.1

-- An answer without payload, by a connection that still has its template.
pub record IsBare (r : Reply) : Type 0 where
  pub own_template : HasOwnTemplate r.0
  pub no_payload : payloads r.1 ≡ []

consume-HasOwnTemplate :
    (t : MicroTcp) (k flags : ℕ) (bs : List ℕ)
    → HasOwnTemplate t
    → HasOwnTemplate (consume (record t { allocations = k }) flags bs)
unfolding update_snd_nxt
consume-HasOwnTemplate t k flags bs (macs, v) = (macs, ground (arith, v))

-- A packet without payload.
pub create-IsBare :
    (d : Dpdk) (t : MicroTcp) (flags : ℕ)
    → HasOwnTemplate t
    → HasOwnTemplate (create_tcp_packet d t flags []).0
      × (payload_of (create_tcp_packet d t flags []).1 ≡ [])
unfolding create_tcp_packet
create-IsBare d t flags v = elim (Bool-cases (d.alloc t.allocations)) [
  | inl full ↦ rw full (
    consume-HasOwnTemplate t (t.allocations + 1) flags [] v,
    packet_bytes-payload d t flags [] v.0.0 v.0.1 v.1,
  )
  | inr none_left ↦ rw none_left (v, refl)
]

reply_ack-IsBare : (d : Dpdk) (t : MicroTcp) → HasOwnTemplate t → IsBare (reply_ack d t)
unfolding reply_ack
reply_ack-IsBare d t v =
    let (own, empty) = create-IsBare d t ack_flag v in
    record { own_template = own; no_payload = ap (λ (xs : List ℕ). xs ++ []) empty }

silent : (t : MicroTcp) → HasOwnTemplate t → IsBare (t, [])
silent t v = record { own_template = v; no_payload = refl }

-- The answer of a test: both branches are without payload.
if-IsBare : (b : Bool) (r s : Reply) → IsBare r → IsBare s → IsBare (if b then r else s)
if-IsBare true r s v w = v
if-IsBare false r s v w = w

on_syn_sent-IsBare :
    (d : Dpdk) (t : MicroTcp) (s : Segment) → HasOwnTemplate t → IsBare (on_syn_sent d t s)
unfolding on_syn_sent
on_syn_sent-IsBare d t s v =
    if-IsBare _ _ _ (if-IsBare _ _ _ (reply_ack-IsBare d _ v) (silent t v)) (silent t v)

on_data-IsBare :
    (d : Dpdk) (t : MicroTcp) (s : Segment) (p : List ℕ)
    → HasOwnTemplate t
    → IsBare (on_data d t s p)
unfolding on_data accept_data
on_data-IsBare d t s p v =
    if-IsBare _ _ _
      (if-IsBare _ _ _ (reply_ack-IsBare d _ v)
        (if-IsBare _ _ _ (reply_ack-IsBare d t v) (silent t v)))
      (silent t v)

on_ack-HasOwnTemplate :
    (t : MicroTcp) (s : Segment) → HasOwnTemplate t → HasOwnTemplate (on_ack t s)
unfolding on_ack
on_ack-HasOwnTemplate t s v = elim (Bool-cases (ltb t.snd_una s.received_ack)) [
  | inl new ↦ rw new v
  | inr old ↦ rw old v
]

with_state : (r : Reply) (k : TcpState) → IsBare r → IsBare (record r.0 { state = k }, r.1)
with_state r k v = record { own_template = v.own_template; no_payload = v.no_payload }

on_fin-IsBare : (d : Dpdk) (t : MicroTcp) (s : Segment) → HasOwnTemplate t → IsBare (on_fin d t s)
unfolding on_fin
on_fin-IsBare d t s v =
    if-IsBare _ _ _ (with_state _ fin_wait_2 (reply_ack-IsBare d _ v)) (silent t v)

on_established-IsBare :
    (d : Dpdk) (t : MicroTcp) (s : Segment) (p : List ℕ)
    → HasOwnTemplate t
    → IsBare (on_established d t s p)
unfolding on_established
on_established-IsBare d t s p v =
    let first = on_data-IsBare d t s p v in
    let t1 = on_ack (on_data d t s p).0 s in
    let last = on_fin-IsBare d t1 s (on_ack-HasOwnTemplate _ s first.own_template) in
    record {
      own_template = last.own_template;
      no_payload =
          payloads-append (on_data d t s p).1 (on_fin d t1 s).1
          ∙ ap₂ ◌++◌ first.no_payload last.no_payload;
    }

on_fin_wait_2-IsBare :
    (d : Dpdk) (t : MicroTcp) (s : Segment) → HasOwnTemplate t → IsBare (on_fin_wait_2 d t s)
unfolding on_fin_wait_2
on_fin_wait_2-IsBare d t s v =
    if-IsBare _ _ _ (with_state _ time_wait (reply_ack-IsBare d _ v)) (silent t v)

on_segment-IsBare :
    (d : Dpdk) (t : MicroTcp) (s : Segment) (p : List ℕ) (k : TcpState)
    → t.state ≡ k
    → HasOwnTemplate t
    → IsBare (on_segment d t s p)
unfolding on_segment
on_segment-IsBare d t s p syn_sent e v = rw (e, on_segment) (on_syn_sent-IsBare d t s v)
on_segment-IsBare d t s p established e v = rw (e, on_segment) (on_established-IsBare d t s p v)
on_segment-IsBare d t s p fin_wait_2 e v = rw (e, on_segment) (on_fin_wait_2-IsBare d t s v)
on_segment-IsBare d t s p _ e v = rw (e, on_segment) (silent t v)

-- What process_rx answers to a packet, whatever it is, carries no payload: the connection keeps its
-- template, and all it sends are bare headers.
pub process_rx-IsBare :
    (d : Dpdk) (t : MicroTcp) (m : Option Mbuf) → HasOwnTemplate t → IsBare (process_rx d t m)
unfolding process_rx
process_rx-IsBare d t none v = silent t v
process_rx-IsBare d t (some m) v = elim (Option-cases (parse_tcp_packet (some m))) [
  | inl bad ↦ rw (bad, process_rx) (silent t v)
  | inr (h, good) ↦
      rw (good, process_rx)
        (if-IsBare _ _ _ (silent t v) (
          if-IsBare _ _ _ (silent t v)
            (on_segment-IsBare d t (segment m h) (segment_payload m (segment m h)) t.state refl v)))
]
