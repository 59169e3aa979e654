-- ===== src/Handshake/Flush.antt =====
-- The loop that sends what TLS has put into its output BIO, in process_rx of
-- src/modules/network/websocket_client.cpp: it ends, and sends the whole output in order.
use mathlib.Core.Path.{ap₂}
use mathlib.Core.List.{append-nil}
use dpdk_cex_source.Base.{
  ℕ, zero, suc, ◌+◌, ◌<◌, ◌^◌, ◌≡◌, ◌≢◌, refl, sym, ap, ◌∙◌, Bool, true, ltb, List, [], ◌∷◌, ◌++◌,
  Option, none, some, arith, length, length-append, List-cases, inl, inr,
}
use dpdk_cex_source.MicroTcp.{
  MicroTcp, established, Dpdk, EtherAddr, send_data, consume, update_snd_nxt,
}
use dpdk_cex_source.MicroTcp.Payload.{payloads, payloads-append}
use dpdk_cex_source.MicroTcp.Create.{HasTemplate, packet_bytes-payload, send_data-packet}
use dpdk_cex_source.TlsSocket.{OpenSsl, encrypted, drained, pending_read, read_encrypted}
use dpdk_cex_source.TlsSocket.Laws.{IsMemoryBio}
use dpdk_cex_source.Handshake.{
  WsClient, Reply, pushed, and_then, send_tcp, flush_round, flush_loop, flush,
}

-- The TCP connection is established, and its template is the one of the constructor.
pub record CanSend (t : MicroTcp) : Type 0 where
  pub src_mac : EtherAddr
  pub dst_mac : EtherAddr
  pub is_established : t.state ≡ established
  pub has_template : HasTemplate t src_mac dst_mac

consume-CanSend :
    (t : MicroTcp) (k flags : ℕ) (bs : List ℕ)
    → CanSend t
    → CanSend (consume (record t { allocations = k }) flags bs)
unfolding update_snd_nxt
consume-CanSend t k flags bs v = record {
  src_mac = v.src_mac;
  dst_mac = v.dst_mac;
  is_established = ground (arith, v.is_established);
  has_template = ground (arith, v.has_template);
}

-- With an mbuf to be had, what is sent is the payload of one packet.
send_data-payload :
    (d : Dpdk) (t : MicroTcp) (bs : List ℕ)
    → CanSend t
    → length bs < 2 ^ 16
    → d.alloc t.allocations ≡ true
    → CanSend (send_data d t bs).0 × (payloads (pushed (send_data d t bs).1) ≡ bs)
send_data-payload d t bs v fits a = rw (send_data-packet d t bs v.is_established fits a) (
  consume-CanSend t (t.allocations + 1) 24 bs v,
  ap (λ (xs : List ℕ). xs ++ []) (packet_bytes-payload d t 24 bs v.src_mac v.dst_mac v.has_template)
      ∙ append-nil bs,
)

module _ {T : Type 0} (o : OpenSsl T) (bio : IsMemoryBio o) where
  -- What a call of read_encrypted takes from the output.
  data ReadsFrom (t : T) : Type 0 where
    empty : bio.wbio t ≡ [] → read_encrypted o t ≡ (t, drained) → ReadsFrom t
    front :
        (bs : List ℕ) (t' : T)
        → read_encrypted o t ≡ (t', encrypted bs)
        → bio.wbio t ≡ bs ++ bio.wbio t'
        → length (bio.wbio t') < length (bio.wbio t)
        → ReadsFrom t

  read_encrypted_empty : (t : T) → bio.wbio t ≡ [] → read_encrypted o t ≡ (t, drained)
  unfolding read_encrypted
  read_encrypted_empty t e = rw (bio.bio_pending-length t) (rw e refl)

  pending-length :
      (t : T) (x : ℕ) (xs : List ℕ) → bio.wbio t ≡ x ∷ xs → o.bio_pending t ≡ suc (length xs)
  pending-length t x xs e = bio.bio_pending-length t ∙ ap length e

  pending_read-some :
      (r : T × Option (List ℕ)) (bs : List ℕ)
      → r.1 ≡ some bs
      → pending_read o r ≡ (r.0, encrypted bs)
  pending_read-some (t, none) bs e = cc
  pending_read-some (t, some cs) bs e = cc

  read_encrypted-some :
      (t : T) (n : ℕ) (bs : List ℕ)
      → o.bio_pending t ≡ suc n
      → (o.bio_read t (o.bio_pending t)).1 ≡ some bs
      → read_encrypted o t ≡ ((o.bio_read t (o.bio_pending t)).0, encrypted bs)
  unfolding read_encrypted
  read_encrypted-some t n bs h e =
      let more : ltb 0 (o.bio_pending t) ≡ true = ground (arith, h) in
      rw more (pending_read-some (o.bio_read t (o.bio_pending t)) bs e)

  shorter : (bs rest all : List ℕ) → bs ≢ [] → all ≡ bs ++ rest → length rest < length all
  shorter [] rest all h e = absurd (h refl)
  shorter (b ∷ bs) rest all h e = rw e (omega (arith, length-append bs rest))

  reads_from_front : (t : T) (x : ℕ) (xs : List ℕ) → bio.wbio t ≡ x ∷ xs → ReadsFrom t
  reads_from_front t x xs e =
      let n = pending-length t x xs e in
      let (bs, got, more, split) =
        bio.bio_read-front t (o.bio_pending t) (λ z. ground (arith, n, z))
          (λ z. ground (arith, e, z)) in
      front bs (o.bio_read t (o.bio_pending t)).0 (read_encrypted-some t (length xs) bs n got) split
        (shorter bs (bio.wbio (o.bio_read t (o.bio_pending t)).0) (bio.wbio t) more split)

  reads_from : (t : T) → ReadsFrom t
  reads_from t = elim (List-cases (bio.wbio t)) [
    | inl e ↦ empty e (read_encrypted_empty t e)
    | inr ((x, xs), e) ↦ reads_from_front t x xs e
  ]

module _ {T : Type 0} (d : Dpdk) (o : OpenSsl T) (bio : IsMemoryBio o) where
  -- What a flush has done: the output is empty, and what was in it has been sent.
  abbrev HasFlushed : WsClient T → Reply T → Type 0
  HasFlushed c r =
      (bio.wbio r.0.tls_socket ≡ [])
      × (payloads r.1 ≡ bio.wbio c.tls_socket)
      × CanSend r.0.tcp_client

  HasFlushed-and_then :
      (hello : Bool) (c : WsClient T) (t : T) (bs : List ℕ) (next : WsClient T → Reply T)
      → CanSend c.tcp_client
      → length bs < 2 ^ 16
      → ((k : ℕ) → d.alloc k ≡ true)
      → bio.wbio c.tls_socket ≡ bs ++ bio.wbio t
      → ((c' : WsClient T) → c'.tls_socket ≡ t → CanSend c'.tcp_client → HasFlushed c' (next c'))
      → HasFlushed c (and_then (flush_round d o hello (record c { tls_socket = t }) bs) next)
  unfolding send_tcp
  HasFlushed-and_then hello c t bs next v fits full split h =
      let (v', p) = send_data-payload d c.tcp_client bs v fits (full c.tcp_client.allocations) in
      let c' = (flush_round d o hello (record c { tls_socket = t }) bs).0 in
      let (done, rest, v2) = h c' refl v' in
      (
        done,
        payloads-append (pushed (send_data d c.tcp_client bs).1) (next c').1
            ∙ ap₂ ◌++◌ p rest
            ∙ sym split,
        v2,
      )

  short :
      {all : List ℕ} (bs : List ℕ) (t : T)
      → all ≡ bs ++ bio.wbio t
      → length all < 2 ^ 16
      → length bs < 2 ^ 16
  short bs t split fits = omega (arith, fits, ap length split, length-append bs (bio.wbio t))

  flush_loop-HasFlushed :
      (n : ℕ) (hello : Bool) (c : WsClient T)
      → CanSend c.tcp_client
      → ((k : ℕ) → d.alloc k ≡ true)
      → length (bio.wbio c.tls_socket) < 2 ^ 16
      → length (bio.wbio c.tls_socket) < n
      → HasFlushed c (flush_loop d o n hello c)
  unfolding flush_loop
  flush_loop-HasFlushed zero hello c v full fits h = ground (arith, h)
  flush_loop-HasFlushed (suc n) hello c v full fits h = elim (reads_from o bio c.tls_socket) [
    | empty e r ↦ rw r (e, sym e, v)
    | front bs t r split less ↦ rw r (
        HasFlushed-and_then hello c t bs (flush_loop d o n hello) v (short bs t split fits) full
          split
          (λ c' same v'.
            flush_loop-HasFlushed n hello c' v' full (rw same (omega (arith, fits, less)))
              (rw same (omega (arith, h, less)))))
  ]

  -- The loop ends and sends what TLS has put out: behind it the output is empty, and the payloads of
  -- the packets are, in order, the bytes that were in it. The output BIO must be a queue with so
  -- little in it that a packet with all of it has a length of 16 bits (what is sent in one call of
  -- send_data is cut to such a length), the TCP connection established with its own template, and an
  -- mbuf to be had for every packet.
  pub flush-sends :
      (hello : Bool) (c : WsClient T)
      → CanSend c.tcp_client
      → ((k : ℕ) → d.alloc k ≡ true)
      → 54 + length (bio.wbio c.tls_socket) < 2 ^ 16
      → let r = flush d o hello c in
        (bio.wbio r.0.tls_socket ≡ [])
        × (payloads r.1 ≡ bio.wbio c.tls_socket)
        × CanSend r.0.tcp_client
  unfolding flush
  flush-sends hello c v full fits =
      flush_loop-HasFlushed (suc (o.bio_pending c.tls_socket)) hello c v full (omega (arith, fits))
        (omega (arith, bio.bio_pending-length c.tls_socket))
