-- ===== src/MicroTcp/Stream.antt =====
-- The receiver against the byte stream of its peer: whatever segments of the stream arrive, in
-- whatever order and however often, the receive buffer holds a prefix of the stream.
use native.Mathlib.Nat.{suc-add}
use dpdk_cex_source.Base.{
  ℕ, zero, suc, ◌+◌, ◌^◌, ◌≤◌, ◌<◌, ◌≡◌, refl, ap, false, List, [], ◌∷◌, ◌++◌, arith, length, All,
  ◌==◌, if◌then◌else◌,
}
use dpdk_cex_source.MicroTcp.{MicroTcp, established, Dpdk, max_rx_buffer_size, fin_flag, has_flag}
use dpdk_cex_source.MicroTcp.Process.{Segment, accept_data, on_data, on_ack, on_fin, on_established}
use dpdk_cex_source.MicroTcp.Machine.{reply_ack-keeps}

-- A segment of the stream: where it begins, how many bytes it has, and its other header fields.
pub record Piece : Type 0 where
  pub offset : ℕ
  pub count : ℕ
  pub header : Segment

next_offset : (o k : ℕ) → o + suc k ≡ o + 1 + k
next_offset o k = omega arith

module _ (stream : ℕ → ℕ) where
  -- The `n` bytes of the stream from `o` on.
  unfoldable pub bytes_from : ℕ → ℕ → List ℕ
  bytes_from o zero = []
  bytes_from o (suc n) = stream o ∷ bytes_from (o + 1) n

  length-bytes_from : (o n : ℕ) → length (bytes_from o n) ≡ n
  unfolding bytes_from
  length-bytes_from o zero = refl
  length-bytes_from o (suc n) = ap suc (length-bytes_from (o + 1) n)

  bytes_from-append : (o k n : ℕ) → bytes_from o k ++ bytes_from (o + k) n ≡ bytes_from o (k + n)
  unfolding bytes_from
  bytes_from-append o zero n = ground arith
  bytes_from-append o (suc k) n =
      rw (suc-add k n) (rw (next_offset o k) (ap (◌∷◌ (stream o)) (bytes_from-append (o + 1) k n)))

  -- What a receiver expects next after some pieces: only the piece at the expected offset counts.
  pub expected : ℕ → List Piece → ℕ
  expected k [] = k
  expected k (p ∷ ps) = expected (if p.offset == k then k + p.count else k) ps

  module _ (d : Dpdk) (base total : ℕ) where
    -- The connection has received the first `k` bytes of the stream.
    pub record HasReceived (t : MicroTcp) (k : ℕ) : Type 0 where
      pub is_established : t.state ≡ established
      pub prefix_received : t.rx_buffer ≡ bytes_from 0 k
      pub in_step : t.rcv_nxt ≡ base + k
      pub within : k ≤ total

    -- A segment of a stream of `total` bytes whose first sequence number is `base`.
    pub record IsPiece (p : Piece) : Type 0 where
      pub numbered : p.header.received_seq ≡ base + p.offset
      pub part : p.offset + p.count ≤ total
      pub no_fin : has_flag p.header.tcp_flags fin_flag ≡ false

    pub receive : MicroTcp → List Piece → MicroTcp
    receive t [] = t
    receive t (p ∷ ps) = receive (on_established d t p.header (bytes_from p.offset p.count)).0 ps

    received_data :
        (t : MicroTcp) (k : ℕ) (p : Piece)
        → base + total < 2 ^ 32
        → total ≤ max_rx_buffer_size
        → HasReceived t k
        → IsPiece p
        → HasReceived
            (on_data d t p.header (bytes_from p.offset p.count)).0
            (if p.offset == k then k + p.count else k)
    unfolding on_data accept_data
    received_data t k p fits small v w = ground (
      arith,
      length-bytes_from p.offset p.count,
      length-bytes_from 0 k,
      bytes_from-append 0 k p.count,
      reply_ack-keeps d t,
      reply_ack-keeps d (accept_data t (bytes_from p.offset p.count)),
    )

    on_fin-none :
        (t : MicroTcp) (s : Segment) → has_flag s.tcp_flags fin_flag ≡ false → (on_fin d t s).0 ≡ t
    unfolding on_fin
    on_fin-none t s h = rw (h, on_fin)

    on_ack-HasReceived :
        (t : MicroTcp) (s : Segment) (k : ℕ) → HasReceived t k → HasReceived (on_ack t s) k
    unfolding on_ack
    on_ack-HasReceived t s k v = ground arith

    -- Whatever pieces of a stream of at most 10 MiB and without a wrap of the sequence number, none
    -- of them with a FIN, arrive at an established connection, in whatever order and however often,
    -- the receive buffer holds exactly the bytes of the stream up to the piece expected next, and
    -- the next sequence number is that of the first missing byte.
    pub receive-HasReceived :
        (t : MicroTcp) (k : ℕ) (ps : List Piece)
        → base + total < 2 ^ 32
        → total ≤ max_rx_buffer_size
        → HasReceived t k
        → All IsPiece ps
        → HasReceived (receive t ps) (expected k ps)
    unfolding receive expected
    receive-HasReceived t k [] fits small v a = v
    receive-HasReceived t k (p ∷ ps) fits small v (w, a) =
        receive-HasReceived (on_established d t p.header (bytes_from p.offset p.count)).0
          (if p.offset == k then k + p.count else k) ps fits small arrived a
      where
        arrived :
            HasReceived
              (on_established d t p.header (bytes_from p.offset p.count)).0
              (if p.offset == k then k + p.count else k)
        arrived =
            unfold on_established in
            rw
              (on_fin-none (on_ack (on_data d t p.header (bytes_from p.offset p.count)).0 p.header)
                p.header w.no_fin)
              (on_ack-HasReceived _ p.header _ (received_data t k p fits small v w))
