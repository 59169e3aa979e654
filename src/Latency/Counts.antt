-- ===== src/Latency/Counts.antt =====
-- The counts of the histogram, and the bucket of a percentile.
use dpdk_cex_source.Base.{
  ℕ, zero, suc, ◌+◌, ◌^◌, ◌≤◌, ◌<◌, ◌≡◌, refl, ap, ◌∙◌, true, false, leb, ◌==◌, List, [], ◌∷◌,
  length, some, arith, inl, inr, Bool-cases, leb→le,
}
use dpdk_cex_source.Base.Bytes.{u64}
use dpdk_cex_source.Latency.{
  LatencyHistogram, new, CInt, negative, nonnegative, clamped, raw_bucket, bucket_idx, bump,
  record_latency, scan, percentile_bucket,
}

-- The counts of the `n` buckets from `i` on.
unfoldable pub sum : (ℕ → ℕ) → ℕ → ℕ → ℕ
sum f i zero = 0
sum f i (suc n) = f i + sum f (i + 1) n

sum-outside : (f : ℕ → ℕ) (j i n : ℕ) → j < i → sum (bump f j) i n ≡ sum f i n
unfolding sum
sum-outside f j i zero h = refl
sum-outside f j i (suc n) h = ground (arith, sum-outside f j (i + 1) n (omega arith))

sum-bump :
    (f : ℕ → ℕ) (j i n : ℕ)
    → i ≤ j
    → j < i + n
    → sum f i n + 1 < 2 ^ 64
    → sum (bump f j) i n ≡ sum f i n + 1
unfolding sum
sum-bump f j i zero a b c = ground arith
sum-bump f j i (suc n) a b c = elim (Bool-cases (i == j)) [
  | inl e ↦ ground (arith, sum-outside f j (i + 1) n)
  | inr e ↦ ground (arith, sum-bump f j (i + 1) n)
]

clamped-bound : (i : CInt) → clamped i < 256
clamped-bound negative = omega arith
clamped-bound (nonnegative v) = ground arith

bucket_idx-bound : (hz cycles : ℕ) → bucket_idx hz cycles < 256
unfolding bucket_idx
bucket_idx-bound hz cycles = clamped-bound (raw_bucket hz cycles)

-- The histogram has counted `n` latencies.
abbrev pub HasCounted : LatencyHistogram → ℕ → Type 0
HasCounted h n = (sum h.buckets 0 256 ≡ n) × (h.total_count ≡ n)

unfoldable pub record_all : ℕ → LatencyHistogram → List ℕ → LatencyHistogram
record_all hz h [] = h
record_all hz h (c ∷ cs) = record_all hz (record_latency hz h c) cs

step :
    (hz : ℕ) (h : LatencyHistogram) (c n : ℕ)
    → n + 1 < 2 ^ 64
    → HasCounted h n
    → HasCounted (record_latency hz h c) (n + 1)
unfolding record_latency
step hz h c n w (a, b) = (
  sum-bump h.buckets (bucket_idx hz c) 0 256 (omega arith) (bucket_idx-bound hz c)
        (omega (arith, a))
      ∙ ap (λ k. k + 1) a,
  ground arith,
)

sum_zero : (i n : ℕ) → sum (λ k. 0) i n ≡ 0
unfolding sum
sum_zero i zero = refl
sum_zero i (suc n) = omega (arith, sum_zero (i + 1) n)

record_all-HasCounted :
    (hz : ℕ) (h : LatencyHistogram) (cs : List ℕ) (n : ℕ)
    → n + length cs < 2 ^ 64
    → HasCounted h n
    → HasCounted (record_all hz h cs) (n + length cs)
unfolding record_all
record_all-HasCounted hz h [] n w v = (v.0 ∙ omega arith, v.1 ∙ omega arith)
record_all-HasCounted hz h (c ∷ cs) n w v =
    let (a, b) =
      record_all-HasCounted hz (record_latency hz h c) cs (n + 1) (omega arith)
        (step hz h c n (omega arith) v) in
    (a ∙ omega arith, b ∙ omega arith)

-- After any latencies, fewer than 2^64 of them, the total is their number and so is the sum of the
-- buckets: every latency is counted in one bucket of the 256, whatever its size.
pub record_all-new :
    (hz : ℕ) (cs : List ℕ)
    → length cs < 2 ^ 64
    → (sum (record_all hz new cs).buckets 0 256 ≡ length cs)
      × ((record_all hz new cs).total_count ≡ length cs)
unfolding new
record_all-new hz cs w =
    let (a, b) = record_all-HasCounted hz new cs 0 (omega arith) (sum_zero 0 256, refl) in
    (a ∙ omega arith, b ∙ omega arith)

plus_zero : (i : ℕ) → i + 0 ≡ i
plus_zero i = omega arith

plus_suc : (i n : ℕ) → i + suc n ≡ suc (i + n)
plus_suc i n = omega arith

one_more : (i n : ℕ) → i + 1 + n ≡ i + suc n
one_more i n = omega arith

sum_last : (f : ℕ → ℕ) (i n : ℕ) → sum f i (suc n) ≡ sum f i n + f (i + n)
unfolding sum
sum_last f i zero = omega (arith, ap f (plus_zero i))
sum_last f i (suc n) = omega (arith, sum_last f (i + 1) n, ap f (one_more i n))

as_suc : (i : ℕ) → i + 1 ≡ suc i
as_suc i = omega arith

zero_plus : (i : ℕ) → 0 + i ≡ i
zero_plus i = omega arith

sum_next : (f : ℕ → ℕ) (i : ℕ) → sum f 0 (i + 1) ≡ sum f 0 i + f i
sum_next f i = omega (arith, ap (sum f 0) (as_suc i), sum_last f 0 i, ap f (zero_plus i))

sum_mono : (f : ℕ → ℕ) (i n : ℕ) → sum f 0 i ≤ sum f 0 (i + n)
sum_mono f i zero = omega (arith, ap (sum f 0) (plus_zero i))
sum_mono f i (suc n) = omega (
  arith,
  sum_mono f i n,
  sum_next f (i + n),
  ap (sum f 0) (plus_suc i n),
  ap (sum f 0) (as_suc (i + n)),
)

counted : (f : ℕ → ℕ) (i : ℕ) → sum f 0 (i + 1) < 2 ^ 64 → u64 (sum f 0 i + f i) ≡ sum f 0 (i + 1)
counted f i w = omega (arith, sum_next f i)

leb-false→lt : (a b : ℕ) → leb a b ≡ false → b < a
leb-false→lt a b h = ground arith

scan_stops :
    (f : ℕ → ℕ) (threshold i current next n : ℕ)
    → u64 (current + f i) ≡ next
    → leb threshold next ≡ true
    → scan f threshold i current (suc n) ≡ some i
unfolding scan
scan_stops f threshold i current next n e h = rw (e, h) refl

scan_goes_on :
    (f : ℕ → ℕ) (threshold i current next n : ℕ)
    → u64 (current + f i) ≡ next
    → leb threshold next ≡ false
    → scan f threshold i current (suc n) ≡ scan f threshold (i + 1) next n
unfolding scan
scan_goes_on f threshold i current next n e h = rw (e, h) refl

scan-finds :
    (f : ℕ → ℕ) (threshold i n : ℕ)
    → sum f 0 i < threshold
    → threshold ≤ sum f 0 (i + n)
    → sum f 0 (i + n) < 2 ^ 64
    → (j : ℕ) × (scan f threshold i (sum f 0 i) n ≡ some j)
      × (j < i + n)
      × (sum f 0 j < threshold)
      × (threshold ≤ sum f 0 (j + 1))
scan-finds f threshold i zero a b c = absurd (omega (arith, ap (sum f 0) (plus_zero i)))
scan-finds f threshold i (suc n) a b c =
    let same = ap (sum f 0) (one_more i n) in
    let fits = sum_mono f (i + 1) n in
    let count = counted f i (omega (arith, same, fits)) in
    elim (Bool-cases (leb threshold (sum f 0 (i + 1)))) [
      | inl e ↦ (
        i,
        scan_stops f threshold i (sum f 0 i) (sum f 0 (i + 1)) n count e,
        omega arith,
        a,
        leb→le threshold (sum f 0 (i + 1)) e,
      )
      | inr e ↦
          let (j, found, inside, before, after) =
            scan-finds f threshold (i + 1) n (leb-false→lt threshold (sum f 0 (i + 1)) e)
              (omega (arith, same)) (omega (arith, same)) in
          (
            j,
            scan_goes_on f threshold i (sum f 0 i) (sum f 0 (i + 1)) n count e ∙ found,
            omega (arith, one_more i n),
            before,
            after,
          )
    ]

-- The bucket of a percentile is found whenever the threshold is positive and no larger than the sum of
-- the buckets: it is the one in which the running count first reaches the threshold.
pub percentile_bucket-finds :
    (h : LatencyHistogram) (threshold : ℕ)
    → 0 < threshold
    → threshold ≤ sum h.buckets 0 256
    → sum h.buckets 0 256 < 2 ^ 64
    → (j : ℕ) × (percentile_bucket h threshold ≡ some j)
      × (j < 256)
      × (sum h.buckets 0 j < threshold)
      × (threshold ≤ sum h.buckets 0 (j + 1))
unfolding percentile_bucket sum
percentile_bucket-finds h threshold a b c = scan-finds h.buckets threshold 0 256 a b c
