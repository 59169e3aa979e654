-- ===== src/Latency/Tests.antt =====
-- Runs of the histogram at a clock of 2 GHz.
use dpdk_cex_source.Base.{
  ◌==◌, ◌+◌, if◌then◌else◌, ℕ, ◌≤◌, ◌<◌, ◌^◌, ◌≡◌, List, [], ◌∷◌, length, arith,
}
use dpdk_cex_source.Latency.{LatencyHistogram, new, record_latency}
use dpdk_cex_source.Latency.Placing.{IsBucket, record_latency-IsBucket}
use dpdk_cex_source.Base.Bytes.{u64}
use dpdk_cex_source.Latency.Counts.{sum, record_all, record_all-new}

abbrev hz : ℕ
hz = 2000000000

abbrev latencies : List ℕ
latencies = 1000 ∷ 40000 ∷ 9000000000 ∷ []

measured_total :
    (sum (record_all hz new latencies).buckets 0 256 ≡ length latencies)
    × ((record_all hz new latencies).total_count ≡ length latencies)
measured_total = record_all-new hz latencies (omega arith)

abbrev measured : LatencyHistogram
measured = record_all hz new latencies

positive : 2 ≤ sum measured.buckets 0 256
positive = omega (arith, measured_total.0)

bounded : sum measured.buckets 0 256 < 2 ^ 64
bounded = omega (arith, measured_total.0)

-- 20 microseconds.
record_latency-IsBucket_example :
    let h' = record_latency hz measured 40000 in
    (i : ℕ) × IsBucket hz 40000 i
    × ((j : ℕ)
        → h'.buckets j ≡ (if j == i then u64 (measured.buckets j + 1) else measured.buckets j))
    × (h'.total_count ≡ u64 (measured.total_count + 1))
record_latency-IsBucket_example =
    record_latency-IsBucket hz measured 40000 (omega arith) (omega arith)
