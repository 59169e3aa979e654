-- ===== src/Latency.antt =====
-- src/modules/telemetry/latency_histogram.h: the latency histogram. The doubles of the source are
-- computed exactly here, a latency of `cycles` being cycles * 10^6 / hz microseconds, and are cut
-- to integers as the casts do. A value too large for `int`, which C++ leaves undefined, is taken to
-- become negative, as on x86.
pub mod Counts
pub mod Placing
mod Tests
use dpdk_cex_source.Base.{
  ℕ, zero, suc, ◌+◌, ◌*◌, ◌/◌, ◌^◌, Bool, true, false, if◌then◌else◌, ltb, leb, ◌==◌, List, [], ◌∷◌,
  Option, none, some, min,
}
use dpdk_cex_source.Base.Bytes.{u64}

abbrev pub num_buckets : ℕ
num_buckets = 256

pub record LatencyHistogram : Type 0 where
  pub buckets : ℕ → ℕ
  pub total_count : ℕ

unfoldable pub new : LatencyHistogram
new = record { buckets = λ i. 0; total_count = 0 }

-- An `int`; nothing more is said of a negative one.
pub data CInt : Type 0 where
  negative : CInt
  nonnegative : ℕ → CInt

-- `(int)` of a value that is not negative, and a sum with a literal.
abbrev pub to_int : ℕ → CInt
to_int v = if ltb v (2 ^ 31) then nonnegative v else negative

abbrev pub plus : ℕ → CInt → CInt
plus k negative = negative
plus k (nonnegative v) = to_int (k + v)

-- The index of `record` before the clamps; `hz` is rte_get_timer_hz().
abbrev pub raw_bucket : ℕ → ℕ → CInt
raw_bucket hz cycles =
    if ltb (cycles * 1000000) hz
    then to_int (cycles * 10000000 / hz)
    else if ltb (cycles * 1000000) (100 * hz)
    then plus 10 (to_int (cycles * 1000000 / hz))
    else plus 110 (to_int (cycles * 1000000 / (hz * 10)))

-- The two clamps.
abbrev pub clamped : CInt → ℕ
clamped negative = 0
clamped (nonnegative v) = if leb num_buckets v then 255 else v

unfoldable pub bucket_idx : ℕ → ℕ → ℕ
bucket_idx hz cycles = clamped (raw_bucket hz cycles)

abbrev pub bump : (ℕ → ℕ) → ℕ → ℕ → ℕ
bump f j i = if i == j then u64 (f i + 1) else f i

unfoldable pub record_latency : ℕ → LatencyHistogram → ℕ → LatencyHistogram
unfolding bucket_idx
record_latency hz h cycles = record {
  buckets = bump h.buckets (bucket_idx hz cycles);
  total_count = u64 (h.total_count + 1);
}

-- The scan of print_stats over `n` buckets from `i` on, for one threshold; `none` stands for -1.
unfoldable pub scan : (ℕ → ℕ) → ℕ → ℕ → ℕ → ℕ → Option ℕ
scan f threshold i current zero = none
scan f threshold i current (suc n) =
    let count = u64 (current + f i) in
    let rest = scan f threshold (i + 1) count n in if leb threshold count then some i else rest

unfoldable pub percentile_bucket : LatencyHistogram → ℕ → Option ℕ
unfolding scan
percentile_bucket h threshold = scan h.buckets threshold 0 0 num_buckets
