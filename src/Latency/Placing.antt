-- ===== src/Latency/Placing.antt =====
-- The bucket in which LatencyHistogram::record of src/modules/telemetry/latency_histogram.h counts a
-- latency.
use native.Mathlib.Nat.{div-mul-le_self, lt-div-mul-add, div-lt_iff_lt-mul}
use dpdk_cex_source.Base.{
  ℕ, ◌+◌, ◌*◌, ◌/◌, ◌^◌, ◌≤◌, ◌<◌, ◌≡◌, ◌⊎◌, inl, inr, refl, Bool-cases, ltb, ◌==◌, if◌then◌else◌,
  arith, min,
}
use dpdk_cex_source.Base.Bytes.{u64}
use dpdk_cex_source.Latency.{LatencyHistogram, to_int, plus, clamped, bucket_idx, record_latency}

-- The whole units of `unit` in a time.
abbrev pub IsUnits : ℕ → ℕ → ℕ → Type 0
IsUnits unit time n = (n * unit ≤ time) × (time < n * unit + unit)

-- The bucket of a latency, with `hz` cycles in a second: its tenths of a microsecond below one
-- microsecond; 10 and its microseconds below 100; then 110 and its tens of microseconds, at most 255.
abbrev pub IsBucket : ℕ → ℕ → ℕ → Type 0
IsBucket hz cycles i =
    ((cycles * 1000000 < hz) × IsUnits hz (cycles * 10000000) i)
    ⊎ (((hz ≤ cycles * 1000000)
          × (cycles * 1000000 < 100 * hz)
          × ((us : ℕ) × IsUnits hz (cycles * 1000000) us × (i ≡ 10 + us)))
        ⊎ ((100 * hz ≤ cycles * 1000000)
            × ((tens : ℕ) × IsUnits (hz * 10) (cycles * 1000000) tens
                × (i ≡ min 255 (110 + tens)))))

units : (unit time : ℕ) → 0 < unit → IsUnits unit time (time / unit)
units unit time h = (div-mul-le_self time unit, lt-div-mul-add h)

clamped-plus :
    (k v : ℕ) → v < 2 ^ 31 → k + v < 2 ^ 31 → clamped (plus k (to_int v)) ≡ min 255 (k + v)
clamped-plus k v h g = ground arith

clamped-small : (v : ℕ) → v < 256 → clamped (to_int v) ≡ v
clamped-small v h = ground arith

below : (unit time k : ℕ) → 0 < unit → time < k * unit → time / unit < k
below unit time k h g = (div-lt_iff_lt-mul h).1 g

-- The condition says that the casts to int and the sums fit.
bucket_idx-IsBucket :
    (hz cycles : ℕ)
    → 0 < hz
    → cycles * 1000000 < 2147483538 * (hz * 10)
    → IsBucket hz cycles (bucket_idx hz cycles)
unfolding bucket_idx
bucket_idx-IsBucket hz cycles h fits = elim (Bool-cases (ltb (cycles * 1000000) hz)) [
  | inl small ↦
      (let tenths = below hz (cycles * 10000000) 10 h (ground (arith, small)) in
        rw (small, clamped-small (cycles * 10000000 / hz) (omega (arith, tenths)))
          (inl (ground (arith, small), units hz (cycles * 10000000) h)))
  | inr large ↦ elim (Bool-cases (ltb (cycles * 1000000) (100 * hz))) [
    | inl middle ↦
        (let us = below hz (cycles * 1000000) 100 h (ground (arith, middle)) in
          rw
            (
              large,
              middle,
              clamped-plus 10 (cycles * 1000000 / hz) (omega (arith, us)) (omega (arith, us)),
            )
            (inr (
              inl (
                ground (arith, large),
                ground (arith, middle),
                (cycles * 1000000 / hz, units hz (cycles * 1000000) h, omega (arith, us)),
              ))))
    | inr far ↦
        (let tens = below (hz * 10) (cycles * 1000000) 2147483538 (omega (arith, h)) fits in
          rw
            (
              large,
              far,
              clamped-plus 110 (cycles * 1000000 / (hz * 10)) (omega (arith, tens))
                  (omega (arith, tens)),
            )
            (inr (
              inr (
                ground (arith, far),
                (
                  cycles * 1000000 / (hz * 10),
                  units (hz * 10) (cycles * 1000000) (omega (arith, h)),
                  refl,
                ),
              ))))
  ]
]

-- Recording a latency adds one, in 64 bits, to the count of its bucket and to the total, and changes no
-- other count. The clock must run, and the latency be short enough for the casts to int: less than
-- 2147483538 times ten microseconds, about six hours.
pub record_latency-IsBucket :
    (hz : ℕ) (h : LatencyHistogram) (cycles : ℕ)
    → 0 < hz
    → cycles * 1000000 < 2147483538 * (hz * 10)
    → let h' = record_latency hz h cycles in
      (i : ℕ) × IsBucket hz cycles i
      × ((j : ℕ) → h'.buckets j ≡ (if j == i then u64 (h.buckets j + 1) else h.buckets j))
      × (h'.total_count ≡ u64 (h.total_count + 1))
unfolding record_latency
record_latency-IsBucket hz h cycles running fits =
    (bucket_idx hz cycles, bucket_idx-IsBucket hz cycles running fits, (λ j. refl), refl)
