-- ===== src/Latency.antt =====
-- `LatencyHistogram` of include/perf_counters.h and src/perf_counters.cpp. The buckets are a function
-- of the index. The conversion of cycles to nanoseconds is the processor's; a percentile is asked
-- for by its rank, which the code computes in floating point from a fraction and the count.
pub mod Buckets
pub mod Percentile
pub mod Rows
mod Examples
use fast_break.Base.{
  ℕ, zero, suc, ◌+◌, ◌-◌, ◌*◌, ◌/◌, ◌%◌, ◌^◌, Bool, true, false, ltb, leb, ◌==◌, if◌then◌else◌, u64,
  sub64, List, [], ◌∷◌, map, replicate, length, Option, none, some,
}

abbrev pub num_buckets : ℕ
num_buckets = 3701

unfoldable pub ns_to_bucket : ℕ → ℕ
ns_to_bucket ns =
    if ltb ns 1000
    then ns
    else if ltb ns 10000
    then 1000 + (ns - 1000) / 10
    else if ltb ns 100000
    then 1900 + (ns - 10000) / 100
    else if ltb ns 1000000
    then 2800 + (ns - 100000) / 1000
    else 3700

unfoldable pub bucket_lo_ns : ℕ → ℕ
bucket_lo_ns i =
    if ltb i 1000
    then i
    else if ltb i 1900
    then 1000 + (i - 1000) * 10
    else if ltb i 2800
    then 10000 + (i - 1900) * 100
    else if ltb i 3700
    then 100000 + (i - 2800) * 1000
    else 1000000

unfoldable pub bucket_step_ns : ℕ → ℕ
bucket_step_ns i =
    if ltb i 1000
    then 1
    else if ltb i 1900
    then 10
    else if ltb i 2800
    then 100
    else if ltb i 3700
    then 1000
    else 0

pub record LatencyHistogram : Type 0 where
  pub buckets : ℕ → ℕ
  pub count : ℕ
  pub sum_ns : ℕ
  pub max_ns : ℕ

unfoldable pub new : LatencyHistogram
new = record { buckets = λ _. 0; count = 0; sum_ns = 0; max_ns = 0 }

-- `record` of the class, for a sample of `end_tsc - start_tsc` cycles.
unfoldable pub record_sample : (ℕ → ℕ) → ℕ → ℕ → LatencyHistogram → LatencyHistogram
record_sample cycles_to_ns start_tsc end_tsc h =
    if leb end_tsc start_tsc
    then h
    else (let ns = u64 (cycles_to_ns (end_tsc - start_tsc)) in
        let k = ns_to_bucket ns in
        record {
          buckets = λ i. if i == k then u64 (h.buckets k + 1) else h.buckets i;
          count = u64 (h.count + 1);
          sum_ns = u64 (h.sum_ns + ns);
          max_ns = if ltb h.max_ns ns then ns else h.max_ns;
        })

-- The loop of `percentile_ns` from the bucket `i` on, with `left` buckets to go.
unfoldable pub find_rank : ℕ → LatencyHistogram → ℕ → ℕ → ℕ → ℕ
find_rank target h cum i zero = h.max_ns
find_rank target h cum i (suc left) =
    let cum' = u64 (cum + h.buckets i) in
    let rest = find_rank target h cum' (i + 1) left in
    if leb (u64 (target + 1)) cum' then bucket_lo_ns i + bucket_step_ns i / 2 else rest

unfoldable pub percentile_ns : ℕ → LatencyHistogram → ℕ
percentile_ns target h = if h.count == 0 then 0 else find_rank target h 0 0 num_buckets

-- The rows that `print` draws, each for the buckets that begin below its edge and in no row before.
abbrev pub edges : List ℕ
edges =
    100 ∷ 250 ∷ 500 ∷ 1_000 ∷ 2_500 ∷ 5_000 ∷ 10_000 ∷ 25_000 ∷ 50_000 ∷ 100_000 ∷ 250_000 ∷ 500_000
    ∷ 1_000_000 ∷ 18_446_744_073_709_551_615 ∷ []

-- The inner loop: the first row whose edge is above `lo` gets the samples.
unfoldable pub add_to_row : ℕ → ℕ → List ℕ → List ℕ → List ℕ
add_to_row lo samples [] rows = rows
add_to_row lo samples (edge ∷ es) [] = []
add_to_row lo samples (edge ∷ es) (row ∷ rows) =
    let rest = add_to_row lo samples es rows in
    if ltb lo edge then u64 (row + samples) ∷ rows else row ∷ rest

-- The outer loop, over the buckets below `i`.
unfoldable pub fill_rows : (ℕ → ℕ) → ℕ → List ℕ
fill_rows buckets zero = replicate (length edges) 0
fill_rows buckets (suc i) =
    let rows = fill_rows buckets i in
    if buckets i == 0 then rows else add_to_row (bucket_lo_ns i) (buckets i) edges rows

unfoldable pub row_max : ℕ → List ℕ → ℕ
row_max rmax [] = rmax
row_max rmax (row ∷ rows) = row_max (if ltb rmax row then row else rmax) rows

unfoldable pub bars : ℕ → ℕ → ℕ
bars rmax row = u64 (row * 40) / rmax

-- What `print` writes: the percentiles of the given ranks, the largest and the mean sample, and
-- each row with the length of its bar. With no samples there is nothing of this.
pub record Printed : Type 0 where
  pub samples : ℕ
  pub percentiles : List ℕ
  pub max_ns : ℕ
  pub mean_ns : ℕ
  pub rows : List (ℕ × ℕ)

unfoldable pub print : List ℕ → LatencyHistogram → Option Printed
print ranks h =
    let rows = fill_rows h.buckets num_buckets in
    if h.count == 0
    then none
    else some (record {
      samples = h.count;
      percentiles = map (λ target. percentile_ns target h) ranks;
      max_ns = h.max_ns;
      mean_ns = h.sum_ns / h.count;
      rows = map (λ row. (row, bars (row_max 1 rows) row)) rows;
    })
