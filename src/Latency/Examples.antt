-- ===== src/Latency/Examples.antt =====
-- Three samples, and the theorems of Latency at them.
use fast_break.Base.{
  [], ◌∷◌, map, take, get_or, some, ℕ, suc, ◌+◌, ◌-◌, ◌/◌, ◌^◌, ◌≤◌, ◌<◌, ◌≡◌, refl, arith, u64,
  ◌==◌, if◌then◌else◌,
}
use fast_break.Latency.{
  Printed, print, edges, LatencyHistogram, new, record_sample, find_rank, percentile_ns,
  ns_to_bucket, bucket_lo_ns, bucket_step_ns, num_buckets,
}
use fast_break.Latency.Buckets.{ns_to_bucket_mono}
use fast_break.Latency.Rows.{total, under, print_lem}
use fast_break.Latency.Percentile.{
  IsHistogram, below, new-IsHistogram, record_sample_lem, percentile_ns_lem,
}

ns_to_bucket_mono_example : ns_to_bucket 999 ≤ ns_to_bucket 1000
ns_to_bucket_mono_example = ns_to_bucket_mono 999 1000 (omega arith)

-- The processor runs at two cycles a nanosecond.
abbrev to_ns : ℕ → ℕ
to_ns c = c / 2

abbrev one_sample : LatencyHistogram
one_sample = record_sample to_ns 100 300 new

new-room : new.count + 1 < 2 ^ 64
unfolding new
new-room = omega arith

record_sample_lem_example :
    let ns = u64 (to_ns (300 - 100)) in
    IsHistogram one_sample
    × (300 ≤ 100 → one_sample ≡ new)
    × (100 < 300
        → (one_sample.count ≡ new.count + 1)
          × (one_sample.buckets (ns_to_bucket ns) ≡ u64 (new.buckets (ns_to_bucket ns) + 1))
          × (new.max_ns ≤ one_sample.max_ns)
          × (ns ≤ one_sample.max_ns))
record_sample_lem_example = record_sample_lem to_ns 100 300 new new-IsHistogram new-room

-- One time of 5 ns, and two of 20 ns.
abbrev three : LatencyHistogram
three = record {
  buckets = λ i. if i == 5 then 1 else if i == 20 then 2 else 0;
  count = 3;
  sum_ns = 45;
  max_ns = 20;
}

three-IsHistogram : IsHistogram three
unfolding below
three-IsHistogram = record { counted = refl; fits = omega arith }

middle : percentile_ns 1 three ≡ 20
unfolding percentile_ns find_rank bucket_lo_ns bucket_step_ns
middle = refl

percentile_ns_lem_example :
    (k : ℕ) × (k < num_buckets)
    × (below three.buckets k ≤ 1)
    × (1 < below three.buckets (suc k))
    × (percentile_ns 1 three ≡ bucket_lo_ns k + bucket_step_ns k / 2)
percentile_ns_lem_example = percentile_ns_lem 1 three three-IsHistogram (omega arith)

print_lem_example :
    (p : Printed) × (print (1 ∷ 2 ∷ []) three ≡ some p)
    × ((r : ℕ)
        → r < 14
        → total (take (suc r) (map (λ (x : ℕ × ℕ). x.0) p.rows))
          ≡ below (under (get_or edges r 0) three.buckets) num_buckets)
    × (total (map (λ (x : ℕ × ℕ). x.0) p.rows) ≡ three.count)
    × ((i : ℕ) → (get_or p.rows i (0, 0)).1 ≤ 40)
print_lem_example = print_lem (1 ∷ 2 ∷ []) three three-IsHistogram (omega arith)
