-- ===== src/Latency/Buckets.antt =====
-- The buckets cut the line of the nanoseconds.
use fast_break.Base.{ℕ, ◌+◌, ◌≤◌, ◌<◌, ◌≡◌, arith}
use fast_break.Latency.{ns_to_bucket, bucket_lo_ns, bucket_step_ns, num_buckets}

-- Every time has a bucket of the array, at or above whose lower end it lies; below a millisecond
-- it is less than the bucket's width above that end, and from there on it is in the last bucket.
pub ns_to_bucket_lem :
    (ns : ℕ)
    → let i = ns_to_bucket ns in
      (i < num_buckets)
      × (bucket_lo_ns i ≤ ns)
      × (ns < 1000000 → ns < bucket_lo_ns i + bucket_step_ns i)
      × (1000000 ≤ ns → i ≡ 3700)
unfolding ns_to_bucket bucket_lo_ns bucket_step_ns
ns_to_bucket_lem ns = ground arith

-- Each bucket but the last ends where the next begins, and a time within it has its index.
pub bucket_lo_ns_lem :
    (i ns : ℕ)
    → i < 3700
    → bucket_lo_ns i ≤ ns
    → ns < bucket_lo_ns i + bucket_step_ns i
    → (bucket_lo_ns (i + 1) ≡ bucket_lo_ns i + bucket_step_ns i) × (ns_to_bucket ns ≡ i)
unfolding ns_to_bucket bucket_lo_ns bucket_step_ns
bucket_lo_ns_lem i ns lt lo hi = ground arith

-- A longer time never has a lower bucket.
pub ns_to_bucket_mono : (a b : ℕ) → a ≤ b → ns_to_bucket a ≤ ns_to_bucket b
unfolding ns_to_bucket
ns_to_bucket_mono a b h = ground arith
