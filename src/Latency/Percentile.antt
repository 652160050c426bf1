-- ===== src/Latency/Percentile.antt =====
-- Samples and ranks.
use fast_break.Base.{
  ℕ, zero, suc, ◌+◌, ◌-◌, ◌/◌, ◌^◌, ◌≤◌, ◌<◌, ◌≡◌, inl, inr, refl, ap, ◌∙◌, arith, ltb, leb, ◌==◌,
  if◌then◌else◌, u64, Bool-cases, ne→==, ==_refl,
}
use native.Mathlib.Decide.{dec_lt}
use fast_break.Latency.{
  LatencyHistogram, new, record_sample, find_rank, percentile_ns, ns_to_bucket, bucket_lo_ns,
  bucket_step_ns, num_buckets,
}
use fast_break.Latency.Buckets.{ns_to_bucket_lem}

-- The samples of the buckets below `n`.
unfoldable pub below : (ℕ → ℕ) → ℕ → ℕ
below f zero = 0
below f (suc n) = below f n + f n

-- The count is the number of samples, and fits its word.
pub record IsHistogram (h : LatencyHistogram) : Type 0 where
  pub counted : below h.buckets num_buckets ≡ h.count
  pub fits : h.count < 2 ^ 64

below-le : (f : ℕ → ℕ) (i n : ℕ) → i < n → below f i + f i ≤ below f n
unfolding below
below-le f i zero h = absurd (omega arith)
below-le f i (suc n) h = elim (dec_lt i n) [
  | yes lt ↦ omega (arith, below-le f i n lt)
  | no ge ↦ let e : i ≡ n = omega arith in rw e (omega arith)
]

below-added :
    (f g : ℕ → ℕ) (k n : ℕ)
    → ((i : ℕ) → g i ≡ (if i == k then f k + 1 else f i))
    → below g n ≡ (if ltb k n then below f n + 1 else below f n)
unfolding below
below-added f g k zero e = ground arith
below-added f g k (suc n) e = ground (arith, below-added f g k n e, e n, ap f {x = n} {y = k})

below-count :
    (h : LatencyHistogram) (i : ℕ)
    → IsHistogram h
    → i < num_buckets
    → below h.buckets i + h.buckets i ≤ h.count
below-count h i v lt = omega (arith, v.counted, below-le h.buckets i num_buckets lt)

all_counted :
    (target : ℕ) (h : LatencyHistogram) (i : ℕ)
    → IsHistogram h
    → target < h.count
    → i ≡ num_buckets
    → target < below h.buckets i
all_counted target h i v lt e = rw (e, v.counted) lt

-- The loop stops in the bucket where the samples counted so far pass the rank.
find_rank_lem :
    (target : ℕ) (h : LatencyHistogram) (left i : ℕ)
    → IsHistogram h
    → target < h.count
    → i + left ≡ num_buckets
    → below h.buckets i ≤ target
    → (k : ℕ) × (k < num_buckets)
      × (below h.buckets k ≤ target)
      × (target < below h.buckets (suc k))
      × (find_rank target h (below h.buckets i) i left ≡ bucket_lo_ns k + bucket_step_ns k / 2)
unfolding find_rank below
find_rank_lem target h zero i v lt e low =
    let over = all_counted target h i v lt (omega arith) in absurd (omega arith)
find_rank_lem target h (suc left) i v lt e low =
    let bound = below-count h i v (omega arith) in
    let cum : u64 (below h.buckets i + h.buckets i) ≡ below h.buckets (suc i) =
      omega (arith, v.fits) in
    let rank : u64 (target + 1) ≡ target + 1 = omega (arith, v.fits) in
    let next : i + 1 ≡ suc i = omega arith in
    elim (Bool-cases (leb (target + 1) (below h.buckets (suc i)))) [
      | inl found ↦ rw (cum, rank, found) (i, omega arith, low, ground arith, refl)
      | inr more ↦
          rw (cum, rank, more, next)
            (find_rank_lem target h left (suc i) v lt (omega arith) (ground arith))
    ]

-- If the buckets of a histogram add up to its count, `percentile_ns` answers each rank below the
-- count with the middle of the bucket that holds the sample of that rank: at most `target`
-- samples lie in lower buckets, and more than `target` in those up to it. The fallback to the
-- largest sample is never used.
pub percentile_ns_lem :
    (target : ℕ) (h : LatencyHistogram)
    → IsHistogram h
    → target < h.count
    → (k : ℕ) × (k < num_buckets)
      × (below h.buckets k ≤ target)
      × (target < below h.buckets (suc k))
      × (percentile_ns target h ≡ bucket_lo_ns k + bucket_step_ns k / 2)
unfolding percentile_ns below
percentile_ns_lem target h v lt =
    rw (ne→== h.count 0 (omega arith))
      (find_rank_lem target h num_buckets 0 v lt (omega arith) (omega arith))

below-one :
    (f : ℕ → ℕ) (k n c : ℕ)
    → k < n
    → below f n ≡ c
    → c + 1 < 2 ^ 64
    → below (λ i. if i == k then u64 (f k + 1) else f i) n ≡ c + 1
below-one f k n c lt e fits =
    let one = below-le f k n lt in
    let small : u64 (f k + 1) ≡ f k + 1 = omega arith in
    rw small (below-added f (λ i. if i == k then f k + 1 else f i) k n (λ i. refl) ∙ ground arith)

-- If the buckets add up to the count and the next count fits a word, they still do after a
-- sample. A sample with no positive number of cycles is ignored; any other is counted once, in
-- the bucket of its time, and the maximum is at least the old one and the sample.
pub record_sample_lem :
    (cycles_to_ns : ℕ → ℕ) (start_tsc end_tsc : ℕ) (h : LatencyHistogram)
    → IsHistogram h
    → h.count + 1 < 2 ^ 64
    → let h' = record_sample cycles_to_ns start_tsc end_tsc h in
      let ns = u64 (cycles_to_ns (end_tsc - start_tsc)) in
      IsHistogram h'
      × (end_tsc ≤ start_tsc → h' ≡ h)
      × (start_tsc < end_tsc
          → (h'.count ≡ h.count + 1)
            × (h'.buckets (ns_to_bucket ns) ≡ u64 (h.buckets (ns_to_bucket ns) + 1))
            × (h.max_ns ≤ h'.max_ns)
            × (ns ≤ h'.max_ns))
unfolding record_sample
record_sample_lem cycles_to_ns start_tsc end_tsc h v room =
    let ns = u64 (cycles_to_ns (end_tsc - start_tsc)) in
    let k = ns_to_bucket ns in
    elim (Bool-cases (leb end_tsc start_tsc)) [
      | inl skip ↦ rw skip (v, λ _. refl, λ lt. absurd (ground arith))
      | inr taken ↦ rw taken (
        record {
          counted =
              below-one h.buckets k num_buckets h.count (ns_to_bucket_lem ns).0 v.counted room
              ∙ omega arith;
          fits = omega arith;
        },
        λ le. absurd (ground arith),
        λ lt. (omega arith, rw (==_refl k) refl, ground arith, ground arith),
      )
    ]

pub new-IsHistogram : IsHistogram new
unfolding new below
new-IsHistogram = record { counted = refl; fits = omega arith }
