-- ===== src/Worker/Drops.antt =====
-- `record_drop` against the sums that `print_stats` prints.
use fast_break.Base.{
  ℕ, ◌+◌, ◌^◌, ◌<◌, ◌≡◌, inl, inr, refl, Bool, false, ◌||◌, [], ◌∷◌, arith, u64, ◌==◌, Bool-cases,
  if◌then◌else◌,
}
use fast_break.Worker.{WorkerStats, Stats, record_drop, aggregate}

-- Some worker has the queue.
abbrev pub polled : ℕ → Stats → Bool
polled q [] = false
polled q ((c, st) ∷ rest) = (c.queue_index == q) || polled q rest

-- The sums differ by `n` in the drops, and in nothing else.
pub record DropsMore (n : ℕ) (a b : WorkerStats) : Type 0 where
  pub processed : b.packets_processed ≡ a.packets_processed
  pub dropped : b.packets_dropped ≡ u64 (a.packets_dropped + n)
  pub spins : b.idle_spins ≡ a.idle_spins

aggregate-more :
    (n : ℕ) (stats : Stats) (a b : WorkerStats)
    → DropsMore n a b
    → DropsMore n (aggregate stats a) (aggregate stats b)
unfolding aggregate
aggregate-more n [] a b h = h
aggregate-more n ((c, st) ∷ rest) a b h = aggregate-more n rest _ _ (record {
  processed = omega (arith, h.processed);
  dropped = omega (arith, h.dropped);
  spins = omega (arith, h.spins);
})

-- If some worker has the queue, `record_drop` adds one to the sum of the drops; if none has, it
-- changes no sum.
pub aggregate-record_drop :
    (q : ℕ) (stats : Stats) (agg : WorkerStats)
    → agg.packets_dropped < 2 ^ 64
    → DropsMore
        (if polled q stats then 1 else 0)
        (aggregate stats agg)
        (aggregate (record_drop q stats) agg)
unfolding aggregate record_drop
aggregate-record_drop q [] agg lt = record {
  processed = refl;
  dropped = omega (arith, lt);
  spins = refl;
}
aggregate-record_drop q ((c, st) ∷ rest) agg lt = elim (Bool-cases (c.queue_index == q)) [
  | inl mine ↦
      rw (mine, record_drop)
        (aggregate-more 1 rest _ _
          (record { processed = refl; dropped = omega arith; spins = refl }))
  | inr other ↦ rw (other, record_drop) (aggregate-record_drop q rest _ (omega arith))
]
