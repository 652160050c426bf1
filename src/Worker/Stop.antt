-- ===== src/Worker/Stop.antt =====
-- When a worker's loop ends. It reads the flag only after every 1000th round.
use fast_break.Base.{
  ℕ, zero, suc, ◌+◌, ◌-◌, ◌*◌, ◌/◌, ◌%◌, ◌^◌, ◌≤◌, ◌<◌, ◌≡◌, inl, inr, refl, ap, ◌∙◌, Bool, true,
  false, some, Option-cases, arith, u64, ◌==◌, Bool-cases, leb, ◌&&◌,
}
use native.Mathlib.Decide.{dec_le}
use fast_break.Spsc.{pop}
use fast_break.Spsc.Window.{IsValid}
use fast_break.Rss.{queue_capacity}
use fast_break.Worker.{Worker, Shared, round, process, idle, worker_loop, stop_interval}
use fast_break.Worker.Rounds.{rounds, HasRun, rounds_lem}

round_counted : (w : Worker) → (round w).iters ≡ u64 (w.iters + 1)
unfolding round process idle
round_counted w = elim (Option-cases ((pop queue_capacity w.shared.queue).0)) [
  | inl e ↦ rw (e, round) refl
  | inr (b, e) ↦ rw (e, round) refl
]

module _ (others : ℕ → Shared → Shared) (stop : ℕ → Bool) where
  -- The worker after the round `i`.
  advance : ℕ → Worker → Worker
  advance i w = round (record w { shared = others i w.shared })

  ends_now : ℕ → Worker → Bool
  ends_now i w = ((advance i w).iters % stop_interval == 0) && stop i

  advance_counted : (i : ℕ) (w : Worker) → (advance i w).iters ≡ u64 (w.iters + 1)
  unfolding advance
  advance_counted i w = round_counted (record w { shared = others i w.shared })

  not_multiple :
      (i : ℕ) (w : Worker)
      → ends_now i w ≡ false
      → stop i ≡ true
      → 0 < (advance i w).iters % stop_interval
  unfolding ends_now
  not_multiple i w on asked = ground arith

  loop-stops :
      (i r : ℕ) (w : Worker)
      → ends_now i w ≡ true
      → worker_loop others stop i (suc r) w ≡ some (advance i w)
  unfolding worker_loop advance ends_now
  loop-stops i r w e = rw e

  loop-goes :
      (i r : ℕ) (w : Worker)
      → ends_now i w ≡ false
      → worker_loop others stop i (suc r) w ≡ worker_loop others stop (i + 1) r (advance i w)
  unfolding worker_loop advance ends_now
  loop-goes i r w e = rw e

  module _ (k : ℕ) (asked : (j : ℕ) → k ≤ j → stop j ≡ true) where
    loop_ends :
        (r i : ℕ) (w : Worker)
        → w.iters < 2 ^ 64
        → k ≤ i
        → stop_interval ≤ r + w.iters % stop_interval
        → (w' : Worker) × (worker_loop others stop i r w ≡ some w')
    loop_ends zero i w word past left = absurd (omega arith)
    loop_ends (suc r) i w word past left = elim (Bool-cases (ends_now i w)) [
      | inl now ↦ (advance i w, loop-stops i r w now)
      | inr on ↦
          let counted = advance_counted i w in
          let more : (advance i w).iters % stop_interval ≡ w.iters % stop_interval + 1 =
            omega (arith, not_multiple i w on (asked i past)) in
          let (w', e) =
            loop_ends r (i + 1) (advance i w) (omega arith) (omega arith) (omega arith) in
          (w', loop-goes i r w on ∙ e)
    ]

    -- Whatever the other threads do to the queue, the pool and the buffers: if the flag is
    -- set from the round `k` on, and the iteration counter is a word of 64 bits, then the
    -- loop ends at most 1000 rounds after the round `k`, the counter's wrap included.
    pub worker_loop_ends :
        (r i : ℕ) (w : Worker)
        → w.iters < 2 ^ 64
        → (k - i) + stop_interval ≤ r
        → (w' : Worker) × (worker_loop others stop i r w ≡ some w')
    worker_loop_ends zero i w word left = absurd (omega arith)
    worker_loop_ends (suc r) i w word left = elim (dec_le k i) [
      | yes past ↦ loop_ends (suc r) i w word past (omega arith)
      | no before ↦ elim (Bool-cases (ends_now i w)) [
        | inl now ↦ (advance i w, loop-stops i r w now)
        | inr on ↦
            let (w', e) =
              worker_loop_ends r (i + 1) (advance i w) (omega (arith, advance_counted i w))
                (omega arith) in
            (w', loop-goes i r w on ∙ e)
      ]
    ]

-- With no other thread at the queue.
abbrev pub alone : ℕ → Shared → Shared
alone i s = s

-- The round after which the flag is first read, when it is set in the round `k`.
abbrev pub last_round : ℕ → ℕ
last_round k = (k / stop_interval + 1) * stop_interval

module _ (k : ℕ) (word : last_round k < 2 ^ 64) where
  counted :
      (i : ℕ) (w : Worker)
      → w.iters ≡ i
      → i < last_round k
      → (advance alone (leb k) i w).iters ≡ i + 1
  counted i w at lt = omega (arith, advance_counted alone (leb k) i w)

  last_ends :
      (i : ℕ) (w : Worker) → w.iters ≡ i → i + 1 ≡ last_round k → ends_now alone (leb k) i w ≡ true
  unfolding ends_now
  last_ends i w at last =
      let e = counted i w at (omega arith) in
      let reached : leb k i ≡ true = ground arith in rw (e, last, reached) (ground arith)

  early_goes :
      (i : ℕ) (w : Worker) → w.iters ≡ i → i + 1 < last_round k → ends_now alone (leb k) i w ≡ false
  unfolding ends_now
  early_goes i w at early =
      let e = counted i w at (omega arith) in
      rw e (elim (dec_le k i) [
        | yes past ↦ let off : ((i + 1) % stop_interval == 0) ≡ false = ground arith in rw off refl
        | no before ↦ let unset : leb k i ≡ false = ground arith in ground arith
      ])

  loop-alone :
      (r m i : ℕ) (w : Worker)
      → w.iters ≡ i
      → i + suc m ≡ last_round k
      → suc m ≤ r
      → worker_loop alone (leb k) i r w ≡ some (rounds (suc m) w)
  unfolding rounds advance
  loop-alone zero m i w at upto enough = absurd (omega arith)
  loop-alone (suc r) zero i w at upto enough =
      loop-stops alone (leb k) i r w (last_ends i w at upto)
  loop-alone (suc r) (suc m) i w at upto enough =
      loop-goes alone (leb k) i r w (early_goes i w at (omega arith))
      ∙ loop-alone r m (i + 1) (advance alone (leb k) i w)
          (omega (arith, advance_counted alone (leb k) i w)) (omega arith) (omega arith)

  -- A worker whose queue is valid, whose iteration counter is 0 and whose other counters are
  -- words, whom no other thread disturbs, and whose flag is set in the round `k`, ends after
  -- the first multiple of 1000 rounds that is above `k`, if that is below 2 ^ 64: it has taken
  -- the oldest buffers, one for each round while there are any, in order; each was passed to
  -- the callback with its parse and then released; the rest stay on the queue, and the
  -- counters add up to the rounds.
  pub stop_lem :
      (w : Worker)
      → IsValid queue_capacity w.shared.queue
      → w.iters ≡ 0
      → w.stats.packets_processed < 2 ^ 64
      → w.stats.idle_spins < 2 ^ 64
      → (w' : Worker) × (worker_loop alone (leb k) 0 (last_round k) w ≡ some w')
        × HasRun (last_round k) w w'
  stop_lem w v started p i = (
    rounds (last_round k) w,
    loop-alone (last_round k) (last_round k - 1) 0 w started (omega arith) (omega arith)
        ∙ ap (λ n. some (rounds n w)) {x = suc (last_round k - 1)} {y = last_round k} (omega arith),
    rounds_lem (last_round k) w v p i,
  )
