-- ===== src/Capture/Loop.antt =====
-- The main loop from its first round to its end, with the other threads at work.
use fast_break.Base.{
  ℕ, zero, suc, ◌+◌, ◌*◌, ◌≤◌, ◌<◌, ◌≡◌, inl, inr, refl, ap, Bool, true, ◌||◌, Option, some,
  Bool-cases, leb, u64, sub64, arith,
}
use native.Mathlib.Decide.{dec_lt}
use fast_break.PacketRing.{Flags}
use fast_break.Capture.{Capture, poll_ring, capture_loop}
use fast_break.Capture.Steps.{Reach, Reach-trans}
use fast_break.Capture.Round.{system, poll_ring-runs}

-- What the workers have popped.
abbrev pub Popped : Type 0
Popped = ℕ → Option ℕ

-- Between two rounds the others take steps of their own, from what the workers have then.
abbrev pub OthersRun : (ℕ → Capture → Popped → Capture × Popped) → Type 0
OthersRun others =
    (i : ℕ) (c : Capture) (workers : Popped)
    → let (c', workers') = others i c workers in Reach (system c workers) (system c' workers')

module _ (others : ℕ → Capture → Popped → Capture × Popped) (g_stop : ℕ → Bool) (now : ℕ → ℕ)
    (flags : Flags) (start duration : ℕ) where
  -- The loop is left in the round `i`.
  abbrev pub leaves : ℕ → Bool
  leaves i = g_stop i || leb (u64 (duration * 1000000000)) (sub64 (now i) start)

  -- If what the others do between the rounds, from what the workers have popped then, is a run
  -- of the steps of the interleaving, and the stop flag is set or the time is over in the
  -- round `k`, then the main loop that starts in a round up to `k` ends by then, in a state
  -- that the steps reach from where it started.
  pub capture_loop-runs :
      (k rounds i : ℕ) (c : Capture) (workers : Popped)
      → OthersRun others
      → leaves k ≡ true
      → i ≤ k
      → k < i + rounds
      → (c' : Capture) × (workers' : Popped) × (capture_loop others g_stop now flags start duration
            i rounds c workers
          ≡ some (c', workers'))
        × Reach (system c workers) (system c' workers')
  unfolding capture_loop
  capture_loop-runs k zero i c workers run left le lt = absurd (omega arith)
  capture_loop-runs k (suc rounds) i c workers run left le lt =
      let (c₁, workers₁) = others i c workers in
      let r = run i c workers in
      elim (Bool-cases (leaves i)) [
        | inl now_left ↦ rw (now_left, capture_loop) (c₁, workers₁, refl, r)
        | inr on ↦
            let before : i < k = elim (dec_lt i k) [
              | yes lt' ↦ lt'
              | no ge ↦ let e : i ≡ k = omega arith in absurd (cc (left, on, ap leaves e))
            ] in
            let (c', workers', e, r') =
              capture_loop-runs k rounds (i + 1) (poll_ring flags c₁) workers₁ run left
                (omega arith) (omega arith) in
            rw (on, capture_loop)
              (c', workers', e, Reach-trans r (Reach-trans (poll_ring-runs workers₁ flags c₁) r'))
      ]
