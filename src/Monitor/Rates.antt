-- ===== src/Monitor/Rates.antt =====
-- The counts that the program prints.
use fast_break.Base.{
  ℕ, zero, suc, ◌+◌, ◌*◌, ◌^◌, ◌≤◌, ◌<◌, ◌≡◌, refl, inl, inr, Bool, true, ◌||◌, ◌%◌, subst, sym,
  some, leb, u64, sub64, Bool-cases, arith, ap, ◌∙◌,
}
use native.Mathlib.Decide.{dec_lt}
use native.Mathlib.Nat.{mod-eq_of_lt}
use fast_break.PacketRing.{FrameSlot, PacketRing, Flags}
use fast_break.Monitor.{Monitor, Readings, new_monitor, poll, show_rate, monitor_loop}
use fast_break.Monitor.Tally.{rates, tally, Told}
use fast_break.Monitor.Round.{Counted, poll-Counted, show_rate-Counted}

module _ (kernel : ℕ → (ℕ → FrameSlot) → ℕ → FrameSlot) (read : ℕ → Readings) (flags : Flags)
    (start duration : ℕ) where
  -- The loop is left in the round `i`.
  abbrev pub leaves : ℕ → Bool
  leaves i = (read i).g_stop || leb (u64 (duration * 1000000000)) (sub64 (read i).now start)

  module _ (ring : PacketRing) (slots : ℕ → FrameSlot) where
    -- The loop ends in a round up to `k`, behind the kernel's part of it.
    loop-Counted :
        (k rounds i : ℕ) (m : Monitor)
        → leaves k ≡ true
        → i ≤ k
        → k < i + rounds
        → k < 2 ^ 64
        → Counted kernel flags ring slots i m
        → (j : ℕ) × (j ≤ k)
          × (leaves j ≡ true)
          × (m' : Monitor) × (monitor_loop kernel read flags start duration i rounds m
              ≡ some (record m' { slots = kernel j m'.slots }))
          × Counted kernel flags ring slots j m'
    unfolding monitor_loop
    loop-Counted k zero i m left le lt small c = absurd (omega arith)
    loop-Counted k (suc rounds) i m left le lt small c = elim (Bool-cases (leaves i)) [
      | inl now_left ↦ rw (now_left, monitor_loop) (i, le, now_left, m, refl, c)
      | inr on ↦
          let before : i < k = elim (dec_lt i k) [
            | yes lt' ↦ lt'
            | no ge ↦ let e : i ≡ k = omega arith in absurd (cc (left, on, ap leaves e))
          ] in
          let next : suc i ≡ i + 1 = omega arith in
          let polled = poll flags (read i).wall (record m { slots = kernel i m.slots }) in
          rw (on, monitor_loop)
            (loop-Counted k rounds (i + 1) (show_rate (read i).now polled) left (omega arith)
              (omega arith) small
              (subst (λ n. Counted kernel flags ring slots n (show_rate (read i).now polled)) next
                (show_rate-Counted kernel flags ring slots (read i).now (suc i) polled (omega arith)
                  (poll-Counted kernel flags ring slots (read i).wall i m (omega arith) c))))
    ]

  -- If the stop flag is set or the time is over in the round `k`, counted from 0 and below 2 ^
  -- 64, and the ring's cursor is inside the ring, then the program ends in a round `j`, at
  -- most `k`, in which the flag is set or the time is over. Its total is the number of frames
  -- found in the rounds before, each looked for in the slot behind the last one's, and its
  -- drops are those at the start and one for each such frame that says so, as a word. Each
  -- line that gives a rate tells the packets since the line before, and as total and drops
  -- those after some number of the rounds; the rates add up to the last total told, which is
  -- at most the total at the end.
  pub monitor_loop_lem :
      (k rounds : ℕ) (ring : PacketRing) (slots : ℕ → FrameSlot)
      → leaves k ≡ true
      → k < rounds
      → k < 2 ^ 64
      → ring.current_frame < ring.total_frames
      → let seen = tally kernel flags ring slots in
        (j : ℕ) × (j ≤ k)
        × (leaves j ≡ true)
        × (m : Monitor) × (monitor_loop kernel read flags start duration 0 rounds
              (new_monitor ring slots start)
            ≡ some m)
        × (m.total ≡ (seen j).0)
        × (m.ring.drops ≡ (seen j).1)
        × Told kernel flags ring slots j 0 m.printed
        × (rates m.printed ≡ m.last_total)
        × (m.last_total ≤ m.total)
        × (m.total ≤ j)
  unfolding new_monitor
  monitor_loop_lem k rounds ring slots left lt small inside =
      let cursor : ring.current_frame ≡ (ring.current_frame + 0) % ring.total_frames = sym (
        ap (λ n. n % ring.total_frames) {x = ring.current_frame + 0} {y = ring.current_frame}
          (omega arith)
        ∙ mod-eq_of_lt inside) in
      let (j, le, ended, m, e, c) =
        loop-Counted ring slots k rounds 0 (new_monitor ring slots start) left (omega arith)
          (omega arith) small
          (unfold new_monitor in
            record {
              frames = refl;
              total_frames = refl;
              cursor = cursor;
              counts = refl;
              sum = refl;
              order = omega arith;
              bound = omega arith;
              told = tt;
            }) in
      (
        j,
        le,
        ended,
        record m { slots = kernel j m.slots },
        e,
        ap (λ (t : ℕ × ℕ × (ℕ → FrameSlot)). t.0) c.counts,
        ap (λ (t : ℕ × ℕ × (ℕ → FrameSlot)). t.1) c.counts,
        c.told,
        c.sum,
        c.order,
        c.bound,
      )
