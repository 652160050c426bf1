-- ===== src/Capture/Round.antt =====
-- A round of the main loop as a run of the steps of Capture/Steps.
use fast_break.Base.{ℕ, refl, inl, inr, Option, Option-cases, Bool-cases}
use fast_break.Spsc.{push}
use fast_break.Parser.{ParsedPacket}
use fast_break.Pool.{acquire}
use fast_break.PacketRing.{RxFrame, Flags, receive}
use fast_break.Rss.{queue_capacity}
use fast_break.Capture.{
  Capture, queue_for, fitting, copy_frame, hand_over, fill_buffer, take_frame, poll_ring,
}
use fast_break.Capture.Steps.{
  MainThread, System, acquire_buffer, find_no_buffer, write_len, enqueue, refuse, give_up, Reach,
  here, next,
}

-- The state between two rounds, next to what the workers have.
abbrev pub system : Capture → (ℕ → Option ℕ) → System
system c workers = record {
  pool = c.pool;
  rss = c.rss;
  main = MainThread.outside;
  workers = workers;
}

abbrev filled : Capture → ℕ → (ℕ → Option ℕ) → System
filled c b workers = record (system c workers) { main = MainThread.filling b }

module _ (workers : ℕ → Option ℕ) where
  hand_over-runs :
      (s : System) (b : ℕ) (pkt : ParsedPacket) (c : Capture)
      → Reach s (filled c b workers)
      → Reach s (system (hand_over b (queue_for c.rss pkt) c) workers)
  unfolding hand_over
  hand_over-runs s b pkt c r =
      elim (Bool-cases ((push queue_capacity (c.rss.queues (queue_for c.rss pkt)) b).0)) [
        | inl ok ↦ rw ok (next r (enqueue pkt refl ok))
        | inr full ↦ rw full (next (next r (refuse pkt refl full)) (give_up refl))
      ]

  fill_buffer-runs :
      (s : System) (frame : RxFrame) (b : ℕ) (c : Capture)
      → Reach s (filled c b workers)
      → Reach s (system (fill_buffer frame b c) workers)
  unfolding fill_buffer copy_frame
  fill_buffer-runs s frame b c r =
      let n = fitting frame (c.pool.stack.descriptors b).capacity in
      hand_over-runs s b _ (copy_frame frame b n c) (next r (write_len n refl))

  take_frame-runs :
      (frame : RxFrame) (c : Capture)
      → Reach (system c workers) (system (take_frame frame c) workers)
  unfolding take_frame
  take_frame-runs frame c = elim (Option-cases ((acquire c.pool).0)) [
    | inl e ↦ rw (e, take_frame) (next here (find_no_buffer refl e))
    | inr (b, e) ↦
        rw (e, take_frame)
          (fill_buffer-runs (system c workers) frame b (record c { pool = (acquire c.pool).1 })
            (next here (acquire_buffer refl e)))
  ]

  -- A round, whether there is a frame, a buffer, or room on the queue or not.
  pub poll_ring-runs :
      (flags : Flags) (c : Capture) → Reach (system c workers) (system (poll_ring flags c) workers)
  unfolding poll_ring
  poll_ring-runs flags c = elim (Option-cases ((receive flags c.slots c.ring).0)) [
    | inl e ↦ rw (e, poll_ring) here
    | inr (frame, e) ↦
        rw (e, poll_ring)
          (take_frame-runs frame (record c { ring = (receive flags c.slots c.ring).1 }))
  ]
