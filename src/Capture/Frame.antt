-- ===== src/Capture/Frame.antt =====
-- What becomes of a frame that was received.
use fast_break.Base.{
  ℕ, ◌≡◌, ◌≢◌, ◌⊎◌, refl, ap, ◌∙◌, inl, inr, none, some, [], ◌∷◌, ◌++◌, ==_refl, ne→==, ltb,
  if◌then◌else◌, length, min, arith,
}
use fast_break.Spsc.{push}
use fast_break.Spsc.Window.{contents}
use fast_break.Spsc.Outcome.{push_outcome}
use fast_break.Parser.{parse}
use fast_break.Pool.{Pool, acquire, release, set_len}
use fast_break.PacketRing.{RxFrame}
use fast_break.Rss.{queue_capacity}
use fast_break.Rss.Submit.{IsDistributor, capacity_power}
use fast_break.Batch.{set_queue}
use fast_break.Worker.{record_drop}
use fast_break.Capture.{Capture, queue_for, fitting, copy_frame, hand_over, fill_buffer, take_frame}
use fast_break.Batch.Queues.{set_queue_self}

fitting_lem :
    (frame : RxFrame) (capacity : ℕ) → fitting frame capacity ≡ min frame.captured_len capacity
unfolding fitting
fitting_lem frame capacity = ground arith

-- The bytes of the buffer `b` with `n` bytes of the frame in front.
abbrev pub stored : RxFrame → ℕ → (ℕ → ℕ) → ℕ → ℕ
stored frame n old o = if ltb o n then frame.bytes o else old o

-- The buffer is the last of the queue, or the queue was full: then the drop is counted for that
-- queue's worker and the buffer is back in the pool.
abbrev pub HandedOver : ℕ → ℕ → Pool → Capture → Capture → Type 0
HandedOver b q pool c c' =
    let before = contents queue_capacity (c.rss.queues q) in
    let after = contents queue_capacity (c'.rss.queues q) in
    ((after ≡ before ++ (b ∷ [])) × (c'.stats ≡ c.stats) × (c'.pool ≡ pool))
    ⊎ ((length before ≡ queue_capacity)
        × (after ≡ before)
        × (c'.stats ≡ record_drop q c.stats)
        × (c'.pool ≡ release b pool))

hand_over_lem :
    (b q : ℕ) (c : Capture)
    → IsDistributor c.rss
    → ((hand_over b q c).memory ≡ c.memory) × HandedOver b q c.pool c (hand_over b q c)
unfolding hand_over
hand_over_lem b q c v =
    let queue = (push queue_capacity (c.rss.queues q) b).1 in
    let put : contents queue_capacity ((set_queue q queue c.rss).queues q)
        ≡ contents queue_capacity queue =
      ap (contents queue_capacity) (set_queue_self q queue c.rss) in
    elim (push_outcome capacity_power (c.rss.queues q) (v.rings q) b) [
      | inl (ok, held) ↦ rw ok (refl, inl (put ∙ held, refl, refl))
      | inr (full, count, held) ↦ rw full (refl, inr (count, put ∙ held, refl, refl))
    ]

-- The queue that the copied bytes select.
abbrev pub queue_of : RxFrame → ℕ → ℕ → Capture → ℕ
queue_of frame b n c = queue_for c.rss (parse (stored frame n (c.memory b)) n)

copied :
    (frame : RxFrame) (b n : ℕ) (c : Capture) (o : ℕ)
    → (copy_frame frame b n c).memory b o ≡ stored frame n (c.memory b) o
unfolding copy_frame
copied frame b n c o = rw (==_refl b) refl

kept :
    (frame : RxFrame) (b n : ℕ) (c : Capture) (b' o : ℕ)
    → b' ≢ b
    → (copy_frame frame b n c).memory b' o ≡ c.memory b' o
unfolding copy_frame
kept frame b n c b' o ne = rw (ne→== b' b ne) refl

copied_len :
    (frame : RxFrame) (b n : ℕ) (c : Capture)
    → ((copy_frame frame b n c).pool.stack.descriptors b).len ≡ n
unfolding copy_frame set_len
copied_len frame b n c = rw (==_refl b) refl

selected :
    (frame : RxFrame) (b n : ℕ) (c : Capture)
    → let c' = copy_frame frame b n c in
      queue_for c'.rss (parse (c'.memory b) (c'.pool.stack.descriptors b).len)
      ≡ queue_of frame b n c
selected frame b n c =
    let bytes : (copy_frame frame b n c).memory b ≡ stored frame n (c.memory b) =
      λ i o. copied frame b n c o i in
    rw (copied_len frame b n c, bytes) (unfold copy_frame in refl)

fill_buffer-hand_over :
    (frame : RxFrame) (b : ℕ) (c : Capture)
    → let n = min frame.captured_len (c.pool.stack.descriptors b).capacity in
      fill_buffer frame b c ≡ hand_over b (queue_of frame b n c) (copy_frame frame b n c)
unfolding fill_buffer
fill_buffer-hand_over frame b c =
    let n = min frame.captured_len (c.pool.stack.descriptors b).capacity in
    rw (fitting_lem frame (c.pool.stack.descriptors b).capacity)
      (ap (λ q. hand_over b q (copy_frame frame b n c)) (selected frame b n c))

module _ (frame : RxFrame) (c : Capture) where
  -- Without a free buffer the frame is lost: only the pool has changed.
  pub take_frame-none :
      (acquire c.pool).0 ≡ none → take_frame frame c ≡ record c { pool = (acquire c.pool).1 }
  unfolding take_frame
  take_frame-none e = rw (e, take_frame) refl

  -- With a valid distributor and a free buffer, the buffer gets the bytes that were captured,
  -- as far as it has room, and no other buffer's bytes change. It is then the last on the
  -- queue of the packet that these bytes are, with this length and no drop counted; or that
  -- queue was full, the drop is counted for its worker, and the buffer is back in the pool.
  pub take_frame-some :
      (b : ℕ)
      → IsDistributor c.rss
      → (acquire c.pool).0 ≡ some b
      → let c' = take_frame frame c in
        let pool = (acquire c.pool).1 in
        let n = min frame.captured_len (pool.stack.descriptors b).capacity in
        let q = queue_of frame b n c in
        ((o : ℕ) → c'.memory b o ≡ stored frame n (c.memory b) o)
        × ((b' o : ℕ) → b' ≢ b → c'.memory b' o ≡ c.memory b' o)
        × HandedOver b q (set_len b n pool) c c'
  unfolding take_frame
  take_frame-some b v e =
      let c1 : Capture = record c { pool = (acquire c.pool).1 } in
      let n = min frame.captured_len (c1.pool.stack.descriptors b).capacity in
      let q = queue_of frame b n c in
      let (memory, handed) = hand_over_lem b q (copy_frame frame b n c1) (unfold copy_frame in v) in
      let to = fill_buffer-hand_over frame b c1 in
      rw (e, take_frame)
        (rw to (
          λ o. ap (λ m. m b o) memory ∙ copied frame b n c1 o,
          λ b' o ne. ap (λ m. m b' o) memory ∙ kept frame b n c1 b' o ne,
          unfold copy_frame in handed,
        ))
