-- ===== src/Batch/Run.antt =====
-- A whole `run_once`: what it takes, whom it calls, and what it gives back.
use fast_break.Base.{
  ℕ, ◌+◌, ◌^◌, ◌<◌, ◌≡◌, ◌≢◌, refl, sym, ap, subst, ◌∙◌, inl, inr, true, Option-cases, Bool-cases,
  List, [], ◌∷◌, ◌++◌, append-nil, map, take, drop, length, arith, ◌==◌, if◌then◌else◌, u64,
}
use fast_break.Spsc.Window.{contents, IsValid}
use fast_break.Pool.Chain.{has}
use fast_break.Parser.{ParsedPacket}
use fast_break.Rss.{RssDistributor, queue_capacity}
use fast_break.Batch.{
  BatchProcessor, Batch, batch_size, flush, handler_for, dispatch_one, dispatch_loop,
  dispatch_batch, drain, parse_all, release_batch, set_queue, run_once,
}
use fast_break.Batch.Dispatch.{count, handled, handlers_of, calls_of, dispatch_batch_lem}
use fast_break.Batch.Drain.{drain_lem}
use fast_break.Batch.Queues.{set_queue_self, set_queue_other}

-- The handlers are called, and nothing else has changed.
record Keeps (p q : BatchProcessor) : Type 0 where
  pool : q.pool ≡ p.pool
  rss : q.rss ≡ p.rss
  batches : q.batches_processed ≡ p.batches_processed
  packets : q.packets_processed ≡ p.packets_processed

dispatch_one-Keeps :
    (buf : ℕ) (pkt : ParsedPacket) (p q : BatchProcessor) (touched : List ℕ)
    → Keeps p q
    → Keeps p (dispatch_one buf pkt (q, touched)).0
unfolding dispatch_one
dispatch_one-Keeps buf pkt p q touched k = elim (Option-cases (handler_for pkt q)) [
  | inl e ↦ rw (e, dispatch_one) k
  | inr (h, e) ↦
      rw (e, dispatch_one)
        (record { pool = k.pool; rss = k.rss; batches = k.batches; packets = k.packets })
]

dispatch_loop-Keeps :
    (batch : Batch) (p : BatchProcessor) (s : BatchProcessor × List ℕ)
    → Keeps p s.0
    → Keeps p (dispatch_loop batch s).0
unfolding dispatch_loop
dispatch_loop-Keeps [] p s k = k
dispatch_loop-Keeps ((buf, pkt) ∷ batch) p (q, touched) k =
    dispatch_loop-Keeps batch p (dispatch_one buf pkt (q, touched))
      (dispatch_one-Keeps buf pkt p q touched k)

dispatch_batch-Keeps : (batch : Batch) (p : BatchProcessor) → Keeps p (dispatch_batch batch p)
unfolding dispatch_batch
dispatch_batch-Keeps batch p =
    let k =
      dispatch_loop-Keeps batch p (p, [])
        (record { pool = refl; rss = refl; batches = refl; packets = refl }) in
    record { pool = k.pool; rss = k.rss; batches = k.batches; packets = k.packets }

-- The buffers `taken` have been handled as one batch and released.
abbrev pub HasHandled : BatchProcessor → List ℕ → BatchProcessor → Type 0
HasHandled p taken p' =
    let done = handled (λ pkt. handler_for pkt p) (parse_all taken p) in
    (p'.pool ≡ release_batch taken p.pool)
    × ((touched : List ℕ) × (p'.calls ≡ p.calls ++ (calls_of done ++ map flush touched))
        × ((x : ℕ) → count x touched ≡ (if has x (handlers_of done) then 1 else 0)))
    × (p'.packets_processed ≡ u64 (p.packets_processed + length taken))
    × (p'.batches_processed ≡ u64 (p.batches_processed + (if length taken == 0 then 0 else 1)))

length_none : (xs : List ℕ) → (length xs == 0) ≡ true → xs ≡ []
length_none [] e = refl
length_none (x ∷ xs) e = absurd (ground arith)

module _ (p : BatchProcessor) (dispatched : p.packets_dispatched < 2 ^ 64)
    (processed : p.packets_processed < 2 ^ 64) (batches : p.batches_processed < 2 ^ 64) where
  none_handled :
      (q : BatchProcessor)
      → q.pool ≡ p.pool
      → q.calls ≡ p.calls
      → q.packets_processed ≡ p.packets_processed
      → q.batches_processed ≡ p.batches_processed
      → HasHandled p [] q
  unfolding release_batch parse_all
  none_handled q pool calls packets count = (
    pool,
    ([], calls ∙ sym (append-nil p.calls), λ x. refl),
    omega (arith, processed, packets),
    omega (arith, batches, count),
  )

  drained_handled :
      let (bufs, queue) = drain batch_size (p.rss.queues p.queue_index) in
      HasHandled p bufs (run_once p) × ((run_once p).rss ≡ set_queue p.queue_index queue p.rss)
  unfolding run_once parse_all handler_for
  drained_handled =
      let bufs = (drain batch_size (p.rss.queues p.queue_index)).0 in
      let queue = (drain batch_size (p.rss.queues p.queue_index)).1 in
      let q : BatchProcessor = record p { rss = set_queue p.queue_index queue p.rss } in
      elim (Bool-cases (length bufs == 0)) [
        | inl e ↦
            let gone = length_none bufs e in
            let quiet : run_once p ≡ q = rw (e, run_once) refl in
            subst (λ p'. HasHandled p bufs p' × (p'.rss ≡ set_queue p.queue_index queue p.rss))
              (sym quiet)
              (
                subst (λ xs. HasHandled p xs q) (sym gone) (none_handled q refl refl refl refl),
                refl,
              )
        | inr e ↦
            let (touched, calls, counts, _) = dispatch_batch_lem (parse_all bufs q) q dispatched in
            let k = dispatch_batch-Keeps (parse_all bufs q) q in
            rw (e, run_once)
              (
                (
                  ap (release_batch bufs) k.pool,
                  (touched, calls, counts),
                  ap (λ n. u64 (n + length bufs)) k.packets,
                  ap (λ n. u64 (n + 1)) k.batches,
                ),
                k.rss,
              )
      ]

  -- If the queue is valid and the three counts are words, `run_once` takes the oldest 32
  -- buffers of its queue, or all, and leaves the others there and the other queues as they
  -- are. The handler of each packet that has one is called, in order, and then each handler
  -- that was called is flushed once; the buffers are released in order, and the packets and a
  -- batch that is not empty are counted.
  pub run_once_lem :
      IsValid queue_capacity (p.rss.queues p.queue_index)
      → let held = contents queue_capacity (p.rss.queues p.queue_index) in
        let p' = run_once p in
        HasHandled p (take batch_size held) p'
        × (contents queue_capacity (p'.rss.queues p.queue_index) ≡ drop batch_size held)
        × ((j : ℕ) → j ≢ p.queue_index → p'.rss.queues j ≡ p.rss.queues j)
  run_once_lem v =
      let queue = (drain batch_size (p.rss.queues p.queue_index)).1 in
      let (taken, rest, _) = drain_lem batch_size (p.rss.queues p.queue_index) v in
      let (handled, rss) = drained_handled in
      (
        subst (λ xs. HasHandled p xs (run_once p)) taken handled,
        ap (λ (d : RssDistributor). contents queue_capacity (d.queues p.queue_index)) rss
            ∙ ap (contents queue_capacity) (set_queue_self p.queue_index queue p.rss)
            ∙ rest,
        λ j ne.
            ap (λ (d : RssDistributor). d.queues j) rss
            ∙ set_queue_other p.queue_index j queue p.rss ne,
      )
