-- ===== src/Batch/Dispatch.antt =====
-- Which handlers a batch calls.
use fast_break.Base.{
  ℕ, ◌+◌, ◌^◌, ◌<◌, ◌≡◌, refl, sym, ap, subst, ◌∙◌, Option, none, some, Option-cases, List, [], ◌∷◌,
  ◌++◌, map, arith, ◌==◌, if◌then◌else◌, u64, length, inl, inr, max, append-nil, append_assoc,
}
use fast_break.Pool.Chain.{has}
use fast_break.Parser.{ParsedPacket}
use fast_break.Batch.{
  BatchProcessor, Batch, Call, handle, flush, mark, handler_for, dispatch_one, dispatch_loop,
  dispatch_batch,
}

abbrev pub count : ℕ → List ℕ → ℕ
count x [] = 0
count x (y ∷ ys) = (if x == y then 1 else 0) + count x ys

-- The packets of a batch that have a handler: the handler, the packet and the buffer.
abbrev pub handled : (ParsedPacket → Option ℕ) → Batch → List (ℕ × ParsedPacket × ℕ)
handled target [] = []
handled target ((buf, pkt) ∷ batch) = elim (target pkt) [
  | none ↦ handled target batch
  | some h ↦ (h, pkt, buf) ∷ handled target batch
]

abbrev pub handlers_of : List (ℕ × ParsedPacket × ℕ) → List ℕ
handlers_of [] = []
handlers_of ((h, pkt, buf) ∷ rest) = h ∷ handlers_of rest

abbrev pub calls_of : List (ℕ × ParsedPacket × ℕ) → List Call
calls_of [] = []
calls_of ((h, pkt, buf) ∷ rest) = handle h pkt buf ∷ calls_of rest

count-mark :
    (x h : ℕ) (touched : List ℕ)
    → count x (mark h touched) ≡ (if x == h then max 1 (count x touched) else count x touched)
unfolding mark
count-mark x h [] = ground arith
count-mark x h (t ∷ touched) = ground (arith, count-mark x h touched)

abbrev Processed :
    BatchProcessor → List ℕ → List (ℕ × ParsedPacket × ℕ) → BatchProcessor × List ℕ → Type 0
Processed p touched done (q, touched') =
    (q.calls ≡ p.calls ++ calls_of done)
    × (q.packets_dispatched ≡ u64 (p.packets_dispatched + length done))
    × ((x : ℕ)
        → count x touched'
          ≡ (if has x (handlers_of done) then max 1 (count x touched) else count x touched))

module _ (buf : ℕ) (pkt : ParsedPacket) (p : BatchProcessor) (touched : List ℕ) where
  dispatch_one-none : handler_for pkt p ≡ none → dispatch_one buf pkt (p, touched) ≡ (p, touched)
  unfolding dispatch_one
  dispatch_one-none e = rw (e, dispatch_one) refl

  dispatch_one-some :
      (h : ℕ)
      → handler_for pkt p ≡ some h
      → dispatch_one buf pkt (p, touched) ≡ (
        record p {
          packets_dispatched = u64 (p.packets_dispatched + 1);
          calls = p.calls ++ (handle h pkt buf ∷ []);
        },
        mark h touched,
      )
  unfolding dispatch_one
  dispatch_one-some h e = rw (e, dispatch_one) refl

module _ (target : ParsedPacket → Option ℕ) (buf : ℕ) (pkt : ParsedPacket) (batch : Batch) where
  handled-none : target pkt ≡ none → handled target ((buf, pkt) ∷ batch) ≡ handled target batch
  handled-none e = rw (e, handled) refl

  handled-some :
      (h : ℕ)
      → target pkt ≡ some h
      → handled target ((buf, pkt) ∷ batch) ≡ (h, pkt, buf) ∷ handled target batch
  handled-some h e = rw (e, handled) refl

move_result :
    (p : BatchProcessor) (touched : List ℕ) {d d' : List (ℕ × ParsedPacket × ℕ)}
    {r r' : BatchProcessor × List ℕ}
    → d ≡ d'
    → r ≡ r'
    → Processed p touched d r
    → Processed p touched d' r'
move_result p touched {d} {d'} {r} {r'} e f h =
    subst (λ x. Processed p touched x r') e (subst (Processed p touched d) f h)

dispatch_loop_lem :
    (target : ParsedPacket → Option ℕ) (batch : Batch) (p : BatchProcessor) (touched : List ℕ)
    → ((pkt : ParsedPacket) → handler_for pkt p ≡ target pkt)
    → p.packets_dispatched < 2 ^ 64
    → Processed p touched (handled target batch) (dispatch_loop batch (p, touched))
unfolding dispatch_loop
dispatch_loop_lem target [] p touched same word = (sym (append-nil _), omega arith, λ x. refl)
dispatch_loop_lem target ((buf, pkt) ∷ batch) p touched same word =
    elim (Option-cases (target pkt)) [
      | inl e ↦
          move_result p touched (sym (handled-none target buf pkt batch e))
            (sym (ap (dispatch_loop batch) (dispatch_one-none buf pkt p touched (same pkt ∙ e))))
            (dispatch_loop_lem target batch p touched same word)
      | inr (h, e) ↦
          let p' = record p {
            packets_dispatched = u64 (p.packets_dispatched + 1);
            calls = p.calls ++ (handle h pkt buf ∷ []);
          } in
          let (calls, number, counts) =
            dispatch_loop_lem target batch p' (mark h touched)
              (λ other. unfold handler_for in same other) (omega arith) in
          move_result p touched (sym (handled-some target buf pkt batch h e))
            (sym (ap (dispatch_loop batch) (dispatch_one-some buf pkt p touched h (same pkt ∙ e))))
            (
              calls ∙ append_assoc p.calls (handle h pkt buf ∷ []) _,
              number ∙ omega arith,
              λ x. counts x ∙ ground (arith, count-mark x h touched),
            )
    ]

-- If the count of dispatched packets fits its word, `dispatch_batch` calls the handler of each
-- packet that has one, in the order of the batch, and then flushes; each handler that was called
-- is flushed exactly once, and no other. The count grows by the packets that had a handler.
pub dispatch_batch_lem :
    (batch : Batch) (p : BatchProcessor)
    → p.packets_dispatched < 2 ^ 64
    → let done = handled (λ pkt. handler_for pkt p) batch in
      let q = dispatch_batch batch p in
      (touched : List ℕ) × (q.calls ≡ p.calls ++ (calls_of done ++ map flush touched))
      × ((x : ℕ) → count x touched ≡ (if has x (handlers_of done) then 1 else 0))
      × (q.packets_dispatched ≡ u64 (p.packets_dispatched + length done))
unfolding dispatch_batch
dispatch_batch_lem batch p word =
    let done = handled (λ pkt. handler_for pkt p) batch in
    let touched = (dispatch_loop batch (p, [])).1 in
    let (calls, number, counts) =
      dispatch_loop_lem (λ pkt. handler_for pkt p) batch p [] (λ pkt. refl) word in
    (
      touched,
      ap (λ c. c ++ map flush touched) calls
          ∙ append_assoc p.calls (calls_of done) (map flush touched),
      counts,
      number,
    )
