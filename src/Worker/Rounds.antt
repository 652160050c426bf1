-- ===== src/Worker/Rounds.antt =====
-- What rounds of a worker's loop do when no other thread is at its queue.
use fast_break.Base.{
  ℕ, zero, suc, ◌+◌, ◌-◌, ◌^◌, ◌<◌, ◌≡◌, inl, inr, refl, sym, subst, ◌∙◌, List, [], ◌∷◌, ◌++◌,
  append-nil, append_assoc, take, drop, length, arith, u64, some, none,
}
use fast_break.Spsc.{pop}
use fast_break.Spsc.Window.{contents, IsValid}
use fast_break.Spsc.Refine.{pop-IsValid}
use fast_break.Spsc.Outcome.{pop_outcome}
use fast_break.Pool.{Pool, release}
use fast_break.Parser.{parse}
use fast_break.Rss.{queue_capacity}
use fast_break.Rss.Submit.{capacity_power}
use fast_break.Batch.{release_batch}
use fast_break.Worker.{Worker, Call, process, idle, round}

unfoldable pub rounds : ℕ → Worker → Worker
rounds zero w = w
rounds (suc n) w = rounds n (round w)

-- The calls for buffers that are taken and released one by one, each with the parse of the bytes
-- and the length that it had.
unfoldable pub calls_for : ℕ → (ℕ → ℕ → ℕ) → List ℕ → Pool → List Call
calls_for queue_id memory [] pool = []
calls_for queue_id memory (b ∷ bufs) pool =
    (record {
      queue_id = queue_id;
      buf = b;
      parsed = parse (memory b) (pool.stack.descriptors b).len;
    })
    ∷ calls_for queue_id memory bufs (release b pool)

abbrev pub HasRun : ℕ → Worker → Worker → Type 0
HasRun n w w' =
    let held = contents queue_capacity w.shared.queue in
    let taken = take n held in
    (w'.calls ≡ w.calls ++ calls_for w.config.queue_index w.shared.memory taken w.shared.pool)
    × (w'.shared.pool ≡ release_batch taken w.shared.pool)
    × (contents queue_capacity w'.shared.queue ≡ drop n held)
    × (w'.stats.packets_processed ≡ u64 (w.stats.packets_processed + length taken))
    × (w'.stats.idle_spins ≡ u64 (w.stats.idle_spins + (n - length taken)))

take_none : (n : ℕ) → take {A = ℕ} n [] ≡ []
take_none zero = refl
take_none (suc n) = refl

drop_none : (n : ℕ) → drop {A = ℕ} n [] ≡ []
drop_none zero = refl
drop_none (suc n) = refl

-- The worker when its queue has been popped.
popped : Worker → Worker
popped w = record w {
  shared = record (w.shared) { queue = (pop queue_capacity w.shared.queue).1 };
  iters = u64 (w.iters + 1);
}

round-none : (w : Worker) → (pop queue_capacity w.shared.queue).0 ≡ none → round w ≡ idle (popped w)
unfolding round popped
round-none w e = rw (e, round)

round-some :
    (w : Worker) (b : ℕ)
    → (pop queue_capacity w.shared.queue).0 ≡ some b
    → round w ≡ process b (popped w)
unfolding round popped
round-some w b e = rw (e, round)

none_left :
    (n : ℕ) (w w' : Worker)
    → w.stats.packets_processed < 2 ^ 64
    → contents queue_capacity w.shared.queue ≡ []
    → contents queue_capacity (pop queue_capacity w.shared.queue).1 ≡ []
    → HasRun n (idle (popped w)) w'
    → HasRun (suc n) w w'
unfolding idle popped calls_for release_batch
none_left n w w' p before after h =
    let (calls, pool, rest, done, spins) = rw (after, take_none n, drop_none n) at h in
    rw before (calls, pool, rest, done, omega (arith, spins))

one_taken :
    (n b : ℕ) (w w' : Worker)
    → contents queue_capacity w.shared.queue
      ≡ b ∷ contents queue_capacity (pop queue_capacity w.shared.queue).1
    → HasRun n (process b (popped w)) w'
    → HasRun (suc n) w w'
unfolding process popped calls_for release_batch
one_taken n b w w' here h =
    let (calls, pool, rest, done, spins) = h in
    rw here
      (calls ∙ append_assoc w.calls _ _, pool, rest, omega (arith, done), omega (arith, spins))

-- From a valid queue and counters of 64 bits, `n` rounds take the oldest `n` buffers of the queue,
-- or all: these are passed to the callback in order and then released, and the counters add up to
-- the rounds.
pub rounds_lem :
    (n : ℕ) (w : Worker)
    → IsValid queue_capacity w.shared.queue
    → w.stats.packets_processed < 2 ^ 64
    → w.stats.idle_spins < 2 ^ 64
    → HasRun n w (rounds n w)
unfolding rounds calls_for release_batch idle process popped
rounds_lem zero w v p i = (sym (append-nil w.calls), refl, refl, omega (arith, p), omega (arith, i))
rounds_lem (suc n) w v p i =
    let v' = pop-IsValid capacity_power w.shared.queue v in
    elim (pop_outcome capacity_power w.shared.queue v) [
      | inl (gone, before, after) ↦
          subst (λ x. HasRun (suc n) w (rounds n x)) (sym (round-none w gone))
            (none_left n w (rounds n (idle (popped w))) p before after
              (rounds_lem n (idle (popped w)) v' p (omega arith)))
      | inr (b, got, here) ↦
          subst (λ x. HasRun (suc n) w (rounds n x)) (sym (round-some w b got))
            (one_taken n b w (rounds n (process b (popped w))) here
              (rounds_lem n (process b (popped w)) v' (omega arith) i))
    ]
