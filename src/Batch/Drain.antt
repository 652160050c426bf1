-- ===== src/Batch/Drain.antt =====
-- What `run_once` takes from its queue.
use fast_break.Base.{ℕ, zero, suc, ◌≡◌, refl, ap, ◌∷◌, take, drop, inl, inr}
use fast_break.Spsc.{Ring, pop}
use fast_break.Spsc.Window.{contents, IsValid}
use fast_break.Spsc.Refine.{pop-IsValid}
use fast_break.Spsc.Outcome.{pop_outcome}
use fast_break.Rss.Submit.{capacity_power}
use fast_break.Rss.{queue_capacity}
use fast_break.Batch.{drain}

-- From a valid ring, the loop that fills a batch with room for `left` buffers takes the oldest
-- `left` of the queue, or all, in order; the queue keeps the others and stays valid.
pub drain_lem :
    (left : ℕ) (r : Ring ℕ)
    → IsValid queue_capacity r
    → let (bufs, r') = drain left r in
      (bufs ≡ take left (contents queue_capacity r))
      × (contents queue_capacity r' ≡ drop left (contents queue_capacity r))
      × IsValid queue_capacity r'
unfolding drain
drain_lem zero r v = (refl, refl, v)
drain_lem (suc left) r v =
    let v' = pop-IsValid capacity_power r v in
    elim (pop_outcome capacity_power r v) [
      | inl (gone, before, after) ↦ rw (gone, drain, before) (refl, after, v')
      | inr (b, got, here) ↦
          let (bufs, rest, v'') = drain_lem left (pop queue_capacity r).1 v' in
          rw (got, drain, here) (ap (◌∷◌ b) bufs, rest, v'')
    ]
