-- ===== src/Capture/Moves.antt =====
-- How a pool's users and the places of the buffers agree, step by step.
use fast_break.Base.{
  ℕ, ◌+◌, ◌<◌, ◌≡◌, ◌≢◌, refl, ap, ◌∙◌, Option, none, some, List, ◌∷◌, ◌++◌, arith, ◌==◌, ==_refl,
  ne→==, Bool-cases, inl, inr,
}
use fast_break.Base.Sums.{weigh, weigh-append, weigh_split, is}
use fast_break.Spsc.{Ring, push, pop}
use fast_break.Spsc.Window.{contents, IsValid}
use fast_break.Spsc.Refine.{push-IsValid, pop-IsValid}
use fast_break.Parser.{ParsedPacket}
use fast_break.Pool.{Pool, acquire, release}
use fast_break.Pool.Users
use fast_break.Rss.{RssDistributor, queue_capacity}
use fast_break.Rss
use fast_break.Rss.Submit.{IsDistributor, capacity_power, index_for-lt}
use fast_break.Batch.{set_queue}
use fast_break.Capture.{queue_for}
use fast_break.Capture.Steps.{MainThread, System, set_worker, pushing, popping}
use fast_break.Batch.Queues.{set_queue_self, set_queue_count, set_queue_other}
use fast_break.Capture.Places.{of_worker, of_main, places, queue_moved}

-- The users of the pool hold what is in the places.
pub record Inv (p : Pool) (s : System) : Type 0 where
  pub held : List ℕ
  pub reach : Users.Reach p (record { pool = s.pool; held = held })
  pub same : (w : ℕ → ℕ) → weigh w held ≡ places w s
  pub valid : IsDistributor s.rss

set_queue-IsDistributor :
    (q : ℕ) (queue : Ring ℕ) (d : RssDistributor)
    → IsValid queue_capacity queue
    → IsDistributor d
    → IsDistributor (set_queue q queue d)
unfolding set_queue
set_queue-IsDistributor q queue d good v = record {
  power = v.power;
  masked = v.masked;
  rings = λ j. elim (Bool-cases (j == q)) [ inl e ↦ rw e good | inr ne ↦ rw ne (v.rings j) ];
}

pub queue_for-lt :
    (rss : RssDistributor) (pkt : ParsedPacket)
    → IsDistributor rss
    → queue_for rss pkt < rss.queue_count
unfolding queue_for
queue_for-lt rss pkt v = unfold Rss.index_for in index_for-lt pkt rss v

module _ (p : Pool) where
  pub get-Inv :
      {s : System} {b : ℕ}
      → s.main ≡ MainThread.outside
      → (acquire s.pool).0 ≡ some b
      → Inv p s
      → Inv p (record s { pool = (acquire s.pool).1; main = MainThread.filling b })
  get-Inv {s} {b} idle got i = record {
    held = b ∷ i.held;
    reach = Users.next i.reach (Users.get got);
    same = λ w. let e = ap (λ m. weigh w (of_main m)) idle in omega (arith, i.same w, e);
    valid = i.valid;
  }

  one_place :
      {s : System} (b n : ℕ)
      → (i : Inv p s) → places (is b) s ≡ n + is b b
      → 0 < weigh (is b) i.held
  one_place b n i e = let one : is b b ≡ 1 = rw (==_refl b) refl in omega (arith, i.same (is b))

  -- A buffer in some place goes back to the pool.
  pub give-Inv :
      {s t : System} (b : ℕ)
      → ((w : ℕ → ℕ) → places w s ≡ places w t + w b)
      → t.pool ≡ release b s.pool
      → IsDistributor t.rss
      → Inv p s
      → Inv p t
  give-Inv {s} {t} b less pool valid i =
      let (before, after, e) =
        weigh_split b i.held (one_place b (places (is b) t) i (less (is b))) in
      record {
        held = before ++ after;
        reach = rw pool (Users.next i.reach (Users.give before after b e));
        same = λ w.
            let split = ap (weigh w) e ∙ weigh-append w before (b ∷ after) in
            omega (arith, split, weigh-append w before after, i.same w, less w);
        valid = valid;
      }

  pub push-Inv :
      {s : System} (b : ℕ) (pkt : ParsedPacket) (m : MainThread)
      → let q = queue_for s.rss pkt in
        s.main ≡ MainThread.filling b
        → ((w : ℕ → ℕ)
            → weigh w (of_main m)
                + weigh w (contents queue_capacity (push queue_capacity (s.rss.queues q) b).1)
              ≡ w b + weigh w (contents queue_capacity (s.rss.queues q)))
        → Inv p s
        → Inv p (record s { rss = (pushing b pkt s).1; main = m })
  push-Inv {s} b pkt m mine moved i =
      let q = queue_for s.rss pkt in
      let queue = (push queue_capacity (s.rss.queues q) b).1 in
      let t : System = record s { rss = (pushing b pkt s).1; main = m } in
      record {
        held = i.held;
        reach = i.reach;
        same = λ w.
            let more =
              queue_moved w q s t (queue_for-lt s.rss pkt i.valid) (set_queue_count q queue s.rss)
                (λ j ne. (set_queue_other q j queue s.rss ne, refl)) in
            let new =
              ap (λ r. weigh w (contents queue_capacity r)) (set_queue_self q queue s.rss) in
            let old = ap (λ m. weigh w (of_main m)) mine in
            omega (arith, i.same w, more, new, old, moved w);
        valid =
            set_queue-IsDistributor q queue s.rss
              (push-IsValid capacity_power (s.rss.queues q) (i.valid.rings q) b) i.valid;
      }

  pub pop-Inv :
      {s : System} (q : ℕ) (o : Option ℕ)
      → q < s.rss.queue_count
      → s.workers q ≡ none
      → contents queue_capacity (s.rss.queues q)
        ≡ of_worker o ++ contents queue_capacity (pop queue_capacity (s.rss.queues q)).1
      → (workers : ℕ → Option ℕ) → workers q ≡ o
      → ((i : ℕ) → i ≢ q → workers i ≡ s.workers i)
      → Inv p s
      → Inv p (record s { rss = (popping q s).1; workers = workers })
  pop-Inv {s} q o lt free taken workers mine others i =
      let queue = (pop queue_capacity (s.rss.queues q)).1 in
      let t : System = record s { rss = (popping q s).1; workers = workers } in
      record {
        held = i.held;
        reach = i.reach;
        same = λ w.
            let more =
              queue_moved w q s t lt (set_queue_count q queue s.rss)
                (λ j ne. (set_queue_other q j queue s.rss ne, others j ne)) in
            let new =
              ap (λ r. weigh w (contents queue_capacity r)) (set_queue_self q queue s.rss) in
            let old = ap (λ o. weigh w (of_worker o)) free in
            let now = ap (λ o. weigh w (of_worker o)) mine in
            let split =
              ap (weigh w) taken ∙ weigh-append w (of_worker o) (contents queue_capacity queue) in
            omega (arith, i.same w, more, new, old, now, split);
        valid =
            set_queue-IsDistributor q queue s.rss
              (pop-IsValid capacity_power (s.rss.queues q) (i.valid.rings q)) i.valid;
      }

  pub finish-Inv :
      {s : System} {b : ℕ} (q : ℕ)
      → q < s.rss.queue_count
      → s.workers q ≡ some b
      → Inv p s
      → Inv p (record s { pool = release b s.pool; workers = set_worker q none s.workers })
  finish-Inv {s} {b} q lt busy i =
      let t : System = record s {
        pool = release b s.pool;
        workers = set_worker q none s.workers;
      } in
      give-Inv {t = t} b
        (λ w.
          let more = queue_moved w q s t lt refl (λ j ne. (refl, rw (ne→== j q ne) refl)) in
          let old = ap (λ o. weigh w (of_worker o)) busy in
          let gone : t.workers q ≡ none = rw (==_refl q) refl in
          let now = ap (λ o. weigh w (of_worker o)) gone in omega (arith, more, old, now))
        refl i.valid i
