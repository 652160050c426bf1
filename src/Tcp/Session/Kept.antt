-- ===== src/Tcp/Session/Kept.antt =====
-- The queue's operations keep the packets in its slots: what they release is in no other slot.
use fast_break.Base.{
  ℕ, ◌≡◌, refl, ap, ◌∙◌, inl, inr, true, false, ◌&&◌, Option, none, some, List, [], ◌∷◌, ◌++◌,
  arith, length, set, if◌then◌else◌, Bool-cases, ◌==◌,
}
use fast_break.Base.Sums.{weigh, weigh-append, is}
use fast_break.Pool.{Pool, acquire, release}
use fast_break.Pool.Owned.{
  Owned, Owned-Once, Once, is_out, acquire-len, release-len, release_all_of-len,
}
use fast_break.Tcp.Unacked.{
  Slot, Newest, release_ptr, mark_acked_loop, mark_acked, slot_of, slot_at, mark_sent, touch,
}
use fast_break.Tcp.Unacked.Buffers.{
  of_ptr, of_slot, of_slots, freed, mark_acked_loop-Frees, set-weights,
}
use fast_break.Tcp.Unacked.Owned.{slot_of_small}
use fast_break.Tcp.Session.Slots.{IsPacket, content_of, Holds, Holds-kept, Holds-set, Holds-left}

release_ptr-len :
    (o : Option ℕ) (x : ℕ) (pool : Pool)
    → weigh (is x) (of_ptr o) ≡ 0
    → ((release_ptr o pool).stack.descriptors x).len ≡ (pool.stack.descriptors x).len
unfolding release_ptr
release_ptr-len none x pool h = refl
release_ptr-len (some b) x pool h = release-len b x pool (is_out x b (omega arith))

release_slot-len :
    (s : Slot) (x : ℕ) (pool : Pool)
    → weigh (is x) (of_slot s) ≡ 0
    → ((if s.occupied then release_ptr s.buf pool else pool).stack.descriptors x).len
      ≡ (pool.stack.descriptors x).len
release_slot-len s x pool =
    elim s.occupied
      as (λ on.
        weigh (is x) (if on then of_ptr s.buf else []) ≡ 0
        → ((if on then release_ptr s.buf pool else pool).stack.descriptors x).len
          ≡ (pool.stack.descriptors x).len) [
            | true ↦ release_ptr-len s.buf x pool
            | false ↦ λ h. refl
          ]

module _ {p₀ : Pool} (once : Once p₀) {segs : List (List ℕ)} {k : ℕ} {memory : ℕ → ℕ → ℕ} where
  pub mark_sent-Holds :
      (seq b tsc : ℕ) (slots : List Slot) (pool : Pool) (out : List ℕ)
      → length slots ≡ 256
      → Owned p₀ pool (b ∷ (of_slots slots ++ out))
      → IsPacket segs k (content_of memory pool b)
      → Holds segs k memory pool slots
      → let (slots', pool') = mark_sent seq b tsc slots pool in Holds segs k memory pool' slots'
  unfolding mark_sent
  mark_sent-Holds seq b tsc slots pool out count owned p h =
      let old = slot_at seq slots in
      let new : Slot = record { buf = some b; sent_tsc = tsc; seq = seq; occupied = true } in
      let small = slot_of_small seq in
      Holds-kept {pool = pool} (set slots (slot_of seq) new)
        (λ x mine. (
          λ o lt. refl,
          release_slot-len old x pool (
              omega (
                arith,
                Owned-Once once owned x,
                set-weights (is x) slots (slot_of seq) new (omega arith),
                weigh-append (is x) (of_slots slots) out,
              )),
        ))
        (Holds-set slots (slot_of seq) new (omega arith) (λ on. (b, refl, p)) h)

  pub mark_acked-Holds :
      (ack : ℕ) (slots : List Slot) (pool : Pool) (out : List ℕ)
      → Owned p₀ pool (of_slots slots ++ out)
      → Holds segs k memory pool slots
      → let r = mark_acked ack slots pool in Holds segs k memory r.pool r.slots
  unfolding mark_acked
  mark_acked-Holds ack slots pool out owned h =
      let n : Newest = record { newest_tsc = 0; newest_seq = 0; any = false } in
      let r = mark_acked_loop ack slots n pool in
      let f = mark_acked_loop-Frees ack slots n pool in
      Holds-kept {pool = pool} r.slots
        (λ x mine. (
          λ o lt. refl,
          ap (λ (q : Pool). (q.stack.descriptors x).len) f.pool
              ∙ release_all_of-len (freed ack slots) x pool (
                  omega (
                    arith,
                    Owned-Once once owned x,
                    f.weights (is x),
                    weigh-append (is x) (of_slots slots) out,
                  )),
        ))
        (Holds-left ack slots r.slots f.at h)

  pub acquire-Holds :
      (slots : List Slot) (pool : Pool)
      → Holds segs k memory pool slots
      → Holds segs k memory (acquire pool).1 slots
  acquire-Holds slots pool h =
      Holds-kept {pool = pool} slots (λ x mine. (λ o lt. refl, acquire-len pool x)) h

  pub release-Holds :
      (b : ℕ) (slots : List Slot) (pool : Pool) (out : List ℕ)
      → Owned p₀ pool (of_slots slots ++ (b ∷ out))
      → Holds segs k memory pool slots
      → Holds segs k memory (release b pool) slots
  release-Holds b slots pool out owned h =
      Holds-kept {pool = pool} slots
        (λ x mine. (
          λ o lt. refl,
          release-len b x pool (
              is_out x b (
                omega (
                  arith,
                  Owned-Once once owned x,
                  weigh-append (is x) (of_slots slots) (b ∷ out),
                ))),
        ))
        h

  pub touch-Holds :
      (seq now : ℕ) (slots : List Slot) (pool : Pool)
      → length slots ≡ 256
      → Holds segs k memory pool slots
      → Holds segs k memory pool (touch seq now slots)
  unfolding touch
  touch-Holds seq now slots pool count h =
      let s = slot_at seq slots in
      elim (Bool-cases (s.occupied && (s.seq == seq))) [
        | inl hit ↦
            let small = slot_of_small seq in
            rw hit (
              Holds-set slots (slot_of seq) (record s { sent_tsc = now }) (omega arith)
                (h.full (slot_of seq)) h)
        | inr miss ↦ rw miss h
      ]
