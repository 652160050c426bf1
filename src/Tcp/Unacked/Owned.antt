-- ===== src/Tcp/Unacked/Owned.antt =====
-- The operations of `UnackedQueue` keep the account of the buffers: what the queue releases is what
-- it held, and what it is given it holds.
use fast_break.Base.{
  ℕ, ◌<◌, ◌≡◌, refl, subst, sym, ◌∙◌, inl, inr, true, false, ◌&&◌, Option, none, some, List, [],
  ◌∷◌, ◌++◌, arith, length, length-set, set, if◌then◌else◌, ◌==◌, Bool-cases,
}
use fast_break.Base.Bits.{and_mask}
use fast_break.Base.Sums.{weigh-append}
use fast_break.Pool.{Pool}
use fast_break.Pool.Owned.{Owned, Owned-weights, release_all_of-Owned, release-Owned}
use fast_break.Tcp.Unacked.{
  Slot, Newest, release_ptr, mark_acked_loop, mark_acked, slot_of, slot_at, mark_sent, touch,
  release_all, slots_init,
}
use fast_break.Tcp.Unacked.Buffers.{
  of_ptr, of_slot, of_slots, freed, mark_acked_loop-Frees, set-weights,
}

pub slot_of_small : (seq : ℕ) → slot_of seq < 256
slot_of_small seq = omega (arith, and_mask 8 seq)

module _ {p₀ : Pool} where
  release_ptr-Owned :
      (o : Option ℕ) (pool : Pool) (xs : List ℕ)
      → Owned p₀ pool (of_ptr o ++ xs)
      → Owned p₀ (release_ptr o pool) xs
  unfolding release_ptr
  release_ptr-Owned none pool xs o = o
  release_ptr-Owned (some b) pool xs o = release-Owned b o

  -- `if (s.occupied && s.buf) pool_.release(s.buf)`
  release_slot-Owned :
      (s : Slot) (pool : Pool) (xs : List ℕ)
      → Owned p₀ pool (of_slot s ++ xs)
      → Owned p₀ (if s.occupied then release_ptr s.buf pool else pool) xs
  release_slot-Owned s pool xs =
      elim s.occupied
        as (λ on.
          Owned p₀ pool ((if on then of_ptr s.buf else []) ++ xs)
          → Owned p₀ (if on then release_ptr s.buf pool else pool) xs) [
            | true ↦ release_ptr-Owned s.buf pool xs
            | false ↦ λ o. o
          ]

  pub mark_sent-Owned :
      (seq b tsc : ℕ) (slots : List Slot) (pool : Pool) (out : List ℕ)
      → length slots ≡ 256
      → Owned p₀ pool (b ∷ (of_slots slots ++ out))
      → let (slots', pool') = mark_sent seq b tsc slots pool in
        Owned p₀ pool' (of_slots slots' ++ out) × (length slots' ≡ 256)
  unfolding mark_sent
  mark_sent-Owned seq b tsc slots pool out len o =
      let old = slot_at seq slots in
      let new : Slot = record { buf = some b; sent_tsc = tsc; seq = seq; occupied = true } in
      let slots' = set slots (slot_of seq) new in
      let small = slot_of_small seq in
      let all : Owned p₀ pool (of_slot old ++ (of_slots slots' ++ out)) =
        Owned-weights
          (λ w. omega (
            arith,
            set-weights w slots (slot_of seq) new (omega arith),
            weigh-append w (of_slots slots) out,
            weigh-append w (of_slot old) (of_slots slots' ++ out),
            weigh-append w (of_slots slots') out,
          ))
          o in
      (
        release_slot-Owned old pool (of_slots slots' ++ out) all,
        length-set slots (slot_of seq) new ∙ len,
      )

  pub mark_acked-Owned :
      (ack : ℕ) (slots : List Slot) (pool : Pool) (out : List ℕ)
      → length slots ≡ 256
      → Owned p₀ pool (of_slots slots ++ out)
      → let r = mark_acked ack slots pool in
        Owned p₀ r.pool (of_slots r.slots ++ out) × (length r.slots ≡ 256)
  unfolding mark_acked
  mark_acked-Owned ack slots pool out len o =
      let n : Newest = record { newest_tsc = 0; newest_seq = 0; any = false } in
      let r = mark_acked_loop ack slots n pool in
      let f = mark_acked_loop-Frees ack slots n pool in
      (
        subst (λ q. Owned p₀ q (of_slots r.slots ++ out)) (sym f.pool)
            (release_all_of-Owned (freed ack slots) (
              Owned-weights
                (λ w. omega (
                  arith,
                  f.weights w,
                  weigh-append w (of_slots slots) out,
                  weigh-append w (freed ack slots) (of_slots r.slots ++ out),
                  weigh-append w (of_slots r.slots) out,
                ))
                o)),
        f.count ∙ len,
      )

  -- A new time of sending leaves the buffers as they are.
  pub touch-Owned :
      (seq now : ℕ) (slots : List Slot) (pool : Pool) (out : List ℕ)
      → length slots ≡ 256
      → Owned p₀ pool (of_slots slots ++ out)
      → Owned p₀ pool (of_slots (touch seq now slots) ++ out) × (length (touch seq now slots) ≡ 256)
  unfolding touch
  touch-Owned seq now slots pool out len o =
      let s = slot_at seq slots in
      elim (Bool-cases (s.occupied && (s.seq == seq))) [
        | inl hit ↦
            let slots' = set slots (slot_of seq) (record s { sent_tsc = now }) in
            let small = slot_of_small seq in
            rw hit (
              Owned-weights
                  (λ w. omega (
                    arith,
                    set-weights w slots (slot_of seq) (record s { sent_tsc = now }) (omega arith),
                    weigh-append w (of_slots slots) out,
                    weigh-append w (of_slots slots') out,
                  ))
                  o,
              length-set slots (slot_of seq) (record s { sent_tsc = now }) ∙ len,
            )
        | inr miss ↦ rw miss (o, len)
      ]

  pub release_all-Owned :
      (slots : List Slot) (pool : Pool) (out : List ℕ)
      → Owned p₀ pool (of_slots slots ++ out)
      → let (slots', pool') = release_all slots pool in Owned p₀ pool' out × (of_slots slots' ≡ [])
  unfolding release_all
  release_all-Owned [] pool out o = (o, refl)
  release_all-Owned (s ∷ slots) pool out o =
      let first = release_slot-Owned s pool (of_slots slots ++ out) (
        Owned-weights
          (λ w. omega (
            arith,
            weigh-append w (of_slot s ++ of_slots slots) out,
            weigh-append w (of_slot s) (of_slots slots),
            weigh-append w (of_slot s) (of_slots slots ++ out),
            weigh-append w (of_slots slots) out,
          ))
          o) in
      release_all-Owned slots (if s.occupied then release_ptr s.buf pool else pool) out first

pub slots_init-none : of_slots slots_init ≡ []
slots_init-none = refl
