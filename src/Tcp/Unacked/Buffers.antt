-- ===== src/Tcp/Unacked/Buffers.antt =====
-- The buffers that the slots of an `UnackedQueue` refer to, and what each operation does to them.
use fast_break.Base.{
  ℕ, zero, suc, ◌+◌, ◌<◌, ◌≡◌, refl, sym, ap, ◌∙◌, inl, inr, true, false, Option, none, some, List,
  [], ◌∷◌, ◌++◌, arith, length, get_or, set, if◌then◌else◌, Bool-cases,
}
use fast_break.Base.Sums.{weigh, weigh-append}
use fast_break.Pool.{Pool}
use fast_break.Pool.Owned.{release_all_of}
use fast_break.Tcp.Unacked.{Slot, empty_slot, release_ptr, Newest, newer, acked_by, mark_acked_loop}

abbrev pub of_ptr : Option ℕ → List ℕ
of_ptr none = []
of_ptr (some b) = b ∷ []

-- The buffer of an occupied slot.
abbrev pub of_slot : Slot → List ℕ
of_slot s = if s.occupied then of_ptr s.buf else []

abbrev pub of_slots : List Slot → List ℕ
of_slots [] = []
of_slots (s ∷ slots) = of_slot s ++ of_slots slots

-- The buffers of the slots that an acknowledgement frees, and the slots that it leaves.
abbrev pub freed : ℕ → List Slot → List ℕ
freed up_to [] = []
freed up_to (s ∷ slots) = (if acked_by up_to s then of_slot s else []) ++ freed up_to slots

abbrev pub left_of : ℕ → Slot → Slot
left_of up_to s = if acked_by up_to s then record s { buf = none; occupied = false } else s

release_ptr-of :
    (o : Option ℕ) (bs : List ℕ) (p : Pool)
    → release_all_of bs (release_ptr o p) ≡ release_all_of (of_ptr o ++ bs) p
unfolding release_all_of release_ptr
release_ptr-of none bs p = refl
release_ptr-of (some b) bs p = refl

of_slot_full : (s : Slot) → s.occupied ≡ true → of_slot s ≡ of_ptr s.buf
of_slot_full s e = ap (λ b. if b then of_ptr s.buf else []) e

slot_cons :
    (up_to : ℕ) (s' s : Slot) (slots' slots : List Slot)
    → s' ≡ left_of up_to s
    → ((i : ℕ) → get_or slots' i empty_slot ≡ left_of up_to (get_or slots i empty_slot))
    → (i : ℕ) → get_or (s' ∷ slots') i empty_slot ≡ left_of up_to (get_or (s ∷ slots) i empty_slot)
slot_cons up_to s' s slots' slots e h zero = e
slot_cons up_to s' s slots' slots e h (suc i) = h i

-- What the loop does with the slots: it releases the freed buffers, in order, and empties their
-- slots.
pub record Frees (up_to : ℕ) (slots slots' : List Slot) (p p' : Pool) : Type 0 where
  pub pool : p' ≡ release_all_of (freed up_to slots) p
  pub at : (i : ℕ) → get_or slots' i empty_slot ≡ left_of up_to (get_or slots i empty_slot)
  pub count : length slots' ≡ length slots
  pub weights :
      (w : ℕ → ℕ)
      → weigh w (of_slots slots) ≡ weigh w (freed up_to slots) + weigh w (of_slots slots')

module _ (up_to : ℕ) (s : Slot) (slots : List Slot) where
  loop_hit :
      (n : Newest) (p : Pool)
      → acked_by up_to s ≡ true
      → let r = mark_acked_loop up_to slots (newer s n) (release_ptr s.buf p) in
        ((mark_acked_loop up_to (s ∷ slots) n p).slots
          ≡ record s { buf = none; occupied = false } ∷ r.slots)
        × ((mark_acked_loop up_to (s ∷ slots) n p).pool ≡ r.pool)
  unfolding mark_acked_loop
  loop_hit n p h = rw h (refl, refl)

  loop_kept :
      (n : Newest) (p : Pool)
      → acked_by up_to s ≡ false
      → let r = mark_acked_loop up_to slots n p in
        ((mark_acked_loop up_to (s ∷ slots) n p).slots ≡ s ∷ r.slots)
        × ((mark_acked_loop up_to (s ∷ slots) n p).pool ≡ r.pool)
  unfolding mark_acked_loop
  loop_kept n p h = rw h (refl, refl)

  freed_hit : acked_by up_to s ≡ true → freed up_to (s ∷ slots) ≡ of_slot s ++ freed up_to slots
  freed_hit h = rw h refl

  freed_kept : acked_by up_to s ≡ false → freed up_to (s ∷ slots) ≡ freed up_to slots
  freed_kept h = rw h refl

  Frees-hit :
      {slots' : List Slot} {p p' : Pool}
      → acked_by up_to s ≡ true
      → Frees up_to slots slots' (release_ptr s.buf p) p'
      → Frees up_to (s ∷ slots) (record s { buf = none; occupied = false } ∷ slots') p p'
  Frees-hit {slots'} {p} h f =
      let all = freed_hit h in
      let own = of_slot_full s (ground arith) in
      record {
        pool =
            f.pool
            ∙ release_ptr-of s.buf (freed up_to slots) p
            ∙ ap (λ l. release_all_of (l ++ freed up_to slots) p) (sym own)
            ∙ ap (λ l. release_all_of l p) (sym all);
        at =
            slot_cons up_to (record s { buf = none; occupied = false }) s slots' slots (rw h refl)
              f.at;
        count = ap suc f.count;
        weights = λ w. omega (
          arith,
          f.weights w,
          ap (weigh w) all,
          weigh-append w (of_slot s) (freed up_to slots),
          weigh-append w (of_slot s) (of_slots slots),
        );
      }

  Frees-kept :
      {slots' : List Slot} {p p' : Pool}
      → acked_by up_to s ≡ false
      → Frees up_to slots slots' p p'
      → Frees up_to (s ∷ slots) (s ∷ slots') p p'
  Frees-kept {slots'} {p} h f =
      let all = freed_kept h in
      record {
        pool = f.pool ∙ ap (λ l. release_all_of l p) (sym all);
        at = slot_cons up_to s s slots' slots (rw h refl) f.at;
        count = ap suc f.count;
        weights = λ w. omega (
          arith,
          f.weights w,
          ap (weigh w) all,
          weigh-append w (of_slot s) (of_slots slots),
          weigh-append w (of_slot s) (of_slots slots'),
        );
      }

pub mark_acked_loop-Frees :
    (up_to : ℕ) (slots : List Slot) (n : Newest) (p : Pool)
    → let r = mark_acked_loop up_to slots n p in Frees up_to slots r.slots p r.pool
unfolding mark_acked_loop release_all_of
mark_acked_loop-Frees up_to [] n p = record {
  pool = refl;
  at = λ i. refl;
  count = refl;
  weights = λ w. omega arith;
}
mark_acked_loop-Frees up_to (s ∷ slots) n p = elim (Bool-cases (acked_by up_to s)) [
  | inl hit ↦
      let (e, e') = loop_hit up_to s slots n p hit in
      rw (e, e')
        (Frees-hit up_to s slots hit
          (mark_acked_loop-Frees up_to slots (newer s n) (release_ptr s.buf p)))
  | inr kept ↦
      let (e, e') = loop_kept up_to s slots n p kept in
      rw (e, e') (Frees-kept up_to s slots kept (mark_acked_loop-Frees up_to slots n p))
]

-- Writing a slot trades the buffer that it had for the new one.
pub set-weights :
    (w : ℕ → ℕ) (slots : List Slot) (i : ℕ) (s : Slot)
    → i < length slots
    → weigh w (of_slots (set slots i s)) + weigh w (of_slot (get_or slots i empty_slot))
      ≡ weigh w (of_slots slots) + weigh w (of_slot s)
set-weights w [] i s lt = absurd (omega arith)
set-weights w (t ∷ slots) zero s lt = omega (
  arith,
  weigh-append w (of_slot t) (of_slots slots),
  weigh-append w (of_slot s) (of_slots slots),
)
set-weights w (t ∷ slots) (suc i) s lt = omega (
  arith,
  set-weights w slots i s (omega arith),
  weigh-append w (of_slot t) (of_slots slots),
  weigh-append w (of_slot t) (of_slots (set slots i s)),
)
