-- ===== src/Tcp/Session/Retained.antt =====
-- The packets that wait for an acknowledgement: each is in the slot of its number.
pub mod Calls
use fast_break.Base.{
  ℕ, zero, suc, ◌+◌, ◌^◌, ◌≤◌, ◌<◌, ◌≡◌, ◌≢◌, refl, sym, subst, ap, ◌∙◌, inl, inr, Bool, true,
  false, ◌&&◌, Option, none, some, Option-cases, List, [], ◌∷◌, ◌++◌, arith, length, length-set,
  get_or, get_or-set_self, get_or-set_ne, set, if◌then◌else◌, Bool-cases, u32, u64, sub32, ltb,
  ◌==◌, bit_and, ==→eq, ne_of_false,
}
use native.Mathlib.Decide.{dec_lt}
use fast_break.Base.Bits.{and_mask}
use fast_break.Pool.{Pool, acquire}
use fast_break.Tcp.Header.{bytes_of, make_ack}
use fast_break.Tcp.Bitmap.{cumulative_ack}
use fast_break.Tcp.Session.{
  Clock, Session, open_session, may_send, send_chunk, pump_loop, pump_tx, send, retransmit,
  retransmit_all, send_ack, tick, take_ack,
}
use fast_break.Tcp.Session.Transmit.{in_flight, may_send-room}
use fast_break.Tcp.Unacked.{
  Slot, Newest, empty_slot, slot_of, slot_at, acked_by, mark_sent, mark_acked, mark_acked_loop,
  buffer_for, touch,
}
use fast_break.Tcp.Unacked.Buffers.{left_of, mark_acked_loop-Frees, Frees}
use fast_break.Tcp.Unacked.Owned.{slot_of_small}

-- The slot has the packet of segment `n`.
abbrev pub Waits : ℕ → Slot → Type 0
Waits n s = (s.occupied ≡ true) × (s.seq ≡ u32 n)

-- The segments below `una` have been acknowledged, and those below `top` sent; the ones between are
-- at most 256, and wait in their slots.
pub record Retained (una top : ℕ) (s : Session) : Type 0 where
  pub oldest : s.snd_una ≡ u32 una
  pub newest : s.next_seq ≡ u32 top
  pub order : una ≤ top
  pub window : top ≤ una + 256
  pub count : length s.unacked ≡ 256
  pub kept : (n : ℕ) → una ≤ n → n < top → Waits n (slot_at (u32 n) s.unacked)

-- A session that differs elsewhere.
pub Retained-same :
    {una top : ℕ} (s t : Session)
    → t.snd_una ≡ s.snd_una
    → t.next_seq ≡ s.next_seq
    → t.unacked ≡ s.unacked
    → Retained una top s
    → Retained una top t
Retained-same s t oldest newest slots a = record {
  oldest = oldest ∙ a.oldest;
  newest = newest ∙ a.newest;
  order = a.order;
  window = a.window;
  count = ap (length {A = Slot}) slots ∙ a.count;
  kept = λ n le lt. subst (λ l. Waits n (slot_at (u32 n) l)) (sym slots) (a.kept n le lt);
}

-- Writing the slot of one segment leaves those of the 255 before it.
slot_apart : (n m : ℕ) → n < m → m < n + 256 → slot_of (u32 m) ≢ slot_of (u32 n)
slot_apart n m lt near = omega (arith, and_mask 8 (u32 n), and_mask 8 (u32 m))

pub set-Waits :
    (una top : ℕ) (slots : List Slot) (new : Slot)
    → length slots ≡ 256
    → top < una + 256
    → Waits top new
    → ((n : ℕ) → una ≤ n → n < top → Waits n (slot_at (u32 n) slots))
    → (n : ℕ) → una ≤ n
    → n < suc top
    → Waits n (slot_at (u32 n) (set slots (slot_of (u32 top)) new))
set-Waits una top slots new count room w h n le lt =
    let small = slot_of_small (u32 top) in
    elim (dec_lt n top) [
      | yes before ↦
          subst (Waits n)
            (sym (
              get_or-set_ne slots (slot_of (u32 top)) (slot_of (u32 n)) new empty_slot
                (slot_apart n top before (omega arith))))
            (h n le before)
      | no here ↦
          let same : top ≡ n = omega arith in
          subst (λ m. Waits m (slot_at (u32 m) (set slots (slot_of (u32 top)) new))) same
            (subst (Waits top)
              (sym (get_or-set_self slots (slot_of (u32 top)) new empty_slot (omega arith))) w)
    ]

-- An acknowledgement leaves the packets from its number on.
pub left-Waits :
    (told n : ℕ) (s : Slot) → told ≤ n → n < told + 256 → Waits n s → Waits n (left_of (u32 told) s)
left-Waits told n s le near w =
    let spared : acked_by (u32 told) s ≡ false = ground (arith, w.1) in
    subst (λ (b : Bool). Waits n (if b then record s { buf = none; occupied = false } else s))
      (sym spared) w

pub touch-Waits :
    (seq now n : ℕ) (slots : List Slot)
    → length slots ≡ 256
    → Waits n (slot_at (u32 n) slots)
    → Waits n (slot_at (u32 n) (touch seq now slots))
unfolding touch
touch-Waits seq now n slots count w =
    let s = slot_at seq slots in
    let small = slot_of_small seq in
    elim (Bool-cases (s.occupied && (s.seq == seq))) [
      | inl hit ↦
          let new : Slot = record s { sent_tsc = now } in
          rw hit (elim (Bool-cases (slot_of seq == slot_of (u32 n))) [
            | inl same ↦
                let e : slot_of seq ≡ slot_of (u32 n) =
                  ==→eq (slot_of seq) (slot_of (u32 n)) same in
                let here : Waits n s = subst (λ i. Waits n (get_or slots i empty_slot)) (sym e) w in
                subst (λ i. Waits n (get_or (set slots (slot_of seq) new) i empty_slot)) e
                  (subst (Waits n)
                    (sym (get_or-set_self slots (slot_of seq) new empty_slot (omega arith))) here)
            | inr other ↦
                subst (Waits n)
                  (sym (
                    get_or-set_ne slots (slot_of seq) (slot_of (u32 n)) new empty_slot
                      (ne_of_false (slot_of seq) (slot_of (u32 n)) other)))
                  w
          ])
      | inr miss ↦ rw miss w
    ]

pub mark_sent-slots :
    (seq b tsc : ℕ) (slots : List Slot) (p : Pool)
    → (mark_sent seq b tsc slots p).0
      ≡ set slots
          (slot_of seq)
          (record { buf = some b; sent_tsc = tsc; seq = seq; occupied = true })
unfolding mark_sent
mark_sent-slots seq b tsc slots p = refl

pub mark_acked-left :
    (ack : ℕ) (slots : List Slot) (p : Pool)
    → let r = mark_acked ack slots p in
      ((i : ℕ) → get_or r.slots i empty_slot ≡ left_of ack (get_or slots i empty_slot))
      × (length r.slots ≡ length slots)
unfolding mark_acked
mark_acked-left ack slots p =
    let n : Newest = record { newest_tsc = 0; newest_seq = 0; any = false } in
    let f = mark_acked_loop-Frees ack slots n p in (f.at, f.count)

pub length-touch : (seq now : ℕ) (slots : List Slot) → length (touch seq now slots) ≡ length slots
unfolding touch
length-touch seq now slots =
    let s = slot_at seq slots in
    elim (Bool-cases (s.occupied && (s.seq == seq))) [
      | inl hit ↦ rw hit (length-set slots (slot_of seq) (record s { sent_tsc = now }))
      | inr miss ↦ rw miss refl
    ]

pub open_session-Retained : (p : Pool) (memory : ℕ → ℕ) → Retained 0 0 (open_session p memory)
unfolding open_session
open_session-Retained p memory = record {
  oldest = refl;
  newest = refl;
  order = omega arith;
  window = omega arith;
  count = refl;
  kept = λ n le lt. absurd (omega arith);
}
