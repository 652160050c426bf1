-- ===== src/Tcp/Session/Receive.antt =====
-- The receiving half of a session against the stream of segments of the other side: segment `n`
-- travels with the low 32 bits of `n` for its sequence number.
use fast_break.Base.{
  ℕ, zero, suc, ◌+◌, ◌^◌, ◌≤◌, ◌<◌, ◌≡◌, ◌≢◌, sym, ap, ◌∙◌, Bool, true, ◌&&◌, List, [], ◌∷◌, ◌++◌,
  bit_and, arith, ◌==◌, ==_refl, ne→==, ==→eq, ne_of_false, ltb, if◌then◌else◌, u32, sub32,
  Bool-cases, inl, inr,
}
use fast_break.Base.Bits.{and_mask}
use fast_break.Tcp.Bitmap.{RecvBitmap, mark_received, has}
use fast_break.Tcp.Bitmap.Laws.{has_at, advance_some, mark_received-cases}
use fast_break.Tcp.Session.{Session, store, deliver_one, deliver_loop, deliver_in_order, on_data}

moved_bit : (i : ℕ) (b : Bool) → (ltb (i + 1) 256 && b) ≡ true → (i + 1 < 256) × (b ≡ true)
moved_bit i b h = ground arith

pub has_base : (m : RecvBitmap) → m.base_seq < 2 ^ 32 → has m.base_seq m ≡ m.received 0
has_base m h =
    ap (λ q. has q m) {x = m.base_seq} {y = u32 (m.base_seq + 0)} (omega arith)
    ∙ has_at m 0 h (omega arith)

-- The first `k` segments, in order.
unfoldable pub first : (ℕ → List ℕ) → ℕ → List (List ℕ)
first seg zero = []
first seg (suc k) = first seg k ++ (seg k ∷ [])

-- The other side sends the segments below `top`, less than half of the number space.
module _ (seg : ℕ → List ℕ) (top : ℕ) where
  -- The first `k` segments have been delivered, and each later one that is marked as received is
  -- held in its slot.
  pub record Receiving (k : ℕ) (s : Session) : Type 0 where
    pub callback : s.has_data_cb ≡ true
    pub most : k ≤ top
    pub base : s.recv_bitmap.base_seq ≡ u32 k
    pub log : s.delivered ≡ first seg k
    pub held :
        (i : ℕ)
        → i < 256
        → s.recv_bitmap.received i ≡ true
        → (k + i < top) × (s.reasm (bit_and (u32 (k + i)) 255) ≡ seg (k + i))

  -- Numbers less than 256 apart have different slots.
  slot_ne : (k i : ℕ) → 0 < i → i < 256 → bit_and (u32 k) 255 ≢ bit_and (u32 (k + i)) 255
  slot_ne k i pos lt = omega (arith, and_mask 8 (u32 k), and_mask 8 (u32 (k + i)))

  next_held :
      (k : ℕ) (s : Session)
      → Receiving k s
      → s.recv_bitmap.received 0 ≡ true
      → s.reasm (bit_and s.recv_bitmap.base_seq 255) ≡ seg k
  next_held k s r got =
      ap (λ q. s.reasm (bit_and q 255)) {x = s.recv_bitmap.base_seq} {y = u32 (k + 0)}
        (r.base ∙ omega arith)
      ∙ (r.held 0 (omega arith) got).1
      ∙ ap seg {x = k + 0} {y = k} (omega arith)

  held_next :
      (k : ℕ) (s : Session) (i : ℕ)
      → Receiving k s
      → i + 1 < 256
      → s.recv_bitmap.received (i + 1) ≡ true
      → (suc k + i < top)
        × (store s.reasm (bit_and s.recv_bitmap.base_seq 255) [] (bit_and (u32 (suc k + i)) 255)
            ≡ seg (suc k + i))
  held_next k s i r lt got =
      let e : suc k + i ≡ k + (i + 1) = omega arith in
      rw (e, r.base, ne→== _ _ (slot_ne k (i + 1) (omega arith) lt)) (r.held (i + 1) lt got)

  -- One round of the delivery loop.
  deliver_round :
      (k : ℕ) (s : Session)
      → Receiving k s
      → s.recv_bitmap.received 0 ≡ true
      → Receiving (suc k) (deliver_one s)
  unfolding first deliver_one
  deliver_round k s r got =
      let word : s.recv_bitmap.base_seq < 2 ^ 32 = omega (arith, r.base) in
      let (base', received') = advance_some s.recv_bitmap 1 word (omega arith) (omega arith) in
      record {
        callback = r.callback;
        most = omega (arith, (r.held 0 (omega arith) got).0);
        base = base' ∙ omega (arith, r.base);
        log = rw (r.callback, r.log, next_held k s r got);
        held = λ i lt h.
            let (lt', got') =
              moved_bit i (s.recv_bitmap.received (i + 1)) (sym (received' i) ∙ h) in
            held_next k s i r lt' got';
      }

  held_marked :
      (k n d : ℕ) (s : Session) (i : ℕ)
      → Receiving k s
      → i < 256
      → d < 256
      → n ≡ k + d
      → n < top
      → (if i == d then true else s.recv_bitmap.received i) ≡ true
      → (k + i < top)
        × (store s.reasm (bit_and (u32 n) 255) (seg n) (bit_and (u32 (k + i)) 255) ≡ seg (k + i))
  held_marked k n d s i r lt near e below h = elim (Bool-cases (i == d)) [
    | inl same ↦
        let at : n ≡ k + i = e ∙ ap (λ t. k + t) (sym (==→eq i d same)) in
        (omega arith, rw (at, ==_refl (bit_and (u32 (k + i)) 255)))
    | inr other ↦
        let apart : bit_and (u32 n) 255 ≢ bit_and (u32 (k + i)) 255 =
          omega (arith, and_mask 8 (u32 n), and_mask 8 (u32 (k + i)), ne_of_false i d other) in
        let (low, same) = r.held i lt (rw other at h) in (low, rw (ne→== _ _ apart) same)
  ]

  -- Marking a number and keeping its payload.
  marked_in :
      (k n : ℕ) (s : Session)
      → Receiving k s
      → n < top
      → top ≤ 2 ^ 31
      → let (marked, m) = mark_received (u32 n) s.recv_bitmap in
        Receiving k (record s {
          recv_bitmap = m;
          reasm = if marked then store s.reasm (bit_and (u32 n) 255) (seg n) else s.reasm;
        })
  marked_in k n s r below small = elim (mark_received-cases s.recv_bitmap (u32 n)) [
    | inl refused ↦ rw refused r
    | inr (near, taken) ↦
        let place : n ≡ k + sub32 (u32 n) s.recv_bitmap.base_seq = omega (arith, r.base, r.most) in
        rw taken (record {
          callback = r.callback;
          most = r.most;
          base = r.base;
          log = r.log;
          held = λ i lt h. held_marked k n _ s i r lt near place below h;
        })
  ]

  due_marked :
      (k n : ℕ) (s : Session)
      → Receiving k s
      → n ≡ k
      → (mark_received (u32 n) s.recv_bitmap).1.received 0 ≡ true
  unfolding mark_received
  due_marked k n s r due =
      let off : sub32 (u32 n) s.recv_bitmap.base_seq ≡ 0 = omega (arith, r.base) in
      rw off (ground arith)

  -- No round of the loop leaves the stream, and a segment that is due is delivered.
  deliver_loop-Receiving :
      (fuel k : ℕ) (s : Session)
      → Receiving k s
      → (k' : ℕ) × (k ≤ k')
        × (0 < fuel → s.recv_bitmap.received 0 ≡ true → k < k')
        × Receiving k' (deliver_loop fuel s)
  unfolding deliver_loop
  deliver_loop-Receiving zero k s r = (k, omega arith, λ pos. absurd (omega arith), r)
  deliver_loop-Receiving (suc fuel) k s r =
      let at = has_base s.recv_bitmap (omega (arith, r.base)) in
      elim (Bool-cases (has s.recv_bitmap.base_seq s.recv_bitmap)) [
        | inl there ↦
            let (k', le, _, r') =
              deliver_loop-Receiving fuel (suc k) (deliver_one s)
                (deliver_round k s r (sym at ∙ there)) in
            rw (there, deliver_loop) (k', omega arith, λ pos due. omega arith, r')
        | inr gap ↦ rw (gap, deliver_loop) (k, omega arith, λ pos due. absurd (cc at), r)
      ]

  -- If the first `k` of at most 2 ^ 31 segments have been delivered, and each later one that
  -- is marked is in its slot, then handling segment `n` keeps this for some `k'` that is at
  -- least `k`, and greater if `n` is the segment that is due.
  pub on_data-Receiving :
      (k n : ℕ) (s : Session)
      → Receiving k s
      → n < top
      → top ≤ 2 ^ 31
      → (k' : ℕ) × (k ≤ k') × (n ≡ k → k < k') × Receiving k' (on_data (u32 n) (seg n) s)
  unfolding on_data deliver_in_order
  on_data-Receiving k n s r below small =
      let (k', le, more, r') = deliver_loop-Receiving 256 k _ (marked_in k n s r below small) in
      (
        k',
        le,
        λ due. more (omega arith) (due_marked k n s r due),
        record {
          callback = r'.callback;
          most = r'.most;
          base = r'.base;
          log = r'.log;
          held = r'.held;
        },
      )
