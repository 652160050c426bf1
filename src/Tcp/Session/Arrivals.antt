-- ===== src/Tcp/Session/Arrivals.antt =====
-- Whole runs of the receiving half of a session: segments that arrive in any order, repeated, or
-- not at all.
use fast_break.Base.{
  ℕ, zero, suc, ◌+◌, ◌^◌, ◌≤◌, ◌<◌, ◌≡◌, refl, ◌∙◌, false, List, [], ◌∷◌, arith, ltb, ◌&&◌, u32,
  sym, if◌then◌else◌, bit_and, Bool, Bool-cases, inl, inr,
}
use fast_break.Pool.{Pool}
use fast_break.Tcp.Bitmap.{RecvBitmap, has, mark_received, cumulative_ack, count_run}
use fast_break.Tcp.Bitmap.Laws.{advance_some}
use fast_break.Tcp.Session.{
  store, Session, open_session, deliver_one, deliver_loop, deliver_in_order, on_data,
}
use fast_break.Tcp.Session.Receive.{first, Receiving, on_data-Receiving, has_base}

-- The segments named by `ns` arrive, in that order.
unfoldable pub arrive : (ℕ → List ℕ) → List ℕ → Session → Session
arrive seg [] s = s
arrive seg (n ∷ ns) s = arrive seg ns (on_data (u32 n) (seg n) s)

abbrev pub AllBelow : ℕ → List ℕ → Type 0
AllBelow top [] = Unit
AllBelow top (n ∷ ns) = (n < top) × AllBelow top ns

shifted : (i : ℕ) (b : Bool) → (i + 1 < 256 → b ≡ false) → (ltb (i + 1) 256 && b) ≡ false
shifted i b h = ground arith

module _ (seg : ℕ → List ℕ) (top : ℕ) (small : top ≤ 2 ^ 31) where
  arrive-Receiving :
      (ns : List ℕ) (k : ℕ) (s : Session)
      → Receiving seg top k s
      → AllBelow top ns
      → (k' : ℕ) × (k ≤ k') × Receiving seg top k' (arrive seg ns s)
  unfolding arrive
  arrive-Receiving [] k s r h = (k, omega arith, r)
  arrive-Receiving (n ∷ ns) k s r (lt, h) =
      let (k₁, le₁, _, r₁) = on_data-Receiving seg top k n s r lt small in
      let (k₂, le₂, r₂) = arrive-Receiving ns k₁ (on_data (u32 n) (seg n) s) r₁ h in
      (k₂, omega arith, r₂)

  pub open_session-Receiving :
      (pool : Pool) (memory : ℕ → ℕ) → Receiving seg top 0 (open_session pool memory)
  unfolding open_session first
  open_session-Receiving pool memory = record {
    callback = refl;
    most = omega arith;
    base = refl;
    log = refl;
    held = λ i lt h. absurd (cc h);
  }

  -- If the other side has at most 2 ^ 31 segments and each arrival is one of them, then after
  -- any arrivals at a new session, in any order, repeated or missing, the data callback has
  -- been given the first `k` segments in order, each once, for some `k`.
  pub in_order_delivery :
      (pool : Pool) (memory : ℕ → ℕ) (ns : List ℕ)
      → AllBelow top ns
      → (k : ℕ) × (k ≤ top) × ((arrive seg ns (open_session pool memory)).delivered ≡ first seg k)
  in_order_delivery pool memory ns h =
      let (k, _, r) =
        arrive-Receiving ns 0 (open_session pool memory) (open_session-Receiving pool memory) h in
      (k, r.most, r.log)

-- The loop has enough rounds: it stops at a number that has not arrived.
deliver_one_base :
    (s : Session)
    → s.recv_bitmap.base_seq < 2 ^ 32
    → ((deliver_one s).recv_bitmap.base_seq < 2 ^ 32)
      × ((i : ℕ)
          → (deliver_one s).recv_bitmap.received i
            ≡ (ltb (i + 1) 256 && s.recv_bitmap.received (i + 1)))
unfolding deliver_one
deliver_one_base s word =
    let (base, bits) = advance_some s.recv_bitmap 1 word (omega arith) (omega arith) in
    (omega (arith, base), bits)

deliver_loop-gap :
    (fuel : ℕ) (s : Session)
    → s.recv_bitmap.base_seq < 2 ^ 32
    → ((i : ℕ) → fuel ≤ i → i < 256 → s.recv_bitmap.received i ≡ false)
    → let t = deliver_loop fuel s in has t.recv_bitmap.base_seq t.recv_bitmap ≡ false
unfolding deliver_loop
deliver_loop-gap zero s word clear =
    has_base s.recv_bitmap word ∙ clear 0 (omega arith) (omega arith)
deliver_loop-gap (suc fuel) s word clear =
    let (word', bits) = deliver_one_base s word in
    elim (Bool-cases (has s.recv_bitmap.base_seq s.recv_bitmap)) [
      | inl there ↦
          rw (there, deliver_loop)
            (deliver_loop-gap fuel (deliver_one s) word' (λ i le lt.
              bits i
              ∙ shifted i (s.recv_bitmap.received (i + 1)) (λ h. clear (i + 1) (omega arith) h)))
      | inr gap ↦ rw (gap, deliver_loop) gap
    ]

-- If the base is a 32-bit word, `deliver_in_order` stops at a number that has not arrived: the
-- 256 rounds that the model allows its loop are enough.
pub deliver_in_order_complete :
    (s : Session)
    → s.recv_bitmap.base_seq < 2 ^ 32
    → let t = deliver_in_order s in has t.recv_bitmap.base_seq t.recv_bitmap ≡ false
unfolding deliver_in_order
deliver_in_order_complete s word = deliver_loop-gap 256 s word (λ i le lt. absurd (omega arith))

-- The number that a session acknowledges after data is the first that has not been delivered.
acknowledges-gap :
    (m : RecvBitmap)
    → m.base_seq < 2 ^ 32
    → has m.base_seq m ≡ false
    → cumulative_ack m ≡ m.base_seq
unfolding cumulative_ack count_run
acknowledges-gap m word gap = rw (sym (has_base m word) ∙ gap) (omega arith)

mark_received-base : (seq : ℕ) (m : RecvBitmap) → (mark_received seq m).1.base_seq ≡ m.base_seq
unfolding mark_received
mark_received-base seq m = ground arith

deliver_loop_base :
    (fuel : ℕ) (s : Session)
    → s.recv_bitmap.base_seq < 2 ^ 32
    → (deliver_loop fuel s).recv_bitmap.base_seq < 2 ^ 32
unfolding deliver_loop
deliver_loop_base zero s word = word
deliver_loop_base (suc fuel) s word = elim (Bool-cases (has s.recv_bitmap.base_seq s.recv_bitmap)) [
  | inl there ↦
      rw (there, deliver_loop) (deliver_loop_base fuel (deliver_one s) (deliver_one_base s word).0)
  | inr gap ↦ rw (gap, deliver_loop) word
]

pub on_data-acknowledges :
    (seq : ℕ) (payload : List ℕ) (s : Session)
    → s.recv_bitmap.base_seq < 2 ^ 32
    → let t = on_data seq payload s in cumulative_ack t.recv_bitmap ≡ t.recv_bitmap.base_seq
unfolding on_data deliver_in_order
on_data-acknowledges seq payload s word =
    let (marked, m) = mark_received seq s.recv_bitmap in
    let same : m.base_seq ≡ s.recv_bitmap.base_seq = mark_received-base seq s.recv_bitmap in
    let u = record s {
      recv_bitmap = m;
      reasm = if marked then store s.reasm (bit_and seq 255) payload else s.reasm;
    } in
    acknowledges-gap _ (deliver_loop_base 256 u (omega (arith, same)))
      (unfold deliver_in_order in deliver_in_order_complete u (omega (arith, same)))
