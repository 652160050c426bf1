-- ===== src/Tcp/Bitmap/Laws.antt =====
-- `RecvBitmap` as a set of sequence numbers.
use fast_break.Base.{
  ℕ, zero, suc, ◌+◌, ◌^◌, ◌≤◌, ◌<◌, ◌≡◌, ◌⊎◌, ◌↔◌, inl, inr, refl, ap, ◌∙◌, Bool, true, false, ◌&&◌,
  ◌||◌, ◌==◌, leb, ltb, if◌then◌else◌, u32, sub32, is_neg32, arith, Bool-cases, ne→==,
}
use native.Mathlib.Decide.{dec_lt, dec_le}
use fast_break.Tcp.Bitmap.{
  window_size, RecvBitmap, mark_received, count_run, cumulative_ack, advance, has,
}

-- For 32-bit numbers and base, `mark_received` succeeds exactly on a number of the window that
-- has not arrived, and then adds that number to the set and no other; when it fails the set
-- stays the same. The base stays the same.
pub mark_received_lem :
    (m : RecvBitmap) (seq s : ℕ)
    → m.base_seq < 2 ^ 32
    → seq < 2 ^ 32
    → s < 2 ^ 32
    → let (marked, m') = mark_received seq m in
      ((marked ≡ true) ↔ ((sub32 seq m.base_seq < 256) × (has seq m ≡ false)))
      × (has s m' ≡ (has s m || (marked && (s == seq))))
      × (m'.base_seq ≡ m.base_seq)
unfolding mark_received has
mark_received_lem m seq s hb hs ht = (ground arith, ground arith, ground arith)

-- A run of set bits from `n` on: all of them are set, and the next is not, or the window ends.
record IsRun (received : ℕ → Bool) (n left r : ℕ) : Type 0 where
  from : n ≤ r
  upto : r ≤ n + left
  all_set : (i : ℕ) → n ≤ i → i < r → received i ≡ true
  ends : (r ≡ n + left) ⊎ (received r ≡ false)

count_run-IsRun :
    (received : ℕ → Bool) (n left : ℕ) → IsRun received n left (count_run received n left)
unfolding count_run
count_run-IsRun received n zero = record {
  from = omega arith;
  upto = omega arith;
  all_set = λ i h h'. absurd (omega arith);
  ends = inl (omega arith);
}
count_run-IsRun received n (suc left) = elim (Bool-cases (received n)) [
  | inl set ↦
      let r = count_run-IsRun received (n + 1) left in
      rw set (record {
        from = omega (arith, r.from);
        upto = omega (arith, r.upto);
        all_set = λ i h h'. elim (dec_lt n i) [
          | yes p ↦ r.all_set i (omega arith) h'
          | no p ↦ let e : i ≡ n = omega arith in rw e set
        ];
        ends = ground (arith, r.ends);
      })
  | inr clear ↦ rw clear (record {
    from = omega arith;
    upto = omega arith;
    all_set = λ i h h'. absurd (omega arith);
    ends = inr clear;
  })
]

-- `has` of the number `k` places into the window is the bit `k`.
pub has_at :
    (m : RecvBitmap) (k : ℕ)
    → m.base_seq < 2 ^ 32
    → k < 256
    → has (u32 (m.base_seq + k)) m ≡ m.received k
unfolding has
has_at m k hb hk =
    let e : sub32 (u32 (m.base_seq + k)) m.base_seq ≡ k = omega arith in rw e (ground arith)

-- For a 32-bit base, `cumulative_ack` is the first number from the base on that has not arrived,
-- or the end of the window; everything from the base to before it has arrived.
pub cumulative_ack_lem :
    (m : RecvBitmap)
    → m.base_seq < 2 ^ 32
    → (n : ℕ) × (cumulative_ack m ≡ u32 (m.base_seq + n))
      × (n ≤ 256)
      × ((k : ℕ) → k < n → has (u32 (m.base_seq + k)) m ≡ true)
      × ((n ≡ 256) ⊎ (has (u32 (m.base_seq + n)) m ≡ false))
unfolding cumulative_ack
cumulative_ack_lem m hb =
    let r = count_run-IsRun m.received 0 256 in
    (
      count_run m.received 0 256,
      refl,
      omega (arith, r.upto),
      λ k h. has_at m k hb (omega (arith, r.upto)) ∙ r.all_set k (omega arith) h,
      elim (r.ends) [
        | inl e ↦ inl (omega arith)
        | inr clear ↦ elim (dec_lt (count_run m.received 0 256) 256) [
          | yes p ↦ inr (has_at m (count_run m.received 0 256) hb p ∙ clear)
          | no p ↦ inl (omega (arith, r.upto))
        ]
      ],
    )

advance_none : (m : RecvBitmap) → m.base_seq < 2 ^ 32 → advance (u32 (m.base_seq + 0)) m ≡ m
unfolding advance
advance_none m hb = let e : sub32 (u32 (m.base_seq + 0)) m.base_seq ≡ 0 = omega arith in rw e

pub advance_some :
    (m : RecvBitmap) (s : ℕ)
    → m.base_seq < 2 ^ 32
    → 0 < s
    → s < 2 ^ 32
    → let m' = advance (u32 (m.base_seq + s)) m in
      (m'.base_seq ≡ u32 (m.base_seq + s))
      × ((i : ℕ) → m'.received i ≡ (ltb (i + s) 256 && m.received (i + s)))
unfolding advance
advance_some m s hb pos hs =
    let e : sub32 (u32 (m.base_seq + s)) m.base_seq ≡ s = omega arith in
    rw (e, ne→== s 0 (omega arith)) (refl, λ i. ground arith)

-- The tests of `has` on an offset, before and after the base has moved by `s`.
bit_at : (ℕ → Bool) → ℕ → Bool
bit_at received off =
    if is_neg32 off then false else if leb window_size off then false else received off

bit_at_moved :
    (received received' : ℕ → Bool) (s off off' : ℕ)
    → s < 2 ^ 32
    → off < 2 ^ 32
    → off' ≡ sub32 off s
    → received' off' ≡ (ltb (off' + s) 256 && received (off' + s))
    → bit_at received' off' ≡ (leb s off && bit_at received off)
unfolding bit_at
bit_at_moved received received' s off off' hs ho e same = elim (dec_le s off) [
  | yes p ↦ let back : off' + s ≡ off = omega arith in ground (arith, ap received back)
  | no p ↦ ground arith
]

-- For a 32-bit base, moving the base `s` numbers on, `s` a word, forgets the numbers before the
-- new base and keeps the others.
pub advance_lem :
    (m : RecvBitmap) (s seq : ℕ)
    → m.base_seq < 2 ^ 32
    → s < 2 ^ 32
    → seq < 2 ^ 32
    → let m' = advance (u32 (m.base_seq + s)) m in
      (m'.base_seq ≡ u32 (m.base_seq + s))
      × (has seq m' ≡ (leb s (sub32 seq m.base_seq) && has seq m))
unfolding has bit_at
advance_lem m zero seq hb hs hq = rw (advance_none m hb) (omega arith, ground arith)
advance_lem m (suc s) seq hb hs hq =
    let (base, received) = advance_some m (suc s) hb (omega arith) hs in
    (
      base,
      bit_at_moved m.received (advance (u32 (m.base_seq + suc s)) m).received (suc s)
          (sub32 seq m.base_seq) (sub32 seq (advance (u32 (m.base_seq + suc s)) m).base_seq) hs
          (omega arith) (rw base (omega arith)) (received _),
    )

-- The two outcomes of `mark_received`, as equations.
pub mark_received-cases :
    (m : RecvBitmap) (seq : ℕ)
    → (mark_received seq m ≡ (false, m))
      ⊎ ((sub32 seq m.base_seq < 256)
          × (mark_received seq m ≡ (
            true,
            record m { received = λ i. if i == sub32 seq m.base_seq then true else m.received i },
          )))
unfolding mark_received
mark_received-cases m seq = ground arith
