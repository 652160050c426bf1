-- ===== src/Tcp/Session/Retained/Calls.antt =====
-- The calls of a session keep the packets that wait.
use fast_break.Base.{
  ℕ, zero, suc, ◌+◌, ◌≤◌, ◌<◌, ◌≡◌, refl, sym, subst, ap, ◌∙◌, inl, inr, true, false, ◌&&◌, some,
  Option-cases, List, [], ◌∷◌, ◌++◌, arith, length, length-set, set, if◌then◌else◌, Bool-cases, u32,
  ltb, ◌==◌,
}
use fast_break.Pool.{acquire}
use fast_break.Tcp.Header.{bytes_of, make_ack}
use fast_break.Tcp.Bitmap.{cumulative_ack}
use fast_break.Tcp.Session.{
  Clock, Session, may_send, send_chunk, pump_loop, pump_tx, send, retransmit, retransmit_all,
  send_ack, tick, take_ack,
}
use fast_break.Tcp.Session.Transmit.{may_send-room}
use fast_break.Tcp.Unacked.{Slot, slot_of, slot_at, mark_acked, buffer_for}
use fast_break.Tcp.Session.Retained.{
  Waits, Retained, Retained-same, set-Waits, left-Waits, touch-Waits, mark_sent-slots,
  mark_acked-left, length-touch,
}

retransmit-Retained :
    {una top : ℕ} (now seq : ℕ) (s : Session)
    → Retained una top s
    → Retained una top (retransmit now seq s)
unfolding retransmit
retransmit-Retained {una} {top} now seq s a = elim (Option-cases (buffer_for seq s.unacked)) [
  | inl gone ↦ rw (gone, retransmit) a
  | inr (b, there) ↦
      rw (there, retransmit)
        (record {
          oldest = a.oldest;
          newest = a.newest;
          order = a.order;
          window = a.window;
          count = length-touch seq now s.unacked ∙ a.count;
          kept = λ n le lt. touch-Waits seq now n s.unacked a.count (a.kept n le lt);
        })
]

retransmit_all-Retained :
    {una top : ℕ} (now : ℕ) (seqs : List ℕ) (s : Session)
    → Retained una top s
    → Retained una top (retransmit_all now seqs s)
unfolding retransmit_all
retransmit_all-Retained now [] s a = a
retransmit_all-Retained now (seq ∷ seqs) s a =
    retransmit_all-Retained now seqs (retransmit now seq s) (retransmit-Retained now seq s a)

send_ack-Retained : {una top : ℕ} (s : Session) → Retained una top s → Retained una top (send_ack s)
unfolding send_ack
send_ack-Retained {una} {top} s a =
    let packet = bytes_of (make_ack s.next_seq (cumulative_ack s.recv_bitmap)) in
    elim s.pending_ack
      as (λ due.
        Retained una top
          (if due then record s { wire = s.wire ++ (packet ∷ []); pending_ack = false } else s)) [
            | true ↦ Retained-same _ _ refl refl refl a
            | false ↦ a
          ]

module _ (clock : Clock) where
  send_chunk-Retained :
      {una top : ℕ} (b : ℕ) (s : Session)
      → may_send s ≡ true
      → Retained una top s
      → Retained una (suc top) (send_chunk clock b s)
  unfolding send_chunk
  send_chunk-Retained {una} {top} b s more a =
      let room = may_send-room s more in
      let near : top < una + 256 = omega (arith, a.oldest, a.newest, a.order, a.window) in
      let new : Slot = record {
        buf = some b;
        sent_tsc = clock.rdtsc s.ticks;
        seq = s.next_seq;
        occupied = true;
      } in
      record {
        oldest = a.oldest;
        newest = omega (arith, a.newest);
        order = omega (arith, a.order);
        window = omega arith;
        count =
            ap (length {A = Slot}) (mark_sent-slots s.next_seq b _ s.unacked _)
            ∙ length-set s.unacked (slot_of s.next_seq) new
            ∙ a.count;
        kept = λ n le lt.
            subst (λ l. Waits n (slot_at (u32 n) l))
              (sym (mark_sent-slots s.next_seq b (clock.rdtsc s.ticks) s.unacked _))
              (subst (λ q. Waits n (slot_at (u32 n) (set s.unacked (slot_of q) new))) (sym a.newest)
                (set-Waits una top s.unacked new a.count near (refl, a.newest) a.kept n le lt));
      }

  pump_loop-Retained :
      {una top : ℕ} (fuel : ℕ) (s : Session)
      → Retained una top s
      → (top' : ℕ) × (top ≤ top') × Retained una top' (pump_loop clock fuel s)
  unfolding pump_loop
  pump_loop-Retained {top} zero s a = (top, omega arith, a)
  pump_loop-Retained {una} {top} (suc fuel) s a = elim (Bool-cases (may_send s)) [
    | inl more ↦
        let s' = record s { pool = (acquire s.pool).1 } in
        let a' : Retained una top s' = Retained-same _ _ refl refl refl a in
        elim (Option-cases ((acquire s.pool).0)) [
          | inl gone ↦ rw (more, gone, pump_loop) (top, omega arith, a')
          | inr (b, got) ↦
              let (top', le, r) =
                pump_loop-Retained fuel (send_chunk clock b s')
                  (send_chunk-Retained b s' (unfold may_send in more) a') in
              rw (more, got, pump_loop) (top', omega arith, r)
        ]
    | inr done ↦ rw (done, pump_loop) (top, omega arith, a)
  ]

  pump_tx-Retained :
      {una top : ℕ} (s : Session)
      → Retained una top s
      → (top' : ℕ) × (top ≤ top') × Retained una top' (pump_tx clock s)
  unfolding pump_tx
  pump_tx-Retained s a =
      let t = pump_loop clock 256 s in
      let (top', le, r) = pump_loop-Retained 256 s a in
      elim (Bool-cases (ltb 0 t.tx_off && (t.tx_off == length t.pending_tx))) [
        | inl all ↦ rw all (top', le, Retained-same _ _ refl refl refl r)
        | inr some_left ↦ rw some_left (top', le, r)
      ]

  take_ack-Retained :
      {una top : ℕ} (told : ℕ) (s : Session)
      → una ≤ told
      → told ≤ top
      → Retained una top s
      → (top' : ℕ) × (top ≤ top') × Retained told top' (take_ack clock (u32 told) s)
  unfolding take_ack
  take_ack-Retained {una} {top} told s newer sent a =
      let m = mark_acked (u32 told) s.unacked s.pool in
      let (left, count) = mark_acked-left (u32 told) s.unacked s.pool in
      let after : (rtt ticks : ℕ)
          → Retained told top (record s {
            unacked = m.slots;
            pool = m.pool;
            snd_una = u32 told;
            rtt_ns = rtt;
            ticks = ticks;
          }) =
        λ rtt ticks. record {
          oldest = refl;
          newest = a.newest;
          order = sent;
          window = omega (arith, a.window);
          count = count ∙ a.count;
          kept = λ n le lt. subst (Waits n) (sym (left (slot_of (u32 n)))) (
              left-Waits told n (slot_at (u32 n) s.unacked) le (omega (arith, a.window))
                (a.kept n (omega arith) lt));
        } in
      elim (Bool-cases (m.sent == 0)) [
        | inl none_acked ↦ rw none_acked (pump_tx-Retained _ (after _ _))
        | inr sampled ↦ rw sampled (pump_tx-Retained _ (after _ _))
      ]

  -- Let the segments from `una` up to `top` be at most 256, each with its packet's number in
  -- the occupied slot of that number, and let `snd_una` and `next_seq` be the low 32 bits of
  -- `una` and `top`. After `send` and after `tick` this holds for `una` and some `top'` that
  -- is at least `top`; and after an acknowledgement of a number `told` from `una` to `top` it
  -- holds for `told` and such a `top'`: no packet that is not acknowledged leaves its slot.
  pub session_retains :
      {una top : ℕ} (s : Session) (bytes : List ℕ) (told : ℕ)
      → una ≤ told
      → told ≤ top
      → Retained una top s
      → ((top' : ℕ) × (top ≤ top') × Retained una top' (send clock bytes s))
        × ((top' : ℕ) × (top ≤ top') × Retained una top' (tick clock s))
        × ((top' : ℕ) × (top ≤ top') × Retained told top' (take_ack clock (u32 told) s))
  unfolding send tick
  session_retains s bytes told newer sent a =
      let (top', le, r) = pump_tx-Retained _ (
        retransmit_all-Retained _ _ (record s { ticks = s.ticks + 1 })
          (Retained-same s _ refl refl refl a)) in
      (
        pump_tx-Retained (record s { pending_tx = s.pending_tx ++ bytes })
            (Retained-same s _ refl refl refl a),
        (top', le, send_ack-Retained _ r),
        take_ack-Retained told s newer sent a,
      )
