-- ===== src/Tcp/Session/Sender/Arrival.antt =====
-- A packet arrives in a buffer: what `deliver_in_order` and the release of the buffer leave of the
-- sending half.
use fast_break.Base.{
  ℕ, zero, suc, ◌+◌, ◌≤◌, ◌<◌, ◌≡◌, refl, sym, ap, ◌∙◌, inl, inr, List, [], ◌∷◌, arith, length,
  if◌then◌else◌, Bool-cases, ◌==◌, ne→==, ==→eq, some, u32,
}
use fast_break.Base.Sums.{weigh, weigh-append, is}
use fast_break.Pool.{Pool, acquire, release}
use fast_break.Pool.Owned.{
  Spaced, Owned-Once, Owned-address, address, acquire-Owned, acquire-len, set_len-len, is_out,
}
use fast_break.Tcp.Bitmap.{cumulative_ack, has}
use fast_break.Tcp.Memory.{write, write-outside}
use fast_break.Tcp.Unacked.{Slot}
use fast_break.Tcp.Unacked.Buffers.{of_slots}
use fast_break.Tcp.Session.{
  Session, put, view, data_of, on_data, deliver_one, deliver_loop, deliver_in_order,
}
use fast_break.Tcp.Session.Buffers.{release-Account}
use fast_break.Tcp.Endpoint.{fill}
use fast_break.Tcp.Endpoint.Buffers.{fill-Account}
use fast_break.Tcp.Session.Kept.{release-Holds}
use fast_break.Tcp.Session.Region.{put_apart, put_self}
use fast_break.Tcp.Session.Sender.{Sender-rest, Receiver, receiver_of, Sender}
use fast_break.Tcp.Session.Slots.{Holds-kept, Holds-later, AllPackets-later}

-- What the sending half keeps.
abbrev Sending : Type 0
Sending = Pool × (ℕ → ℕ) × List Slot × List ℕ × ℕ × ℕ × List (List ℕ) × ℕ

abbrev sending_of : Session → Sending
sending_of s = (s.pool, s.memory, s.unacked, s.pending_tx, s.tx_off, s.next_seq, s.wire, s.snd_una)

deliver_loop-sending : (fuel : ℕ) (s : Session) → sending_of (deliver_loop fuel s) ≡ sending_of s
unfolding deliver_loop deliver_one
deliver_loop-sending zero s = refl
deliver_loop-sending (suc fuel) s = elim (Bool-cases (has s.recv_bitmap.base_seq s.recv_bitmap)) [
  | inl there ↦ rw (there, deliver_loop) (deliver_loop-sending fuel (deliver_one s))
  | inr gap ↦ rw (gap, deliver_loop) refl
]

on_data-sending :
    (seq : ℕ) (payload : List ℕ) (s : Session) → sending_of (on_data seq payload s) ≡ sending_of s
unfolding on_data deliver_in_order
on_data-sending seq payload s = deliver_loop-sending 256 _

is_in : (x b : ℕ) → 0 < is x b → x ≡ b
is_in x b h = elim (Bool-cases (x == b)) [
  | inl same ↦ ==→eq x b same
  | inr other ↦ absurd (omega (arith, ap {B = ℕ} (λ t. if t then 1 else 0) other))
]

module _ {p₀ : Pool} {kept : ℕ → ℕ → ℕ} {r : Receiver} {stream : List ℕ} {k j : ℕ}
    {segs : List (List ℕ)} where
  pub on_data-Sender :
      {out : List ℕ} {k' : ℕ} (seq : ℕ) (payload : List ℕ) (s : Session)
      → k ≤ k'
      → cumulative_ack (on_data seq payload s).recv_bitmap ≡ u32 k'
      → Sender p₀ out kept r stream k j segs s
      → Sender p₀ out kept
          (receiver_of (on_data seq payload s))
          stream
          k'
          j
          segs
          (on_data seq payload s)
  on_data-Sender seq payload s le telling a =
      let e = on_data-sending seq payload s in
      let pool = ap (λ (h : Sending). h.0) e in
      let memory = ap (λ (h : Sending). h.1) e in
      let slots = ap (λ (h : Sending). h.2) e in
      let pending = ap (λ (h : Sending). h.3) e in
      let off = ap (λ (h : Sending). h.4) e in
      let next = ap (λ (h : Sending). h.5) e in
      let wire = ap (λ (h : Sending). h.6) e in
      let una = ap (λ (h : Sending). h.7) e in
      record {
        account = record {
          owned = rw (pool, slots) a.account.owned;
          count = rw slots a.account.count;
        };
        intact = λ x mine o lt. rw memory (a.intact x mine o lt);
        receiver = refl;
        telling = telling;
        una = a.una;
        oldest = una ∙ a.oldest;
        acknowledged = a.acknowledged;
        numbered = next ∙ a.numbered;
        whole = rw (off, pending) a.whole;
        offset = rw (off, pending) a.offset;
        many = a.many;
        bytes = rw pending a.bytes;
        slots = rw (pool, memory, slots) (Holds-later le a.slots);
        sent = rw wire (AllPackets-later segs k s.wire le a.sent);
      }

  module _ (spaced : Spaced 1040 p₀) where
    pub release-Sender :
        {out : List ℕ} (b : ℕ) (s : Session)
        → Sender p₀ (b ∷ out) kept r stream k j segs s
        → Sender p₀ out kept r stream k j segs (record s { pool = release b s.pool })
    release-Sender {out} b s a =
        Sender-rest s _ refl a (release-Account b s a.account) (λ x mine. a.intact x (omega arith))
          (release-Holds spaced.once b s.unacked s.pool out a.account.owned a.slots) a.sent

    -- A free buffer takes the packet.
    pub fill-Sender :
        (b : ℕ) (packet : List ℕ) (s : Session)
        → (acquire s.pool).0 ≡ some b
        → length packet ≤ 1040
        → Sender p₀ [] kept r stream k j segs s
        → Sender p₀
            (b ∷ [])
            (λ x. write (data_of b (record s { pool = (acquire s.pool).1 })) 0 packet)
            r
            stream
            k
            j
            segs
            (fill b packet (record s { pool = (acquire s.pool).1 }))
    unfolding fill
    fill-Sender b packet s got short a =
        let at = address (acquire s.pool).1 b in
        let filled : ℕ → ℕ = write (view s.memory at) 0 packet in
        let memory : ℕ → ℕ = put s.memory at filled in
        let owned = acquire-Owned got a.account.owned in
        let apart : (x : ℕ) → weigh (is x) (b ∷ []) + weigh (is x) (of_slots s.unacked) ≤ 1 = λ x.
          omega
            (arith, Owned-Once spaced.once owned x, weigh-append (is x) (of_slots s.unacked) []) in
        Sender-rest s _ refl a (fill-Account b packet s got a.account)
          (λ x mine o lt.
            ap (λ q. memory (address p₀ q + o)) (is_in x b (omega arith))
            ∙ ap (λ q. memory (q + o)) (sym (Owned-address b owned))
            ∙ ap (λ (m : ℕ → ℕ). m o) (put_self s.memory at filled))
          (Holds-kept {pool = s.pool} s.unacked
            (λ x mine. (
              put_apart b x s.memory filled spaced owned
                  (omega (arith, weigh-append (is x) (of_slots s.unacked) []))
                  (λ o le. write-outside (view s.memory at) 0 o packet (inr (omega arith))),
              set_len-len b (u32 (length packet)) x (acquire s.pool).1
                  ∙ rw (ne→== b x (is_out x b (omega (arith, apart x)))) (acquire-len s.pool x),
            ))
            a.slots)
          a.sent
