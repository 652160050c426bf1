-- ===== src/Tcp/Endpoint/Peer/Arrive.antt =====
-- The calls of a session keep what is known of it, and a packet that arrives may add to it.
use fast_break.Base.{
  ℕ, ◌+◌, ◌^◌, ◌≤◌, ◌<◌, ◌≡◌, refl, sym, subst, ap, ap₂, ◌∙◌, inl, inr, false, List, [], ◌∷◌, ◌++◌,
  arith, length, Bool-cases, Option-cases, ◌==◌, ==_refl, u32,
}
use fast_break.Base.Sums.{is}
use fast_break.Pool.{Pool, acquire, release}
use fast_break.Pool.Owned.{Owned, Owned-address, Spaced, address, set_len-address}
use fast_break.Tcp.Crc.Detect.{AllBytes}
use fast_break.Tcp.Header.{header_at, verify_checksum}
use fast_break.Tcp.Memory.{read, write}
use fast_break.Tcp.Session.{
  data_of, view, Clock, Session, send, tick, on_ack, on_data, on_packet_received,
}
use fast_break.Tcp.Session.Arrivals.{on_data-acknowledges}
use fast_break.Tcp.Session.Receive.{Receiving, on_data-Receiving}
use fast_break.Tcp.Session.Region.{seen, put_self}
use fast_break.Tcp.Session.Sender.{Receiver, receiver_of, Sender, Later}
use fast_break.Tcp.Session.Sender.Arrival.{on_data-Sender, release-Sender, fill-Sender}
use fast_break.Tcp.Session.Sender.Calls.{send-Later, tick-Later, on_ack-Later}
use fast_break.Tcp.Session.Sender.Pump.{Later-refl, acquire-none-Sender}
use fast_break.Tcp.Session.Slots.{IsPacket, packet_short}
use fast_break.Tcp.Endpoint.{fill, deliver}
use fast_break.Tcp.Endpoint.Peer.{Garbled, nth, End, Receiving-same, packet_at}

-- What is known after a call: more segments may have been cut, and more delivered.
pub record EndLater (p₀ : Pool) (stream : List ℕ) (segs peer : List (List ℕ)) (k j : ℕ)
    (s : Session) : Type 0 where
  pub more : List (List ℕ)
  pub reached : ℕ
  pub further : k ≤ reached
  pub end : End p₀ stream (segs ++ more) peer reached j s

module _ {p₀ : Pool} {stream : List ℕ} {segs : List (List ℕ)} {j : ℕ} where
  idle :
      {k : ℕ} {kept : ℕ → ℕ → ℕ} {r : Receiver} {s : Session}
      → Sender p₀ [] kept r stream k j segs s
      → Sender p₀ [] (λ x y. 0) (receiver_of s) stream k j segs s
  idle a = record {
    account = a.account;
    intact = λ x mine. absurd (omega arith);
    receiver = refl;
    telling = a.telling;
    una = a.una;
    oldest = a.oldest;
    acknowledged = a.acknowledged;
    numbered = a.numbered;
    whole = a.whole;
    offset = a.offset;
    many = a.many;
    bytes = a.bytes;
    slots = a.slots;
    sent = a.sent;
  }

module _ {p₀ : Pool} {stream : List ℕ} {segs : List (List ℕ)} {j : ℕ} where
  -- A call of the sending half.
  sent-EndLater :
      {peer : List (List ℕ)} {k : ℕ} {kept : ℕ → ℕ → ℕ} (s t : Session)
      → Receiving (nth peer) (length peer) k s
      → Later p₀ [] kept (receiver_of s) stream k j segs t
      → EndLater p₀ stream segs peer k j t
  sent-EndLater {k} s t r l = record {
    more = l.more;
    reached = k;
    further = omega arith;
    end = record { sending = idle l.sender; receiving = Receiving-same s t l.sender.receiver r };
  }

at_buffer :
    {p₀ : Pool} {xs : List ℕ} {f : ℕ → ℕ} (b : ℕ) (s : Session)
    → Owned p₀ s.pool xs
    → ((o : ℕ) → o < 1040 → seen p₀ s.memory b o ≡ f o)
    → (o : ℕ) → o < 1040
    → data_of b s o ≡ f o
at_buffer b s owned h o lt = ap (λ q. s.memory (q + o)) (Owned-address b owned) ∙ h o lt

module _ {p₀ : Pool} (spaced : Spaced 1040 p₀) (clock : Clock) {stream : List ℕ}
    {segs peer : List (List ℕ)} {k j : ℕ} where
  pub send-End :
      (more : List ℕ) (s : Session)
      → AllBytes more
      → End p₀ stream segs peer k j s
      → EndLater p₀ (stream ++ more) segs peer k j (send clock more s)
  send-End more s good e =
      sent-EndLater s (send clock more s) e.receiving
        (send-Later spaced clock more s good e.sending)

  pub tick-End :
      (s : Session)
      → End p₀ stream segs peer k j s
      → EndLater p₀ stream segs peer k j (tick clock s)
  tick-End s e = sent-EndLater s (tick clock s) e.receiving (tick-Later spaced clock s e.sending)

  -- The payload of a packet, behind the handling of the acknowledgement.
  data-EndLater :
      {kept : ℕ → ℕ → ℕ} {r : Receiver} (b n seq : ℕ) (payload : List ℕ) (s t : Session)
      → length peer ≤ 2 ^ 31
      → n < length peer
      → seq ≡ u32 n
      → payload ≡ nth peer n
      → Receiving (nth peer) (length peer) k t
      → Later p₀ (b ∷ []) kept r stream k j segs t
      → let u = on_data seq payload t in
        EndLater p₀ stream segs peer k j (record u { pool = release b u.pool })
  data-EndLater b n seq payload s t small below num there r l =
      let u = on_data seq payload t in
      let (k', further, _, q) = on_data-Receiving (nth peer) (length peer) k n t r below small in
      let same : u ≡ on_data (u32 n) (nth peer n) t = ap₂ (λ q v. on_data q v t) num there in
      let r' = subst (Receiving (nth peer) (length peer) k') (sym same) q in
      let telling = on_data-acknowledges seq payload t (omega (arith, r.base)) ∙ r'.base in
      record {
        more = l.more;
        reached = k';
        further = further;
        end = record {
          sending =
              idle
                (release-Sender spaced b u (on_data-Sender seq payload t further telling l.sender));
          receiving = Receiving-same u (record u { pool = release b u.pool }) refl r';
        };
      }

  bare-EndLater :
      {kept : ℕ → ℕ → ℕ} {r : Receiver} (b : ℕ) (t : Session)
      → Receiving (nth peer) (length peer) k t
      → Later p₀ (b ∷ []) kept r stream k j segs t
      → EndLater p₀ stream segs peer k j (record t { pool = release b t.pool })
  bare-EndLater b t r l = record {
    more = l.more;
    reached = k;
    further = omega arith;
    end = record {
      sending = idle (release-Sender spaced b t l.sender);
      receiving = Receiving-same t (record t { pool = release b t.pool }) refl r;
    };
  }

  pub on_packet_received-EndLater :
      (b : ℕ) (bytes : List ℕ) (m : ℕ → ℕ) (s : Session)
      → length peer ≤ 2 ^ 31
      → IsPacket peer j bytes
      → Receiving (nth peer) (length peer) k s
      → Sender p₀ (b ∷ []) (λ x. write m 0 bytes) (receiver_of s) stream k j segs s
      → EndLater p₀ stream segs peer k j (on_packet_received clock b s)
  unfolding on_packet_received
  on_packet_received-EndLater b bytes m s small p r a =
      let one : is b b ≡ 1 = rw (==_refl b) refl in
      let here = at_buffer b s a.account.owned (a.intact b (omega arith)) in
      let h = header_at (data_of b s) in
      let t = on_ack clock h s in
      let (_, ack, len, _, ok) = packet_at (data_of b s) m here p in
      let l = on_ack-Later spaced clock h p.told s p.delivered ack a in
      let after = at_buffer b t l.sender.account.owned (l.sender.intact b (omega arith)) in
      let (num, _, _, there, _) = packet_at (data_of b t) m after p in
      let r' = Receiving-same s t l.sender.receiver r in
      elim (Bool-cases (h.payload_len == 0)) [
        | inl bare ↦ rw (ok, bare) (bare-EndLater b t r' l)
        | inr loaded ↦ elim p.segment [
          | inl empty ↦ absurd (ground (arith, ap (length {A = ℕ}) empty))
          | inr (n, below, name, content) ↦
              rw (ok, loaded)
                (data-EndLater b n _ _ s t small below (num ∙ name)
                  (ap (read (data_of b t) 16) len ∙ there ∙ content) r' l)
        ]
      ]

  pub deliver-End :
      (bytes : List ℕ) (s : Session)
      → length peer ≤ 2 ^ 31
      → IsPacket peer j bytes
      → End p₀ stream segs peer k j s
      → EndLater p₀ stream segs peer k j (deliver clock bytes s)
  unfolding deliver
  deliver-End bytes s small p e = elim (Option-cases ((acquire s.pool).0)) [
    | inl gone ↦
        rw (gone, deliver)
          (sent-EndLater s (record s { pool = (acquire s.pool).1 }) e.receiving
            (Later-refl (acquire-none-Sender spaced s gone e.sending)))
    | inr (b, got) ↦
        let s' = record s { pool = (acquire s.pool).1 } in
        let f = fill b bytes s' in
        rw (got, deliver)
          (on_packet_received-EndLater b bytes (data_of b s') f small p
            (Receiving-same s f (unfold fill in refl) e.receiving)
            (unfold fill in fill-Sender spaced b bytes s got (packet_short p) e.sending))
  ]

  -- A packet that is not accepted leaves the session as it was.
  pub deliver-Garbled-End :
      (bytes : List ℕ) (s : Session)
      → Garbled bytes
      → length bytes ≤ 1040
      → End p₀ stream segs peer k j s
      → EndLater p₀ stream segs peer k j (deliver clock bytes s)
  unfolding deliver on_packet_received
  deliver-Garbled-End bytes s bad short e = elim (Option-cases ((acquire s.pool).0)) [
    | inl gone ↦
        rw (gone, deliver)
          (sent-EndLater s (record s { pool = (acquire s.pool).1 }) e.receiving
            (Later-refl (acquire-none-Sender spaced s gone e.sending)))
    | inr (b, got) ↦
        let s' = record s { pool = (acquire s.pool).1 } in
        let f = fill b bytes s' in
        let filled : Sender p₀ (b ∷ []) (λ x. write (data_of b s') 0 bytes) (receiver_of s) stream k
            j segs f =
          unfold fill in fill-Sender spaced b bytes s got short e.sending in
        let one : is b b ≡ 1 = rw (==_refl b) refl in
        let here : data_of b f ≡ write (data_of b s') 0 bytes =
          unfold fill in
          ap (view f.memory) (set_len-address b (u32 (length bytes)) b s'.pool)
          ∙ put_self s.memory (address s'.pool b) (write (data_of b s') 0 bytes) in
        let refused : verify_checksum (header_at (data_of b f))
              (read (data_of b f) 16 (header_at (data_of b f)).payload_len)
            ≡ false =
          rw here (bad (data_of b s')) in
        rw (got, deliver, refused)
          (bare-EndLater b f (Receiving-same s f (unfold fill in refl) e.receiving)
            (Later-refl filled))
  ]
