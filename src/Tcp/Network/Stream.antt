-- ===== src/Tcp/Network/Stream.antt =====
-- What each side of the network delivers is what the other side was given.
use fast_break.Base.{
  ℕ, zero, suc, ◌^◌, ◌≤◌, ◌<◌, ◌≡◌, refl, sym, subst, ap, ◌∙◌, some, List, [], ◌∷◌, ◌++◌,
  append_assoc, arith, length, take, drop, take-append-drop,
}
use fast_break.Pool.FreeStack.{Descriptor, empty_index}
use fast_break.Pool.{Pool, create}
use fast_break.Tcp.Session.{Clock, Session, open_session}
use fast_break.Tcp.Session.Chunk.{concat, concat-append}
use fast_break.Tcp.Session.Receive.{first}
use fast_break.Tcp.Session.Sender.{Sender, Receiver}
use fast_break.Tcp.Endpoint.Peer.{nth, End}
use fast_break.Tcp.Network.{Network, joined, Moves}
use fast_break.Tcp.Network.Joined.{Joined, network-Joined, segments_few}

-- Everything before is the beginning of everything after.
abbrev pub Prefix : List ℕ → List ℕ → Type 0
Prefix xs ys = (rest : List ℕ) × (xs ++ rest ≡ ys)

take_next :
    (segs : List (List ℕ)) (k : ℕ)
    → k < length segs
    → take (suc k) segs ≡ take k segs ++ (nth segs k ∷ [])
take_next [] k lt = absurd (omega arith)
take_next (p ∷ ps) zero lt = refl
take_next (p ∷ ps) (suc k) lt = ap (λ l. p ∷ l) (take_next ps k (omega arith))

take_all : (segs : List (List ℕ)) → take (length segs) segs ≡ segs
take_all [] = refl
take_all (p ∷ ps) = ap (λ l. p ∷ l) (take_all ps)

first-take : (segs : List (List ℕ)) (k : ℕ) → k ≤ length segs → first (nth segs) k ≡ take k segs
unfolding first
first-take segs zero le = refl
first-take segs (suc k) le =
    ap (λ l. l ++ (nth segs k ∷ [])) (first-take segs k (omega arith))
    ∙ sym (take_next segs k (omega arith))

module _ {p₀ : Pool} {out : List ℕ} {kept : ℕ → ℕ → ℕ} {r : Receiver} {stream : List ℕ} {j told : ℕ}
    {segs : List (List ℕ)} {s : Session} where
  -- The first segments are the beginning of the stream.
  first-Prefix :
      (k : ℕ)
      → k ≤ length segs
      → Sender p₀ out kept r stream told j segs s
      → Prefix (concat (first (nth segs) k)) stream
  first-Prefix k le a = (
    concat (drop k segs) ++ drop s.tx_off s.pending_tx,
    ap (λ l. concat l ++ (concat (drop k segs) ++ drop s.tx_off s.pending_tx))
          (first-take segs k le)
        ∙ sym (
            append_assoc (concat (take k segs)) (concat (drop k segs)) (drop s.tx_off s.pending_tx))
        ∙ ap (λ l. l ++ drop s.tx_off s.pending_tx)
            (sym (concat-append (take k segs) (drop k segs)) ∙ ap concat (take-append-drop k segs))
        ∙ a.whole,
  )

-- The segments that the other side has acknowledged are all that there are.
all_segments :
    {p q : Pool} {given given' : List ℕ} {segs peer : List (List ℕ)} {k j : ℕ} {s t : Session}
    → length segs ≤ 2 ^ 31
    → s.next_seq ≡ s.snd_una
    → End p given segs peer k j s
    → End q given' peer segs j k t
    → concat t.delivered ++ drop s.tx_off s.pending_tx ≡ given
all_segments {segs} {j} {s} {t} few same e f =
    let all : j ≡ length segs =
      omega
        (arith, e.sending.acknowledged, e.sending.oldest, e.sending.numbered, f.receiving.most) in
    ap (λ l. concat l ++ drop s.tx_off s.pending_tx)
      (f.receiving.log
        ∙ first-take segs j f.receiving.most
        ∙ ap (λ n. take n segs) all
        ∙ take_all segs)
    ∙ e.sending.whole

module _ (c d : Clock) (backing backing' size size' n n' : ℕ) (at at' : ℕ → Descriptor) {p q : Pool}
    (memory memory' : ℕ → ℕ) {m : Network} (few : n ≤ empty_index) (few' : n' ≤ empty_index)
    (room : 1040 ≤ size) (room' : 1040 ≤ size') (small : size < 2 ^ 32) (small' : size' < 2 ^ 32)
    (made : create backing at size n ≡ some p) (made' : create backing' at' size' n' ≡ some q)
    (moves : Moves c d (joined (open_session p memory) (open_session q memory')) m)
    (short : length m.left_given ≤ 2 ^ 31) (short' : length m.right_given ≤ 2 ^ 31) where
  reached : Joined p q m
  reached =
      network-Joined c d backing backing' size size' n n' at at' memory memory' few few' room room'
        small small' made made' moves short short'

  -- Two sessions open over new pools, each of buffers of at least 1040 bytes and less than 2 ^
  -- 32, and of a number of them that is at most the empty mark; each side is given at most 2 ^
  -- 31 bytes to send. After any calls of `send` and `tick` on both sides and any arrivals,
  -- with packets lost, repeated, out of order and late, and with any bytes, at most 1040 at a
  -- time, that the checksum refuses in every buffer: what each side's data callback has been
  -- given, one run after the other, is the beginning of what the other side was given to send.
  pub network_in_order :
      Prefix (concat m.right.delivered) m.left_given
      × Prefix (concat m.left.delivered) m.right_given
  network_in_order =
      let j = reached in
      (
        subst (λ l. Prefix (concat l) m.left_given) (sym j.right.receiving.log)
            (first-Prefix j.right_at j.right.receiving.most j.left.sending),
        subst (λ l. Prefix (concat l) m.right_given) (sym j.left.receiving.log)
            (first-Prefix j.left_at j.left.receiving.most j.right.sending),
      )

  -- Two sessions open over new pools, each of buffers of at least 1040 bytes and less than 2 ^
  -- 32, and of a number of them that is at most the empty mark; each side is given at most 2 ^
  -- 31 bytes to send. After any calls of `send` and `tick` on both sides and any arrivals,
  -- with packets lost, repeated, out of order and late, and with any bytes, at most 1040 at a
  -- time, that the checksum refuses in every buffer: if the left session has no packet that is
  -- not acknowledged, then the right session's data callback has been given all that the left
  -- one was given to send, up to the bytes that are still pending.
  pub acknowledged_delivered :
      m.left.next_seq ≡ m.left.snd_una
      → concat m.right.delivered ++ drop m.left.tx_off m.left.pending_tx ≡ m.left_given
  acknowledged_delivered same =
      let j = reached in
      all_segments (omega (arith, segments_few j.left.sending)) same j.left j.right
