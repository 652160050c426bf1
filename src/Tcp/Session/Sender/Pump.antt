-- ===== src/Tcp/Session/Sender/Pump.antt =====
-- `pump_tx` cuts more segments from the stream, and loses nothing of it.
use fast_break.Base.{
  refl, ℕ, zero, suc, ◌≡◌, sym, subst, ap, ◌∙◌, inl, inr, ◌&&◌, none, List, [], ◌∷◌, ◌++◌,
  append_assoc, append-nil, arith, length, Bool-cases, Option-cases, ltb, ◌==◌, drop,
}
use fast_break.Pool.{Pool, acquire}
use fast_break.Pool.Owned.{Spaced, acquire-none-Owned}
use fast_break.Tcp.Session.{Clock, Session, may_send, send_chunk, pump_loop, pump_tx}
use fast_break.Tcp.Session.Chunk.{concat, chunk_of, drop_all}
use fast_break.Tcp.Session.Kept.{acquire-Holds}
use fast_break.Tcp.Session.Sender.{Sender-rest, Receiver, Sender, Later, send_chunk-Sender}

module _ {p₀ : Pool} {out : List ℕ} {kept : ℕ → ℕ → ℕ} {r : Receiver} {stream : List ℕ}
    {k j : ℕ} where
  pub Later-refl :
      {segs : List (List ℕ)} {s : Session}
      → Sender p₀ out kept r stream k j segs s
      → Later p₀ out kept r stream k j segs s
  Later-refl {segs} {s} a = record {
    more = [];
    sender = subst (λ l. Sender p₀ out kept r stream k j l s) (sym (append-nil segs)) a;
  }

  pub Later-trans :
      {segs : List (List ℕ)} {s : Session} (first : List (List ℕ))
      → Later p₀ out kept r stream k j (segs ++ first) s
      → Later p₀ out kept r stream k j segs s
  Later-trans {segs} {s} first l = record {
    more = first ++ l.more;
    sender =
        subst (λ l. Sender p₀ out kept r stream k j l s) (append_assoc segs first l.more) l.sender;
  }

module _ {p₀ : Pool} (spaced : Spaced 1040 p₀) {out : List ℕ} {kept : ℕ → ℕ → ℕ} {r : Receiver}
    {stream : List ℕ} {k j : ℕ} where
  -- The pool has no buffer.
  pub acquire-none-Sender :
      {segs : List (List ℕ)} (s : Session)
      → (acquire s.pool).0 ≡ none
      → Sender p₀ out kept r stream k j segs s
      → Sender p₀ out kept r stream k j segs (record s { pool = (acquire s.pool).1 })
  acquire-none-Sender s gone a =
      Sender-rest s _ refl a
        (record { owned = acquire-none-Owned gone a.account.owned; count = a.account.count })
        a.intact (acquire-Holds spaced.once s.unacked s.pool a.slots) a.sent

module _ {p₀ : Pool} (spaced : Spaced 1040 p₀) {out : List ℕ} {kept : ℕ → ℕ → ℕ} {r : Receiver}
    {stream : List ℕ} {k j : ℕ} (clock : Clock) where
  pub pump_loop-Later :
      (fuel : ℕ) {segs : List (List ℕ)} (s : Session)
      → Sender p₀ out kept r stream k j segs s
      → Later p₀ out kept r stream k j segs (pump_loop clock fuel s)
  unfolding pump_loop
  pump_loop-Later zero s a = Later-refl a
  pump_loop-Later (suc fuel) s a = elim (Bool-cases (may_send s)) [
    | inl more ↦ elim (Option-cases ((acquire s.pool).0)) [
      | inl gone ↦ rw (more, gone, pump_loop) (Later-refl (acquire-none-Sender spaced s gone a))
      | inr (b, got) ↦
          let t = send_chunk clock b (record s { pool = (acquire s.pool).1 }) in
          rw (more, got, pump_loop)
            (Later-trans (chunk_of s ∷ [])
              (pump_loop-Later fuel t (send_chunk-Sender spaced clock b s more got a)))
    ]
    | inr done ↦ rw (done, pump_loop) (Later-refl a)
  ]

  pub pump_tx-Later :
      {segs : List (List ℕ)} (s : Session)
      → Sender p₀ out kept r stream k j segs s
      → Later p₀ out kept r stream k j segs (pump_tx clock s)
  unfolding pump_tx
  pump_tx-Later {segs} s a =
      let t = pump_loop clock 256 s in
      let l = pump_loop-Later 256 s a in
      let b = l.sender in
      elim (Bool-cases (ltb 0 t.tx_off && (t.tx_off == length t.pending_tx))) [
        | inl all ↦ rw all (record {
          more = l.more;
          sender = record {
            account = record { owned = b.account.owned; count = b.account.count };
            intact = b.intact;
            receiver = b.receiver;
            telling = b.telling;
            una = b.una;
            oldest = b.oldest;
            acknowledged = b.acknowledged;
            numbered = b.numbered;
            whole =
                ap (λ z. concat (segs ++ l.more) ++ z)
                  (sym (drop_all t.pending_tx)
                    ∙ ap (λ k. drop k t.pending_tx) {x = length t.pending_tx} {y = t.tx_off}
                        (ground arith))
                ∙ b.whole;
            offset = omega arith;
            many = b.many;
            bytes = tt;
            slots = b.slots;
            sent = b.sent;
          };
        })
        | inr some_left ↦ rw some_left l
      ]
