-- ===== src/PacketRing/Slots.antt =====
-- The frames that wait in the slots of a ring, and how each step changes them.
use fast_break.Base.{
  ℕ, suc, ◌+◌, ◌-◌, ◌%◌, ◌≤◌, ◌<◌, ◌≡◌, ◌≢◌, refl, sym, ap, subst, ◌∙◌, Option, none, some, List,
  [], ◌∷◌, ◌++◌, arith, bit_and, ==_refl, ne→==, get_or, length, length-append, append_assoc,
}
use fast_break.Base.Bits.{zero-and}
use fast_break.Base.Modulus.{mod-ne}
use native.Mathlib.Nat.{mod-lt, add-mod_right}
use native.Mathlib.Decide.{dec_lt}
use fast_break.PacketRing.{
  FrameSlot, RxFrame, PacketRing, Flags, current_slot, frame_of, receive, give_back, Os,
}
use fast_break.PacketRing.Open.{IsOpen}
use fast_break.PacketRing.Share.{Shared, fill_slot, Filled, Filled-frame, Filled-append}

-- The frame that waits longest.
abbrev pub first_of : List RxFrame → Option RxFrame
first_of [] = none
first_of (f ∷ rest) = some f

module _ (flags : Flags) {num_blocks : ℕ} {r₀ : PacketRing} {os : Os} {fd base : ℕ}
    (positive : 0 < num_blocks) (o : IsOpen num_blocks r₀ os fd base) where
  abbrev at : ℕ → ℕ
  at i = get_or r₀.frames i 0

  abbrev N : ℕ
  N = r₀.total_frames

  N_pos : 0 < N
  N_pos = omega (arith, o.number.0)

  at-ne : (i j : ℕ) → i < N → j < N → i ≢ j → at i ≢ at j
  at-ne i j hi hj ne = omega (arith, (o.tiles i hi).0, (o.tiles j hj).0)

  pub slot-lt : (g : ℕ) → g % N < N
  slot-lt g = mod-lt g N_pos

  apart_lt : (g d e : ℕ) → d < e → e < N → at ((g + e) % N) ≢ at ((g + d) % N)
  apart_lt g d e lt near =
      at-ne ((g + e) % N) ((g + d) % N) (slot-lt (g + e)) (slot-lt (g + d)) (λ same.
        let move : g + e ≡ g + d + (e - d) = omega arith in
        mod-ne N (g + d) (e - d) (omega arith) (omega arith) (ap (λ k. k % N) (sym move) ∙ same))

  apart : (g d e : ℕ) → d ≢ e → d < N → e < N → at ((g + d) % N) ≢ at ((g + e) % N)
  apart g d e ne hd he = elim (dec_lt d e) [
    | yes lt ↦ λ same. apart_lt g d e lt he (sym same)
    | no ge ↦ apart_lt g e d (omega arith) hd
  ]

  -- `g` frames have been released; `waiting` are in the ring.
  pub record Inv (s : Shared) (g : ℕ) (waiting : List RxFrame) : Type 0 where
    pub frames : s.ring.frames ≡ r₀.frames
    pub total : s.ring.total_frames ≡ N
    pub current : s.ring.current_frame ≡ g % N
    pub kernel : s.kernel_at ≡ (g + length waiting) % N
    pub few : length waiting ≤ N
    pub filled : Filled flags at N s.slots g waiting
    pub empty : (d : ℕ) → length waiting ≤ d → d < N → (s.slots (at ((g + d) % N))).tp_status ≡ 0
    pub log : s.written ≡ s.read ++ waiting
    pub held : (f : RxFrame) → s.held ≡ some f → (rest : List RxFrame) × (waiting ≡ f ∷ rest)

  pub receive-nil :
      (s : Shared) (g : ℕ) → Inv s g [] → receive flags s.slots s.ring ≡ (none, s.ring)
  unfolding receive
  receive-nil s g i =
      let place : g + 0 ≡ g = omega arith in
      let clear : (s.slots (at (g % N))).tp_status ≡ 0 =
        subst (λ k. (s.slots (at (k % N))).tp_status ≡ 0) place (i.empty 0 (omega arith) N_pos) in
      rw (i.frames, i.current, clear, zero-and flags.user)

  pub receive-cons :
      (s : Shared) (g : ℕ) (f : RxFrame) (rest : List RxFrame)
      → Inv s g (f ∷ rest)
      → let (got, r) = receive flags s.slots s.ring in
        (got ≡ some f)
        × (r.frames ≡ s.ring.frames)
        × (r.total_frames ≡ s.ring.total_frames)
        × (r.current_frame ≡ s.ring.current_frame)
  unfolding receive
  receive-cons s g f rest i =
      let (user, e, _) = i.filled in
      rw (i.frames, i.current, ne→== _ 0 user, e) (refl, refl, refl, refl)

  pub next_frame :
      (s : Shared) (g : ℕ) (waiting : List RxFrame)
      → Inv s g waiting
      → (receive flags s.slots s.ring).0 ≡ first_of waiting
  next_frame s g [] i = ap (λ (p : Option RxFrame × PacketRing). p.0) (receive-nil s g i)
  next_frame s g (f ∷ rest) i = (receive-cons s g f rest i).0

  pub held_frame :
      (s : Shared) (g : ℕ) (waiting : List RxFrame)
      → Inv s g waiting
      → (f : RxFrame) → s.held ≡ some f
      → (first_of waiting ≡ some f) × (frame_of (s.slots (current_slot s.ring)) ≡ f)
  held_frame s g [] i f e = absurd (cc ((i.held f e).1))
  held_frame s g (f' ∷ rest) i f e =
      let w = (i.held f e).1 in
      let same : f' ≡ f = cc w in (ap some same, rw (i.frames, i.current) (i.filled.1 ∙ same))

  -- The kernel has room exactly when not all slots wait.
  pub room :
      (s : Shared) (g : ℕ) (waiting : List RxFrame)
      → Inv s g waiting
      → (s.slots (at s.kernel_at)).tp_status ≡ 0
      → length waiting < N
  room s g [] i clear = N_pos
  room s g (f ∷ rest) i clear = elim (dec_lt (length (f ∷ rest)) N) [
    | yes lt ↦ lt
    | no ge ↦
        let full : g + length (f ∷ rest) ≡ g + N = omega (arith, i.few) in
        let wraps : s.kernel_at ≡ g % N = i.kernel ∙ ap (λ k. k % N) full ∙ add-mod_right g N in
        absurd (i.filled.0 (rw (← wraps, clear) (zero-and flags.user)))
  ]

  module _ (s : Shared) (g : ℕ) (waiting : List RxFrame) (i : Inv s g waiting) where
    pub fill-Inv :
        (h : FrameSlot) (a k : ℕ)
        → a ≡ at ((g + length waiting) % N)
        → k ≡ (g + (length waiting + 1)) % N
        → length waiting < N
        → bit_and h.tp_status flags.user ≢ 0
        → Inv
            (record s {
              slots = fill_slot a h s.slots;
              kernel_at = k;
              written = s.written ++ (frame_of h ∷ []);
            })
            g
            (waiting ++ (frame_of h ∷ []))
    fill-Inv h a k ea ek lt user =
        let n = length waiting in
        let grown : length (waiting ++ (frame_of h ∷ [])) ≡ n + 1 =
          length-append waiting (frame_of h ∷ []) in
        let put = fill_slot a h s.slots in
        let other : (d : ℕ) → d ≢ n → d < N → put (at ((g + d) % N)) ≡ s.slots (at ((g + d) % N)) =
          λ d ne small.
            rw (ne→== (at ((g + d) % N)) a (λ e. apart g d n ne small lt (e ∙ ea))) refl in
        let mine : put (at ((g + n) % N)) ≡ h = rw (ea, ==_refl (at ((g + n) % N))) refl in
        record {
          frames = i.frames;
          total = i.total;
          current = i.current;
          kernel = ek ∙ ap (λ m. (g + m) % N) (sym grown);
          few = omega (arith, grown);
          filled =
              Filled-append flags at N put g waiting (frame_of h)
                (Filled-frame flags at N s.slots put g waiting
                  (λ d small. other d (omega arith) (omega arith)) i.filled)
                (rw mine user) (rw mine refl);
          empty = λ d le small.
              rw (other d (omega (arith, grown)) small) (i.empty d (omega (arith, grown)) small);
          log =
              ap (λ l. l ++ (frame_of h ∷ [])) i.log
              ∙ append_assoc s.read waiting (frame_of h ∷ []);
          held = λ f e. let (rest, w) = i.held f e in (rest ++ (frame_of h ∷ []), rw w refl);
        }

    -- A call of `receive` that changes nothing but the counter of drops.
    pub receive-Inv :
        (r : PacketRing) (held : Option RxFrame)
        → r.frames ≡ s.ring.frames
        → r.total_frames ≡ s.ring.total_frames
        → r.current_frame ≡ s.ring.current_frame
        → ((f : RxFrame) → held ≡ some f → (rest : List RxFrame) × (waiting ≡ f ∷ rest))
        → Inv (record s { ring = r; held = held }) g waiting
    receive-Inv r held ef et ec h = record {
      frames = ef ∙ i.frames;
      total = et ∙ i.total;
      current = ec ∙ i.current;
      kernel = i.kernel;
      few = i.few;
      filled = i.filled;
      empty = i.empty;
      log = i.log;
      held = h;
    }

  module _ (s : Shared) (g : ℕ) (f : RxFrame) (rest : List RxFrame) (i : Inv s g (f ∷ rest)) where
    pub finish-Inv :
        (a : ℕ) (r : PacketRing)
        → a ≡ at (g % N)
        → r.frames ≡ r₀.frames
        → r.total_frames ≡ N
        → r.current_frame ≡ (g + 1) % N
        → Inv
            (record s {
              slots = give_back a s.slots;
              ring = r;
              held = none;
              read = s.read ++ (f ∷ []);
            })
            (g + 1)
            rest
    unfolding give_back
    finish-Inv a r ea ef et ec =
        let n = length rest in
        let put = give_back a s.slots in
        let zero_off : g + 0 ≡ g = omega arith in
        let first : a ≡ at ((g + 0) % N) = ea ∙ ap (λ k. at (k % N)) (sym zero_off) in
        let other : (d : ℕ) → 0 < d → d < N → put (at ((g + d) % N)) ≡ s.slots (at ((g + d) % N)) =
          λ d pos small.
            rw (ne→== (at ((g + d) % N)) a (λ e. apart g d 0 (omega arith) small N_pos (e ∙ first)))
              refl in
        record {
          frames = ef;
          total = et;
          current = ec;
          kernel = i.kernel ∙ ap (λ k. k % N) {x = g + (suc n)} {y = g + 1 + n} (omega arith);
          few = omega (arith, i.few);
          filled =
              Filled-frame flags at N s.slots put (g + 1) rest
                (λ d small.
                  subst (λ k. put (at (k % N)) ≡ s.slots (at (k % N))) {x = g + suc d}
                    {y = g + 1 + d} (omega arith)
                    (other (suc d) (omega arith) (omega (arith, i.few))))
                (i.filled.2);
          empty = λ d le small. elim (dec_lt (suc d) N) [
            | yes lt ↦
                subst (λ k. (put (at (k % N))).tp_status ≡ 0) {x = g + suc d} {y = g + 1 + d}
                  (omega arith)
                  (rw (other (suc d) (omega arith) lt) (i.empty (suc d) (omega arith) lt))
            | no ge ↦
                let wraps : at ((g + 1 + d) % N) ≡ a =
                  ap (λ k. at (k % N)) {x = g + 1 + d} {y = g + N} (omega arith)
                  ∙ ap at (add-mod_right g N)
                  ∙ sym ea in
                rw (wraps, ==_refl a) refl
          ];
          log = i.log ∙ sym (append_assoc s.read (f ∷ []) rest);
          held = λ f' e. absurd (cc e);
        }
