-- ===== src/Monitor/Round.antt =====
-- One round of the program of src/capture.cpp, against what the kernel's slots hold.
use fast_break.Base.{
  ℕ, suc, ◌+◌, ◌^◌, ◌≤◌, ◌<◌, ◌≡◌, refl, inl, inr, true, false, Option, none, ◌%◌, get_or, bit_and,
  if◌then◌else◌, ◌==◌, subst, sym, ap₂, some, List, [], ◌∷◌, ◌++◌, leb, u64, sub64, Bool-cases,
  arith, ap, ◌∙◌,
}
use native.Mathlib.Nat.{mod-add-mod}
use fast_break.PacketRing.{
  RxFrame, FrameSlot, PacketRing, Flags, receive, give_back, current_slot, frame_of,
}
use fast_break.PacketRing
use fast_break.Parser.{parse}
use fast_break.Monitor.{rate, Monitor, show_packet, take_frame, poll, show_rate}
use fast_break.Monitor.Tally.{
  rates, rates-append, show_packet-rates, look_at, tally, Told, Told-append, Told-later,
  show_packet-Told,
}

module _ (kernel : ℕ → (ℕ → FrameSlot) → ℕ → FrameSlot) (flags : Flags) (ring : PacketRing)
    (slots : ℕ → FrameSlot) where
  -- After `i` rounds.
  pub record Counted (i : ℕ) (m : Monitor) : Type 0 where
    pub frames : m.ring.frames ≡ ring.frames
    pub total_frames : m.ring.total_frames ≡ ring.total_frames
    pub cursor : m.ring.current_frame ≡ (ring.current_frame + m.total) % ring.total_frames
    pub counts : (m.total, m.ring.drops, m.slots) ≡ tally kernel flags ring slots i
    pub sum : rates m.printed ≡ m.last_total
    pub order : m.last_total ≤ m.total
    pub bound : m.total ≤ i
    pub told : Told kernel flags ring slots i 0 m.printed

  counts-look_at :
      (i : ℕ) (m : Monitor)
      → Counted i m
      → look_at kernel flags ring slots
          (current_slot m.ring)
          m.total
          m.ring.drops
          (kernel i m.slots)
        ≡ tally kernel flags ring slots (suc i)
  counts-look_at i m c =
      let s = kernel i m.slots in
      ap₂
        (λ (l : List ℕ) (n : ℕ).
          look_at kernel flags ring slots (get_or l n 0) m.total m.ring.drops s)
        c.frames c.cursor
      ∙ ap
          (λ (t : ℕ × ℕ × (ℕ → FrameSlot)).
            look_at kernel flags ring slots
              (get_or ring.frames ((ring.current_frame + t.0) % ring.total_frames) 0) t.0 t.1
              (kernel i t.2))
          c.counts

  dropped : ℕ → FrameSlot → ℕ
  dropped d h = if bit_and h.tp_status flags.losing == 0 then d else u64 (d + 1)

  -- What `poll` does, by the slot that it looks at.
  poll-none :
      (wall : ℕ) (m : Monitor)
      → (bit_and (m.slots (current_slot m.ring)).tp_status flags.user == 0) ≡ true
      → poll flags wall m ≡ m
  unfolding poll receive
  poll-none wall m e =
      let got : receive flags m.slots m.ring ≡ (none, m.ring) = rw e refl in
      ap
        (λ (g : Option RxFrame × PacketRing). elim g.0 as (λ _. Monitor) [
          | none ↦ record m { ring = g.1 }
          | some frame ↦ take_frame wall frame (record m { ring = g.1 })
        ])
        got

  poll-some :
      (wall : ℕ) (m : Monitor)
      → let h = m.slots (current_slot m.ring) in
        (bit_and h.tp_status flags.user == 0) ≡ false
        → poll flags wall m ≡ (record m {
          total = u64 (m.total + 1);
          ring = record m.ring {
            drops = dropped m.ring.drops h;
            current_frame = (m.ring.current_frame + 1) % m.ring.total_frames;
          };
          slots = give_back (current_slot m.ring) m.slots;
          printed =
              m.printed ++ show_packet wall (parse (frame_of h).bytes (frame_of h).captured_len);
        })
  unfolding poll receive take_frame PacketRing.release dropped
  poll-some wall m e =
      let h = m.slots (current_slot m.ring) in
      let got : receive flags m.slots m.ring
          ≡ (some (frame_of h), record m.ring { drops = dropped m.ring.drops h }) =
        rw e refl in
      ap
        (λ (g : Option RxFrame × PacketRing). elim g.0 as (λ _. Monitor) [
          | none ↦ record m { ring = g.1 }
          | some frame ↦ take_frame wall frame (record m { ring = g.1 })
        ])
        got

  pub poll-Counted :
      (wall i : ℕ) (m : Monitor)
      → i + 1 < 2 ^ 64
      → Counted i m
      → Counted (suc i) (poll flags wall (record m { slots = kernel i m.slots }))
  unfolding dropped
  poll-Counted wall i m small c =
      let s = kernel i m.slots in
      let m₁ = record m { slots = s } in
      let at = current_slot m.ring in
      let look = counts-look_at i m c in
      let told = Told-later kernel flags ring slots i (suc i) 0 m.printed (omega arith) c.told in
      elim (Bool-cases (bit_and (s at).tp_status flags.user == 0)) [
        | inl nothing ↦
            let same = poll-none wall m₁ nothing in
            let counts : (m.total, m.ring.drops, s)
                ≡ look_at kernel flags ring slots at m.total m.ring.drops s =
              rw nothing refl in
            subst (Counted (suc i)) (sym same) (record {
              frames = c.frames;
              total_frames = c.total_frames;
              cursor = c.cursor;
              counts = counts ∙ look;
              sum = c.sum;
              order = c.order;
              bound = omega (arith, c.bound);
              told = told;
            })
        | inr there ↦
            let frame = frame_of (s at) in
            let shown = show_packet wall (parse frame.bytes frame.captured_len) in
            let d = dropped m.ring.drops (s at) in
            let m' : Monitor = record m {
              total = u64 (m.total + 1);
              ring = record m.ring {
                drops = d;
                current_frame = (m.ring.current_frame + 1) % m.ring.total_frames;
              };
              slots = give_back at s;
              printed = m.printed ++ shown;
            } in
            let same : poll flags wall m₁ ≡ m' = poll-some wall m₁ there in
            let one_more : u64 (m.total + 1) ≡ m.total + 1 = omega (arith, c.bound) in
            let counts : (u64 (m.total + 1), d, give_back at s)
                ≡ look_at kernel flags ring slots at m.total m.ring.drops s =
              rw there (ap (λ n. (n, d, give_back at s)) one_more) in
            subst (Counted (suc i)) (sym same) (record {
              frames = c.frames;
              total_frames = c.total_frames;
              cursor =
                  ap₂ (λ k n. (k + 1) % n) c.cursor c.total_frames
                  ∙ mod-add-mod (ring.current_frame + m.total) ring.total_frames 1
                  ∙ ap (λ k. k % ring.total_frames) {x = ring.current_frame + m.total + 1}
                      {y = ring.current_frame + u64 (m.total + 1)} (omega (arith, one_more));
              counts = counts ∙ look;
              sum = rates-append m.printed shown ∙ omega (arith, c.sum, show_packet-rates wall _);
              order = omega (arith, c.order, one_more);
              bound = omega (arith, c.bound, one_more);
              told =
                  Told-append kernel flags ring slots (suc i) 0 m.printed shown told
                    (show_packet-Told kernel flags ring slots _ _ wall _);
            })
      ]

  pub show_rate-Counted :
      (now i : ℕ) (m : Monitor) → i < 2 ^ 64 → Counted i m → Counted i (show_rate now m)
  unfolding show_rate
  show_rate-Counted now i m small c =
      elim (Bool-cases (leb 1_000_000_000 (sub64 now m.last_tick))) [
        | inl due ↦
            let p = sub64 m.total m.last_total in
            let added : m.last_total + p ≡ m.total = omega (arith, c.order, c.bound) in
            let all : rates m.printed + p ≡ m.total = omega (arith, c.sum, added) in
            let line : Told kernel flags ring slots i (0 + rates m.printed)
                (rate p m.total m.ring.drops ∷ []) =
              (
                omega (arith, all),
                (
                  i,
                  omega arith,
                  ap (λ (t : ℕ × ℕ × (ℕ → FrameSlot)). t.0) c.counts,
                  ap (λ (t : ℕ × ℕ × (ℕ → FrameSlot)). t.1) c.counts,
                ),
                tt,
              ) in
            rw due (record {
              frames = c.frames;
              total_frames = c.total_frames;
              cursor = c.cursor;
              counts = c.counts;
              sum = rates-append m.printed (rate p m.total m.ring.drops ∷ []) ∙ omega (arith, all);
              order = omega arith;
              bound = c.bound;
              told =
                  Told-append kernel flags ring slots i 0 m.printed
                    (rate p m.total m.ring.drops ∷ []) c.told line;
            })
        | inr early ↦ rw early c
      ]
