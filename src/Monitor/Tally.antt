-- ===== src/Monitor/Tally.antt =====
-- What the kernel's slots hold for the program of src/capture.cpp, and the lines that tell it.
use fast_break.Base.{
  ℕ, zero, suc, ◌+◌, ◌≤◌, ◌≡◌, refl, inl, inr, ◌%◌, get_or, bit_and, if◌then◌else◌, ◌==◌, subst,
  ◌&&◌, List, [], ◌∷◌, ◌++◌, u64, Bool-cases, arith,
}
use fast_break.PacketRing.{FrameSlot, PacketRing, Flags, give_back}
use fast_break.Parser.{ParsedPacket}
use fast_break.Monitor.{Output, packet, rate, show_packet}

-- The packets of the lines that give a rate.
abbrev pub rates : List Output → ℕ
rates [] = 0
rates (packet time src src_port dst dst_port len ∷ lines) = rates lines
rates (rate packets total drops ∷ lines) = packets + rates lines

pub rates-append : (xs ys : List Output) → rates (xs ++ ys) ≡ rates xs + rates ys
rates-append [] ys = omega arith
rates-append (packet a b c d e f ∷ xs) ys = rates-append xs ys
rates-append (rate p t d ∷ xs) ys = omega (arith, rates-append xs ys)

pub show_packet-rates : (wall : ℕ) (p : ParsedPacket) → rates (show_packet wall p) ≡ 0
unfolding show_packet
show_packet-rates wall p = elim (Bool-cases (p.valid && p.has_udp)) [
  | inl shown ↦ rw shown refl
  | inr hidden ↦ rw hidden refl
]

module _ (kernel : ℕ → (ℕ → FrameSlot) → ℕ → FrameSlot) (flags : Flags) (ring : PacketRing)
    (slots : ℕ → FrameSlot) where
  -- A look at the slot at `at`, after `n` frames and with `d` drops: a frame that is there is counted,
  -- its slot given back, and a drop counted if it says so.
  abbrev pub look_at : ℕ → ℕ → ℕ → (ℕ → FrameSlot) → ℕ × ℕ × (ℕ → FrameSlot)
  look_at at n d s = if bit_and (s at).tp_status flags.user == 0 then (n, d, s) else (
    n + 1,
    if bit_and (s at).tp_status flags.losing == 0 then d else u64 (d + 1),
    give_back at s,
  )

  -- The frames, the drops and the slots after a number of looks, each at the slot behind the last
  -- frame's.
  abbrev pub tally : ℕ → ℕ × ℕ × (ℕ → FrameSlot)
  tally zero = (0, ring.drops, slots)
  tally (suc i) =
      look_at (get_or ring.frames ((ring.current_frame + (tally i).0) % ring.total_frames) 0)
        (tally i).0 (tally i).1 (kernel i (tally i).2)

  -- After `sum` packets: each line that gives a rate tells the packets since the line before, and the
  -- frames and the drops after some number of rounds up to `k`.
  abbrev pub Told : ℕ → ℕ → List Output → Type 0
  Told k sum [] = Unit
  Told k sum (packet time src src_port dst dst_port len ∷ lines) = Told k sum lines
  Told k sum (rate packets total drops ∷ lines) =
      (sum + packets ≡ total)
      × ((j : ℕ) × (j ≤ k) × (total ≡ (tally j).0) × (drops ≡ (tally j).1))
      × Told k total lines

  pub Told-append :
      (k sum : ℕ) (xs ys : List Output)
      → Told k sum xs
      → Told k (sum + rates xs) ys
      → Told k sum (xs ++ ys)
  Told-append k sum [] ys a b =
      subst (λ n. Told k n ys) (let e : sum + 0 ≡ sum = omega arith in e) b
  Told-append k sum (packet t s p d q l ∷ xs) ys a b = Told-append k sum xs ys a b
  Told-append k sum (rate p t d ∷ xs) ys (now, there, a) b =
      let e : sum + (p + rates xs) ≡ t + rates xs = omega (arith, now) in
      (now, there, Told-append k t xs ys a (subst (λ n. Told k n ys) e b))

  pub Told-later : (k k' sum : ℕ) (xs : List Output) → k ≤ k' → Told k sum xs → Told k' sum xs
  Told-later k k' sum [] le a = tt
  Told-later k k' sum (packet t s p d q l ∷ xs) le a = Told-later k k' sum xs le a
  Told-later k k' sum (rate p t d ∷ xs) le (now, (j, small, n, m), a) =
      (now, (j, omega (arith, le, small), n, m), Told-later k k' t xs le a)

  pub show_packet-Told : (k sum wall : ℕ) (p : ParsedPacket) → Told k sum (show_packet wall p)
  unfolding show_packet
  show_packet-Told k sum wall p = elim (Bool-cases (p.valid && p.has_udp)) [
    | inl shown ↦ rw shown tt
    | inr hidden ↦ rw hidden tt
  ]
