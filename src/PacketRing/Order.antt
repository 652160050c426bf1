-- ===== src/PacketRing/Order.antt =====
-- The frames that the reader gets from the kernel, and in which order.
use fast_break.Base.{
  ℕ, ◌+◌, ◌%◌, ◌≤◌, ◌<◌, ◌≡◌, refl, sym, ap, subst, ◌∙◌, Option, none, some, some_inj, List, [],
  ◌∷◌, ◌++◌, arith, get_or, length,
}
use fast_break.Base.Modulus.{mod_next}
use native.Mathlib.Nat.{zero-mod}
use fast_break.PacketRing.{
  FrameSlot, RxFrame, PacketRing, Flags, current_slot, frame_of, receive, release, Os,
}
use fast_break.PacketRing.Open.{IsOpen}
use fast_break.PacketRing.Share.{Shared, Step, fill, poll, take, finish, Reach, here, next}
use fast_break.PacketRing.Slots.{
  first_of, Inv, fill-Inv, receive-Inv, finish-Inv, room, receive-nil, receive-cons, next_frame,
  held_frame, slot-lt,
}

module _ (flags : Flags) {num_blocks : ℕ} {r₀ : PacketRing} {os : Os} {fd base : ℕ}
    (positive : 0 < num_blocks) (o : IsOpen num_blocks r₀ os fd base) where
  abbrev at : ℕ → ℕ
  at i = get_or r₀.frames i 0

  abbrev N : ℕ
  N = r₀.total_frames

  Step-Inv :
      {s t : Shared} (g : ℕ) (waiting : List RxFrame)
      → Step flags s t
      → Inv flags positive o s g waiting
      → (g' : ℕ) × (waiting' : List RxFrame) × Inv flags positive o t g' waiting'
  unfolding release
  Step-Inv {s} g waiting (fill h clear user) i =
      let here : get_or s.ring.frames s.kernel_at 0 ≡ at s.kernel_at =
        ap (λ l. get_or l s.kernel_at 0) i.frames in
      let clear' : (s.slots (at s.kernel_at)).tp_status ≡ 0 = rw here at clear in
      (
        g,
        waiting ++ (frame_of h ∷ []),
        fill-Inv flags positive o s g waiting i h (get_or s.ring.frames s.kernel_at 0)
            ((s.kernel_at + 1) % s.ring.total_frames) (here ∙ ap at i.kernel)
            (ap (λ m. (s.kernel_at + 1) % m) i.total
              ∙ ap (λ m. (m + 1) % N) i.kernel
              ∙ mod_next N (g + length waiting) 1
              ∙ ap (λ m. m % N) {x = g + length waiting + 1} {y = g + (length waiting + 1)}
                  (omega arith))
            (room flags positive o s g waiting i clear') user,
      )
  Step-Inv {s} g [] (poll e) i =
      let same : (receive flags s.slots s.ring).1 ≡ s.ring =
        ap (λ (p : Option RxFrame × PacketRing). p.1) (receive-nil flags positive o s g i) in
      (
        g,
        [],
        receive-Inv flags positive o s g [] i (receive flags s.slots s.ring).1 s.held
            (ap (λ (r : PacketRing). r.frames) same) (ap (λ (r : PacketRing). r.total_frames) same)
            (ap (λ (r : PacketRing). r.current_frame) same) i.held,
      )
  Step-Inv {s} g (f ∷ rest) (poll e) i =
      absurd (cc ((receive-cons flags positive o s g f rest i).0))
  Step-Inv {s} g [] (take f idle e) i =
      absurd
        (cc (ap (λ (p : Option RxFrame × PacketRing). p.0) (receive-nil flags positive o s g i)))
  Step-Inv {s} g (f ∷ rest) (take f' idle e) i =
      let (got, ef, et, ec) = receive-cons flags positive o s g f rest i in
      let same : f ≡ f' = some_inj (sym got ∙ e) in
      (
        g,
        f ∷ rest,
        receive-Inv flags positive o s g (f ∷ rest) i (receive flags s.slots s.ring).1 (some f') ef
            et ec (λ f'' h. (rest, ap (λ x. x ∷ rest) (same ∙ some_inj h))),
      )
  Step-Inv {s} g [] (finish f e) i = absurd (cc ((i.held f e).1))
  Step-Inv {s} g (f' ∷ rest) (finish f e) i =
      let w = (i.held f e).1 in
      let same : f' ≡ f = cc w in
      (
        g + 1,
        rest,
        subst
            (λ x.
              Inv flags positive o
                (record s {
                  slots = (release s.slots s.ring).0;
                  ring = (release s.slots s.ring).1;
                  held = none;
                  read = s.read ++ (x ∷ []);
                })
                (g + 1) rest)
            same
            (finish-Inv flags positive o s g f' rest i (current_slot s.ring)
              (release s.slots s.ring).1
              (ap (λ l. get_or l s.ring.current_frame 0) i.frames ∙ ap at i.current) i.frames
              i.total
              (ap (λ m. (s.ring.current_frame + 1) % m) i.total
                ∙ ap (λ m. (m + 1) % N) i.current
                ∙ mod_next N g 1)),
      )

  Reach-Inv :
      {slots : ℕ → FrameSlot} {s : Shared}
      → Reach flags slots r₀ s
      → ((i : ℕ) → i < r₀.total_frames → (slots (get_or r₀.frames i 0)).tp_status ≡ 0)
      → (g : ℕ) × (waiting : List RxFrame) × Inv flags positive o s g waiting
  Reach-Inv here clear = (
    0,
    [],
    record {
      frames = refl;
      total = refl;
      current = o.at_first.0 ∙ sym (zero-mod N);
      kernel = sym (ap (λ m. m % N) {x = 0 + 0} {y = 0} refl ∙ zero-mod N);
      few = omega arith;
      filled = tt;
      empty = λ d le lt. clear ((0 + d) % N) (slot-lt flags positive o (0 + d));
      log = refl;
      held = λ f e. absurd (cc e);
    },
  )
  Reach-Inv (next r st) clear = let (g, waiting, i) = Reach-Inv r clear in Step-Inv g waiting st i

  -- In a ring of at least one block as the constructor leaves it, whose slots are the kernel's
  -- at first, after any steps of the kernel and of one reader: the frames that the kernel
  -- wrote are those that the reader released, in order, and then some that wait, at most as
  -- many as there are slots. `receive` returns the first that waits, if any. A frame that is
  -- held is that one, and its slot has not been written since.
  pub frames_in_order :
      {slots : ℕ → FrameSlot} {s : Shared}
      → Reach flags slots r₀ s
      → ((i : ℕ) → i < r₀.total_frames → (slots (get_or r₀.frames i 0)).tp_status ≡ 0)
      → (waiting : List RxFrame) × (s.written ≡ s.read ++ waiting)
        × (length waiting ≤ r₀.total_frames)
        × ((receive flags s.slots s.ring).0 ≡ first_of waiting)
        × ((f : RxFrame)
            → s.held ≡ some f
            → (first_of waiting ≡ some f) × (frame_of (s.slots (current_slot s.ring)) ≡ f))
  frames_in_order {slots} {s} r clear =
      let (g, waiting, i) = Reach-Inv r clear in
      (
        waiting,
        i.log,
        i.few,
        next_frame flags positive o s g waiting i,
        held_frame flags positive o s g waiting i,
      )
