-- ===== src/PacketRing/Share.antt =====
-- The ring between the kernel and one reader. The kernel writes the slots in order, and only one
-- whose status says that it is the kernel's; it sets the user flag when the frame is in place. The
-- reader calls `receive`, and `release` when it is done with the frame.
use fast_break.Base.{
  ℕ, suc, ◌+◌, ◌%◌, ◌<◌, ◌≡◌, ◌≢◌, subst, Option, none, some, List, [], ◌∷◌, ◌++◌, arith, bit_and,
  ◌==◌, if◌then◌else◌, get_or, length,
}
use fast_break.PacketRing.{FrameSlot, RxFrame, PacketRing, Flags, frame_of, receive, release}

pub record Shared : Type 0 where
  pub slots : ℕ → FrameSlot
  pub ring : PacketRing
  pub kernel_at : ℕ  -- the kernel's next slot
  pub held : Option RxFrame  -- received and not released
  pub written : List RxFrame  -- by the kernel
  pub read : List RxFrame  -- and released by the reader

abbrev pub fill_slot : ℕ → FrameSlot → (ℕ → FrameSlot) → ℕ → FrameSlot
fill_slot at h slots a = if a == at then h else slots a

pub data Step (flags : Flags) (s : Shared) : Shared → Type 0 where
  fill :
      (h : FrameSlot)
      → (s.slots (get_or s.ring.frames s.kernel_at 0)).tp_status ≡ 0
      → bit_and h.tp_status flags.user ≢ 0
      → Step flags s (record s {
        slots = fill_slot (get_or s.ring.frames s.kernel_at 0) h s.slots;
        kernel_at = (s.kernel_at + 1) % s.ring.total_frames;
        written = s.written ++ (frame_of h ∷ []);
      })
  poll :
      (receive flags s.slots s.ring).0 ≡ none
      → Step flags s (record s { ring = (receive flags s.slots s.ring).1 })
  take :
      (f : RxFrame)
      → s.held ≡ none
      → (receive flags s.slots s.ring).0 ≡ some f
      → Step flags s (record s { ring = (receive flags s.slots s.ring).1; held = some f })
  finish :
      (f : RxFrame)
      → s.held ≡ some f
      → Step flags s (record s {
        slots = (release s.slots s.ring).0;
        ring = (release s.slots s.ring).1;
        held = none;
        read = s.read ++ (f ∷ []);
      })

pub data Reach (flags : Flags) (slots : ℕ → FrameSlot) (r : PacketRing) : Shared → Type 0 where
  here :
      Reach flags slots r
        (record { slots = slots; ring = r; kernel_at = 0; held = none; written = []; read = [] })
  next : {s t : Shared} → Reach flags slots r s → Step flags s t → Reach flags slots r t

module _ (flags : Flags) (at : ℕ → ℕ) (N : ℕ) where
  -- The frames `fs` wait in the slots from the `g`-th on.
  abbrev pub Filled : (ℕ → FrameSlot) → ℕ → List RxFrame → Type 0
  Filled slots g [] = Unit
  Filled slots g (f ∷ fs) =
      (bit_and (slots (at (g % N))).tp_status flags.user ≢ 0)
      × (frame_of (slots (at (g % N))) ≡ f)
      × Filled slots (g + 1) fs

  pub Filled-frame :
      (slots slots' : ℕ → FrameSlot) (g : ℕ) (fs : List RxFrame)
      → ((d : ℕ) → d < length fs → slots' (at ((g + d) % N)) ≡ slots (at ((g + d) % N)))
      → Filled slots g fs
      → Filled slots' g fs
  Filled-frame slots slots' g [] same c = tt
  Filled-frame slots slots' g (f ∷ fs) same (user, e, rest) =
      let zero_off : g + 0 ≡ g = omega arith in
      let here : slots' (at (g % N)) ≡ slots (at (g % N)) =
        subst (λ k. slots' (at (k % N)) ≡ slots (at (k % N))) zero_off (same 0 (omega arith)) in
      (
        rw here user,
        rw here e,
        Filled-frame slots slots' (g + 1) fs
            (λ d lt.
              let move : g + suc d ≡ g + 1 + d = omega arith in
              subst (λ k. slots' (at (k % N)) ≡ slots (at (k % N))) move
                (same (suc d) (omega arith)))
            rest,
      )

  pub Filled-append :
      (slots : ℕ → FrameSlot) (g : ℕ) (fs : List RxFrame) (f : RxFrame)
      → Filled slots g fs
      → bit_and (slots (at ((g + length fs) % N))).tp_status flags.user ≢ 0
      → frame_of (slots (at ((g + length fs) % N))) ≡ f
      → Filled slots g (fs ++ (f ∷ []))
  Filled-append slots g [] f c user e =
      let zero_off : g + 0 ≡ g = omega arith in
      subst (λ k. Filled slots k (f ∷ [])) zero_off (user, e, tt)
  Filled-append slots g (x ∷ fs) f (u, e', rest) user e =
      let move : g + suc (length fs) ≡ g + 1 + length fs = omega arith in
      (u, e', Filled-append slots (g + 1) fs f rest (rw move at user) (rw move at e))
