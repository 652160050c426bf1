-- ===== src/PacketRing/Open.antt =====
-- The constructor of `PacketRing`: what it leaves behind when it succeeds, and when it fails.
use fast_break.Base.{
  ℕ, ◌+◌, ◌*◌, ◌≤◌, ◌<◌, ◌≡◌, ◌⊎◌, inl, inr, refl, ◌∙◌, not, Option, none, some, Option-cases,
  Bool-cases, arith, leb, if◌then◌else◌, u32, is_pos32, get_or, length,
}
use fast_break.PacketRing.{
  block_size, frame_size, frames_per_block, PacketRing, Error, blocks_not_positive, name_too_long,
  socket_failed, no_interface, version_refused, ring_refused, map_failed, bind_failed, Os, Kernel,
  Attempt, going, failed, open_socket, find_interface, install_ring, map_memory, all_frames,
  cleanup, set_up, closed, or_clean_up, open_ring,
}
use fast_break.PacketRing.Frames.{length-all_frames, get_or-all_frames}

abbrev pub nothing_held : Os
nothing_held = record { open_fd = none; mapping = none }

-- An open ring of `num_blocks` blocks: the process holds one descriptor and one mapping for it, and
-- the frames lie in the mapping one after the other.
pub record IsOpen (num_blocks : ℕ) (r : PacketRing) (os : Os) (fd base : ℕ) : Type 0 where
  pub descriptor : (r.fd ≡ some fd) × (os.open_fd ≡ some fd)
  pub region : (r.ring ≡ some base) × (os.mapping ≡ some (base, num_blocks * block_size))
  pub at_first : (r.current_frame ≡ 0) × (r.drops ≡ 0)
  pub number : (r.total_frames ≡ num_blocks * frames_per_block) × (length r.frames ≡ r.total_frames)
  pub tiles :
      (i : ℕ)
      → i < r.total_frames
      → (get_or r.frames i 0 ≡ base + i * frame_size)
        × (base + i * frame_size + frame_size ≤ base + num_blocks * block_size)

-- What `set_up` makes of a ring that is closed.
abbrev Goes : Kernel → ℕ → Attempt (Unit {0}) → Type 0
Goes k num_blocks (going _ r os) =
    (fd : ℕ) × (base : ℕ) × (k.socket ≡ some fd)
    × (k.map_ring (num_blocks * block_size) ≡ some base)
    × IsOpen num_blocks r os fd base
Goes k num_blocks (failed e r os) = (cleanup r os).1 ≡ nothing_held

pub framed-IsOpen :
    (num_blocks fd base bytes : ℕ)
    → bytes ≡ num_blocks * block_size
    → IsOpen num_blocks
        (record {
          fd = some fd;
          ring = some base;
          ring_bytes = bytes;
          frames = all_frames base 0 num_blocks;
          total_frames = num_blocks * frames_per_block;
          current_frame = 0;
          drops = 0;
        })
        (record { open_fd = some fd; mapping = some (base, num_blocks * block_size) })
        fd
        base
framed-IsOpen num_blocks fd base bytes e = record {
  descriptor = (refl, refl);
  region = (refl, refl);
  at_first = (refl, refl);
  number = (refl, length-all_frames base 0 num_blocks);
  tiles = λ i lt. (get_or-all_frames base 0 num_blocks i lt ∙ omega arith, omega arith);
}

set_up-Goes :
    (k : Kernel) (num_blocks : ℕ) → Goes k num_blocks (set_up k num_blocks closed nothing_held)
unfolding set_up open_socket find_interface install_ring map_memory cleanup
set_up-Goes k n = elim (Option-cases k.socket) [
  | inl e ↦ rw e refl
  | inr (fd, e) ↦ elim (Option-cases k.interface_index) [
    | inl e₁ ↦ rw (e, e₁) refl
    | inr (index, e₁) ↦ elim (Bool-cases k.set_version) [
      | inr e₂ ↦ rw (e, e₁, e₂) refl
      | inl e₂ ↦ elim (Bool-cases (k.set_rx_ring n (u32 (n * frames_per_block)))) [
        | inr e₃ ↦ rw (e, e₁, e₂, e₃) refl
        | inl e₃ ↦ elim (Option-cases (k.map_ring (n * block_size))) [
          | inl e₄ ↦ rw (e, e₁, e₂, e₃, e₄) refl
          | inr (base, e₄) ↦ elim (Bool-cases (k.bind_socket index)) [
            | inr e₅ ↦ rw (e, e₁, e₂, e₃, e₄, e₅) refl
            | inl e₅ ↦
                rw (e, e₁, e₂, e₃, e₄, e₅)
                  (fd, base, refl, e₄, framed-IsOpen n fd base (n * block_size) refl)
          ]
        ]
      ]
    ]
  ]
]

abbrev Opened : Kernel → ℕ → Option PacketRing × Option Error × Os → Type 0
Opened k num_blocks (r, e, os) =
    ((ring : PacketRing) × (fd : ℕ) × (base : ℕ) × (r ≡ some ring)
      × (e ≡ none)
      × (k.socket ≡ some fd)
      × (k.map_ring (num_blocks * block_size) ≡ some base)
      × IsOpen num_blocks ring os fd base)
    ⊎ ((error : Error) × (r ≡ none) × (e ≡ some error) × (os ≡ nothing_held))

or_clean_up-Opened :
    (k : Kernel) (num_blocks : ℕ) (t : Attempt (Unit {0}))
    → Goes k num_blocks t
    → Opened k num_blocks (or_clean_up t)
unfolding or_clean_up
or_clean_up-Opened k n (going _ r os) (fd, base, s, m, o) = inl (r, fd, base, refl, refl, s, m, o)
or_clean_up-Opened k n (failed e r os) g = inr (e, refl, refl, g)

unfoldable pub calls_error : Kernel → ℕ → Option Error
calls_error k n = elim k.socket [
  | none ↦ some socket_failed
  | some fd ↦ elim k.interface_index [
    | none ↦ some no_interface
    | some index ↦
        if not k.set_version
        then some version_refused
        else if not (k.set_rx_ring n (u32 (n * frames_per_block)))
        then some ring_refused
        else (elim (k.map_ring (n * block_size)) [
          | none ↦ some map_failed
          | some base ↦ if k.bind_socket index then none else some bind_failed
        ])
  ]
]

-- The first call that fails, in the order in which they are made.
unfoldable pub first_error : Kernel → ℕ → ℕ → Option Error
first_error k name_size num_blocks =
    if not (is_pos32 num_blocks)
    then some blocks_not_positive
    else if leb k.name_limit name_size
    then some name_too_long
    else calls_error k num_blocks

set_up-calls_error :
    (k : Kernel) (n : ℕ) (r : PacketRing) (os : Os)
    → (or_clean_up (set_up k n r os)).1 ≡ calls_error k n
unfolding set_up open_socket find_interface install_ring map_memory or_clean_up calls_error
set_up-calls_error k n r os = elim (Option-cases k.socket) [
  | inl e ↦ rw e refl
  | inr (fd, e) ↦ elim (Option-cases k.interface_index) [
    | inl e₁ ↦ rw (e, e₁) refl
    | inr (index, e₁) ↦ elim (Bool-cases k.set_version) [
      | inr e₂ ↦ rw (e, e₁, e₂) refl
      | inl e₂ ↦ elim (Bool-cases (k.set_rx_ring n (u32 (n * frames_per_block)))) [
        | inr e₃ ↦ rw (e, e₁, e₂, e₃) refl
        | inl e₃ ↦ elim (Option-cases (k.map_ring (n * block_size))) [
          | inl e₄ ↦ rw (e, e₁, e₂, e₃, e₄) refl
          | inr (base, e₄) ↦ elim (Bool-cases (k.bind_socket index)) [
            | inr e₅ ↦ rw (e, e₁, e₂, e₃, e₄, e₅) refl
            | inl e₅ ↦ rw (e, e₁, e₂, e₃, e₄, e₅) refl
          ]
        ]
      ]
    ]
  ]
]

open_ring-first_error :
    (k : Kernel) (name_size num_blocks : ℕ) (os : Os)
    → (open_ring k name_size num_blocks os).1 ≡ first_error k name_size num_blocks
unfolding open_ring first_error
open_ring-first_error k name_size n os = elim (Bool-cases (is_pos32 n)) [
  | inr bad ↦ rw bad refl
  | inl good ↦ elim (Bool-cases (leb k.name_limit name_size)) [
    | inl long ↦ rw (good, long) refl
    | inr short ↦ rw (good, short) (set_up-calls_error k n closed os)
  ]
]

open_ring-Opened :
    (k : Kernel) (name_size num_blocks : ℕ)
    → Opened k num_blocks (open_ring k name_size num_blocks nothing_held)
unfolding open_ring
open_ring-Opened k name_size n = elim (Bool-cases (is_pos32 n)) [
  | inr bad ↦ rw bad (inr (blocks_not_positive, refl, refl, refl))
  | inl good ↦ elim (Bool-cases (leb k.name_limit name_size)) [
    | inl long ↦ rw (good, long) (inr (name_too_long, refl, refl, refl))
    | inr short ↦
        rw (good, short) (or_clean_up-Opened k n (set_up k n closed nothing_held) (set_up-Goes k n))
  ]
]

-- With a process that holds nothing, the constructor throws the error of the first check or call
-- that fails, and then holds neither a descriptor nor a mapping. If none fails, it holds both,
-- and has one address for each frame of each block, a frame apart, within the mapping.
pub open_ring_lem :
    (k : Kernel) (name_size num_blocks : ℕ)
    → let outcome = open_ring k name_size num_blocks nothing_held in
      (outcome.1 ≡ first_error k name_size num_blocks) × Opened k num_blocks outcome
open_ring_lem k name_size n =
    (open_ring-first_error k name_size n nothing_held, open_ring-Opened k name_size n)
