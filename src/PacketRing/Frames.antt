-- ===== src/PacketRing/Frames.antt =====
-- Where the frames of a ring lie: the table that the constructor of `PacketRing` fills.
use fast_break.Base.{
  ℕ, zero, suc, ◌+◌, ◌-◌, ◌*◌, ◌<◌, ◌≡◌, refl, ap, ◌∙◌, ◌++◌, arith, get_or, length, length-append,
  get_or-append, get_or-append_right,
}
use fast_break.PacketRing.{block_size, frame_size, frames_per_block, block_frames, all_frames}
use native.Mathlib.Decide.{dec_lt}

length-block_frames : (block f rounds : ℕ) → length (block_frames block f rounds) ≡ rounds
unfolding block_frames
length-block_frames block f zero = refl
length-block_frames block f (suc rounds) = ap suc (length-block_frames block (f + 1) rounds)

get_or-block_frames :
    (block f rounds i : ℕ)
    → i < rounds
    → get_or (block_frames block f rounds) i 0 ≡ block + (f + i) * frame_size
unfolding block_frames
get_or-block_frames block f zero i h = absurd (omega arith)
get_or-block_frames block f (suc rounds) zero h = omega arith
get_or-block_frames block f (suc rounds) (suc i) h =
    get_or-block_frames block (f + 1) rounds i (omega arith) ∙ omega arith

pub length-all_frames :
    (base b rounds : ℕ) → length (all_frames base b rounds) ≡ rounds * frames_per_block
unfolding all_frames
length-all_frames base b zero = refl
length-all_frames base b (suc rounds) =
    length-append (block_frames (base + b * block_size) 0 frames_per_block) _
    ∙ omega (
      arith,
      length-block_frames (base + b * block_size) 0 frames_per_block,
      length-all_frames base (b + 1) rounds,
    )

pub get_or-all_frames :
    (base b rounds i : ℕ)
    → i < rounds * frames_per_block
    → get_or (all_frames base b rounds) i 0 ≡ base + b * block_size + i * frame_size
unfolding all_frames
get_or-all_frames base b zero i h = absurd (omega arith)
get_or-all_frames base b (suc rounds) i h =
    let block = block_frames (base + b * block_size) 0 frames_per_block in
    let rest = all_frames base (b + 1) rounds in
    let size = length-block_frames (base + b * block_size) 0 frames_per_block in
    elim (dec_lt i frames_per_block) [
      | yes lt ↦
          get_or-append block rest i 0 (omega (arith, size))
          ∙ get_or-block_frames (base + b * block_size) 0 frames_per_block i lt
          ∙ omega arith
      | no ge ↦
          ap (λ k. get_or (block ++ rest) k 0) {x = i} {y = length block + (i - frames_per_block)}
            (omega (arith, size))
          ∙ get_or-append_right block rest (i - frames_per_block) 0
          ∙ get_or-all_frames base (b + 1) rounds (i - frames_per_block) (omega arith)
          ∙ omega arith
    ]
