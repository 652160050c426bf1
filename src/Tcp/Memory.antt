-- ===== src/Tcp/Memory.antt =====
-- Bytes of a buffer by offset: `memcpy` into it, and a run of bytes read from it.
use fast_break.Base.{
  ℕ, zero, suc, ◌+◌, ◌-◌, ◌≤◌, ◌<◌, ◌≡◌, ◌⊎◌, refl, ap, ap₂, ◌∙◌, ◌&&◌, List, [], ◌∷◌, ◌++◌, arith,
  length, get_or, leb, ltb, if◌then◌else◌,
}

unfoldable pub read : (ℕ → ℕ) → ℕ → ℕ → List ℕ
read m off zero = []
read m off (suc n) = m off ∷ read m (off + 1) n

unfoldable pub write : (ℕ → ℕ) → ℕ → List ℕ → ℕ → ℕ
write m off bs i = if leb off i && ltb i (off + length bs) then get_or bs (i - off) 0 else m i

pub length-read : (m : ℕ → ℕ) (off n : ℕ) → length (read m off n) ≡ n
unfolding read
length-read m off zero = refl
length-read m off (suc n) = ap suc (length-read m (off + 1) n)

pub write-outside :
    (m : ℕ → ℕ) (off i : ℕ) (bs : List ℕ)
    → (i < off) ⊎ (off + length bs ≤ i)
    → write m off bs i ≡ m i
unfolding write
write-outside m off i bs h = ground arith

pub write-inside :
    (m : ℕ → ℕ) (off i : ℕ) (bs : List ℕ) → i < length bs → write m off bs (off + i) ≡ get_or bs i 0
unfolding write
write-inside m off i bs h =
    let e : off + i - off ≡ i = omega arith in ground (arith, ap (λ k. get_or bs k 0) e)

-- A run reads what the list holds, if the memory agrees with the list there.
pub read_ext :
    (m : ℕ → ℕ) (off : ℕ) (bs : List ℕ)
    → ((i : ℕ) → i < length bs → m (off + i) ≡ get_or bs i 0)
    → read m off (length bs) ≡ bs
unfolding read
read_ext m off [] h = refl
read_ext m off (b ∷ bs) h =
    ap₂ ◌∷◌ (ap m {x = off} {y = off + 0} (omega arith) ∙ h 0 (omega arith)) (
      read_ext m (off + 1) bs
        (λ i lt. ap m {x = off + 1 + i} {y = off + suc i} (omega arith) ∙ h (suc i) (omega arith)))

pub read-write : (m : ℕ → ℕ) (off : ℕ) (bs : List ℕ) → read (write m off bs) off (length bs) ≡ bs
read-write m off bs = read_ext (write m off bs) off bs (λ i h. write-inside m off i bs h)

-- A run that a write does not touch.
pub read-write_outside :
    (m : ℕ → ℕ) (off n at : ℕ) (bs : List ℕ)
    → (off + n ≤ at) ⊎ (at + length bs ≤ off)
    → read (write m at bs) off n ≡ read m off n
unfolding read
read-write_outside m off zero at bs h = refl
read-write_outside m off (suc n) at bs h =
    ap₂ ◌∷◌ (write-outside m at off bs (omega arith))
      (read-write_outside m (off + 1) n at bs (omega arith))

pub read-append :
    (m : ℕ → ℕ) (off a b : ℕ) → read m off (a + b) ≡ read m off a ++ read m (off + a) b
unfolding read
read-append m off zero b =
    ap (read m off) {x = 0 + b} {y = b} (omega arith)
    ∙ ap (λ k. read m k b) {x = off} {y = off + 0} (omega arith)
read-append m off (suc a) b =
    ap (read m off) {x = suc a + b} {y = suc (a + b)} (omega arith)
    ∙ ap (◌∷◌ (m off)) (
        read-append m (off + 1) a b
        ∙ ap (λ k. read m (off + 1) a ++ read m k b) {x = off + 1 + a} {y = off + suc a}
            (omega arith))

-- Two runs are the same, if memory is the same there.
pub read_same :
    (m m' : ℕ → ℕ) (off n : ℕ)
    → ((i : ℕ) → i < n → m (off + i) ≡ m' (off + i))
    → read m off n ≡ read m' off n
unfolding read
read_same m m' off zero h = refl
read_same m m' off (suc n) h =
    ap₂ ◌∷◌
      (ap m {x = off} {y = off + 0} (omega arith)
        ∙ h 0 (omega arith)
        ∙ ap m' {x = off + 0} {y = off} (omega arith))
      (read_same m m' (off + 1) n λ i lt.
        ap m {x = off + 1 + i} {y = off + suc i} (omega arith)
        ∙ h (suc i) (omega arith)
        ∙ ap m' {x = off + suc i} {y = off + 1 + i} (omega arith))
