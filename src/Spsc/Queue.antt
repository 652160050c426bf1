-- ===== src/Spsc/Queue.antt =====
-- The specification of the ring: a first-in first-out queue of at most `cap` items, oldest first,
-- and what a client sees of a sequence of calls.
use fast_break.Base.{
  ℕ, Bool, true, false, Option, none, some, List, [], ◌∷◌, ◌++◌, ◌==◌, if◌then◌else◌, length,
}

pub data Op (T : Type 0) : Type 0 where
  put : T → Op T
  get : Op T

pub data Reply (T : Type 0) : Type 0 where
  pushed : Bool → Reply T
  popped : Option T → Reply T

unfoldable pub pop : {T : Type 0} → List T → Option T × List T
pop [] = (none, [])
pop (x ∷ q) = (some x, q)

module _ {T : Type 0} (cap : ℕ) where
  unfoldable pub push : List T → T → Bool × List T
  push q x = if length q == cap then (false, q) else (true, q ++ (x ∷ []))

  unfoldable pub run : List T → List (Op T) → List (Reply T)
  run q [] = []
  run q (put x ∷ ops) = let (ok, q') = push q x in pushed ok ∷ run q' ops
  run q (get ∷ ops) = let (out, q') = pop q in popped out ∷ run q' ops
