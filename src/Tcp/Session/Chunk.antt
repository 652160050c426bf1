-- ===== src/Tcp/Session/Chunk.antt =====
-- The chunk of the pending bytes that one packet carries.
use fast_break.Base.{
  ℕ, zero, suc, ◌+◌, ◌-◌, ◌≤◌, ◌<◌, ◌≡◌, refl, sym, ap, ◌∙◌, true, List, [], ◌∷◌, ◌++◌,
  append_assoc, append-nil, arith, length, length-take, length-drop, take, drop, take-append-drop,
  min, u16,
}
use fast_break.Tcp.Crc.Detect.{AllBytes}
use fast_break.Tcp.Session.{Session, max_payload, may_send}

pub drop-AllBytes : (n : ℕ) (xs : List ℕ) → AllBytes xs → AllBytes (drop n xs)
drop-AllBytes zero xs a = a
drop-AllBytes (suc n) [] a = a
drop-AllBytes (suc n) (x ∷ xs) (_, a) = drop-AllBytes n xs a

pub take-AllBytes : (n : ℕ) (xs : List ℕ) → AllBytes xs → AllBytes (take n xs)
take-AllBytes zero xs a = tt
take-AllBytes (suc n) [] a = tt
take-AllBytes (suc n) (x ∷ xs) (b, a) = (b, take-AllBytes n xs a)

pub append-AllBytes : (xs ys : List ℕ) → AllBytes xs → AllBytes ys → AllBytes (xs ++ ys)
append-AllBytes [] ys a b = b
append-AllBytes (x ∷ xs) ys (h, a) b = (h, append-AllBytes xs ys a b)

pub drop-append : (n : ℕ) (xs ys : List ℕ) → n ≤ length xs → drop n (xs ++ ys) ≡ drop n xs ++ ys
drop-append zero xs ys h = refl
drop-append (suc n) [] ys h = absurd (omega arith)
drop-append (suc n) (x ∷ xs) ys h = drop-append n xs ys (omega arith)

pub drop_all : (xs : List ℕ) → drop (length xs) xs ≡ []
drop_all [] = refl
drop_all (x ∷ xs) = drop_all xs

drop_nil : (n : ℕ) → drop {A = ℕ} n [] ≡ []
drop_nil zero = refl
drop_nil (suc n) = refl

drop-drop : (n m : ℕ) (xs : List ℕ) → drop m (drop n xs) ≡ drop (n + m) xs
drop-drop zero m xs = ap (λ k. drop k xs) {x = m} {y = 0 + m} (omega arith)
drop-drop (suc n) m [] = drop_nil m ∙ sym (drop_nil (suc n + m))
drop-drop (suc n) m (x ∷ xs) =
    drop-drop n m xs ∙ ap (λ k. drop k (x ∷ xs)) {x = suc (n + m)} {y = suc n + m} (omega arith)

-- The segments one after the other.
unfoldable pub concat : List (List ℕ) → List ℕ
concat [] = []
concat (p ∷ ps) = p ++ concat ps

pub concat-append : (xs ys : List (List ℕ)) → concat (xs ++ ys) ≡ concat xs ++ concat ys
unfolding concat
concat-append [] ys = refl
concat-append (p ∷ ps) ys =
    ap (λ l. p ++ l) (concat-append ps ys) ∙ sym (append_assoc p (concat ps) (concat ys))

pub concat-snoc : (xs : List (List ℕ)) (p : List ℕ) → concat (xs ++ (p ∷ [])) ≡ concat xs ++ p
concat-snoc xs p =
    concat-append xs (p ∷ []) ∙ ap (λ l. concat xs ++ l) (unfold concat in append-nil p)

module _ (s : Session) where
  abbrev pub plen_of : ℕ
  plen_of = u16 (min (length s.pending_tx - s.tx_off) max_payload)

  abbrev pub chunk_of : List ℕ
  chunk_of = take plen_of (drop s.tx_off s.pending_tx)

  pub chunk_len :
      may_send s ≡ true
      → (0 < plen_of)
        × (plen_of ≤ 1024)
        × (s.tx_off + plen_of ≤ length s.pending_tx)
        × (length chunk_of ≡ plen_of)
  unfolding may_send
  chunk_len more =
      let some_left : s.tx_off < length s.pending_tx = ground arith in
      (
        omega arith,
        omega arith,
        omega arith,
        length-take plen_of (drop s.tx_off s.pending_tx)
            ∙ omega (arith, length-drop s.tx_off s.pending_tx),
      )

  -- The chunk and what is left after it.
  pub chunk_rest : chunk_of ++ drop (s.tx_off + plen_of) s.pending_tx ≡ drop s.tx_off s.pending_tx
  chunk_rest =
      ap (λ l. chunk_of ++ l) (sym (drop-drop s.tx_off plen_of s.pending_tx))
      ∙ take-append-drop plen_of (drop s.tx_off s.pending_tx)
