-- ===== src/Pool/Users.antt =====
-- A pool and the buffers that its users hold. Users acquire and give back in any order, but give
-- back only what they hold.
use fast_break.Base.{
  ℕ, ◌+◌, ◌<◌, ◌≡◌, refl, ap, ◌∙◌, true, false, ◌||◌, none, some, List, [], ◌∷◌, ◌++◌, arith,
  length, length-append, ◌==◌,
}
use fast_break.Base.{sym, some_inj}
use fast_break.Pool.{Pool, acquire, release, set_len}
use fast_break.Pool.Chain.{has}
use fast_break.Pool.Laws.{IsPool, acquire-nil, acquire-cons, release-IsPool, set_len-IsPool}

pub record Users : Type 0 where
  pub pool : Pool
  pub held : List ℕ

pub data Step (s : Users) : Users → Type 0 where
  get :
      {x : ℕ}
      → (acquire s.pool).0 ≡ some x
      → Step s (record { pool = (acquire s.pool).1; held = x ∷ s.held })
  find_none : (acquire s.pool).0 ≡ none → Step s (record s { pool = (acquire s.pool).1 })
  give :
      (before after : List ℕ) (b : ℕ)
      → s.held ≡ before ++ (b ∷ after)
      → Step s (record { pool = release b s.pool; held = before ++ after })
  -- A user writes the length of a buffer.
  resize : (b n : ℕ) → Step s (record s { pool = set_len b n s.pool })

pub data Reach (p : Pool) : Users → Type 0 where
  here : Reach p (record { pool = p; held = [] })
  next : {s t : Users} → Reach p s → Step s t → Reach p t

abbrev pub Distinct : List ℕ → Type 0
Distinct [] = Unit
Distinct (x ∷ xs) = (has x xs ≡ false) × Distinct xs

has-append : (x : ℕ) (xs ys : List ℕ) → has x (xs ++ ys) ≡ (has x xs || has x ys)
has-append x [] ys = refl
has-append x (y ∷ xs) ys = ground (arith, has-append x xs ys)

Distinct-drop :
    (xs ys : List ℕ) (b : ℕ)
    → Distinct (xs ++ (b ∷ ys))
    → Distinct (xs ++ ys) × (has b (xs ++ ys) ≡ false)
Distinct-drop [] ys b (out, d) = (d, out)
Distinct-drop (x ∷ xs) ys b (out, d) =
    let (rest, new) = Distinct-drop xs ys b d in
    let apart : (x == b) ≡ false = ground (arith, has-append x xs (b ∷ ys)) in
    ((ground (arith, has-append x xs (b ∷ ys), has-append x xs ys), rest), ground (arith))

-- The buffers of the pool are each free or held, and no two of these at once.
pub record Shares (n : ℕ) (s : Users) (free : List ℕ) : Type 0 where
  pub pool : IsPool s.pool free
  pub capacity : s.pool.buffer_count ≡ n
  pub distinct : Distinct s.held
  pub bounded : (x : ℕ) → has x s.held ≡ true → x < n
  pub apart : (x : ℕ) → has x s.held ≡ true → has x free ≡ false
  pub total : length s.held + length free ≡ n

module _ {n : ℕ} {s : Users} where
  pub Shares-get :
      (y : ℕ) (rest : List ℕ)
      → Shares n s (y ∷ rest)
      → let (got, q) = acquire s.pool in
        (got ≡ some y)
        × (has y s.held ≡ false)
        × (y < n)
        × Shares n (record { pool = q; held = y ∷ s.held }) rest
  Shares-get y rest h =
      let (got, v, same_count, _, _) = acquire-cons h.pool in
      let (_, lt, out, _) = h.pool.stack.chain in
      let new : has y s.held ≡ false = ground (arith, h.apart y) in
      (
        got,
        new,
        omega (arith, h.capacity),
        record {
          pool = v;
          capacity = same_count ∙ h.capacity;
          distinct = (new, h.distinct);
          bounded = λ x i. ground (arith, h.bounded x, h.capacity);
          apart = λ x i. ground (arith, h.apart x, ap (λ z. has z rest) {x = x} {y = y});
          total = omega (arith, h.total);
        },
      )

  pub Shares-none :
      Shares n s []
      → let (got, q) = acquire s.pool in
        (got ≡ none) × (length s.held ≡ n) × Shares n (record s { pool = q }) []
  Shares-none h = rw (acquire-nil h.pool) (
    refl,
    omega (arith, h.total),
    record {
      pool = record { stack = h.pool.stack; indices = h.pool.indices };
      capacity = h.capacity;
      distinct = h.distinct;
      bounded = h.bounded;
      apart = h.apart;
      total = h.total;
    },
  )

  pub Shares-give :
      (before after : List ℕ) (b : ℕ) (free : List ℕ)
      → Shares n s free
      → s.held ≡ before ++ (b ∷ after)
      → Shares n (record { pool = release b s.pool; held = before ++ after }) (b ∷ free)
  Shares-give before after b free h e =
      let (distinct, out) = Distinct-drop before after b (rw e at h.distinct) in
      let inside : (x : ℕ) → has x (before ++ after) ≡ true → has x s.held ≡ true =
        λ x i. rw e (ground (arith, has-append x before (b ∷ after), has-append x before after)) in
      let mine : has b s.held ≡ true = rw e (ground (arith, has-append b before (b ∷ after))) in
      let (v, same_count) =
        release-IsPool b h.pool (rw h.capacity (h.bounded b mine)) (h.apart b mine) in
      record {
        pool = v;
        capacity = same_count ∙ h.capacity;
        distinct = distinct;
        bounded = λ x i. h.bounded x (inside x i);
        apart = λ x i.
            ground
              (arith, h.apart x (inside x i), ap (λ z. has z (before ++ after)) {x = x} {y = b});
        total = omega (
          arith,
          h.total,
          ap (length {0}) e,
          length-append {0} before (b ∷ after),
          length-append {0} before after,
        );
      }

  pub Step-Shares :
      {t : Users} (free : List ℕ) → Step s t → Shares n s free → (free' : List ℕ) × Shares n t free'
  Step-Shares [] (get e) h = absurd (cc ((Shares-none h).0))
  Step-Shares (y ∷ rest) (get {x} e) h =
      let (got, _, _, shares) = Shares-get y rest h in
      let same : y ≡ x = some_inj (sym got ∙ e) in (rest, rw (← same) shares)
  Step-Shares [] (find_none e) h = ([], (Shares-none h).2)
  Step-Shares (y ∷ rest) (find_none e) h = absurd (cc ((Shares-get y rest h).0))
  Step-Shares free (give before after b e) h = (b ∷ free, Shares-give before after b free h e)
  Step-Shares free (resize b k) h = (
    free,
    record {
      pool = set_len-IsPool b k h.pool;
      capacity = unfold set_len in h.capacity;
      distinct = h.distinct;
      bounded = h.bounded;
      apart = h.apart;
      total = h.total;
    },
  )
