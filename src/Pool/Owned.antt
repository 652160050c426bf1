-- ===== src/Pool/Owned.antt =====
-- The buffers of a pool that a client holds, counted: a client of Pool/Users keeps them in several
-- places, and knows of each place only what weight its buffers have.
use fast_break.Base.{
  ℕ, ◌+◌, ◌≤◌, ◌<◌, ◌≡◌, ◌≢◌, ◌⊎◌, refl, sym, ap, ◌∙◌, none, some, List, [], ◌∷◌, ◌++◌, arith, ◌==◌,
  ==_refl, ne→==, if◌then◌else◌,
}
use fast_break.Base.Sums.{weigh, weigh-append, weigh_split, is}
use fast_break.Pool.FreeStack.{pop}
use fast_break.Pool.{Pool, acquire, release, set_len, clear_len}
use fast_break.Pool.Chain.{push_keeps}
use fast_break.Pool.Users

-- From `p` on the users' calls lead to `pool`, and they hold buffers of the weights of `xs`.
pub record Owned (p pool : Pool) (xs : List ℕ) : Type 0 where
  pub held : List ℕ
  pub reach : Users.Reach p (record { pool = pool; held = held })
  pub same : (w : ℕ → ℕ) → weigh w held ≡ weigh w xs

-- What is held is held once.
abbrev pub Once : Pool → Type 0
Once p = (s : Users.Users) → Users.Reach p s → (x : ℕ) → weigh (is x) s.held ≤ 1

unfoldable pub release_all_of : List ℕ → Pool → Pool
release_all_of [] pool = pool
release_all_of (b ∷ bs) pool = release_all_of bs (release b pool)

module _ {p : Pool} where
  pub Owned-new : Owned p p []
  Owned-new = record { held = []; reach = Users.here; same = λ w. refl }

  pub Owned-weights :
      {pool : Pool} {xs ys : List ℕ}
      → ((w : ℕ → ℕ) → weigh w xs ≡ weigh w ys)
      → Owned p pool xs
      → Owned p pool ys
  Owned-weights e o = record { held = o.held; reach = o.reach; same = λ w. o.same w ∙ e w }

  pub acquire-Owned :
      {pool : Pool} {xs : List ℕ} {b : ℕ}
      → (acquire pool).0 ≡ some b
      → Owned p pool xs
      → Owned p (acquire pool).1 (b ∷ xs)
  acquire-Owned {b} got o = record {
    held = b ∷ o.held;
    reach = Users.next o.reach (Users.get got);
    same = λ w. omega (arith, o.same w);
  }

  pub acquire-none-Owned :
      {pool : Pool} {xs : List ℕ}
      → (acquire pool).0 ≡ none
      → Owned p pool xs
      → Owned p (acquire pool).1 xs
  acquire-none-Owned e o = record {
    held = o.held;
    reach = Users.next o.reach (Users.find_none e);
    same = o.same;
  }

  pub set_len-Owned :
      {pool : Pool} {xs : List ℕ} (b n : ℕ) → Owned p pool xs → Owned p (set_len b n pool) xs
  set_len-Owned b n o = record {
    held = o.held;
    reach = Users.next o.reach (Users.resize b n);
    same = o.same;
  }

  pub release-Owned :
      {pool : Pool} {xs : List ℕ} (b : ℕ) → Owned p pool (b ∷ xs) → Owned p (release b pool) xs
  release-Owned {xs} b o =
      let one : is b b ≡ 1 = rw (==_refl b) refl in
      let (before, after, e) = weigh_split b o.held (omega (arith, o.same (is b))) in
      record {
        held = before ++ after;
        reach = Users.next o.reach (Users.give before after b e);
        same = λ w.
            let split = ap (weigh w) e ∙ weigh-append w before (b ∷ after) in
            omega (arith, split, weigh-append w before after, o.same w);
      }

  pub release_all_of-Owned :
      {pool : Pool} {xs : List ℕ} (bs : List ℕ)
      → Owned p pool (bs ++ xs)
      → Owned p (release_all_of bs pool) xs
  unfolding release_all_of
  release_all_of-Owned [] o = o
  release_all_of-Owned {pool} (b ∷ bs) o =
      release_all_of-Owned {pool = release b pool} bs (release-Owned b o)

  pub Owned-Once :
      {pool : Pool} {xs : List ℕ} → Once p → Owned p pool xs → (x : ℕ) → weigh (is x) xs ≤ 1
  Owned-Once once o x = omega (arith, once _ o.reach x, o.same (is x))

pub is_out : (x b : ℕ) → is x b ≡ 0 → b ≢ x
is_out x b h e = let one : is x b ≡ 1 = rw (e, ==_refl x) refl in absurd (omega arith)

pub is_apart : (x b : ℕ) → b ≢ x → is x b ≡ 0
is_apart x b ne = rw (ne→== x b (λ e. ne (sym e))) refl

-- What the calls leave of the other buffers' descriptors: their lengths.
pub acquire-len :
    (pool : Pool) (b : ℕ)
    → ((acquire pool).1.stack.descriptors b).len ≡ (pool.stack.descriptors b).len
unfolding acquire pop
acquire-len pool b = ground arith

pub set_len-len :
    (b n x : ℕ) (pool : Pool)
    → ((set_len b n pool).stack.descriptors x).len
      ≡ (if b == x then n else (pool.stack.descriptors x).len)
unfolding set_len
set_len-len b n x pool = ground arith

pub release-len :
    (b x : ℕ) (pool : Pool)
    → b ≢ x
    → ((release b pool).stack.descriptors x).len ≡ (pool.stack.descriptors x).len
unfolding release clear_len
release-len b x pool ne =
    (push_keeps (pool.stack.descriptors b).pool_index (clear_len b pool.stack) x).1
    ∙ rw (ne→== b x ne) refl

pub release_all_of-len :
    (bs : List ℕ) (x : ℕ) (pool : Pool)
    → weigh (is x) bs ≡ 0
    → ((release_all_of bs pool).stack.descriptors x).len ≡ (pool.stack.descriptors x).len
unfolding release_all_of
release_all_of-len [] x pool h = refl
release_all_of-len (b ∷ bs) x pool h =
    release_all_of-len bs x (release b pool) (omega arith)
    ∙ release-len b x pool (is_out x b (omega arith))

-- The addresses of the buffers stay as they are.
abbrev pub address : Pool → ℕ → ℕ
address pool x = (pool.stack.descriptors x).data_at

pub acquire-address : (pool : Pool) (x : ℕ) → address (acquire pool).1 x ≡ address pool x
unfolding acquire pop
acquire-address pool x = ground arith

pub set_len-address : (b n x : ℕ) (pool : Pool) → address (set_len b n pool) x ≡ address pool x
unfolding set_len
set_len-address b n x pool = ground (arith, ap (address pool) {x = b} {y = x})

pub release-address : (b x : ℕ) (pool : Pool) → address (release b pool) x ≡ address pool x
unfolding release clear_len
release-address b x pool =
    (push_keeps (pool.stack.descriptors b).pool_index (clear_len b pool.stack) x).0
    ∙ ground (arith, ap (address pool) {x = b} {y = x})

Step-address : {s t : Users.Users} (x : ℕ) → Users.Step s t → address t.pool x ≡ address s.pool x
Step-address {s} x (Users.get e) = acquire-address s.pool x
Step-address {s} x (Users.find_none e) = acquire-address s.pool x
Step-address {s} x (Users.give before after b e) = release-address b x s.pool
Step-address {s} x (Users.resize b n) = set_len-address b n x s.pool

Reach-address :
    {p : Pool} {s : Users.Users} (x : ℕ) → Users.Reach p s → address s.pool x ≡ address p x
Reach-address x Users.here = refl
Reach-address x (Users.next r step) = Step-address x step ∙ Reach-address x r

pub Owned-address :
    {p pool : Pool} {xs : List ℕ} (x : ℕ) → Owned p pool xs → address pool x ≡ address p x
Owned-address x o = Reach-address x o.reach

-- What is held is held once, and the buffers that are held are `size` apart.
pub record Spaced (size : ℕ) (p : Pool) : Type 0 where
  pub once : Once p
  pub apart :
      (s : Users.Users)
      → Users.Reach p s
      → (x y : ℕ) → 0 < weigh (is x) s.held
      → 0 < weigh (is y) s.held
      → x ≢ y
      → (address p x + size ≤ address p y) ⊎ (address p y + size ≤ address p x)

pub Owned-apart :
    {size : ℕ} {p pool : Pool} {xs : List ℕ} (x y : ℕ)
    → Spaced size p
    → Owned p pool xs
    → 0 < weigh (is x) xs
    → 0 < weigh (is y) xs
    → x ≢ y
    → (address p x + size ≤ address p y) ⊎ (address p y + size ≤ address p x)
Owned-apart x y spaced o hx hy ne =
    spaced.apart _ o.reach x y (omega (arith, o.same (is x))) (omega (arith, o.same (is y))) ne
