-- ===== src/Pool/Threads/Inv.antt =====
-- What holds in every state that the threads' steps reach, while the generation does not wrap.
use fast_break.Base.{
  ℕ, ◌+◌, ◌^◌, ◌≤◌, ◌<◌, ◌≡◌, ◌≢◌, refl, sym, ap, subst, ◌∙◌, inl, inr, true, false, Option, none,
  some, some_inj, List, [], ◌∷◌, arith, ◌==◌, ==_refl, ne→==, ==→eq, ne_of_false, Bool-cases, u32,
  sub32,
}
use fast_break.Pool.FreeStack.{Descriptor, empty_index, gen_of, index_of, set_next}
use fast_break.Pool.Chain.{has, Chain, Chain-update, pack_parts, Chain-lt}
use fast_break.Pool.Threads.{
  Thread, System, set_at, renewed, Step, load_to_push, link, retry_push, swap_push, count_push,
  load_to_pop, find_empty, read_link, retry_pop, swap_pop, count_pop,
}

-- Until the generation is exceeded, a head with the current generation is the current head.
abbrev pub Loaded : ℕ → ℕ → ℕ → Type 0
Loaded swaps top old = (gen_of old ≤ swaps) × (gen_of old ≡ swaps → old ≡ top)

-- What the locals of the thread `t` say about the rest.
abbrev pub Knows : ℕ → (ℕ → Descriptor) → (ℕ → Option ℕ) → ℕ → ℕ → Thread → Type 0
Knows top ds owner swaps t Thread.outside = Unit
Knows top ds owner swaps t (Thread.push_loaded index old) = owner index ≡ some t
Knows top ds owner swaps t (Thread.push_linked index old) =
    (owner index ≡ some t) × ((ds index).next ≡ index_of old)
Knows top ds owner swaps t Thread.push_swapped = Unit
Knows top ds owner swaps t (Thread.pop_loaded old) = Loaded swaps top old
Knows top ds owner swaps t (Thread.pop_read old after) =
    Loaded swaps top old
    × (index_of old ≢ empty_index)
    × (gen_of old ≡ swaps → (ds (index_of old)).next ≡ after)
Knows top ds owner swaps t Thread.pop_swapped = Unit

pub record Inv (n : ℕ) (s : System) (free : List ℕ) : Type 0 where
  pub chain : Chain s.stack.descriptors n (index_of s.stack.top) free
  pub generation : gen_of s.stack.top ≡ s.swaps
  pub unowned : (b : ℕ) → has b free ≡ true → s.owner b ≡ none
  pub owned : (b t : ℕ) → s.owner b ≡ some t → (b < n) × (has b free ≡ false)
  pub knows : (t : ℕ) → Knows s.stack.top s.stack.descriptors s.owner s.swaps t (s.threads t)

pub head_free :
    (ds : ℕ → Descriptor) (n i : ℕ) (free : List ℕ)
    → Chain ds n i free
    → i ≢ empty_index
    → has i free ≡ true
head_free ds n i [] c some_left = absurd (some_left c)
head_free ds n i (x ∷ free) (e, _, _, _) some_left = rw (e, ==_refl x) refl

pub head-lt :
    (ds : ℕ → Descriptor) (n i : ℕ) (free : List ℕ) → Chain ds n i free → i ≢ empty_index → i < n
head-lt ds n i [] c some_left = absurd (some_left c)
head-lt ds n i (x ∷ free) (e, lt, _, _) some_left = omega arith

-- A buffer that one thread owns is not one that another owns, nor one that nobody owns.
owners_apart :
    (owner : ℕ → Option ℕ) (i j t u : ℕ) → owner i ≡ some u → owner j ≡ some t → u ≢ t → i ≢ j
owners_apart owner i j t u a b ne e = ne (some_inj (sym a ∙ ap owner e ∙ b))

free_apart : (owner : ℕ → Option ℕ) (i j t : ℕ) → owner i ≡ none → owner j ≡ some t → i ≢ j
free_apart owner i j t a b e = absurd (cc (sym a ∙ ap owner e ∙ b))

module _ (top : ℕ) (ds : ℕ → Descriptor) (owner : ℕ → Option ℕ) (swaps : ℕ) where
  set_at-Knows :
      (t : ℕ) (th : Thread) (threads : ℕ → Thread)
      → Knows top ds owner swaps t th
      → ((u : ℕ) → u ≢ t → Knows top ds owner swaps u (threads u))
      → (u : ℕ) → Knows top ds owner swaps u (set_at t th threads u)
  set_at-Knows t th threads mine others u = elim (Bool-cases (u == t)) [
    | inl e ↦ rw e (rw (==→eq u t e) mine)
    | inr ne ↦ rw ne (others u (ne_of_false u t ne))
  ]

  -- Another thread writes the link of a buffer that it owns.
  link-Knows :
      (t index v : ℕ) (n : ℕ) (free : List ℕ)
      → n ≤ empty_index
      → Chain ds n (index_of top) free
      → ((b : ℕ) → has b free ≡ true → owner b ≡ none)
      → owner index ≡ some t
      → (u : ℕ) (th : Thread) → u ≢ t
      → Knows top ds owner swaps u th
      → Knows top (set_next ds index v) owner swaps u th
  link-Knows t index v n free m c un own u Thread.outside ne k = k
  link-Knows t index v n free m c un own u (Thread.push_loaded i old) ne k = k
  link-Knows t index v n free m c un own u (Thread.push_linked i old) ne (mine, linked) =
      (mine, rw (ne→== index i (λ e. owners_apart owner i index t u mine own ne (sym e))) linked)
  link-Knows t index v n free m c un own u Thread.push_swapped ne k = k
  link-Knows t index v n free m c un own u (Thread.pop_loaded old) ne k = k
  link-Knows t index v n free m c un own u (Thread.pop_read old after) ne (l, some_left, read) = (
    l,
    some_left,
    λ e.
        let same : old ≡ top = l.1 e in
        let here : owner (index_of old) ≡ none =
          un (index_of old)
            (rw same (head_free ds n (index_of top) free c (rw same at some_left))) in
        rw
          (ne→== index (index_of old)
            (λ f. free_apart owner (index_of old) index t here own (sym f)))
          (read e),
  )
  link-Knows t index v n free m c un own u Thread.pop_swapped ne k = k

module _ {n : ℕ} (marked : n ≤ empty_index) where
  -- A thread moves on, and nothing else changes.
  move-Inv :
      (s : System) (t : ℕ) (th : Thread) (size : ℕ) (free : List ℕ)
      → Knows s.stack.top s.stack.descriptors s.owner s.swaps t th
      → Inv n s free
      → Inv n
          (record s { stack = record (s.stack) { size = size }; threads = set_at t th s.threads })
          free
  move-Inv s t th size free k i = record {
    chain = i.chain;
    generation = i.generation;
    unowned = i.unowned;
    owned = i.owned;
    knows =
        set_at-Knows s.stack.top s.stack.descriptors s.owner s.swaps t th s.threads k
          (λ u ne. i.knows u);
  }

  link-Inv :
      (s : System) (t index old : ℕ) (free : List ℕ)
      → s.owner index ≡ some t
      → Inv n s free
      → Inv n
          (record s {
            stack = record (s.stack) {
              descriptors = set_next s.stack.descriptors index (index_of old);
            };
            threads = set_at t (Thread.push_linked index old) s.threads;
          })
          free
  link-Inv s t index old free own i =
      let out = (i.owned index t own).1 in
      record {
        chain =
            Chain-update s.stack.descriptors n (index_of s.stack.top) index
              (record (s.stack.descriptors index) { next = index_of old }) free out i.chain;
        generation = i.generation;
        unowned = i.unowned;
        owned = i.owned;
        knows =
            set_at-Knows s.stack.top (set_next s.stack.descriptors index (index_of old)) s.owner
              s.swaps t (Thread.push_linked index old) s.threads (own, rw (==_refl index) refl)
              (λ u ne.
                link-Knows s.stack.top s.stack.descriptors s.owner s.swaps t index (index_of old) n
                  free marked i.chain i.unowned own u (s.threads u) ne (i.knows u));
      }

  -- Another thread's exchange: what was loaded before is out of date.
  swap-Knows :
      (s : System) (top : ℕ) (owner : ℕ → Option ℕ) (t : ℕ)
      → ((b u : ℕ) → u ≢ t → s.owner b ≡ some u → owner b ≡ some u)
      → (u : ℕ) (th : Thread) → u ≢ t
      → Knows s.stack.top s.stack.descriptors s.owner s.swaps u th
      → Knows top s.stack.descriptors owner (s.swaps + 1) u th
  swap-Knows s top owner t kept u Thread.outside ne k = k
  swap-Knows s top owner t kept u (Thread.push_loaded i old) ne k = kept i u ne k
  swap-Knows s top owner t kept u (Thread.push_linked i old) ne (mine, linked) =
      (kept i u ne mine, linked)
  swap-Knows s top owner t kept u Thread.push_swapped ne k = k
  swap-Knows s top owner t kept u (Thread.pop_loaded old) ne (le, _) =
      (omega arith, λ e. absurd (omega arith))
  swap-Knows s top owner t kept u (Thread.pop_read old after) ne ((le, _), some_left, _) =
      ((omega arith, λ e. absurd (omega arith)), some_left, λ e. absurd (omega arith))
  swap-Knows s top owner t kept u Thread.pop_swapped ne k = k

  swap_push-Inv :
      (s : System) (t index old : ℕ) (free : List ℕ)
      → s.swaps + 1 < 2 ^ 32
      → s.owner index ≡ some t
      → (s.stack.descriptors index).next ≡ index_of old
      → s.stack.top ≡ old
      → Inv n s free
      → Inv n
          (record {
            stack = record (s.stack) { top = renewed old index };
            threads = set_at t Thread.push_swapped s.threads;
            owner = set_at index none s.owner;
            swaps = s.swaps + 1;
          })
          (index ∷ free)
  swap_push-Inv s t index old free few own linked same i =
      let (lt, out) = i.owned index t own in
      let g : gen_of old ≡ s.swaps = rw (← same) i.generation in
      let (gen, at) =
        pack_parts (u32 (gen_of old + 1)) index (omega arith) (omega (arith, marked)) in
      record {
        chain = (at, lt, out, rw linked (rw same at i.chain));
        generation = omega (arith, gen, g);
        unowned = λ b h. elim (Bool-cases (b == index)) [
          | inl e ↦ rw e refl
          | inr ne ↦ rw ne (i.unowned b (rw ne at h))
        ];
        owned = λ b u h. elim (Bool-cases (b == index)) [
          | inl e ↦ absurd (cc (rw e at h))
          | inr ne ↦ let (l, o) = i.owned b u (rw ne at h) in (l, rw ne o)
        ];
        knows =
            set_at-Knows (renewed old index) s.stack.descriptors (set_at index none s.owner)
              (s.swaps + 1) t Thread.push_swapped s.threads tt
              (λ u ne.
                swap-Knows s (renewed old index) (set_at index none s.owner) t
                  (λ b v far h. rw (ne→== b index (owners_apart s.owner b index t v h own far)) h) u
                  (s.threads u) ne (i.knows u));
      }

  swap_pop-Inv :
      (s : System) (t old after y : ℕ) (free : List ℕ)
      → s.swaps + 1 < 2 ^ 32
      → index_of old ≡ y
      → (s.stack.descriptors y).next ≡ after
      → s.stack.top ≡ old
      → Inv n s (y ∷ free)
      → Inv n
          (record {
            stack = record (s.stack) { top = renewed old after };
            threads = set_at t Thread.pop_swapped s.threads;
            owner = set_at y (some t) s.owner;
            swaps = s.swaps + 1;
          })
          free
  swap_pop-Inv s t old after y free few head read same i =
      let (_, lt, out, rest) = i.chain in
      let rest' : Chain s.stack.descriptors n after free = rw read at rest in
      let g : gen_of old ≡ s.swaps = rw (← same) i.generation in
      let (gen, at) =
        pack_parts (u32 (gen_of old + 1)) after (omega arith)
          (Chain-lt s.stack.descriptors n after free marked rest') in
      let mine : s.owner y ≡ none = i.unowned y (rw (==_refl y) refl) in
      record {
        chain = rw at rest';
        generation = omega (arith, gen, g);
        unowned = λ b h. elim (Bool-cases (b == y)) [
          | inl e ↦ absurd (cc (out, ap (λ z. has z free) (==→eq b y e), h))
          | inr ne ↦ rw ne (i.unowned b (rw ne h))
        ];
        owned = λ b u h. elim (Bool-cases (b == y)) [
          | inl e ↦ rw (==→eq b y e) (lt, out)
          | inr ne ↦ let (l, o) = i.owned b u (rw ne at h) in (l, rw ne at o)
        ];
        knows =
            set_at-Knows (renewed old after) s.stack.descriptors (set_at y (some t) s.owner)
              (s.swaps + 1) t Thread.pop_swapped s.threads tt
              (λ u ne.
                swap-Knows s (renewed old after) (set_at y (some t) s.owner) t
                  (λ b v far h. rw (ne→== b y (λ e. free_apart s.owner y b v mine h (sym e))) h) u
                  (s.threads u) ne (i.knows u));
      }

  pub known :
      (s : System) (t : ℕ) (th : Thread) (free : List ℕ)
      → s.threads t ≡ th
      → Inv n s free
      → Knows s.stack.top s.stack.descriptors s.owner s.swaps t th
  known s t th free e i =
      subst (Knows s.stack.top s.stack.descriptors s.owner s.swaps t) e (i.knows t)

  load-Loaded : (s : System) (free : List ℕ) → Inv n s free → Loaded s.swaps s.stack.top s.stack.top
  load-Loaded s free i = (omega (arith, i.generation), λ e. refl)

  pub Step-Inv :
      {s u : System} (free : List ℕ)
      → Step s u
      → u.swaps < 2 ^ 32
      → Inv n s free
      → (free' : List ℕ) × Inv n u free'
  Step-Inv {s} free (load_to_push t index _ own) few i =
      (free, move-Inv s t (Thread.push_loaded index s.stack.top) s.stack.size free own i)
  Step-Inv {s} free (link {index} {old} t e) few i =
      (free, link-Inv s t index old free (known s t (Thread.push_loaded index old) free e i) i)
  Step-Inv {s} free (retry_push {index} {old} t e) few i =
      let (own, _) = known s t (Thread.push_linked index old) free e i in
      (free, move-Inv s t (Thread.push_loaded index s.stack.top) s.stack.size free own i)
  Step-Inv {s} free (swap_push {index} {old} t e same) few i =
      let (own, linked) = known s t (Thread.push_linked index old) free e i in
      (index ∷ free, swap_push-Inv s t index old free few own linked same i)
  Step-Inv {s} free (count_push t e) few i =
      (free, move-Inv s t Thread.outside (u32 (s.stack.size + 1)) free tt i)
  Step-Inv {s} free (load_to_pop t e) few i = (
    free,
    move-Inv s t (Thread.pop_loaded s.stack.top) s.stack.size free (load-Loaded s free i) i,
  )
  Step-Inv {s} free (find_empty t e _) few i =
      (free, move-Inv s t Thread.outside s.stack.size free tt i)
  Step-Inv {s} free (read_link {old} t e some_left) few i =
      let l = known s t (Thread.pop_loaded old) free e i in
      (
        free,
        move-Inv s t (Thread.pop_read old (s.stack.descriptors (index_of old)).next) s.stack.size
            free (l, some_left, λ g. refl) i,
      )
  Step-Inv {s} free (retry_pop t e) few i = (
    free,
    move-Inv s t (Thread.pop_loaded s.stack.top) s.stack.size free (load-Loaded s free i) i,
  )
  Step-Inv {s} [] (swap_pop {old} {after} t e same) few i =
      let (_, some_left, _) = known s t (Thread.pop_read old after) [] e i in
      absurd (some_left (rw (← same) i.chain))
  Step-Inv {s} (y ∷ free) (swap_pop {old} {after} t e same) few i =
      let (_, some_left, read) = known s t (Thread.pop_read old after) (y ∷ free) e i in
      let g : gen_of old ≡ s.swaps = rw (← same) i.generation in
      let head : index_of old ≡ y = rw (← same) (i.chain.0) in
      (free, rw head (swap_pop-Inv s t old after y free few head (rw head at read g) same i))
  Step-Inv {s} free (count_pop t e) few i =
      (free, move-Inv s t Thread.outside (sub32 s.stack.size 1) free tt i)
