-- ===== src/Counters/Lifetime.antt =====
-- What a scope asks of the kernel, from its constructor to its destructor.
use fast_break.Base.{
  ℕ, ◌≡◌, refl, sym, ap, ◌∙◌, Option, none, some, List, [], ◌∷◌, ◌++◌, map, append_assoc,
  append-nil,
}
use fast_break.Counters.{PerfAbi, Request, opens, resets, PerfCounter, on_fd, fill_attr, for_each}

-- The descriptors of the counters that could be opened.
abbrev pub descriptors : List PerfCounter → List ℕ
descriptors [] = []
descriptors (c ∷ cs) = (elim c.fd [ none ↦ [] | some fd ↦ fd ∷ [] ]) ++ descriptors cs

-- One counter after the other is opened, and set to 0 if that worked.
abbrev pub openings : PerfAbi → ℕ → ℕ → List PerfCounter → List Request
openings abi cpu pid [] = []
openings abi cpu pid (c ∷ cs) =
    (opens (fill_attr abi c.event) pid cpu ∷ on_fd resets c.fd) ++ openings abi cpu pid cs

pub on_fd-map :
    (request : ℕ → Request) (o : Option ℕ)
    → on_fd request o ≡ map request (elim o [ none ↦ [] | some fd ↦ fd ∷ [] ])
unfolding on_fd
on_fd-map request none = refl
on_fd-map request (some fd) = refl

pub map-append : (f : ℕ → Request) (xs ys : List ℕ) → map f (xs ++ ys) ≡ map f xs ++ map f ys
map-append f [] ys = refl
map-append f (x ∷ xs) ys = ap (λ l. f x ∷ l) (map-append f xs ys)

-- A loop that asks for the same of each counter.
pub for_each-requests :
    (request : ℕ → Request) (act : PerfCounter → List Request → List Request)
    → ((c : PerfCounter) (log : List Request) → act c log ≡ log ++ on_fd request c.fd)
    → (cs : List PerfCounter) (log : List Request)
    → for_each act cs log ≡ log ++ map request (descriptors cs)
unfolding for_each
for_each-requests request act h [] log = sym (append-nil log)
for_each-requests request act h (c ∷ cs) log =
    let own : List ℕ = elim c.fd [ none ↦ [] | some fd ↦ fd ∷ [] ] in
    for_each-requests request act h cs (act c log)
    ∙ ap (λ l. l ++ map request (descriptors cs))
        (h c log ∙ ap (λ l. log ++ l) (on_fd-map request c.fd))
    ∙ append_assoc log (map request own) (map request (descriptors cs))
    ∙ ap (λ l. log ++ l) (sym (map-append request own (descriptors cs)))
