-- ===== src/Counters/Report.antt =====
-- What `report` shows.
use fast_break.Base.{
  ℕ, ◌<◌, ◌≡◌, ◌↔◌, arith, refl, sym, ap, ap₂, ◌∙◌, inl, inr, Option, none, some, List, [], ◌∷◌,
  ◌++◌, map, append_assoc, append-nil, if◌then◌else◌, Bool-cases, Option-cases,
}
use fast_break.Counters.{
  PerfEvent, instructions, cycles, same_event, Request, disables, reads, Kernel, PerfCounter, on_fd,
  read, stop, valid, for_each, Line, Gathered, ipc, report_loop, report,
}
use fast_break.Counters.Lifetime.{descriptors, for_each-requests, on_fd-map, map-append}

-- The value of the last line for an event.
abbrev pub last_value : PerfEvent → List Line → Option ℕ
last_value e [] = none
last_value e (l ∷ ls) = elim (last_value e ls) [
  | none ↦ if same_event l.event e then some l.value else none
  | some v ↦ some v
]

abbrev or_else : Option ℕ → Option ℕ → Option ℕ
or_else none o = o
or_else (some v) o = some v

last_value-more :
    (e : PerfEvent) (l : Line) (ls : List Line) (o : Option ℕ)
    → or_else (last_value e (l ∷ ls)) o
      ≡ or_else (last_value e ls) (if same_event l.event e then some l.value else o)
last_value-more e l ls o = elim (Option-cases (last_value e ls)) [
  | inl gone ↦ elim (Bool-cases (same_event l.event e)) [
    | inl same ↦ rw (gone, same) refl
    | inr other ↦ rw (gone, other) refl
  ]
  | inr (v, there) ↦ rw there refl
]

-- What a descriptor gives after the requests so far: the kernel's answer; 0 for a counter that could
-- not be opened and for a short answer.
abbrev pub answer : Kernel → List Request → Option ℕ → ℕ
answer kernel log none = 0
answer kernel log (some fd) = elim (kernel.value log fd) [ none ↦ 0 | some v ↦ v ]

-- The counters are read one after the other.
abbrev pub answers : Kernel → List Request → List PerfCounter → List ℕ
answers kernel log [] = []
answers kernel log (c ∷ cs) = answer kernel log c.fd ∷ answers kernel (log ++ on_fd reads c.fd) cs

read-request :
    (kernel : Kernel) (c : PerfCounter) (log : List Request)
    → ((read kernel c log).1 ≡ log ++ on_fd reads c.fd)
      × ((read kernel c log).0 ≡ answer kernel log c.fd)
unfolding read on_fd
read-request kernel c log = elim (Option-cases c.fd) [
  | inl gone ↦ rw (gone, read, on_fd, answer) (sym (append-nil log), refl)
  | inr (fd, there) ↦ elim (Option-cases (kernel.value log fd)) [
    | inl short ↦ rw (there, read, on_fd, answer, short) (refl, refl)
    | inr (v, got) ↦ rw (there, read, on_fd, answer, got) (refl, refl)
  ]
]

-- What the loop adds to what it has gathered.
record Added (kernel : Kernel) (cs : List PerfCounter) (g g' : Gathered) (log log' : List Request)
    : Type 0 where
  new : List Line
  lines : g'.lines ≡ g.lines ++ new
  events : map (λ (l : Line). l.event) new ≡ map (λ (c : PerfCounter). c.event) cs
  valids : map (λ (l : Line). l.is_valid) new ≡ map valid cs
  values : map (λ (l : Line). l.value) new ≡ answers kernel log cs
  ins : g'.ins ≡ or_else (last_value instructions new) g.ins
  cyc : g'.cyc ≡ or_else (last_value cycles new) g.cyc
  asked : log' ≡ log ++ map reads (descriptors cs)

report_loop-Added :
    (kernel : Kernel) (cs : List PerfCounter) (g : Gathered) (log : List Request)
    → let (g', log') = report_loop kernel cs g log in Added kernel cs g g' log log'
unfolding report_loop
report_loop-Added kernel [] g log = record {
  new = [];
  lines = sym (append-nil g.lines);
  events = refl;
  valids = refl;
  values = refl;
  ins = refl;
  cyc = refl;
  asked = sym (append-nil log);
}
report_loop-Added kernel (c ∷ cs) g log =
    let (v, log₁) = read kernel c log in
    let (request, answered) = read-request kernel c log in
    let l : Line = record { event = c.event; value = v; is_valid = valid c } in
    let a =
      report_loop-Added kernel cs
        (record {
          lines = g.lines ++ (l ∷ []);
          ins = if same_event c.event instructions then some v else g.ins;
          cyc = if same_event c.event cycles then some v else g.cyc;
        })
        log₁ in
    record {
      new = l ∷ a.new;
      lines = a.lines ∙ append_assoc g.lines (l ∷ []) a.new;
      events = ap (λ t. c.event ∷ t) a.events;
      valids = ap (λ t. valid c ∷ t) a.valids;
      values = ap₂ ◌∷◌ answered (a.values ∙ ap (λ t. answers kernel t cs) request);
      ins = a.ins ∙ sym (last_value-more instructions l a.new g.ins);
      cyc = a.cyc ∙ sym (last_value-more cycles l a.new g.cyc);
      asked =
          a.asked
          ∙ ap (λ t. t ++ map reads (descriptors cs))
              (request ∙ ap (λ t. log ++ t) (on_fd-map reads c.fd))
          ∙ append_assoc log _ (map reads (descriptors cs))
          ∙ ap (λ t. log ++ t) (sym (map-append reads _ (descriptors cs)));
    }

or_else-none : (o : Option ℕ) → or_else o none ≡ o
or_else-none none = refl
or_else-none (some v) = refl

ipc-some_iff :
    (i c : Option ℕ) (a b : ℕ) → (ipc i c ≡ some (a, b)) ↔ ((i ≡ some a) × (c ≡ some b) × (0 < b))
unfolding ipc
ipc-some_iff none c a b = ground arith
ipc-some_iff (some ins) none a b = ground arith
ipc-some_iff (some ins) (some cyc) a b = ground arith

-- `report` disables each counter that could be opened and then reads each once. It shows one
-- line for each counter, in order, with whether the counter could be opened, and with the value
-- that the kernel answers to the read, or 0 if the counter could not be opened or the answer was
-- short. The last line shows `a` instructions and `b` cycles just if these are the values of the
-- last lines for the two events and `b` is not 0.
pub report_lem :
    (kernel : Kernel) (cs : List PerfCounter) (log : List Request)
    → let (lines, ratio, log') = report kernel cs log in
      let stopped = log ++ map disables (descriptors cs) in
      (map (λ (l : Line). l.event) lines ≡ map (λ (c : PerfCounter). c.event) cs)
      × (map (λ (l : Line). l.is_valid) lines ≡ map valid cs)
      × (map (λ (l : Line). l.value) lines ≡ answers kernel stopped cs)
      × ((a b : ℕ)
          → (ratio ≡ some (a, b)) ↔ (
              (last_value instructions lines ≡ some a)
              × (last_value cycles lines ≡ some b)
              × (0 < b)))
      × (log' ≡ stopped ++ map reads (descriptors cs))
unfolding report
report_lem kernel cs log =
    let start : Gathered = record { lines = []; ins = none; cyc = none } in
    let a = report_loop-Added kernel cs start (for_each stop cs log) in
    let stopped = for_each-requests disables stop (λ c l. unfold stop in refl) cs log in
    rw (a.lines, a.ins ∙ or_else-none _, a.cyc ∙ or_else-none _)
      (
        a.events,
        a.valids,
        a.values ∙ ap (λ t. answers kernel t cs) stopped,
        λ x y. ipc-some_iff _ _ x y,
        a.asked ∙ ap (λ t. t ++ map reads (descriptors cs)) stopped,
      )
