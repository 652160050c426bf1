-- ===== src/Latency/Rows.antt =====
-- The rows of `print`.
use fast_break.Base.{
  ℕ, zero, suc, ◌+◌, ◌-◌, ◌/◌, ◌^◌, ◌≤◌, ◌<◌, ◌≡◌, inl, inr, refl, ap, sym, ◌∙◌, arith, ltb, ◌==◌,
  if◌then◌else◌, Bool-cases, ne→==, List, [], ◌∷◌, length, get_or, take, replicate, map, some,
}
use native.Mathlib.Nat.{div-le_of_le-mul}
use fast_break.Latency.{
  LatencyHistogram, Printed, print, percentile_ns, num_buckets, bucket_lo_ns, edges, add_to_row,
  fill_rows, row_max, bars,
}
use fast_break.Latency.Percentile.{below, IsHistogram}

abbrev pub total : List ℕ → ℕ
total [] = 0
total (x ∷ xs) = x + total xs

-- Each edge is above those before it.
abbrev Rising : ℕ → List ℕ → Type 0
Rising low [] = Unit
Rising low (e ∷ es) = (low ≤ e) × Rising e es

add_to_row-length :
    (lo samples : ℕ) (es rows : List ℕ) → length (add_to_row lo samples es rows) ≡ length rows
unfolding add_to_row
add_to_row-length lo samples [] rows = refl
add_to_row-length lo samples (e ∷ es) [] = refl
add_to_row-length lo samples (e ∷ es) (row ∷ rows) = elim (Bool-cases (ltb lo e)) [
  | inl here ↦ rw here refl
  | inr later ↦ rw later (ap suc (add_to_row-length lo samples es rows))
]

Rising-at : (low : ℕ) (es : List ℕ) (r : ℕ) → Rising low es → r < length es → low ≤ get_or es r 0
Rising-at low [] r up lt = absurd (omega arith)
Rising-at low (e ∷ es) zero (le, up) lt = le
Rising-at low (e ∷ es) (suc r) (le, up) lt = omega (arith, Rising-at e es r up (omega arith))

-- The rows up to an edge get the samples just if they lie below the edge.
add_to_row-total :
    (lo samples low r : ℕ) (es rows : List ℕ)
    → Rising low es
    → r < length es
    → length rows ≡ length es
    → total rows + samples < 2 ^ 64
    → total (take (suc r) (add_to_row lo samples es rows))
      ≡ total (take (suc r) rows) + (if ltb lo (get_or es r 0) then samples else 0)
unfolding add_to_row
add_to_row-total lo samples low r [] rows up lt same room = absurd (omega arith)
add_to_row-total lo samples low r (e ∷ es) [] up lt same room = absurd (omega arith)
add_to_row-total lo samples low zero (e ∷ es) (row ∷ rows) (le, up) lt same room = ground arith
add_to_row-total lo samples low (suc r) (e ∷ es) (row ∷ rows) (le, up) lt same room =
    let above = Rising-at e es r up (omega arith) in
    let rest =
      add_to_row-total lo samples e r es rows up (omega arith) (omega arith) (omega arith) in
    ground (arith, above, rest)

add_to_row-le :
    (lo samples : ℕ) (es rows : List ℕ)
    → total (add_to_row lo samples es rows) ≤ total rows + samples
unfolding add_to_row
add_to_row-le lo samples [] rows = omega arith
add_to_row-le lo samples (e ∷ es) [] = omega arith
add_to_row-le lo samples (e ∷ es) (row ∷ rows) = ground (arith, add_to_row-le lo samples es rows)

total-take : (n : ℕ) (xs : List ℕ) → length xs ≡ n → total (take n xs) ≡ total xs
total-take zero [] e = refl
total-take zero (x ∷ xs) e = absurd (omega arith)
total-take (suc n) [] e = refl
total-take (suc n) (x ∷ xs) e = ap (λ t. x + t) (total-take n xs (omega arith))

fill_rows-length : (f : ℕ → ℕ) (n : ℕ) → length (fill_rows f n) ≡ 14
unfolding fill_rows
fill_rows-length f zero = refl
fill_rows-length f (suc n) = elim (Bool-cases (f n == 0)) [
  | inl empty ↦ rw empty (fill_rows-length f n)
  | inr held ↦
      rw held
        (add_to_row-length (bucket_lo_ns n) (f n) edges (fill_rows f n) ∙ fill_rows-length f n)
]

fill_rows-le : (f : ℕ → ℕ) (n : ℕ) → total (fill_rows f n) ≤ below f n
unfolding fill_rows below
fill_rows-le f zero = omega arith
fill_rows-le f (suc n) =
    ground (arith, fill_rows-le f n, add_to_row-le (bucket_lo_ns n) (f n) edges (fill_rows f n))

edges-Rising : Rising 0 edges
edges-Rising = omega arith

-- The samples of the buckets below `n` that begin below an edge.
abbrev pub under : ℕ → (ℕ → ℕ) → ℕ → ℕ
under edge f i = if ltb (bucket_lo_ns i) edge then f i else 0

zeros : (r : ℕ) (n : ℕ) → total (take r (replicate n 0)) ≡ 0
zeros zero n = refl
zeros (suc r) zero = refl
zeros (suc r) (suc n) = omega (arith, zeros r n)

-- If the buckets below `n` hold fewer than 2 ^ 64 samples in all, then the rows up to an edge hold
-- the samples of the buckets that begin below the edge.
pub fill_rows_lem :
    (f : ℕ → ℕ) (n r : ℕ)
    → below f n < 2 ^ 64
    → r < 14
    → total (take (suc r) (fill_rows f n)) ≡ below (under (get_or edges r 0) f) n
unfolding fill_rows below
fill_rows_lem f zero r small lt = zeros (suc r) 14
fill_rows_lem f (suc n) r small lt =
    let edge : ℕ = get_or edges r 0 in
    let before = fill_rows_lem f n r (omega arith) lt in
    let room = fill_rows-le f n in
    elim (Bool-cases (f n == 0)) [
      | inl empty ↦ rw empty (before ∙ ground arith)
      | inr held ↦ rw held (
          add_to_row-total (bucket_lo_ns n) (f n) 0 r edges (fill_rows f n) edges-Rising lt
            (fill_rows-length f n) (omega arith)
          ∙ omega (arith, before))
    ]

bucket_lo-lt : (i : ℕ) → i ≤ num_buckets → bucket_lo_ns i < 2 ^ 64 - 1
unfolding bucket_lo_ns
bucket_lo-lt i le = ground arith

-- Every bucket begins below the last edge.
under-last : (f : ℕ → ℕ) (n : ℕ) → n ≤ num_buckets → below (under (2 ^ 64 - 1) f) n ≡ below f n
unfolding below
under-last f zero le = refl
under-last f (suc n) le = ground (arith, under-last f n (omega arith), bucket_lo-lt n (omega arith))

rows_all :
    (f : ℕ → ℕ)
    → below f num_buckets < 2 ^ 64
    → total (fill_rows f num_buckets) ≡ below f num_buckets
rows_all f small =
    sym (total-take 14 (fill_rows f num_buckets) (fill_rows-length f num_buckets))
    ∙ fill_rows_lem f num_buckets 13 small (omega arith)
    ∙ under-last f num_buckets (omega arith)

row_max-le : (m : ℕ) (rows : List ℕ) → m ≤ row_max m rows
unfolding row_max
row_max-le m [] = omega arith
row_max-le m (row ∷ rows) = ground (arith, row_max-le (if ltb m row then row else m) rows)

row_max-above : (m : ℕ) (rows : List ℕ) (i : ℕ) → get_or rows i 0 ≤ row_max m rows
unfolding row_max
row_max-above m [] i = omega arith
row_max-above m (row ∷ rows) zero = ground (arith, row_max-le (if ltb m row then row else m) rows)
row_max-above m (row ∷ rows) (suc i) = row_max-above (if ltb m row then row else m) rows i

bars-le : (rmax row : ℕ) → 0 < rmax → row ≤ rmax → bars rmax row ≤ 40
unfolding bars
bars-le rmax row pos le = div-le_of_le-mul rmax (omega arith)

drawn-rows :
    (rmax : ℕ) (rows : List ℕ)
    → map (λ (x : ℕ × ℕ). x.0) (map (λ row. (row, bars rmax row)) rows) ≡ rows
drawn-rows rmax [] = refl
drawn-rows rmax (row ∷ rows) = ap (λ l. row ∷ l) (drawn-rows rmax rows)

drawn-bars :
    (rmax : ℕ) (rows : List ℕ)
    → 0 < rmax
    → ((i : ℕ) → get_or rows i 0 ≤ rmax)
    → (i : ℕ) → (get_or {A = ℕ × ℕ} (map (λ row. (row, bars rmax row)) rows) i (0, 0)).1 ≤ 40
drawn-bars rmax [] pos le i = omega arith
drawn-bars rmax (row ∷ rows) pos le zero = bars-le rmax row pos (le 0)
drawn-bars rmax (row ∷ rows) pos le (suc i) = drawn-bars rmax rows pos (λ k. le (suc k)) i

-- If the buckets of a histogram add up to its count, and this is not 0, `print` draws rows: for
-- each of the 14 edges, those up to it hold just the samples of the buckets that begin below it;
-- all rows hold all the samples; and no bar is longer than 40.
pub print_lem :
    (ranks : List ℕ) (h : LatencyHistogram)
    → IsHistogram h
    → 0 < h.count
    → (p : Printed) × (print ranks h ≡ some p)
      × ((r : ℕ)
          → r < 14
          → total (take (suc r) (map (λ (x : ℕ × ℕ). x.0) p.rows))
            ≡ below (under (get_or edges r 0) h.buckets) num_buckets)
      × (total (map (λ (x : ℕ × ℕ). x.0) p.rows) ≡ h.count)
      × ((i : ℕ) → (get_or p.rows i (0, 0)).1 ≤ 40)
unfolding print
print_lem ranks h v pos =
    let rows = fill_rows h.buckets num_buckets in
    let rmax = row_max 1 rows in
    let same = drawn-rows rmax rows in
    let small : below h.buckets num_buckets < 2 ^ 64 = omega (arith, v.counted, v.fits) in
    (
      record {
        samples = h.count;
        percentiles = map (λ target. percentile_ns target h) ranks;
        max_ns = h.max_ns;
        mean_ns = h.sum_ns / h.count;
        rows = map (λ row. (row, bars rmax row)) rows;
      },
      rw (ne→== h.count 0 (omega arith)) refl,
      λ r lt.
          ap (λ l. total (take (suc r) l)) same ∙ fill_rows_lem h.buckets num_buckets r small lt,
      ap total same ∙ rows_all h.buckets small ∙ v.counted,
      drawn-bars rmax rows (row_max-le 1 rows) (row_max-above 1 rows),
    )
