-- ===== src/Ip/AddrIter/Sorted.antt =====
-- `qsort` under `ignoreRangeCompare`.
use netmirage.Prelude.{ℕ, ◌≤◌, ◌<◌, ◌↔◌, ◌⊎◌, inl, inr, List, [], ◌∷◌, All, arith}
use netmirage.Ip.AddrIter.{IgnoreRange, ignore_range_compare, insert_range, sort_ranges}

-- `a` is in the range; in one of the ranges.
abbrev pub In : ℕ → IgnoreRange → Type 0
In a r = (r.start ≤ a) × (a ≤ r.end)

abbrev pub Ignored : ℕ → List IgnoreRange → Type 0
Ignored a [] = ⊥
Ignored a (r ∷ rs) = In a r ⊎ Ignored a rs

-- Sorted by the start.
abbrev pub IsSorted : List IgnoreRange → Type 0
IsSorted [] = Unit
IsSorted (r ∷ rs) = All (λ x. r.start ≤ x.start) rs × IsSorted rs

All-insert :
    (P : IgnoreRange → Type 0) (r : IgnoreRange) (rs : List IgnoreRange)
    → P r
    → All P rs
    → All P (insert_range r rs)
unfolding insert_range
All-insert P r [] p h = (p, tt)
All-insert P r (x ∷ xs) p h = ground (arith, All-insert P r xs p h.1)

All-weaken :
    (a b : ℕ) (rs : List IgnoreRange)
    → a ≤ b
    → All (λ x. b ≤ x.start) rs
    → All (λ x. a ≤ x.start) rs
All-weaken a b [] le h = tt
All-weaken a b (x ∷ xs) le h = (omega arith, All-weaken a b xs le h.1)

insert-IsSorted :
    (r : IgnoreRange) (rs : List IgnoreRange) → IsSorted rs → IsSorted (insert_range r rs)
unfolding insert_range ignore_range_compare
insert-IsSorted r [] h = (tt, tt)
insert-IsSorted r (x ∷ xs) h = ground (
  arith,
  All-weaken r.start x.start xs,
  All-insert (λ (y : IgnoreRange). x.start ≤ y.start) r xs,
  insert-IsSorted r xs,
)

Ignored-insert :
    (a : ℕ) (r : IgnoreRange) (rs : List IgnoreRange)
    → Ignored a (insert_range r rs) ↔ (In a r ⊎ Ignored a rs)
unfolding insert_range
Ignored-insert a r [] = ground arith
Ignored-insert a r (x ∷ xs) = ground (arith, Ignored-insert a r xs)

pub sort-IsSorted : (rs : List IgnoreRange) → IsSorted (sort_ranges rs)
unfolding sort_ranges
sort-IsSorted [] = tt
sort-IsSorted (r ∷ rs) = insert-IsSorted r (sort_ranges rs) (sort-IsSorted rs)

pub Ignored-sort : (a : ℕ) (rs : List IgnoreRange) → Ignored a (sort_ranges rs) ↔ Ignored a rs
unfolding sort_ranges
Ignored-sort a [] = ground arith
Ignored-sort a (r ∷ rs) = ground (arith, Ignored-insert a r (sort_ranges rs), Ignored-sort a rs)

pub All-sort :
    (P : IgnoreRange → Type 0) (rs : List IgnoreRange) → All P rs → All P (sort_ranges rs)
unfolding sort_ranges
All-sort P [] h = tt
All-sort P (r ∷ rs) h = All-insert P r (sort_ranges rs) h.0 (All-sort P rs h.1)

-- No range of a sorted list holds an address below its first start.
pub none_before : (a : ℕ) (rs : List IgnoreRange) → All (λ x. a < x.start) rs → ¬ Ignored a rs
none_before a [] h m = m
none_before a (r ∷ rs) h (inl here) = absurd (omega arith)
none_before a (r ∷ rs) h (inr later) = none_before a rs h.1 later

pub All-after :
    (a b : ℕ) (rs : List IgnoreRange)
    → a < b
    → All (λ x. b ≤ x.start) rs
    → All (λ x. a < x.start) rs
All-after a b [] lt h = tt
All-after a b (x ∷ xs) lt h = (omega arith, All-after a b xs lt h.1)
