-- ===== src/Ip/AddrIter/Spec.antt =====
-- The addresses that an iterator should give: those of a range that no ignored range holds.
use netmirage.Prelude.{
  ℕ, zero, suc, ◌+◌, ◌≤◌, ◌<◌, ◌≡◌, refl, ap₂, ◌↔◌, Bool, true, false, leb, ◌&&◌, ◌||◌,
  if◌then◌else◌, List, [], ◌∷◌, arith,
}
use netmirage.Ip.AddrIter.{IgnoreRange}
use netmirage.Ip.AddrIter.Sorted.{Ignored}

abbrev pub ignored : ℕ → List IgnoreRange → Bool
ignored a [] = false
ignored a (r ∷ rs) = (leb r.start a && leb a r.end) || ignored a rs

-- The addresses of `lo ... lo + n - 1` that are not ignored, in order.
unfoldable pub free_addresses : List IgnoreRange → ℕ → ℕ → List ℕ
free_addresses rs zero lo = []
free_addresses rs (suc n) lo =
    let rest = free_addresses rs n (lo + 1) in if ignored lo rs then rest else lo ∷ rest

pub ignored_iff : (a : ℕ) (rs : List IgnoreRange) → (ignored a rs ≡ true) ↔ Ignored a rs
ignored_iff a [] = (λ e. cc, λ m. absurd m)
ignored_iff a (r ∷ rs) = ground (arith, ignored_iff a rs)

pub ignored-false : (a : ℕ) (rs : List IgnoreRange) → ¬ Ignored a rs → ignored a rs ≡ false
ignored-false a rs h = ground (arith, ignored_iff a rs)

pub free_addresses-cons :
    (rs : List IgnoreRange) (n lo : ℕ)
    → ¬ Ignored lo rs
    → free_addresses rs (suc n) lo ≡ lo ∷ free_addresses rs n (lo + 1)
unfolding free_addresses
free_addresses-cons rs n lo h = rw (ignored-false lo rs h)

-- Ignored addresses at the start of a range are passed over.
pub free_addresses_skip :
    (rs : List IgnoreRange) (d n m lo hi : ℕ)
    → m ≡ d + n
    → hi ≡ lo + d
    → ((a : ℕ) → lo ≤ a → a < hi → Ignored a rs)
    → free_addresses rs m lo ≡ free_addresses rs n hi
unfolding free_addresses
free_addresses_skip rs zero n m lo hi em eh h = ap₂ (free_addresses rs) (omega arith) (omega arith)
free_addresses_skip rs (suc d) n zero lo hi em eh h = absurd (omega arith)
free_addresses_skip rs (suc d) n (suc m) lo hi em eh h =
    rw ((ignored_iff lo rs).1 (h lo (omega arith) (omega arith))) (
      free_addresses_skip rs d n m (lo + 1) hi (omega arith) (omega arith)
        (λ a low high. h a (omega arith) high))

pub free_addresses_same :
    (rs rs' : List IgnoreRange) (n lo : ℕ)
    → ((a : ℕ) → lo ≤ a → Ignored a rs ↔ Ignored a rs')
    → free_addresses rs n lo ≡ free_addresses rs' n lo
unfolding free_addresses
free_addresses_same rs rs' zero lo h = refl
free_addresses_same rs rs' (suc n) lo h = ground (
  arith,
  h lo (omega arith),
  ignored_iff lo rs,
  ignored_iff lo rs',
  free_addresses_same rs rs' n (lo + 1) (λ a low. h a (omega arith)),
)
