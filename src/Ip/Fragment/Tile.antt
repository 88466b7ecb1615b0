-- ===== src/Ip/Fragment/Tile.antt =====
-- The fragments of a subnet, one after the other.
use native.Mathlib.Nat.{mul-mod_left, mul_assoc, mul_comm, div-add-mod'}
use native.Mathlib.Decide.{dec_le}
use netmirage.Prelude.{
  ℕ, zero, suc, ◌+◌, ◌-◌, ◌*◌, ◌/◌, ◌%◌, ◌^◌, ◌≤◌, ◌<◌, ◌≡◌, refl, ap, ◌∙◌, ◌⊎◌, inl, inr, true,
  false, lt→ltb, ℕ-cases, List, [], ◌∷◌, length, All, arith,
}
use netmirage.Prelude.Pow.{two-pow-suc, two-pow-pos, two-pow_mono, two-pow-split}
use netmirage.Ip.Order.{ntohl, htonl, ntohl-htonl, htonl-lt}
use netmirage.Ip.Subnet.{Ip4Subnet, IsValid, size_of, first_of}
use netmirage.Ip.Fragment.{Ip4FragIter, ip4_frag_iter_next, ip4_frag_iter_subnet, fragments}

-- The subnets of a list cover the addresses from `a` up to, not including, `b`: in order, without a
-- gap and without overlap.
abbrev pub Tiles : ℕ → List Ip4Subnet → ℕ → Type 0
Tiles a [] b = a ≡ b
Tiles a (s ∷ ss) b = IsValid s × (first_of s ≡ a) × Tiles (a + size_of s) ss b

subnet_at :
    (j q p addr : ℕ)
    → p + j ≡ 32
    → addr ≡ q * 2 ^ j
    → addr < 2 ^ 32
    → let s : Ip4Subnet = record { addr = htonl (addr % 2 ^ 32); prefix_len = p } in
      IsValid s × (first_of s ≡ addr) × (size_of s ≡ 2 ^ j)
subnet_at j q p addr e at h = (
  record {
    short = omega arith;
    word = htonl-lt _;
    aligned = rw (start, size, at) (mul-mod_left q (2 ^ j));
  },
  start,
  size,
)
  where
    size : 2 ^ (32 - p) ≡ 2 ^ j
    size = ap (λ (n : ℕ). 2 ^ n) (omega arith)

    start : ntohl (htonl (addr % 2 ^ 32)) ≡ addr
    start = ntohl-htonl _ (omega arith) ∙ omega arith

multiple_of : (j m addr : ℕ) → j ≤ m → addr % 2 ^ m ≡ 0 → addr ≡ addr / 2 ^ m * 2 ^ (m - j) * 2 ^ j
multiple_of j m addr h al = omega (
  arith,
  div-add-mod' addr (2 ^ m),
  mul_assoc (addr / 2 ^ m) (2 ^ (m - j)) (2 ^ j),
  mul_comm (2 ^ (m - j)) (2 ^ j),
  two-pow-split j m h,
  ap (λ (n : ℕ). addr / 2 ^ m * n) (mul_comm (2 ^ (m - j)) (2 ^ j) ∙ two-pow-split j m h),
)

-- A small fragment has `2 ^ k` addresses, a large one twice as many.
abbrev pub Fair : ℕ → Ip4Subnet → Type 0
Fair k s = (size_of s ≡ 2 ^ k) ⊎ (size_of s ≡ 2 * 2 ^ k)

module _ (k : ℕ) (k_small : k < 32) where
  -- An iterator after its first call, with `large` and `left` fragments to come, this one included.
  abbrev pub at : ℕ → ℕ → ℕ → Ip4FragIter
  at addr large left = record {
    first = false;
    current_addr = addr;
    small_increment = 2 ^ k;
    small_prefix_len = 32 - k;
    large_fragments_remaining = large;
    fragments_remaining = left;
  }

  small_subnet :
      (q addr left : ℕ)
      → addr ≡ q * 2 ^ k
      → addr < 2 ^ 32
      → let s = ip4_frag_iter_subnet (at addr 0 left) in
        IsValid s × (first_of s ≡ addr) × (size_of s ≡ 2 ^ k)
  unfolding ip4_frag_iter_subnet
  small_subnet q addr left e h = subnet_at k q (32 - k) addr (omega arith) e h

  large_subnet :
      (q addr large left : ℕ)
      → addr ≡ q * 2 ^ suc k
      → addr < 2 ^ 32
      → let s = ip4_frag_iter_subnet (at addr (suc large) left) in
        IsValid s × (first_of s ≡ addr) × (size_of s ≡ 2 ^ suc k)
  unfolding ip4_frag_iter_subnet
  large_subnet q addr large left e h =
      rw (lt→ltb 0 (suc large) (omega arith))
        (subnet_at (suc k) q (32 - k - 1) addr (omega arith) e h)

  -- The fragment at the current address, and those that further calls give.
  abbrev pub from : Ip4FragIter → ℕ → List Ip4Subnet
  from it calls = ip4_frag_iter_subnet it ∷ fragments calls it

  -- What `n` fragments from `a` up to `b` are.
  abbrev pub Splits : ℕ → List Ip4Subnet → ℕ → ℕ → Type 0
  Splits a ss n b = Tiles a ss b × (length ss ≡ n) × All (Fair k) ss

  fragments-next :
      (calls : ℕ) (it it' : Ip4FragIter)
      → ip4_frag_iter_next it ≡ (it', true)
      → fragments (suc calls) it ≡ from it' calls
  unfolding fragments
  fragments-next calls it it' e = rw e

  next_small :
      (addr left : ℕ)
      → addr + 2 ^ k < 2 ^ 64
      → ip4_frag_iter_next (at addr 0 (suc (suc left))) ≡ (at (addr + 2 ^ k) 0 (suc left), true)
  unfolding ip4_frag_iter_next
  next_small addr left h = ground arith

  next_large :
      (addr large left : ℕ)
      → addr + 2 ^ suc k < 2 ^ 64
      → ip4_frag_iter_next (at addr (suc large) (suc (suc left)))
        ≡ (at (addr + 2 ^ suc k) large (suc left), true)
  unfolding ip4_frag_iter_next
  next_large addr large left h = ground (arith, two-pow-suc k)

  next_last : (addr large : ℕ) → (ip4_frag_iter_next (at addr large 1)).1 ≡ false
  unfolding ip4_frag_iter_next
  next_last addr large = ground arith

  one_last :
      (addr large size b : ℕ)
      → let s = ip4_frag_iter_subnet (at addr large 1) in
        IsValid s × (first_of s ≡ addr) × (size_of s ≡ size)
        → Fair k (ip4_frag_iter_subnet (at addr large 1))
        → b ≡ addr + size
        → Splits addr (from (at addr large 1) 1) 1 b
  unfolding fragments
  one_last addr large size b s fair e =
      rw (next_last addr large) ((s.0, s.1, omega (arith, s.2)), refl, (fair, tt))

  one_more :
      (addr large large' left size b : ℕ)
      → let it = at addr large (suc (suc left)) in
        let s = ip4_frag_iter_subnet it in
        IsValid s × (first_of s ≡ addr) × (size_of s ≡ size)
        → Fair k (ip4_frag_iter_subnet (at addr large (suc (suc left))))
        → ip4_frag_iter_next (at addr large (suc (suc left)))
          ≡ (at (addr + size) large' (suc left), true)
        → Splits (addr + size) (from (at (addr + size) large' (suc left)) (suc left)) (suc left) b
        → Splits addr (from (at addr large (suc (suc left))) (suc (suc left))) (suc (suc left)) b
  one_more addr large large' left size b s fair e (tiles, count, sizes) =
      rw (fragments-next (suc left) (at addr large (suc (suc left))) _ e)
        ((s.0, s.1, rw s.2 tiles), ap suc count, (fair, sizes))

  small-Splits :
      (left q addr b : ℕ)
      → addr ≡ q * 2 ^ k
      → b ≡ addr + suc left * 2 ^ k
      → b ≤ 2 ^ 32
      → Splits addr (from (at addr 0 (suc left)) (suc left)) (suc left) b
  small-Splits zero q addr b e eb h =
      let s = small_subnet q addr 1 e (omega (arith, two-pow-pos k)) in
      one_last addr 0 (2 ^ k) b s (inl s.2) (omega arith)
  small-Splits (suc left) q addr b e eb h =
      let s = small_subnet q addr (suc (suc left)) e (omega (arith, two-pow-pos k)) in
      one_more addr 0 0 left (2 ^ k) b s (inl s.2) (next_small addr left (omega arith))
        (small-Splits left (suc q) (addr + 2 ^ k) b (omega arith) (omega arith) h)

  twice_suc : (q : ℕ) → q * 2 ^ suc k + 2 ^ suc k ≡ (q * 2 + 2) * 2 ^ k
  twice_suc q = omega (arith, ap (λ (n : ℕ). q * n) (two-pow-suc k), two-pow-suc k)

  large-Splits :
      (left large q addr b : ℕ)
      → large ≤ left
      → addr ≡ q * 2 ^ suc k
      → b ≡ addr + (suc left + suc large) * 2 ^ k
      → b ≤ 2 ^ 32
      → Splits addr (from (at addr (suc large) (suc left)) (suc left)) (suc left) b
  large-Splits zero zero q addr b le e eb h =
      let s = large_subnet q addr 0 1 e (omega (arith, two-pow-pos k)) in
      one_last addr 1 (2 ^ suc k) b s (inr (s.2 ∙ two-pow-suc k)) (omega (arith, two-pow-suc k))
  large-Splits zero (suc large) q addr b le e eb h = absurd (omega arith)
  large-Splits (suc left) zero q addr b le e eb h =
      let s = large_subnet q addr 0 (suc (suc left)) e (omega (arith, two-pow-pos k)) in
      one_more addr 1 0 left (2 ^ suc k) b s (inr (s.2 ∙ two-pow-suc k))
        (next_large addr 0 left (omega (arith, two-pow-suc k)))
        (small-Splits left (q * 2 + 2) (addr + 2 ^ suc k) b (omega (arith, twice_suc q))
          (omega (arith, two-pow-suc k)) h)
  large-Splits (suc left) (suc large) q addr b le e eb h =
      let s = large_subnet q addr (suc large) (suc (suc left)) e (omega (arith, two-pow-pos k)) in
      one_more addr (suc (suc large)) (suc large) left (2 ^ suc k) b s (inr (s.2 ∙ two-pow-suc k))
        (next_large addr (suc large) left (omega (arith, two-pow-suc k)))
        (large-Splits left large (suc q) (addr + 2 ^ suc k) b (omega arith) (omega arith)
          (omega (arith, two-pow-suc k)) h)

  fresh_starts :
      (addr large left : ℕ)
      → ip4_frag_iter_next (record (at addr large (suc left)) { first = true })
        ≡ (at addr large (suc left), true)
  unfolding ip4_frag_iter_next
  fresh_starts addr large left = ground arith

  two_units : (m units : ℕ) → 2 ^ k * units ≡ 2 ^ m → 2 ≤ units → suc k ≤ m
  two_units m units e two = elim (dec_le (suc k) m) [
    | yes h ↦ h
    | no h ↦ absurd (omega (arith, two-pow_mono m k (omega arith), two-pow-pos k, at_least (2 ^ k)))
  ]
    where
      at_least : (n : ℕ) → n * 2 ≤ n * units
      at_least n = grind arith

  -- From the iterator that `ip4FragmentSubnet` returns.
  pub fresh-Splits :
      (count units m addr b : ℕ)
      → 0 < count
      → count ≤ units
      → units < 2 * count
      → (k ≤ m) × (2 ^ k * units ≡ 2 ^ m)
      → addr % 2 ^ m ≡ 0
      → b ≡ addr + 2 ^ m
      → b ≤ 2 ^ 32
      → Splits addr
          (fragments (suc count) (record (at addr (units - count) count) { first = true }))
          count
          b
  fresh-Splits zero units m addr b pos le lt eu al eb h = elim pos [ ]
  fresh-Splits (suc left) units m addr b pos le lt eu al eb h =
      rw (fragments-next (suc left) _ (at addr (units - suc left) (suc left)) started)
        (elim (ℕ-cases (units - suc left)) [
          | inl none_large ↦ rw none_large (
              small-Splits left (addr / 2 ^ m * 2 ^ (m - k)) addr b (multiple_of k m addr eu.0 al)
                (omega (arith, ap (λ (n : ℕ). 2 ^ k * n) (all_small none_large))) h)
          | inr (large, some_large) ↦ rw some_large (
              large-Splits left large (addr / 2 ^ m * 2 ^ (m - suc k)) addr b (omega arith)
                (multiple_of (suc k) m addr (two_units m units eu.1 (omega arith)) al)
                (omega (arith, ap (λ (n : ℕ). 2 ^ k * n) (with_large some_large))) h)
        ])
    where
      started :
          ip4_frag_iter_next (record (at addr (units - suc left) (suc left)) { first = true })
          ≡ (at addr (units - suc left) (suc left), true)
      started = fresh_starts addr (units - suc left) left

      all_small : units - suc left ≡ 0 → units ≡ suc left
      all_small e = omega arith

      with_large : {large : ℕ} → units - suc left ≡ suc large → units ≡ suc left + suc large
      with_large e = omega arith
