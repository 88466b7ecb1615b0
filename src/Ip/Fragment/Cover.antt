-- ===== src/Ip/Fragment/Cover.antt =====
-- The fragments that the iterator of `ip4FragmentSubnet` gives.
use native.Mathlib.Decide.{dec_lt}
use netmirage.Prelude.{
  ℕ, suc, ◌+◌, ◌-◌, ◌/◌, ◌%◌, ◌^◌, ◌≤◌, ◌<◌, ◌≡◌, refl, true, none, some, length, All, arith,
  le→ltb_false, lt→ltb,
}
use netmirage.Prelude.Pow.{two-pow_mono}
use netmirage.Ip.Order.{ntohl-lt}
use netmirage.Ip.Subnet.{Ip4Subnet, IsValid, size_of, first_of, ip4_subnet_size, ip4_subnet_end}
use netmirage.Ip.Subnet.Range.{ntohl-subnet_end, size_pos}
use netmirage.Ip.Fragment.{Ip4FragIter, ip4_fragment_subnet, fragments, smaller_pow2}
use netmirage.Ip.Fragment.Log.{
  ideal_bounds, pow2-le, units, units_lem, count-le-units, units-lt, large_fragments,
}
use netmirage.Ip.Fragment.Tile.{Tiles, Fair, at, Splits, fresh-Splits}

-- The width of a small fragment of `s`, in bits.
abbrev pub small_bits : Ip4Subnet → ℕ → ℕ
small_bits s count = smaller_pow2 (size_of s) count

module _ (s : Ip4Subnet) (v : IsValid s) (count : ℕ) (pos : 0 < count) (fits : count ≤ size_of s)
    (small : size_of s / count < 2 ^ 32) where
  short : 32 - s.prefix_len ≤ 32
  short = omega arith

  bits-lt : small_bits s count < 32
  bits-lt = elim (dec_lt (small_bits s count) 32) [
    | yes h ↦ h
    | no h ↦ absurd (
        omega (
          arith,
          two-pow_mono 32 (small_bits s count) (omega arith),
          ideal_bounds (32 - s.prefix_len) count short pos fits,
        ))
  ]

  abbrev large : ℕ
  large = units (32 - s.prefix_len) count short pos fits - count

  abbrev start : Ip4FragIter
  start = record (at (small_bits s count) bits-lt (first_of s) large count) { first = true }

  small_word : 2 ^ small_bits s count % 2 ^ 32 ≡ 2 ^ small_bits s count
  small_word = omega (arith, ideal_bounds (32 - s.prefix_len) count short pos fits)

  created : ip4_fragment_subnet s count ≡ some start
  unfolding ip4_fragment_subnet ip4_subnet_size
  created = rw (
    le→ltb_false (size_of s) count fits,
    small_word,
    large_fragments (32 - s.prefix_len) count short pos fits,
  )

  splits :
      Splits
        (small_bits s count)
        bits-lt
        (first_of s)
        (fragments (suc count) start)
        count
        (first_of s + size_of s)
  splits =
      fresh-Splits (small_bits s count) bits-lt count
        (units (32 - s.prefix_len) count short pos fits) (32 - s.prefix_len) (first_of s)
        (first_of s + size_of s) pos (count-le-units (32 - s.prefix_len) count short pos fits)
        (units-lt (32 - s.prefix_len) count short pos fits)
        (
          pow2-le (32 - s.prefix_len) count short pos fits,
          units_lem (32 - s.prefix_len) count short pos fits,
        )
        v.aligned refl (omega (arith, ntohl-subnet_end v, ntohl-lt (ip4_subnet_end s), size_pos s))

-- A valid subnet is broken into any number of fragments from 1 to its size, unless that makes one
-- fragment of 2^32 addresses. Calling the iterator once more than that gives exactly `count` valid
-- subnets, which cover the subnet's addresses in order, without gap or overlap; and each has
-- `2 ^ small_bits` addresses or twice as many.
pub fragment_subnet_covers :
    (s : Ip4Subnet) (count : ℕ)
    → IsValid s
    → 0 < count
    → count ≤ size_of s
    → size_of s / count < 2 ^ 32
    → (it : Ip4FragIter) × (ip4_fragment_subnet s count ≡ some it)
      × Tiles (first_of s) (fragments (suc count) it) (first_of s + size_of s)
      × (length (fragments (suc count) it) ≡ count)
      × All (Fair (small_bits s count)) (fragments (suc count) it)
fragment_subnet_covers s count v pos fits small =
    let (tiles, number, fair) = splits s v count pos fits small in
    (start s v count pos fits small, created s v count pos fits small, tiles, number, fair)

-- A subnet with fewer addresses than the number of fragments asked for gives none.
pub fragment_subnet_none :
    (s : Ip4Subnet) (count : ℕ) → size_of s < count → ip4_fragment_subnet s count ≡ none
unfolding ip4_fragment_subnet ip4_subnet_size
fragment_subnet_none s count h = rw (lt→ltb (size_of s) count h)
