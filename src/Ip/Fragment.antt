-- ===== src/Ip/Fragment.antt =====
-- `ip4FragmentSubnet` and its iterator (src/common/lib/ip.c). The floating-point steps are exact on the
-- values that occur: both operands of each division are below 2^33, so the rounded quotient has the
-- floor of the true one, and `llrint` rounds down (`FE_DOWNWARD`).
pub mod Log
pub mod Tile
pub mod Cover
use netmirage.Prelude.{
  ℕ, zero, suc, ◌+◌, ◌-◌, ◌*◌, ◌/◌, ◌%◌, ◌^◌, Bool, true, false, ltb, ◌==◌, if◌then◌else◌, Option,
  none, some, List, [], ◌∷◌,
}
use netmirage.Ip.Order.{ntohl, htonl}
use netmirage.Ip.Subnet.{Ip4Subnet, ip4_subnet_size}

-- The floor of the binary logarithm, for a number of at most as many bits as there is fuel.
floor_log2 : ℕ → ℕ → ℕ
floor_log2 zero n = 0
floor_log2 (suc bits) n = elim (ltb n 2) [ true ↦ 0 | false ↦ suc (floor_log2 bits (n / 2)) ]

pub record Ip4FragIter : Type 0 where
  pub first : Bool
  pub current_addr : ℕ  -- host order
  pub small_increment : ℕ
  pub small_prefix_len : ℕ
  pub large_fragments_remaining : ℕ
  pub fragments_remaining : ℕ

-- `(uint8_t)llrint(log2(floor(parentSize / fragmentCount)))`
unfoldable pub smaller_pow2 : ℕ → ℕ → ℕ
unfolding floor_log2
smaller_pow2 parent_size fragment_count = floor_log2 64 (parent_size / fragment_count)

-- `none` is the NULL that is returned. `1U << smallerPow2` is a 32-bit shift.
unfoldable pub ip4_fragment_subnet : Ip4Subnet → ℕ → Option Ip4FragIter
ip4_fragment_subnet subnet fragment_count =
    let parent_size = ip4_subnet_size subnet false in
    let pow2 = smaller_pow2 parent_size fragment_count in
    let small_size = 2 ^ pow2 % 2 ^ 32 in
    let total_small_size = small_size * fragment_count % 2 ^ 64 in
    let leftover_size = (parent_size + 2 ^ 64 - total_small_size) % 2 ^ 64 in
    if ltb parent_size fragment_count
    then none
    else some (record {
      first = true;
      current_addr = ntohl subnet.addr;
      small_increment = small_size;
      small_prefix_len = 32 - pow2;
      large_fragments_remaining = leftover_size / small_size;
      fragments_remaining = fragment_count;
    })

-- The advance of an iterator that is neither exhausted nor fresh; its counters are not 0 where they
-- are decremented.
advance : Ip4FragIter → Ip4FragIter × Bool
advance it =
    let is_large = ltb 0 it.large_fragments_remaining in
    let left = it.fragments_remaining - 1 in
    (
      record it {
        large_fragments_remaining =
            if is_large then it.large_fragments_remaining - 1 else it.large_fragments_remaining;
        current_addr =
            (it.current_addr + it.small_increment * (if is_large then 2 else 1)) % 2 ^ 64;
        fragments_remaining = left;
      },
      ltb 0 left,
    )

unfoldable pub ip4_frag_iter_next : Ip4FragIter → Ip4FragIter × Bool
unfolding advance
ip4_frag_iter_next it =
    if it.fragments_remaining == 0
    then (it, false)
    else if it.first
    then (record it { first = false }, true)
    else advance it

unfoldable pub ip4_frag_iter_subnet : Ip4FragIter → Ip4Subnet
ip4_frag_iter_subnet it = record {
  addr = htonl (it.current_addr % 2 ^ 32);
  prefix_len =
      if ltb 0 it.large_fragments_remaining then it.small_prefix_len - 1 else it.small_prefix_len;
}

-- What a caller sees that asks for the next fragment until there is none, or `calls` times.
unfoldable pub fragments : ℕ → Ip4FragIter → List Ip4Subnet
fragments zero it = []
fragments (suc calls) it =
    let (it', more) = ip4_frag_iter_next it in
    let rest = fragments calls it' in if more then ip4_frag_iter_subnet it' ∷ rest else []
