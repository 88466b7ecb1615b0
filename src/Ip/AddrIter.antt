-- ===== src/Ip/AddrIter.antt =====
-- `ip4Iter` (src/common/lib/ip.c), which enumerates the addresses of a subnet but for ignored ranges.
-- The signed `currentAddr` starts at one below the first address, so it is never below -1: the model
-- keeps `currentAddr + 1`. The cached pointer `currentIgnore` is `ignores + currentIgnoreNum`, and
-- only the ranges from there on are read: the model keeps those.
pub mod Sorted
pub mod Next
pub mod Spec
pub mod Run
pub mod Fresh
pub mod Blind
use netmirage.Prelude.{
  ℕ, zero, suc, ◌+◌, ◌-◌, ◌%◌, ◌^◌, Bool, true, false, ◌&&◌, ltb, leb, ◌==◌, if◌then◌else◌, List,
  [], ◌∷◌, ◌++◌, map,
}
use netmirage.Ip.Order.{Ip4Addr, ntohl, htonl}
use netmirage.Ip.Subnet.{Ip4Subnet, ip4_subnet_start, ip4_subnet_end, ip4_subnet_has_reserved}

pub record IgnoreRange : Type 0 where
  pub start : ℕ
  pub end : ℕ

-- What the comparison function of `qsort` returns: -1, 0 or 1.
pub data Order3 : Type 0 where
  before same after : Order3

unfoldable pub ignore_range_compare : IgnoreRange → IgnoreRange → Order3
ignore_range_compare r1 r2 =
    if ltb r1.start r2.start
    then before
    else if ltb r2.start r1.start
    then after
    else if ltb r2.end r1.end
    then before
    else if r1.end == r2.end
    then same
    else after

-- `qsort`: ranges that compare as equal are equal, so every sorting method gives the same array.
insert_range : IgnoreRange → List IgnoreRange → List IgnoreRange
insert_range r [] = r ∷ []
insert_range r (x ∷ xs) =
    let later = x ∷ insert_range r xs in
    elim (ignore_range_compare r x) [ before ↦ r ∷ x ∷ xs | same ↦ r ∷ x ∷ xs | after ↦ later ]

unfoldable pub sort_ranges : List IgnoreRange → List IgnoreRange
unfolding insert_range
sort_ranges [] = []
sort_ranges (r ∷ rs) = insert_range r (sort_ranges rs)

pub record Ip4Iter : Type 0 where
  pub next_addr : ℕ  -- `currentAddr + 1`
  pub final_addr : ℕ
  pub ignores : List IgnoreRange

unfoldable pub range_of : Ip4Subnet → IgnoreRange
range_of s = record { start = ntohl (ip4_subnet_start s); end = ntohl (ip4_subnet_end s) }

-- The first and the last address of a subnet, as ranges.
unfoldable pub reserved_ranges : Ip4Subnet → List IgnoreRange
reserved_ranges s =
    record { start = ntohl (ip4_subnet_start s); end = ntohl (ip4_subnet_start s) }
    ∷ record { start = ntohl (ip4_subnet_end s); end = ntohl (ip4_subnet_end s) }
    ∷ []

-- `avoid_subnets` is the list before the NULL, and is empty if the argument is NULL.
unfoldable pub ip4_new_iter : Ip4Subnet → Bool → List Ip4Subnet → Ip4Iter
unfolding sort_ranges range_of reserved_ranges
ip4_new_iter subnet exclude_reserved avoid_subnets =
    let need_to_exclude = exclude_reserved && ip4_subnet_has_reserved subnet in
    record {
      next_addr = ntohl (ip4_subnet_start subnet);
      final_addr = ntohl (ip4_subnet_end subnet);
      ignores =
          sort_ranges (
            map range_of avoid_subnets ++ (if need_to_exclude then reserved_ranges subnet else []));
    }

-- The two loops of `ip4IterNext`. `skipping` says whether control stands in the inner one, which
-- passes over ranges that end before the address; the outer one leaves a range that holds it.
unfoldable pub skip_ignored : Bool → ℕ → List IgnoreRange → ℕ × List IgnoreRange
skip_ignored skipping addr [] = (addr, [])
skip_ignored skipping addr (r ∷ rs) = elim (skipping && ltb r.end addr) [
  | true ↦ skip_ignored true addr rs
  | false ↦ elim (leb r.start addr && leb addr r.end) [
    | true ↦ skip_ignored true (r.end + 1) rs
    | false ↦ (addr, r ∷ rs)
  ]
]

-- `currentAddr >= finalAddr` is `finalAddr < currentAddr + 1`.
unfoldable pub ip4_iter_next : Ip4Iter → Ip4Iter × Bool
ip4_iter_next it =
    let (addr, ignores) = skip_ignored false it.next_addr it.ignores in
    if ltb it.final_addr it.next_addr
    then (it, false)
    else (record it { next_addr = addr + 1; ignores = ignores }, leb addr it.final_addr)

-- The address is `currentAddr`; the iterator has been advanced, so `next_addr` is not 0.
unfoldable pub ip4_iter_addr : Ip4Iter → Ip4Addr
ip4_iter_addr it = htonl ((it.next_addr - 1) % 2 ^ 32)

-- The addresses, in host order, that a caller gets who asks until there is none, or `calls` times.
unfoldable pub addresses : ℕ → Ip4Iter → List ℕ
addresses zero it = []
addresses (suc calls) it =
    let (it', more) = ip4_iter_next it in
    let rest = addresses calls it' in if more then ntohl (ip4_iter_addr it') ∷ rest else []
