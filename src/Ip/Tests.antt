-- ===== src/Ip/Tests.antt =====
-- Runs of the code of src/common/lib/ip.c on small inputs, and the theorems at such inputs.
use netmirage.Prelude.{
  ◌+◌, ◌%◌, ◌^◌, ◌≤◌, ◌<◌, ◌≡◌, refl, ◌↔◌, true, false, ltb, if◌then◌else◌, some, [], ◌∷◌, length,
  All, map, arith,
}
use netmirage.Ip.Order.{ntohl, htonl}
use netmirage.Ip.Subnet.{
  Ip4Subnet, IsValid, first_of, size_of, ip4_subnet_start, ip4_subnet_end, ip4_subnet_size,
  ip4_subnet_has_reserved, ip4_subnets_overlap, ip4_host_mask,
}
use netmirage.Ip.Subnet.Range.{subnet_size-range}
use netmirage.Ip.Subnet.Overlap.{subnets_overlap_iff}
use netmirage.Ip.Fragment.{Ip4FragIter, ip4_fragment_subnet, fragments}
use netmirage.Ip.Fragment.Tile.{Tiles, Fair}
use netmirage.Ip.Fragment.Cover.{small_bits, fragment_subnet_covers}
use netmirage.Ip.AddrIter.{
  sort_ranges, range_of, ignore_range_compare, skip_ignored, ip4_new_iter, ip4_iter_next,
  ip4_iter_addr, addresses,
}
use netmirage.Ip.AddrIter.Spec.{free_addresses}
use netmirage.Ip.AddrIter.Fresh.{ignored_ranges, new_iter_addresses}
use netmirage.Ip.AddrIter.Blind.{new_iter_blind}
use netmirage.Ip.Mac.{MacAddr, IsMac, value, mac_next_addrs}
use netmirage.Ip.Mac.Count.{counted, mac_next_addrs_run}

-- 10.0.0.0/8, 10.1.0.0/16, 10.1.2.0/29 and 1.0.0.0/8, as a little-endian host reads them.
abbrev ten : Ip4Subnet
ten = record { addr = 10; prefix_len = 8 }

abbrev ten_one : Ip4Subnet
ten_one = record { addr = 266; prefix_len = 16 }

abbrev small : Ip4Subnet
small = record { addr = 131338; prefix_len = 29 }

abbrev small_half : Ip4Subnet
small_half = record { addr = 131338; prefix_len = 30 }

abbrev one : Ip4Subnet
one = record { addr = 1; prefix_len = 8 }

ten-IsValid : IsValid ten
unfolding ntohl
ten-IsValid = record { short = omega arith; word = omega arith; aligned = refl }

ten_one-IsValid : IsValid ten_one
unfolding ntohl
ten_one-IsValid = record { short = omega arith; word = omega arith; aligned = refl }

small-IsValid : IsValid small
unfolding ntohl
small-IsValid = record { short = omega arith; word = omega arith; aligned = refl }

small_half-IsValid : IsValid small_half
unfolding ntohl
small_half-IsValid = record { short = omega arith; word = omega arith; aligned = refl }

one-IsValid : IsValid one
unfolding ntohl
one-IsValid = record { short = omega arith; word = omega arith; aligned = refl }

subnet_size-range_example :
    (ntohl (ip4_subnet_start small) + ip4_subnet_size small false
      ≡ ntohl (ip4_subnet_end small) + 1)
    × (ntohl (ip4_subnet_end small) < 2 ^ 32)
    × (ip4_subnet_size small true + (if ip4_subnet_has_reserved small then 2 else 0)
        ≡ ip4_subnet_size small false)
subnet_size-range_example = subnet_size-range small-IsValid

subnets_overlap_iff_example : (ip4_subnets_overlap ten ten_one ≡ true) ↔ (
    (ntohl (ip4_subnet_start ten) ≤ ntohl (ip4_subnet_end ten_one))
    × (ntohl (ip4_subnet_start ten_one) ≤ ntohl (ip4_subnet_end ten)))
subnets_overlap_iff_example = subnets_overlap_iff ten-IsValid ten_one-IsValid

-- Three fragments of 8 addresses: one of 4 and two of 2.
fragment_subnet_covers_example :
    (it : Ip4FragIter) × (ip4_fragment_subnet small 3 ≡ some it)
    × Tiles (first_of small) (fragments 4 it) (first_of small + size_of small)
    × (length (fragments 4 it) ≡ 3)
    × All (Fair (small_bits small 3)) (fragments 4 it)
fragment_subnet_covers_example =
    fragment_subnet_covers small 3 small-IsValid (omega arith) (omega arith) (omega arith)

-- The eight addresses but for the first four, and the last, which is reserved.
new_iter_addresses_example :
    addresses 9 (ip4_new_iter small true (small_half ∷ []))
    ≡ free_addresses (ignored_ranges small true (small_half ∷ [])) 8 (first_of small)
unfolding ntohl ip4_subnet_end ip4_host_mask
new_iter_addresses_example =
    new_iter_addresses small true (small_half ∷ []) small-IsValid (small_half-IsValid, tt)
      (omega arith, tt)

new_iter_runs :
    addresses 9 (ip4_new_iter small true (small_half ∷ [])) ≡ 167838212 ∷ 167838213 ∷ 167838214 ∷ []
unfolding addresses ip4_new_iter ip4_iter_next ip4_iter_addr skip_ignored ignore_range_compare ntohl
    htonl ip4_subnet_start ip4_subnet_end ip4_host_mask ip4_subnet_has_reserved
new_iter_runs = refl

new_iter_blind_example :
    addresses 9 (ip4_new_iter small false (one ∷ small_half ∷ []))
    ≡ free_addresses [] 8 (first_of small)
unfolding sort_ranges range_of ignore_range_compare ntohl ip4_subnet_start ip4_subnet_end
    ip4_host_mask
new_iter_blind_example =
    new_iter_blind small false (one ∷ small_half ∷ []) (record { start = 16777216; end = 33554431 })
      (record { start = 167838208; end = 167838211 } ∷ []) small-IsValid refl (omega arith)

abbrev mac : MacAddr
mac = record { octets = 0 ∷ 0 ∷ 0 ∷ 0 ∷ 255 ∷ 255 ∷ [] }

mac-IsMac : IsMac mac
mac-IsMac = record { six = refl; octet = omega arith }

mac_next_addrs_run_example :
    (map value (mac_next_addrs mac 4).1 ≡ counted (value mac) 4)
    × (value (mac_next_addrs mac 4).0 ≡ (value mac + 4) % 2 ^ 48)
    × ((mac_next_addrs mac 4).2 ≡ ltb (value mac + 4) (2 ^ 48))
    × IsMac (mac_next_addrs mac 4).0
    × All IsMac (mac_next_addrs mac 4).1
mac_next_addrs_run_example = mac_next_addrs_run 4 mac-IsMac
