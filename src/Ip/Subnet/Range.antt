-- ===== src/Ip/Subnet/Range.antt =====
-- The masks and the ends of a subnet, in host order.
use native.Mathlib.Nat.{mul_comm, div-add-mod, div-add-mod', mod-lt, div-lt_iff_lt-mul}
use mathlib.Core.Path.{ap₂}
use native.Mathlib.Decide.{dec_le}
use netmirage.Prelude.{
  if◌then◌else◌, ℕ, zero, suc, sym, ◌+◌, ◌-◌, ◌*◌, ◌/◌, ◌%◌, ◌^◌, ◌≤◌, ◌<◌, ◌≡◌, ◌∙◌, true, false,
  bit_and, bit_or, arith,
}
use netmirage.Prelude.Pow.{two-pow-pos, two-pow_mono, two-pow-split}
use netmirage.Prelude.Bits.{or_fields, and_high}
use netmirage.Ip.Order.{ntohl, ntohl-lt, ntohl-ntohl, ntohl_not, ntohl-or, ntohl-and}
use netmirage.Ip.Subnet.{
  Ip4Subnet, IsValid, size_of, first_of, ip4_host_mask, ip4_subnet_mask, ip4_subnet_end,
  ip4_subnet_size, ip4_subnet_start, ip4_subnet_has_reserved,
}

pub size_le : (s : Ip4Subnet) → size_of s ≤ 2 ^ 32
size_le s = two-pow_mono (32 - s.prefix_len) 32 (omega arith)

pub size_pos : (s : Ip4Subnet) → 1 ≤ size_of s
size_pos s = two-pow-pos (32 - s.prefix_len)

pub host_mask-lt : (s : Ip4Subnet) → ip4_host_mask s < 2 ^ 32
unfolding ip4_host_mask
host_mask-lt s = ntohl-lt _

pub ntohl-host_mask : (s : Ip4Subnet) → ntohl (ip4_host_mask s) ≡ size_of s - 1
unfolding ip4_host_mask
ntohl-host_mask s = ntohl-ntohl _ (omega arith) ∙ omega (arith, size_le s, size_pos s)

pub ntohl-subnet_mask : (s : Ip4Subnet) → ntohl (ip4_subnet_mask s) ≡ 2 ^ 32 - size_of s
unfolding ip4_subnet_mask
ntohl-subnet_mask s =
    omega (
      arith,
      ntohl_not (ip4_host_mask s) (host_mask-lt s),
      ntohl-host_mask s,
      size_le s,
      size_pos s,
    )

-- A valid subnet starts at a multiple of its size.
pub first_multiple : {s : Ip4Subnet} → IsValid s → first_of s ≡ first_of s / size_of s * size_of s
first_multiple {s} v = omega (
  arith,
  div-add-mod (first_of s) (size_of s),
  v.aligned,
  mul_comm (size_of s) (first_of s / size_of s),
)

pub ntohl-subnet_end :
    {s : Ip4Subnet} → IsValid s → ntohl (ip4_subnet_end s) ≡ first_of s + (size_of s - 1)
unfolding ip4_subnet_end
ntohl-subnet_end {s} v = omega (
  arith,
  ntohl-or s.addr (ip4_host_mask s) v.word (host_mask-lt s),
  ap₂ bit_or (first_multiple v) (ntohl-host_mask s),
  first_multiple v,
  or_fields (32 - s.prefix_len) (first_of s / size_of s) (size_of s - 1)
      (omega (arith, size_pos s)),
)

pub subnet_mask-lt : (s : Ip4Subnet) → ip4_subnet_mask s < 2 ^ 32
unfolding ip4_subnet_mask
subnet_mask-lt s = omega arith

ones_over_zeros : (p : ℕ) → p ≤ 32 → (2 ^ p - 1) * 2 ^ (32 - p) ≡ 2 ^ 32 - 2 ^ (32 - p)
ones_over_zeros p h = omega (arith, two-pow-split p 32 h, sub_mul (2 ^ p) (2 ^ (32 - p)))
  where
    sub_mul : (n m : ℕ) → (n - 1) * m ≡ n * m - m
    sub_mul zero m = omega arith
    sub_mul (suc n) m = grind arith

quotient_small : (p x : ℕ) → p ≤ 32 → x < 2 ^ 32 → x / 2 ^ (32 - p) < 2 ^ p
quotient_small p x h hx =
    (div-lt_iff_lt-mul (two-pow-pos (32 - p))).1 (omega (arith, two-pow-split p 32 h))

-- Under the mask of `s` an address becomes the first address of the block of that size around it.
pub ntohl-masked :
    (s : Ip4Subnet) (a : ℕ)
    → s.prefix_len ≤ 32
    → a < 2 ^ 32
    → ntohl (bit_and a (ip4_subnet_mask s)) ≡ ntohl a / size_of s * size_of s
ntohl-masked s a short ha = omega (
  arith,
  ntohl-and a (ip4_subnet_mask s) ha (subnet_mask-lt s),
  ap₂ bit_and (sym (div-add-mod' (ntohl a) (size_of s)))
      (ntohl-subnet_mask s ∙ sym (ones_over_zeros s.prefix_len short)),
  and_high s.prefix_len (32 - s.prefix_len) (ntohl a / size_of s) (ntohl a % size_of s)
      (quotient_small s.prefix_len (ntohl a) short (ntohl-lt a)) (mod-lt (ntohl a) (size_pos s)),
)

reserved_large : (p : ℕ) → p ≤ 30 → 2 < 2 ^ (32 - p)
reserved_large p h = omega (arith, two-pow_mono 2 (32 - p) (omega arith))

unreserved_small : (p : ℕ) → 30 < p → 2 ^ (32 - p) ≤ 2
unreserved_small p h = two-pow_mono (32 - p) 1 (omega arith)

-- For a valid subnet: the full size is the number of addresses from the first to the last, both
-- included, in host order; the last is a 32-bit word; and the size that excludes reserved addresses
-- is smaller by two exactly when the subnet has reserved addresses.
pub subnet_size-range :
    {s : Ip4Subnet}
    → IsValid s
    → (ntohl (ip4_subnet_start s) + ip4_subnet_size s false ≡ ntohl (ip4_subnet_end s) + 1)
      × (ntohl (ip4_subnet_end s) < 2 ^ 32)
      × (ip4_subnet_size s true + (if ip4_subnet_has_reserved s then 2 else 0)
          ≡ ip4_subnet_size s false)
unfolding ip4_subnet_start ip4_subnet_size ip4_subnet_has_reserved
subnet_size-range {s} v = (omega (arith, ntohl-subnet_end v, size_pos s), ntohl-lt _, reserved)
  where
    reserved : ip4_subnet_size s true + (if ip4_subnet_has_reserved s then 2 else 0) ≡ size_of s
    reserved = elim (dec_le s.prefix_len 30) [
      | yes h ↦ ground (arith, reserved_large s.prefix_len h)
      | no h ↦ ground (arith, unreserved_small s.prefix_len (omega arith))
    ]
