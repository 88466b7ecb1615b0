-- ===== src/Ip/Subnet.antt =====
-- Subnets of src/common/lib/ip.c. Shifts of a `uint64_t` are exact here: a prefix has at most 32 bits.
pub mod Range
pub mod Overlap
use netmirage.Prelude.{
  ℕ, ◌-◌, ◌^◌, ◌%◌, ◌≤◌, ◌<◌, ◌≡◌, Bool, ◌&&◌, bit_and, bit_or, ltb, leb, ◌==◌, if◌then◌else◌,
}
use netmirage.Ip.Order.{Ip4Addr, ntohl}

pub record Ip4Subnet : Type 0 where
  pub addr : Ip4Addr
  pub prefix_len : ℕ

-- `(ip4Addr)ntohl((uint32_t)(((uint64_t)1 << (32 - prefixLen)) - 1))`
unfoldable pub ip4_host_mask : Ip4Subnet → Ip4Addr
ip4_host_mask s = ntohl ((2 ^ (32 - s.prefix_len) - 1) % 2 ^ 32)

-- `~` of a `uint32_t`
unfoldable pub ip4_subnet_mask : Ip4Subnet → Ip4Addr
ip4_subnet_mask s = 2 ^ 32 - 1 - ip4_host_mask s

unfoldable pub ip4_subnet_start : Ip4Subnet → Ip4Addr
ip4_subnet_start s = s.addr

unfoldable pub ip4_subnet_end : Ip4Subnet → Ip4Addr
ip4_subnet_end s = bit_or s.addr (ip4_host_mask s)

unfoldable pub ip4_subnet_size : Ip4Subnet → Bool → ℕ
ip4_subnet_size s exclude_reserved =
    let count = 2 ^ (32 - s.prefix_len) in
    if exclude_reserved && ltb 2 count then count - 2 else count

unfoldable pub ip4_subnet_has_reserved : Ip4Subnet → Bool
ip4_subnet_has_reserved s = leb s.prefix_len 30

unfoldable pub ip4_subnets_overlap : Ip4Subnet → Ip4Subnet → Bool
ip4_subnets_overlap s t =
    let mask = if ltb s.prefix_len t.prefix_len then ip4_subnet_mask s else ip4_subnet_mask t in
    bit_and s.addr mask == bit_and t.addr mask

-- What `ip4GetSubnet` leaves behind: a prefix of at most 32 bits, and no host bit set.
pub record IsValid (s : Ip4Subnet) : Type 0 where
  pub short : s.prefix_len ≤ 32
  pub word : s.addr < 2 ^ 32
  pub aligned : ntohl s.addr % 2 ^ (32 - s.prefix_len) ≡ 0

-- The number of addresses, and the first one in host order.
abbrev pub size_of : Ip4Subnet → ℕ
size_of s = 2 ^ (32 - s.prefix_len)

abbrev pub first_of : Ip4Subnet → ℕ
first_of s = ntohl s.addr
