-- ===== src/Ip/Mac.antt =====
-- MAC addresses (src/common/lib/ip.c): the next address, and a run of addresses.
pub mod Count
use netmirage.Prelude.{
  ℕ, zero, suc, ◌+◌, ◌*◌, ◌%◌, ◌^◌, ◌<◌, ◌≡◌, Bool, true, false, not, ◌&&◌, ◌==◌, if◌then◌else◌,
  List, [], ◌∷◌, length, get_or, set, All,
}

-- `octets[MAC_ADDR_BYTES]`
pub record MacAddr : Type 0 where
  pub octets : List ℕ

abbrev pub mac_addr_bytes : ℕ
mac_addr_bytes = 6

-- `for (i = MAC_ADDR_BYTES; i > 0; --i) if (++octets[i-1] != 0) return true;`
unfoldable pub next_from : ℕ → List ℕ → List ℕ × Bool
next_from zero octets = (octets, false)
next_from (suc i) octets =
    let octet = (get_or octets i 0 + 1) % 256 in
    let rest = next_from i (set octets i octet) in
    if not (octet == 0) then (set octets i octet, true) else rest

unfoldable pub mac_next_addr : MacAddr → MacAddr × Bool
unfolding next_from
mac_next_addr addr =
    let (octets, done) = next_from mac_addr_bytes addr.octets in (record { octets = octets }, done)

-- What is left in `nextAddr`, the addresses written to `buffer`, and `unwrapped`.
unfoldable pub mac_next_addrs : MacAddr → ℕ → MacAddr × List MacAddr × Bool
mac_next_addrs next zero = (next, [], true)
mac_next_addrs next (suc count) =
    let (next', unwrapped) = mac_next_addr next in
    let (last, buffer, rest) = mac_next_addrs next' count in
    (last, next ∷ buffer, unwrapped && rest)

-- Six octets.
pub record IsMac (m : MacAddr) : Type 0 where
  pub six : length m.octets ≡ mac_addr_bytes
  pub octet : All (λ o. o < 256) m.octets

-- The address as a number, its first octet the highest.
abbrev pub value_from : ℕ → List ℕ → ℕ
value_from acc [] = acc
value_from acc (o ∷ os) = value_from (acc * 256 + o) os

abbrev pub value : MacAddr → ℕ
value m = value_from 0 m.octets
