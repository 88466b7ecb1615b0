-- ===== src/Ip/AddrIter/Blind.antt =====
-- An ignored range below the iterator's address.
use native.Mathlib.Decide.{dec_le}
use netmirage.Prelude.{
  ℕ, zero, suc, ◌+◌, ◌-◌, ◌^◌, ◌≤◌, ◌<◌, ◌≡◌, refl, ap, ap₂, sym, ◌∙◌, Bool, false, List, [], ◌∷◌,
  arith,
}
use netmirage.Ip.Order.{ntohl-lt}
use netmirage.Ip.Subnet.{Ip4Subnet, IsValid, size_of, first_of, ip4_subnet_start}
use netmirage.Ip.Subnet.Range.{ntohl-subnet_end, size_pos}
use netmirage.Ip.AddrIter.{IgnoreRange, Ip4Iter, skip_ignored, sort_ranges, ip4_new_iter, addresses}
use netmirage.Ip.AddrIter.Spec.{free_addresses, free_addresses-cons}
use netmirage.Ip.AddrIter.Run.{
  next_exhausted, next_advances, addresses-none, addresses-some, free_addresses-zero, addr_after,
}
use netmirage.Ip.AddrIter.Fresh.{ignored_ranges}

-- The outer loop looks at the first range left, and that one does not hold the address.
skip_below :
    (addr : ℕ) (r : IgnoreRange) (rs : List IgnoreRange)
    → r.end < addr
    → skip_ignored false addr (r ∷ rs) ≡ (addr, r ∷ rs)
unfolding skip_ignored
skip_below addr r rs h = ground arith

blind_addresses :
    (calls : ℕ) (it : Ip4Iter) (r : IgnoreRange) (rs : List IgnoreRange)
    → it.ignores ≡ r ∷ rs
    → r.end < it.next_addr
    → it.final_addr < 2 ^ 32
    → it.final_addr + 1 - it.next_addr < calls
    → addresses calls it ≡ free_addresses [] (it.final_addr + 1 - it.next_addr) it.next_addr
blind_addresses zero it r rs e below word h = absurd (omega arith)
blind_addresses (suc calls) it r rs e below word h = elim (dec_le it.next_addr it.final_addr) [
  | no gt ↦
      addresses-none calls it it (next_exhausted it (omega arith))
      ∙ sym (free_addresses-zero [] _ it.next_addr (omega arith))
  | yes le ↦
      addresses-some calls it after
        (next_advances it le ∙ ground (arith, skip_below it.next_addr r rs below))
      ∙ ap₂ ◌∷◌ (addr_after after it.next_addr refl (omega arith))
          (blind_addresses calls after r rs e (omega arith) word (omega arith))
      ∙ sym (
          ap (λ (n : ℕ). free_addresses [] n it.next_addr) (count le)
          ∙ free_addresses-cons [] (it.final_addr + 1 - (it.next_addr + 1)) it.next_addr (λ m. m))
]
  where
    after : Ip4Iter
    after = record it { next_addr = it.next_addr + 1 }

    count :
        it.next_addr ≤ it.final_addr
        → it.final_addr + 1 - it.next_addr ≡ suc (it.final_addr + 1 - (it.next_addr + 1))
    count le = omega arith

-- If the first of the sorted ranges ends below the subnet, then a new iterator gives all the
-- subnet's addresses, also those that it was told to leave out.
pub new_iter_blind :
    (subnet : Ip4Subnet) (exclude : Bool) (avoid : List Ip4Subnet) (r : IgnoreRange)
    (rs : List IgnoreRange)
    → IsValid subnet
    → sort_ranges (ignored_ranges subnet exclude avoid) ≡ r ∷ rs
    → r.end < first_of subnet
    → addresses (suc (size_of subnet)) (ip4_new_iter subnet exclude avoid)
      ≡ free_addresses [] (size_of subnet) (first_of subnet)
unfolding ip4_new_iter ip4_subnet_start
new_iter_blind subnet exclude avoid r rs v e below =
    blind_addresses (suc (size_of subnet)) (ip4_new_iter subnet exclude avoid) r rs e below
      (ntohl-lt _) (omega (arith, ntohl-subnet_end v, size_pos subnet))
    ∙ ap (λ (n : ℕ). free_addresses [] n (first_of subnet))
        (omega (arith, ntohl-subnet_end v, size_pos subnet))
