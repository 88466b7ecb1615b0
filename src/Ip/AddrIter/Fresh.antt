-- ===== src/Ip/AddrIter/Fresh.antt =====
-- A new iterator (`ip4NewIter`) and all that it gives.
use netmirage.Prelude.{
  ℕ, suc, ◌≤◌, ◌≡◌, ap, ◌∙◌, Bool, true, false, ◌&&◌, if◌then◌else◌, List, [], ◌∷◌, ◌++◌, map, All,
  arith,
}
use netmirage.Ip.Order.{ntohl, ntohl-lt}
use netmirage.Ip.Subnet.{
  Ip4Subnet, IsValid, size_of, first_of, ip4_subnet_start, ip4_subnet_end, ip4_subnet_has_reserved,
}
use netmirage.Ip.Subnet.Range.{ntohl-subnet_end, size_pos}
use netmirage.Ip.AddrIter.{
  IgnoreRange, sort_ranges, range_of, reserved_ranges, ip4_new_iter, addresses,
}
use netmirage.Ip.AddrIter.Sorted.{sort-IsSorted, Ignored-sort, All-sort}
use netmirage.Ip.AddrIter.Next.{Ready, IsProper}
use netmirage.Ip.AddrIter.Spec.{free_addresses, free_addresses_same}
use netmirage.Ip.AddrIter.Run.{IsReady, addresses-eq-free}

-- The ranges that a new iterator is told to leave out.
abbrev pub ignored_ranges : Ip4Subnet → Bool → List Ip4Subnet → List IgnoreRange
ignored_ranges subnet exclude_reserved avoid =
    map range_of avoid
    ++ (if exclude_reserved && ip4_subnet_has_reserved subnet then reserved_ranges subnet else [])

-- An avoided subnet that does not end below the subnet's first address.
abbrev pub NotBelow : Ip4Subnet → Ip4Subnet → Type 0
NotBelow subnet avoided = first_of subnet ≤ ntohl (ip4_subnet_end avoided)

abbrev Fit : ℕ → IgnoreRange → Type 0
Fit lo r = (r.start ≤ r.end) × (lo ≤ r.end)

All-append :
    (P : IgnoreRange → Type 0) (xs ys : List IgnoreRange) → All P xs → All P ys → All P (xs ++ ys)
All-append P [] ys h k = k
All-append P (x ∷ xs) ys h k = (h.0, All-append P xs ys h.1 k)

avoided-Fit :
    (subnet : Ip4Subnet) (avoid : List Ip4Subnet)
    → All IsValid avoid
    → All (NotBelow subnet) avoid
    → All (Fit (first_of subnet)) (map range_of avoid)
unfolding range_of ip4_subnet_start
avoided-Fit subnet [] v h = tt
avoided-Fit subnet (a ∷ avoid) v h =
    ((omega (arith, ntohl-subnet_end v.0), h.0), avoided-Fit subnet avoid v.1 h.1)

reserved-Fit :
    {subnet : Ip4Subnet}
    → IsValid subnet
    → (need : Bool) → All (Fit (first_of subnet)) (if need then reserved_ranges subnet else [])
unfolding reserved_ranges ip4_subnet_start
reserved-Fit v true = omega (arith, ntohl-subnet_end v)
reserved-Fit v false = tt

Fit-IsProper : (lo : ℕ) (rs : List IgnoreRange) → All (Fit lo) rs → All IsProper rs
Fit-IsProper lo [] h = tt
Fit-IsProper lo (r ∷ rs) h = (h.0.0, Fit-IsProper lo rs h.1)

Fit-Ready : (lo : ℕ) (rs : List IgnoreRange) → All (Fit lo) rs → Ready false lo rs
Fit-Ready lo [] h = tt
Fit-Ready lo (r ∷ rs) h = h.0.1

new_iter-IsReady :
    (subnet : Ip4Subnet) (exclude : Bool) (avoid : List Ip4Subnet)
    → IsValid subnet
    → All IsValid avoid
    → All (NotBelow subnet) avoid
    → IsReady (ip4_new_iter subnet exclude avoid)
unfolding ip4_new_iter ip4_subnet_start
new_iter-IsReady subnet exclude avoid v va below =
    let fit = All-sort (Fit (first_of subnet)) (ignored_ranges subnet exclude avoid) (
      All-append (Fit (first_of subnet)) (map range_of avoid) _ (avoided-Fit subnet avoid va below)
        (reserved-Fit v (exclude && ip4_subnet_has_reserved subnet))) in
    record {
      sorted = sort-IsSorted (ignored_ranges subnet exclude avoid);
      proper = Fit-IsProper (first_of subnet) _ fit;
      ready = Fit-Ready (first_of subnet) _ fit;
      word = ntohl-lt _;
    }

-- Take a valid subnet and valid subnets to avoid, none of which ends below the subnet. Then the
-- iterator, asked once more than the subnet has addresses, gives all the subnet's addresses in
-- ascending order but those in an avoided subnet and, if that was asked for, the reserved ones.
pub new_iter_addresses :
    (subnet : Ip4Subnet) (exclude : Bool) (avoid : List Ip4Subnet)
    → IsValid subnet
    → All IsValid avoid
    → All (NotBelow subnet) avoid
    → addresses (suc (size_of subnet)) (ip4_new_iter subnet exclude avoid)
      ≡ free_addresses (ignored_ranges subnet exclude avoid) (size_of subnet) (first_of subnet)
unfolding ip4_new_iter ip4_subnet_start
new_iter_addresses subnet exclude avoid v va below =
    addresses-eq-free (suc (size_of subnet)) (ip4_new_iter subnet exclude avoid)
      (new_iter-IsReady subnet exclude avoid v va below)
      (omega (arith, ntohl-subnet_end v, size_pos subnet))
    ∙ ap
        (λ (n : ℕ).
          free_addresses (sort_ranges (ignored_ranges subnet exclude avoid)) n (first_of subnet))
        (omega (arith, ntohl-subnet_end v, size_pos subnet))
    ∙ free_addresses_same (sort_ranges (ignored_ranges subnet exclude avoid))
        (ignored_ranges subnet exclude avoid) (size_of subnet) (first_of subnet)
        (λ a low. Ignored-sort a (ignored_ranges subnet exclude avoid))
