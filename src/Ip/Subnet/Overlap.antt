-- ===== src/Ip/Subnet/Overlap.antt =====
-- `ip4SubnetsOverlap` against the ranges of addresses.
use native.Mathlib.Nat.{div-add-mod', mod-lt, div-eq_of_lt-le, mul_assoc}
use native.Mathlib.Decide.{dec_lt}
use netmirage.Prelude.{
  ℕ, ◌+◌, ◌-◌, ◌*◌, ◌/◌, ◌^◌, ◌≤◌, ◌<◌, ◌≡◌, ◌↔◌, sym, ap, ◌∙◌, true, bit_and, arith, ==_iff,
  lt→ltb, le→ltb_false,
}
use netmirage.Prelude.Pow.{two-pow-add}
use netmirage.Prelude.Bits.{and-lt}
use netmirage.Ip.Order.{ntohl, ntohl-ntohl}
use netmirage.Ip.Subnet.{
  Ip4Subnet, IsValid, size_of, first_of, ip4_subnet_mask, ip4_subnets_overlap, ip4_subnet_start,
  ip4_subnet_end,
}
use netmirage.Ip.Subnet.Range.{
  size_pos, first_multiple, ntohl-subnet_end, subnet_mask-lt, ntohl-masked,
}

mul_cancel_le : (m n t : ℕ) → 0 < t → m * t ≤ n * t + (t - 1) → m ≤ n
mul_cancel_le m n t h p = elim (dec_lt n m) [ yes lt ↦ absurd (grind arith) | no ge ↦ omega arith ]

mul_le : (m n t : ℕ) → m ≤ n → m * t ≤ n * t
mul_le m n t h = grind arith

-- A block of `t` addresses that meets a block of `u * t`, each at a multiple of its size, starts
-- inside it.
starts_inside :
    (first_s first_t p u q size_s size_t : ℕ)
    → 0 < size_s
    → 0 < size_t
    → size_s ≡ u * size_t
    → first_s ≡ p * size_s
    → first_t ≡ q * size_t
    → first_s ≤ first_t + (size_t - 1)
    → first_t ≤ first_s + (size_s - 1)
    → first_t / size_s ≡ p
starts_inside first_s first_t p u q size_s size_t hs ht ratio es et low high =
    div-eq_of_lt-le size_s lower (omega (arith, next p size_s))
  where
    next : (n m : ℕ) → (n + 1) * m ≡ n * m + m
    next n m = grind arith

    regroup : p * size_s ≡ p * u * size_t
    regroup = ap (λ (n : ℕ). p * n) ratio ∙ sym (mul_assoc p u size_t)

    lower : p * size_s ≤ first_t
    lower = omega (
      arith,
      regroup,
      mul_le (p * u) q size_t (mul_cancel_le (p * u) q size_t ht (omega (arith, regroup))),
    )

abbrev Meet : Ip4Subnet → Ip4Subnet → Type 0
Meet s t =
    (ntohl (ip4_subnet_start s) ≤ ntohl (ip4_subnet_end t))
    × (ntohl (ip4_subnet_start t) ≤ ntohl (ip4_subnet_end s))

ratio : (s t : Ip4Subnet) → ℕ
ratio s t = 2 ^ (t.prefix_len - s.prefix_len)

size-ratio :
    (s t : Ip4Subnet)
    → s.prefix_len ≤ t.prefix_len
    → t.prefix_len ≤ 32
    → size_of s ≡ ratio s t * size_of t
unfolding ratio
size-ratio s t h k =
    ap (λ (n : ℕ). 2 ^ n) (omega arith)
    ∙ two-pow-add (t.prefix_len - s.prefix_len) (32 - t.prefix_len)

-- The test under the mask of the larger subnet `s`.
larger_decides :
    (s t : Ip4Subnet)
    → IsValid s
    → IsValid t
    → s.prefix_len ≤ t.prefix_len
    → (bit_and s.addr (ip4_subnet_mask s) ≡ bit_and t.addr (ip4_subnet_mask s)) ↔ Meet s t
unfolding ip4_subnet_start
larger_decides s t vs vt h = (λ e. inside (masks.0 e), λ m. masks.1 (meets m))
  where
    own : ntohl (bit_and s.addr (ip4_subnet_mask s)) ≡ first_of s
    own = ntohl-masked s s.addr vs.short vs.word ∙ sym (first_multiple vs)

    other : ntohl (bit_and t.addr (ip4_subnet_mask s)) ≡ first_of t / size_of s * size_of s
    other = ntohl-masked s t.addr vs.short vt.word

    masks :
        (bit_and s.addr (ip4_subnet_mask s) ≡ bit_and t.addr (ip4_subnet_mask s))
        ↔ (first_of s ≡ first_of t / size_of s * size_of s)
    masks = (
      λ e. sym own ∙ ap ntohl e ∙ other,
      λ e.
          sym (ntohl-ntohl _ (and-lt 32 s.addr _ vs.word (subnet_mask-lt s)))
          ∙ ap ntohl (own ∙ e ∙ sym other)
          ∙ ntohl-ntohl _ (and-lt 32 t.addr _ vt.word (subnet_mask-lt s)),
    )

    inside : first_of s ≡ first_of t / size_of s * size_of s → Meet s t
    inside e = omega (
      arith,
      ntohl-subnet_end vs,
      ntohl-subnet_end vt,
      div-add-mod' (first_of t) (size_of s),
      mod-lt (first_of t) (size_pos s),
    )

    meets : Meet s t → first_of s ≡ first_of t / size_of s * size_of s
    meets m =
        first_multiple vs
        ∙ ap (λ (n : ℕ). n * size_of s)
            (sym (
              starts_inside (first_of s) (first_of t) (first_of s / size_of s) (ratio s t)
                (first_of t / size_of t) (size_of s) (size_of t) (size_pos s) (size_pos t)
                (size-ratio s t h vt.short) (first_multiple vs) (first_multiple vt)
                (omega (arith, m.0, ntohl-subnet_end vt))
                (omega (arith, m.1, ntohl-subnet_end vs))))

-- For valid subnets the test answers true exactly when the two ranges of addresses have an address
-- in common: each starts no later than the other ends, in host order.
pub subnets_overlap_iff :
    {s t : Ip4Subnet}
    → IsValid s
    → IsValid t
    → (ip4_subnets_overlap s t ≡ true) ↔ (
        (ntohl (ip4_subnet_start s) ≤ ntohl (ip4_subnet_end t))
        × (ntohl (ip4_subnet_start t) ≤ ntohl (ip4_subnet_end s)))
unfolding ip4_subnets_overlap
subnets_overlap_iff {s} {t} vs vt = elim (dec_lt s.prefix_len t.prefix_len) [
  | yes lt ↦
      let d = larger_decides s t vs vt (omega arith) in
      let b = ==_iff (bit_and s.addr (ip4_subnet_mask s)) (bit_and t.addr (ip4_subnet_mask s)) in
      rw (lt→ltb s.prefix_len t.prefix_len lt) (λ e. d.0 (b.0 e), λ m. b.1 (d.1 m))
  | no ge ↦
      let d = larger_decides t s vt vs (omega arith) in
      let b = ==_iff (bit_and s.addr (ip4_subnet_mask t)) (bit_and t.addr (ip4_subnet_mask t)) in
      rw (le→ltb_false s.prefix_len t.prefix_len (omega arith))
        (λ e. let (l, r) = d.0 (sym (b.0 e)) in (r, l), λ m. b.1 (sym (d.1 (m.1, m.0))))
]
