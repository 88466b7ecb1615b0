-- ===== src/Ip/Mac/Count.antt =====
-- `macNextAddr` and `macNextAddrs` against the 48-bit number that an address stands for.
use native.Mathlib.Nat.{pow-suc}
use netmirage.Prelude.{
  ℕ, zero, suc, ◌+◌, Bool-cases, ◌*◌, ◌≤◌, inl, inr, set, get_or, length-set, Bool, ◌%◌, ◌^◌, ◌<◌,
  ◌≡◌, refl, sym, ap, false, ltb→lt, ltb_false→le, true, ◌∙◌, ltb, List, [], ◌∷◌, length, All,
  arith, map,
}
use netmirage.Ip.Mac.{MacAddr, IsMac, value, value_from, next_from, mac_next_addr, mac_next_addrs}

shift :
    (acc o p q v w : ℕ)
    → q ≡ p * 256
    → w ≡ (0 * 256 + o) * p + v
    → (acc * 256 + o) * p + v ≡ acc * q + w
shift acc o p q v w h k = rw (h, k) (omega arith)

value_from-split :
    (acc : ℕ) (os : List ℕ) → value_from acc os ≡ acc * 256 ^ length os + value_from 0 os
value_from-split acc [] = omega arith
value_from-split acc (o ∷ os) =
    value_from-split (acc * 256 + o) os
    ∙ shift acc o (256 ^ length os) (256 ^ suc (length os)) (value_from 0 os)
        (value_from (0 * 256 + o) os) (pow-suc 256 (length os)) (value_from-split (0 * 256 + o) os)

octet_first : (o p v w : ℕ) → o < 256 → v < p → w ≡ (0 * 256 + o) * p + v → w < p * 256
octet_first o p v w h k e = grind arith

value_from-lt : (os : List ℕ) → All (λ o. o < 256) os → value_from 0 os < 256 ^ length os
value_from-lt [] h = omega arith
value_from-lt (o ∷ os) (lt, h) = rw (pow-suc 256 (length os)) (
    octet_first o (256 ^ length os) (value_from 0 os) (value_from (0 * 256 + o) os) lt
      (value_from-lt os h) (value_from-split (0 * 256 + o) os))

value-lt_six : (os : List ℕ) → length os ≡ 6 → All (λ o. o < 256) os → value_from 0 os < 2 ^ 48
value-lt_six os six h = omega (arith, value_from-lt os h, ap (λ (n : ℕ). 256 ^ n) six)

All-set :
    (os : List ℕ) (i x : ℕ) → All (λ o. o < 256) os → x < 256 → All (λ o. o < 256) (set os i x)
All-set [] i x h lt = tt
All-set (o ∷ os) zero x h lt = (lt, h.1)
All-set (o ∷ os) (suc i) x h lt = (h.0, All-set os i x h.1 lt)

get_or-lt : (os : List ℕ) (i : ℕ) → All (λ o. o < 256) os → get_or os i 0 < 256
get_or-lt [] i h = omega arith
get_or-lt (o ∷ os) zero h = h.0
get_or-lt (o ∷ os) (suc i) h = get_or-lt os i h.1

-- The weight of the octet at an index.
abbrev weight : List ℕ → ℕ → ℕ
weight [] i = 1
weight (o ∷ os) zero = 256 ^ length os
weight (o ∷ os) (suc i) = weight os i

weight_first : (os : List ℕ) → 0 < length os → weight os 0 * 256 ≡ 256 ^ length os
weight_first [] h = absurd (omega arith)
weight_first (o ∷ os) h = sym (pow-suc 256 (length os))

none_left : (n : ℕ) → suc n ≡ 1 → n ≡ 0
none_left n h = omega arith

weight_last : (os : List ℕ) (i : ℕ) → length os ≡ suc i → weight os i ≡ 1
weight_last [] i h = refl
weight_last (o ∷ os) zero h = ap (λ (n : ℕ). 256 ^ n) (none_left (length os) h)
weight_last (o ∷ os) (suc i) h = weight_last os i (omega arith)

weight_next : (os : List ℕ) (i : ℕ) → suc i < length os → weight os (suc i) * 256 ≡ weight os i
weight_next [] i h = absurd (omega arith)
weight_next (o ∷ os) zero h = weight_first os (omega arith)
weight_next (o ∷ os) (suc i) h = weight_next os i (omega arith)

exchange :
    (acc o x p v w : ℕ) → w ≡ (acc * 256 + o) * p + v → (acc * 256 + x) * p + v + o * p ≡ w + x * p
exchange acc o x p v w h = rw h (omega arith)

-- Setting an octet exchanges its contribution.
value_from-set :
    (acc : ℕ) (os : List ℕ) (i x : ℕ)
    → i < length os
    → value_from acc (set os i x) + get_or os i 0 * weight os i
      ≡ value_from acc os + x * weight os i
value_from-set acc [] i x h = absurd (omega arith)
value_from-set acc (o ∷ os) zero x h =
    ap (λ (n : ℕ). n + o * 256 ^ length os) (value_from-split (acc * 256 + x) os)
    ∙ exchange acc o x (256 ^ length os) (value_from 0 os) (value_from (acc * 256 + o) os)
        (value_from-split (acc * 256 + o) os)
value_from-set acc (o ∷ os) (suc i) x h = value_from-set (acc * 256 + o) os i x (omega arith)

-- What the loop leaves, for a number `v` whose octets from `i` on have been carried over.
abbrev Counted : ℕ → List ℕ × Bool → Type 0
Counted v (octets, unwrapped) =
    IsMac (record { octets = octets })
    × (value_from 0 octets ≡ (v + 1) % 2 ^ 48)
    × (unwrapped ≡ ltb (v + 1) (2 ^ 48))

-- One in the octets before `i`.
abbrev unit : List ℕ → ℕ → ℕ
unit os zero = 2 ^ 48
unit os (suc i) = weight os i

unit_lem : (os : List ℕ) (i : ℕ) → length os ≡ 6 → i < 6 → weight os i * 256 ≡ unit os i
unit_lem os zero six h = weight_first os (omega arith) ∙ ap (λ (n : ℕ). 256 ^ n) six
unit_lem os (suc i) six h = weight_next os i (omega arith)

weight-set : (os : List ℕ) (i x j : ℕ) → weight (set os i x) j ≡ weight os j
weight-set [] i x j = refl
weight-set (o ∷ os) zero x zero = refl
weight-set (o ∷ os) zero x (suc j) = refl
weight-set (o ∷ os) (suc i) x zero = ap (λ (n : ℕ). 256 ^ n) (length-set os i x)
weight-set (o ∷ os) (suc i) x (suc j) = weight-set os i x j

unit-set : (os : List ℕ) (i x j : ℕ) → unit (set os i x) j ≡ unit os j
unit-set os i x zero = refl
unit-set os i x (suc j) = weight-set os i x j

next_stops :
    (i : ℕ) (os : List ℕ)
    → get_or os i 0 < 255
    → next_from (suc i) os ≡ (set os i (get_or os i 0 + 1), true)
unfolding next_from
next_stops i os h = ground arith

next_ends : (os : List ℕ) → next_from zero os ≡ (os, false)
unfolding next_from
next_ends os = refl

next_carries :
    (i : ℕ) (os : List ℕ) → get_or os i 0 ≡ 255 → next_from (suc i) os ≡ next_from i (set os i 0)
unfolding next_from
next_carries i os h = rw h

below : (v n : ℕ) → v + 1 ≡ n → n < 2 ^ 48 → (n ≡ (v + 1) % 2 ^ 48) × (true ≡ ltb (v + 1) (2 ^ 48))
below v n h lt = ground arith

next_from-Counted :
    (i : ℕ) (os : List ℕ) (v : ℕ)
    → length os ≡ 6
    → All (λ o. o < 256) os
    → i ≤ 6
    → value_from 0 os + unit os i ≡ v + 1
    → Counted v (next_from i os)
next_from-Counted zero os v six octets le carried = rw (next_ends os) (
  record { six = six; octet = octets },
  omega (arith, value-lt_six os six octets),
  ground (arith, value-lt_six os six octets),
)
next_from-Counted (suc i) os v six octets le carried = elim (Bool-cases (ltb (get_or os i 0) 255)) [
  | inl small ↦
      let lt = ltb→lt (get_or os i 0) 255 small in
      let n = get_or os i 0 + 1 in
      let valid = All-set os i n octets (omega (arith, lt)) in
      let same = length-set os i n ∙ six in
      rw (next_stops i os lt) (
        let counts =
          below v (value_from 0 (set os i n))
            (omega (arith, value_from-set 0 os i n (omega arith), carried))
            (value-lt_six (set os i n) same valid) in
        (record { six = same; octet = valid }, counts.0, counts.1))
  | inr full ↦
      let eq : get_or os i 0 ≡ 255 =
        omega (arith, ltb_false→le (get_or os i 0) 255 full, get_or-lt os i octets) in
      rw (next_carries i os eq) (
        next_from-Counted i (set os i 0) v (length-set os i 0 ∙ six)
          (All-set os i 0 octets (omega arith)) (omega arith)
          (omega (
            arith,
            value_from-set 0 os i 0 (omega arith),
            ap (λ (n : ℕ). n * weight os i) eq,
            unit_lem os i six (omega arith),
            unit-set os i 0 i,
            carried,
          )))
]

-- `macNextAddr` adds one to the 48-bit number and wraps to zero; it returns false exactly when it
-- wraps; and six octets stay six octets.
pub mac_next_addr_counts :
    {m : MacAddr}
    → IsMac m
    → IsMac (mac_next_addr m).0
      × (value (mac_next_addr m).0 ≡ (value m + 1) % 2 ^ 48)
      × ((mac_next_addr m).1 ≡ ltb (value m + 1) (2 ^ 48))
unfolding mac_next_addr
mac_next_addr_counts {m} v =
    next_from-Counted 6 m.octets (value m) v.six v.octet (omega arith)
      (ap (λ (n : ℕ). value m + n) (weight_last m.octets 5 v.six))

pub value-lt : {m : MacAddr} → IsMac m → value m < 2 ^ 48
value-lt {m} v = value-lt_six m.octets v.six v.octet

-- The numbers from `v` on, round at 2^48.
abbrev pub counted : ℕ → ℕ → List ℕ
counted v zero = []
counted v (suc n) = v ∷ counted ((v + 1) % 2 ^ 48) n

-- The addresses written are the `count` numbers from the given one on, and the address left is the
-- number after them, all modulo 2^48; the result is false exactly when a number of the run, or the
-- one left, is 2^48 or more.
pub mac_next_addrs_run :
    (count : ℕ) {m : MacAddr}
    → IsMac m
    → (map value (mac_next_addrs m count).1 ≡ counted (value m) count)
      × (value (mac_next_addrs m count).0 ≡ (value m + count) % 2 ^ 48)
      × ((mac_next_addrs m count).2 ≡ ltb (value m + count) (2 ^ 48))
      × IsMac (mac_next_addrs m count).0
      × All IsMac (mac_next_addrs m count).1
unfolding mac_next_addrs
mac_next_addrs_run zero {m} v = (refl, omega (arith, value-lt v), ground (arith, value-lt v), v, tt)
mac_next_addrs_run (suc count) {m} v =
    let (valid, next, unwrapped) = mac_next_addr_counts v in
    let (run, last, rest, left, buffer) = mac_next_addrs_run count valid in
    (
      ap (λ l. value m ∷ l) (run ∙ ap (λ (n : ℕ). counted n count) next),
      omega (arith, last, next),
      ground (arith, unwrapped, rest, next, value-lt v),
      left,
      (v, buffer),
    )
