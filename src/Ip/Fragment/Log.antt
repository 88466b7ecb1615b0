-- ===== src/Ip/Fragment/Log.antt =====
-- The size of a small fragment: the largest power of two of which `fragment_count` fit.
use native.Mathlib.Nat.{
  lt-div-mul-add, div-le_self, div-mul-le_self, div-eq_of_eq-mul_left, mul-sub, mul_comm,
}
use native.Mathlib.Decide.{dec_le, dec_lt}
use netmirage.Prelude.{
  ℕ, zero, suc, ◌+◌, ◌-◌, ◌*◌, ◌/◌, ◌%◌, ◌^◌, ◌≤◌, ◌<◌, ◌≡◌, ap, ltb, arith, Bool-cases, ltb→lt,
  ltb_false→le, inl, inr,
}
use netmirage.Prelude.Pow.{two-pow-suc, two-pow-pos, two-pow_mono, two-pow-split}
use netmirage.Ip.Fragment.{floor_log2, smaller_pow2}

floor_log2_bounds :
    (bits n : ℕ)
    → 0 < n
    → n < 2 ^ bits
    → (2 ^ floor_log2 bits n ≤ n) × (n < 2 ^ suc (floor_log2 bits n))
unfolding floor_log2
floor_log2_bounds zero n pos h = absurd (omega arith)
floor_log2_bounds (suc bits) n pos h = elim (Bool-cases (ltb n 2)) [
  | inl small ↦ rw (small, floor_log2) (omega (arith, ltb→lt n 2 small))
  | inr large ↦
      let two_le = ltb_false→le n 2 large in
      let (low, high) =
        floor_log2_bounds bits (n / 2) (omega arith) (omega (arith, two-pow-suc bits)) in
      rw (large, floor_log2)
        (omega (
          arith,
          two-pow-suc (floor_log2 bits (n / 2)),
          two-pow-suc (suc (floor_log2 bits (n / 2))),
        ))
]

-- For a parent of `2 ^ m` addresses, `count` small fragments fit and `2 * count` do not.
module _ (m count : ℕ) (word : m ≤ 32) (some_fragment : 0 < count) (enough : count ≤ 2 ^ m) where
  abbrev pow2 : ℕ
  pow2 = smaller_pow2 (2 ^ m) count

  ideal_pos : 0 < 2 ^ m / count
  ideal_pos = elim (dec_lt 0 (2 ^ m / count)) [
    | yes h ↦ h
    | no h ↦ absurd (
        omega (
          arith,
          lt-div-mul-add {a = 2 ^ m} {b = count} some_fragment,
          ap (λ (q : ℕ). q * count) (zero_quotient h),
        ))
  ]
    where
      zero_quotient : {q : ℕ} → ¬ (0 < q) → q ≡ 0
      zero_quotient h = omega arith

  pub ideal_bounds : (2 ^ pow2 ≤ 2 ^ m / count) × (2 ^ m / count < 2 ^ suc pow2)
  unfolding smaller_pow2
  ideal_bounds =
      floor_log2_bounds 64 (2 ^ m / count) ideal_pos
        (omega (arith, div-le_self (2 ^ m) count, two-pow_mono m 32 word))

  pub small_fit : 2 ^ pow2 * count ≤ 2 ^ m
  small_fit =
      omega (
        arith,
        mul_le (2 ^ pow2) (2 ^ m / count) count ideal_bounds.0,
        div-mul-le_self (2 ^ m) count,
      )
    where
      mul_le : (a b t : ℕ) → a ≤ b → a * t ≤ b * t
      mul_le a b t h = grind arith

  pub double_overflow : 2 ^ m < 2 ^ pow2 * (2 * count)
  double_overflow = omega (
    arith,
    lt-div-mul-add {a = 2 ^ m} {b = count} some_fragment,
    mul_lt (2 ^ m / count) (2 ^ suc pow2) count ideal_bounds.1,
    two-pow-suc pow2,
    regroup (2 ^ pow2),
    ap (λ (n : ℕ). n * count) (two-pow-suc pow2),
  )
    where
      mul_lt : (a b t : ℕ) → a < b → a * t + t ≤ b * t
      mul_lt a b t h = grind arith

      regroup : (n : ℕ) → 2 * n * count ≡ n * (2 * count)
      regroup n = grind arith

  pub pow2-le : pow2 ≤ m
  pow2-le = elim (dec_le pow2 m) [
    | yes h ↦ h
    | no h ↦ absurd (
        omega (
          arith,
          two-pow_mono (suc m) pow2 (omega arith),
          two-pow-suc m,
          two-pow-pos m,
          ideal_bounds.0,
          div-le_self (2 ^ m) count,
        ))
  ]

  -- The number of small units in the parent.
  abbrev pub units : ℕ
  units = 2 ^ (m - pow2)

  pub units_lem : 2 ^ pow2 * units ≡ 2 ^ m
  units_lem = two-pow-split pow2 m pow2-le

  pub count-le-units : count ≤ units
  count-le-units =
      cancel (2 ^ pow2) count units (two-pow-pos pow2) (omega (arith, small_fit, units_lem))
    where
      cancel : (t a b : ℕ) → 0 < t → t * a ≤ t * b → a ≤ b
      cancel t a b h p = elim (dec_le a b) [ yes le ↦ le | no gt ↦ absurd (grind arith) ]

  pub units-lt : units < 2 * count
  units-lt = cancel (2 ^ pow2) units (2 * count) (omega (arith, double_overflow, units_lem))
    where
      cancel : (t a b : ℕ) → t * a < t * b → a < b
      cancel t a b p = elim (dec_lt a b) [ yes lt ↦ lt | no ge ↦ absurd (grind arith) ]

  -- The leftover space makes up exactly the large fragments.
  pub large_fragments :
      (2 ^ m + 2 ^ 64 - 2 ^ pow2 * count % 2 ^ 64) % 2 ^ 64 / 2 ^ pow2 ≡ units - count
  large_fragments = div-eq_of_eq-mul_left (two-pow-pos pow2) (
      omega (
        arith,
        two-pow_mono m 32 word,
        small_fit,
        units_lem,
        mul-sub (2 ^ pow2) units count,
        mul_comm (units - count) (2 ^ pow2),
      ))
