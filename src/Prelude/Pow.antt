-- ===== src/Prelude/Pow.antt =====
-- Powers of two.
use Prim.Native.Nat.{ℕ, zero, suc, ◌+◌, ◌-◌, ◌*◌, ◌^◌, ◌≤◌}
use mathlib.Core.Path.{◌≡◌, ap, ◌∙◌}
use native.Mathlib.Nat.{pow-suc, one-le-pow, pow-le-pow_right, mul_assoc}
use native.Mathlib.Omega.{arith}

pub two-pow-suc : (k : ℕ) → 2 ^ suc k ≡ 2 * 2 ^ k
two-pow-suc k = omega (arith, pow-suc 2 k)

pub two-pow-pos : (k : ℕ) → 1 ≤ 2 ^ k
two-pow-pos k = one-le-pow k 2 (omega arith)

pub two-pow_mono : (j k : ℕ) → j ≤ k → 2 ^ j ≤ 2 ^ k
two-pow_mono j k h = pow-le-pow_right (omega arith) h

pub two-pow-add : (j k : ℕ) → 2 ^ (j + k) ≡ 2 ^ j * 2 ^ k
two-pow-add zero k = omega (arith, ap (λ (n : ℕ). 2 ^ n) (zero_add k))
  where
    zero_add : (n : ℕ) → zero + n ≡ n
    zero_add n = omega arith
two-pow-add (suc j) k = omega (
  arith,
  ap (λ (n : ℕ). 2 ^ n) (suc_add j k),
  two-pow-suc (j + k),
  two-pow-suc j,
  two-pow-add j k,
  ap (λ (n : ℕ). n * 2 ^ k) (two-pow-suc j),
  mul_assoc 2 (2 ^ j) (2 ^ k),
)
  where
    suc_add : (n m : ℕ) → suc n + m ≡ suc (n + m)
    suc_add n m = omega arith

-- A power of two that is at most `2 ^ n` divides it.
pub two-pow-split : (j n : ℕ) → j ≤ n → 2 ^ j * 2 ^ (n - j) ≡ 2 ^ n
two-pow-split j n h = sym_add ∙ ap (λ (m : ℕ). 2 ^ m) (omega arith)
  where
    sym_add : 2 ^ j * 2 ^ (n - j) ≡ 2 ^ (j + (n - j))
    sym_add = omega (arith, two-pow-add j (n - j))
