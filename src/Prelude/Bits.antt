-- ===== src/Prelude/Bits.antt =====
-- `&` and `|` as arithmetic: the law for the lowest digit, the law that takes a word apart at eight
-- bits, and the values of a mask of high or of low bits, at every width.
use Prim.Native.Nat.{ℕ, zero, suc, ◌+◌, ◌-◌, ◌*◌, ◌/◌, ◌%◌, ◌^◌, ◌≤◌, ◌<◌, min, max}
use Prim.Native.Nat.{bit_and, bit_or, digits, bitwise, bit_and-bitwise, bit_or-bitwise}
use mathlib.Core.Path.{◌≡◌, refl, ap, ap₂}
use native.Mathlib.Nat.{le_refl}
use native.Mathlib.Omega.{arith}
use netmirage.Prelude.Pow.{two-pow-suc, two-pow-pos}

module _ (only_right : ℕ → ℕ) (on_digits : ℕ → ℕ → ℕ) where
  -- Fuel beyond the value changes nothing.
  fuel_irrelevant :
      (f g a b : ℕ)
      → a ≤ f
      → a ≤ g
      → digits only_right on_digits f a b ≡ digits only_right on_digits g a b
  fuel_irrelevant zero zero a b p q = refl
  fuel_irrelevant zero (suc g) zero b p q = refl
  fuel_irrelevant zero (suc g) (suc a) b p q = absurd (omega arith)
  fuel_irrelevant (suc f) zero zero b p q = refl
  fuel_irrelevant (suc f) zero (suc a) b p q = absurd (omega arith)
  fuel_irrelevant (suc f) (suc g) zero b p q = refl
  fuel_irrelevant (suc f) (suc g) (suc a) b p q =
      rw (fuel_irrelevant f g (suc a / 2) (b / 2) (omega arith) (omega arith))

  bitwise_low :
      (a b : ℕ)
      → bitwise only_right on_digits (suc a) b
        ≡ bitwise only_right on_digits (suc a / 2) (b / 2) * 2 + on_digits (suc a % 2) (b % 2)
  bitwise_low a b =
      omega (arith, fuel_irrelevant a (suc a / 2) (suc a / 2) (b / 2) (omega arith) (le_refl _))

pub or_low : (a b : ℕ) → bit_or a b ≡ bit_or (a / 2) (b / 2) * 2 + max (a % 2) (b % 2)
or_low zero b = simp bit_or-bitwise (omega arith)
or_low (suc a) b = simp bit_or-bitwise (bitwise_low (λ y. y) max a b)

pub and_low : (a b : ℕ) → bit_and a b ≡ bit_and (a / 2) (b / 2) * 2 + min (a % 2) (b % 2)
and_low zero b = simp bit_and-bitwise (omega arith)
and_low (suc a) b = simp bit_and-bitwise (bitwise_low (λ y. 0) min a b)

or_zero_below : (f a : ℕ) → a ≤ f → bit_or a 0 ≡ a
or_zero_below zero a h = rw (le_zero a h) (or_low 0 0)
  where
    le_zero : (n : ℕ) → n ≤ 0 → n ≡ 0
    le_zero n h = omega arith
or_zero_below (suc f) zero h = or_zero_below f zero (omega arith)
or_zero_below (suc f) (suc a) h =
    omega (arith, or_low (suc a) 0, or_zero_below f (suc a / 2) (omega arith))

pub or_zero : (a : ℕ) → bit_or a 0 ≡ a
or_zero a = or_zero_below a a (le_refl a)

and_zero_below : (f a : ℕ) → a ≤ f → bit_and a 0 ≡ 0
and_zero_below zero a h = rw (le_zero a h) (and_low 0 0)
  where
    le_zero : (n : ℕ) → n ≤ 0 → n ≡ 0
    le_zero n h = omega arith
and_zero_below (suc f) zero h = and_zero_below f zero (omega arith)
and_zero_below (suc f) (suc a) h =
    omega (arith, and_low (suc a) 0, and_zero_below f (suc a / 2) (omega arith))

pub and_zero : (a : ℕ) → bit_and a 0 ≡ 0
and_zero a = and_zero_below a a (le_refl a)

pub or-lt : (w a b : ℕ) → a < 2 ^ w → b < 2 ^ w → bit_or a b < 2 ^ w
or-lt zero a b p q = ground (arith, or_zero 0)
or-lt (suc w) a b p q = omega (
  arith,
  or_low a b,
  two-pow-suc w,
  or-lt w (a / 2) (b / 2) (omega (arith, two-pow-suc w)) (omega (arith, two-pow-suc w)),
)

pub and-lt : (w a b : ℕ) → a < 2 ^ w → b < 2 ^ w → bit_and a b < 2 ^ w
and-lt zero a b p q = ground (arith, and_zero 0)
and-lt (suc w) a b p q = omega (
  arith,
  and_low a b,
  two-pow-suc w,
  and-lt w (a / 2) (b / 2) (omega (arith, two-pow-suc w)) (omega (arith, two-pow-suc w)),
)

-- `|` of a multiple of `2 ^ k` and a number below `2 ^ k` is their sum.
pub or_fields : (k q r : ℕ) → r < 2 ^ k → bit_or (q * 2 ^ k) r ≡ q * 2 ^ k + r
or_fields zero q r h = ground (arith, or_zero q)
or_fields (suc k) q r h = omega (
  arith,
  or_low (q * 2 ^ suc k) r,
  two-pow-suc k,
  double,
  or_fields k q (r / 2) (omega (arith, two-pow-suc k)),
  ap (λ (n : ℕ). bit_or n (r / 2)) half,
)
  where
    double : q * 2 ^ suc k ≡ 2 * (q * 2 ^ k)
    double = omega (arith, ap (λ (t : ℕ). q * t) (two-pow-suc k))

    half : q * 2 ^ suc k / 2 ≡ q * 2 ^ k
    half = omega (arith, double)

-- A mask of `j` ones keeps a number of `j` bits.
and_ones : (j q : ℕ) → q < 2 ^ j → bit_and q (2 ^ j - 1) ≡ q
and_ones zero q h = ground (arith, and_zero q)
and_ones (suc j) q h = omega (
  arith,
  and_low q (2 ^ suc j - 1),
  two-pow-suc j,
  two-pow-pos j,
  ap (λ (n : ℕ). bit_and (q / 2) n) half,
  and_ones j (q / 2) (omega (arith, two-pow-suc j)),
)
  where
    half : (2 ^ suc j - 1) / 2 ≡ 2 ^ j - 1
    half = omega (arith, two-pow-suc j, two-pow-pos j)

-- A mask of `j` ones over `k` zeros clears the low `k` bits of a number of `j + k` bits.
pub and_high :
    (j k q r : ℕ)
    → q < 2 ^ j
    → r < 2 ^ k
    → bit_and (q * 2 ^ k + r) ((2 ^ j - 1) * 2 ^ k) ≡ q * 2 ^ k
and_high j zero q r hq hr = ground (arith, and_ones j q)
and_high j (suc k) q r hq hr = omega (
  arith,
  and_low (q * 2 ^ suc k + r) ((2 ^ j - 1) * 2 ^ suc k),
  two-pow-suc k,
  double q,
  double (2 ^ j - 1),
  ap₂ bit_and half_left half_right,
  and_high j k q (r / 2) hq (omega (arith, two-pow-suc k)),
)
  where
    double : (n : ℕ) → n * 2 ^ suc k ≡ 2 * (n * 2 ^ k)
    double n = omega (arith, ap (λ (t : ℕ). n * t) (two-pow-suc k))

    half_left : (q * 2 ^ suc k + r) / 2 ≡ q * 2 ^ k + r / 2
    half_left = omega (arith, double q)

    half_right : (2 ^ j - 1) * 2 ^ suc k / 2 ≡ (2 ^ j - 1) * 2 ^ k
    half_right = omega (arith, double (2 ^ j - 1))

-- The laws that take words apart at eight bits, by doubling.
module _ (op : ℕ → ℕ → ℕ) (on_digits : ℕ → ℕ → ℕ)
    (low : (a b : ℕ) → op a b ≡ op (a / 2) (b / 2) * 2 + on_digits (a % 2) (b % 2))
    (zeros : op 0 0 ≡ 0) where
  low1 : (a b : ℕ) → op (a % 2) (b % 2) ≡ on_digits (a % 2) (b % 2)
  low1 a b = omega (
    arith,
    low (a % 2) (b % 2),
    ap₂ op (half a) (half b),
    ap₂ on_digits (again a) (again b),
    zeros,
  )
    where
      half : (n : ℕ) → n % 2 / 2 ≡ 0
      half n = omega arith

      again : (n : ℕ) → n % 2 % 2 ≡ n % 2
      again n = omega arith

  split1 : (a b : ℕ) → op a b ≡ op (a / 2) (b / 2) * 2 + op (a % 2) (b % 2)
  split1 a b = omega (arith, low a b, low1 a b)

  split2 : (a b : ℕ) → op a b ≡ op (a / 4) (b / 4) * 4 + op (a % 4) (b % 4)
  split2 a b = omega (
    arith,
    split1 a b,
    split1 (a / 2) (b / 2),
    split1 (a % 4) (b % 4),
    ap₂ op (high a) (high b),
    ap₂ op (mid a) (mid b),
    ap₂ op (bottom a) (bottom b),
  )
    where
      high : (n : ℕ) → n / 2 / 2 ≡ n / 4
      high n = omega arith

      mid : (n : ℕ) → n % 4 / 2 ≡ n / 2 % 2
      mid n = omega arith

      bottom : (n : ℕ) → n % 4 % 2 ≡ n % 2
      bottom n = omega arith

  split4 : (a b : ℕ) → op a b ≡ op (a / 16) (b / 16) * 16 + op (a % 16) (b % 16)
  split4 a b = omega (
    arith,
    split2 a b,
    split2 (a / 4) (b / 4),
    split2 (a % 16) (b % 16),
    ap₂ op (high a) (high b),
    ap₂ op (mid a) (mid b),
    ap₂ op (bottom a) (bottom b),
  )
    where
      high : (n : ℕ) → n / 4 / 4 ≡ n / 16
      high n = omega arith

      mid : (n : ℕ) → n % 16 / 4 ≡ n / 4 % 4
      mid n = omega arith

      bottom : (n : ℕ) → n % 16 % 4 ≡ n % 4
      bottom n = omega arith

  split8 : (a b : ℕ) → op a b ≡ op (a / 256) (b / 256) * 256 + op (a % 256) (b % 256)
  split8 a b = omega (
    arith,
    split4 a b,
    split4 (a / 16) (b / 16),
    split4 (a % 256) (b % 256),
    ap₂ op (high a) (high b),
    ap₂ op (mid a) (mid b),
    ap₂ op (bottom a) (bottom b),
  )
    where
      high : (n : ℕ) → n / 16 / 16 ≡ n / 256
      high n = omega arith

      mid : (n : ℕ) → n % 256 / 16 ≡ n / 16 % 16
      mid n = omega arith

      bottom : (n : ℕ) → n % 256 % 16 ≡ n % 16
      bottom n = omega arith

pub or_octet :
    (a b : ℕ) → bit_or a b ≡ bit_or (a / 256) (b / 256) * 256 + bit_or (a % 256) (b % 256)
or_octet = split8 bit_or max or_low (or_zero 0)

pub and_octet :
    (a b : ℕ) → bit_and a b ≡ bit_and (a / 256) (b / 256) * 256 + bit_and (a % 256) (b % 256)
and_octet = split8 bit_and min and_low (and_zero 0)
