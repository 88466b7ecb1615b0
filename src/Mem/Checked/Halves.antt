-- ===== src/Mem/Checked/Halves.antt =====
-- The compatibility macro `emul64`, which multiplies by halves, against the builtin.
use netmirage.Prelude.{
  ℕ, zero, suc, ◌+◌, ◌-◌, ◌*◌, ◌/◌, ◌%◌, ◌^◌, ◌<◌, ◌≤◌, ◌≡◌, ap, ap₂, ◌∙◌, false, ltb, arith,
  lt→ltb, le→ltb_false, if◌then◌else◌, ◌&&◌,
}
use netmirage.Mem.Checked.{Outcome, ok, abort, emul_size, emul_64_halves}

abbrev B : ℕ
B = 4294967296

expand :
    (a1 a0 b1 b0 : ℕ)
    → (a1 * B + a0) * (b1 * B + b0) ≡ a1 * b1 * (B * B) + (a1 * b0 + a0 * b1) * B + a0 * b0
expand a1 a0 b1 b0 = omega arith

product_small : (x y : ℕ) → x < B → y < B → x * y ≤ (B - 1) * (B - 1)
product_small x y hx hy = grind arith

-- The macro on halves, of which one high half is zero.
one_high :
    (m a0 b0 : ℕ)
    → a0 * b0 ≤ (B - 1) * (B - 1)
    → m ≤ (B - 1) * (B - 1)
    → (if ltb (2 ^ 32 - 1) (m % 2 ^ 64)
        then abort
        else if ltb (2 ^ 64 - 1 - a0 * b0 % 2 ^ 64) (m % 2 ^ 64 * 2 ^ 32 % 2 ^ 64)
        then abort
        else ok (m % 2 ^ 64 * 2 ^ 32 % 2 ^ 64 + a0 * b0 % 2 ^ 64))
      ≡ (if ltb (m * B + a0 * b0) (2 ^ 64) then ok (m * B + a0 * b0) else abort)
one_high m a0 b0 h k = ground arith

abbrev by_halves : ℕ → ℕ → ℕ → ℕ → Outcome ℕ
by_halves a1 a0 b1 b0 =
    if ltb 0 a1 && ltb 0 b1
    then abort
    else if ltb (2 ^ 32 - 1) ((a1 * b0 + a0 * b1) % 2 ^ 64)
    then abort
    else if ltb (2 ^ 64 - 1 - a0 * b0 % 2 ^ 64) ((a1 * b0 + a0 * b1) % 2 ^ 64 * 2 ^ 32 % 2 ^ 64)
    then abort
    else ok ((a1 * b0 + a0 * b1) % 2 ^ 64 * 2 ^ 32 % 2 ^ 64 + a0 * b0 % 2 ^ 64)

abbrev by_product : ℕ → Outcome ℕ
by_product n = if ltb n (2 ^ 64) then ok n else abort

both_high : (a1 a0 b1 b0 : ℕ) → abort ≡ by_product ((suc a1 * B + a0) * (suc b1 * B + b0))
both_high a1 a0 b1 b0 =
    rw (le→ltb_false ((suc a1 * B + a0) * (suc b1 * B + b0)) (2 ^ 64) (omega arith))

halves_product :
    (a1 a0 b1 b0 : ℕ)
    → (a1 < B) × (a0 < B) × (b1 < B) × (b0 < B)
    → by_halves a1 a0 b1 b0 ≡ by_product ((a1 * B + a0) * (b1 * B + b0))
halves_product zero a0 b1 b0 (h1, h2, h3, h4) =
    one_high (0 * b0 + a0 * b1) a0 b0 (product_small a0 b0 h2 h4)
      (omega (arith, product_small a0 b1 h2 h3))
    ∙ ap by_product (omega arith)
halves_product (suc a1) a0 zero b0 (h1, h2, h3, h4) = rw (no_high (suc a1)) (
    one_high (suc a1 * b0 + a0 * 0) a0 b0 (product_small a0 b0 h2 h4)
      (omega (arith, product_small (suc a1) b0 h1 h4))
    ∙ ap by_product (omega arith))
  where
    no_high : (n : ℕ) → (ltb 0 n && ltb 0 0) ≡ false
    no_high n = ground arith
halves_product (suc a1) a0 (suc b1) b0 h =
    rw (lt→ltb 0 (suc a1) (omega arith), lt→ltb 0 (suc b1) (omega arith)) (both_high a1 a0 b1 b0)

-- For 64-bit factors the macro gives what the builtin gives, and aborts where that aborts.
pub emul_64_halves-eq-emul_size :
    (a b : ℕ) → a < 2 ^ 64 → b < 2 ^ 64 → emul_64_halves a b ≡ emul_size a b
unfolding emul_64_halves emul_size
emul_64_halves-eq-emul_size a b ha hb =
    halves_product (a / B) (a % B) (b / B) (b % B) (omega arith)
    ∙ ap by_product (ap₂ ◌*◌ (whole a) (whole b))
  where
    whole : (n : ℕ) → n / B * B + n % B ≡ n
    whole n = omega arith
