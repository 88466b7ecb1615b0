-- ===== src/Mem/Checked.antt =====
-- The checked arithmetic on `size_t` (64 bits) and `uint32_t`, and the allocation functions.
pub mod Halves
use netmirage.Prelude.{
  ℕ, zero, ◌+◌, ◌-◌, ◌*◌, ◌/◌, ◌%◌, ◌^◌, ◌<◌, ◌≤◌, ◌≡◌, Bool, true, false, ltb, leb, if◌then◌else◌,
  List, ◌++◌, replicate, take, length, ◌&&◌,
}

-- `abort` ends the process; `fault` is undefined behaviour, such as an access outside a block.
pub data Outcome {ℓ} (A : Type ℓ) : Type ℓ where
  ok : A → Outcome A
  abort : Outcome A
  fault : Outcome A

infixl 5 ◌>>=◌ ◌>>◌
abbrev pub ◌>>=◌ {ℓ κ} : {A : Type ℓ} {B : Type κ} → Outcome A → (A → Outcome B) → Outcome B
abort >>= next = abort
fault >>= next = fault
ok a >>= next = next a

abbrev pub ◌>>◌ {ℓ} : {B : Type ℓ} → Outcome (Unit {0}) → Outcome B → Outcome B
m >> k = m >>= λ _. k

-- `__builtin_add_overflow` and its kin: the value of the operation if it fits the width.
abbrev checked : ℕ → ℕ → Outcome ℕ
checked bits n = if ltb n (2 ^ bits) then ok n else abort

unfoldable pub eadd_size : ℕ → ℕ → Outcome ℕ
eadd_size a b = checked 64 (a + b)

unfoldable pub esub_size : ℕ → ℕ → Outcome ℕ
esub_size a b = if ltb a b then abort else ok (a - b)

unfoldable pub emul_size : ℕ → ℕ → Outcome ℕ
emul_size a b = checked 64 (a * b)

unfoldable pub emul_32 : ℕ → ℕ → Outcome ℕ
emul_32 a b = checked 32 (a * b)

-- The macro `emul64` for compilers without the builtins: 32-bit halves.
unfoldable pub emul_64_halves : ℕ → ℕ → Outcome ℕ
emul_64_halves ma mb =
    let a1 = ma / 2 ^ 32 in
    let b1 = mb / 2 ^ 32 in
    let a0 = ma % 2 ^ 32 in
    let b0 = mb % 2 ^ 32 in
    let middle = (a1 * b0 + a0 * b1) % 2 ^ 64 in
    let low = a0 * b0 % 2 ^ 64 in
    let high = middle * 2 ^ 32 % 2 ^ 64 in
    if ltb 0 a1 && ltb 0 b1
    then abort
    else if ltb (2 ^ 32 - 1) middle
    then abort
    else if ltb (2 ^ 64 - 1 - low) high
    then abort
    else ok (high + low)

-- What the C library decides: whether a block of a size can be had, and what its bytes hold.
pub record Allocator : Type 0 where
  pub available : ℕ → Bool
  pub junk : ℕ

module _ (alloc : Allocator) where
  open alloc use {available, junk}

  -- A block is the list of its bytes.
  unfoldable pub emalloc : ℕ → Outcome (List ℕ)
  emalloc size = if available size then ok (replicate size junk) else abort

  unfoldable pub ecalloc : ℕ → ℕ → Outcome (List ℕ)
  ecalloc count eltsize =
      if available (count * eltsize) then ok (replicate (count * eltsize) 0) else abort

  -- The bytes up to the smaller size are kept.
  unfoldable pub erealloc : List ℕ → ℕ → Outcome (List ℕ)
  erealloc block size =
      if available size then ok (take size block ++ replicate (size - length block) junk) else abort

  -- `COMPUTE_SIZE_NOOVERFLOW`
  unfoldable pub compute_size : ℕ → ℕ → ℕ → Outcome ℕ
  unfolding emul_size eadd_size
  compute_size mul1 mul2 add = do size ← emul_size mul1 mul2; eadd_size size add

  unfoldable pub eamalloc : ℕ → ℕ → ℕ → Outcome (List ℕ)
  unfolding compute_size emalloc
  eamalloc mul1 mul2 add = do size ← compute_size mul1 mul2 add; emalloc size

  unfoldable pub eacalloc : ℕ → ℕ → ℕ → Outcome (List ℕ)
  unfolding compute_size ecalloc
  eacalloc mul1 mul2 add = do size ← compute_size mul1 mul2 add; ecalloc size 1

  unfoldable pub earealloc : List ℕ → ℕ → ℕ → ℕ → Outcome (List ℕ)
  unfolding compute_size erealloc
  earealloc block mul1 mul2 add = do size ← compute_size mul1 mul2 add; erealloc block size
