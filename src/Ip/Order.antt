-- ===== src/Ip/Order.antt =====
-- Byte order. An `ip4Addr` is a `uint32_t` in network order, which a little-endian host reads with
-- its four bytes swapped: `ntohl` and `htonl` of netinet/in.h swap them back.
use netmirage.Prelude.{ℕ, ◌+◌, ◌-◌, ◌*◌, ◌/◌, ◌%◌, ◌^◌, ◌<◌, bit_and, bit_or, ◌≡◌, arith}
use mathlib.Core.Path.{ap₂}
use netmirage.Prelude.Bits.{or_octet, and_octet, or-lt, and-lt}

abbrev pub Ip4Addr : Type 0
Ip4Addr = ℕ

unfoldable pub ntohl : ℕ → ℕ
ntohl x = x % 256 * 16777216 + x / 256 % 256 * 65536 + x / 65536 % 256 * 256 + x / 16777216 % 256

unfoldable pub htonl : ℕ → ℕ
htonl = ntohl

pub ntohl-lt : (x : ℕ) → ntohl x < 2 ^ 32
unfolding ntohl
ntohl-lt x = omega arith

pub ntohl-ntohl : (x : ℕ) → x < 2 ^ 32 → ntohl (ntohl x) ≡ x
unfolding ntohl
ntohl-ntohl x h = omega arith

pub ntohl-htonl : (x : ℕ) → x < 2 ^ 32 → ntohl (htonl x) ≡ x
unfolding htonl
ntohl-htonl x h = ntohl-ntohl x h

pub htonl-lt : (x : ℕ) → htonl x < 2 ^ 32
unfolding htonl
htonl-lt x = ntohl-lt x

pub ntohl_not : (x : ℕ) → x < 2 ^ 32 → ntohl (2 ^ 32 - 1 - x) ≡ 2 ^ 32 - 1 - ntohl x
unfolding ntohl
ntohl_not x h = omega arith

-- A bit operation goes through the swap.
module _ (op : ℕ → ℕ → ℕ)
    (octet : (a b : ℕ) → op a b ≡ op (a / 256) (b / 256) * 256 + op (a % 256) (b % 256))
    (small : (a b : ℕ) → a < 2 ^ 8 → b < 2 ^ 8 → op a b < 2 ^ 8) where
  join_octet :
      (x y u v : ℕ) → u < 256 → v < 256 → op (x * 256 + u) (y * 256 + v) ≡ op x y * 256 + op u v
  join_octet x y u v hu hv = omega (
    arith,
    octet (x * 256 + u) (y * 256 + v),
    ap₂ op (high x u hu) (high y v hv),
    ap₂ op (bottom x u hu) (bottom y v hv),
  )
    where
      high : (n r : ℕ) → r < 256 → (n * 256 + r) / 256 ≡ n
      high n r h = omega arith

      bottom : (n r : ℕ) → r < 256 → (n * 256 + r) % 256 ≡ r
      bottom n r h = omega arith

  word : ℕ → ℕ → ℕ → ℕ → ℕ
  word x₃ x₂ x₁ x₀ = ((x₃ * 256 + x₂) * 256 + x₁) * 256 + x₀

  join_word :
      (x₃ x₂ x₁ x₀ y₃ y₂ y₁ y₀ : ℕ)
      → (x₂ < 256) × (x₁ < 256) × (x₀ < 256)
      → (y₂ < 256) × (y₁ < 256) × (y₀ < 256)
      → op (word x₃ x₂ x₁ x₀) (word y₃ y₂ y₁ y₀) ≡ word (op x₃ y₃) (op x₂ y₂) (op x₁ y₁) (op x₀ y₀)
  unfolding word
  join_word x₃ x₂ x₁ x₀ y₃ y₂ y₁ y₀ hx hy = omega (
    arith,
    join_octet ((x₃ * 256 + x₂) * 256 + x₁) ((y₃ * 256 + y₂) * 256 + y₁) x₀ y₀ hx.2 hy.2,
    join_octet (x₃ * 256 + x₂) (y₃ * 256 + y₂) x₁ y₁ hx.1 hy.1,
    join_octet x₃ y₃ x₂ y₂ hx.0 hy.0,
  )

  ntohl_op : (a b : ℕ) → a < 2 ^ 32 → b < 2 ^ 32 → ntohl (op a b) ≡ op (ntohl a) (ntohl b)
  unfolding ntohl word
  ntohl_op a b p q = omega (
    arith,
    ap₂ op (whole a p) (whole b q),
    ap₂ op (swapped a) (swapped b),
    join_word (a / 16777216) (a / 65536 % 256) (a / 256 % 256) (a % 256) (b / 16777216)
        (b / 65536 % 256) (b / 256 % 256) (b % 256) (omega arith) (omega arith),
    join_word (a % 256) (a / 256 % 256) (a / 65536 % 256) (a / 16777216 % 256) (b % 256)
        (b / 256 % 256) (b / 65536 % 256) (b / 16777216 % 256) (omega arith) (omega arith),
    ap₂ op (top a p) (top b q),
    small (a / 16777216) (b / 16777216) (omega arith) (omega arith),
    small (a / 65536 % 256) (b / 65536 % 256) (omega arith) (omega arith),
    small (a / 256 % 256) (b / 256 % 256) (omega arith) (omega arith),
    small (a % 256) (b % 256) (omega arith) (omega arith),
  )
    where
      whole :
          (n : ℕ) → n < 2 ^ 32 → n ≡ word (n / 16777216) (n / 65536 % 256) (n / 256 % 256) (n % 256)
      whole n h = omega arith

      swapped :
          (n : ℕ)
          → n % 256 * 16777216 + n / 256 % 256 * 65536 + n / 65536 % 256 * 256 + n / 16777216 % 256
            ≡ word (n % 256) (n / 256 % 256) (n / 65536 % 256) (n / 16777216 % 256)
      swapped n = omega arith

      top : (n : ℕ) → n < 2 ^ 32 → n / 16777216 % 256 ≡ n / 16777216
      top n h = omega arith

pub ntohl-or : (a b : ℕ) → a < 2 ^ 32 → b < 2 ^ 32 → ntohl (bit_or a b) ≡ bit_or (ntohl a) (ntohl b)
ntohl-or = ntohl_op bit_or or_octet (or-lt 8)

pub ntohl-and :
    (a b : ℕ) → a < 2 ^ 32 → b < 2 ^ 32 → ntohl (bit_and a b) ≡ bit_and (ntohl a) (ntohl b)
ntohl-and = ntohl_op bit_and and_octet (and-lt 8)
