-- ===== src/Prelude/Text.antt =====
-- Text as the list of its bytes, without the NUL at its end; its comparison (`xmlStrEqual`, `strcmp`)
-- and the C library's conversion of decimal digits.
use Prim.Native.Char.{code}
use Prim.Native.String.{String}
use mathlib.Core.Path.{◌≡◌, refl}
use mathlib.Core.Logic.{◌↔◌}
use mathlib.Core.Bool.{Bool, true, false, ◌&&◌, ◌||◌}
use mathlib.Core.List.{List, [], ◌∷◌}
use Prim.Native.Nat.{ℕ, ◌+◌, ◌-◌, ◌*◌, ◌%◌, ◌^◌}
use native.Mathlib.Omega.{arith}
use netmirage.Prelude.Tests.{leb, ◌==◌, if◌then◌else◌}

abbrev pub Text : Type 0
Text = List ℕ

abbrev pub codes : String → Text
codes String.[] = []
codes (String.◌∷◌ c s) = code c ∷ codes s

unfoldable pub text_eq : Text → Text → Bool
text_eq [] [] = true
text_eq [] (y ∷ ys) = false
text_eq (x ∷ xs) [] = false
text_eq (x ∷ xs) (y ∷ ys) = (x == y) && text_eq xs ys

pub text_eq_iff : (s t : Text) → (text_eq s t ≡ true) ↔ (s ≡ t)
unfolding text_eq
text_eq_iff [] [] = (λ e. refl, λ e. refl)
text_eq_iff [] (y ∷ ys) = (λ e. cc, λ e. cc)
text_eq_iff (x ∷ xs) [] = (λ e. cc, λ e. cc)
text_eq_iff (x ∷ xs) (y ∷ ys) = ground (arith, text_eq_iff xs ys)

abbrev is_space : ℕ → Bool
is_space c = (c == 32) || (leb 9 c && leb c 13)

abbrev is_digit : ℕ → Bool
is_digit c = leb b'0' c && leb c b'9'

-- The digits at the start of a text: how many, their value, and what follows.
pub record Digits : Type 0 where
  pub count : ℕ
  pub value : ℕ
  pub rest : Text

unfoldable pub digits_from : ℕ → ℕ → Text → Digits
digits_from count value [] = record { count = count; value = value; rest = [] }
digits_from count value (c ∷ cs) = elim (is_digit c) [
  | true ↦ digits_from (count + 1) (value * 10 + (c - b'0')) cs
  | false ↦ record { count = count; value = value; rest = c ∷ cs }
]

unfoldable pub skip_spaces : Text → Text
skip_spaces [] = []
skip_spaces (c ∷ cs) = elim (is_space c) [ true ↦ skip_spaces cs | false ↦ c ∷ cs ]

-- A decimal number as `strtol` and `strtoul` read it with base 10: white space, a sign, digits.
pub record Scanned : Type 0 where
  pub negative : Bool
  pub digits : Digits

after_sign : Text → Scanned
unfolding digits_from
after_sign [] = record { negative = false; digits = digits_from 0 0 [] }
after_sign (c ∷ cs) =
    if c == b'-'
    then record { negative = true; digits = digits_from 0 0 cs }
    else if c == b'+'
    then record { negative = false; digits = digits_from 0 0 cs }
    else record { negative = false; digits = digits_from 0 0 (c ∷ cs) }

unfoldable pub scan_decimal : Text → Scanned
unfolding skip_spaces after_sign
scan_decimal s = after_sign (skip_spaces s)

-- `(uint32_t)strtoul(s, NULL, 10)`: at most `ULONG_MAX`, negated modulo 2^64 behind a minus sign,
-- and 0 where there are no digits.
unfoldable pub strtoul_u32 : Text → ℕ
unfolding scan_decimal
strtoul_u32 s =
    let scanned = scan_decimal s in
    let value = scanned.digits.value in
    (if leb (2 ^ 64) value
      then 2 ^ 64 - 1
      else if scanned.negative
      then (2 ^ 64 - value) % 2 ^ 64
      else value)
    % 2 ^ 32
