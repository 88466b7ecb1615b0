-- ===== src/Mem/Tests.antt =====
-- The theorems on src/common/lib/mem.c and src/common/inc/mem.h at small inputs.
use netmirage.Prelude.{◌≤◌, ◌≡◌, refl, true, [], ◌∷◌, ◌++◌, replicate, some, arith}
use netmirage.Mem.Checked.{ok, abort, eadd_size, emul_size, emul_64_halves, Allocator, erealloc}
use netmirage.Mem.Checked.Halves.{emul_64_halves-eq-emul_size}
use netmirage.Mem.Flex.{
  Buffer, flex_buffer_grow, flex_buffer_append, flex_buffer_printf, write_bytes,
  try_flex_buffer_printf,
}
use netmirage.Mem.Flex.Laws.{IsBlock, Grown, contents, grow-Grown, grow_then_append, grow_total}

abbrev heap : Allocator
heap = record { available = λ _. true; junk = 7 }

-- Two elements of two bytes, both in use, and the same after growing by one element.
abbrev pair : Buffer
pair = record { block = 1 ∷ 2 ∷ 3 ∷ 4 ∷ []; cap = 2 }

abbrev grown_pair : Buffer
grown_pair = record { block = 1 ∷ 2 ∷ 3 ∷ 4 ∷ replicate 8 7; cap = 6 }

pair-IsBlock : IsBlock 2 pair
pair-IsBlock = (refl, omega arith)

grown_pair-IsBlock : IsBlock 2 grown_pair
grown_pair-IsBlock = (refl, omega arith)

grow_pair : flex_buffer_grow heap pair 2 1 2 ≡ ok grown_pair
unfolding flex_buffer_grow eadd_size emul_size erealloc
grow_pair = refl

grow-Grown_example : Grown pair 3 2 grown_pair
grow-Grown_example = grow-Grown heap pair 2 1 2 pair-IsBlock grow_pair

grow_then_append_example :
    (new : Buffer) × (flex_buffer_append grown_pair (some 2) (5 ∷ 6 ∷ []) 1 2 ≡ ok (new, some 3))
    × (contents new 3 2 ≡ contents pair 2 2 ++ (5 ∷ 6 ∷ []))
    × IsBlock 2 new
    × (3 ≤ new.cap)
grow_then_append_example =
    grow_then_append heap pair 2 (5 ∷ 6 ∷ []) 1 2 pair-IsBlock (omega arith) (omega arith) refl
      grow_pair

grow_total_example : (new : Buffer) × (flex_buffer_grow heap pair 2 1 2 ≡ ok new)
grow_total_example = grow_total heap pair 2 1 2 (omega arith) (omega arith) (λ size. refl)

emul_64_halves-eq-emul_size_example : emul_64_halves 4294967297 3 ≡ emul_size 4294967297 3
emul_64_halves-eq-emul_size_example =
    emul_64_halves-eq-emul_size 4294967297 3 (omega arith) (omega arith)

halves_overflow : emul_64_halves 4294967296 4294967296 ≡ abort
unfolding emul_64_halves
halves_overflow = refl

-- A text that does not fit at first is written once the buffer has been grown.
printf_grows :
    flex_buffer_printf heap (record { block = 9 ∷ []; cap = 1 }) (some 0) (104 ∷ 105 ∷ [])
    ≡ ok (record { block = 104 ∷ 105 ∷ 0 ∷ replicate 3 7; cap = 6 }, some 3)
unfolding flex_buffer_printf try_flex_buffer_printf flex_buffer_grow write_bytes eadd_size emul_size
    erealloc
printf_grows = refl
