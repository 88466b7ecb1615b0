-- ===== src/Mem/Flex.antt =====
-- The flexible buffers. The caller keeps the block, the capacity and, if it tracks one, the length,
-- in elements; a buffer without a length (a NULL `len`) is written from its start.
pub mod Laws
use netmirage.Prelude.{
  ℕ, zero, suc, ◌+◌, ◌-◌, ◌*◌, ◌%◌, ◌^◌, Bool, true, false, ltb, leb, if◌then◌else◌, List, [], ◌∷◌,
  ◌++◌, length, take, drop, Option, none, some,
}
use netmirage.Mem.Checked.{
  Outcome, ok, abort, fault, ◌>>=◌, ◌>>◌, eadd_size, emul_size, Allocator, erealloc,
}

-- `*buffer` and `*cap`
pub record Buffer : Type 0 where
  pub block : List ℕ
  pub cap : ℕ

unfoldable pub flex_buffer_init : Buffer
flex_buffer_init = record { block = []; cap = 0 }

-- Frees the block: what is left is a buffer as after `flexBufferInit`, whatever it was.
unfoldable pub flex_buffer_free : Buffer → Buffer × ℕ
flex_buffer_free buffer = (record { block = []; cap = 0 }, 0)

-- `memcpy(&block[start], data, ...)`, inside the block.
unfoldable pub write_bytes : List ℕ → ℕ → List ℕ → Outcome (List ℕ)
write_bytes block start bytes =
    if leb (start + length bytes) (length block)
    then ok (take start block ++ (bytes ++ drop (start + length bytes) block))
    else fault

abbrev len_or_zero : Option ℕ → ℕ
len_or_zero none = 0
len_or_zero (some len) = len

module _ (alloc : Allocator) where
  -- The block for twice the elements asked for.
  enlarge : Buffer → ℕ → ℕ → Outcome Buffer
  enlarge buffer new_cap eltsize = do
    cap ← emul_size new_cap 2
    bytes ← emul_size cap eltsize
    block ← erealloc alloc buffer.block bytes
    ok (record { block = block; cap = cap })

  unfoldable pub flex_buffer_grow : Buffer → ℕ → ℕ → ℕ → Outcome Buffer
  unfolding enlarge
  flex_buffer_grow buffer len additional_space eltsize = do
    new_cap ← eadd_size len additional_space
    (if ltb buffer.cap new_cap then enlarge buffer new_cap eltsize else ok buffer)

-- `bytes` are the `data_len * eltsize` bytes at `data`. The new length wraps as a `size_t`.
unfoldable pub flex_buffer_append : Buffer → Option ℕ → List ℕ → ℕ → ℕ → Outcome (Buffer × Option ℕ)
flex_buffer_append buffer none bytes data_len eltsize = do
  copy_len ← emul_size data_len eltsize
  block ← write_bytes buffer.block 0 (take copy_len bytes)
  ok (record buffer { block = block }, none)
flex_buffer_append buffer (some len) bytes data_len eltsize = do
  copy_len ← emul_size data_len eltsize
  start_byte ← emul_size len eltsize
  block ← write_bytes buffer.block start_byte (take copy_len bytes)
  ok (record buffer { block = block }, some ((len + data_len) % 2 ^ 64))

module _ (alloc : Allocator) where
  -- `str` is the text before its NUL.
  unfoldable pub flex_buffer_grow_append_str :
      Buffer → Option ℕ → List ℕ → Outcome (Buffer × Option ℕ)
  flex_buffer_grow_append_str buffer len str = do
    let data_len = length str + 1
    grown ← flex_buffer_grow alloc buffer (len_or_zero len) data_len 1
    flex_buffer_append grown len (str ++ 0 ∷ []) data_len 1

-- `vsnprintf` into the free space: `text` is what the format and its arguments come to. The result
-- is 0, or the number of bytes that are needed.
unfoldable pub try_flex_buffer_printf : Buffer → Option ℕ → List ℕ → Outcome (Buffer × Option ℕ × ℕ)
try_flex_buffer_printf buffer len text =
    let current_len = len_or_zero len in
    let free_space = (2 ^ 64 + buffer.cap - current_len) % 2 ^ 64 in
    let needed = length text in
    let new_len : Option ℕ = elim len [ none ↦ none | some l ↦ some ((l + needed + 1) % 2 ^ 64) ] in
    let whole = write_bytes buffer.block current_len (text ++ 0 ∷ []) in
    let cut = write_bytes buffer.block current_len (take (free_space - 1) text ++ 0 ∷ []) in
    if ltb needed free_space
    then (do block ← whole; ok (record buffer { block = block }, new_len, 0))
    else if ltb 0 free_space
    then (do block ← cut; ok (record buffer { block = block }, len, needed + 1))
    else ok (buffer, len, needed + 1)

module _ (alloc : Allocator) where
  -- The second attempt, after the buffer has been grown.
  printf_again : Buffer → Option ℕ → List ℕ → ℕ → Outcome (Buffer × Option ℕ)
  printf_again buffer len text additional_space = do
    grown ← flex_buffer_grow alloc buffer (len_or_zero len) additional_space 1
    written ← try_flex_buffer_printf grown len text
    ok (written.0, written.1)

  unfoldable pub flex_buffer_printf : Buffer → Option ℕ → List ℕ → Outcome (Buffer × Option ℕ)
  unfolding printf_again
  flex_buffer_printf buffer len text = do
    tried ← try_flex_buffer_printf buffer len text
    (if ltb 0 tried.2 then printf_again tried.0 tried.1 text tried.2 else ok (tried.0, tried.1))
