-- ===== src/Mem/Flex/Laws.antt =====
-- What growing and appending do to a flexible buffer.
use native.Mathlib.Nat.{le_refl}
use netmirage.Prelude.{
  ℕ, ◌+◌, ◌-◌, ◌*◌, ◌^◌, ◌≤◌, ◌<◌, ◌≡◌, refl, ap, sym, ◌∙◌, ◌⊎◌, inl, inr, true, ltb, Bool-cases,
  if◌then◌else◌, List, ◌++◌, length, take, drop, Option, some, arith, length-take, length-append,
  length-replicate, replicate, take-append, take-all, take-append_two, take-take, le→leb, lt→ltb,
  ltb→lt, length-drop,
}
use netmirage.Mem.Checked.{
  Outcome, ok, abort, fault, ◌>>=◌, eadd_size, emul_size, Allocator, erealloc,
}
use netmirage.Mem.Flex.{Buffer, enlarge, flex_buffer_grow, flex_buffer_append, write_bytes}

-- The block has room for `cap` elements, and a size that a `size_t` holds.
abbrev pub IsBlock : ℕ → Buffer → Type 0
IsBlock eltsize buffer =
    (length buffer.block ≡ buffer.cap * eltsize) × (length buffer.block < 2 ^ 64)

-- What growing gives: the result, if any, has room for `need` elements and begins as the old block.
pub record Grown (old : Buffer) (need eltsize : ℕ) (new : Buffer) : Type 0 where
  pub room : need ≤ new.cap
  pub block : IsBlock eltsize new
  pub kept : take (length old.block) new.block ≡ old.block
  pub bigger : old.cap ≤ new.cap
  pub sized : (new ≡ old) ⊎ (new.cap ≡ need * 2)

-- A step of a `do` block that came to a result.
stepped {ℓ κ} :
    {A : Type ℓ} {B : Type κ} (m : Outcome A) (next : A → Outcome B) {result : B}
    → (m >>= next) ≡ ok result
    → (a : A) × (m ≡ ok a) × (next a ≡ ok result)
stepped abort next h = cc
stepped fault next h = cc
stepped (ok a) next h = (a, refl, h)

emul_ok : (a b : ℕ) {n : ℕ} → emul_size a b ≡ ok n → (n ≡ a * b) × (n < 2 ^ 64)
unfolding emul_size
emul_ok a b h = ground arith

eadd_ok : (a b : ℕ) {n : ℕ} → eadd_size a b ≡ ok n → (n ≡ a + b) × (n < 2 ^ 64)
unfolding eadd_size
eadd_ok a b h = ground arith

resized :
    (block : List ℕ) (size junk : ℕ)
    → length block ≤ size
    → let new = take size block ++ replicate (size - length block) junk in
      (length new ≡ size) × (take (length block) new ≡ block)
resized block size junk le = rw (take-all size block le) (
  omega (
    arith,
    length-append block (replicate (size - length block) junk),
    length-replicate (size - length block) junk,
  ),
  take-append (length block) block _ (omega arith) ∙ take-all (length block) block (omega arith),
)

erealloc_ok :
    (alloc : Allocator) (block : List ℕ) (size : ℕ) {new : List ℕ}
    → erealloc alloc block size ≡ ok new
    → length block ≤ size
    → (length new ≡ size) × (take (length block) new ≡ block)
unfolding erealloc
erealloc_ok alloc block size h le = ground (arith, resized block size alloc.junk le)

mul_le : (a b c : ℕ) → a ≤ b → a * c ≤ b * c
mul_le a b c h = grind arith

enlarge-Grown :
    (alloc : Allocator) (buffer : Buffer) (need eltsize : ℕ) {new : Buffer}
    → IsBlock eltsize buffer
    → buffer.cap < need
    → enlarge alloc buffer need eltsize ≡ ok new
    → Grown buffer need eltsize new
unfolding enlarge
enlarge-Grown alloc buffer need eltsize valid lt h =
    let (cap, ec, h1) = stepped (emul_size need 2) _ h in
    let (bytes, eb, h2) = stepped (emul_size cap eltsize) _ h1 in
    let (block, er, h3) = stepped (erealloc alloc buffer.block bytes) _ h2 in
    let c = emul_ok need 2 ec in
    let b = emul_ok cap eltsize eb in
    let r =
      erealloc_ok alloc buffer.block bytes er
        (omega (arith, valid, b, c, mul_le buffer.cap cap eltsize (omega (arith, c)))) in
    ground (arith, h3, r, b, c)

grow_or_keep :
    (alloc : Allocator) (buffer : Buffer) (need eltsize : ℕ) {new : Buffer}
    → IsBlock eltsize buffer
    → (if ltb buffer.cap need then enlarge alloc buffer need eltsize else ok buffer) ≡ ok new
    → Grown buffer need eltsize new
grow_or_keep alloc buffer need eltsize valid h = elim (Bool-cases (ltb buffer.cap need)) [
  | inl more ↦
      enlarge-Grown alloc buffer need eltsize valid (ltb→lt buffer.cap need more) (rw more at h)
  | inr enough ↦
      ground (arith, take-all (length buffer.block) buffer.block (le_refl (length buffer.block)))
]

-- Whatever `flexBufferGrow` returns has room for the elements asked for, holds the bytes that the
-- block held, in a block of its capacity, and was not enlarged or is twice as large as asked for.
pub grow-Grown :
    (alloc : Allocator) (buffer : Buffer) (len additional eltsize : ℕ) {new : Buffer}
    → IsBlock eltsize buffer
    → flex_buffer_grow alloc buffer len additional eltsize ≡ ok new
    → Grown buffer (len + additional) eltsize new
unfolding flex_buffer_grow
grow-Grown alloc buffer len additional eltsize valid h =
    let (need, ea, k) = stepped (eadd_size len additional) _ h in
    rw (← (eadd_ok len additional ea).0) (grow_or_keep alloc buffer need eltsize valid k)

pub write_lem :
    (block : List ℕ) (start : ℕ) (bytes : List ℕ)
    → start + length bytes ≤ length block
    → (new : List ℕ) × (write_bytes block start bytes ≡ ok new)
      × (length new ≡ length block)
      × (take (start + length bytes) new ≡ take start block ++ bytes)
unfolding write_bytes
write_lem block start bytes h = (
  take start block ++ (bytes ++ drop (start + length bytes) block),
  rw (le→leb (start + length bytes) (length block) h),
  omega (
    arith,
    length-append (take start block) (bytes ++ drop (start + length bytes) block),
    length-append bytes (drop (start + length bytes) block),
    length-take start block,
    length-drop (start + length bytes) block,
  ),
  take-append_two (start + length bytes) (take start block) bytes
      (drop (start + length bytes) block) (omega (arith, length-take start block)),
)

emul_fits : (a b : ℕ) → a * b < 2 ^ 64 → emul_size a b ≡ ok (a * b)
unfolding emul_size
emul_fits a b h = rw (lt→ltb (a * b) (2 ^ 64) h)

mul_le_one : (a c : ℕ) → 0 < c → a ≤ a * c
mul_le_one a c h = grind arith

-- The elements that a buffer of the given length holds, as bytes.
abbrev pub contents : Buffer → ℕ → ℕ → List ℕ
contents buffer len eltsize = take (len * eltsize) buffer.block

-- `flexBufferAppend` to a buffer with room for the data: it neither aborts nor writes outside the
-- block, the contents are followed by the data, and the capacity stays.
pub append_lem :
    (buffer : Buffer) (len : ℕ) (bytes : List ℕ) (data_len eltsize : ℕ)
    → IsBlock eltsize buffer
    → 0 < eltsize
    → len + data_len ≤ buffer.cap
    → length bytes ≡ data_len * eltsize
    → (new : Buffer) × (flex_buffer_append buffer (some len) bytes data_len eltsize
        ≡ ok (new, some (len + data_len)))
      × (contents new (len + data_len) eltsize ≡ contents buffer len eltsize ++ bytes)
      × IsBlock eltsize new
      × (new.cap ≡ buffer.cap)
unfolding flex_buffer_append
append_lem buffer len bytes data_len eltsize valid pos room size =
    let (block, e, same, holds) = write_lem buffer.block (len * eltsize) bytes inside in
    (
      record { block = block; cap = buffer.cap },
      rw
          (
            emul_fits data_len eltsize (omega (arith, inside)),
            emul_fits len eltsize (omega (arith, inside)),
            take-all (data_len * eltsize) bytes (omega arith),
            e,
          )
          (let result : ℕ → Outcome (Buffer × Option ℕ) =
              λ n. ok (record { block = block; cap = buffer.cap }, some n) in
            ap result (omega (arith, valid, mul_le_one buffer.cap eltsize pos))),
      ap (λ (n : ℕ). take n block) (omega arith) ∙ holds,
      (same ∙ valid.0, omega arith),
      refl,
    )
  where
    inside : len * eltsize + length bytes ≤ length buffer.block
    inside = omega (arith, valid, mul_le (len + data_len) buffer.cap eltsize room)

-- Growing a buffer by the length of some data and then appending the data cannot go wrong once the
-- growth has succeeded: the contents are followed by the data, and the length counts them.
pub grow_then_append :
    (alloc : Allocator) (buffer : Buffer) (len : ℕ) (bytes : List ℕ) (data_len eltsize : ℕ)
    {grown : Buffer}
    → IsBlock eltsize buffer
    → 0 < eltsize
    → len ≤ buffer.cap
    → length bytes ≡ data_len * eltsize
    → flex_buffer_grow alloc buffer len data_len eltsize ≡ ok grown
    → (new : Buffer) × (flex_buffer_append grown (some len) bytes data_len eltsize
        ≡ ok (new, some (len + data_len)))
      × (contents new (len + data_len) eltsize ≡ contents buffer len eltsize ++ bytes)
      × IsBlock eltsize new
      × (len + data_len ≤ new.cap)
grow_then_append alloc buffer len bytes data_len eltsize {grown} valid pos fits size h =
    let g = grow-Grown alloc buffer len data_len eltsize valid h in
    let (new, e, holds, block, cap) =
      append_lem grown len bytes data_len eltsize g.block pos g.room size in
    (new, e, holds ∙ ap (λ l. l ++ bytes) (same g.kept), block, omega (arith, g.room, cap))
  where
    same :
        take (length buffer.block) grown.block ≡ buffer.block
        → contents grown len eltsize ≡ contents buffer len eltsize
    same kept =
        sym (
          take-take (len * eltsize) (length buffer.block) grown.block
            (omega (arith, valid, mul_le len buffer.cap eltsize fits)))
        ∙ ap (take (len * eltsize)) kept

-- Growing never faults, and it succeeds if twice the elements asked for make a `size_t` number of
-- bytes and memory does not run out.
pub grow_total :
    (alloc : Allocator) (buffer : Buffer) (len additional eltsize : ℕ)
    → 0 < eltsize
    → (len + additional) * 2 * eltsize < 2 ^ 64
    → ((size : ℕ) → alloc.available size ≡ true)
    → (new : Buffer) × (flex_buffer_grow alloc buffer len additional eltsize ≡ ok new)
unfolding flex_buffer_grow enlarge eadd_size erealloc
grow_total alloc buffer len additional eltsize pos fits memory =
    elim (Bool-cases (ltb buffer.cap (len + additional))) [
      | inl more ↦
          let bytes = (len + additional) * 2 * eltsize in
          (
            record {
              block = take bytes buffer.block ++ replicate (bytes - length buffer.block) alloc.junk;
              cap = (len + additional) * 2;
            },
            rw (
              lt→ltb (len + additional) (2 ^ 64) (omega (arith, one)),
              more,
              emul_fits (len + additional) 2 (omega (arith, one)),
              emul_fits ((len + additional) * 2) eltsize fits,
              memory ((len + additional) * 2 * eltsize),
            ),
          )
      | inr enough ↦ (buffer, rw (lt→ltb (len + additional) (2 ^ 64) (omega (arith, one)), enough))
    ]
  where
    one : (len + additional) * 2 ≤ (len + additional) * 2 * eltsize
    one = mul_le_one ((len + additional) * 2) eltsize pos
