-- ===== src/Route/Chunk/Visit.antt =====
-- The blocks of a chunk by their number, row by row, and the loops of `rpProcessChunkLocal` and
-- `rpProcessPartialChunk` over them.
use native.Mathlib.Nat.{
  mul-add-div_right, mul-add-mod_self_right, div-add-mod', mod-lt, div-lt_iff_lt-mul, div-eq_of_lt,
  mod-eq_of_lt,
}
use netmirage.Prelude.{
  ℕ, zero, suc, ◌+◌, ◌-◌, ◌*◌, ◌/◌, ◌%◌, ◌^◌, ◌≤◌, ◌<◌, ◌≡◌, refl, sym, ap, ap₂, ◌∙◌, inl, inr,
  true, false, leb, List, arith, Bool-cases,
}
use Prim.Native.Nat.{min}
use netmirage.Mem.Checked.{Outcome, ok, abort, fault, ◌>>=◌}
use netmirage.Route.{Floats, EdgeInfo}
use netmirage.Route.Chunk.{
  rp_process_block, local_cols, local_rows, rp_process_chunk_local, partial_loop,
  rp_process_partial_chunk,
}

-- Steps that go on in the same way.
pub same_next {ℓ κ} :
    {A : Type ℓ} {B : Type κ} (m : Outcome A) {f g : A → Outcome B}
    → ((a : A) → f a ≡ g a)
    → (m >>= f) ≡ (m >>= g)
same_next (ok a) h = h a
same_next abort h = refl
same_next fault h = refl

pub regroup {ℓ κ μ} :
    {A : Type ℓ} {B : Type κ} {C : Type μ} (m : Outcome A) (f : A → Outcome B) (g : B → Outcome C)
    → ((m >>= f) >>= g) ≡ (m >>= λ a. f a >>= g)
regroup (ok a) f g = refl
regroup abort f g = refl
regroup fault f g = refl

module _ {W : Type 0} (floats : Floats W) (block_row_size cols ij ik kj : ℕ) where
  -- Where a row and a column of blocks stand.
  abbrev pub ij_at : ℕ → ℕ → ℕ
  ij_at row col = (ij + block_row_size * row + 256 * col) % 2 ^ 32

  abbrev pub ik_at : ℕ → ℕ
  ik_at row = (ik + block_row_size * row) % 2 ^ 32

  abbrev pub kj_at : ℕ → ℕ
  kj_at col = (kj + 256 * col) % 2 ^ 32

  -- The `n` blocks from number `i` on, one after the other.
  unfoldable pub visit : ℕ → ℕ → List (EdgeInfo W) → Outcome (List (EdgeInfo W))
  visit zero i edges = ok edges
  visit (suc n) i edges = do
    processed ←
        rp_process_block floats edges (ij_at (i / cols) (i % cols)) (ik_at (i / cols))
          (kj_at (i % cols))
    visit n (i + 1) processed

  pub same_visit :
      (n m i j : ℕ) (edges : List (EdgeInfo W)) → n ≡ m → i ≡ j → visit n i edges ≡ visit m j edges
  same_visit n m i j edges h k = ap₂ (λ (a b : ℕ). visit a b edges) h k

  pub visit-append :
      (m n i j k : ℕ) (edges : List (EdgeInfo W))
      → k ≡ m + n
      → j ≡ i + m
      → visit k i edges ≡ (visit m i edges >>= visit n j)
  unfolding visit
  visit-append zero n i j k edges hk hj = same_visit k n i j edges (omega arith) (omega arith)
  visit-append (suc m) n i j k edges hk hj =
      same_visit k (suc (m + n)) i i edges (omega arith) refl
      ∙ same_next _ (λ a. visit-append m n (i + 1) j (m + n) a refl (omega arith))
      ∙ sym (regroup _ (visit m (i + 1)) (visit n j))

  quotient : (row col : ℕ) → col < cols → (row * cols + col) / cols ≡ row
  quotient row col h =
      mul-add-div_right {m = cols} (omega arith) row col ∙ omega (arith, div-eq_of_lt h)

  remainder : (row col : ℕ) → col < cols → (row * cols + col) % cols ≡ col
  remainder row col h = mul-add-mod_self_right row cols col ∙ mod-eq_of_lt h

  -- The block in a row and a column.
  pub visit_step :
      (n row col next : ℕ) (edges : List (EdgeInfo W))
      → col < cols
      → next ≡ row * cols + col + 1
      → visit (suc n) (row * cols + col) edges
        ≡ (rp_process_block floats edges (ij_at row col) (ik_at row) (kj_at col) >>= visit n next)
  unfolding visit
  visit_step n row col next edges h e = rw (quotient row col h, remainder row col h, e) refl

  local_cols-visit :
      (n row col i x z : ℕ) (edges : List (EdgeInfo W))
      → col + n ≤ cols
      → i ≡ row * cols + col
      → x ≡ ij_at row col
      → z ≡ kj_at col
      → local_cols floats n edges x (ik_at row) z ≡ visit n i edges
  unfolding local_cols visit
  local_cols-visit zero row col i x z edges h hi hx hz = refl
  local_cols-visit (suc n) row col i x z edges h hi hx hz =
      rw (hx, hz, hi)
        (same_next _ (λ a.
            local_cols-visit n row (col + 1) (row * cols + col + 1) ((ij_at row col + 256) % 2 ^ 32)
              ((kj_at col + 256) % 2 ^ 32) a (omega arith) (omega arith) (omega arith)
              (omega arith))
          ∙ sym (visit_step n row col (row * cols + col + 1) edges (omega arith) refl))

  next_row : (row : ℕ) → (row + 1) * cols ≡ row * cols + cols
  next_row row = omega arith

  below : (row : ℕ) → block_row_size * (row + 1) ≡ block_row_size * row + block_row_size
  below row = omega arith

  local_rows-visit :
      (n row i x y : ℕ) (edges : List (EdgeInfo W))
      → kj < 2 ^ 32
      → i ≡ row * cols
      → x ≡ ij_at row 0
      → y ≡ ik_at row
      → local_rows floats block_row_size n cols edges x y kj ≡ visit (n * cols) i edges
  unfolding local_rows visit
  local_rows-visit zero row i x y edges hk hi hx hy =
      same_visit 0 (0 * cols) i i edges (omega arith) refl
  local_rows-visit (suc n) row i x y edges hk hi hx hy = rw (hy) (
      ap
        (λ m. m >>= λ a.
          local_rows floats block_row_size n cols a ((x + block_row_size) % 2 ^ 32)
            ((ik_at row + block_row_size) % 2 ^ 32) kj)
        (local_cols-visit cols row 0 i x kj edges (omega arith) (omega arith) hx (omega arith))
      ∙ same_next _ (λ a.
        local_rows-visit n (row + 1) (i + cols) ((x + block_row_size) % 2 ^ 32)
          ((ik_at row + block_row_size) % 2 ^ 32) a hk (omega (arith, next_row row))
          (omega (arith, below row)) (omega (arith, below row)))
      ∙ sym (visit-append cols (n * cols) i (i + cols) (suc n * cols) edges (omega arith) refl))

  -- A chunk is processed in one thread block by block.
  pub chunk_local-visit :
      (rows : ℕ) (edges : List (EdgeInfo W))
      → ij < 2 ^ 32
      → ik < 2 ^ 32
      → kj < 2 ^ 32
      → rp_process_chunk_local floats block_row_size rows cols ij ik kj edges
        ≡ visit (rows * cols) 0 edges
  unfolding rp_process_chunk_local
  chunk_local-visit rows edges hi hk hj =
      local_rows-visit rows 0 0 ij ik edges hj (omega arith) (omega arith) (omega arith)

  module _ (rows : ℕ) where
    left_over : ℕ → ℕ → ℕ
    left_over n i = min n (rows * cols - i)

    -- The last block of the chunk.
    last_block :
        (row col i : ℕ)
        → i ≡ row * cols + col
        → cols ≡ col + 1
        → rows ≡ row + 1
        → rows * cols ≡ i + 1
    last_block row col i hi hc hr = rw (hi, hr, hc) (omega arith)

    ends : (i : ℕ) (a : List (EdgeInfo W)) → ok a ≡ visit 0 i a
    unfolding visit
    ends i a = refl

    rows_below : (row : ℕ) → row < rows → row * cols + cols ≤ rows * cols
    rows_below row h = grind arith

    -- One block, and then the rest of a number of blocks.
    block_and_rest :
        (left k row col i : ℕ) (edges : List (EdgeInfo W))
        {next : List (EdgeInfo W) → Outcome (List (EdgeInfo W))}
        → left ≡ suc k
        → col < cols
        → i ≡ row * cols + col
        → ((a : List (EdgeInfo W)) → next a ≡ visit k (i + 1) a)
        → (rp_process_block floats edges (ij_at row col) (ik_at row) (kj_at col) >>= next)
          ≡ visit left i edges
    block_and_rest left k row col i edges hl hc hi rest =
        same_next _ rest
        ∙ sym (visit_step k row col (i + 1) edges hc (omega arith))
        ∙ same_visit (suc k) left (row * cols + col) i edges (omega arith) (omega arith)

    partial_loop-visit :
        (n row col i x y v z : ℕ) (edges : List (EdgeInfo W))
        → kj < 2 ^ 32
        → row < rows
        → col < cols
        → i ≡ row * cols + col
        → x ≡ ij_at row 0
        → y ≡ ik_at row
        → v ≡ ij_at row col
        → z ≡ kj_at col
        → partial_loop floats block_row_size rows cols kj n row col x y v z edges
          ≡ visit (left_over n i) i edges
    unfolding partial_loop left_over
    partial_loop-visit zero row col i x y v z edges hk hr hc hi hx hy hv hz =
        ends i edges ∙ same_visit 0 (left_over 0 i) i i edges (omega arith) refl
    partial_loop-visit (suc n) row col i x y v z edges hk hr hc hi hx hy hv hz =
        elim (Bool-cases (leb cols (col + 1))) [
          | inr inside ↦
              rw (hv, hz, hy, inside)
                (block_and_rest (left_over (suc n) i) (left_over n (i + 1)) row col i edges
                  (omega (arith, rows_below row hr)) hc hi
                  (λ a.
                    partial_loop-visit n row (col + 1) (i + 1) x (ik_at row)
                      ((ij_at row col + 256) % 2 ^ 32) ((kj_at col + 256) % 2 ^ 32) a hk hr
                      (lt_of cols (col + 1) inside) (omega arith) hx refl (omega arith)
                      (omega arith)))
          | inl full ↦ elim (Bool-cases (leb rows (row + 1))) [
            | inl bottom ↦
                rw (hv, hz, hy, full, bottom)
                  (block_and_rest (left_over (suc n) i) 0 row col i edges
                    (omega (
                      arith,
                      last_block row col i hi (eq_of cols col hc full) (eq_of rows row hr bottom),
                    ))
                    hc hi (λ a. ends (i + 1) a))
            | inr more ↦
                rw (hv, hz, hy, full, more)
                  (block_and_rest (left_over (suc n) i) (left_over n (i + 1)) row col i edges
                    (omega (arith, rows_below row hr)) hc hi
                    (λ a.
                      partial_loop-visit n (row + 1) 0 (i + 1) ((x + block_row_size) % 2 ^ 32)
                        ((ik_at row + block_row_size) % 2 ^ 32) ((x + block_row_size) % 2 ^ 32) kj a
                        hk (lt_of rows (row + 1) more) (omega arith)
                        (omega (arith, next_row row, eq_of cols col hc full))
                        (omega (arith, below row)) (omega (arith, below row))
                        (omega (arith, below row)) (omega arith)))
          ]
        ]
      where
        lt_of : (n c : ℕ) → leb n c ≡ false → c < n
        lt_of n c h = ground arith

        eq_of : (a b : ℕ) → b < a → leb a (b + 1) ≡ true → a ≡ b + 1
        eq_of a b lt h = ground arith

    -- A work unit processes the blocks from its start index on, up to the unit's size or the end.
    pub partial_chunk-visit :
        (start_index : ℕ) (edges : List (EdgeInfo W))
        → kj < 2 ^ 32
        → start_index < rows * cols
        → rp_process_partial_chunk floats block_row_size rows cols kj ij ik start_index edges
          ≡ visit (min 8 (rows * cols - start_index)) start_index edges
    unfolding rp_process_partial_chunk left_over
    partial_chunk-visit start_index edges hk h =
        partial_loop-visit 8 (start_index / cols) (start_index % cols) start_index _ _ _ _ edges hk
          (row_inside start_index h) (mod-lt start_index (some_cols start_index h))
          (sym (div-add-mod' start_index cols)) (omega arith) (omega arith) (omega arith)
          (omega arith)
      where
        some_cols : (s : ℕ) → s < rows * cols → 0 < cols
        some_cols s h = grind arith

        row_inside : (s : ℕ) → s < rows * cols → s / cols < rows
        row_inside s h = (div-lt_iff_lt-mul {k = cols} (some_cols s h)).1 h
