-- ===== src/Route/Layout/Fresh.antt =====
-- The matrix that `rpNewPlanner` fills in array order.
use native.Mathlib.Nat.{mod-eq_of_lt, add-mod_left}
use netmirage.Prelude.{
  ℕ, zero, suc, ◌+◌, ◌-◌, ◌*◌, ◌/◌, ◌%◌, ◌^◌, ◌≤◌, ◌<◌, ◌≡◌, refl, subst, lt→ltb, ap, ◌∙◌, inl, inr,
  ltb, List, [], ◌∷◌, length, get_elem?, some, arith, Bool-cases, ltb→lt, ltb_false→le,
}
use netmirage.Mem.Checked.{ok, emul_32}
use netmirage.Route.{
  Floats, EdgeInfo, RoutePlanner, fill_cols, fill_rows, fill_block_cols, fill_block_rows,
  rp_new_planner, rp_edge_index, rp_edge,
}
use netmirage.Route.Layout.Cells.{at-some}
use netmirage.Route.Layout.{IsBlocked, plain, plain-lt, index_plain, col_of}

module _ {W : Type 0} (floats : Floats W) where
  abbrev fresh_edge : ℕ → EdgeInfo W
  fresh_edge next = record { weight = floats.infinity; next = next }

  -- The cells of a filled part, and then those of the rest.
  record Filled (size : ℕ) (next : ℕ → ℕ) (rest cells : List (EdgeInfo W)) : Type 0 where
    long : length cells ≡ size + length rest
    inside : (i : ℕ) → i < size → get_elem? cells i ≡ some (fresh_edge (next i))
    behind : (i : ℕ) → get_elem? cells (size + i) ≡ get_elem? rest i

  same_elem : (xs : List (EdgeInfo W)) (i j : ℕ) → i ≡ j → get_elem? xs i ≡ get_elem? xs j
  same_elem xs i j h = ap (λ (n : ℕ). get_elem? xs n) h

  same_edge : (i j : ℕ) → i ≡ j → some (fresh_edge i) ≡ some (fresh_edge j)
  same_edge i j h = ap (λ (n : ℕ). some (fresh_edge n)) h

  -- A part on top of a part.
  joined :
      (m n k : ℕ) (f g h : ℕ → ℕ) {rest middle cells : List (EdgeInfo W)}
      → Filled m f middle cells
      → Filled n g rest middle
      → k ≡ m + n
      → ((i : ℕ) → i < m → f i ≡ h i)
      → ((i : ℕ) → i < n → g i ≡ h (m + i))
      → Filled k h rest cells
  joined m n k f g h {rest} {middle} {cells} front back total hf hg = record {
    long = omega (arith, front.long, back.long);
    inside = λ i lt. elim (Bool-cases (ltb i m)) [
      | inl first ↦
          front.inside i (ltb→lt i m first) ∙ same_edge (f i) (h i) (hf i (ltb→lt i m first))
      | inr second ↦
          let le = ltb_false→le i m second in
          same_elem cells i (m + (i - m)) (omega (arith, le))
          ∙ front.behind (i - m)
          ∙ back.inside (i - m) (omega (arith, le))
          ∙ same_edge (g (i - m)) (h i) (hg (i - m) (omega (arith, le)) ∙ ap h (omega (arith, le)))
    ];
    behind = λ i.
        same_elem cells (k + i) (m + (n + i)) (omega arith) ∙ front.behind (n + i) ∙ back.behind i;
  }

  nothing : (next : ℕ → ℕ) (rest : List (EdgeInfo W)) → Filled 0 next rest rest
  nothing next rest = record {
    long = omega arith;
    inside = λ i h. absurd (omega arith);
    behind = λ i. same_elem rest (0 + i) i (omega arith);
  }

  one_cell :
      (next : ℕ) (rest : List (EdgeInfo W)) → Filled 1 (λ i. next) rest (fresh_edge next ∷ rest)
  one_cell next rest = record {
    long = omega arith;
    inside = λ i h. same_elem (fresh_edge next ∷ rest) i 0 (omega arith);
    behind = λ i. same_elem (fresh_edge next ∷ rest) (1 + i) (suc i) (omega arith);
  }

  fill_cols-Filled :
      (n next : ℕ) (rest : List (EdgeInfo W))
      → Filled n (λ i. next + i) rest (fill_cols floats n next rest)
  unfolding fill_cols
  fill_cols-Filled zero next rest = nothing (λ i. next + i) rest
  fill_cols-Filled (suc n) next rest =
      joined 1 n (suc n) (λ i. next) (λ i. next + 1 + i) (λ i. next + i)
        (one_cell next (fill_cols floats n (next + 1) rest)) (fill_cols-Filled n (next + 1) rest)
        (omega arith) (λ i h. omega arith) (λ i h. omega arith)

  fill_rows-Filled :
      (n offset : ℕ) (rest : List (EdgeInfo W))
      → Filled (16 * n) (λ i. offset + i % 16) rest (fill_rows floats n offset rest)
  unfolding fill_rows
  fill_rows-Filled zero offset rest = nothing (λ i. offset + i % 16) rest
  fill_rows-Filled (suc n) offset rest =
      joined 16 (16 * n) (16 * suc n) (λ i. offset + i) (λ i. offset + i % 16)
        (λ i. offset + i % 16) (fill_cols-Filled 16 offset (fill_rows floats n offset rest))
        (fill_rows-Filled n offset rest) (omega arith) (λ i h. omega arith) (λ i h. omega arith)

  fill_block_cols-Filled :
      (n offset : ℕ) (rest : List (EdgeInfo W))
      → Filled
          (256 * n)
          (λ i. offset + 16 * (i / 256) + i % 16)
          rest
          (fill_block_cols floats n offset rest)
  unfolding fill_block_cols
  fill_block_cols-Filled zero offset rest = nothing (λ i. offset + 16 * (i / 256) + i % 16) rest
  fill_block_cols-Filled (suc n) offset rest =
      joined 256 (256 * n) (256 * suc n) (λ i. offset + i % 16)
        (λ i. offset + 16 + 16 * (i / 256) + i % 16) (λ i. offset + 16 * (i / 256) + i % 16)
        (fill_rows-Filled 16 offset (fill_block_cols floats n (offset + 16) rest))
        (fill_block_cols-Filled n (offset + 16) rest) (omega arith) (λ i h. omega arith)
        (λ i h. omega arith)

  no_cells : (b : ℕ) → 0 ≡ 256 * (0 * b)
  no_cells b = omega arith

  fill_block_rows-Filled :
      (n blocks : ℕ)
      → Filled
          (256 * (n * blocks))
          (λ i. 16 * (i / 256 % blocks) + i % 16)
          []
          (fill_block_rows floats n blocks)
  unfolding fill_block_rows
  fill_block_rows-Filled zero blocks =
      subst (λ k. Filled k (λ i. 16 * (i / 256 % blocks) + i % 16) [] []) (no_cells blocks)
        (nothing (λ i. 16 * (i / 256 % blocks) + i % 16) [])
  fill_block_rows-Filled (suc n) blocks =
      joined (256 * blocks) (256 * (n * blocks)) (256 * (suc n * blocks))
        (λ i. 0 + 16 * (i / 256) + i % 16) (λ i. 16 * (i / 256 % blocks) + i % 16)
        (λ i. 16 * (i / 256 % blocks) + i % 16)
        (fill_block_cols-Filled blocks 0 (fill_block_rows floats n blocks))
        (fill_block_rows-Filled n blocks) (omega arith)
        (λ i h. omega (arith, mod-eq_of_lt {n = i / 256} {m = blocks} (omega arith)))
        (λ i h. omega (arith, next_block blocks i))
    where
      shifted : (b i : ℕ) → (256 * b + i) / 256 ≡ b + i / 256
      shifted b i = omega arith

      next_block : (b i : ℕ) → (256 * b + i) / 256 % b ≡ i / 256 % b
      next_block b i = ap (λ (n : ℕ). n % b) (shifted b i) ∙ add-mod_left b (i / 256)

  -- The cell of two nodes in a filled matrix of `b` blocks a side.
  fresh_cell :
      (b from to : ℕ)
      → 16 * b * (16 * b) < 2 ^ 32
      → from < 16 * b
      → to < 16 * b
      → get_elem? (fill_block_rows floats b b) (rp_edge_index (16 * b) from to)
        ≡ some (fresh_edge to)
  fresh_cell b from to area hf ht =
      same_elem (fill_block_rows floats b b) _ _ (index_plain b from to area hf ht)
      ∙ (fill_block_rows-Filled b b).inside (plain b from to) (plain-lt b from to hf ht)
      ∙ same_edge _ to (omega (arith, col_of b from to hf ht))

  -- For up to 65520 nodes `rpNewPlanner` succeeds. The planner has at least as many nodes, and fewer
  -- than 16 more, in whole blocks; the cell of any two of them has an infinite weight, and its next
  -- node is the end node.
  pub new_planner_cells :
      (node_count : ℕ)
      → node_count ≤ 65520
      → (planner : RoutePlanner W) × (rp_new_planner floats node_count ≡ ok planner)
        × IsBlocked planner
        × (node_count ≤ planner.node_count)
        × (planner.node_count < node_count + 16)
        × ((from to : ℕ)
            → from < planner.node_count
            → to < planner.node_count
            → rp_edge floats planner from to ≡ ok (record { weight = floats.infinity; next = to }))
  unfolding rp_new_planner emul_32 rp_edge
  new_planner_cells node_count h = (
    record { edges = fill_block_rows floats b b; node_count = b * 16 },
    rw (lt→ltb (b * 16 * (b * 16)) (2 ^ 32) area) refl,
    record {
      aligned = omega arith;
      area = area;
      cells = omega (arith, (fill_block_rows-Filled b b).long);
    },
    omega arith,
    omega arith,
    (λ from to hf ht. at-some (fill_block_rows floats b b) (rp_edge_index (b * 16) from to) (
        ap (λ (n : ℕ). get_elem? (fill_block_rows floats b b) (rp_edge_index n from to)) turned
        ∙ fresh_cell b from to (omega (arith, area)) (omega arith) (omega arith))),
  )
    where
      b : ℕ
      b = (node_count + 15) % 2 ^ 32 / 16

      turned : b * 16 ≡ 16 * b
      turned = omega arith

      square : (n : ℕ) → n ≤ 65520 → n * n < 2 ^ 32
      square n h = grind arith

      area : b * 16 * (b * 16) < 2 ^ 32
      area = square (b * 16) (omega arith)
