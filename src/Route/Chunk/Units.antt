-- ===== src/Route/Chunk/Units.antt =====
-- The work units of `rpProcessChunkThreaded`.
use netmirage.Prelude.{
  ℕ, zero, suc, ◌+◌, ◌-◌, ◌*◌, ◌%◌, ◌^◌, ◌≤◌, ◌<◌, ◌≡◌, refl, sym, ap, ◌∙◌, inl, inr, false, leb,
  ltb, List, arith, Bool-cases, leb→le, ltb_false→le,
}
use Prim.Native.Nat.{min}
use netmirage.Mem.Checked.{Outcome, ok, ◌>>=◌}
use netmirage.Route.{Floats, EdgeInfo}
use netmirage.Route.Chunk.{
  Pool, HasOneThread, rp_process_chunk_local, start_indices, pushed_units, run_units,
  rp_process_partial_chunk, rp_process_chunk_threaded,
}
use netmirage.Route.Chunk.Visit.{
  same_next, visit, visit-append, chunk_local-visit, partial_chunk-visit, same_visit,
}

module _ {W : Type 0} (floats : Floats W) (block_row_size rows cols ij ik kj : ℕ) where
  abbrev blocks : ℕ → ℕ → List (EdgeInfo W) → Outcome (List (EdgeInfo W))
  blocks n start = visit floats block_row_size cols ij ik kj n start

  -- One unit, and then the blocks that are left.
  unit_and_rest :
      (start left : ℕ) (edges : List (EdgeInfo W))
      → left ≡ rows * cols - start
      → (blocks (min 8 (rows * cols - start)) start edges
          >>= blocks (rows * cols - (start + 8)) (start + 8))
        ≡ blocks left start edges
  unfolding visit
  unit_and_rest start left edges h = elim (Bool-cases (leb 8 left)) [
    | inl whole ↦
        ap (λ m. m >>= blocks (rows * cols - (start + 8)) (start + 8))
          (same_visit floats block_row_size cols ij ik kj (min 8 (rows * cols - start)) 8 start
            start edges (omega (arith, leb→le 8 left whole)) refl)
        ∙ sym (
            visit-append floats block_row_size cols ij ik kj 8 (rows * cols - (start + 8)) start
              (start + 8) left edges (omega (arith, leb→le 8 left whole)) refl)
    | inr part ↦
        let few = leb_false→lt 8 left part in
        ap (λ m. m >>= blocks (rows * cols - (start + 8)) (start + 8))
          (same_visit floats block_row_size cols ij ik kj (min 8 (rows * cols - start)) left start
            start edges (omega (arith, few)) refl)
        ∙ same_next (blocks left start edges) (λ a.
          same_visit floats block_row_size cols ij ik kj (rows * cols - (start + 8)) 0 (start + 8)
            (start + 8) a (omega (arith, few)) refl)
        ∙ sym (
            visit-append floats block_row_size cols ij ik kj left 0 start (start + left) left edges
              (omega arith) refl)
  ]
    where
      leb_false→lt : (m n : ℕ) → leb m n ≡ false → n < m
      leb_false→lt m n h = ground arith

  run_units-visit :
      (tasks start left : ℕ) (edges : List (EdgeInfo W))
      → kj < 2 ^ 32
      → left ≡ rows * cols - start
      → left ≤ 8 * tasks
      → 8 * tasks < left + 8
      → run_units
          (rp_process_partial_chunk floats block_row_size rows cols kj ij ik)
          (start_indices floats block_row_size tasks start)
          edges
        ≡ blocks left start edges
  unfolding run_units start_indices visit
  run_units-visit zero start left edges hk total enough few =
      same_visit floats block_row_size cols ij ik kj 0 left start start edges (omega arith) refl
  run_units-visit (suc tasks) start left edges hk total enough few =
      rw (partial_chunk-visit floats block_row_size cols ij ik kj rows start edges hk (omega arith))
        (same_next _ (λ a.
            run_units-visit tasks (start + 8) (rows * cols - (start + 8)) a hk refl (omega arith)
              (omega arith))
          ∙ unit_and_rest start left edges total)

  -- The work units that `rpProcessChunkThreaded` pushes for a chunk of less than 2^32 - 7 blocks, done one
  -- after the other, do what `rpProcessChunkLocal` does: together they are all blocks of the chunk, each
  -- once.
  pub pushed_units-eq-local :
      (edges : List (EdgeInfo W))
      → rows * cols + 7 < 2 ^ 32
      → ij < 2 ^ 32
      → ik < 2 ^ 32
      → kj < 2 ^ 32
      → run_units
          (rp_process_partial_chunk floats block_row_size rows cols kj ij ik)
          (pushed_units floats block_row_size rows cols)
          edges
        ≡ rp_process_chunk_local floats block_row_size rows cols ij ik kj edges
  unfolding pushed_units
  pushed_units-eq-local edges small hi hk hj =
      let total : rows * cols % 2 ^ 32 ≡ rows * cols = omega arith in
      rw (total, chunk_local-visit floats block_row_size cols ij ik kj rows edges hi hk hj)
        (run_units-visit _ 0 (rows * cols) edges hj (omega arith) (omega arith) (omega arith))

  pub chunk_threaded-eq-local :
      (pool : Pool W) (edges : List (EdgeInfo W))
      → HasOneThread pool
      → rows * cols + 7 < 2 ^ 32
      → ij < 2 ^ 32
      → ik < 2 ^ 32
      → kj < 2 ^ 32
      → rp_process_chunk_threaded floats block_row_size pool rows cols ij ik kj edges
        ≡ rp_process_chunk_local floats block_row_size rows cols ij ik kj edges
  unfolding rp_process_chunk_threaded visit
  chunk_threaded-eq-local pool edges one_thread small hi hk hj =
      let total : rows * cols % 2 ^ 32 ≡ rows * cols = omega arith in
      let local = chunk_local-visit floats block_row_size cols ij ik kj rows edges hi hk hj in
      elim (Bool-cases (leb (rows * cols) 8)) [
        | inl little ↦ elim (Bool-cases (ltb 0 (rows * cols))) [
          | inl some_blocks ↦ rw (total, little, some_blocks) refl
          | inr no_block ↦
              rw (total, little, no_block, local)
                (no_blocks (rows * cols) edges (ltb_false→le 0 (rows * cols) no_block))
        ]
        | inr many ↦
            rw (total, many) (one_thread _ _ edges ∙ pushed_units-eq-local edges small hi hk hj)
      ]
    where
      no_blocks : (n : ℕ) (edges : List (EdgeInfo W)) → n ≤ 0 → ok edges ≡ blocks n 0 edges
      no_blocks n edges h =
          same_visit floats block_row_size cols ij ik kj 0 n 0 0 edges (omega arith) refl
