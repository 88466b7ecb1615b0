-- ===== src/Route/Chunk.antt =====
-- The processing of blocks and of chunks of blocks, in one thread and in work units. The block
-- offsets are `nodeId`s of 32 bits.

pub mod Visit
pub mod Units
use netmirage.Prelude.{
  ℕ, zero, suc, ◌+◌, ◌*◌, ◌/◌, ◌%◌, ◌^◌, ◌≡◌, Bool, true, false, leb, ltb, if◌then◌else◌, List, [],
  ◌∷◌, set,
}
use netmirage.Mem.Checked.{Outcome, ok, ◌>>=◌}
use netmirage.Route.{Floats, EdgeInfo, block_size, block_area, at}

abbrev pub thread_work_size : ℕ
thread_work_size = 8

-- What a thread pool makes of the matrix when work units are pushed with these start indices and the
-- caller has waited until all are done. A pool of several threads does units at the same time.
abbrev pub Pool : Type 0 → Type 0
Pool W =
    (ℕ → List (EdgeInfo W) → Outcome (List (EdgeInfo W)))
    → List ℕ
    → List (EdgeInfo W)
    → Outcome (List (EdgeInfo W))

-- Units that are done one after the other, in the order of the list.
unfoldable pub run_units : {W : Type 0} → Pool W
run_units unit [] edges = ok edges
run_units unit (u ∷ us) edges = do processed ← unit u edges; run_units unit us processed

-- `GThreadPool` processes units in the order in which they were added; with at most one thread, it does
-- so one after the other.
abbrev pub HasOneThread : {W : Type 0} → Pool W → Type 0
HasOneThread {W} pool =
    (unit : ℕ → List (EdgeInfo W) → Outcome (List (EdgeInfo W))) (pushed : List ℕ)
    (edges : List (EdgeInfo W))
    → pool unit pushed edges ≡ run_units unit pushed edges

module _ {W : Type 0} (floats : Floats W) where
  -- The comparison at the core: a detour over `k` that is shorter replaces the edge.
  unfoldable pub relax : List (EdgeInfo W) → ℕ → ℕ → ℕ → Outcome (List (EdgeInfo W))
  relax edges ij ik kj = do
    ij_edge ← at edges ij
    ik_edge ← at edges ik
    kj_edge ← at edges kj
    let detour_weight = floats.add ik_edge.weight kj_edge.weight
    ok (
        if floats.less detour_weight ij_edge.weight
        then set edges ij (record { weight = detour_weight; next = ik_edge.next })
        else edges)

  -- The loops over `j`, `i` and `k`, each with the number of rounds left.
  loop_j : ℕ → List (EdgeInfo W) → ℕ → ℕ → ℕ → Outcome (List (EdgeInfo W))
  loop_j zero edges ij ik kj = ok edges
  loop_j (suc n) edges ij ik kj = do
    relaxed ← relax edges ij ik kj
    loop_j n relaxed (ij + 1) ik (kj + 1)

  loop_i : ℕ → List (EdgeInfo W) → ℕ → ℕ → ℕ → Outcome (List (EdgeInfo W))
  unfolding loop_j
  loop_i zero edges ij ik kj = ok edges
  loop_i (suc n) edges ij ik kj = do
    row ← loop_j block_size edges ij ik kj
    loop_i n row (ij + block_size) (ik + block_size) kj

  loop_k : ℕ → List (EdgeInfo W) → ℕ → ℕ → ℕ → Outcome (List (EdgeInfo W))
  unfolding loop_i
  loop_k zero edges ij ik kj = ok edges
  loop_k (suc n) edges ij ik kj = do
    block ← loop_i block_size edges ij ik kj
    loop_k n block ij ((ik + 1) % 2 ^ 32) ((kj + block_size) % 2 ^ 32)

  unfoldable pub rp_process_block : List (EdgeInfo W) → ℕ → ℕ → ℕ → Outcome (List (EdgeInfo W))
  unfolding loop_k
  rp_process_block edges ij ik kj = loop_k block_size edges ij ik kj

  -- `rpProcessChunkLocal`: the columns and the rows that are left.
  unfoldable pub local_cols : ℕ → List (EdgeInfo W) → ℕ → ℕ → ℕ → Outcome (List (EdgeInfo W))
  local_cols zero edges ij ik kj = ok edges
  local_cols (suc n) edges ij ik kj = do
    processed ← rp_process_block edges ij ik kj
    local_cols n processed ((ij + block_area) % 2 ^ 32) ik ((kj + block_area) % 2 ^ 32)

  module _ (block_row_size : ℕ) where
    unfoldable pub local_rows : ℕ → ℕ → List (EdgeInfo W) → ℕ → ℕ → ℕ → Outcome (List (EdgeInfo W))
    local_rows zero cols edges ij ik kj = ok edges
    local_rows (suc n) cols edges ij ik kj = do
      processed ← local_cols cols edges ij ik kj
      local_rows n cols processed ((ij + block_row_size) % 2 ^ 32) ((ik + block_row_size) % 2 ^ 32)
          kj

    unfoldable pub rp_process_chunk_local :
        ℕ → ℕ → ℕ → ℕ → ℕ → List (EdgeInfo W) → Outcome (List (EdgeInfo W))
    rp_process_chunk_local range_rows range_cols ij ik kj edges =
        local_rows range_rows range_cols edges ij ik kj

    module _ (range_rows range_cols kj_block : ℕ) where
      -- The loop of `rpProcessPartialChunk` with the number of rounds left.
      unfoldable pub partial_loop :
          ℕ → ℕ → ℕ → ℕ → ℕ → ℕ → ℕ → List (EdgeInfo W) → Outcome (List (EdgeInfo W))
      partial_loop zero row col ij_block ik_block ij kj edges = ok edges
      partial_loop (suc n) row col ij_block ik_block ij kj edges = do
        processed ← rp_process_block edges ij ik_block kj
        let next_ij = (ij_block + block_row_size) % 2 ^ 32
        let next_ik = (ik_block + block_row_size) % 2 ^ 32
        let below = partial_loop n (row + 1) 0 next_ij next_ik next_ij kj_block processed
        let right =
            partial_loop n row (col + 1) ij_block ik_block ((ij + block_area) % 2 ^ 32)
              ((kj + block_area) % 2 ^ 32) processed
        (if leb range_cols (col + 1)
            then if leb range_rows (row + 1) then ok processed else below
            else right)

      unfoldable pub rp_process_partial_chunk :
          ℕ → ℕ → ℕ → List (EdgeInfo W) → Outcome (List (EdgeInfo W))
      rp_process_partial_chunk ij ik start_index edges =
          let row = start_index / range_cols in
          let col = start_index % range_cols in
          let row_skip = block_row_size * row % 2 ^ 32 in
          let col_skip = block_area * col % 2 ^ 32 in
          let ij_row = (ij + row_skip) % 2 ^ 32 in
          partial_loop thread_work_size row col ij_row ((ik + row_skip) % 2 ^ 32)
            ((ij_row + col_skip) % 2 ^ 32) ((kj_block + col_skip) % 2 ^ 32) edges

    -- The work units, by their start indices, in the order of their submission.
    unfoldable pub start_indices : ℕ → ℕ → List ℕ
    start_indices zero loop_idx = []
    start_indices (suc tasks) loop_idx =
        loop_idx ∷ start_indices tasks (loop_idx + thread_work_size)

    unfoldable pub pushed_units : ℕ → ℕ → List ℕ
    pushed_units range_rows range_cols =
        let space_size = range_rows * range_cols % 2 ^ 32 in
        let tasks = (space_size + 7) % 2 ^ 32 / thread_work_size in start_indices tasks 0

    unfoldable pub rp_process_chunk_threaded :
        Pool W → ℕ → ℕ → ℕ → ℕ → ℕ → List (EdgeInfo W) → Outcome (List (EdgeInfo W))
    rp_process_chunk_threaded pool range_rows range_cols ij ik kj edges =
        let space_size = range_rows * range_cols % 2 ^ 32 in
        let local = rp_process_chunk_local range_rows range_cols ij ik kj edges in
        let units =
          pool (rp_process_partial_chunk range_rows range_cols kj ij ik)
            (pushed_units range_rows range_cols) edges in
        if leb space_size thread_work_size
        then if ltb 0 space_size then local else ok edges
        else units
