-- ===== src/Route/Plan.antt =====
-- `rpPlanRoutes`: the rounds of the blocked algorithm, over chunks given by their offsets.
pub mod Threads
use netmirage.Prelude.{
  ℕ, zero, suc, ◌+◌, ◌-◌, ◌*◌, ◌/◌, ◌%◌, ◌^◌, ltb, if◌then◌else◌, List, [], ◌∷◌, ◌⊎◌, inl, inr,
}
use netmirage.Mem.Checked.{Outcome, ok, ◌>>=◌}
use netmirage.Route.{Floats, EdgeInfo, RoutePlanner, block_size, block_area}
use netmirage.Route.Chunk.{Pool, rp_process_chunk_local, rp_process_chunk_threaded}

-- The arguments of a call of `processRange`, but for the planner and the row size.
pub record Range : Type 0 where
  pub rows : ℕ
  pub cols : ℕ
  pub ij_block : ℕ
  pub ik_block : ℕ
  pub kj_block : ℕ

-- The offsets that a round starts with; `blockRowStart` and `blockColStart` are set from
-- `nextBlockRow` and `nextBlockCol` in the round.
pub record Offsets : Type 0 where
  pub next_block_row : ℕ
  pub next_block_col : ℕ
  pub sdb_start : ℕ
  pub right_block : ℕ
  pub down_block : ℕ
  pub remaining_rounds : ℕ

-- The nine calls of a round, in order.
unfoldable pub ranges : ℕ → ℕ → Offsets → List Range
ranges block_row_size round o =
    let row_start = o.next_block_row in
    let next_row = (o.next_block_row + block_row_size) % 2 ^ 32 in
    let col_start = o.next_block_col in
    let next_col = (o.next_block_col + block_area) % 2 ^ 32 in
    let sdb = o.sdb_start in
    let right = o.right_block in
    let down = o.down_block in
    let remaining = o.remaining_rounds in
    record { rows = 1; cols = 1; ij_block = sdb; ik_block = sdb; kj_block = sdb }
    ∷ record { rows = round; cols = 1; ij_block = col_start; ik_block = col_start; kj_block = sdb }
    ∷ record { rows = 1; cols = round; ij_block = row_start; ik_block = sdb; kj_block = row_start }
    ∷ record { rows = 1; cols = remaining; ij_block = right; ik_block = sdb; kj_block = right }
    ∷ record { rows = remaining; cols = 1; ij_block = down; ik_block = down; kj_block = sdb }
    ∷ record {
      rows = round;
      cols = round;
      ij_block = 0;
      ik_block = col_start;
      kj_block = row_start;
    }
    ∷ record {
      rows = round;
      cols = remaining;
      ij_block = next_col;
      ik_block = col_start;
      kj_block = right;
    }
    ∷ record {
      rows = remaining;
      cols = round;
      ij_block = next_row;
      ik_block = down;
      kj_block = row_start;
    }
    ∷ record {
      rows = remaining;
      cols = remaining;
      ij_block = (next_row + next_col) % 2 ^ 32;
      ik_block = down;
      kj_block = right;
    }
    ∷ []

-- "Move to next diagonal"
unfoldable pub next_offsets : ℕ → Offsets → Offsets
next_offsets block_row_size o =
    let diagonal = (block_row_size + block_area) % 2 ^ 32 in
    record {
      next_block_row = (o.next_block_row + block_row_size) % 2 ^ 32;
      next_block_col = (o.next_block_col + block_area) % 2 ^ 32;
      sdb_start = (o.sdb_start + diagonal) % 2 ^ 32;
      right_block = (o.right_block + diagonal) % 2 ^ 32;
      down_block = (o.down_block + diagonal) % 2 ^ 32;
      remaining_rounds = (o.remaining_rounds + 2 ^ 32 - 1) % 2 ^ 32;
    }

unfoldable pub first_offsets : ℕ → ℕ → Offsets
first_offsets block_row_size blocks = record {
  next_block_row = 0;
  next_block_col = 0;
  sdb_start = 0;
  right_block = block_area;
  down_block = block_row_size;
  remaining_rounds = (blocks + 2 ^ 32 - 1) % 2 ^ 32;
}

-- What `rpProcessChunkFunc` points to, with the row size.
abbrev pub ProcessRange : Type 0 → Type 0
ProcessRange W = ℕ → ℕ → ℕ → ℕ → ℕ → List (EdgeInfo W) → Outcome (List (EdgeInfo W))

module _ {W : Type 0} where
  module _ (process_range : ProcessRange W) where
    unfoldable pub process_all : List Range → List (EdgeInfo W) → Outcome (List (EdgeInfo W))
    process_all [] edges = ok edges
    process_all (r ∷ rs) edges = do
      processed ← process_range r.rows r.cols r.ij_block r.ik_block r.kj_block edges
      process_all rs processed

    -- The loop, with the number of rounds left.
    unfoldable pub rounds : ℕ → ℕ → ℕ → Offsets → List (EdgeInfo W) → Outcome (List (EdgeInfo W))
    rounds zero block_row_size round o edges = ok edges
    rounds (suc n) block_row_size round o edges = do
      processed ← process_all (ranges block_row_size round o) edges
      rounds n block_row_size (round + 1) (next_offsets block_row_size o) processed

abbrev pub threaded_threshold_nodes : ℕ
threaded_threshold_nodes = 1024

module _ {W : Type 0} (floats : Floats W) where
  unfoldable pub plan_with : (ℕ → ProcessRange W) → RoutePlanner W → Outcome (RoutePlanner W × ℕ)
  plan_with process planner = do
    let blocks = planner.node_count / block_size
    let block_row_size = planner.node_count * block_size % 2 ^ 32
    edges ←
        rounds (process block_row_size) blocks block_row_size 0
          (first_offsets block_row_size blocks) planner.edges
    ok (record planner { edges = edges }, 0)

  -- `processors` is what `g_get_num_processors` gives, and `new_pool` what `g_thread_pool_new` gives for
  -- that many threads at most: a pool or an error code.
  unfoldable pub rp_plan_routes :
      ℕ → (ℕ → Pool W ⊎ ℕ) → RoutePlanner W → Outcome (RoutePlanner W × ℕ)
  rp_plan_routes processors new_pool planner =
      let single = plan_with (rp_process_chunk_local floats) planner in
      let multi : Outcome (RoutePlanner W × ℕ) = elim (new_pool processors) [
        | inl pool ↦ plan_with (λ row_size. rp_process_chunk_threaded floats row_size pool) planner
        | inr code ↦ ok (planner, code)
      ] in
      if ltb planner.node_count threaded_threshold_nodes then single else multi
