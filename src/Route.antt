-- ===== src/Route.antt =====
-- src/netmirage-core/routeplanner.c, the Floyd-Warshall planner over a matrix in block order: the state
-- of a planner, its cells, and the reconstruction of a route.
pub mod Chunk
pub mod Plan
pub mod Layout
pub mod Path
mod Tests
use netmirage.Prelude.{
  ℕ, zero, suc, ◌+◌, ◌*◌, ◌/◌, ◌%◌, ◌^◌, Bool, true, false, ◌==◌, if◌then◌else◌, List, [], ◌∷◌,
  ◌++◌, get_elem?, length, set, Option, none, some, ltb,
}
use netmirage.Mem.Checked.{Outcome, ok, abort, fault, ◌>>=◌, emul_32}

-- The `float` operations of the processor that the planner relies on.
pub record Floats (W : Type 0) : Type 0 where
  pub infinity : W
  pub add : W → W → W
  pub less : W → W → Bool
  pub equal : W → W → Bool

pub record EdgeInfo (W : Type 0) : Type 0 where
  pub weight : W
  pub next : ℕ

-- `edges` and `nodeCount` of `struct routePlanner`; the buffers and the thread pool only serve a
-- call and hold nothing between two.
pub record RoutePlanner (W : Type 0) : Type 0 where
  pub edges : List (EdgeInfo W)
  pub node_count : ℕ

abbrev pub block_size : ℕ
block_size = 16

abbrev pub block_area : ℕ
block_area = 256

-- The sum and the products are `nodeId`s of 32 bits.
unfoldable pub rp_edge_index : ℕ → ℕ → ℕ → ℕ
rp_edge_index node_count from to =
    let from_block = from / block_size in
    let to_block = to / block_size in
    let row = from % block_size in
    let col = to % block_size in
    let block_row_size = node_count * block_size % 2 ^ 32 in
    (from_block * block_row_size + to_block * block_area + row * block_size + col) % 2 ^ 32

-- An element of an array, which must be there.
abbrev pub at : {A : Type 0} → List A → ℕ → Outcome A
at xs i = elim (get_elem? xs i) [ none ↦ fault | some x ↦ ok x ]

-- A route of more than `MAX_NODE_ID` steps is refused.
checked_route : List ℕ → Option (List ℕ)
checked_route path = if ltb 4294967294 (length path) then none else some path

module _ {W : Type 0} (floats : Floats W) where
  -- The four loops that fill the matrix, each with what is left of it.
  unfoldable pub fill_cols : ℕ → ℕ → List (EdgeInfo W) → List (EdgeInfo W)
  fill_cols zero next rest = rest
  fill_cols (suc n) next rest =
      record { weight = floats.infinity; next = next } ∷ fill_cols n (next + 1) rest

  unfoldable pub fill_rows : ℕ → ℕ → List (EdgeInfo W) → List (EdgeInfo W)
  fill_rows zero col_offset rest = rest
  fill_rows (suc n) col_offset rest = fill_cols block_size col_offset (fill_rows n col_offset rest)

  unfoldable pub fill_block_cols : ℕ → ℕ → List (EdgeInfo W) → List (EdgeInfo W)
  fill_block_cols zero col_offset rest = rest
  fill_block_cols (suc n) col_offset rest =
      fill_rows block_size col_offset (fill_block_cols n (col_offset + block_size) rest)

  unfoldable pub fill_block_rows : ℕ → ℕ → List (EdgeInfo W)
  fill_block_rows zero blocks = []
  fill_block_rows (suc n) blocks = fill_block_cols blocks 0 (fill_block_rows n blocks)

  -- The number of nodes is rounded up to a multiple of the block size.
  unfoldable pub rp_new_planner : ℕ → Outcome (RoutePlanner W)
  rp_new_planner node_count = do
    let blocks = (node_count + 15) % 2 ^ 32 / block_size
    cell_count ← emul_32 (blocks * block_size) (blocks * block_size)
    ok (record { edges = fill_block_rows blocks blocks; node_count = blocks * block_size })

  unfoldable pub rp_edge : RoutePlanner W → ℕ → ℕ → Outcome (EdgeInfo W)
  rp_edge planner from to = at planner.edges (rp_edge_index planner.node_count from to)

  unfoldable pub rp_set_weight : RoutePlanner W → ℕ → ℕ → W → Outcome (RoutePlanner W)
  unfolding rp_edge
  rp_set_weight planner from to weight = do
    edge ← rp_edge planner from to
    ok (record planner {
      edges =
          set (planner.edges) (rp_edge_index planner.node_count from to)
            (record edge { weight = weight });
    })

  -- The loop may go round a cycle: `none` is for a route that is not complete after `fuel` steps.
  unfoldable pub follow : ℕ → RoutePlanner W → ℕ → ℕ → Outcome (Option (List ℕ))
  unfolding rp_edge
  follow zero planner next end = ok none
  follow (suc fuel) planner next end = if next == end then ok (some []) else (do
    edge ← rp_edge planner next end
    rest ← follow fuel planner edge.next end
    ok (elim rest [ none ↦ none | some path ↦ some (edge.next ∷ path) ]))

  -- `Option` of the loop, then of the boolean result with the path that it goes with.
  unfoldable pub rp_get_route : ℕ → RoutePlanner W → ℕ → ℕ → Outcome (Option (Option (List ℕ)))
  unfolding checked_route
  rp_get_route fuel planner start end = do
    edge ← rp_edge planner start end
    (if floats.equal edge.weight floats.infinity then ok (some none) else (do
      rest ← follow fuel planner start end
      ok (elim rest [ none ↦ none | some path ↦ some (checked_route (start ∷ path)) ])))
