-- ===== src/Route/Plan/Threads.antt =====
-- Planning with the thread pool.
use netmirage.Prelude.{
  ℕ, zero, suc, ◌+◌, ◌*◌, ◌/◌, ◌%◌, ◌^◌, ◌≤◌, ◌<◌, ◌≡◌, refl, ◌⊎◌, inl, inr, ltb, List, [], ◌∷◌,
  All, arith, Bool-cases,
}
use netmirage.Route.{Floats, EdgeInfo, RoutePlanner}
use netmirage.Route.Chunk.{Pool, HasOneThread, rp_process_chunk_local, rp_process_chunk_threaded}
use netmirage.Route.Chunk.Visit.{same_next}
use netmirage.Route.Chunk.Units.{chunk_threaded-eq-local}
use netmirage.Route.Plan.{
  Range, Offsets, ranges, next_offsets, first_offsets, process_all, rounds, plan_with,
  rp_plan_routes,
}

-- A range within a matrix of at most 4096 blocks a side, at offsets of 32 bits.
record IsRange (r : Range) : Type 0 where
  rows : r.rows ≤ 4096
  cols : r.cols ≤ 4096
  ij : r.ij_block < 2 ^ 32
  ik : r.ik_block < 2 ^ 32
  kj : r.kj_block < 2 ^ 32

-- Before a round of `blocks`.
record IsOffsets (blocks round : ℕ) (o : Offsets) : Type 0 where
  row : o.next_block_row < 2 ^ 32
  col : o.next_block_col < 2 ^ 32
  sdb : o.sdb_start < 2 ^ 32
  right : o.right_block < 2 ^ 32
  down : o.down_block < 2 ^ 32
  remaining : round < blocks → o.remaining_rounds + round + 1 ≡ blocks

first-IsOffsets :
    (size blocks : ℕ)
    → size < 2 ^ 32
    → blocks ≤ 4096
    → IsOffsets blocks 0 (first_offsets size blocks)
unfolding first_offsets
first-IsOffsets size blocks h k = record {
  row = omega arith;
  col = omega arith;
  sdb = omega arith;
  right = omega arith;
  down = h;
  remaining = λ some. omega arith;
}

next-IsOffsets :
    (size blocks round : ℕ) (o : Offsets)
    → blocks ≤ 4096
    → round < blocks
    → IsOffsets blocks round o
    → IsOffsets blocks (round + 1) (next_offsets size o)
unfolding next_offsets
next-IsOffsets size blocks round o few more v = record {
  row = omega arith;
  col = omega arith;
  sdb = omega arith;
  right = omega arith;
  down = omega arith;
  remaining = λ again. omega (arith, v.remaining more);
}

ranges-IsRange :
    (size blocks round : ℕ) (o : Offsets)
    → blocks ≤ 4096
    → round < blocks
    → IsOffsets blocks round o
    → All IsRange (ranges size round o)
unfolding ranges
ranges-IsRange size blocks round o few more v =
    let left = v.remaining more in
    (
      record { rows = omega arith; cols = omega arith; ij = v.sdb; ik = v.sdb; kj = v.sdb },
      (
        record { rows = omega arith; cols = omega arith; ij = v.col; ik = v.col; kj = v.sdb },
        (
          record { rows = omega arith; cols = omega arith; ij = v.row; ik = v.sdb; kj = v.row },
          (
            record {
              rows = omega arith;
              cols = omega (arith, left);
              ij = v.right;
              ik = v.sdb;
              kj = v.right;
            },
            (
              record {
                rows = omega (arith, left);
                cols = omega arith;
                ij = v.down;
                ik = v.down;
                kj = v.sdb;
              },
              (
                record {
                  rows = omega arith;
                  cols = omega arith;
                  ij = omega arith;
                  ik = v.col;
                  kj = v.row;
                },
                (
                  record {
                    rows = omega arith;
                    cols = omega (arith, left);
                    ij = omega arith;
                    ik = v.col;
                    kj = v.right;
                  },
                  (
                    record {
                      rows = omega (arith, left);
                      cols = omega arith;
                      ij = omega arith;
                      ik = v.down;
                      kj = v.row;
                    },
                    (
                      record {
                        rows = omega (arith, left);
                        cols = omega (arith, left);
                        ij = omega arith;
                        ik = v.down;
                        kj = v.right;
                      },
                      tt,
                    ),
                  ),
                ),
              ),
            ),
          ),
        ),
      ),
    )

module _ {W : Type 0} (floats : Floats W) (pool : Pool W) (size : ℕ) where
  process_all-threaded :
      (rs : List Range) (edges : List (EdgeInfo W))
      → HasOneThread pool
      → All IsRange rs
      → process_all (rp_process_chunk_threaded floats size pool) rs edges
        ≡ process_all (rp_process_chunk_local floats size) rs edges
  unfolding process_all
  process_all-threaded [] edges one_thread h = refl
  process_all-threaded (r ∷ rs) edges one_thread (h, hs) =
      rw
        (chunk_threaded-eq-local floats size r.rows r.cols r.ij_block r.ik_block r.kj_block pool
          edges one_thread (area r.rows r.cols h.rows h.cols) h.ij h.ik h.kj)
        (same_next _ (λ a. process_all-threaded rs a one_thread hs))
    where
      area : (m n : ℕ) → m ≤ 4096 → n ≤ 4096 → m * n + 7 < 2 ^ 32
      area m n h k = grind arith

  rounds-threaded :
      (n blocks round : ℕ) (o : Offsets) (edges : List (EdgeInfo W))
      → HasOneThread pool
      → blocks ≤ 4096
      → round + n ≡ blocks
      → IsOffsets blocks round o
      → rounds (rp_process_chunk_threaded floats size pool) n size round o edges
        ≡ rounds (rp_process_chunk_local floats size) n size round o edges
  unfolding rounds
  rounds-threaded zero blocks round o edges one_thread few h v = refl
  rounds-threaded (suc n) blocks round o edges one_thread few h v =
      rw
        (process_all-threaded (ranges size round o) edges one_thread
          (ranges-IsRange size blocks round o few (omega arith) v))
        (same_next _ (λ a.
          rounds-threaded n blocks (round + 1) (next_offsets size o) a one_thread few (omega arith)
            (next-IsOffsets size blocks round o few (omega arith) v)))

-- On a machine with one processor, where the thread pool that is created has one thread and so does the
-- work units one after the other in the order in which they are pushed, `rpPlanRoutes` does what
-- planning without a pool does, for a matrix of less than 2^32 cells and whatever the number of nodes.
pub plan_threaded-eq-plan_local :
    {W : Type 0} (floats : Floats W) (new_pool : ℕ → Pool W ⊎ ℕ) (pool : Pool W)
    (planner : RoutePlanner W)
    → new_pool 1 ≡ inl pool
    → HasOneThread pool
    → planner.node_count * planner.node_count < 2 ^ 32
    → rp_plan_routes floats 1 new_pool planner
      ≡ plan_with floats (rp_process_chunk_local floats) planner
unfolding rp_plan_routes plan_with
plan_threaded-eq-plan_local floats new_pool pool planner created one_thread small =
    elim (Bool-cases (ltb planner.node_count 1024)) [
      | inl few ↦ rw few refl
      | inr many ↦
          rw
            (
              many,
              created,
              rounds-threaded floats pool (planner.node_count * 16 % 2 ^ 32)
                  (planner.node_count / 16) (planner.node_count / 16) 0 _ planner.edges one_thread
                  (side planner.node_count small) (omega arith)
                  (first-IsOffsets (planner.node_count * 16 % 2 ^ 32) (planner.node_count / 16)
                    (omega arith) (side planner.node_count small)),
            )
            refl
    ]
  where
    root : (n : ℕ) → n * n < 2 ^ 32 → n < 65536
    root n h = grind arith

    side : (n : ℕ) → n * n < 2 ^ 32 → n / 16 ≤ 4096
    side n h = omega (arith, root n h)
