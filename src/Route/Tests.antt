-- ===== src/Route/Tests.antt =====
-- Runs of the route planner on small matrices, and the theorems at such inputs.
use netmirage.Prelude.{
  ℕ, ◌+◌, ◌*◌, ◌≤◌, ◌<◌, ◌≡◌, ◌≢◌, refl, ◌⊎◌, inl, Bool, true, false, ltb, ◌==◌, Option, none, some,
  List, [], ◌∷◌, replicate, arith,
}
use netmirage.Mem.Checked.{Outcome, ok, emul_32, ◌>>=◌}
use netmirage.Route.{
  Floats, EdgeInfo, RoutePlanner, rp_edge_index, rp_new_planner, rp_edge, rp_set_weight,
  rp_get_route, follow, fill_cols, fill_rows, fill_block_cols, fill_block_rows,
}
use netmirage.Route.Chunk.{
  relax, rp_process_block, local_cols, local_rows, rp_process_chunk_local, Pool, run_units,
  pushed_units, rp_process_partial_chunk,
}
use netmirage.Route.Chunk.Units.{pushed_units-eq-local}
use netmirage.Route.Plan.{
  plan_with, rounds, ranges, first_offsets, next_offsets, process_all, rp_plan_routes,
}
use netmirage.Route.Plan.Threads.{plan_threaded-eq-plan_local}
use netmirage.Route.Layout.{IsBlocked, edge_index_injective}
use netmirage.Route.Layout.Cells.{set_weight_lookup}
use netmirage.Route.Layout.Fresh.{new_planner_cells}
use netmirage.Route.Path.{get_route-Leads, one_weight_routes}

-- Whole weights; `none` is infinite.
abbrev plus : Option ℕ → Option ℕ → Option ℕ
plus none y = none
plus (some a) none = none
plus (some a) (some b) = some (a + b)

abbrev less : Option ℕ → Option ℕ → Bool
less none y = false
less (some a) none = true
less (some a) (some b) = ltb a b

abbrev equal : Option ℕ → Option ℕ → Bool
equal none none = true
equal none (some b) = false
equal (some a) none = false
equal (some a) (some b) = a == b

abbrev whole : Floats (Option ℕ)
whole = record { infinity = none; add = plus; less = less; equal = equal }

abbrev cell : EdgeInfo (Option ℕ)
cell = record { weight = some 3; next = 5 }

abbrev small : RoutePlanner (Option ℕ)
small = record { edges = replicate 256 cell; node_count = 16 }

abbrev large : RoutePlanner (Option ℕ)
large = record { edges = replicate (1024 * 1024) cell; node_count = 1024 }

small-IsBlocked : IsBlocked small
small-IsBlocked = record { aligned = refl; area = omega arith; cells = refl }

abbrev early : ℕ
early = 3

abbrev late : ℕ
late = 17

edge_index_injective_example :
    (rp_edge_index 32 late early < 32 * 32)
    × (rp_edge_index 32 late early ≡ rp_edge_index 32 early late → (late ≡ early) × (early ≡ late))
edge_index_injective_example =
    edge_index_injective 32 late early early late refl (omega arith) (omega arith)

set_weight_lookup_example :
    (old : EdgeInfo (Option ℕ)) × (new : RoutePlanner (Option ℕ)) × (rp_edge whole small 2 7
      ≡ ok old)
    × (rp_set_weight whole small 2 7 (some 1) ≡ ok new)
    × (rp_edge whole new 2 7 ≡ ok (record old { weight = some 1 }))
    × ((from' to' : ℕ)
        → from' < 16
        → to' < 16
        → (2 ≢ from') ⊎ (7 ≢ to')
        → rp_edge whole new from' to' ≡ rp_edge whole small from' to')
    × IsBlocked new
    × (new.node_count ≡ 16)
set_weight_lookup_example =
    set_weight_lookup whole small 2 7 (some 1) small-IsBlocked (omega arith) (omega arith)

new_planner_cells_example :
    (planner : RoutePlanner (Option ℕ)) × (rp_new_planner whole 20 ≡ ok planner)
    × IsBlocked planner
    × (20 ≤ planner.node_count)
    × (planner.node_count < 20 + 16)
    × ((from to : ℕ)
        → from < planner.node_count
        → to < planner.node_count
        → rp_edge whole planner from to ≡ ok (record { weight = none; next = to }))
new_planner_cells_example = new_planner_cells whole 20 (omega arith)

get_route-Leads_example : rp_get_route whole 3 small 2 5 ≡ ok (some (some (2 ∷ 5 ∷ [])))
unfolding rp_edge rp_edge_index
get_route-Leads_example =
    get_route-Leads whole small 5 2 (5 ∷ []) cell 3 refl refl
      (omega arith, (cell, refl, refl), refl) (omega arith) (omega arith)

one_weight_routes_example :
    (planner : RoutePlanner (Option ℕ)) × (new : RoutePlanner (Option ℕ)) × (rp_new_planner whole 20
      ≡ ok planner)
    × (rp_set_weight whole planner 2 18 (some 4) ≡ ok new)
    × ((fuel : ℕ) → 2 ≤ fuel → rp_get_route whole fuel new 2 18 ≡ ok (some (some (2 ∷ 18 ∷ []))))
    × ((fuel from' to' : ℕ)
        → from' < 20
        → to' < 20
        → (2 ≢ from') ⊎ (18 ≢ to')
        → rp_get_route whole fuel new from' to' ≡ ok (some none))
one_weight_routes_example =
    one_weight_routes whole 20 2 18 (some 4) (omega arith) (omega arith) (omega arith) (omega arith)
      refl refl

pushed_units-eq-local_example :
    run_units
      (rp_process_partial_chunk whole 16384 3 4 128 0 64)
      (pushed_units whole 16384 3 4)
      (large.edges)
    ≡ rp_process_chunk_local whole 16384 3 4 0 64 128 (large.edges)
pushed_units-eq-local_example =
    pushed_units-eq-local whole 16384 3 4 0 64 128 (large.edges) (omega arith) (omega arith)
      (omega arith) (omega arith)

-- As many threads as are asked for, which here take turns.
abbrev some_pool : ℕ → Pool (Option ℕ) ⊎ ℕ
some_pool threads = inl run_units

plan_threaded-eq-plan_local_example :
    rp_plan_routes whole 1 some_pool large ≡ plan_with whole (rp_process_chunk_local whole) large
plan_threaded-eq-plan_local_example =
    plan_threaded-eq-plan_local whole some_pool run_units large refl (λ unit pushed edges. refl)
      (omega arith)

abbrev path_of_three : Outcome (Option (Option (List ℕ)))
path_of_three = do
  planner ← rp_new_planner whole 3
  one ← rp_set_weight whole planner 0 1 (some 2)
  two ← rp_set_weight whole one 1 2 (some 2)
  three ← rp_set_weight whole two 0 2 (some 9)
  planned ← rp_plan_routes whole 4 some_pool three
  rp_get_route whole 5 planned.0 0 2

path_planned : path_of_three ≡ ok (some (some (0 ∷ 1 ∷ 2 ∷ [])))
unfolding rp_new_planner rp_set_weight rp_plan_routes rp_get_route rp_edge rp_edge_index follow
    plan_with rounds ranges first_offsets next_offsets process_all rp_process_chunk_local local_rows
    local_cols rp_process_block relax fill_cols fill_rows fill_block_cols fill_block_rows emul_32
path_planned = refl
