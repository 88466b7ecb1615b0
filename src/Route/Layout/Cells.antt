-- ===== src/Route/Layout/Cells.antt =====
-- Reading and writing the cell of two nodes: `rpEdgePtr` and `rpSetWeight`.
use netmirage.Prelude.{
  ℕ, ◌<◌, ◌≡◌, ◌≢◌, refl, ap, ◌∙◌, ◌⊎◌, inl, inr, List, set, get_elem?, some, arith, length-set,
  get_elem?-some, get_elem?-set_self, get_elem?-set_ne,
}
use netmirage.Mem.Checked.{ok, ◌>>=◌}
use netmirage.Route.{Floats, EdgeInfo, RoutePlanner, rp_edge_index, rp_edge, rp_set_weight, at}
use netmirage.Route.Layout.{IsBlocked, edge_index_injective}

pub at-some : {A : Type 0} (xs : List A) (i : ℕ) {x : A} → get_elem? xs i ≡ some x → at xs i ≡ ok x
at-some xs i h = rw (h, at) refl

same_at :
    {A : Type 0} (xs ys : List A) (i : ℕ) → get_elem? xs i ≡ get_elem? ys i → at xs i ≡ at ys i
same_at xs ys i h = rw (h, at) refl

module _ {W : Type 0} (floats : Floats W) where
  -- `rpSetWeight` on two nodes of a planner: it stays within the array; the two nodes' cell then has
  -- the weight and the next node that it had, and the cells of all other pairs are as they were.
  pub set_weight_lookup :
      (planner : RoutePlanner W) (from to : ℕ) (weight : W)
      → IsBlocked planner
      → from < planner.node_count
      → to < planner.node_count
      → (old : EdgeInfo W) × (new : RoutePlanner W) × (rp_edge floats planner from to ≡ ok old)
        × (rp_set_weight floats planner from to weight ≡ ok new)
        × (rp_edge floats new from to ≡ ok (record old { weight = weight }))
        × ((from' to' : ℕ)
            → from' < planner.node_count
            → to' < planner.node_count
            → (from ≢ from') ⊎ (to ≢ to')
            → rp_edge floats new from' to' ≡ rp_edge floats planner from' to')
        × IsBlocked new
        × (new.node_count ≡ planner.node_count)
  unfolding rp_set_weight rp_edge
  set_weight_lookup planner from to weight v hf ht =
      let index = rp_edge_index planner.node_count from to in
      let inside =
        (edge_index_injective planner.node_count from to from to v.aligned v.area
          (hf, ht, hf, ht)).0 in
      let (old, found) = get_elem?-some planner.edges index (omega (arith, inside, v.cells)) in
      (
        old,
        record planner { edges = set (planner.edges) index (record old { weight = weight }) },
        at-some planner.edges index found,
        ap
            (λ m. m >>= λ edge. ok (record planner {
              edges = set (planner.edges) index (record edge { weight = weight });
            }))
            (at-some planner.edges index found),
        at-some (set planner.edges index (record old { weight = weight })) index (
            get_elem?-set_self planner.edges index (record old { weight = weight })
              (omega (arith, inside, v.cells))),
        (λ from' to' hf' ht' other.
            same_at (set planner.edges index (record old { weight = weight })) planner.edges
              (rp_edge_index planner.node_count from' to')
              (get_elem?-set_ne planner.edges index (rp_edge_index planner.node_count from' to')
                (record old { weight = weight }) (apart from' to' hf' ht' other))),
        record {
          aligned = v.aligned;
          area = v.area;
          cells = length-set (planner.edges) index (record old { weight = weight }) ∙ v.cells;
        },
        refl,
      )
    where
      apart :
          (from' to' : ℕ)
          → from' < planner.node_count
          → to' < planner.node_count
          → (from ≢ from') ⊎ (to ≢ to')
          → rp_edge_index planner.node_count from to ≢ rp_edge_index planner.node_count from' to'
      apart from' to' hf' ht' other same =
          let equal =
            (edge_index_injective planner.node_count from to from' to' v.aligned v.area
                (hf, ht, hf', ht')).1
              same in
          elim other [ inl differ ↦ differ equal.0 | inr differ ↦ differ equal.1 ]
