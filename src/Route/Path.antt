-- ===== src/Route/Path.antt =====
-- The reconstruction of a route: `rpGetRoute`.
use netmirage.Prelude.{
  ℕ, zero, suc, ◌≤◌, ◌<◌, ◌≡◌, ◌≢◌, refl, sym, ap, ◌∙◌, ◌⊎◌, true, false, List, [], ◌∷◌, length,
  le→ltb_false, none, some, arith,
}
use netmirage.Mem.Checked.{Outcome, ok, abort, fault}
use netmirage.Route.{
  Floats, EdgeInfo, RoutePlanner, rp_new_planner, rp_edge, rp_set_weight, rp_get_route, follow,
}
use netmirage.Route.Layout.Cells.{set_weight_lookup}
use netmirage.Route.Layout.Fresh.{new_planner_cells}

module _ {W : Type 0} (floats : Floats W) where
  module _ (planner : RoutePlanner W) (end : ℕ) where
    -- From a node, the next nodes in the cells lead over a path to the end, met there first.
    abbrev pub Leads : ℕ → List ℕ → Type 0
    Leads node [] = node ≡ end
    Leads node (next ∷ path) =
        (node ≢ end)
        × ((edge : EdgeInfo W) × (rp_edge floats planner node end ≡ ok edge) × (edge.next ≡ next))
        × Leads next path

    follow-Leads :
        (path : List ℕ) (fuel node : ℕ)
        → Leads node path
        → length path < fuel
        → follow floats fuel planner node end ≡ ok (some path)
    unfolding follow
    follow-Leads path zero node leads h = absurd (omega arith)
    follow-Leads [] (suc fuel) node leads h = ground arith
    follow-Leads (next ∷ path) (suc fuel) node (differ, (edge, found, points), leads) h =
        ground (arith, found, points, follow-Leads path fuel next leads (omega arith))

    -- If the next nodes lead from the start to the end, and the weight of the two is not infinite,
    -- then `rpGetRoute` terminates with that path, the start in front: any fuel above the length of
    -- the path is enough. (The path has less than 2^32 - 2 steps.)
    pub get_route-Leads :
        (start : ℕ) (path : List ℕ) (edge : EdgeInfo W) (fuel : ℕ)
        → rp_edge floats planner start end ≡ ok edge
        → floats.equal edge.weight floats.infinity ≡ false
        → Leads start path
        → length path < fuel
        → length path < 4294967294
        → rp_get_route floats fuel planner start end ≡ ok (some (some (start ∷ path)))
    unfolding rp_get_route
    get_route-Leads start path edge fuel found finite leads h short =
        rw (found, finite, follow-Leads path fuel start leads h)
          (rw (le→ltb_false 4294967294 (suc (length path)) short) refl)

  no_route :
      (planner : RoutePlanner W) (fuel start end : ℕ) (edge : EdgeInfo W)
      → rp_edge floats planner start end ≡ ok edge
      → floats.equal edge.weight floats.infinity ≡ true
      → rp_get_route floats fuel planner start end ≡ ok (some none)
  unfolding rp_get_route
  no_route planner fuel start end edge found infinite = rw (found, infinite) refl

  next_of : Outcome (EdgeInfo W) → ℕ
  next_of m = elim m [ ok edge ↦ edge.next | abort ↦ 0 | fault ↦ 0 ]

  next_same : (m : Outcome (EdgeInfo W)) (e f : EdgeInfo W) → m ≡ ok e → m ≡ ok f → e.next ≡ f.next
  unfolding next_of
  next_same m e f h k = ap next_of (sym h ∙ k)

  -- A planner for up to 65520 nodes in which only the weight of one pair of different nodes has been
  -- set, to one that is not infinite: the route of that pair is the direct one, and every other pair
  -- has no route.
  pub one_weight_routes :
      (node_count from to : ℕ) (weight : W)
      → node_count ≤ 65520
      → from < node_count
      → to < node_count
      → from ≢ to
      → floats.equal weight floats.infinity ≡ false
      → floats.equal floats.infinity floats.infinity ≡ true
      → (planner : RoutePlanner W) × (new : RoutePlanner W) × (rp_new_planner floats node_count
          ≡ ok planner)
        × (rp_set_weight floats planner from to weight ≡ ok new)
        × ((fuel : ℕ)
            → 2 ≤ fuel
            → rp_get_route floats fuel new from to ≡ ok (some (some (from ∷ to ∷ []))))
        × ((fuel from' to' : ℕ)
            → from' < node_count
            → to' < node_count
            → (from ≢ from') ⊎ (to ≢ to')
            → rp_get_route floats fuel new from' to' ≡ ok (some none))
  one_weight_routes node_count from to weight few hf ht differ finite same =
      let (planner, created, valid, more, less, cells) = new_planner_cells floats node_count few in
      let (old, new, found, changed, updated, others, valid', count) =
        set_weight_lookup floats planner from to weight valid (omega (arith, more))
          (omega (arith, more)) in
      (
        planner,
        new,
        created,
        changed,
        (λ fuel h.
            get_route-Leads new to from (to ∷ []) (record old { weight = weight }) fuel updated
              finite
              (
                differ,
                (
                  record old { weight = weight },
                  updated,
                  next_same (rp_edge floats planner from to) old
                      (record { weight = floats.infinity; next = to }) found
                      (cells from to (omega (arith, more)) (omega (arith, more))),
                ),
                refl,
              )
              (omega arith) (omega arith)),
        (λ fuel from' to' hf' ht' other.
            no_route new fuel from' to' (record { weight = floats.infinity; next = to' })
              (others from' to' (omega (arith, more)) (omega (arith, more)) other
                ∙ cells from' to' (omega (arith, more)) (omega (arith, more)))
              same),
      )
