-- ===== src/Setup/Links.antt =====
-- What a link of the topology does to the route planner.
use netmirage.Prelude.{
  ℕ, ◌%◌, ◌^◌, ◌≤◌, ◌<◌, ◌≡◌, ◌≢◌, refl, sym, ◌∙◌, inl, Bool, true, false, ◌==◌, length, none, some,
  arith, get_elem?-some,
}
use netmirage.Mem.Checked.{ok, fault}
use netmirage.Ip.Mac.{mac_next_addrs}
use netmirage.Graphml.{Decimal, GmlLink}
use netmirage.Route.{Floats, EdgeInfo, RoutePlanner, rp_edge, rp_set_weight}
use netmirage.Route.Layout.{IsBlocked}
use netmirage.Route.Layout.Cells.{set_weight_lookup}
use netmirage.Setup.{
  GmlNodeState, GmlContext, Order, add_link, send, lookup, state_at, set_weights, connect,
  add_named_link, gml_add_link, needed_macs_link,
}
use netmirage.Setup.Names.{IsNamed}

module _ (floats : Floats Decimal) where
  -- The weight of a cell.
  unfoldable pub HasWeight : RoutePlanner Decimal → ℕ → ℕ → Decimal → Type 0
  HasWeight planner from to weight =
      (edge : EdgeInfo Decimal) × (rp_edge floats planner from to ≡ ok edge)
      × (edge.weight ≡ weight)

  -- A planner in which both directions have a weight.
  record Weighted (old : RoutePlanner Decimal) (i j : ℕ) (weight : Decimal)
      (new : RoutePlanner Decimal) : Type 0 where
    forth : HasWeight new i j weight
    back : HasWeight new j i weight
    blocked : IsBlocked new
    count : new.node_count ≡ old.node_count

  both_weights :
      (planner : RoutePlanner Decimal) (i j : ℕ) (weight : Decimal)
      → IsBlocked planner
      → i < planner.node_count
      → j < planner.node_count
      → i ≢ j
      → (one : RoutePlanner Decimal) × (both : RoutePlanner Decimal) × (rp_set_weight floats planner
            i j weight
          ≡ ok one)
        × (rp_set_weight floats one j i weight ≡ ok both)
        × Weighted planner i j weight both
  unfolding HasWeight
  both_weights planner i j weight v hi hj differ =
      let (old, one, found, set, updated, others, v', count) =
        set_weight_lookup floats planner i j weight v hi hj in
      let (old', both, found', set', updated', others', v'', count') =
        set_weight_lookup floats one j i weight v' (omega (arith, count)) (omega (arith, count)) in
      (
        one,
        both,
        set,
        set',
        record {
          forth = (
            record old { weight = weight },
            others' i j (omega (arith, count)) (omega (arith, count)) (inl (λ e. differ (sym e)))
                ∙ updated,
            refl,
          );
          back = (record old' { weight = weight }, updated', refl);
          blocked = v'';
          count = count' ∙ count;
        },
      )

not_same : (i j : ℕ) → i < 65536 → j < 65536 → i ≢ j → ((i % 2 ^ 32) == (j % 2 ^ 32)) ≡ false
not_same i j h k differ = ground arith

word : (i : ℕ) → i < 65536 → i % 2 ^ 32 ≡ i
word i h = omega arith

-- A link between two different nodes that have states at `i` and `j`.
pub record Joins (ctx : GmlContext) (link : GmlLink) (i j : ℕ) : Type 0 where
  pub source : lookup link.source_name ctx.gml_to_state ≡ some i
  pub target : lookup link.target_name ctx.gml_to_state ≡ some j
  pub differ : i ≢ j
  pub named : IsNamed ctx
  pub few : ctx.node_count ≤ 65520

module _ (answer : Order → ℕ) (floats : Floats Decimal) (edge_node_count : ℕ)
    (negative : Decimal → Bool) where
  -- What is left of the context when the link has been ordered.
  ordered : GmlContext → GmlLink → ℕ → ℕ → GmlNodeState → GmlNodeState → GmlContext
  ordered ctx link i j s t =
      let macs = mac_next_addrs ctx.mac_addr_iter needed_macs_link in
      (send answer (record ctx { mac_addr_iter = macs.0 })
        (add_link (i % 2 ^ 32) (j % 2 ^ 32) s.addr t.addr macs.1 ctx.mtu link.t)).0

  past_finished :
      (ctx : GmlContext) (link : GmlLink)
      → ctx.ignore_edges ≡ false
      → ctx.finished_nodes ≡ true
      → gml_add_link answer floats edge_node_count negative ctx link
        ≡ add_named_link answer floats edge_node_count negative ctx link
  unfolding gml_add_link
  past_finished ctx link taken finished = simp (taken, finished) refl

  past_names :
      (ctx : GmlContext) (link : GmlLink) (i j : ℕ)
      → lookup link.source_name ctx.gml_to_state ≡ some i
      → lookup link.target_name ctx.gml_to_state ≡ some j
      → add_named_link answer floats edge_node_count negative ctx link
        ≡ connect answer floats edge_node_count negative ctx link i j
  unfolding add_named_link
  past_names ctx link i j source target = rw (source, target, add_named_link) refl

  state_known :
      (ctx : GmlContext) (i : ℕ)
      → i < length ctx.node_states
      → (state : GmlNodeState) × (state_at ctx i ≡ ok state)
  unfolding state_at
  state_known ctx i h =
      let (state, found) = get_elem?-some ctx.node_states i h in (state, rw (found, state_at) refl)

  past_order :
      (ctx : GmlContext) (link : GmlLink) (i j : ℕ) (s t : GmlNodeState)
      → state_at ctx i ≡ ok s
      → state_at ctx j ≡ ok t
      → ((i % 2 ^ 32) == (j % 2 ^ 32)) ≡ false
      → (mac_next_addrs ctx.mac_addr_iter needed_macs_link).2 ≡ true
      → ((order : Order) → answer order ≡ 0)
      → connect answer floats edge_node_count negative ctx link i j
        ≡ set_weights answer floats edge_node_count negative
            (ordered ctx link i j s t)
            i
            j
            link.weight
  unfolding connect ordered
  past_order ctx link i j s t at_s at_t apart more fine = simp (at_s, at_t, apart, more, fine) refl

  link_ordered :
      (ctx : GmlContext) (link : GmlLink) (i j : ℕ)
      → Joins ctx link i j
      → ctx.ignore_edges ≡ false
      → ctx.finished_nodes ≡ true
      → (mac_next_addrs ctx.mac_addr_iter needed_macs_link).2 ≡ true
      → ((order : Order) → answer order ≡ 0)
      → (s : GmlNodeState) × (t : GmlNodeState) × (gml_add_link answer floats edge_node_count
            negative ctx link
          ≡ set_weights answer floats edge_node_count negative
              (ordered ctx link i j s t)
              i
              j
              link.weight)
  link_ordered ctx link i j v taken finished more fine =
      let hi = v.named.bounded link.source_name i v.source in
      let hj = v.named.bounded link.target_name j v.target in
      let (s, at_s) = state_known ctx i (omega (arith, v.named.counted, hi)) in
      let (t, at_t) = state_known ctx j (omega (arith, v.named.counted, hj)) in
      (
        s,
        t,
        past_finished ctx link taken finished
            ∙ past_names ctx link i j v.source v.target
            ∙ past_order ctx link i j s t at_s at_t
                (not_same i j (omega (arith, v.few, hi)) (omega (arith, v.few, hj)) v.differ) more
                fine,
      )

  -- A link between two different nodes, when the nodes have been finished but no route planner has
  -- been made: if the work queue returns no error, there are MAC addresses left and the weight is not
  -- negative, then `gmlAddLink` follows the NULL pointer to the planner.
  pub link_without_routes_faults :
      (ctx : GmlContext) (link : GmlLink) (i j : ℕ)
      → Joins ctx link i j
      → ctx.ignore_edges ≡ false
      → ctx.finished_nodes ≡ true
      → (mac_next_addrs ctx.mac_addr_iter needed_macs_link).2 ≡ true
      → ((order : Order) → answer order ≡ 0)
      → negative link.weight ≡ false
      → ctx.routes ≡ none
      → gml_add_link answer floats edge_node_count negative ctx link ≡ fault
  unfolding set_weights ordered
  link_without_routes_faults ctx link i j v taken finished more fine positive no_routes =
      let (s, t, e) = link_ordered ctx link i j v taken finished more fine in
      e ∙ simp (positive, no_routes) refl

  -- Under the same conditions, but with a route planner for all the nodes, `gmlAddLink` returns 0
  -- and leaves a planner in which both directions of the link have its weight.
  pub link_weights :
      (ctx : GmlContext) (link : GmlLink) (i j : ℕ) (planner : RoutePlanner Decimal)
      → Joins ctx link i j
      → ctx.ignore_edges ≡ false
      → ctx.finished_nodes ≡ true
      → (mac_next_addrs ctx.mac_addr_iter needed_macs_link).2 ≡ true
      → ((order : Order) → answer order ≡ 0)
      → negative link.weight ≡ false
      → ctx.routes ≡ some planner
      → IsBlocked planner
      → ctx.node_count ≤ planner.node_count
      → (new : GmlContext) × (both : RoutePlanner Decimal) × (gml_add_link answer floats
            edge_node_count negative ctx link
          ≡ ok (new, 0))
        × (new.routes ≡ some both)
        × HasWeight floats both i j link.weight
        × HasWeight floats both j i link.weight
        × IsBlocked both
        × (both.node_count ≡ planner.node_count)
  unfolding set_weights ordered
  link_weights ctx link i j planner v taken finished more fine positive routes blocked room =
      let (s, t, e) = link_ordered ctx link i j v taken finished more fine in
      let hi = v.named.bounded link.source_name i v.source in
      let hj = v.named.bounded link.target_name j v.target in
      let (one, both, first, second, w) =
        both_weights floats planner i j link.weight blocked (omega (arith, hi)) (omega (arith, hj))
          v.differ in
      (
        record (ordered ctx link i j s t) { routes = some both },
        both,
        e
            ∙ simp
                (
                  positive,
                  routes,
                  word i (omega (arith, hi, v.few)),
                  word j (omega (arith, hj, v.few)),
                  first,
                  second,
                )
                refl,
        refl,
        w.forth,
        w.back,
        w.blocked,
        w.count,
      )
