-- ===== src/Setup.antt =====
-- src/netmirage-core/setup.c: what its GraphML client keeps, and what it does with nodes and links. The
-- buffer of node states is a list, and the hash table from names to indices an association list.
pub mod Names
pub mod Links
pub mod Edges
pub mod Clients
mod Tests
use netmirage.Prelude.{
  ℕ, zero, suc, ◌+◌, ◌*◌, ◌%◌, ◌^◌, Bool, true, false, not, ltb, ◌==◌, if◌then◌else◌, List, [], ◌∷◌,
  ◌++◌, length, set, get_elem?, Option, none, some,
}
use netmirage.Prelude.Text.{Text, text_eq}
use netmirage.Mem.Checked.{Outcome, ok, fault, ◌>>=◌}
use netmirage.Ip.Order.{Ip4Addr}
use netmirage.Ip.AddrIter.{Ip4Iter, ip4_iter_next, ip4_iter_addr}
use netmirage.Ip.Mac.{MacAddr, mac_next_addrs}
use netmirage.Graphml.{Decimal, TopoNode, TopoLink, GmlNode, GmlLink}
use netmirage.Route.{Floats, RoutePlanner, rp_new_planner, rp_set_weight}

-- The client subnet is set later; `client_macs` is empty until it is set.
pub record GmlNodeState : Type 0 where
  pub addr : Ip4Addr
  pub is_client : Bool
  pub client_macs : List MacAddr

-- What is asked of the work queue.
pub data Order : Type 0 where
  add_host : ℕ → Ip4Addr → List MacAddr → ℕ → TopoNode → Order
  set_self_link : ℕ → TopoLink → Order
  add_link : ℕ → ℕ → Ip4Addr → Ip4Addr → List MacAddr → ℕ → TopoLink → Order
  ensure_system_scaling : ℕ → ℕ → ℕ → Order
  join : Bool → Order

-- `clients_per_edge` is the quotient of the two numbers, `routes` is `none` for NULL, and `orders`
-- are those that have been sent, the last in front.
pub record GmlContext : Type 0 where
  pub finished_nodes : Bool
  pub ignore_nodes : Bool
  pub ignore_edges : Bool
  pub node_states : List GmlNodeState
  pub node_count : ℕ
  pub client_nodes : ℕ
  pub gml_to_state : List (Text × ℕ)
  pub mtu : ℕ
  pub clients_per_edge : ℕ × ℕ
  pub intf_addr_iter : Ip4Iter
  pub mac_addr_iter : MacAddr
  pub routes : Option (RoutePlanner Decimal)
  pub orders : List Order

abbrev pub needed_macs_link : ℕ
needed_macs_link = 2

abbrev pub needed_macs_client : ℕ
needed_macs_client = 2 * needed_macs_link

-- `g_hash_table_lookup_extended`
unfoldable pub lookup : Text → List (Text × ℕ) → Option ℕ
lookup name [] = none
lookup name ((key, index) ∷ entries) =
    let rest = lookup name entries in if text_eq name key then some index else rest

-- The address, if the iterator was not exhausted.
unfoldable pub gml_generate_ip : GmlContext → GmlContext × Option Ip4Addr
gml_generate_ip ctx =
    let (it, more) = ip4_iter_next ctx.intf_addr_iter in
    (record ctx { intf_addr_iter = it }, if more then some (ip4_iter_addr it) else none)

unfoldable pub new_state : GmlContext → Text → TopoNode → Ip4Addr → GmlContext
new_state ctx name node addr = record ctx {
  node_states =
      ctx.node_states ++ (record { addr = addr; is_client = node.client; client_macs = [] } ∷ []);
  node_count = ctx.node_count + 1;
  gml_to_state = (name, ctx.node_count) ∷ ctx.gml_to_state;
}

-- The index of the state, if there is one or it could be made.
unfoldable pub gml_name_to_state : GmlContext → Text → Option TopoNode → GmlContext × Option ℕ
gml_name_to_state ctx name node =
    let (ctx', addr) = gml_generate_ip ctx in
    let missing : GmlContext × Option ℕ = elim node [
      | none ↦ (ctx, none)
      | some n ↦ elim addr [
        | none ↦ (ctx', none)
        | some a ↦ (new_state ctx' name n a, some ctx.node_count)
      ]
    ] in
    elim (lookup name ctx.gml_to_state) [ some index ↦ (ctx, some index) | none ↦ missing ]

-- The state at an index, which must be in the buffer.
unfoldable pub state_at : GmlContext → ℕ → Outcome GmlNodeState
state_at ctx id = elim (get_elem? (ctx.node_states) id) [ none ↦ fault | some state ↦ ok state ]

-- `answer` is what the functions of work.c return.
module _ (answer : Order → ℕ) where
  abbrev pub send : GmlContext → Order → GmlContext × ℕ
  send ctx order = (record ctx { orders = order ∷ ctx.orders }, answer order)

  -- The new MAC addresses of a client; false if there are none left.
  unfoldable pub client_macs_for : GmlContext → ℕ → GmlNodeState → GmlContext × Bool
  client_macs_for ctx id state =
      let (next, buffer, unwrapped) = mac_next_addrs ctx.mac_addr_iter needed_macs_client in
      let stored = record ctx {
        mac_addr_iter = next;
        node_states = set (ctx.node_states) id (record state { client_macs = buffer });
      } in
      (
        if unwrapped then record stored { client_nodes = ctx.client_nodes + 1 } else stored,
        unwrapped,
      )

  unfoldable pub add_host_at : GmlContext → ℕ → TopoNode → Outcome (GmlContext × ℕ)
  add_host_at ctx id t = do
    state ← state_at ctx id
    ok (send ctx (add_host (id % 2 ^ 32) state.addr state.client_macs ctx.mtu t))

  unfoldable pub add_known_node : GmlContext → ℕ → TopoNode → Outcome (GmlContext × ℕ)
  add_known_node ctx id t = do
    state ← state_at ctx id
    let with_macs = client_macs_for ctx id state
    (if not t.client
        then add_host_at ctx id t
        else if with_macs.1
        then add_host_at with_macs.0 id t
        else ok (with_macs.0, 1))

  unfoldable pub gml_add_node : GmlContext → GmlNode → Outcome (GmlContext × ℕ)
  gml_add_node ctx node =
      let named = gml_name_to_state ctx node.name (some node.t) in
      if ctx.ignore_nodes
      then ok (ctx, 0)
      else if ctx.finished_nodes
      then ok (ctx, 1)
      else elim named.1 [ none ↦ ok (named.0, 1) | some id ↦ add_known_node named.0 id node.t ]

  module _ (floats : Floats Decimal) (edge_node_count : ℕ) where
    -- Each order is only sent if the one before it was answered with 0.
    unfoldable pub gml_on_finished_nodes : GmlContext → Outcome (GmlContext × ℕ)
    gml_on_finished_nodes ctx =
        let worst_case_link_count = ctx.node_count * ctx.node_count % 2 ^ 64 in
        let joined = send ctx (join false) in
        let scaled = send joined.0 (
          ensure_system_scaling worst_case_link_count (ctx.node_count % 2 ^ 32)
            (ctx.client_nodes % 2 ^ 32)) in
        let again = send scaled.0 (join false) in
        let last = again.0 in
        if ltb ctx.client_nodes edge_node_count
        then ok (ctx, 1)
        else if not (joined.1 == 0)
        then ok joined
        else if not (scaled.1 == 0)
        then ok scaled
        else if not (again.1 == 0)
        then ok again
        else (do
          planner ← rp_new_planner floats (ctx.node_count % 2 ^ 32)
          ok (
            record last {
              clients_per_edge = (ctx.client_nodes, edge_node_count);
              routes = some planner;
            },
            0,
          ))

    -- The weight of a link, in both directions; `negative` is `weight < 0.f`.
    unfoldable pub set_weights :
        (Decimal → Bool) → GmlContext → ℕ → ℕ → Decimal → Outcome (GmlContext × ℕ)
    set_weights negative ctx source target weight =
        if negative weight then ok (ctx, 1) else elim ctx.routes [
          | none ↦ fault
          | some planner ↦
              rp_set_weight floats planner (source % 2 ^ 32) (target % 2 ^ 32) weight >>= λ one.
              rp_set_weight floats one (target % 2 ^ 32) (source % 2 ^ 32) weight >>= λ both.
              ok (record ctx { routes = some both }, 0)
        ]

    unfoldable pub connect :
        (Decimal → Bool) → GmlContext → GmlLink → ℕ → ℕ → Outcome (GmlContext × ℕ)
    connect negative ctx link source target = do
      source_state ← state_at ctx source
      target_state ← state_at ctx target
      let macs = mac_next_addrs ctx.mac_addr_iter needed_macs_link
      let moved = record ctx { mac_addr_iter = macs.0 }
      let self_linked = send ctx (set_self_link (source % 2 ^ 32) link.t)
      let linked = send moved (
          add_link (source % 2 ^ 32) (target % 2 ^ 32) source_state.addr target_state.addr macs.1
            ctx.mtu link.t)
      (if source % 2 ^ 32 == target % 2 ^ 32
          then if source_state.is_client then ok self_linked else ok (ctx, 0)
          else if not macs.2
          then ok (moved, 1)
          else if not (linked.1 == 0)
          then ok linked
          else set_weights negative linked.0 source target link.weight)

    unfoldable pub add_named_link :
        (Decimal → Bool) → GmlContext → GmlLink → Outcome (GmlContext × ℕ)
    add_named_link negative ctx link = elim (lookup (link.source_name) ctx.gml_to_state) [
      | none ↦ ok (ctx, 1)
      | some source ↦ elim (lookup (link.target_name) ctx.gml_to_state) [
        | none ↦ ok (ctx, 1)
        | some target ↦ connect negative ctx link source target
      ]
    ]

    unfoldable pub gml_add_link : (Decimal → Bool) → GmlContext → GmlLink → Outcome (GmlContext × ℕ)
    gml_add_link negative ctx link =
        let first = record ctx { finished_nodes = true } in
        if ctx.ignore_edges
        then ok (ctx, 0)
        else if ctx.finished_nodes
        then add_named_link negative ctx link
        else (do
          finished ← gml_on_finished_nodes first
          (if not (finished.1 == 0) then ok finished else add_named_link negative finished.0 link))
