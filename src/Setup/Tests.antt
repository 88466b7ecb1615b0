-- ===== src/Setup/Tests.antt =====
-- The theorems on src/netmirage-core/setup.c for a topology of two nodes.
use netmirage.Prelude.{
  ℕ, ◌≡◌, refl, ◌∙◌, sym, Bool, true, false, none, some, [], ◌∷◌, replicate, Bool-cases, ◌⊎◌, inl,
  inr, arith, List, ◌*◌, ◌/◌, ◌+◌, length,
}
use netmirage.Prelude.Text.{Text, codes, text_eq, text_eq_iff}
use netmirage.Mem.Checked.{ok, fault}
use netmirage.Ip.Mac.{mac_next_addr, mac_next_addrs}
use netmirage.Graphml.{Decimal, zero_decimal, infinity, strtof, GmlNode, GmlLink}
use netmirage.Route.{Floats, RoutePlanner}
use netmirage.Route.Layout.{IsBlocked}
use netmirage.Setup.{GmlNodeState, GmlContext, Order, lookup, gml_add_node, gml_add_link}
use netmirage.Ip.Order.{ntohl, htonl}
use netmirage.Ip.Subnet.{
  Ip4Subnet, IsValid, ip4_subnets_overlap, ip4_subnet_mask, ip4_host_mask, ip4_subnet_size,
}
use netmirage.Ip.Fragment.{
  ip4_fragment_subnet, ip4_frag_iter_next, ip4_frag_iter_subnet, smaller_pow2,
}
use netmirage.Setup.Edges.{
  EdgeNodeParams, SetupParams, Answers, with_mac, complete_edge, complete_edges, provide_subnets,
  configure_subnets, setup_configure, any_overlap, overlaps_one,
}
use netmirage.Setup.Clients.{ClientContext, client_subnets}
use netmirage.Setup.Clients.Assigned.{Assigned, client_subnets-Assigned}
use netmirage.Setup.Edges.Disjoint.{PairwiseDisjoint, configured_apart}
use netmirage.Setup.Names.{IsNamed, Keeps, add_node_names}
use netmirage.Setup.Links.{Joins, HasWeight, link_without_routes_faults, link_weights}

-- Every order is answered with 0, and no weight is negative.
abbrev fine : Order → ℕ
fine order = 0

abbrev never : Decimal → Bool
never weight = false

abbrev floats : Floats Decimal
floats = record { infinity = infinity; add = λ x y. x; less = λ x y. false; equal = λ x y. false }

abbrev state : GmlNodeState
state = record { addr = 10; is_client = false; client_macs = [] }

abbrev two_nodes : GmlContext
two_nodes = record {
  finished_nodes = false;
  ignore_nodes = false;
  ignore_edges = false;
  node_states = state ∷ state ∷ [];
  node_count = 2;
  client_nodes = 0;
  gml_to_state = (codes "b", 1) ∷ (codes "a", 0) ∷ [];
  mtu = 0;
  clients_per_edge = (0, 1);
  intf_addr_iter = record { next_addr = 11; final_addr = 20; ignores = [] };
  mac_addr_iter = record { octets = 0 ∷ 0 ∷ 0 ∷ 0 ∷ 0 ∷ 1 ∷ [] };
  routes = none;
  orders = [];
}

abbrev finished : GmlContext
finished = record two_nodes { finished_nodes = true }

abbrev planner : RoutePlanner Decimal
planner = record { edges = replicate 256 (record { weight = infinity; next = 0 }); node_count = 16 }

abbrev planned : GmlContext
planned = record finished { routes = some planner }

abbrev node_c : GmlNode
node_c = record {
  name = codes "c";
  t = record {
    client = true;
    packet_loss = zero_decimal;
    bandwidth_up = zero_decimal;
    bandwidth_down = zero_decimal;
  };
}

abbrev link : GmlLink
link = record {
  source_name = codes "a";
  target_name = codes "b";
  weight = strtof (codes "2.5");
  t = record {
    latency = zero_decimal;
    packet_loss = zero_decimal;
    jitter = zero_decimal;
    queue_len = 0;
  };
}

-- The two names, and nothing else.
names_known :
    (name : Text) (i : ℕ)
    → lookup name ((codes "b", 1) ∷ (codes "a", 0) ∷ []) ≡ some i
    → ((name ≡ codes "b") × (i ≡ 1)) ⊎ ((name ≡ codes "a") × (i ≡ 0))
unfolding lookup
names_known name i h = elim (Bool-cases (text_eq name (codes "b"))) [
  | inl b ↦ inl ((text_eq_iff name (codes "b")).0 b, sym (some_same 1 i (rw b at h)))
  | inr other ↦ elim (Bool-cases (text_eq name (codes "a"))) [
    | inl a ↦ inr ((text_eq_iff name (codes "a")).0 a, sym (some_same 0 i (rw (other, a) at h)))
    | inr neither ↦ absurd (nothing (rw (other, neither) at h))
  ]
]
  where
    some_same : (m n : ℕ) → some m ≡ some n → m ≡ n
    some_same m n h = cc

    nothing : none ≡ some i → ⊥
    nothing h = cc

two_nodes-Named : IsNamed two_nodes
two_nodes-Named = record {
  counted = refl;
  bounded = λ name i h. elim (names_known name i h) [
    | inl b ↦ omega (arith, b.1)
    | inr a ↦ omega (arith, a.1)
  ];
  distinct = λ m n i h k. elim (names_known m i h) [
    | inl b ↦ elim (names_known n i k) [
      | inl b' ↦ b.0 ∙ sym b'.0
      | inr a' ↦ absurd (omega (arith, b.1, a'.1))
    ]
    | inr a ↦ elim (names_known n i k) [
      | inl b' ↦ absurd (omega (arith, a.1, b'.1))
      | inr a' ↦ a.0 ∙ sym a'.0
    ]
  ];
}

planner-IsBlocked : IsBlocked planner
planner-IsBlocked = record { aligned = refl; area = omega arith; cells = refl }

finished-Joins : Joins finished link 0 1
unfolding lookup text_eq
finished-Joins = record {
  source = refl;
  target = refl;
  differ = omega arith;
  named = two_nodes-Named;
  few = omega arith;
}

planned-Joins : Joins planned link 0 1
unfolding lookup text_eq
planned-Joins = record {
  source = refl;
  target = refl;
  differ = omega arith;
  named = two_nodes-Named;
  few = omega arith;
}

add_node_names_example :
    (out : GmlContext × ℕ) × (gml_add_node fine two_nodes node_c ≡ ok out)
    × IsNamed out.0
    × Keeps two_nodes out.0
    × (false ≡ false → out.1 ≡ 0 → (id : ℕ) × (lookup (codes "c") out.0.gml_to_state ≡ some id))
add_node_names_example = add_node_names fine two_nodes node_c two_nodes-Named

link_without_routes_faults_example : gml_add_link fine floats 1 never finished link ≡ fault
unfolding mac_next_addrs mac_next_addr
link_without_routes_faults_example =
    link_without_routes_faults fine floats 1 never finished link 0 1 finished-Joins refl refl refl
      (λ order. refl) refl refl

link_weights_example :
    (new : GmlContext) × (both : RoutePlanner Decimal) × (gml_add_link fine floats 1 never planned
        link
      ≡ ok (new, 0))
    × (new.routes ≡ some both)
    × HasWeight floats both 0 1 (strtof (codes "2.5"))
    × HasWeight floats both 1 0 (strtof (codes "2.5"))
    × IsBlocked both
    × (both.node_count ≡ 16)
unfolding mac_next_addrs mac_next_addr
link_weights_example =
    link_weights fine floats 1 never planned link 0 1 planner planned-Joins refl refl refl
      (λ order. refl) refl refl planner-IsBlocked (omega arith)

-- Two edge nodes that share out 10.0.0.0/8.
abbrev edge : EdgeNodeParams
edge = record {
  ip = 16885952;
  intf = some (codes "eth0");
  mac_specified = true;
  mac = record { octets = 2 ∷ 0 ∷ 0 ∷ 0 ∷ 0 ∷ 1 ∷ [] };
  vsubnet_specified = false;
  vsubnet = record { addr = 0; prefix_len = 0 };
}

abbrev params : SetupParams
params = record {
  destroy_only = false;
  keep_old_networks = true;
  quiet = true;
  edge_nodes = edge ∷ edge ∷ [];
  default_intf = none;
  global_vsubnet = record { addr = 10; prefix_len = 8 };
}

abbrev answers : Answers
answers = record {
  work_configure = 0;
  work_join = 0;
  destroy_network = 0;
  work_get_edge_remote_mac = λ intf ip. (record { octets = [] }, 1);
  edge_file_opens = true;
}

abbrev lower : EdgeNodeParams
lower = record edge { vsubnet = record { addr = 10; prefix_len = 9 } }

abbrev upper : EdgeNodeParams
upper = record edge { vsubnet = record { addr = 32778; prefix_len = 9 } }

params_configured : setup_configure answers params ≡ (lower ∷ upper ∷ [], 0)
unfolding setup_configure complete_edges complete_edge with_mac configure_subnets provide_subnets
    any_overlap overlaps_one ip4_subnets_overlap ip4_subnet_mask ip4_host_mask ip4_subnet_size
    ip4_fragment_subnet ip4_frag_iter_next ip4_frag_iter_subnet smaller_pow2 ntohl htonl
params_configured = refl

lower-IsValid : IsValid lower.vsubnet
unfolding ntohl
lower-IsValid = record { short = omega arith; word = omega arith; aligned = refl }

upper-IsValid : IsValid upper.vsubnet
unfolding ntohl
upper-IsValid = record { short = omega arith; word = omega arith; aligned = refl }

configured_apart_example : PairwiseDisjoint (lower ∷ upper ∷ [])
configured_apart_example =
    configured_apart answers params (lower ∷ upper ∷ []) refl params_configured
      (lower-IsValid, (upper-IsValid, tt))

-- `round(1.5 * i)`
abbrev three_by_two : ℕ → ℕ
three_by_two i = (3 * i + 1) / 2

abbrev no_client_yet : ClientContext
no_client_yet = record { current_edge_idx = 9; current_edge_clients = 9; client_iter = none }

client_subnets-Assigned_example :
    (given : List Ip4Subnet) × (client_subnets three_by_two
        (lower.vsubnet ∷ upper.vsubnet ∷ [])
        3
        no_client_yet
      ≡ ok given)
    × Assigned three_by_two 0 (lower.vsubnet ∷ upper.vsubnet ∷ []) given
    × (length given ≡ 3)
client_subnets-Assigned_example =
    client_subnets-Assigned three_by_two (lower.vsubnet ∷ upper.vsubnet ∷ []) 3 no_client_yet
      (λ i. omega arith) refl refl (omega arith)
      (
        record {
          valid = lower-IsValid;
          some_clients = omega arith;
          fits = omega arith;
          small = omega arith;
        },
        (
          record {
            valid = upper-IsValid;
            some_clients = omega arith;
            fits = omega arith;
            small = omega arith;
          },
          tt,
        ),
      )
      refl
