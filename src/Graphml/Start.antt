-- ===== src/Graphml/Start.antt =====
-- `graphStartElement`, a function for each mode. Each returns whether the element was unknown.
use netmirage.Prelude.{
  ◌+◌, ◌%◌, ◌^◌, Bool, true, false, not, ◌&&◌, ◌||◌, if◌then◌else◌, Option, none, some, List, [],
  ◌∷◌,
}
use netmirage.Prelude.Text.{Text, codes, text_eq}
use netmirage.Mem.Checked.{Outcome, ok, fault, ◌>>=◌}
use netmirage.Graphml.{
  zero_decimal, infinity, GraphParserMode, in_unknown, in_initial, in_top_level, in_graph, in_node,
  in_edge, in_data, GraphParserState, Atts,
}

-- `for (att = atts; *att; att += 2)`: a NULL pointer must not be followed.
abbrev followed : Atts → Outcome (List (Text × Text))
followed none = fault
followed (some atts) = ok atts

-- The value of the first attribute of a name (a loop that breaks), and of the last (one that does
-- not).
unfoldable pub first_att : Text → List (Text × Text) → Option Text
first_att key [] = none
first_att key ((name, value) ∷ atts) =
    let rest = first_att key atts in if text_eq name key then some value else rest

unfoldable pub last_att : Text → List (Text × Text) → Option Text → Option Text
last_att key [] found = found
last_att key ((name, value) ∷ atts) found =
    last_att key atts (if text_eq name key then some value else found)

abbrev is_some {ℓ} : {A : Type ℓ} → Option A → Bool
is_some none = false
is_some (some a) = true

-- Whether a key's type is one that the attribute takes.
correct_type : Bool → Bool → Bool → Text → Bool
correct_type accept_int accept_float accept_str type =
    if text_eq type (codes "int") || text_eq type (codes "long")
    then accept_int
    else if text_eq type (codes "float") || text_eq type (codes "double")
    then accept_float
    else text_eq type (codes "string") && accept_str

-- The last `directed` attribute decides; without one, the default of the graph.
abbrev undirected_from : Bool → Option Text → Bool
undirected_from default none = default
undirected_from default (some value) = text_eq value (codes "false")

module _ {C : Type 0} where
  -- The message is logged, and the parser goes on to do nothing.
  unfoldable pub graph_fatal_error : GraphParserState C → GraphParserState C
  graph_fatal_error state = record state { dead = true }

  start_initial : GraphParserState C → Text → Atts → Outcome (GraphParserState C × Bool)
  unfolding graph_fatal_error
  start_initial state name atts =
      if not (text_eq name (codes "graphml")) then ok (graph_fatal_error state, false) else (do
        list ← followed atts
        let wrong_namespace : Bool = elim (first_att (codes "xmlns") list) [
          | none ↦ false
          | some value ↦ not (text_eq value (codes "http://graphml.graphdrawing.org/xmlns"))
        ]
        ok (record state { dead = state.dead || wrong_namespace; mode = in_top_level }, false))

  -- `CHECK_SET_ATTR` once the key's name has matched.
  set_attr : GraphParserState C → Bool → (Text → GraphParserState C) → Text → GraphParserState C
  unfolding graph_fatal_error
  set_attr state correct record_id id =
      if not correct then graph_fatal_error state else record_id id

  record_node_key : GraphParserState C → Text → Text → Text → GraphParserState C
  unfolding correct_type set_attr
  record_node_key state key_name type id =
      if text_eq key_name (codes "type")
      then set_attr state (correct_type false false true type)
          (λ i. record state { node_attribs = record (state.node_attribs) { type_id = some i } }) id
      else if text_eq key_name (codes "packetloss")
      then set_attr state (correct_type true true false type)
          (λ i. record state {
            node_attribs = record (state.node_attribs) { packet_loss_id = some i };
          })
          id
      else if text_eq key_name (codes "bandwidthup")
      then set_attr state (correct_type true true false type)
          (λ i. record state {
            node_attribs = record (state.node_attribs) { bandwidth_up_id = some i };
          })
          id
      else if text_eq key_name (codes "bandwidthdown")
      then set_attr state (correct_type true true false type)
          (λ i. record state {
            node_attribs = record (state.node_attribs) { bandwidth_down_id = some i };
          })
          id
      else state

  -- The weight key may be the same as another key, so it is not part of the chain.
  record_weight_key : GraphParserState C → Text → Text → Text → GraphParserState C
  unfolding correct_type set_attr
  record_weight_key state key_name type id =
      if text_eq key_name state.weight_key
      then set_attr state (correct_type false true false type)
          (λ i. record state { edge_attribs = record (state.edge_attribs) { weight_id = some i } })
          id
      else state

  record_edge_key : GraphParserState C → Text → Text → Text → GraphParserState C
  unfolding correct_type set_attr
  record_edge_key state key_name type id =
      if text_eq key_name (codes "latency")
      then set_attr state (correct_type true true false type)
          (λ i. record state { edge_attribs = record (state.edge_attribs) { latency_id = some i } })
          id
      else if text_eq key_name (codes "packetloss")
      then set_attr state (correct_type true true false type)
          (λ i. record state {
            edge_attribs = record (state.edge_attribs) { packet_loss_id = some i };
          })
          id
      else if text_eq key_name (codes "jitter")
      then set_attr state (correct_type true true false type)
          (λ i. record state { edge_attribs = record (state.edge_attribs) { jitter_id = some i } })
          id
      else if text_eq key_name (codes "queue_len")
      then set_attr state (correct_type true false false type)
          (λ i. record state {
            edge_attribs = record (state.edge_attribs) { queue_len_id = some i };
          })
          id
      else state

  -- The key is recorded if all four of its attributes are there.
  record_key :
      GraphParserState C
      → Option Text
      → Option Text
      → Option Text
      → Option Text
      → GraphParserState C
  unfolding record_node_key record_weight_key record_edge_key
  record_key state (some key_name) (some id) (some type) (some key_for) =
      if text_eq key_for (codes "node")
      then record_node_key state key_name type id
      else if text_eq key_for (codes "edge")
      then record_edge_key (record_weight_key state key_name type id) key_name type id
      else state
  record_key state _ _ _ _ = state

  start_key : GraphParserState C → Atts → Outcome (GraphParserState C × Bool)
  unfolding record_key
  start_key state atts = do
    list ← followed atts
    ok (
      record_key state (last_att (codes "attr.name") list none) (last_att (codes "id") list none)
          (last_att (codes "attr.type") list none) (last_att (codes "for") list none),
      true,
    )

  start_graph : GraphParserState C → Atts → Outcome (GraphParserState C × Bool)
  unfolding graph_fatal_error
  start_graph state atts = do
    let checked =
        if not (is_some (state.edge_attribs.weight_id)) then graph_fatal_error state else state
    list ← followed atts
    let undirected : Bool = elim (first_att (codes "edgedefault") list) [
      | none ↦ checked.default_undirected
      | some value ↦ text_eq value (codes "undirected")
    ]
    ok (record checked { default_undirected = undirected; mode = in_graph }, false)

  start_top_level : GraphParserState C → Text → Atts → Outcome (GraphParserState C × Bool)
  unfolding start_key start_graph
  start_top_level state name atts =
      if text_eq name (codes "key")
      then start_key state atts
      else if text_eq name (codes "graph")
      then start_graph state atts
      else ok (state, true)

  start_node : GraphParserState C → Atts → Outcome (GraphParserState C × Bool)
  unfolding graph_fatal_error
  start_node state atts = do
    list ← followed atts
    ok (
      elim (last_att (codes "id") list none) [
        | none ↦ graph_fatal_error state
        | some id ↦ record state {
          node = record {
            name = id;
            t = record {
              client = not (is_some state.client_type);
              packet_loss = zero_decimal;
              bandwidth_up = zero_decimal;
              bandwidth_down = zero_decimal;
            };
          };
          mode = in_node;
        }
      ],
      false,
    )

  begin_link : GraphParserState C → Option Text → Option Text → Bool → GraphParserState C
  unfolding graph_fatal_error
  begin_link state none target undirected = graph_fatal_error state
  begin_link state (some source) none undirected = graph_fatal_error state
  begin_link state (some source) (some target) undirected =
      if not undirected then graph_fatal_error state else record state {
        link = record {
          source_name = source;
          target_name = target;
          weight = infinity;
          t = record {
            latency = zero_decimal;
            packet_loss = zero_decimal;
            jitter = zero_decimal;
            queue_len = 0;
          };
        };
        mode = in_edge;
      }

  start_edge : GraphParserState C → Atts → Outcome (GraphParserState C × Bool)
  unfolding begin_link
  start_edge state atts = do
    list ← followed atts
    let undirected =
        undirected_from state.default_undirected (last_att (codes "directed") list none)
    ok (
      begin_link state (last_att (codes "source") list none) (last_att (codes "target") list none)
          undirected,
      false,
    )

  start_in_graph : GraphParserState C → Text → Atts → Outcome (GraphParserState C × Bool)
  unfolding start_node start_edge
  start_in_graph state name atts =
      if text_eq name (codes "node")
      then start_node state atts
      else if text_eq name (codes "edge")
      then start_edge state atts
      else ok (state, true)

  -- An element inside a node or an edge.
  start_in_object : GraphParserState C → Text → Atts → Outcome (GraphParserState C × Bool)
  unfolding graph_fatal_error
  start_in_object state name atts =
      if text_eq name (codes "data")
      then (do
        list ← followed atts
        let keyed : GraphParserState C = elim (first_att (codes "key") list) [
          | none ↦ graph_fatal_error state
          | some key ↦ record state { data_key = key }
        ]
        ok (record keyed { data_value_len = 0; data_mode = state.mode; mode = in_data }, false))
      else ok (state, true)

  -- The `switch`. `unknownDepth` is an `unsigned int`.
  dispatch_start :
      GraphParserMode → GraphParserState C → Text → Atts → Outcome (GraphParserState C × Bool)
  unfolding start_initial start_top_level start_in_graph start_in_object
  dispatch_start in_unknown state name atts =
      ok (record state { unknown_depth = (state.unknown_depth + 1) % 2 ^ 32 }, false)
  dispatch_start in_initial state name atts = start_initial state name atts
  dispatch_start in_top_level state name atts = start_top_level state name atts
  dispatch_start in_graph state name atts = start_in_graph state name atts
  dispatch_start in_node state name atts = start_in_object state name atts
  dispatch_start in_edge state name atts = start_in_object state name atts
  dispatch_start in_data state name atts = ok (state, true)

  abbrev enter_unknown : GraphParserState C → GraphParserState C
  enter_unknown state = record state {
    unknown_mode = state.mode;
    mode = in_unknown;
    unknown_depth = 0;
  }

  unfoldable pub graph_start_element :
      GraphParserState C → Text → Atts → Outcome (GraphParserState C)
  unfolding dispatch_start
  graph_start_element state name atts = if state.dead then ok state else (do
    result ← dispatch_start state.mode state name atts
    ok (if result.1 then enter_unknown result.0 else result.0))
