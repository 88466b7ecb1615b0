-- ===== src/Graphml/Tests.antt =====
-- Runs of the GraphML parser on short documents, and the theorems at such inputs.
use netmirage.Prelude.{
  ◌≡◌, refl, true, false, if◌then◌else◌, none, some, List, [], ◌∷◌, replicate, arith,
}
use netmirage.Prelude.Text.{Text, codes, text_eq}
use netmirage.Mem.Checked.{ok, fault, Allocator, eadd_size, emul_size, erealloc}
use netmirage.Mem.Flex.{flex_buffer_init, flex_buffer_grow, flex_buffer_append, write_bytes}
use netmirage.Graphml.{
  Decimal, zero_decimal, strtof, TopoNode, in_unknown, in_initial, in_graph, in_node, in_data,
  GraphParserState, Callbacks,
}
use netmirage.Graphml.Start.{first_att, last_att, graph_start_element}
use netmirage.Graphml.Finish.{graph_end_element, graph_characters}
use netmirage.Graphml.Events.{
  Event, start, finish, characters, handle, handle_all, report_errors, gml_parse,
}
use netmirage.Graphml.Events.Dead.{handle_all_dead, client_error_reported}
use netmirage.Graphml.Events.Unknown.{
  element, text, Contents, nil, cons, events_of, depth_of, is_known, unknown_element_skipped,
}
use netmirage.Graphml.Events.Overflow.{exact_fill_faults}

abbrev heap : Allocator
heap = record { available = λ _. true; junk = 7 }

-- A client that lists the names of the nodes and the weights of the links, and refuses node "x".
abbrev Heard : Type 0
Heard = List Text × List Decimal

abbrev client : Callbacks Heard
client = record {
  new_node_func = λ node heard.
      if text_eq node.name (codes "x") then (heard, 42) else ((node.name ∷ heard.0, heard.1), 0);
  new_link_func = λ link heard. ((heard.0, link.weight ∷ heard.1), 0);
}

abbrev no_decimals : TopoNode
no_decimals = record {
  client = false;
  packet_loss = zero_decimal;
  bandwidth_up = zero_decimal;
  bandwidth_down = zero_decimal;
}

abbrev fresh : GraphParserState Heard
fresh = record {
  mode = in_initial;
  client_type = none;
  weight_key = codes "latency";
  unknown_depth = 0;
  unknown_mode = in_unknown;
  default_undirected = false;
  node_attribs = record {
    type_id = none;
    packet_loss_id = none;
    bandwidth_up_id = none;
    bandwidth_down_id = none;
  };
  edge_attribs = record {
    weight_id = some (codes "w");
    latency_id = none;
    packet_loss_id = none;
    jitter_id = none;
    queue_len_id = none;
  };
  data_key = [];
  data_value = record { block = replicate 4 7; cap = 4 };
  data_value_len = 0;
  data_mode = in_node;
  node = record { name = codes "x"; t = no_decimals };
  link = record {
    source_name = [];
    target_name = [];
    weight = zero_decimal;
    t = record {
      latency = zero_decimal;
      packet_loss = zero_decimal;
      jitter = zero_decimal;
      queue_len = 0;
    };
  };
  dead = false;
  user_data = ([], []);
  user_error = 0;
}

abbrev given_up : GraphParserState Heard
given_up = record fresh { dead = true }

abbrev at_node : GraphParserState Heard
at_node = record fresh { mode = in_node }

abbrev at_data : GraphParserState Heard
at_data = record fresh { mode = in_data }

abbrev at_graph : GraphParserState Heard
at_graph = record fresh { mode = in_graph }

handle_all_dead_example :
    handle_all heap client given_up (finish ∷ start (codes "node") (some []) ∷ []) ≡ ok given_up
handle_all_dead_example =
    handle_all_dead heap client given_up (finish ∷ start (codes "node") (some []) ∷ []) refl

client_error_reported_example :
    (last : GraphParserState Heard) × (handle_all heap client at_node (finish ∷ finish ∷ [])
      ≡ ok last)
    × (last.user_data ≡ ([], []))
    × (report_errors heap client last 5 ≡ 42)
unfolding text_eq
client_error_reported_example =
    client_error_reported heap client at_node (finish ∷ []) 5 refl refl (omega arith)

-- `<port name="p"><data/>z</port>`
abbrev port : Contents
port = cons (element (codes "data") (some []) nil) (cons (text (codes "z")) nil)

unknown_element_skipped_example :
    handle_all heap client at_graph (events_of (element (codes "port") none port) (finish ∷ []))
    ≡ handle_all heap client
        (record at_graph { unknown_mode = in_graph; unknown_depth = 0 })
        (finish ∷ [])
unfolding is_known text_eq depth_of
unknown_element_skipped_example =
    unknown_element_skipped heap client at_graph (codes "port") none port (finish ∷ []) refl refl
      refl (omega arith)

exact_fill_faults_example :
    handle_all heap client at_data (characters (codes "0.25") ∷ finish ∷ finish ∷ []) ≡ fault
exact_fill_faults_example =
    exact_fill_faults heap client at_data (codes "0.25") (finish ∷ []) refl refl (refl, omega arith)
      (omega arith) refl

-- A document with a node of each kind of content and a link; the weight is read from its data.
abbrev document : List Event
document =
    start (codes "graphml") (some [])
    ∷ start (codes "key") (
        some (
          (codes "attr.name", codes "latency")
          ∷ (codes "id", codes "w")
          ∷ (codes "attr.type", codes "float")
          ∷ (codes "for", codes "edge")
          ∷ []))
    ∷ finish
    ∷ start (codes "graph") (some ((codes "edgedefault", codes "undirected") ∷ []))
    ∷ start (codes "node") (some ((codes "id", codes "a") ∷ []))
    ∷ finish
    ∷ start (codes "edge") (some ((codes "source", codes "a") ∷ (codes "target", codes "a") ∷ []))
    ∷ start (codes "data") (some ((codes "key", codes "w") ∷ []))
    ∷ characters (codes "2.")
    ∷ characters (codes "5")
    ∷ finish
    ∷ finish
    ∷ finish
    ∷ finish
    ∷ []

parse_document :
    gml_parse heap client fresh ([], []) none (codes "latency") document 0
    ≡ ok ((codes "a" ∷ [], strtof (codes "2.5") ∷ []), 0)
unfolding gml_parse handle graph_start_element graph_end_element graph_characters first_att last_att
    text_eq flex_buffer_init flex_buffer_grow flex_buffer_append write_bytes eadd_size emul_size
    erealloc
parse_document = refl
