-- ===== src/Graphml/Events.antt =====
-- A whole parse: the events that libxml reports, in order, and what the client is told.
pub mod Dead
pub mod Unknown
pub mod Overflow
use netmirage.Prelude.{
  ℕ, Bool, true, false, not, ◌==◌, if◌then◌else◌, Option, none, some, List, [], ◌∷◌,
}
use netmirage.Prelude.Text.{Text}
use netmirage.Mem.Checked.{Outcome, ok, ◌>>=◌, Allocator}
use netmirage.Mem.Flex.{flex_buffer_init, flex_buffer_grow}
use netmirage.Graphml.{in_initial, GraphParserState, Callbacks, Atts}
use netmirage.Graphml.Start.{graph_start_element}
use netmirage.Graphml.Finish.{graph_end_element, graph_characters}

-- A call of `startElement`, `endElement` or `characters`. The name that `endElement` gets is not
-- looked at.
pub data Event : Type 0 where
  start : Text → Atts → Event
  finish : Event
  characters : Text → Event

-- `DefaultXmlBufferLen`
abbrev pub default_xml_buffer_len : ℕ
default_xml_buffer_len = 255

module _ {C : Type 0} (alloc : Allocator) where
  -- `fresh` is the structure before it is initialised; the fields that are not set stay.
  unfoldable pub init_graph_parser_state :
      GraphParserState C → C → Option Text → Text → Outcome (GraphParserState C)
  init_graph_parser_state fresh user_data client_type weight_key = do
    data_value ← flex_buffer_grow alloc flex_buffer_init 0 default_xml_buffer_len 1
    ok (record fresh {
      client_type = client_type;
      weight_key = weight_key;
      user_data = user_data;
      mode = in_initial;
      default_undirected = false;
      data_key = [];
      data_value = data_value;
      data_value_len = 0;
      dead = false;
      user_error = 0;
      node_attribs = record {
        type_id = none;
        packet_loss_id = none;
        bandwidth_up_id = none;
        bandwidth_down_id = none;
      };
      edge_attribs = record {
        weight_id = none;
        latency_id = none;
        packet_loss_id = none;
        jitter_id = none;
        queue_len_id = none;
      };
    })

  module _ (calls : Callbacks C) where
    unfoldable pub handle : GraphParserState C → Event → Outcome (GraphParserState C)
    handle state (start name atts) = graph_start_element state name atts
    handle state finish = graph_end_element calls state
    handle state (characters ch) = graph_characters alloc state ch

    unfoldable pub handle_all : GraphParserState C → List Event → Outcome (GraphParserState C)
    handle_all state [] = ok state
    handle_all state (e ∷ es) = do next ← handle state e; handle_all next es

    -- The code that the caller gets: an error of the client first, then one of libxml, then 1 for a
    -- parse that was given up.
    unfoldable pub report_errors : GraphParserState C → ℕ → ℕ
    report_errors state lib_xml_result =
        if not (state.user_error == 0)
        then state.user_error
        else if not (lib_xml_result == 0)
        then lib_xml_result
        else if state.dead
        then 1
        else 0

    -- `gmlParseFile` and `gmlParseMemory`: libxml reports `events` and returns `lib_xml_result`.
    unfoldable pub gml_parse :
        GraphParserState C → C → Option Text → Text → List Event → ℕ → Outcome (C × ℕ)
    unfolding init_graph_parser_state handle_all report_errors
    gml_parse fresh user_data client_type weight_key events lib_xml_result = do
      state ← init_graph_parser_state fresh user_data client_type weight_key
      parsed ← handle_all state events
      ok (parsed.user_data, report_errors parsed lib_xml_result)
