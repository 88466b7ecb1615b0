-- ===== src/Graphml/Finish.antt =====
-- `graphEndElement`, a function for each mode, and `graphCharacters`.
use netmirage.Prelude.{
  ◌-◌, Bool, true, false, ltb, ◌==◌, if◌then◌else◌, Option, none, some, [], ◌∷◌, length, take, set,
}
use netmirage.Prelude.Text.{Text, text_eq, strtoul_u32}
use netmirage.Mem.Checked.{Outcome, ok, fault, ◌>>=◌, Allocator}
use netmirage.Mem.Flex.{flex_buffer_grow, flex_buffer_append}
use netmirage.Graphml.{
  strtod, strtof, GraphParserMode, in_unknown, in_initial, in_top_level, in_graph, in_node, in_edge,
  in_data, GraphParserState, Callbacks,
}
use netmirage.Graphml.Start.{graph_fatal_error}

-- `id && xmlStrEqual(dataKey, id)`
abbrev is_key : Text → Option Text → Bool
is_key key none = false
is_key key (some id) = text_eq key id

abbrev is_data : GraphParserMode → Bool
is_data in_data = true
is_data _ = false

module _ {C : Type 0} where
  end_node_data : GraphParserState C → Text → GraphParserState C
  end_node_data state value =
      let key = state.data_key in
      let ids = state.node_attribs in
      let n = state.node in
      let t = n.t in
      let others : GraphParserState C =
        if is_key key ids.packet_loss_id
        then record state { node = record n { t = record t { packet_loss = strtod value } } }
        else if is_key key ids.bandwidth_up_id
        then record state { node = record n { t = record t { bandwidth_up = strtod value } } }
        else if is_key key ids.bandwidth_down_id
        then record state { node = record n { t = record t { bandwidth_down = strtod value } } }
        else state in
      elim state.client_type [
        | none ↦ others
        | some client_type ↦
            if is_key key ids.type_id
            then record state {
              node = record n { t = record t { client = text_eq value client_type } };
            }
            else others
      ]

  -- The weight may have the key of another attribute.
  end_edge_weight : GraphParserState C → Text → GraphParserState C
  end_edge_weight state value =
      if is_key state.data_key (state.edge_attribs.weight_id)
      then record state { link = record (state.link) { weight = strtof value } }
      else state

  end_edge_data : GraphParserState C → Text → GraphParserState C
  unfolding end_edge_weight
  end_edge_data before value =
      let state = end_edge_weight before value in
      let key = state.data_key in
      let ids = state.edge_attribs in
      let l = state.link in
      let t = l.t in
      if is_key key ids.latency_id
      then record state { link = record l { t = record t { latency = strtod value } } }
      else if is_key key ids.packet_loss_id
      then record state { link = record l { t = record t { packet_loss = strtod value } } }
      else if is_key key ids.jitter_id
      then record state { link = record l { t = record t { jitter = strtod value } } }
      else if is_key key ids.queue_len_id
      then record state { link = record l { t = record t { queue_len = strtoul_u32 value } } }
      else state

  dispatch_data : GraphParserMode → GraphParserState C → Text → GraphParserState C
  unfolding end_node_data end_edge_data graph_fatal_error
  dispatch_data in_node state value = end_node_data state value
  dispatch_data in_edge state value = end_edge_data state value
  dispatch_data _ state value = graph_fatal_error state

  -- `if (dataValue) dataValue[dataValueLen] = 0`: the NUL must fall inside the block, if there is one.
  terminate_value : GraphParserState C → Outcome (GraphParserState C × Text)
  terminate_value state =
      let buffer = state.data_value in
      elim buffer.block [
        | [] ↦ ok (state, [])
        | _ ∷ _ ↦
            if ltb state.data_value_len (length (buffer.block))
            then ok (
              record state {
                data_value = record buffer { block = set (buffer.block) state.data_value_len 0 };
              },
              take state.data_value_len (buffer.block),
            )
            else fault
      ]

  end_data : GraphParserState C → Outcome (GraphParserState C)
  unfolding terminate_value dispatch_data
  end_data state = do
    terminated ← terminate_value state
    let stored = dispatch_data state.data_mode terminated.0 terminated.1
    ok (record stored { mode = state.data_mode })

  module _ (calls : Callbacks C) where
    end_node : GraphParserState C → GraphParserState C
    end_node state =
        let (client, error) = calls.new_node_func state.node state.user_data in
        record state { user_data = client; user_error = error; mode = in_graph }

    end_edge : GraphParserState C → GraphParserState C
    end_edge state =
        let (client, error) = calls.new_link_func state.link state.user_data in
        record state { user_data = client; user_error = error; mode = in_graph }

    dispatch_end : GraphParserMode → GraphParserState C → Outcome (GraphParserState C)
    unfolding end_data end_node end_edge graph_fatal_error
    dispatch_end in_unknown state = ok (
        if state.unknown_depth == 0
        then record state { mode = state.unknown_mode }
        else record state { unknown_depth = state.unknown_depth - 1 })
    dispatch_end in_data state = end_data state
    dispatch_end in_node state = ok (end_node state)
    dispatch_end in_edge state = ok (end_edge state)
    dispatch_end in_graph state = ok (record state { mode = in_top_level })
    dispatch_end in_top_level state =
        ok (record state { mode = in_unknown; unknown_depth = 0; unknown_mode = in_unknown })
    dispatch_end in_initial state = ok (graph_fatal_error state)

    -- An error code from the client ends the parsing.
    abbrev check_user_error : GraphParserState C → GraphParserState C
    check_user_error state = if state.user_error == 0 then state else graph_fatal_error state

    unfoldable pub graph_end_element : GraphParserState C → Outcome (GraphParserState C)
    unfolding dispatch_end graph_fatal_error
    graph_end_element state =
        if state.dead
        then ok state
        else (do ended ← dispatch_end state.mode state; ok (check_user_error ended))

  module _ (alloc : Allocator) where
    append_characters : GraphParserState C → Text → Outcome (GraphParserState C)
    append_characters state ch = do
      grown ← flex_buffer_grow alloc state.data_value state.data_value_len (length ch) 1
      appended ← flex_buffer_append grown (some state.data_value_len) ch (length ch) 1
      ok (record state {
        data_value = appended.0;
        data_value_len = elim appended.1 [ none ↦ state.data_value_len | some n ↦ n ];
      })

    unfoldable pub graph_characters : GraphParserState C → Text → Outcome (GraphParserState C)
    unfolding append_characters
    graph_characters state ch =
        if state.dead
        then ok state
        else if is_data state.mode
        then append_characters state ch
        else ok state
