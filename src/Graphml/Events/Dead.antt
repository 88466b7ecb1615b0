-- ===== src/Graphml/Events/Dead.antt =====
-- Events after a fatal error, and the code that the caller gets.
use netmirage.Prelude.{ℕ, ◌≡◌, ◌≢◌, refl, true, false, List, [], ◌∷◌, arith}
use netmirage.Mem.Checked.{ok, Allocator}
use netmirage.Graphml.{GraphParserState, Callbacks, in_graph, in_node}
use netmirage.Graphml.Start.{graph_start_element}
use netmirage.Graphml.Finish.{graph_end_element, graph_characters}
use netmirage.Graphml.Events.{Event, start, finish, characters, handle, handle_all, report_errors}

module _ {C : Type 0} (alloc : Allocator) (calls : Callbacks C) where
  handle_dead :
      (state : GraphParserState C) (e : Event)
      → state.dead ≡ true
      → handle alloc calls state e ≡ ok state
  unfolding handle graph_start_element graph_end_element graph_characters
  handle_dead state (start name atts) h = rw h
  handle_dead state finish h = rw h
  handle_dead state (characters ch) h = rw h

  -- Once a fatal error has been met, no further events change anything.
  pub handle_all_dead :
      (state : GraphParserState C) (es : List Event)
      → state.dead ≡ true
      → handle_all alloc calls state es ≡ ok state
  unfolding handle_all
  handle_all_dead state [] h = refl
  handle_all_dead state (e ∷ es) h = rw (handle_dead state e h) (handle_all_dead state es h)

  -- What the end of a node does with the client's answer.
  abbrev pub after_node : GraphParserState C → GraphParserState C
  after_node state = record state {
    user_data = (calls.new_node_func state.node state.user_data).0;
    user_error = (calls.new_node_func state.node state.user_data).1;
    mode = in_graph;
    dead = true;
  }

  node_fails :
      (state : GraphParserState C)
      → state.dead ≡ false
      → state.mode ≡ in_node
      → (calls.new_node_func state.node state.user_data).1 ≢ 0
      → handle alloc calls state finish ≡ ok (after_node state)
  unfolding handle graph_end_element
  node_fails state alive mode error = ground arith

  -- If the client answers a node with an error code, then whatever events follow, the client is told
  -- of nothing more, and the parse ends with that code, also if libxml returns one of its own.
  pub client_error_reported :
      (state : GraphParserState C) (es : List Event) (lib_xml_result : ℕ)
      → state.dead ≡ false
      → state.mode ≡ in_node
      → (calls.new_node_func state.node state.user_data).1 ≢ 0
      → (last : GraphParserState C) × (handle_all alloc calls state (finish ∷ es) ≡ ok last)
        × (last.user_data ≡ (calls.new_node_func state.node state.user_data).0)
        × (report_errors alloc calls last lib_xml_result
            ≡ (calls.new_node_func state.node state.user_data).1)
  unfolding handle_all report_errors
  client_error_reported state es lib_xml_result alive mode error = (
    after_node state,
    rw (node_fails state alive mode error) (handle_all_dead (after_node state) es refl),
    refl,
    ground arith,
  )
