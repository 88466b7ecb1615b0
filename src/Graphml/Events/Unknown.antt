-- ===== src/Graphml/Events/Unknown.antt =====
-- Elements that the parser does not know, with what they contain.
use netmirage.Prelude.{
  ℕ, suc, ◌+◌, ◌^◌, ◌<◌, ◌≡◌, refl, ◌∙◌, Bool, true, false, ◌||◌, List, ◌∷◌, arith,
}
use Prim.Native.Nat.{max}
use netmirage.Prelude.Text.{Text, codes, text_eq}
use netmirage.Mem.Checked.{ok, Allocator}
use netmirage.Graphml.{
  GraphParserState, GraphParserMode, Callbacks, Atts, in_unknown, in_initial, in_top_level,
  in_graph, in_node, in_edge, in_data,
}
use netmirage.Graphml.Start.{graph_start_element}
use netmirage.Graphml.Finish.{graph_end_element, graph_characters}
use netmirage.Graphml.Events.{Event, start, finish, characters, handle, handle_all}

-- Well-nested content.
mutual
  pub data Content : Type 0 where
    element : Text → Atts → Contents → Content
    text : Text → Content

  pub data Contents : Type 0 where
    nil : Contents
    cons : Content → Contents → Contents

unfoldable mutual
  -- The events of some content, before those that follow.
  pub events_of : Content → List Event → List Event
  events_of (element name atts inside) rest = start name atts ∷ events_of_all inside (finish ∷ rest)
  events_of (text ch) rest = characters ch ∷ rest

  pub events_of_all : Contents → List Event → List Event
  events_of_all nil rest = rest
  events_of_all (cons c cs) rest = events_of c (events_of_all cs rest)

unfoldable mutual
  -- How deep elements stand inside some content.
  pub depth_of : Content → ℕ
  depth_of (element name atts inside) = suc (depth_of_all inside)
  depth_of (text ch) = 0

  pub depth_of_all : Contents → ℕ
  depth_of_all nil = 0
  depth_of_all (cons c cs) = max (depth_of c) (depth_of_all cs)

module _ {C : Type 0} (alloc : Allocator) (calls : Callbacks C) where
  -- Inside unknown content, with no error so far.
  abbrev Ignoring : GraphParserState C → Type 0
  Ignoring state = (state.mode ≡ in_unknown) × (state.dead ≡ false) × (state.user_error ≡ 0)

  abbrev at_depth : GraphParserState C → ℕ → GraphParserState C
  at_depth state n = record state { unknown_depth = n }

  start_ignored :
      (state : GraphParserState C) (name : Text) (atts : Atts)
      → Ignoring state
      → state.unknown_depth + 1 < 2 ^ 32
      → handle alloc calls state (start name atts) ≡ ok (at_depth state (state.unknown_depth + 1))
  unfolding handle graph_start_element
  start_ignored state name atts h deep = ground arith

  finish_ignored :
      (state : GraphParserState C) (n : ℕ)
      → Ignoring state
      → handle alloc calls (at_depth state (n + 1)) finish ≡ ok (at_depth state n)
  unfolding handle graph_end_element
  finish_ignored state n h = ground arith

  characters_ignored :
      (state : GraphParserState C) (ch : Text)
      → Ignoring state
      → handle alloc calls state (characters ch) ≡ ok state
  unfolding handle graph_characters
  characters_ignored state ch h = ground arith

  handle_all-cons :
      (state next : GraphParserState C) (e : Event) (es : List Event)
      → handle alloc calls state e ≡ ok next
      → handle_all alloc calls state (e ∷ es) ≡ handle_all alloc calls next es
  unfolding handle_all
  handle_all-cons state next e es h = rw h

  mutual
    unfolding events_of depth_of

    skip_content :
        (c : Content) (state : GraphParserState C) (rest : List Event)
        → Ignoring state
        → state.unknown_depth + depth_of c < 2 ^ 32
        → handle_all alloc calls state (events_of c rest) ≡ handle_all alloc calls state rest
    skip_content (element name atts inside) state rest h deep =
        handle_all-cons state (at_depth state (state.unknown_depth + 1)) (start name atts) _
          (start_ignored state name atts h (omega arith))
        ∙ skip_contents inside (at_depth state (state.unknown_depth + 1)) (finish ∷ rest) h
            (omega arith)
        ∙ handle_all-cons (at_depth state (state.unknown_depth + 1)) state finish rest
            (finish_ignored state state.unknown_depth h)
    skip_content (text ch) state rest h deep =
        handle_all-cons state state (characters ch) rest (characters_ignored state ch h)

    skip_contents :
        (cs : Contents) (state : GraphParserState C) (rest : List Event)
        → Ignoring state
        → state.unknown_depth + depth_of_all cs < 2 ^ 32
        → handle_all alloc calls state (events_of_all cs rest) ≡ handle_all alloc calls state rest
    skip_contents nil state rest h deep = refl
    skip_contents (cons c cs) state rest h deep =
        skip_content c state (events_of_all cs rest) h (omega arith)
        ∙ skip_contents cs state rest h (omega arith)

-- The elements that the parser acts on, in each mode.
unfoldable pub is_known : GraphParserMode → Text → Bool
is_known in_unknown name = true
is_known in_initial name = true
is_known in_top_level name = text_eq name (codes "key") || text_eq name (codes "graph")
is_known in_graph name = text_eq name (codes "node") || text_eq name (codes "edge")
is_known in_node name = text_eq name (codes "data")
is_known in_edge name = text_eq name (codes "data")
is_known in_data name = false

module _ {C : Type 0} (alloc : Allocator) (calls : Callbacks C) where
  abbrev inside : GraphParserState C → GraphParserState C
  inside state = record state { unknown_mode = state.mode; mode = in_unknown; unknown_depth = 0 }

  enter_unknown :
      (state : GraphParserState C) (name : Text) (atts : Atts)
      → state.dead ≡ false
      → is_known state.mode name ≡ false
      → handle alloc calls state (start name atts) ≡ ok (inside state)
  unfolding handle graph_start_element is_known
  enter_unknown state name atts alive unknown = ground arith

  leave_unknown :
      (state : GraphParserState C)
      → state.dead ≡ false
      → state.user_error ≡ 0
      → handle alloc calls (inside state) finish
        ≡ ok (record state { unknown_mode = state.mode; unknown_depth = 0 })
  unfolding handle graph_end_element
  leave_unknown state alive clean = ground arith

  -- In a parse without an error so far, an element that its mode does not know, with all of its
  -- well-nested content of any names, is skipped: the events after it are handled as if the element
  -- had not been there, but for the two fields that only unknown content uses. (The content is
  -- nested less than 2^32 deep.)
  pub unknown_element_skipped :
      (state : GraphParserState C) (name : Text) (atts : Atts) (content : Contents)
      (rest : List Event)
      → state.dead ≡ false
      → state.user_error ≡ 0
      → is_known state.mode name ≡ false
      → depth_of_all content < 2 ^ 32
      → handle_all alloc calls state (events_of (element name atts content) rest)
        ≡ handle_all alloc calls
            (record state { unknown_mode = state.mode; unknown_depth = 0 })
            rest
  unfolding events_of
  unknown_element_skipped state name atts content rest alive clean unknown deep =
      handle_all-cons alloc calls state (inside state) (start name atts) _
        (enter_unknown state name atts alive unknown)
      ∙ skip_contents alloc calls content (inside state) (finish ∷ rest) (refl, alive, clean)
          (omega arith)
      ∙ handle_all-cons alloc calls (inside state) _ finish rest (leave_unknown state alive clean)
