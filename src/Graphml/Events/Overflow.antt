-- ===== src/Graphml/Events/Overflow.antt =====
-- The NUL that ends a data value, and the block that it is written to.
use netmirage.Prelude.{
  ℕ, ◌+◌, ◌^◌, ◌≤◌, ◌<◌, ◌≡◌, false, List, ◌∷◌, length, lt→ltb, le→ltb_false, arith,
}
use netmirage.Prelude.Text.{Text}
use netmirage.Mem.Checked.{ok, fault, Allocator, eadd_size}
use netmirage.Mem.Flex.{Buffer, flex_buffer_grow}
use netmirage.Mem.Flex.Laws.{IsBlock, append_lem}
use netmirage.Graphml.{GraphParserState, Callbacks, in_data}
use netmirage.Graphml.Finish.{graph_end_element, graph_characters}
use netmirage.Graphml.Events.{Event, finish, characters, handle, handle_all}

grow_room :
    (alloc : Allocator) (buffer : Buffer) (len additional : ℕ)
    → IsBlock 1 buffer
    → len + additional ≤ buffer.cap
    → flex_buffer_grow alloc buffer len additional 1 ≡ ok buffer
unfolding flex_buffer_grow eadd_size
grow_room alloc buffer len additional valid room = rw (
  lt→ltb (len + additional) (2 ^ 64) (omega arith),
  le→ltb_false buffer.cap (len + additional) room,
)

module _ {C : Type 0} (alloc : Allocator) (calls : Callbacks C) where
  -- At the end of a data element, with a value as long as its block, the write is out of bounds.
  finish_full :
      (state : GraphParserState C)
      → state.dead ≡ false
      → state.mode ≡ in_data
      → 0 < length (state.data_value.block)
      → length (state.data_value.block) ≤ state.data_value_len
      → handle alloc calls state finish ≡ fault
  unfolding handle graph_end_element
  finish_full state alive mode some_block full = ground arith

  -- Characters that fit the block are appended in place.
  characters_fit :
      (state : GraphParserState C) (ch : Text)
      → state.dead ≡ false
      → state.mode ≡ in_data
      → IsBlock 1 state.data_value
      → state.data_value_len + length ch ≤ state.data_value.cap
      → (new : Buffer) × (handle alloc calls state (characters ch)
          ≡ ok (record state {
            data_value = new;
            data_value_len = state.data_value_len + length ch;
          }))
        × (length (new.block) ≡ length (state.data_value.block))
        × IsBlock 1 new
  unfolding handle graph_characters
  characters_fit state ch alive mode valid room =
      let (new, e, holds, block, cap) =
        append_lem state.data_value state.data_value_len ch (length ch) 1 valid (omega arith) room
          (omega arith) in
      (
        new,
        ground (
          arith,
          grow_room alloc state.data_value state.data_value_len (length ch) valid room,
          e,
        ),
        omega (arith, block, cap, valid),
        block,
      )

  -- A data value that fills its block exactly. However the buffer came by its capacity: if the
  -- characters of a data element end where the block ends, then `graphEndElement` writes its NUL
  -- outside the block.
  pub exact_fill_faults :
      (state : GraphParserState C) (ch : Text) (rest : List Event)
      → state.dead ≡ false
      → state.mode ≡ in_data
      → IsBlock 1 state.data_value
      → 0 < state.data_value.cap
      → state.data_value_len + length ch ≡ state.data_value.cap
      → handle_all alloc calls state (characters ch ∷ finish ∷ rest) ≡ fault
  unfolding handle_all
  exact_fill_faults state ch rest alive mode valid some_cap full =
      let (new, e, same, block) = characters_fit state ch alive mode valid (omega arith) in
      rw (
        e,
        finish_full
            (record state { data_value = new; data_value_len = state.data_value_len + length ch })
            alive mode (omega (arith, same, valid)) (omega (arith, same, valid)),
      )
