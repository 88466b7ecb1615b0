-- ===== src/Netlink/Attr.antt =====
-- Attributes in a message (src/common/lib/netlink.c).
use mathlib.Core.List.{append_assoc, append-nil}
use netmirage.Prelude.{
  ℕ, ◌+◌, ◌-◌, ◌*◌, ◌%◌, ◌^◌, ◌≤◌, ◌<◌, ◌≡◌, refl, ap, ap₂, sym, subst, ◌∙◌, ◌==◌, true, false, ltb,
  List, [], ◌∷◌, ◌++◌, length, take, drop, get_elem?, set, some, arith, length-append, le→leb,
  lt→leb_false, take-append, take-all, drop-append, drop-drop, take-drop_whole, length-take,
  get_elem?-set_self, Bool-cases, inl, inr,
}
use netmirage.Mem.Checked.{Outcome, ok, ◌>>=◌, Allocator}
use netmirage.Mem.Flex.{Buffer, write_bytes}
use netmirage.Mem.Flex.Laws.{IsBlock, grow-Grown, grow_total, append_lem}
use netmirage.Netlink.{
  NlContext, bytes_16, rta_length, rta_space, max_attr_nest, store, nl_commit_space,
  nl_reserve_space, nl_buffer_append, push_at_tail, nl_push_attr, pad, close_attr, nl_pop_attr,
}

-- The message so far, in a block of the buffer's capacity.
pub record Holds (ctx : NlContext) (message : List ℕ) : Type 0 where
  pub tail : List ℕ
  pub block_eq : ctx.msg_buffer.block ≡ message ++ tail
  pub len : ctx.msg_buffer_len ≡ length message
  pub block : IsBlock 1 ctx.msg_buffer

room :
    (ctx : NlContext) (message : List ℕ) (h : Holds ctx message)
    → ctx.msg_buffer.cap ≡ length message + length h.tail
room ctx message h = omega (arith, h.block, ap length h.block_eq, length-append message h.tail)

write_between :
    (block a old new b : List ℕ)
    → block ≡ a ++ (old ++ b)
    → length old ≡ length new
    → write_bytes block (length a) new ≡ ok (a ++ (new ++ b))
unfolding write_bytes
write_between block a old new b e same =
    let inside : length a + length new ≤ length block =
      omega (arith, ap length e, length-append a (old ++ b), length-append old b, same) in
    let front : take (length a) block ≡ a =
      ap (take (length a)) e
      ∙ take-append (length a) a (old ++ b) (omega arith)
      ∙ take-all (length a) a (omega arith) in
    let back : drop (length a + length new) block ≡ b =
      ap (drop (length a + length new)) e
      ∙ sym (drop-drop (length a) (length new) (a ++ (old ++ b)))
      ∙ ap (drop (length new)) (drop-append a (old ++ b))
      ∙ ap (λ (k : ℕ). drop k (old ++ b)) (sym same)
      ∙ drop-append old b in
    rw (le→leb (length a + length new) (length block) inside)
      (ap₂ (λ x y. ok (x ++ (new ++ y))) front back)

store_lem :
    (ctx : NlContext) (a old new b : List ℕ)
    → ctx.msg_buffer.block ≡ a ++ (old ++ b)
    → length old ≡ length new
    → store ctx (length a) new
      ≡ ok (record ctx { msg_buffer = record ctx.msg_buffer { block = a ++ (new ++ b) } })
unfolding store
store_lem ctx a old new b e same =
    let resume : Outcome (List ℕ) → Outcome NlContext = λ o.
      o >>= λ block. ok (record ctx { msg_buffer = record ctx.msg_buffer { block = block } }) in
    ap resume (write_between ctx.msg_buffer.block a old new b e same)

-- What is behind a message when an attribute has been closed.
abbrev pub attr_bytes : ℕ → List ℕ → List ℕ → List ℕ
attr_bytes type payload padding =
    bytes_16 (rta_length (length payload) % 2 ^ 16) ++ (bytes_16 type ++ (payload ++ padding))

module _ (alloc : Allocator) (memory : (size : ℕ) → alloc.available size ≡ true) where
  reserve_lem :
      (ctx : NlContext) (message : List ℕ) (amount : ℕ)
      → Holds ctx message
      → (length message + amount) * 2 < 2 ^ 64
      → (grown : Buffer) × (nl_reserve_space alloc ctx amount
          ≡ ok (record ctx { msg_buffer = grown }))
        × (new : Holds (record ctx { msg_buffer = grown }) message) × (amount ≤ length new.tail)
  unfolding nl_reserve_space
  reserve_lem ctx message amount h small =
      let (grown, e) =
        grow_total alloc ctx.msg_buffer ctx.msg_buffer_len amount 1 (omega arith)
          (omega (arith, h.len)) memory in
      let g = grow-Grown alloc ctx.msg_buffer ctx.msg_buffer_len amount 1 h.block e in
      let old = length ctx.msg_buffer.block in
      let split : grown.block ≡ message ++ (h.tail ++ drop old grown.block) =
        sym (take-drop_whole old grown.block)
        ∙ ap (λ l. l ++ drop old grown.block) (g.kept ∙ h.block_eq)
        ∙ append_assoc message h.tail (drop old grown.block) in
      let held : Holds (record ctx { msg_buffer = grown }) message = record {
        tail = h.tail ++ drop old grown.block;
        block_eq = split;
        len = h.len;
        block = g.block;
      } in
      (
        grown,
        rw e refl,
        held,
        omega (arith, room (record ctx { msg_buffer = grown }) message held, g.room, h.len),
      )

  -- What is opened at the end of a message: two bytes for the length, and the type.
  pub record Opened (ctx : NlContext) (message : List ℕ) (type : ℕ) (new : NlContext) : Type 0 where
    pub junk_1 : ℕ
    pub junk_2 : ℕ
    pub holds : Holds new (message ++ (junk_1 ∷ junk_2 ∷ bytes_16 type))
    pub depth : new.attr_depth ≡ ctx.attr_depth + 1
    pub position : new.attr_nest_pos ≡ set ctx.attr_nest_pos ctx.attr_depth (length message)

  four :
      (l : List ℕ)
      → 4 ≤ length l
      → (a : ℕ) × (b : ℕ) × (c : ℕ) × (d : ℕ) × (rest : List ℕ) × (l ≡ a ∷ b ∷ c ∷ d ∷ rest)
  four [] h = absurd (omega arith)
  four (a ∷ []) h = absurd (omega arith)
  four (a ∷ b ∷ []) h = absurd (omega arith)
  four (a ∷ b ∷ c ∷ []) h = absurd (omega arith)
  four (a ∷ b ∷ c ∷ d ∷ rest) h = (a, b, c, d, rest, refl)

  push_at_tail_lem :
      (ctx : NlContext) (message : List ℕ) (type : ℕ)
      → Holds ctx message
      → (length message + 4) * 2 < 2 ^ 64
      → (new : NlContext) × (push_at_tail alloc ctx type ≡ ok new) × Opened ctx message type new
  unfolding push_at_tail nl_commit_space
  push_at_tail_lem ctx message type h small =
      let (grown, e, held, enough) = reserve_lem ctx message 4 h small in
      let (j, k, l, m, rest, tail_eq) = four held.tail enough in
      let front = message ++ (j ∷ k ∷ []) in
      let whole : grown.block ≡ front ++ ((l ∷ m ∷ []) ++ rest) =
        held.block_eq
        ∙ ap (λ t. message ++ t) tail_eq
        ∙ sym (append_assoc message (j ∷ k ∷ []) (l ∷ m ∷ rest)) in
      let at : length front ≡ ctx.msg_buffer_len + 2 =
        omega (arith, h.len, length-append message (j ∷ k ∷ [])) in
      let stored =
        store_lem (record ctx { msg_buffer = grown }) front (l ∷ m ∷ []) (bytes_16 type) rest whole
          refl in
      let block = front ++ (bytes_16 type ++ rest) in
      let same : length block ≡ length grown.block = omega (
        arith,
        ap length whole,
        length-append front (l ∷ m ∷ rest),
        length-append front (bytes_16 type ++ rest),
      ) in
      (
        record ctx {
          msg_buffer = record { block = block; cap = grown.cap };
          msg_buffer_len = (ctx.msg_buffer_len + 4) % 2 ^ 64;
          attr_nest_pos = set ctx.attr_nest_pos ctx.attr_depth ctx.msg_buffer_len;
          attr_depth = ctx.attr_depth + 1;
        },
        rw (e, rw at at stored) refl,
        record {
          junk_1 = j;
          junk_2 = k;
          holds = record {
            tail = rest;
            block_eq =
                append_assoc message (j ∷ k ∷ []) (bytes_16 type ++ rest)
                ∙ sym (append_assoc message (j ∷ k ∷ bytes_16 type) rest);
            len = omega (arith, h.len, length-append message (j ∷ k ∷ bytes_16 type));
            block = (omega (arith, same, held.block), omega (arith, same, held.block));
          };
          depth = refl;
          position = ap (λ (n : ℕ). set ctx.attr_nest_pos ctx.attr_depth n) h.len;
        },
      )

  pub push_lem :
      (ctx : NlContext) (message : List ℕ) (type : ℕ)
      → Holds ctx message
      → ctx.attr_depth < max_attr_nest
      → (length message + 4) * 2 < 2 ^ 64
      → (new : NlContext) × (nl_push_attr alloc ctx type ≡ ok (new, 0))
        × Opened ctx message type new
  unfolding nl_push_attr
  push_lem ctx message type h shallow small =
      let (new, e, opened) = push_at_tail_lem ctx message type h small in
      (new, rw (lt→leb_false max_attr_nest ctx.attr_depth shallow, e) refl, opened)

  -- The context but for the buffer and its length.
  pub record SameNest (ctx new : NlContext) : Type 0 where
    pub depth : new.attr_depth ≡ ctx.attr_depth
    pub position : new.attr_nest_pos ≡ ctx.attr_nest_pos

  pub append_holds :
      (ctx : NlContext) (message bytes : List ℕ)
      → Holds ctx message
      → (length message + length bytes) * 2 < 2 ^ 64
      → (new : NlContext) × (nl_buffer_append alloc ctx bytes (length bytes) ≡ ok new)
        × Holds new (message ++ bytes)
        × SameNest ctx new
  unfolding nl_buffer_append
  append_holds ctx message bytes h small =
      let (grown, e, held, enough) = reserve_lem ctx message (length bytes) h small in
      let cap = room (record ctx { msg_buffer = grown }) message held in
      let (last, e', holds, block, same_cap) =
        append_lem grown ctx.msg_buffer_len bytes (length bytes) 1 held.block (omega arith)
          (omega (arith, cap, enough, h.len)) (omega arith) in
      let n = (ctx.msg_buffer_len + length bytes) * 1 in
      let front : take (ctx.msg_buffer_len * 1) grown.block ≡ message =
        ap (λ (k : ℕ). take k grown.block) (omega (arith, h.len))
        ∙ ap (take (length message)) held.block_eq
        ∙ take-append (length message) message held.tail (omega arith)
        ∙ take-all (length message) message (omega arith) in
      (
        record ctx { msg_buffer = last; msg_buffer_len = ctx.msg_buffer_len + length bytes },
        rw (e, e') refl,
        record {
          tail = drop n last.block;
          block_eq =
              sym (take-drop_whole n last.block)
              ∙ ap (λ l. l ++ drop n last.block) (holds ∙ ap (λ l. l ++ bytes) front);
          len = omega (arith, h.len, length-append message bytes);
          block = block;
        },
        record { depth = refl; position = refl },
      )

  record Padded (ctx : NlContext) (message : List ℕ) (amount : ℕ) (new : NlContext) : Type 0 where
    padding : List ℕ
    holds : Holds new (message ++ padding)
    amount_eq : length padding ≡ amount
    same : SameNest ctx new

  pad_lem :
      (ctx : NlContext) (message : List ℕ) (amount : ℕ)
      → Holds ctx message
      → (length message + amount) * 2 < 2 ^ 64
      → (new : NlContext) × (pad alloc ctx amount ≡ ok new) × Padded ctx message amount new
  unfolding pad nl_commit_space
  pad_lem ctx message amount h small = elim (Bool-cases (ltb 0 amount)) [
    | inl more ↦
        let (grown, e, held, enough) = reserve_lem ctx message amount h small in
        (
          record ctx {
            msg_buffer = grown;
            msg_buffer_len = (ctx.msg_buffer_len + amount) % 2 ^ 64;
          },
          rw (more, e) refl,
          record {
            padding = take amount held.tail;
            holds = record {
              tail = drop amount held.tail;
              block_eq =
                  held.block_eq
                  ∙ ap (λ l. message ++ l) (sym (take-drop_whole amount held.tail))
                  ∙ sym (append_assoc message (take amount held.tail) (drop amount held.tail));
              len = omega (
                arith,
                h.len,
                length-append message (take amount held.tail),
                length-take amount held.tail,
                enough,
              );
              block = held.block;
            };
            amount_eq = omega (arith, length-take amount held.tail, enough);
            same = record { depth = refl; position = refl };
          },
        )
    | inr none_needed ↦ (
      ctx,
      rw none_needed refl,
      record {
        padding = [];
        holds = subst (λ l. Holds ctx l) (sym (append-nil message)) h;
        amount_eq = ground arith;
        same = record { depth = refl; position = refl };
      },
    )
  ]

  close_steps :
      (ctx : NlContext) (pos payload_len deficit : ℕ) (closed new : NlContext)
      → ctx.msg_buffer_len - (pos + 4) ≡ payload_len
      → rta_space payload_len - (ctx.msg_buffer_len - pos) ≡ deficit
      → store ctx pos (bytes_16 (rta_length payload_len % 2 ^ 16)) ≡ ok closed
      → pad alloc closed deficit ≡ ok new
      → close_attr alloc ctx pos ≡ ok new
  unfolding close_attr
  close_steps ctx pos payload_len deficit closed new payload_eq deficit_eq stored padded =
      rw (payload_eq, deficit_eq, stored) padded

  close_lem :
      (ctx : NlContext) (message : List ℕ) (j k type : ℕ) (payload : List ℕ)
      → Holds ctx (message ++ (j ∷ k ∷ (bytes_16 type ++ payload)))
      → (length message + length payload + 16) * 2 < 2 ^ 64
      → (new : NlContext) × (padding : List ℕ) × (close_attr alloc ctx (length message) ≡ ok new)
        × Holds new (message ++ attr_bytes type payload padding)
        × (length padding ≡ rta_space (length payload) - rta_length (length payload))
        × SameNest ctx new
  close_lem ctx message j k type payload h small =
      let open_bytes = j ∷ k ∷ (bytes_16 type ++ payload) in
      let len : ctx.msg_buffer_len ≡ length message + (length payload + 4) =
        omega (arith, h.len, length-append message open_bytes) in
      let payload_eq : ctx.msg_buffer_len - (length message + 4) ≡ length payload =
        omega (arith, len) in
      let deficit = rta_space (length payload) - rta_length (length payload) in
      let deficit_eq : rta_space (length payload) - (ctx.msg_buffer_len - length message)
          ≡ deficit =
        omega (arith, len) in
      let size = bytes_16 (rta_length (length payload) % 2 ^ 16) in
      let body = bytes_16 type ++ payload in
      let stored =
        store_lem ctx message (j ∷ k ∷ []) size (body ++ h.tail)
          (h.block_eq ∙ append_assoc message open_bytes h.tail) refl in
      let block = message ++ (size ++ (body ++ h.tail)) in
      let closed : NlContext = record ctx {
        msg_buffer = record ctx.msg_buffer { block = block };
      } in
      let same : length block ≡ length ctx.msg_buffer.block = omega (
        arith,
        ap length (h.block_eq ∙ append_assoc message open_bytes h.tail),
        length-append message (open_bytes ++ h.tail),
        length-append message (size ++ (body ++ h.tail)),
      ) in
      let held : Holds closed (message ++ (size ++ body)) = record {
        tail = h.tail;
        block_eq = sym (append_assoc message (size ++ body) h.tail);
        len = omega (arith, len, length-append message (size ++ body));
        block = (omega (arith, same, h.block), omega (arith, same, h.block));
      } in
      let (new, e, p) =
        pad_lem closed (message ++ (size ++ body)) deficit held
          (omega (arith, length-append message (size ++ body))) in
      (
        new,
        p.padding,
        close_steps ctx (length message) (length payload) deficit closed new payload_eq deficit_eq
            stored e,
        subst (λ l. Holds new l) (append_assoc message (size ++ body) p.padding) p.holds,
        p.amount_eq,
        record { depth = p.same.depth; position = p.same.position },
      )

  at_depth :
      (ctx : NlContext) (depth : ℕ) {message : List ℕ}
      → Holds ctx message
      → Holds (record ctx { attr_depth = depth }) message
  at_depth ctx depth h = record {
    tail = h.tail;
    block_eq = h.block_eq;
    len = h.len;
    block = h.block;
  }

  pop_steps :
      (ctx : NlContext) (depth pos : ℕ) (new : NlContext)
      → ctx.attr_depth ≡ depth + 1
      → get_elem? ctx.attr_nest_pos depth ≡ some pos
      → close_attr alloc (record ctx { attr_depth = depth }) pos ≡ ok new
      → nl_pop_attr alloc ctx ≡ ok (new, 0)
  unfolding nl_pop_attr
  pop_steps ctx depth pos new deeper found closes =
      let positive : (ctx.attr_depth == 0) ≡ false = ground arith in
      let below : ctx.attr_depth - 1 ≡ depth = omega (arith, deeper) in
      let found' = subst (λ (d : ℕ). get_elem? ctx.attr_nest_pos d ≡ some pos) (sym below) found in
      let closes' =
        subst (λ (d : ℕ). close_attr alloc (record ctx { attr_depth = d }) pos ≡ ok new) (sym below)
          closes in
      rw (positive, found', closes') refl

  -- An attribute without attributes in it, on a message with fewer than ten open attributes whose
  -- positions are in an array of ten, if memory does not run out and the message stays shorter than
  -- 2^63: behind the message come the length of the attribute as 16 bits, its type, the payload, and
  -- fewer than four bytes of padding up to a multiple of four; there are as many open attributes as
  -- before.
  pub attr_written :
      (ctx : NlContext) (message : List ℕ) (type : ℕ) (payload : List ℕ)
      → Holds ctx message
      → ctx.attr_depth < max_attr_nest
      → length ctx.attr_nest_pos ≡ max_attr_nest
      → (length message + length payload + 16) * 2 < 2 ^ 64
      → (pushed : NlContext) × (appended : NlContext) × (popped : NlContext) × (padding : List ℕ)
        × (nl_push_attr alloc ctx type ≡ ok (pushed, 0))
        × (nl_buffer_append alloc pushed payload (length payload) ≡ ok appended)
        × (nl_pop_attr alloc appended ≡ ok (popped, 0))
        × Holds popped (message ++ attr_bytes type payload padding)
        × (length padding ≡ rta_space (length payload) - rta_length (length payload))
        × (popped.attr_depth ≡ ctx.attr_depth)
  attr_written ctx message type payload h shallow ten small =
      let (pushed, pushes, o) = push_lem ctx message type h shallow (omega arith) in
      let header = o.junk_1 ∷ o.junk_2 ∷ bytes_16 type in
      let (appended, appends, held, nest) =
        append_holds pushed (message ++ header) payload o.holds
          (omega (arith, length-append message header)) in
      let open_ctx : NlContext = record appended { attr_depth = ctx.attr_depth } in
      let (popped, padding, closes, written, amount, same) =
        close_lem open_ctx message o.junk_1 o.junk_2 type payload
          (at_depth appended ctx.attr_depth
            (subst (λ l. Holds appended l) (append_assoc message header payload) held))
          small in
      (
        pushed,
        appended,
        popped,
        padding,
        pushes,
        appends,
        pop_steps appended ctx.attr_depth (length message) popped (nest.depth ∙ o.depth)
            (ap (λ p. get_elem? p ctx.attr_depth) (nest.position ∙ o.position)
              ∙ get_elem?-set_self ctx.attr_nest_pos ctx.attr_depth (length message)
                  (omega (arith, shallow, ten)))
            closes,
        written,
        amount,
        same.depth,
      )
