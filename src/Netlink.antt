-- ===== src/Netlink.antt =====
-- src/common/lib/netlink.c: the messages for the kernel, which are built in a flexible buffer. The
-- machine is little-endian.
pub mod Attr
pub mod Responses
mod Tests
use netmirage.Prelude.{
  ℕ, zero, suc, ◌+◌, ◌-◌, ◌*◌, ◌/◌, ◌%◌, ◌^◌, ◌==◌, leb, ltb, bit_or, if◌then◌else◌, List, [], ◌∷◌,
  get_elem?, set, Option, none, some,
}
use netmirage.Mem.Checked.{Outcome, ok, fault, ◌>>=◌, Allocator}
use netmirage.Mem.Flex.{Buffer, flex_buffer_grow, flex_buffer_append, write_bytes}

abbrev pub max_attr_nest : ℕ
max_attr_nest = 10

-- `msgBuffer` with its length and capacity, and the context but for its socket and addresses.
pub record NlContext : Type 0 where
  pub msg_buffer : Buffer
  pub msg_buffer_len : ℕ
  pub nl_pid : ℕ
  pub next_seq : ℕ
  pub attr_nest_pos : List ℕ
  pub attr_depth : ℕ

-- The bytes of a `__u16` and a `__u32`.
abbrev pub bytes_16 : ℕ → List ℕ
bytes_16 n = n % 256 ∷ n / 256 % 256 ∷ []

abbrev pub bytes_32 : ℕ → List ℕ
bytes_32 n = n % 256 ∷ n / 256 % 256 ∷ n / 65536 % 256 ∷ n / 16777216 % 256 ∷ []

-- `RTA_ALIGN`, `RTA_LENGTH` and `RTA_SPACE`
abbrev pub rta_align : ℕ → ℕ
rta_align n = (n + 3) / 4 * 4

abbrev pub rta_length : ℕ → ℕ
rta_length n = n + 4

abbrev pub rta_space : ℕ → ℕ
rta_space n = rta_align (rta_length n)

-- `sizeof(struct nlmsghdr)`, which is aligned.
abbrev pub nlmsg_hdrlen : ℕ
nlmsg_hdrlen = 16

-- `NLM_F_REQUEST`
abbrev pub nlm_f_request : ℕ
nlm_f_request = 1

-- A store through a pointer into the buffer.
unfoldable pub store : NlContext → ℕ → List ℕ → Outcome NlContext
store ctx offset bytes = do
  block ← write_bytes ctx.msg_buffer.block offset bytes
  ok (record ctx { msg_buffer = record ctx.msg_buffer { block = block } })

unfoldable pub nl_commit_space : NlContext → ℕ → NlContext
nl_commit_space ctx amount = record ctx { msg_buffer_len = (ctx.msg_buffer_len + amount) % 2 ^ 64 }

module _ (alloc : Allocator) where
  unfoldable pub nl_reserve_space : NlContext → ℕ → Outcome NlContext
  nl_reserve_space ctx amount = do
    grown ← flex_buffer_grow alloc ctx.msg_buffer ctx.msg_buffer_len amount 1
    ok (record ctx { msg_buffer = grown })

  unfoldable pub nl_reset_space : NlContext → ℕ → Outcome NlContext
  nl_reset_space ctx initial_capacity =
      nl_reserve_space (record ctx { msg_buffer_len = 0 }) initial_capacity

  unfoldable pub nl_init_message : NlContext → ℕ → ℕ → Outcome NlContext
  nl_init_message ctx msg_type msg_flags = do
    reset ← nl_reset_space ctx nlmsg_hdrlen
    typed ← store (record reset { attr_depth = 0 }) 4 (bytes_16 msg_type)
    flagged ← store typed 6 (bytes_16 (bit_or nlm_f_request msg_flags))
    numbered ← store flagged 8 (bytes_32 flagged.next_seq)
    filled ←
        store (record numbered { next_seq = (numbered.next_seq + 1) % 2 ^ 32 }) 12
          (bytes_32 numbered.nl_pid)
    ok (nl_commit_space filled nlmsg_hdrlen)

  -- `bytes` are the `len` bytes at `buffer`.
  unfoldable pub nl_buffer_append : NlContext → List ℕ → ℕ → Outcome NlContext
  nl_buffer_append ctx bytes len = do
    reserved ← nl_reserve_space ctx len
    appended ← flex_buffer_append reserved.msg_buffer (some reserved.msg_buffer_len) bytes len 1
    elim appended.1 [
      | none ↦ fault
      | some n ↦ ok (record reserved { msg_buffer = appended.0; msg_buffer_len = n })
    ]

  push_at_tail : NlContext → ℕ → Outcome NlContext
  push_at_tail ctx type = do
    reserved ← nl_reserve_space ctx (rta_space 0)
    typed ← store reserved (reserved.msg_buffer_len + 2) (bytes_16 type)
    ok (
        nl_commit_space
          (record typed {
            attr_nest_pos = set typed.attr_nest_pos typed.attr_depth typed.msg_buffer_len;
            attr_depth = typed.attr_depth + 1;
          })
          4)

  -- The result is 2^32 - 1, for -1, if the nesting is too deep.
  unfoldable pub nl_push_attr : NlContext → ℕ → Outcome (NlContext × ℕ)
  unfolding push_at_tail
  nl_push_attr ctx type =
      if leb max_attr_nest ctx.attr_depth
      then ok (ctx, 2 ^ 32 - 1)
      else (do pushed ← push_at_tail ctx type; ok (pushed, 0))

  -- The padding that is missing is left as it is in the block.
  unfoldable pub pad : NlContext → ℕ → Outcome NlContext
  pad ctx padding_deficit =
      if ltb 0 padding_deficit
      then (do
        reserved ← nl_reserve_space ctx padding_deficit
        ok (nl_commit_space reserved padding_deficit))
      else ok ctx

  -- The attribute that begins at `pos` gets its length, cut to an `unsigned short`, and is padded.
  unfoldable pub close_attr : NlContext → ℕ → Outcome NlContext
  close_attr ctx pos =
      let payload_len = ctx.msg_buffer_len - (pos + 4) in
      let padding_deficit = rta_space payload_len - (ctx.msg_buffer_len - pos) in
      (do
        closed ← store ctx pos (bytes_16 (rta_length payload_len % 2 ^ 16))
        pad closed padding_deficit)

  unfoldable pub nl_pop_attr : NlContext → Outcome (NlContext × ℕ)
  unfolding close_attr
  nl_pop_attr ctx =
      if ctx.attr_depth == 0
      then ok (ctx, 2 ^ 32 - 1)
      else elim (get_elem? ctx.attr_nest_pos (ctx.attr_depth - 1)) [
        | none ↦ fault
        | some pos ↦ (do
          closed ← close_attr (record ctx { attr_depth = ctx.attr_depth - 1 }) pos
          ok (closed, 0))
      ]

-- The start of `nlSendMessage`: the length goes into the header, unless an attribute is open.
unfoldable pub nl_finish_message : NlContext → Outcome (NlContext × ℕ)
nl_finish_message ctx = if ltb 0 ctx.attr_depth then ok (ctx, 2 ^ 32 - 1) else (do
  finished ← store ctx 0 (bytes_32 ((ctx.msg_buffer_len - nlmsg_hdrlen) + nlmsg_hdrlen))
  ok (finished, 0))
