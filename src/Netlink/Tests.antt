-- ===== src/Netlink/Tests.antt =====
-- A netlink message (src/common/lib/netlink.c) with one attribute, and late responses.
use netmirage.Prelude.{
  ℕ, ◌+◌, ◌≡◌, refl, true, false, List, [], ◌∷◌, length, replicate, Option, none, some, map, arith,
}
use netmirage.Mem.Checked.{ok, Allocator}
use netmirage.Netlink.{NlContext, nl_push_attr, nl_buffer_append, nl_pop_attr}
use netmirage.Netlink.Responses.{
  NlMessage, Received, recv_messages, Reading, call_handler, process, process_all, nl_responses,
}
use netmirage.Netlink.Responses.Stale.{only_responses_to, stale_ignored}
use netmirage.Netlink.Attr.{Holds, attr_bytes, attr_written}

abbrev plenty : Allocator
plenty = record { available = λ size. true; junk = 170 }

abbrev new_context : NlContext
new_context = record {
  msg_buffer = record { block = []; cap = 0 };
  msg_buffer_len = 0;
  nl_pid = 77;
  next_seq = 5;
  attr_nest_pos = replicate 10 0;
  attr_depth = 0;
}

new_context-Holds : Holds new_context []
new_context-Holds = record { tail = []; block_eq = refl; len = refl; block = (refl, omega arith) }

abbrev five_bytes : List ℕ
five_bytes = 101 ∷ 116 ∷ 104 ∷ 48 ∷ 0 ∷ []

attr_written_example :
    (pushed : NlContext) × (appended : NlContext) × (popped : NlContext) × (padding : List ℕ)
    × (nl_push_attr plenty new_context 3 ≡ ok (pushed, 0))
    × (nl_buffer_append plenty pushed five_bytes 5 ≡ ok appended)
    × (nl_pop_attr plenty appended ≡ ok (popped, 0))
    × Holds popped (attr_bytes 3 five_bytes padding)
    × (length padding ≡ 3)
    × (popped.attr_depth ≡ 0)
attr_written_example =
    attr_written plenty (λ size. refl) new_context [] 3 five_bytes new_context-Holds (omega arith)
      refl (omega arith)

abbrev count_messages : Option (ℕ → NlMessage → ℕ × ℕ)
count_messages = some (λ count message. (count + 1, 0))

abbrev nothing_read : Reading ℕ
nothing_read = record { kept = 0; keep_reading = true; multi_part_response = false; result = none }

-- A late error for call 5, and the acknowledgement of call 6.
abbrev late_and_acknowledged : List Received
late_and_acknowledged =
    recv_messages (
      record { nlmsg_type = 2; nlmsg_seq = 5; is_multi = false; error = 17; payload = [] }
      ∷ record { nlmsg_type = 2; nlmsg_seq = 6; is_multi = false; error = 0; payload = [] }
      ∷ [])
    ∷ []

acknowledged : nl_responses count_messages 6 nothing_read late_and_acknowledged ≡ some (1, 0)
unfolding nl_responses process_all process call_handler
acknowledged = refl

stale_ignored_example :
    nl_responses count_messages 6 nothing_read (map (only_responses_to 6) late_and_acknowledged)
    ≡ nl_responses count_messages 6 nothing_read late_and_acknowledged
stale_ignored_example = stale_ignored count_messages 6 nothing_read late_and_acknowledged
