-- ===== src/Netlink/Responses.antt =====
-- The responses that `nlSendMessage` (src/common/lib/netlink.c) waits for.
pub mod Stale
use netmirage.Prelude.{
  ℕ, ◌-◌, ◌^◌, ◌==◌, Bool, true, false, not, ◌&&◌, ◌||◌, if◌then◌else◌, List, [], ◌∷◌, Option, none,
  some,
}

-- A message of a datagram. `error` is the positive code in an `NLMSG_ERROR`, 0 for an acknowledgement.
pub record NlMessage : Type 0 where
  pub nlmsg_type : ℕ
  pub nlmsg_seq : ℕ
  pub is_multi : Bool
  pub error : ℕ
  pub payload : List ℕ

-- `NLMSG_NOOP`, `NLMSG_ERROR`, `NLMSG_DONE` and `EINTR`
abbrev pub nlmsg_noop : ℕ
nlmsg_noop = 1

abbrev pub nlmsg_error : ℕ
nlmsg_error = 2

abbrev pub nlmsg_done : ℕ
nlmsg_done = 3

abbrev pub eintr : ℕ
eintr = 4

-- What `recvmsg` gives: a failure with its `errno`, the end of the connection, a datagram with another
-- kind of address or one that is too long, or the messages of a datagram.
pub data Received : Type 0 where
  recv_failed : ℕ → Received
  recv_closed recv_misaddressed recv_overlong : Received
  recv_messages : List NlMessage → Received

-- The state of the loops: what the handler keeps, `keepReading` and `multiPartResponse`, and the
-- result, once there is one.
pub record Reading (A : Type 0) : Type 0 where
  pub kept : A
  pub keep_reading : Bool
  pub multi_part_response : Bool
  pub result : Option ℕ

-- What the loop does with a datagram, from its messages and from what comes after it.
abbrev pub after_datagram : {A : Type 0} → Reading A → Reading A → Option (A × ℕ) → Option (A × ℕ)
after_datagram reading processed again =
    if not reading.keep_reading
    then some (reading.kept, 0)
    else elim processed.result [ some code ↦ some (processed.kept, code) | none ↦ again ]

abbrev pub is_relevant : ℕ → NlMessage → Bool
is_relevant seq message = not (message.nlmsg_type == nlmsg_noop) && (message.nlmsg_seq == seq)

-- `handler` is `none` for NULL.
module _ {A : Type 0} (handler : Option (A → NlMessage → A × ℕ)) (seq : ℕ) where
  unfoldable pub call_handler : Reading A → NlMessage → Reading A
  call_handler reading message = elim handler [
    | none ↦ reading
    | some handle ↦
        let (kept, user_error) = handle reading.kept message in
        record reading { kept = kept; result = if user_error == 0 then none else some user_error }
  ]

  -- A message that is targeted at us.
  unfoldable pub process : Reading A → NlMessage → Reading A
  process reading message =
      let multi = reading.multi_part_response || message.is_multi in
      let counted = record reading {
        keep_reading = reading.keep_reading && message.is_multi;
        multi_part_response = multi;
      } in
      if (message.nlmsg_type == nlmsg_error) && not (message.error == 0)
      then record reading { result = some message.error }
      else if multi && (message.nlmsg_type == nlmsg_done)
      then record counted { keep_reading = false }
      else call_handler counted message

  -- The messages of a datagram, up to one that ends the call.
  unfoldable pub process_all : Reading A → List NlMessage → Reading A
  process_all reading [] = reading
  process_all reading (message ∷ messages) =
      let rest = process_all (process reading message) messages in
      let skipped = process_all reading messages in
      elim reading.result [
        | some code ↦ reading
        | none ↦ if is_relevant seq message then rest else skipped
      ]

  -- The loop over `recvmsg`; `none` while it waits. The code compares the result of `recvmsg`, which is
  -- -1, with `ENOBUFS` and `EAGAIN`, so only `EINTR` makes it try again.
  unfoldable pub nl_responses : Reading A → List Received → Option (A × ℕ)
  nl_responses reading [] = if reading.keep_reading then none else some (reading.kept, 0)
  nl_responses reading (recv_failed errno ∷ more) =
      let again = nl_responses reading more in
      if not reading.keep_reading
      then some (reading.kept, 0)
      else if errno == eintr
      then again
      else some (reading.kept, errno)
  nl_responses reading (recv_closed ∷ more) =
      some (reading.kept, if reading.keep_reading then 2 ^ 32 - 1 else 0)
  nl_responses reading (recv_misaddressed ∷ more) =
      some (reading.kept, if reading.keep_reading then 2 ^ 32 - 1 else 0)
  nl_responses reading (recv_overlong ∷ more) =
      some (reading.kept, if reading.keep_reading then 2 ^ 32 - 1 else 0)
  nl_responses reading (recv_messages messages ∷ more) =
      let processed = process_all reading messages in
      let again = nl_responses processed more in after_datagram reading processed again
