-- ===== src/Netlink/Responses/Stale.antt =====
-- Messages that are not a response to what has been sent.
use netmirage.Prelude.{
  ℕ, arith, ◌==◌, ◌≡◌, refl, ap, sym, ◌∙◌, true, false, if◌then◌else◌, List, [], ◌∷◌, Option, none,
  some, Bool-cases, inl, inr, map, Option-cases,
}
use netmirage.Netlink.Responses.{
  NlMessage, Received, recv_failed, recv_closed, recv_misaddressed, recv_overlong, recv_messages,
  Reading, is_relevant, process, process_all, after_datagram, nl_responses,
}

-- The messages that carry the sequence number of the request, but for `NLMSG_NOOP`, which is 1.
abbrev pub responses_to : ℕ → List NlMessage → List NlMessage
responses_to seq [] = []
responses_to seq (m ∷ ms) =
    let rest = responses_to seq ms in
    if m.nlmsg_seq == seq then if m.nlmsg_type == 1 then rest else m ∷ rest else rest

abbrev pub only_responses_to : ℕ → Received → Received
only_responses_to seq (recv_messages messages) = recv_messages (responses_to seq messages)
only_responses_to seq (recv_failed errno) = recv_failed errno
only_responses_to seq recv_closed = recv_closed
only_responses_to seq recv_misaddressed = recv_misaddressed
only_responses_to seq recv_overlong = recv_overlong

module _ {A : Type 0} (handler : Option (A → NlMessage → A × ℕ)) (seq : ℕ) where
  ended :
      (reading : Reading A) (code : ℕ) (messages : List NlMessage)
      → reading.result ≡ some code
      → process_all handler seq reading messages ≡ reading
  unfolding process_all
  ended reading code [] e = refl
  ended reading code (m ∷ ms) e = rw e refl

  taken :
      (reading : Reading A) (m : NlMessage) (ms : List NlMessage)
      → reading.result ≡ none
      → is_relevant seq m ≡ true
      → process_all handler seq reading (m ∷ ms)
        ≡ process_all handler seq (process handler seq reading m) ms
  unfolding process_all
  taken reading m ms e r = rw (e, r) refl

  skipped :
      (reading : Reading A) (m : NlMessage) (ms : List NlMessage)
      → reading.result ≡ none
      → is_relevant seq m ≡ false
      → process_all handler seq reading (m ∷ ms) ≡ process_all handler seq reading ms
  unfolding process_all
  skipped reading m ms e r = rw (e, r) refl

  relevant_keep :
      (m : NlMessage) (ms : List NlMessage)
      → is_relevant seq m ≡ true
      → responses_to seq (m ∷ ms) ≡ m ∷ responses_to seq ms
  relevant_keep m ms r = ground arith

  relevant_drop :
      (m : NlMessage) (ms : List NlMessage)
      → is_relevant seq m ≡ false
      → responses_to seq (m ∷ ms) ≡ responses_to seq ms
  relevant_drop m ms r = ground arith

  process_relevant :
      (reading : Reading A) (messages : List NlMessage)
      → process_all handler seq reading (responses_to seq messages)
        ≡ process_all handler seq reading messages
  process_relevant reading [] = refl
  process_relevant reading (m ∷ ms) = elim (Option-cases reading.result) [
    | inl e ↦ elim (Bool-cases (is_relevant seq m)) [
      | inl r ↦
          ap (process_all handler seq reading) (relevant_keep m ms r)
          ∙ taken reading m (responses_to seq ms) e r
          ∙ process_relevant (process handler seq reading m) ms
          ∙ sym (taken reading m ms e r)
      | inr r ↦
          ap (process_all handler seq reading) (relevant_drop m ms r)
          ∙ process_relevant reading ms
          ∙ sym (skipped reading m ms e r)
    ]
    | inr (code, e) ↦
        ended reading code (responses_to seq (m ∷ ms)) e ∙ sym (ended reading code (m ∷ ms) e)
  ]

  -- A nlSendMessage that waits for a response ends with the same result, and has given its handler
  -- the same messages, as if the messages with another sequence number and those of type NLMSG_NOOP
  -- had not been in the datagrams, whatever recvmsg gives.
  pub stale_ignored :
      (reading : Reading A) (received : List Received)
      → nl_responses handler seq reading (map (only_responses_to seq) received)
        ≡ nl_responses handler seq reading received
  unfolding nl_responses
  stale_ignored reading [] = refl
  stale_ignored reading (recv_failed errno ∷ more) = rw (stale_ignored reading more) refl
  stale_ignored reading (recv_closed ∷ more) = refl
  stale_ignored reading (recv_misaddressed ∷ more) = refl
  stale_ignored reading (recv_overlong ∷ more) = refl
  stale_ignored reading (recv_messages messages ∷ more) =
      ap
        (λ processed.
          after_datagram reading processed
            (nl_responses handler seq processed (map (only_responses_to seq) more)))
        (process_relevant reading messages)
      ∙ ap (after_datagram reading (process_all handler seq reading messages))
          (stale_ignored (process_all handler seq reading messages) more)
