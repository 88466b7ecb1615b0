-- ===== src/Work/Master/Calls/Answers.antt =====
-- Errors and responses that the calls meet.
use netmirage.Prelude.{ℕ, ◌≡◌, refl, ap, ==_iff, true, false, none, some, ◌==◌}
use netmirage.Ip.Mac.{MacAddr}
use netmirage.Work.{response_got_mac, response_got_mtu}
use netmirage.Work.Master.{WorkMain, receive, response_code, wait_for_response}
use netmirage.Work.Master.Calls.{answer_after, answer_mac, answer_mtu, mac_in, mtu_in}

waits :
    (main : WorkMain) (expected_code : ℕ)
    → main.received_error ≡ false
    → main.response_queued ≡ false
    → wait_for_response main expected_code ≡ none
unfolding wait_for_response
waits main expected_code no_error no_response = simp (no_error, no_response) refl

taken :
    (main : WorkMain) (expected_code : ℕ)
    → main.received_error ≡ false
    → main.response_queued ≡ true
    → response_code main.response ≡ expected_code
    → wait_for_response main expected_code ≡ some (record main { response_queued = false }, 0)
unfolding wait_for_response
taken main expected_code no_error queued same =
    simp (no_error, queued, (==_iff (response_code main.response) expected_code).1 same) refl

left_queued :
    (main : WorkMain) (expected_code : ℕ)
    → main.received_error ≡ false
    → main.response_queued ≡ true
    → (response_code main.response == expected_code) ≡ false
    → wait_for_response main expected_code ≡ some (main, 1)
unfolding wait_for_response
left_queued main expected_code no_error queued other = simp (no_error, queued, other) refl

-- While no error has been received and no response is queued, a call for a MAC address waits. When one
-- with an address comes, the call returns 0 with that address and the response is queued no more. When
-- one with an MTU comes instead, the call returns 1 and the response stays: the next call for an MTU
-- takes it for its own.
pub mac_answered :
    (main : WorkMain) (mac : MacAddr) (mtu : ℕ)
    → main.received_error ≡ false
    → main.response_queued ≡ false
    → (answer_mac main ≡ none)
      × ((next : WorkMain) × (answer_mac (receive main (response_got_mac mac))
            ≡ some (next, 0, some mac))
          × (answer_mac next ≡ none))
      × ((next : WorkMain) × (answer_mac (receive main (response_got_mtu mtu))
            ≡ some (next, 1, none))
          × ((last : WorkMain) × (answer_mtu next ≡ some (last, 0, some mtu))))
unfolding answer_mac answer_mtu answer_after mac_in mtu_in receive
mac_answered main mac mtu no_error no_response = (
  ap (answer_after mac_in) (waits main 4 no_error no_response),
  (
    _,
    ap (answer_after mac_in) (taken (receive main (response_got_mac mac)) 4 no_error refl refl),
    ap (answer_after mac_in) (waits _ 4 no_error refl),
  ),
  (
    _,
    ap (answer_after mac_in)
        (left_queued (receive main (response_got_mtu mtu)) 4 no_error refl refl),
    (
      _,
      ap (answer_after mtu_in) (taken (receive main (response_got_mtu mtu)) 5 no_error refl refl),
    ),
  ),
)
