-- ===== src/Work/Master.antt =====
-- The state of the main process (src/netmirage-core/work.c), and what its threads do with it.
pub mod Logs
pub mod Calls
use netmirage.Prelude.{
  ℕ, ◌+◌, ◌-◌, ◌%◌, ◌^◌, Bool, true, false, not, ◌&&◌, ◌==◌, if◌then◌else◌, List, [], ◌∷◌, ◌++◌,
  Option, none, some, take,
}
use netmirage.Mem.Checked.{Outcome, ok, ◌>>=◌, Allocator}
use netmirage.Mem.Flex.{Buffer, flex_buffer_grow, flex_buffer_grow_append_str, write_bytes}
use netmirage.Work.{
  WorkerOrder, worker_terminate, WorkerResponse, response_error, response_pong, response_log_end,
  response_log_print, response_got_mac, response_got_mtu, response_got_mtu_supported,
  response_added_edge_interface,
}

-- `workMain`, but for the workplaces, the lock and the conditions. The counters are 32 bits wide.
pub record WorkMain : Type 0 where
  pub pool_size : ℕ
  pub order_queue : List WorkerOrder
  pub unsent_orders : ℕ
  pub received_error : Bool
  pub error_code : ℕ
  pub response_queued : Bool
  pub response : WorkerResponse
  pub pongs_expected : ℕ

-- The part of the response thread that has the lock; the messages of the log do not concern it.
unfoldable pub receive : WorkMain → WorkerResponse → WorkMain
receive main response_pong = record main {
  pongs_expected = (main.pongs_expected + 2 ^ 32 - 1) % 2 ^ 32;
}
receive main (response_error code) = record main { error_code = code; received_error = true }
receive main (response_log_print len) = main
receive main response_log_end = main
receive main (response_got_mac mac) = record main {
  response = response_got_mac mac;
  response_queued = true;
}
receive main (response_got_mtu mtu) = record main {
  response = response_got_mtu mtu;
  response_queued = true;
}
receive main (response_got_mtu_supported supported reason) = record main {
  response = response_got_mtu_supported supported reason;
  response_queued = true;
}
receive main response_added_edge_interface = record main {
  response = response_added_edge_interface;
  response_queued = true;
}

-- `sendOrder`: an order that is not sent because of an error is dropped.
unfoldable pub send_order : WorkMain → WorkerOrder → Bool → WorkMain × ℕ
send_order main order ignore_errors =
    if not ignore_errors && main.received_error then (main, main.error_code) else (
      record main {
        unsent_orders = (main.unsent_orders + 1) % 2 ^ 32;
        order_queue = main.order_queue ++ (order ∷ []);
      },
      0,
    )

-- `WorkerResponseCode`
abbrev pub response_code : WorkerResponse → ℕ
response_code (response_error code) = 0
response_code response_pong = 1
response_code (response_log_print len) = 2
response_code response_log_end = 3
response_code (response_got_mac mac) = 4
response_code (response_got_mtu mtu) = 5
response_code (response_got_mtu_supported supported reason) = 6
response_code response_added_edge_interface = 7

-- `waitForResponse`; `none` while it waits.
unfoldable pub wait_for_response : WorkMain → ℕ → Option (WorkMain × ℕ)
wait_for_response main expected_code =
    if not main.received_error && not main.response_queued
    then none
    else if main.received_error
    then some (main, main.error_code)
    else if not (response_code main.response == expected_code)
    then some (main, 1)
    else some (record main { response_queued = false }, 0)
