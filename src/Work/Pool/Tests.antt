-- ===== src/Work/Pool/Tests.antt =====
-- A pool of one worker (src/netmirage-core/work.c), which is configured and then joined.
use netmirage.Prelude.{ℕ, ◌+◌, ◌≡◌, refl, Bool, true, false, List, [], ◌∷◌, some, arith}
use netmirage.Ip.Mac.{MacAddr}
use netmirage.Work.{
  Configure, WorkerOrder, WorkerResponse, response_error, response_pong, worker_ping,
  worker_configure,
}
use netmirage.Work.Child.{Worker, Child, obey, answer, carry_out, configure, respond}
use netmirage.Work.Master.{WorkMain, receive}
use netmirage.Work.Pool.{
  at_queue, Workplace, Move, here, by_child, by_response, flushing, waiting, returned, Runs, start,
  turn, join, order_at, join_step, announce, child_at, response_at, queued_error,
}
use netmirage.Work.Pool.States.{IsQuiet, Done}
use netmirage.Work.Pool.History.{
  History, begun, broadcast, work_init, init_main, init_workplace, History-IsQuiet,
}
use netmirage.Work.Pool.Carried.Sent.{AllCarriedOut, work_joined}

abbrev a_mac : MacAddr
a_mac = record { octets = 2 ∷ 0 ∷ 0 ∷ 0 ∷ 0 ∷ 1 ∷ [] }

-- A worker that counts the calls of its functions.
abbrev counting : Worker ℕ
counting = record {
  init = λ prefix dir schema cap w. (w + 1, 0);
  cleanup = λ w. 0;
  get_edge_remote_mac = λ name ip w. (w + 1, a_mac, 0);
  get_edge_local_mac = λ name w. (w + 1, a_mac, 0);
  get_interface_mtu = λ name w. (w + 1, 1500, 0);
  mtu_supported = λ mtu w. (w + 1, true, 0, 0);
  add_root = λ self other mtu use_init existing w. (w + 1, 0);
  add_edge_interface = λ name w. (w + 1, 0);
  add_host = λ id ip macs mtu node w. (w + 1, 0);
  set_self_link = λ id link w. (w + 1, 0);
  ensure_system_scaling = λ links nodes clients w. (w + 1, 0);
  add_link = λ source target source_ip target_ip macs mtu link w. (w + 1, 0);
  add_internal_routes = λ id1 id2 ip1 ip2 subnet1 subnet2 w. (w + 1, 0);
  add_client_routes = λ id macs subnet port ports w. (w + 1, 0);
  add_edge_routes = λ subnet port local remote w. (w + 1, 0);
  destroy_hosts = λ w. (w + 1, 5);
  logged = λ initialized colorize threshold w order. [];
  logged_last = λ initialized colorize threshold w. [];
}

abbrev a_configure : Configure
a_configure = record {
  log_threshold = 2;
  log_colorize = true;
  ns_prefix_len = 0;
  ovs_dir_len = 0;
  ovs_schema_len = 0;
  soft_mem_cap = 1000;
  ns_prefix = 0 ∷ [];
  ovs_dir = 0 ∷ [];
  ovs_schema = 0 ∷ [];
}

-- The pool after the broadcast of the configuration, and as `workJoin` leaves it.
abbrev one_main : ℕ → WorkMain
one_main pongs = record {
  pool_size = 1;
  order_queue = [];
  unsent_orders = 0;
  received_error = false;
  error_code = 0;
  response_queued = false;
  response = response_error 0;
  pongs_expected = pongs;
}

abbrev child_of : Bool → Bool → ℕ → ℕ → List WorkerResponse → Child ℕ
child_of initialized colorize threshold calls responses = record {
  initialized = initialized;
  colorize = colorize;
  threshold = threshold;
  worker = calls;
  responses = responses;
}

abbrev place : List WorkerOrder → Child ℕ → List (Workplace ℕ)
place orders child = record { sender = at_queue; orders = orders; child = child } ∷ []

abbrev new_child : Child ℕ
new_child = child_of false false 0 0 []

abbrev configured_place : List (Workplace ℕ)
configured_place = place (worker_configure a_configure ∷ []) new_child

history : History counting 1 false 0 0 (one_main 0) configured_place
unfolding work_init init_main init_workplace order_at
history =
    broadcast (one_main 0) (place [] new_child) (worker_configure a_configure) 0
      (begun (one_main 0) (place [] new_child) refl) refl

abbrev asked_place : List (Workplace ℕ)
asked_place = place (worker_configure a_configure ∷ worker_ping ∷ []) new_child

-- `workJoin` up to its loop.
runs_to_loop :
    Runs counting false flushing (one_main 0) configured_place waiting (one_main 1) asked_place
unfolding join_step announce order_at
runs_to_loop = join (join (join (join (join start refl) refl) refl) refl) refl

abbrev after_configure : List (Workplace ℕ)
after_configure = place (worker_ping ∷ []) (child_of true true 2 1 [])

abbrev after_ping : List (Workplace ℕ)
after_ping = place [] (child_of true true 2 1 (response_pong ∷ []))

abbrev after_all : List (Workplace ℕ)
after_all = place [] (child_of true true 2 1 [])

configure-Move : Move counting (one_main 1) asked_place (one_main 1) after_configure
unfolding child_at obey answer carry_out configure
configure-Move = here _ [] _ _ (by_child refl)

ping-Move : Move counting (one_main 1) after_configure (one_main 1) after_ping
unfolding child_at obey answer carry_out respond
ping-Move = here _ [] _ _ (by_child refl)

pong-Move : Move counting (one_main 1) after_ping (one_main 0) after_all
unfolding response_at receive
pong-Move = here _ [] _ _ (by_response refl)

runs_to_end :
    Runs counting false flushing (one_main 0) configured_place waiting (one_main 0) after_all
runs_to_end = turn (turn (turn runs_to_loop configure-Move) ping-Move) pong-Move

History-IsQuiet_example : IsQuiet (one_main 0) configured_place
History-IsQuiet_example = History-IsQuiet counting 1 false 0 0 (omega arith) history

returns : join_step false waiting (one_main 0) after_all ≡ some (returned 0, one_main 0, after_all)
unfolding join_step queued_error
returns = refl

work_joined_example :
    Done (one_main 0) after_all
    × AllCarriedOut counting 1 false 0 0 (worker_configure a_configure ∷ []) after_all
unfolding history
work_joined_example =
    work_joined counting 1 false 0 0 (omega arith) (one_main 0) configured_place false waiting
      (one_main 0) after_all (one_main 0) after_all history runs_to_end returns
