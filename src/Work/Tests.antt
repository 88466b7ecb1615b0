-- ===== src/Work/Tests.antt =====
-- The work queue (src/netmirage-core/work.c) on small inputs.
use Prim.Native.Nat.{min}
use netmirage.Prelude.{
  ℕ, zero, suc, ◌+◌, ◌-◌, ◌≤◌, ◌≡◌, ◌/◌, subst, refl, true, false, List, [], ◌∷◌, map, none, some,
  arith,
}
use netmirage.Prelude.Text.{codes}
use netmirage.Mem.Checked.{ok, Allocator}
use netmirage.Ip.Mac.{MacAddr}
use netmirage.Work.{
  Configure, WorkerOrder, order_code, worker_ping, worker_destroy_hosts, worker_configure,
  worker_mtu_supported, response_error, response_pong, response_log_print, response_log_end,
  response_got_mac, response_got_mtu,
}
use netmirage.Work.Pipe.{Written, write_all, IsFair}
use netmirage.Work.Pipe.Wholly.{Wrote, write_all-Wrote}
use netmirage.Work.Wire.{Layout, configure_of, write_orders, read_orders}
use netmirage.Work.Wire.Writing.{HasTexts, IsSendable}
use netmirage.Work.Wire.Fifo.{pipe_fifo}
use netmirage.Work.Child.{Worker, Child, child_log_print, child_process}
use netmirage.Work.Child.Writes.{pongs, answers}
use netmirage.Work.Child.Trace.{child_pongs, unconfigured_refuses}
use netmirage.Work.Child.Once.{configured_once}
use netmirage.Work.Master.{WorkMain, receive}
use netmirage.Work.Master.Logs.{Log, relay_all}
use netmirage.Work.Master.Logs.Joined.{Holds, pieces_joined}
use netmirage.Work.Master.Calls.{
  ask_edge_remote_mac, ask_edge_local_mac, ask_interface_mtu, work_add_edge_interface, answer_mac,
  answer_mtu,
}
use netmirage.Work.Master.Calls.Strings.{SendsName, named_order_sent}
use netmirage.Work.Master.Calls.Answers.{mac_answered}

some_inj : (a b : Configure) → some a ≡ some b → a ≡ b
some_inj a b e = cc

-- Memory never runs out.
abbrev plenty : Allocator
plenty = record { available = λ size. true; junk = 170 }

-- One byte at a time, and all at once.
abbrev byte_wise : ℕ → ℕ → ℕ
byte_wise calls n = min n 1

abbrev at_once : ℕ → ℕ → ℕ
at_once calls n = n

byte_wise-IsFair : IsFair byte_wise
byte_wise-IsFair = record { most = λ call n. omega arith; least = λ call n h. omega arith }

at_once-IsFair : IsFair at_once
at_once-IsFair = record { most = λ call n. omega arith; least = λ call n h. omega arith }

-- A pipe that fails at the fourth call.
abbrev failing : ℕ → ℕ → ℕ
failing calls n = min n (3 - calls)

write_all-Wrote_example :
    (w : Written) × (write_all failing 0 (9 ∷ []) (1 ∷ 2 ∷ 3 ∷ 4 ∷ 5 ∷ 6 ∷ 7 ∷ []) ≡ ok w)
    × Wrote (9 ∷ []) (1 ∷ 2 ∷ 3 ∷ 4 ∷ 5 ∷ 6 ∷ 7 ∷ []) w
write_all-Wrote_example =
    write_all-Wrote failing (λ call n. omega arith) 0 (9 ∷ []) (1 ∷ 2 ∷ 3 ∷ 4 ∷ 5 ∷ 6 ∷ 7 ∷ [])
      (omega arith)

abbrev a_configure : Configure
a_configure = record {
  log_threshold = 2;
  log_colorize = true;
  ns_prefix_len = 3;
  ovs_dir_len = 1;
  ovs_schema_len = 0;
  soft_mem_cap = 1000;
  ns_prefix = 110 ∷ 109 ∷ 45 ∷ 0 ∷ [];
  ovs_dir = 47 ∷ 0 ∷ [];
  ovs_schema = 0 ∷ [];
}

-- A layout for pings and this configuration.
abbrev decode_two : List ℕ → WorkerOrder
decode_two [] = worker_ping
decode_two (zero ∷ bytes) = worker_ping
decode_two (suc code ∷ bytes) =
    worker_configure (record a_configure { ns_prefix = []; ovs_dir = []; ovs_schema = [] })

abbrev two_layout : Layout
two_layout = record { size = 2; encode = λ order. order_code order ∷ 0 ∷ []; decode = decode_two }

ping-IsSendable : IsSendable two_layout worker_ping
unfolding configure_of
ping-IsSendable = record { sized = refl; small = omega arith; kept = refl; texts = λ c e. cc }

a_configure-HasTexts : HasTexts a_configure
a_configure-HasTexts = record {
  ns_prefix_text = record {
    text = 110 ∷ 109 ∷ 45 ∷ [];
    block_eq = refl;
    len_eq = refl;
    small = omega arith;
  };
  ovs_dir_text = record { text = 47 ∷ []; block_eq = refl; len_eq = refl; small = omega arith };
  ovs_schema_text = record { text = []; block_eq = refl; len_eq = refl; small = omega arith };
}

configure-IsSendable : IsSendable two_layout (worker_configure a_configure)
unfolding configure_of
configure-IsSendable = record {
  sized = refl;
  small = omega arith;
  kept = refl;
  texts = λ c e. subst HasTexts (some_inj a_configure c e) a_configure-HasTexts;
}

abbrev three_orders : List WorkerOrder
three_orders = worker_ping ∷ worker_configure a_configure ∷ worker_ping ∷ []

pipe_fifo_example :
    (w : Written) × (write_orders two_layout byte_wise 0 [] three_orders ≡ ok w)
    × (w.done ≡ true)
    × (read_orders plenty two_layout at_once 4 0 w.pipe ≡ ok three_orders)
pipe_fifo_example =
    pipe_fifo plenty two_layout byte_wise at_once byte_wise-IsFair at_once-IsFair three_orders
      (ping-IsSendable, (configure-IsSendable, (ping-IsSendable, tt))) (omega arith) (omega arith)
      (λ size. refl)

-- Functions of a worker that counts its calls; a host with the number 7 cannot be added.
abbrev a_mac : MacAddr
a_mac = record { octets = 2 ∷ 0 ∷ 0 ∷ 0 ∷ 0 ∷ 1 ∷ [] }

abbrev counting : Worker ℕ
counting = record {
  init = λ prefix dir schema cap w. (w + 1, 0);
  cleanup = λ w. 0;
  get_edge_remote_mac = λ name ip w. (w + 1, a_mac, 0);
  get_edge_local_mac = λ name w. (w + 1, a_mac, 0);
  get_interface_mtu = λ name w. (w + 1, 1500, 0);
  mtu_supported = λ mtu w. (w + 1, true, 0, 0);
  add_root = λ self other mtu use_init existing w. (w + 1, 0);
  add_edge_interface = λ name w. (w + 1, 0);
  add_host = λ id ip macs mtu node w. (w + 1, id / 7);
  set_self_link = λ id link w. (w + 1, 0);
  ensure_system_scaling = λ links nodes clients w. (w + 1, 0);
  add_link = λ source target source_ip target_ip macs mtu link w. (w + 1, 0);
  add_internal_routes = λ id1 id2 ip1 ip2 subnet1 subnet2 w. (w + 1, 0);
  add_client_routes = λ id macs subnet port ports w. (w + 1, 0);
  add_edge_routes = λ subnet port local remote w. (w + 1, 0);
  destroy_hosts = λ w. (w + 1, 5);
  logged = λ initialized colorize threshold w order. some (72 ∷ 105 ∷ []) ∷ none ∷ [];
  logged_last = λ initialized colorize threshold w. some [] ∷ none ∷ [];
}

abbrev fresh_child : Child ℕ
fresh_child = record {
  initialized = false;
  colorize = false;
  threshold = 0;
  worker = 0;
  responses = [];
}

abbrev ready_child : Child ℕ
ready_child = record fresh_child { initialized = true; worker = 1 }

abbrev some_orders : List WorkerOrder
some_orders =
    worker_ping
    ∷ worker_destroy_hosts
    ∷ worker_configure a_configure
    ∷ worker_destroy_hosts
    ∷ worker_ping
    ∷ worker_configure a_configure
    ∷ worker_mtu_supported 9000
    ∷ []

child_pongs_example :
    (pongs (child_process counting fresh_child some_orders).0.responses ≡ 0 + 2)
    × (answers (child_process counting fresh_child some_orders).0.responses ≤ 0 + 7)
child_pongs_example = child_pongs counting fresh_child some_orders

abbrev early_orders : List WorkerOrder
early_orders = worker_ping ∷ worker_destroy_hosts ∷ worker_mtu_supported 9000 ∷ worker_ping ∷ []

unconfigured_refuses_example : child_process counting fresh_child early_orders ≡ (
  record fresh_child {
    responses =
        response_log_print 2
        ∷ response_log_end
        ∷ response_pong
        ∷ response_log_print 2
        ∷ response_log_end
        ∷ response_error 1
        ∷ response_log_print 2
        ∷ response_log_end
        ∷ response_error 1
        ∷ response_log_print 2
        ∷ response_log_end
        ∷ response_pong
        ∷ response_log_print 0
        ∷ response_log_end
        ∷ [];
  },
  0,
)
unconfigured_refuses_example =
    unconfigured_refuses counting fresh_child early_orders refl (refl, (refl, (refl, (refl, tt))))

configured_once_example :
    (child_process counting ready_child some_orders
      ≡ child_process
          (record counting { init = λ prefix dir schema cap w. (0, 9) })
          ready_child
          some_orders)
    × ((child_process counting ready_child some_orders).0.initialized ≡ true)
configured_once_example =
    configured_once counting (λ prefix dir schema cap w. (0, 9)) ready_child some_orders refl

abbrev empty_log : Log
empty_log = record { buffer = record { block = []; cap = 0 }; log_len = 0 }

pieces_joined_example :
    (last : Log) × (relay_all plenty empty_log
        (map child_log_print (some (codes "[W0] ") ∷ some [] ∷ some (codes "ready") ∷ none ∷ []))
      ≡ ok (last, codes "[W0] ready" ∷ []))
    × Holds last []
pieces_joined_example =
    pieces_joined plenty (λ size. refl) empty_log (codes "[W0] " ∷ [] ∷ codes "ready" ∷ [])
      (record { block = (refl, omega arith); fits = omega arith; len = refl; held = refl })
      (ground arith) (omega arith)

abbrev idle_main : WorkMain
idle_main = record {
  pool_size = 2;
  order_queue = [];
  unsent_orders = 0;
  received_error = false;
  error_code = 0;
  response_queued = false;
  response = response_error 0;
  pongs_expected = 0;
}

named_order_sent_example :
    SendsName idle_main (codes "eth0") 3 (ask_edge_remote_mac idle_main (codes "eth0") 167772161)
    × SendsName idle_main (codes "eth0") 4 (ask_edge_local_mac idle_main (codes "eth0"))
    × SendsName idle_main (codes "eth0") 5 (ask_interface_mtu idle_main (codes "eth0"))
    × SendsName idle_main (codes "eth0") 8 (work_add_edge_interface idle_main (codes "eth0"))
named_order_sent_example = named_order_sent idle_main (codes "eth0") 167772161 refl (ground arith)

mac_answered_example :
    (answer_mac idle_main ≡ none)
    × ((next : WorkMain) × (answer_mac (receive idle_main (response_got_mac a_mac))
          ≡ some (next, 0, some a_mac))
        × (answer_mac next ≡ none))
    × ((next : WorkMain) × (answer_mac (receive idle_main (response_got_mtu 1500))
          ≡ some (next, 1, none))
        × ((last : WorkMain) × (answer_mtu next ≡ some (last, 0, some 1500))))
mac_answered_example = mac_answered idle_main a_mac 1500 refl refl
