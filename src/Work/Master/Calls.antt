-- ===== src/Work/Master/Calls.antt =====
-- The calls for the main thread (src/netmirage-core/work.c): the orders that they make, and what they
-- do with the responses.
pub mod Answers
pub mod Strings
use netmirage.Prelude.{
  ℕ, zero, suc, ◌+◌, ◌*◌, ◌%◌, ◌^◌, ◌==◌, Bool, true, false, not, leb, if◌then◌else◌, List, [], ◌∷◌,
  ◌++◌, length, take, replicate, Option, none, some,
}
use netmirage.Prelude.Text.{Text}
use netmirage.Mem.Checked.{Outcome, ok, fault, ◌>>=◌}
use netmirage.Ip.Order.{Ip4Addr}
use netmirage.Ip.Subnet.{Ip4Subnet}
use netmirage.Ip.Mac.{MacAddr}
use netmirage.Graphml.{TopoNode, TopoLink}
use netmirage.Setup.{needed_macs_link, needed_macs_client}
use netmirage.Work.{
  Configure, AddRoot, AddHost, EnsureSystemScaling, AddLink, AddInternalRoutes, AddClientRoutes,
  AddEdgeRoutes, WorkerOrder, WorkerResponse, is_ping, is_configure, order_code, worker_ping,
  worker_terminate, worker_destroy_hosts, worker_configure, worker_get_edge_remote_mac,
  worker_get_edge_local_mac, worker_get_interface_mtu, worker_add_edge_interface,
  worker_mtu_supported, worker_add_root, worker_add_host, worker_set_self_link,
  worker_ensure_system_scaling, worker_add_link, worker_add_internal_routes,
  worker_add_client_routes, worker_add_edge_routes, response_error, response_pong, response_log_end,
  response_added_edge_interface, response_log_print, response_got_mac, response_got_mtu,
  response_got_mtu_supported,
}
use netmirage.Work.Master.{WorkMain, send_order, wait_for_response}

abbrev pub interface_buf_len : ℕ
interface_buf_len = 16

abbrev pub needed_ports_client : ℕ
needed_ports_client = 2

-- `strncpy` into an array of `n` bytes: the rest is filled with NULs.
unfoldable pub strncpy : ℕ → Text → List ℕ
strncpy n name = take n (name ++ replicate n 0)

abbrev pub intf_name_of : Text → List ℕ
intf_name_of name = strncpy interface_buf_len name

-- The addresses that are copied from an array, which must be in it.
unfoldable pub copy_macs : ℕ → List MacAddr → Outcome (List MacAddr)
copy_macs n macs = if leb n (length macs) then ok (take n macs) else fault

-- `clientPorts[i] = nextOvsPort++`
unfoldable pub next_ports : ℕ → ℕ → List ℕ
next_ports zero next_ovs_port = []
next_ports (suc n) next_ovs_port = next_ovs_port ∷ next_ports n ((next_ovs_port + 1) % 2 ^ 32)

-- The order of `workConfigure`. `soft_mem_cap` is the share of one worker, which is rounded in
-- floating point; `strdup` keeps the NUL.
unfoldable pub configure_order : ℕ → Bool → Text → Text → Option Text → ℕ → Configure
configure_order log_threshold log_colorize ns_prefix ovs_dir ovs_schema soft_mem_cap =
    let schema : Text = elim ovs_schema [ none ↦ [] | some text ↦ text ] in
    record {
      log_threshold = log_threshold;
      log_colorize = log_colorize;
      ns_prefix_len = length ns_prefix;
      ovs_dir_len = length ovs_dir;
      ovs_schema_len = length schema;
      soft_mem_cap = soft_mem_cap;
      ns_prefix = ns_prefix ++ (0 ∷ []);
      ovs_dir = ovs_dir ++ (0 ∷ []);
      ovs_schema = schema ++ (0 ∷ []);
    }

-- Calls that send an order and do not wait.
unfoldable pub work_add_edge_interface : WorkMain → Text → WorkMain × ℕ
work_add_edge_interface main intf_name =
    send_order main (worker_add_edge_interface (intf_name_of intf_name)) false

-- Only a client's addresses are copied; `[]` stands for an array that is not written.
unfoldable pub work_add_host :
    WorkMain → ℕ → Ip4Addr → List MacAddr → ℕ → TopoNode → Outcome (WorkMain × ℕ)
work_add_host main id ip macs mtu node = do
  copied ← (if node.client then copy_macs needed_macs_client macs else ok [])
  ok (
      send_order main
        (worker_add_host (record { id = id; ip = ip; macs = copied; mtu = mtu; node = node }))
        false)

unfoldable pub work_set_self_link : WorkMain → ℕ → TopoLink → WorkMain × ℕ
work_set_self_link main id link = send_order main (worker_set_self_link id link) false

unfoldable pub work_ensure_system_scaling : WorkMain → ℕ → ℕ → ℕ → WorkMain × ℕ
work_ensure_system_scaling main link_count node_count client_nodes =
    send_order main
      (worker_ensure_system_scaling
        (record { link_count = link_count; node_count = node_count; client_nodes = client_nodes }))
      false

unfoldable pub work_add_link :
    WorkMain → ℕ → ℕ → Ip4Addr → Ip4Addr → List MacAddr → ℕ → TopoLink → Outcome (WorkMain × ℕ)
work_add_link main source_id target_id source_ip target_ip macs mtu link = do
  copied ← copy_macs needed_macs_link macs
  ok (
      send_order main
        (worker_add_link (record {
          source_id = source_id;
          target_id = target_id;
          source_ip = source_ip;
          target_ip = target_ip;
          macs = copied;
          mtu = mtu;
          link = link;
        }))
        false)

unfoldable pub work_add_internal_routes :
    WorkMain → ℕ → ℕ → Ip4Addr → Ip4Addr → Ip4Subnet → Ip4Subnet → WorkMain × ℕ
work_add_internal_routes main id1 id2 ip1 ip2 subnet1 subnet2 =
    send_order main
      (worker_add_internal_routes (record {
        id1 = id1;
        id2 = id2;
        ip1 = ip1;
        ip2 = ip2;
        subnet1 = subnet1;
        subnet2 = subnet2;
      }))
      false

unfoldable pub work_add_client_routes :
    WorkMain → ℕ → List MacAddr → Ip4Subnet → ℕ → ℕ → Outcome (WorkMain × ℕ)
work_add_client_routes main client_id client_macs subnet edge_port next_ovs_port = do
  copied ← copy_macs needed_macs_client client_macs
  ok (
      send_order main
        (worker_add_client_routes (record {
          client_id = client_id;
          client_macs = copied;
          subnet = subnet;
          edge_port = edge_port;
          client_ports = next_ports needed_ports_client next_ovs_port;
        }))
        false)

unfoldable pub work_add_edge_routes : WorkMain → Ip4Subnet → ℕ → MacAddr → MacAddr → WorkMain × ℕ
work_add_edge_routes main edge_subnet edge_port edge_local_mac edge_remote_mac =
    send_order main
      (worker_add_edge_routes (record {
        edge_subnet = edge_subnet;
        edge_port = edge_port;
        edge_local_mac = edge_local_mac;
        edge_remote_mac = edge_remote_mac;
      }))
      false

unfoldable pub work_destroy_hosts : WorkMain → WorkMain × ℕ
work_destroy_hosts main = send_order main worker_destroy_hosts false

-- The first halves of the calls that wait for a response: what they send.
unfoldable pub ask_edge_remote_mac : WorkMain → Text → Ip4Addr → WorkMain × ℕ
ask_edge_remote_mac main intf_name ip =
    send_order main (worker_get_edge_remote_mac (intf_name_of intf_name) ip) false

unfoldable pub ask_edge_local_mac : WorkMain → Text → WorkMain × ℕ
ask_edge_local_mac main intf_name =
    send_order main (worker_get_edge_local_mac (intf_name_of intf_name)) false

unfoldable pub ask_interface_mtu : WorkMain → Text → WorkMain × ℕ
ask_interface_mtu main intf_name =
    send_order main (worker_get_interface_mtu (intf_name_of intf_name)) false

unfoldable pub ask_mtu_supported : WorkMain → ℕ → WorkMain × ℕ
ask_mtu_supported main mtu = send_order main (worker_mtu_supported mtu) false

-- The fields of the union that the second halves read.
unfoldable pub mac_in : WorkerResponse → Option MacAddr
mac_in (response_got_mac mac) = some mac
mac_in _ = none

unfoldable pub mtu_in : WorkerResponse → Option ℕ
mtu_in (response_got_mtu mtu) = some mtu
mtu_in _ = none

unfoldable pub supported_in : WorkerResponse → Option (Bool × ℕ)
supported_in (response_got_mtu_supported supported reason) = some (supported, reason)
supported_in _ = none

-- The second halves, with what they store, if they do; `none` while they wait.
unfoldable pub answer_after :
    {A : Type 0}
    → (WorkerResponse → Option A)
    → Option (WorkMain × ℕ)
    → Option (WorkMain × ℕ × Option A)
answer_after field none = none
answer_after field (some (main, err)) =
    some (main, err, if err == 0 then field main.response else none)

-- `workGetEdgeRemoteMac` and `workGetEdgeLocalMac`
unfoldable pub answer_mac : WorkMain → Option (WorkMain × ℕ × Option MacAddr)
answer_mac main = answer_after mac_in (wait_for_response main 4)

unfoldable pub answer_mtu : WorkMain → Option (WorkMain × ℕ × Option ℕ)
answer_mtu main = answer_after mtu_in (wait_for_response main 5)

unfoldable pub answer_mtu_supported : WorkMain → Option (WorkMain × ℕ × Option (Bool × ℕ))
answer_mtu_supported main = answer_after supported_in (wait_for_response main 6)

-- `workAddRoot`, with `workJoin` and `broadcastOrder`.
module _ (work_join : WorkMain → WorkMain × ℕ)
    (broadcast_order : WorkMain → WorkerOrder → WorkMain × Bool) where
  unfoldable pub work_add_root : WorkMain → Ip4Addr → Ip4Addr → ℕ → Bool → WorkMain × ℕ
  work_add_root main addr_self addr_other mtu use_init_ns =
      let load_order : AddRoot = record {
        addr_self = addr_self;
        addr_other = addr_other;
        mtu = mtu;
        use_init_ns = use_init_ns;
        existing = true;
      } in
      let created =
        send_order main (worker_add_root (record load_order { existing = false })) false in
      let joined = work_join created.0 in
      let loaded = broadcast_order joined.0 (worker_add_root load_order) in
      if not (created.1 == 0)
      then created
      else if not (joined.1 == 0)
      then joined
      else (loaded.0, if loaded.1 then 0 else 1)
