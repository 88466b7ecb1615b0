-- ===== src/Work.antt =====
-- src/netmirage-core/work.c: what the main process and the worker processes send to each other. An
-- `int`, such as an error code or an MTU, stands as the number of its 32 bits; 0 is success.
pub mod Pipe
pub mod Wire
pub mod Child
pub mod Master
pub mod Pool
mod Tests
use netmirage.Prelude.{ℕ, Bool, List, ◌==◌}
use netmirage.Ip.Order.{Ip4Addr}
use netmirage.Ip.Subnet.{Ip4Subnet}
use netmirage.Ip.Mac.{MacAddr}
use netmirage.Graphml.{TopoNode, TopoLink}

-- The three texts are blocks of memory, with the NUL at their ends.
pub record Configure : Type 0 where
  pub log_threshold : ℕ
  pub log_colorize : Bool
  pub ns_prefix_len : ℕ
  pub ovs_dir_len : ℕ
  pub ovs_schema_len : ℕ
  pub soft_mem_cap : ℕ
  pub ns_prefix : List ℕ
  pub ovs_dir : List ℕ
  pub ovs_schema : List ℕ

pub record AddRoot : Type 0 where
  pub addr_self : Ip4Addr
  pub addr_other : Ip4Addr
  pub mtu : ℕ
  pub use_init_ns : Bool
  pub existing : Bool

pub record AddHost : Type 0 where
  pub id : ℕ
  pub ip : Ip4Addr
  pub macs : List MacAddr
  pub mtu : ℕ
  pub node : TopoNode

pub record EnsureSystemScaling : Type 0 where
  pub link_count : ℕ
  pub node_count : ℕ
  pub client_nodes : ℕ

pub record AddLink : Type 0 where
  pub source_id : ℕ
  pub target_id : ℕ
  pub source_ip : Ip4Addr
  pub target_ip : Ip4Addr
  pub macs : List MacAddr
  pub mtu : ℕ
  pub link : TopoLink

pub record AddInternalRoutes : Type 0 where
  pub id1 : ℕ
  pub id2 : ℕ
  pub ip1 : Ip4Addr
  pub ip2 : Ip4Addr
  pub subnet1 : Ip4Subnet
  pub subnet2 : Ip4Subnet

pub record AddClientRoutes : Type 0 where
  pub client_id : ℕ
  pub client_macs : List MacAddr
  pub subnet : Ip4Subnet
  pub edge_port : ℕ
  pub client_ports : List ℕ

pub record AddEdgeRoutes : Type 0 where
  pub edge_subnet : Ip4Subnet
  pub edge_port : ℕ
  pub edge_local_mac : MacAddr
  pub edge_remote_mac : MacAddr

-- The code and its part of the union. The names of interfaces are the arrays of
-- `INTERFACE_BUF_LEN` bytes.
pub data WorkerOrder : Type 0 where
  worker_ping worker_terminate worker_destroy_hosts : WorkerOrder
  worker_configure : Configure → WorkerOrder
  worker_get_edge_remote_mac : List ℕ → Ip4Addr → WorkerOrder
  worker_get_edge_local_mac worker_get_interface_mtu worker_add_edge_interface :
      List ℕ → WorkerOrder
  worker_mtu_supported : ℕ → WorkerOrder
  worker_add_root : AddRoot → WorkerOrder
  worker_add_host : AddHost → WorkerOrder
  worker_set_self_link : ℕ → TopoLink → WorkerOrder
  worker_ensure_system_scaling : EnsureSystemScaling → WorkerOrder
  worker_add_link : AddLink → WorkerOrder
  worker_add_internal_routes : AddInternalRoutes → WorkerOrder
  worker_add_client_routes : AddClientRoutes → WorkerOrder
  worker_add_edge_routes : AddEdgeRoutes → WorkerOrder

-- `response_got_mtu_supported` has the address of the reason, 0 for NULL.
pub data WorkerResponse : Type 0 where
  response_error : ℕ → WorkerResponse
  response_pong response_log_end response_added_edge_interface : WorkerResponse
  response_log_print : ℕ → WorkerResponse
  response_got_mac : MacAddr → WorkerResponse
  response_got_mtu : ℕ → WorkerResponse
  response_got_mtu_supported : Bool → ℕ → WorkerResponse

-- `WorkerOrderCode`
abbrev pub order_code : WorkerOrder → ℕ
order_code worker_ping = 0
order_code worker_terminate = 1
order_code (worker_configure c) = 2
order_code (worker_get_edge_remote_mac n ip) = 3
order_code (worker_get_edge_local_mac n) = 4
order_code (worker_get_interface_mtu n) = 5
order_code (worker_mtu_supported m) = 6
order_code (worker_add_root o) = 7
order_code (worker_add_edge_interface n) = 8
order_code (worker_add_host o) = 9
order_code (worker_set_self_link id l) = 10
order_code (worker_ensure_system_scaling o) = 11
order_code (worker_add_link o) = 12
order_code (worker_add_internal_routes o) = 13
order_code (worker_add_client_routes o) = 14
order_code (worker_add_edge_routes o) = 15
order_code worker_destroy_hosts = 16

abbrev pub is_ping : WorkerOrder → Bool
is_ping order = order_code order == 0

abbrev pub is_configure : WorkerOrder → Bool
is_configure order = order_code order == 2
