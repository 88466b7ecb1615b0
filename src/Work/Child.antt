-- ===== src/Work/Child.antt =====
-- The child processes (src/netmirage-core/work.c).
pub mod Writes
pub mod Trace
pub mod Once
pub mod Silent
use netmirage.Prelude.{
  ℕ, Bool, true, false, not, ◌&&◌, ◌||◌, ◌==◌, if◌then◌else◌, List, [], ◌∷◌, ◌++◌, ◌%◌, ◌^◌, length,
  Option, none, some,
}
use netmirage.Ip.Order.{Ip4Addr}
use netmirage.Ip.Subnet.{Ip4Subnet}
use netmirage.Ip.Mac.{MacAddr}
use netmirage.Graphml.{TopoNode, TopoLink}
use netmirage.Work.{
  Configure, AddRoot, AddHost, EnsureSystemScaling, AddLink, AddInternalRoutes, AddClientRoutes,
  AddEdgeRoutes, WorkerOrder, WorkerResponse, worker_ping, worker_terminate, worker_destroy_hosts,
  worker_configure, worker_get_edge_remote_mac, worker_get_edge_local_mac, worker_get_interface_mtu,
  worker_add_edge_interface, worker_mtu_supported, worker_add_root, worker_add_host,
  worker_set_self_link, worker_ensure_system_scaling, worker_add_link, worker_add_internal_routes,
  worker_add_client_routes, worker_add_edge_routes, response_error, response_pong, response_log_end,
  response_added_edge_interface, response_log_print, response_got_mac, response_got_mtu,
  response_got_mtu_supported, is_ping, is_configure,
}

-- The functions of src/netmirage-core/worker.c on the state `W` of the worker: the new state, what is
-- written through the last pointers, and the `int` returned. `logged` is what the log gives to
-- `childLogPrint` in a turn of the loop, from `initialized`, the log's settings, the state and the order:
-- the pieces of messages, and NULL, which is `none`, at the end of each; `logged_last` is the same for the
-- end of the process.
pub record Worker (W : Type 0) : Type 0 where
  pub init : List ℕ → List ℕ → List ℕ → ℕ → W → W × ℕ
  pub cleanup : W → ℕ
  pub get_edge_remote_mac : List ℕ → Ip4Addr → W → W × MacAddr × ℕ
  pub get_edge_local_mac : List ℕ → W → W × MacAddr × ℕ
  pub get_interface_mtu : List ℕ → W → W × ℕ × ℕ
  pub mtu_supported : ℕ → W → W × Bool × ℕ × ℕ
  pub add_root : Ip4Addr → Ip4Addr → ℕ → Bool → Bool → W → W × ℕ
  pub add_edge_interface : List ℕ → W → W × ℕ
  pub add_host : ℕ → Ip4Addr → List MacAddr → ℕ → TopoNode → W → W × ℕ
  pub set_self_link : ℕ → TopoLink → W → W × ℕ
  pub ensure_system_scaling : ℕ → ℕ → ℕ → W → W × ℕ
  pub add_link : ℕ → ℕ → Ip4Addr → Ip4Addr → List MacAddr → ℕ → TopoLink → W → W × ℕ
  pub add_internal_routes : ℕ → ℕ → Ip4Addr → Ip4Addr → Ip4Subnet → Ip4Subnet → W → W × ℕ
  pub add_client_routes : ℕ → List MacAddr → Ip4Subnet → ℕ → List ℕ → W → W × ℕ
  pub add_edge_routes : Ip4Subnet → ℕ → MacAddr → MacAddr → W → W × ℕ
  pub destroy_hosts : W → W × ℕ
  pub logged : Bool → Bool → ℕ → W → WorkerOrder → List (Option (List ℕ))
  pub logged_last : Bool → Bool → ℕ → W → List (Option (List ℕ))

-- `childLogPrint`: the response and the bytes behind it; `none` stands for NULL.
abbrev pub child_log_print : Option (List ℕ) → WorkerResponse × List ℕ
child_log_print none = (response_log_end, [])
child_log_print (some msg) = (response_log_print (length msg), msg)

abbrev pub log_responses : List (Option (List ℕ)) → List WorkerResponse
log_responses [] = []
log_responses (piece ∷ pieces) = let rest = log_responses pieces in (child_log_print piece).0 ∷ rest

-- `colorize` and `threshold` are the log's, and `responses` what has been written, the first in front.
pub record Child (W : Type 0) : Type 0 where
  pub initialized : Bool
  pub colorize : Bool
  pub threshold : ℕ
  pub worker : W
  pub responses : List WorkerResponse

module _ {W : Type 0} where
  unfoldable pub respond : Child W → WorkerResponse → Child W
  respond child response = record child { responses = child.responses ++ (response ∷ []) }

  unfoldable pub respond_error : Child W → ℕ → Child W
  respond_error child code = respond child (response_error code)

  -- What the log writes for the pieces that it is given.
  abbrev pub print : Child W → List (Option (List ℕ)) → Child W
  print child pieces = record child { responses = child.responses ++ log_responses pieces }

  -- A call that writes no response of its own.
  unfoldable pub after : Child W → W × ℕ → Child W × ℕ
  after child (worker, err) = (record child { worker = worker }, err)

  -- A call whose result is the response, unless it returned an error.
  unfoldable pub answered : Child W → W → WorkerResponse → ℕ → Child W × ℕ
  answered child worker response err =
      let called = record child { worker = worker } in
      if err == 0 then (respond called response, err) else (called, err)

  module _ (functions : Worker W) where
    unfoldable pub configure : Child W → Configure → Child W × ℕ
    configure child c =
        let (worker, err) =
          functions.init c.ns_prefix c.ovs_dir c.ovs_schema c.soft_mem_cap child.worker in
        (
          record child {
            colorize = c.log_colorize;
            threshold = c.log_threshold;
            worker = worker;
            initialized = if err == 0 then true else child.initialized;
          },
          err,
        )

    -- The `switch`. A child is never sent the code `WorkerTerminate`, which is not among its cases.
    unfoldable pub carry_out : Child W → WorkerOrder → Child W × ℕ
    carry_out child worker_ping = (respond child response_pong, 0)
    carry_out child worker_terminate = (child, 1)
    carry_out child (worker_configure c) = configure child c
    carry_out child (worker_get_edge_remote_mac intf_name ip) =
        let (w, mac, err) = functions.get_edge_remote_mac intf_name ip child.worker in
        answered child w (response_got_mac mac) err
    carry_out child (worker_get_edge_local_mac intf_name) =
        let (w, mac, err) = functions.get_edge_local_mac intf_name child.worker in
        answered child w (response_got_mac mac) err
    carry_out child (worker_get_interface_mtu intf_name) =
        let (w, mtu, err) = functions.get_interface_mtu intf_name child.worker in
        answered child w (response_got_mtu mtu) err
    carry_out child (worker_mtu_supported mtu) =
        let (w, supported, fail_reason, err) = functions.mtu_supported mtu child.worker in
        answered child w (response_got_mtu_supported supported fail_reason) err
    carry_out child (worker_add_root o) =
        after child
          (functions.add_root o.addr_self o.addr_other o.mtu o.use_init_ns o.existing child.worker)
    carry_out child (worker_add_edge_interface intf_name) =
        after child (functions.add_edge_interface intf_name child.worker)
    carry_out child (worker_add_host o) =
        after child (functions.add_host o.id o.ip o.macs o.mtu o.node child.worker)
    carry_out child (worker_set_self_link id link) =
        after child (functions.set_self_link id link child.worker)
    carry_out child (worker_ensure_system_scaling o) =
        after child
          (functions.ensure_system_scaling o.link_count o.node_count o.client_nodes child.worker)
    carry_out child (worker_add_link o) = after child (
        functions.add_link o.source_id o.target_id o.source_ip o.target_ip o.macs o.mtu o.link
          child.worker)
    carry_out child (worker_add_internal_routes o) =
        after child
          (functions.add_internal_routes o.id1 o.id2 o.ip1 o.ip2 o.subnet1 o.subnet2 child.worker)
    carry_out child (worker_add_client_routes o) = after child (
        functions.add_client_routes o.client_id o.client_macs o.subnet o.edge_port o.client_ports
          child.worker)
    carry_out child (worker_add_edge_routes o) = after child (
        functions.add_edge_routes o.edge_subnet o.edge_port o.edge_local_mac o.edge_remote_mac
          child.worker)
    carry_out child worker_destroy_hosts = after child (functions.destroy_hosts child.worker)

    -- One turn of the loop, for an order that has been read, but for what it logs.
    unfoldable pub answer : Child W → WorkerOrder → Child W
    answer child order =
        let (done, err) = carry_out child order in
        if child.initialized && is_configure order
        then respond_error child 1
        else if not child.initialized && not (is_configure order || is_ping order)
        then respond_error child 1
        else if not (err == 0)
        then respond_error done err
        else done

    -- One turn of the loop: nothing is logged after the response, which is the last that is written.
    unfoldable pub obey : Child W → WorkerOrder → Child W
    obey child order =
        answer
          (print child
            (functions.logged child.initialized child.colorize child.threshold child.worker order))
          order

    -- The orders that `readOrder` reads until it returns false, and the exit code.
    unfoldable pub child_process : Child W → List WorkerOrder → Child W × ℕ
    child_process child [] = (
      print child
          (functions.logged_last child.initialized child.colorize child.threshold child.worker),
      if child.initialized then functions.cleanup child.worker else 0,
    )
    child_process child (order ∷ orders) = child_process (obey child order) orders
