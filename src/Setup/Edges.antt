-- ===== src/Setup/Edges.antt =====
-- `setupConfigure` (src/netmirage-core/setup.c): the completion of the edge nodes and their subnets.
-- Writing the edge file and the log is input and output, except for whether the file can be opened.
pub mod Disjoint
use netmirage.Prelude.{
  ℕ, suc, ◌+◌, ◌-◌, ◌^◌, Bool, true, false, not, ◌&&◌, ◌||◌, ltb, ◌==◌, if◌then◌else◌, List, [],
  ◌∷◌, length, Option, none, some, ◌⊎◌, inl, inr,
}
use netmirage.Prelude.Text.{Text}
use netmirage.Ip.Order.{Ip4Addr}
use netmirage.Ip.Subnet.{Ip4Subnet, ip4_subnets_overlap}
use netmirage.Ip.Fragment.{
  Ip4FragIter, ip4_fragment_subnet, ip4_frag_iter_next, ip4_frag_iter_subnet,
}
use netmirage.Ip.Mac.{MacAddr}

-- `intf` is `none` for NULL; what only goes to the edge file is left out.
pub record EdgeNodeParams : Type 0 where
  pub ip : Ip4Addr
  pub intf : Option Text
  pub mac_specified : Bool
  pub mac : MacAddr
  pub vsubnet_specified : Bool
  pub vsubnet : Ip4Subnet

-- `default_intf` is `none` if `intfSpecified` is false.
pub record SetupParams : Type 0 where
  pub destroy_only : Bool
  pub keep_old_networks : Bool
  pub quiet : Bool
  pub edge_nodes : List EdgeNodeParams
  pub default_intf : Option Text
  pub global_vsubnet : Ip4Subnet

-- What the work queue and the file system answer, in return codes; a MAC address comes with its code.
pub record Answers : Type 0 where
  pub work_configure : ℕ
  pub work_join : ℕ
  pub destroy_network : ℕ
  pub work_get_edge_remote_mac : Text → Ip4Addr → MacAddr × ℕ
  pub edge_file_opens : Bool

module _ (answers : Answers) (params : SetupParams) where
  -- An edge node with its interface and the MAC address that is asked for; or what is left of it, with
  -- an error code.
  unfoldable pub with_mac : EdgeNodeParams → Text → EdgeNodeParams ⊎ (EdgeNodeParams × ℕ)
  with_mac edge intf =
      if edge.mac_specified
      then inl (record edge { intf = some intf })
      else let (mac, code) = answers.work_get_edge_remote_mac intf edge.ip in
        if code == 0
        then inl (record edge { intf = some intf; mac = mac })
        else inr (record edge { intf = some intf }, code)

  unfoldable pub complete_edge : EdgeNodeParams → EdgeNodeParams ⊎ (EdgeNodeParams × ℕ)
  complete_edge edge = elim edge.intf [
    | some intf ↦ with_mac edge intf
    | none ↦ elim params.default_intf [ none ↦ inr (edge, 1) | some intf ↦ with_mac edge intf ]
  ]

  -- An error leaves the edge nodes before it completed, and those behind it as they were.
  unfoldable pub complete_edges :
      List EdgeNodeParams → List EdgeNodeParams ⊎ (List EdgeNodeParams × ℕ)
  complete_edges [] = inl []
  complete_edges (e ∷ es) =
      let rest = complete_edges es in
      elim (complete_edge e) [
        | inr (left, code) ↦ inr (left ∷ es, code)
        | inl edge ↦ elim rest [
          | inr (left, code) ↦ inr (edge ∷ left, code)
          | inl edges ↦ inl (edge ∷ edges)
        ]
      ]

  -- `edgeSubnetsNeeded`
  subnets_needed : List EdgeNodeParams → ℕ
  subnets_needed [] = 0
  subnets_needed (e ∷ es) =
      if e.vsubnet_specified then subnets_needed es else suc (subnets_needed es)

  -- The fragments, for the edge nodes without a subnet; true if there are too few.
  provide : Ip4FragIter → List EdgeNodeParams → List EdgeNodeParams × Bool
  provide it [] = ([], false)
  provide it (e ∷ es) =
      let (it', more) = ip4_frag_iter_next it in
      let kept = provide it es in
      let given = provide it' es in
      if e.vsubnet_specified
      then (e ∷ kept.0, kept.1)
      else if more
      then (record e { vsubnet = ip4_frag_iter_subnet it' } ∷ given.0, given.1)
      else (e ∷ es, true)

  unfoldable pub provide_subnets : List EdgeNodeParams → List EdgeNodeParams × Bool
  unfolding subnets_needed provide
  provide_subnets edges =
      let needed = subnets_needed edges in
      let provided : List EdgeNodeParams × Bool =
        elim (ip4_fragment_subnet params.global_vsubnet needed) [
          | none ↦ (edges, true)
          | some it ↦ provide it edges
        ] in
      if ltb (2 ^ 32 - 1) needed
      then (edges, true)
      else if ltb 0 needed
      then provided
      else (edges, false)

unfoldable pub overlaps_one : EdgeNodeParams → List EdgeNodeParams → Bool
overlaps_one edge [] = false
overlaps_one edge (e ∷ es) = ip4_subnets_overlap edge.vsubnet e.vsubnet || overlaps_one edge es

-- Whether any two of the subnets overlap.
unfoldable pub any_overlap : List EdgeNodeParams → Bool
any_overlap [] = false
any_overlap (e ∷ es) = overlaps_one e es || any_overlap es

module _ (answers : Answers) (params : SetupParams) where
  -- From the subnets on, for edge nodes that are otherwise complete.
  unfoldable pub configure_subnets : List EdgeNodeParams → List EdgeNodeParams × ℕ
  configure_subnets completed =
      let provided = provide_subnets answers params completed in
      if provided.1 || any_overlap provided.0
      then (provided.0, 1)
      else if params.quiet || answers.edge_file_opens
      then (provided.0, 0)
      else (provided.0, 1)

  -- The edge nodes that are left, and the return code.
  unfoldable pub setup_configure : List EdgeNodeParams × ℕ
  setup_configure =
      let edges = params.edge_nodes in
      let configured : List EdgeNodeParams × ℕ = elim (complete_edges answers params edges) [
        | inr failed ↦ failed
        | inl completed ↦ configure_subnets completed
      ] in
      if not (answers.work_configure == 0)
      then (edges, answers.work_configure)
      else if not (answers.work_join == 0)
      then (edges, answers.work_join)
      else if params.destroy_only
      then (edges, answers.destroy_network)
      else if ltb (length edges) 1
      then (edges, 1)
      else if not params.keep_old_networks && not (answers.destroy_network == 0)
      then (edges, answers.destroy_network)
      else configured
