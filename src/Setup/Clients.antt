-- ===== src/Setup/Clients.antt =====
-- The subnets of clients (src/netmirage-core/setup.c): `gmlNextEdge` and `gmlNextClientSubnet`, but for
-- what they log and write to the edge file.
pub mod Assigned
use netmirage.Prelude.{
  ℕ, zero, suc, ◌+◌, ◌-◌, ◌%◌, ◌^◌, Bool, true, false, leb, if◌then◌else◌, List, [], ◌∷◌, length,
  get_elem?, Option, none, some,
}
use netmirage.Mem.Checked.{Outcome, ok, fault, ◌>>=◌}
use netmirage.Ip.Subnet.{Ip4Subnet}
use netmirage.Ip.Fragment.{
  Ip4FragIter, ip4_fragment_subnet, ip4_frag_iter_next, ip4_frag_iter_subnet,
}

-- The fields of `gmlContext` that the two functions use; `client_iter` is `none` for NULL.
pub record ClientContext : Type 0 where
  pub current_edge_idx : ℕ
  pub current_edge_clients : ℕ
  pub client_iter : Option Ip4FragIter

-- `marker i` is `round(ctx->clientsPerEdge * i)`, and `vsubnets` are those of the edge nodes.
abbrev pub capacity : (ℕ → ℕ) → ℕ → ℕ
capacity marker i = (marker (i + 1) - marker i) % 2 ^ 32

module _ (marker : ℕ → ℕ) (vsubnets : List Ip4Subnet) where
  -- The iterator of an edge node; a NULL iterator is followed.
  unfoldable pub enter_edge : ℕ → Outcome (ClientContext × Bool)
  enter_edge index = elim (get_elem? vsubnets index) [
    | none ↦ fault
    | some vsubnet ↦ elim (ip4_fragment_subnet vsubnet (capacity marker index)) [
      | none ↦ fault
      | some it ↦
          let (it', more) = ip4_frag_iter_next it in
          ok (
            record { current_edge_idx = index; current_edge_clients = 0; client_iter = some it' },
            more,
          )
    ]
  ]

  -- The next edge node, with what `clientIter` is.
  unfoldable pub next_edge_from :
      ClientContext → Option Ip4FragIter → Outcome (ClientContext × Bool)
  next_edge_from ctx none = enter_edge 0
  next_edge_from ctx (some it) =
      let index = ctx.current_edge_idx + 1 in
      if leb (length vsubnets) index
      then ok (record ctx { current_edge_idx = index; client_iter = none }, false)
      else enter_edge index

  abbrev pub gml_next_edge : ClientContext → Outcome (ClientContext × Bool)
  gml_next_edge ctx = next_edge_from ctx ctx.client_iter

  -- `ip4FragIterSubnet(ctx->clientIter, subnet)`
  unfoldable pub subnet_of : ClientContext → Outcome (ClientContext × Option Ip4Subnet)
  subnet_of ctx = elim ctx.client_iter [
    | none ↦ fault
    | some it ↦ ok (ctx, some (ip4_frag_iter_subnet it))
  ]

  unfoldable pub after_edge : ClientContext → Outcome (ClientContext × Option Ip4Subnet)
  after_edge ctx = do
    entered ← gml_next_edge ctx
    (if entered.1 then subnet_of entered.0 else ok (entered.0, none))

  unfoldable pub next_subnet_from :
      ClientContext → Option Ip4FragIter → Outcome (ClientContext × Option Ip4Subnet)
  next_subnet_from ctx none = after_edge ctx
  next_subnet_from ctx (some it) =
      let (it', more) = ip4_frag_iter_next it in
      let moved = record ctx { client_iter = some it' } in
      if more then subnet_of moved else after_edge moved

  -- The subnet, unless it returns false.
  abbrev pub gml_next_client_subnet : ClientContext → Outcome (ClientContext × Option Ip4Subnet)
  gml_next_client_subnet ctx = next_subnet_from ctx ctx.client_iter

  -- A number of calls, up to the first that returns false.
  unfoldable pub client_subnets : ℕ → ClientContext → Outcome (List Ip4Subnet)
  client_subnets zero ctx = ok []
  client_subnets (suc n) ctx = do
    next ← gml_next_client_subnet ctx
    elim next.1 [
      | none ↦ ok []
      | some subnet ↦ (do rest ← client_subnets n next.0; ok (subnet ∷ rest))
    ]
