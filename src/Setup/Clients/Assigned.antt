-- ===== src/Setup/Clients/Assigned.antt =====
-- Which subnets the clients get.
use mathlib.Core.List.{append_assoc}
use netmirage.Prelude.{
  ℕ, zero, suc, ◌+◌, ◌/◌, ◌^◌, ◌≤◌, ◌<◌, ◌≡◌, refl, ap, sym, subst, ◌∙◌, true, false, List, [], ◌∷◌,
  ◌++◌, length, get_elem?, none, some, arith, Bool-cases, inl, inr, length-append, lt→leb_false,
}
use netmirage.Mem.Checked.{ok}
use netmirage.Ip.Subnet.{Ip4Subnet, IsValid, size_of, first_of}
use netmirage.Ip.Fragment.{
  Ip4FragIter, ip4_fragment_subnet, ip4_frag_iter_next, ip4_frag_iter_subnet, fragments,
}
use netmirage.Ip.Fragment.Tile.{Tiles}
use netmirage.Ip.Fragment.Cover.{fragment_subnet_covers}
use netmirage.Setup.Clients.{
  ClientContext, capacity, enter_edge, next_edge_from, next_subnet_from, gml_next_edge, subnet_of,
  after_edge, gml_next_client_subnet, client_subnets,
}

-- Calling the iterator gives the subnets of a list, and then no more.
abbrev Yields : Ip4FragIter → List Ip4Subnet → Type 0
Yields it [] = (ip4_frag_iter_next it).1 ≡ false
Yields it (s ∷ ss) =
    let (it', more) = ip4_frag_iter_next it in
    (more ≡ true) × (ip4_frag_iter_subnet it' ≡ s) × Yields it' ss

fragments-Yields :
    (n : ℕ) (it : Ip4FragIter)
    → length (fragments (suc n) it) ≤ n
    → Yields it (fragments (suc n) it)
unfolding fragments
fragments-Yields zero it h = elim (Bool-cases (ip4_frag_iter_next it).1) [
  | inl more ↦ absurd (omega (arith, rw more at h))
  | inr none_left ↦ rw none_left none_left
]
fragments-Yields (suc n) it h = elim (Bool-cases (ip4_frag_iter_next it).1) [
  | inl more ↦
      rw more
        (more, refl, fragments-Yields n (ip4_frag_iter_next it).0 (omega (arith, rw more at h)))
  | inr none_left ↦ rw none_left none_left
]

get_elem?-middle {ℓ} :
    {A : Type ℓ} (xs : List A) (v : A) (ys : List A)
    → get_elem? (xs ++ (v ∷ ys)) (length xs) ≡ some v
get_elem?-middle [] v ys = refl
get_elem?-middle (x ∷ xs) v ys = get_elem?-middle xs v ys

-- An edge node that has at least as many addresses as clients, and at least one client.
pub record HasRoom (vsubnet : Ip4Subnet) (count : ℕ) : Type 0 where
  pub valid : IsValid vsubnet
  pub some_clients : 0 < count
  pub fits : count ≤ size_of vsubnet
  pub small : size_of vsubnet / count < 2 ^ 32

module _ (marker : ℕ → ℕ) where
  -- From the edge node of an index on, each has room for its clients.
  abbrev pub AllRoom : ℕ → List Ip4Subnet → Type 0
  AllRoom i [] = Unit
  AllRoom i (v ∷ vs) = HasRoom v (capacity marker i) × AllRoom (suc i) vs

  abbrev pub total : ℕ → List Ip4Subnet → ℕ
  total i [] = 0
  total i (v ∷ vs) = capacity marker i + total (suc i) vs

  -- The subnets of the clients of each edge node, in order: as many as it has clients, and they cover
  -- the addresses of its subnet without gap or overlap.
  abbrev pub Assigned : ℕ → List Ip4Subnet → List Ip4Subnet → Type 0
  Assigned i [] given = given ≡ []
  Assigned i (v ∷ vs) given =
      (here : List Ip4Subnet) × (there : List Ip4Subnet) × (given ≡ here ++ there)
      × (length here ≡ capacity marker i)
      × Tiles (first_of v) here (first_of v + size_of v)
      × Assigned (suc i) vs there

at_edge : ℕ → ℕ → Ip4FragIter → ClientContext
at_edge index clients it = record {
  current_edge_idx = index;
  current_edge_clients = clients;
  client_iter = some it;
}

-- The next call goes to the edge node of the index.
data Ready (i : ℕ) (ctx : ClientContext) : Type 0 where
  fresh : ctx.client_iter ≡ none → i ≡ 0 → Ready i ctx
  exhausted :
      (it : Ip4FragIter)
      → ctx.client_iter ≡ some it
      → (ip4_frag_iter_next it).1 ≡ false
      → ctx.current_edge_idx + 1 ≡ i
      → Ready i ctx

module _ (marker : ℕ → ℕ) (vsubnets : List Ip4Subnet) where
  next_within :
      (index clients : ℕ) (it : Ip4FragIter)
      → (ip4_frag_iter_next it).1 ≡ true
      → gml_next_client_subnet marker vsubnets (at_edge index clients it)
        ≡ ok (
          at_edge index clients (ip4_frag_iter_next it).0,
          some (ip4_frag_iter_subnet (ip4_frag_iter_next it).0),
        )
  unfolding next_subnet_from subnet_of at_edge
  next_within index clients it more = rw more refl

  drain :
      (index clients n m : ℕ) (it : Ip4FragIter) (ss : List Ip4Subnet)
      → Yields it ss
      → n ≡ length ss + m
      → (last : Ip4FragIter) × ((ip4_frag_iter_next last).1 ≡ false)
        × ((rest : List Ip4Subnet)
            → client_subnets marker vsubnets m (at_edge index clients last) ≡ ok rest
            → client_subnets marker vsubnets n (at_edge index clients it) ≡ ok (ss ++ rest))
  unfolding client_subnets
  drain index clients n m it [] y e = (
    it,
    y,
    λ rest h.
        ap (λ (k : ℕ). client_subnets marker vsubnets k (at_edge index clients it))
          (omega (arith, e))
        ∙ h,
  )
  drain index clients zero m it (s ∷ ss) y e = absurd (omega (arith, e))
  drain index clients (suc n) m it (s ∷ ss) y e =
      let (last, ended, more) =
        drain index clients n m (ip4_frag_iter_next it).0 ss y.2 (omega (arith, e)) in
      (
        last,
        ended,
        λ rest h.
            rw (next_within index clients it y.0, more rest h)
              (ap (λ t. ok (t ∷ (ss ++ rest))) y.1),
      )

  -- The first subnet of an edge node, and the iterator for the others.
  record Entered (i : ℕ) (v : Ip4Subnet) : Type 0 where
    it : Ip4FragIter
    subnets : List Ip4Subnet
    result : enter_edge marker vsubnets i ≡ ok (at_edge i 0 it, true)
    others : Yields it subnets
    count : suc (length subnets) ≡ capacity marker i
    tiles : Tiles (first_of v) (ip4_frag_iter_subnet it ∷ subnets) (first_of v + size_of v)

  enter_with :
      (i : ℕ) (v : Ip4Subnet) (it : Ip4FragIter) (ss : List Ip4Subnet)
      → get_elem? vsubnets i ≡ some v
      → ip4_fragment_subnet v (capacity marker i) ≡ some it
      → Yields it ss
      → length ss ≡ capacity marker i
      → Tiles (first_of v) ss (first_of v + size_of v)
      → 0 < capacity marker i
      → Entered i v
  unfolding enter_edge at_edge
  enter_with i v it [] found made y count tiles positive = absurd (omega (arith, count, positive))
  enter_with i v it (s ∷ ss) found made y count tiles positive = record {
    it = (ip4_frag_iter_next it).0;
    subnets = ss;
    result = rw (found, made, y.0, enter_edge) refl;
    others = y.2;
    count = count;
    tiles = subst (λ t. Tiles (first_of v) (t ∷ ss) (first_of v + size_of v)) (sym y.1) tiles;
  }

  enter_lem :
      (i : ℕ) (v : Ip4Subnet)
      → get_elem? vsubnets i ≡ some v
      → HasRoom v (capacity marker i)
      → Entered i v
  enter_lem i v found r =
      let (it, made, tiles, count, fair) =
        fragment_subnet_covers v (capacity marker i) r.valid r.some_clients r.fits r.small in
      enter_with i v it (fragments (suc (capacity marker i)) it) found made
        (fragments-Yields (capacity marker i) it (omega (arith, count))) count tiles r.some_clients

  from_none :
      (ctx : ClientContext) (i : ℕ) (v : Ip4Subnet) (e : Entered i v)
      → i ≡ 0
      → next_edge_from marker vsubnets ctx none ≡ ok (at_edge i 0 e.it, true)
  unfolding next_edge_from
  from_none ctx i v e first = ap (λ (k : ℕ). enter_edge marker vsubnets k) (sym first) ∙ e.result

  from_some :
      (ctx : ClientContext) (it : Ip4FragIter) (i : ℕ) (v : Ip4Subnet) (e : Entered i v)
      → ctx.current_edge_idx + 1 ≡ i
      → i < length vsubnets
      → next_edge_from marker vsubnets (record ctx { client_iter = some it }) (some it)
        ≡ ok (at_edge i 0 e.it, true)
  unfolding next_edge_from
  from_some ctx it i v e next lt =
      rw (lt→leb_false (length vsubnets) (ctx.current_edge_idx + 1) (omega (arith, next, lt)))
        (ap (λ (k : ℕ). enter_edge marker vsubnets k) next ∙ e.result)

  after_lem :
      (ctx : ClientContext) (i : ℕ) (v : Ip4Subnet) (e : Entered i v)
      → gml_next_edge marker vsubnets ctx ≡ ok (at_edge i 0 e.it, true)
      → after_edge marker vsubnets ctx ≡ ok (at_edge i 0 e.it, some (ip4_frag_iter_subnet e.it))
  unfolding after_edge subnet_of at_edge
  after_lem ctx i v e entered = rw entered refl

  ready_after :
      (i : ℕ) (it : Ip4FragIter)
      → (ip4_frag_iter_next it).1 ≡ false
      → Ready (suc i) (at_edge i 0 it)
  unfolding at_edge
  ready_after i it ended = exhausted it refl ended (omega arith)

  next_edge_lem :
      (ctx : ClientContext) (i : ℕ) (v : Ip4Subnet) (e : Entered i v)
      → Ready i ctx
      → i < length vsubnets
      → gml_next_client_subnet marker vsubnets ctx
        ≡ ok (at_edge i 0 e.it, some (ip4_frag_iter_subnet e.it))
  unfolding next_subnet_from
  next_edge_lem ctx i v e (fresh no_iter first) lt =
      ap (next_subnet_from marker vsubnets ctx) no_iter
      ∙ after_lem ctx i v e
          (ap (next_edge_from marker vsubnets ctx) no_iter ∙ from_none ctx i v e first)
  next_edge_lem ctx i v e (exhausted it iter ended next) lt =
      ap (next_subnet_from marker vsubnets ctx) iter
      ∙ rw ended (
          after_lem (record ctx { client_iter = some (ip4_frag_iter_next it).0 }) i v e
            (from_some ctx (ip4_frag_iter_next it).0 i v e next lt))

  serves :
      (before vs : List Ip4Subnet) (i n : ℕ) (ctx : ClientContext)
      → vsubnets ≡ before ++ vs
      → length before ≡ i
      → Ready i ctx
      → AllRoom marker i vs
      → n ≡ total marker i vs
      → (given : List Ip4Subnet) × (client_subnets marker vsubnets n ctx ≡ ok given)
        × Assigned marker i vs given
        × (length given ≡ n)
  unfolding client_subnets
  serves before [] i zero ctx whole at ready room n_eq = ([], refl, refl, refl)
  serves before [] i (suc n) ctx whole at ready room n_eq = absurd (omega (arith, n_eq))
  serves before (v ∷ vs) i zero ctx whole at ready room n_eq =
      absurd (omega (arith, n_eq, room.0.some_clients))
  serves before (v ∷ vs) i (suc n) ctx whole at ready room n_eq =
      let inside : i < length vsubnets =
        omega (arith, ap length whole, length-append before (v ∷ vs), at) in
      let found : get_elem? vsubnets i ≡ some v =
        ap (λ l. get_elem? l i) whole
        ∙ ap (λ (k : ℕ). get_elem? (before ++ (v ∷ vs)) k) (sym at)
        ∙ get_elem?-middle before v vs in
      let e = enter_lem i v found room.0 in
      let first = next_edge_lem ctx i v e ready inside in
      let m = total marker (suc i) vs in
      let n_split : n ≡ length e.subnets + m = omega (arith, n_eq, e.count) in
      let (last, ended, continue) = drain i 0 n m e.it e.subnets e.others n_split in
      let (there, rest, assigned, there_len) =
        serves (before ++ (v ∷ [])) vs (suc i) m (at_edge i 0 last)
          (whole ∙ sym (append_assoc before (v ∷ []) vs))
          (omega (arith, length-append before (v ∷ []), at)) (ready_after i last ended) room.1
          refl in
      (
        ip4_frag_iter_subnet e.it ∷ (e.subnets ++ there),
        rw (first, continue there rest) refl,
        (ip4_frag_iter_subnet e.it ∷ e.subnets, there, refl, e.count, e.tiles, assigned),
        omega (arith, length-append e.subnets there, there_len, n_split),
      )

  total_eq :
      (i : ℕ) (vs : List Ip4Subnet)
      → ((j : ℕ) → marker j ≤ marker (j + 1))
      → marker (i + length vs) < 2 ^ 32
      → total marker i vs + marker i ≡ marker (i + length vs)
  total_eq i [] grows small = let end : i ≡ i + 0 = omega arith in omega (arith, ap marker end)
  total_eq i (v ∷ vs) grows small =
      let same : suc i + length vs ≡ i + length (v ∷ vs) = omega arith in
      let next : i + 1 ≡ suc i = omega arith in
      let rest =
        total_eq (suc i) vs grows (subst (λ (n : ℕ). marker n < 2 ^ 32) (sym same) small) in
      omega (arith, rest, ap marker same, ap marker next, grows i, small)

  -- For numbers `round(clientsPerEdge * i)` that grow with `i`, from 0 for the first edge node to the
  -- number of clients, below 2^32: if every edge node has at least one client, and at least as many
  -- addresses as clients (but not 2^32 or more for each), then as many calls of
  -- `gmlNextClientSubnet` as there are clients all return true. The subnets that they give go to the
  -- edge nodes in order: each has as many as it has clients, and they cover the addresses of its subnet
  -- in order, without gap or overlap.
  pub client_subnets-Assigned :
      (clients : ℕ) (ctx : ClientContext)
      → ((i : ℕ) → marker i ≤ marker (i + 1))
      → marker 0 ≡ 0
      → marker (length vsubnets) ≡ clients
      → clients < 2 ^ 32
      → AllRoom marker 0 vsubnets
      → ctx.client_iter ≡ none
      → (given : List Ip4Subnet) × (client_subnets marker vsubnets clients ctx ≡ ok given)
        × Assigned marker 0 vsubnets given
        × (length given ≡ clients)
  client_subnets-Assigned clients ctx grows zero_first all few room no_iter =
      let end : 0 + length vsubnets ≡ length vsubnets = omega arith in
      let small : marker (0 + length vsubnets) < 2 ^ 32 =
        subst (λ (n : ℕ). marker n < 2 ^ 32) (sym end) (omega (arith, all, few)) in
      let count : clients ≡ total marker 0 vsubnets =
        omega (arith, total_eq 0 vsubnets grows small, ap marker end, all, zero_first) in
      serves [] vsubnets 0 clients ctx refl refl (fresh no_iter refl) room count
