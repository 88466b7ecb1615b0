-- ===== src/Setup/Names.antt =====
-- The names of nodes and the indices of their states.
use netmirage.Prelude.{
  ℕ, ◌+◌, ◌%◌, ◌^◌, ◌<◌, ◌≡◌, refl, sym, ap, ◌∙◌, ◌⊎◌, inl, inr, Bool, true, false, List, ◌∷◌,
  length, set, Option, none, some, arith, Bool-cases, Option-cases, length-append, length-set,
  get_elem?-some,
}
use netmirage.Prelude.Text.{Text, text_eq, text_eq_iff}
use netmirage.Mem.Checked.{Outcome, ok}
use netmirage.Ip.Mac.{mac_next_addrs}
use netmirage.Graphml.{TopoNode, GmlNode}
use netmirage.Setup.{
  GmlNodeState, GmlContext, Order, add_host, send, lookup, gml_generate_ip, gml_name_to_state,
  new_state, state_at, gml_add_node, client_macs_for, add_host_at, add_known_node,
  needed_macs_client,
}

-- There are as many states as were counted, and different names have different states.
pub record Named (names : List (Text × ℕ)) (count states : ℕ) : Type 0 where
  pub counted : states ≡ count
  pub bounded : (name : Text) (i : ℕ) → lookup name names ≡ some i → i < count
  pub distinct :
      (name name' : Text) (i : ℕ)
      → lookup name names ≡ some i
      → lookup name' names ≡ some i
      → name ≡ name'

abbrev pub IsNamed : GmlContext → Type 0
IsNamed ctx = Named ctx.gml_to_state ctx.node_count (length ctx.node_states)

-- Every name keeps its index.
abbrev pub Keeps : GmlContext → GmlContext → Type 0
Keeps old new =
    (name : Text) (i : ℕ)
    → lookup name old.gml_to_state ≡ some i
    → lookup name new.gml_to_state ≡ some i

some-injective : {A : Type 0} (a b : A) → some a ≡ some b → a ≡ b
some-injective a b h = cc

lookup_new :
    (names : List (Text × ℕ)) (name name' : Text) (index i : ℕ)
    → lookup name' ((name, index) ∷ names) ≡ some i
    → ((name' ≡ name) × (i ≡ index)) ⊎ (lookup name' names ≡ some i)
unfolding lookup
lookup_new names name name' index i h = elim (Bool-cases (text_eq name' name)) [
  | inl same ↦ inl ((text_eq_iff name' name).0 same, sym (some-injective index i (rw same at h)))
  | inr other ↦ inr (rw other at h)
]

insert-Named :
    (names : List (Text × ℕ)) (count states more : ℕ) (name : Text)
    → Named names count states
    → more ≡ states + 1
    → Named ((name, count) ∷ names) (count + 1) more
insert-Named names count states more name v longer = record {
  counted = omega (arith, v.counted, longer);
  bounded = λ name' i h. elim (lookup_new names name name' count i h) [
    | inl new ↦ omega (arith, new.1)
    | inr old ↦ omega (arith, v.bounded name' i old)
  ];
  distinct = λ m n i h k. elim (lookup_new names name m count i h) [
    | inl new ↦ elim (lookup_new names name n count i k) [
      | inl new' ↦ new.0 ∙ sym new'.0
      | inr old' ↦ absurd (omega (arith, new.1, v.bounded n i old'))
    ]
    | inr old ↦ elim (lookup_new names name n count i k) [
      | inl new' ↦ absurd (omega (arith, new'.1, v.bounded m i old))
      | inr old' ↦ v.distinct m n i old old'
    ]
  ];
}

none-some : {A : Type 0} (a : A) → none ≡ some a → ⊥
none-some a h = cc

insert_keeps :
    (names : List (Text × ℕ)) (name name' : Text) (index i : ℕ)
    → lookup name names ≡ none
    → lookup name' names ≡ some i
    → lookup name' ((name, index) ∷ names) ≡ some i
unfolding lookup
insert_keeps names name name' index i missing h = elim (Bool-cases (text_eq name' name)) [
  | inl same ↦ absurd (clash ((text_eq_iff name' name).0 same))
  | inr other ↦ rw other h
]
  where
    clash : name' ≡ name → ⊥
    clash same = none-some i (sym missing ∙ ap (λ n. lookup n names) (sym same) ∙ h)

lookup_inserted :
    (names : List (Text × ℕ)) (name : Text) (index : ℕ)
    → lookup name ((name, index) ∷ names) ≡ some index
unfolding lookup
lookup_inserted names name index = rw ((text_eq_iff name name).1 refl) refl

-- What looking up or making a state gives.
record Found (old : GmlContext) (name : Text) (out : GmlContext × Option ℕ) : Type 0 where
  valid : IsNamed out.0
  keeps : Keeps old out.0
  found : (i : ℕ) → out.1 ≡ some i → lookup name out.0.gml_to_state ≡ some i

name_to_state-Found :
    (ctx : GmlContext) (name : Text) (t : TopoNode)
    → IsNamed ctx
    → Found ctx name (gml_name_to_state ctx name (some t))
unfolding gml_name_to_state gml_generate_ip new_state
name_to_state-Found ctx name t v = elim (Option-cases (lookup name ctx.gml_to_state)) [
  | inr (i, h) ↦
      rw (h, gml_name_to_state) (record { valid = v; keeps = λ n j k. k; found = λ j e. h ∙ e })
  | inl missing ↦ elim (Option-cases (gml_generate_ip ctx).1) [
    | inl exhausted ↦
        rw (missing, exhausted, gml_name_to_state)
          (record { valid = v; keeps = λ n j k. k; found = λ j e. absurd (none-some j e) })
    | inr (addr, given) ↦
        rw (missing, given, gml_name_to_state)
          (record {
            valid =
                insert-Named ctx.gml_to_state ctx.node_count (length ctx.node_states) _ name v
                  (length-append ctx.node_states _);
            keeps = λ n j k. insert_keeps ctx.gml_to_state name n ctx.node_count j missing k;
            found = λ j e. lookup_inserted ctx.gml_to_state name ctx.node_count ∙ e;
          })
  ]
]

module _ (answer : Order → ℕ) where
  state_found :
      (ctx : GmlContext) (id : ℕ)
      → id < length ctx.node_states
      → (state : GmlNodeState) × (state_at ctx id ≡ ok state)
  unfolding state_at
  state_found ctx id h =
      let (state, found) = get_elem?-some ctx.node_states id h in (state, rw (found, state_at) refl)

  -- An outcome after which the names are as before.
  abbrev Kept : GmlContext → Outcome (GmlContext × ℕ) → Type 0
  Kept ctx m =
      (out : GmlContext × ℕ) × (m ≡ ok out)
      × IsNamed out.0
      × (out.0.gml_to_state ≡ ctx.gml_to_state)

  host-Kept :
      (ctx : GmlContext) (id : ℕ) (t : TopoNode)
      → IsNamed ctx
      → id < ctx.node_count
      → Kept ctx (add_host_at answer ctx id t)
  unfolding add_host_at
  host-Kept ctx id t v h =
      let (state, found) = state_found ctx id (omega (arith, v.counted)) in
      (
        send answer ctx (add_host (id % 2 ^ 32) state.addr state.client_macs ctx.mtu t),
        rw found refl,
        v,
        refl,
      )

  macs_kept :
      (ctx : GmlContext) (id : ℕ) (state : GmlNodeState)
      → IsNamed ctx
      → IsNamed (client_macs_for answer ctx id state).0
        × ((client_macs_for answer ctx id state).0.gml_to_state ≡ ctx.gml_to_state)
        × ((client_macs_for answer ctx id state).0.node_count ≡ ctx.node_count)
  unfolding client_macs_for
  macs_kept ctx id state v =
      let (next, buffer, unwrapped) = mac_next_addrs ctx.mac_addr_iter needed_macs_client in
      let names : Named ctx.gml_to_state ctx.node_count
          (length (set (ctx.node_states) id (record state { client_macs = buffer }))) =
        record {
          counted =
              length-set (ctx.node_states) id (record state { client_macs = buffer }) ∙ v.counted;
          bounded = v.bounded;
          distinct = v.distinct;
        } in
      elim (Bool-cases unwrapped) [
        | inl more ↦ rw more (names, refl, refl)
        | inr none_left ↦ rw none_left (names, refl, refl)
      ]

  node-Kept :
      (ctx : GmlContext) (id : ℕ) (t : TopoNode)
      → IsNamed ctx
      → id < ctx.node_count
      → Kept ctx (add_known_node answer ctx id t)
  unfolding add_known_node
  node-Kept ctx id t v h =
      let (state, found) = state_found ctx id (omega (arith, v.counted)) in
      let (named, same, count) = macs_kept ctx id state v in
      let after = (client_macs_for answer ctx id state).0 in
      elim (Bool-cases t.client) [
        | inr other ↦
            let (out, e, v', k) = host-Kept ctx id t v h in (out, simp (found, other) e, v', k)
        | inl client ↦ elim (Bool-cases (client_macs_for answer ctx id state).1) [
          | inr wrapped ↦ ((after, 1), simp (found, client, wrapped) refl, named, same)
          | inl more ↦
              let (out, e, v', k) = host-Kept after id t named (omega (arith, count)) in
              (out, simp (found, client, more) e, v', k ∙ same)
        ]
      ]

  -- `gmlAddNode` on a context in which every name has a state of its own: it ends without a fault,
  -- the names still have states of their own, each name keeps its index, and if the node is not
  -- ignored and no error is returned, its name has a state.
  pub add_node_names :
      (ctx : GmlContext) (node : GmlNode)
      → IsNamed ctx
      → (out : GmlContext × ℕ) × (gml_add_node answer ctx node ≡ ok out)
        × IsNamed out.0
        × Keeps ctx out.0
        × (ctx.ignore_nodes ≡ false
            → out.1 ≡ 0
            → (id : ℕ) × (lookup node.name out.0.gml_to_state ≡ some id))
  unfolding gml_add_node
  add_node_names ctx node v = elim (Bool-cases ctx.ignore_nodes) [
    | inl ignored ↦ ((ctx, 0), simp ignored refl, v, (λ n i h. h), λ no. absurd (clash ignored no))
    | inr taken ↦ elim (Bool-cases ctx.finished_nodes) [
      | inl late ↦
          ((ctx, 1), simp (taken, late) refl, v, (λ n i h. h), λ no zero_code. absurd (omega arith))
      | inr early ↦
          let f = name_to_state-Found ctx node.name node.t v in
          elim (Option-cases (gml_name_to_state ctx node.name (some node.t)).1) [
            | inl failed ↦ (
              ((gml_name_to_state ctx node.name (some node.t)).0, 1),
              simp (taken, early, failed) refl,
              f.valid,
              f.keeps,
              λ no zero_code. absurd (omega arith),
            )
            | inr (id, given) ↦
                let known = f.found id given in
                let (out, e, v', k) =
                  node-Kept (gml_name_to_state ctx node.name (some node.t)).0 id node.t f.valid
                    (f.valid.bounded node.name id known) in
                (
                  out,
                  simp (taken, early, given) e,
                  v',
                  (λ n i h. ap (lookup n) k ∙ f.keeps n i h),
                  λ no zero_code. (id, ap (lookup node.name) k ∙ known),
                )
          ]
    ]
  ]
    where
      clash : {b : Bool} → b ≡ true → b ≡ false → ⊥
      clash h k = cc
