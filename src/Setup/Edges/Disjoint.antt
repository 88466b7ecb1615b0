-- ===== src/Setup/Edges/Disjoint.antt =====
-- The subnets of the edge nodes after `setupConfigure`.
use netmirage.Prelude.{
  ℕ, ◌<◌, ◌≡◌, ◌≢◌, refl, sym, ap, subst, ◌∙◌, Bool, true, false, not, ◌&&◌, ◌||◌, ltb, ◌==◌,
  if◌then◌else◌, List, [], ◌∷◌, length, ◌⊎◌, inl, inr, All, arith, Bool-cases, Option-cases,
}
use netmirage.Prelude.Text.{Text}
use netmirage.Ip.Order.{ntohl}
use netmirage.Ip.Subnet.{IsValid, ip4_subnet_start, ip4_subnet_end, ip4_subnets_overlap}
use netmirage.Ip.Subnet.Overlap.{subnets_overlap_iff}
use netmirage.Setup.Edges.{
  EdgeNodeParams, SetupParams, Answers, with_mac, complete_edge, complete_edges, provide_subnets,
  overlaps_one, any_overlap, configure_subnets, setup_configure,
}

-- No address is in both subnets: one ends before the other starts.
abbrev pub IsDisjoint : EdgeNodeParams → EdgeNodeParams → Type 0
IsDisjoint a b =
    (ntohl (ip4_subnet_end a.vsubnet) < ntohl (ip4_subnet_start b.vsubnet))
    ⊎ (ntohl (ip4_subnet_end b.vsubnet) < ntohl (ip4_subnet_start a.vsubnet))

-- Any two edge nodes of a list.
abbrev pub PairwiseDisjoint : List EdgeNodeParams → Type 0
PairwiseDisjoint [] = Unit
PairwiseDisjoint (e ∷ es) = All (IsDisjoint e) es × PairwiseDisjoint es

clash : true ≡ false → ⊥
clash e = cc

apart :
    (a b : EdgeNodeParams)
    → IsValid a.vsubnet
    → IsValid b.vsubnet
    → ip4_subnets_overlap a.vsubnet b.vsubnet ≡ false
    → IsDisjoint a b
apart a b va vb h = ground (arith, subnets_overlap_iff va vb)

one_apart :
    (a : EdgeNodeParams) (es : List EdgeNodeParams)
    → IsValid a.vsubnet
    → All (λ e. IsValid e.vsubnet) es
    → overlaps_one a es ≡ false
    → All (IsDisjoint a) es
unfolding overlaps_one
one_apart a [] va vs h = tt
one_apart a (e ∷ es) va (v, vs) h = elim (Bool-cases (ip4_subnets_overlap a.vsubnet e.vsubnet)) [
  | inl meets ↦ absurd (clash (rw meets at h))
  | inr free ↦ (apart a e va v free, one_apart a es va vs (rw free at h))
]

every_pair_apart :
    (es : List EdgeNodeParams)
    → All (λ e. IsValid e.vsubnet) es
    → any_overlap es ≡ false
    → PairwiseDisjoint es
unfolding any_overlap
every_pair_apart [] vs h = tt
every_pair_apart (e ∷ es) (v, vs) h = elim (Bool-cases (overlaps_one e es)) [
  | inl meets ↦ absurd (clash (rw meets at h))
  | inr free ↦ (one_apart e es v vs free, every_pair_apart es vs (rw free at h))
]

abbrev Result : Type 0
Result = List EdgeNodeParams × ℕ

code_of : (p : Result) (es : List EdgeNodeParams) → p ≡ (es, 0) → p.1 ≡ 0
code_of p es h = ap (λ (q : Result). q.1) h

-- A choice that can only return 0 if the test fails.
accepted :
    (bad fine : Bool) (kept es : List EdgeNodeParams)
    → ◌≡◌ {A = Result} (if bad then (kept, 1) else if fine then (kept, 0) else (kept, 1)) (es, 0)
    → (bad ≡ false) × (kept ≡ es)
accepted true fine kept es h = absurd (omega (arith, code_of (kept, 1) es h))
accepted false true kept es h = (refl, ap (λ (q : Result). q.0) h)
accepted false false kept es h = absurd (omega (arith, code_of (kept, 1) es h))

-- A guard that returns an error code.
passed :
    (bad : Bool) (kept es : List EdgeNodeParams) (code : ℕ) (rest : Result)
    → (bad ≡ true → code ≢ 0)
    → ◌≡◌ {A = Result} (if bad then (kept, code) else rest) (es, 0)
    → rest ≡ (es, 0)
passed true kept es code rest bad h = absurd (bad refl (code_of (kept, code) es h))
passed false kept es code rest bad h = h

either_false : (a b : Bool) → (a || b) ≡ false → b ≡ false
either_false true b h = absurd (clash h)
either_false false b h = h

failing : (n : ℕ) → not (n == 0) ≡ true → n ≢ 0
failing n h = ground arith

right_true : (a b : Bool) → (a && b) ≡ true → b ≡ true
right_true true b h = h
right_true false b h = absurd (clash (sym h))

-- A code that is returned as an error is not 0.
abbrev Failing {ℓ} : {A : Type ℓ} → A ⊎ (A × ℕ) → Type 0
Failing (inl a) = Unit
Failing (inr (left, code)) = code ≢ 0

not_zero : (n : ℕ) → (n == 0) ≡ false → n ≢ 0
not_zero n h = ground arith

abbrev Completed : Type 0
Completed = List EdgeNodeParams ⊎ (List EdgeNodeParams × ℕ)

both_fail :
    (es : List EdgeNodeParams) (r : EdgeNodeParams ⊎ (EdgeNodeParams × ℕ)) (rs : Completed)
    → Failing r
    → Failing rs
    → Failing (elim r as (λ x. Completed) [
      | inr (left, code) ↦ inr (left ∷ es, code)
      | inl edge ↦ elim rs as (λ x. Completed) [
        | inr (left, code) ↦ inr (edge ∷ left, code)
        | inl edges ↦ inl (edge ∷ edges)
      ]
    ])
both_fail es (inr (left, code)) rs h hs = h
both_fail es (inl edge) (inr (left, code)) h hs = hs
both_fail es (inl edge) (inl edges) h hs = tt

sum_result :
    (r : Completed)
    → ((es : List EdgeNodeParams) × (r ≡ inl es)) ⊎ ((left : Result) × (r ≡ inr left))
sum_result (inl es) = inl (es, refl)
sum_result (inr left) = inr (left, refl)

module _ (answers : Answers) (params : SetupParams) where
  with_mac-Failing :
      (edge : EdgeNodeParams) (intf : Text) → Failing (with_mac answers params edge intf)
  unfolding with_mac
  with_mac-Failing edge intf = elim (Bool-cases edge.mac_specified) [
    | inl given ↦ rw (given, with_mac) tt
    | inr asked ↦ elim (Bool-cases ((answers.work_get_edge_remote_mac intf edge.ip).1 == 0)) [
      | inl fine ↦ rw (asked, fine, with_mac) tt
      | inr failed ↦ rw (asked, failed, with_mac) (λ e. not_zero _ failed e)
    ]
  ]

  complete_edge-Failing : (edge : EdgeNodeParams) → Failing (complete_edge answers params edge)
  unfolding complete_edge
  complete_edge-Failing edge = elim (Option-cases edge.intf) [
    | inr (intf, h) ↦ rw (h, complete_edge) (with_mac-Failing edge intf)
    | inl missing ↦ elim (Option-cases params.default_intf) [
      | inr (intf, h) ↦ rw (missing, h, complete_edge) (with_mac-Failing edge intf)
      | inl none_given ↦ rw (missing, none_given, complete_edge) (λ e. omega (arith, e))
    ]
  ]

  complete_edges-Failing :
      (edges : List EdgeNodeParams) → Failing (complete_edges answers params edges)
  unfolding complete_edges
  complete_edges-Failing [] = tt
  complete_edges-Failing (e ∷ es) =
      both_fail es (complete_edge answers params e) (complete_edges answers params es)
        (complete_edge-Failing e) (complete_edges-Failing es)

  subnets_accepted :
      (completed es : List EdgeNodeParams)
      → configure_subnets answers params completed ≡ (es, 0)
      → any_overlap es ≡ false
  unfolding configure_subnets
  subnets_accepted completed es h =
      let provided = provide_subnets answers params completed in
      let (fine, same) =
        accepted (provided.1 || any_overlap provided.0) (params.quiet || answers.edge_file_opens)
          provided.0 es h in
      ap any_overlap (sym same) ∙ either_false provided.1 (any_overlap provided.0) fine

  configured_reached :
      (es : List EdgeNodeParams)
      → params.destroy_only ≡ false
      → setup_configure answers params ≡ (es, 0)
      → any_overlap es ≡ false
  unfolding setup_configure
  configured_reached es keeps h =
      let edges = params.edge_nodes in
      let fails : (n : ℕ) → not (n == 0) ≡ true → n ≢ 0 = λ n e. failing n e in
      let one =
        passed (not (answers.work_configure == 0)) edges es answers.work_configure _
          (fails answers.work_configure) h in
      let two =
        passed (not (answers.work_join == 0)) edges es answers.work_join _ (fails answers.work_join)
          one in
      let three =
        passed params.destroy_only edges es answers.destroy_network _
          (λ e. absurd (clash (sym e ∙ keeps))) two in
      let four = passed (ltb (length edges) 1) edges es 1 _ (λ e z. omega (arith, z)) three in
      let five =
        passed (not params.keep_old_networks && not (answers.destroy_network == 0)) edges es
          answers.destroy_network _
          (λ e. failing answers.destroy_network (right_true (not params.keep_old_networks) _ e))
          four in
      elim (sum_result (complete_edges answers params edges)) [
        | inl (completed, e) ↦ subnets_accepted completed es (rw e at five)
        | inr (left, e) ↦
            absurd (subst Failing e (complete_edges-Failing edges) (code_of left es (rw e at five)))
      ]

  -- If `setupConfigure` returns 0, was not only to destroy networks, and leaves every edge node with
  -- a valid subnet, then no two of the subnets have an address in common.
  pub configured_apart :
      (es : List EdgeNodeParams)
      → params.destroy_only ≡ false
      → setup_configure answers params ≡ (es, 0)
      → All (λ e. IsValid e.vsubnet) es
      → PairwiseDisjoint es
  configured_apart es keeps h valid = every_pair_apart es valid (configured_reached es keeps h)
