-- ===== src/Work/Child/Once.antt =====
-- A child process that has been configured.
use netmirage.Prelude.{
  ℕ, ◌≡◌, refl, sym, ◌∙◌, true, false, ◌==◌, List, [], ◌∷◌, Bool-cases, inl, inr,
}
use netmirage.Work.{
  WorkerOrder, WorkerResponse, is_configure, worker_ping, worker_terminate, worker_destroy_hosts,
  worker_configure, worker_get_edge_remote_mac, worker_get_edge_local_mac, worker_get_interface_mtu,
  worker_add_edge_interface, worker_mtu_supported, worker_add_root, worker_add_host,
  worker_set_self_link, worker_ensure_system_scaling, worker_add_link, worker_add_internal_routes,
  worker_add_client_routes, worker_add_edge_routes,
}
use netmirage.Work.Child.{
  Worker, Child, respond, respond_error, after, answered, carry_out, answer, obey, child_process,
  print,
}

answered_keeps :
    {W : Type 0} (child : Child W) (w : W) (response : WorkerResponse) (err : ℕ)
    → (answered child w response err).0.initialized ≡ child.initialized
unfolding answered respond
answered_keeps child w response err = elim (Bool-cases (err == 0)) [
  | inl fine ↦ rw fine refl
  | inr wrong ↦ rw wrong refl
]

module _ {W : Type 0} (functions : Worker W)
    (other : List ℕ → List ℕ → List ℕ → ℕ → W → W × ℕ) where
  -- Only the configuration calls `workerInit`.
  carry_out_same :
      (child : Child W) (order : WorkerOrder)
      → is_configure order ≡ false
      → (carry_out functions child order
          ≡ carry_out (record functions { init = other }) child order)
        × ((carry_out functions child order).0.initialized ≡ child.initialized)
  unfolding carry_out after respond
  carry_out_same child worker_ping e = (refl, refl)
  carry_out_same child worker_terminate e = (refl, refl)
  carry_out_same child (worker_configure c) e = cc
  carry_out_same child (worker_get_edge_remote_mac n ip) e = (refl, answered_keeps child _ _ _)
  carry_out_same child (worker_get_edge_local_mac n) e = (refl, answered_keeps child _ _ _)
  carry_out_same child (worker_get_interface_mtu n) e = (refl, answered_keeps child _ _ _)
  carry_out_same child (worker_mtu_supported m) e = (refl, answered_keeps child _ _ _)
  carry_out_same child (worker_add_root o) e = (refl, refl)
  carry_out_same child (worker_add_edge_interface n) e = (refl, refl)
  carry_out_same child (worker_add_host o) e = (refl, refl)
  carry_out_same child (worker_set_self_link id l) e = (refl, refl)
  carry_out_same child (worker_ensure_system_scaling o) e = (refl, refl)
  carry_out_same child (worker_add_link o) e = (refl, refl)
  carry_out_same child (worker_add_internal_routes o) e = (refl, refl)
  carry_out_same child (worker_add_client_routes o) e = (refl, refl)
  carry_out_same child (worker_add_edge_routes o) e = (refl, refl)
  carry_out_same child worker_destroy_hosts e = (refl, refl)

  answer_same :
      (child : Child W) (order : WorkerOrder)
      → child.initialized ≡ true
      → (answer functions child order ≡ answer (record functions { init = other }) child order)
        × ((answer functions child order).initialized ≡ true)
  unfolding answer respond_error respond
  answer_same child order once = elim (Bool-cases (is_configure order)) [
    | inl again ↦ (simp (once, again) refl, simp (once, again) refl)
    | inr fresh ↦
        let (same, kept) = carry_out_same child order fresh in
        elim (Bool-cases ((carry_out functions child order).1 == 0)) [
          | inl fine ↦
              (simp (once, fresh, sym same, fine) refl, simp (once, fresh, fine) (kept ∙ once))
          | inr wrong ↦
              (simp (once, fresh, sym same, wrong) refl, simp (once, fresh, wrong) (kept ∙ once))
        ]
  ]

  obey_same :
      (child : Child W) (order : WorkerOrder)
      → child.initialized ≡ true
      → (obey functions child order ≡ obey (record functions { init = other }) child order)
        × ((obey functions child order).initialized ≡ true)
  unfolding obey
  obey_same child order once =
      answer_same
        (print child
          (functions.logged child.initialized child.colorize child.threshold child.worker order))
        order once

  -- A child process that has been configured stays configured, and never calls `workerInit` again:
  -- it does the same with any other function in its place.
  pub configured_once :
      (child : Child W) (orders : List WorkerOrder)
      → child.initialized ≡ true
      → (child_process functions child orders
          ≡ child_process (record functions { init = other }) child orders)
        × ((child_process functions child orders).0.initialized ≡ true)
  unfolding child_process
  configured_once child [] once = (refl, once)
  configured_once child (order ∷ orders) once =
      let (same, kept) = obey_same child order once in
      let (all_same, all_kept) = configured_once (obey functions child order) orders kept in
      (rw (sym same) all_same, all_kept)
