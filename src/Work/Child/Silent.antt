-- ===== src/Work/Child/Silent.antt =====
-- A child process (src/netmirage-core/work.c) but for what it has written.
use netmirage.Prelude.{
  ℕ, ◌≡◌, refl, ap, sym, ◌∙◌, ◌==◌, not, ◌&&◌, ◌||◌, List, [], ◌∷◌, ◌++◌, Bool-cases, inl, inr,
}
use netmirage.Work.{
  WorkerOrder, WorkerResponse, is_configure, is_ping, worker_ping, worker_terminate,
  worker_destroy_hosts, worker_configure, worker_get_edge_remote_mac, worker_get_edge_local_mac,
  worker_get_interface_mtu, worker_add_edge_interface, worker_mtu_supported, worker_add_root,
  worker_add_host, worker_set_self_link, worker_ensure_system_scaling, worker_add_link,
  worker_add_internal_routes, worker_add_client_routes, worker_add_edge_routes,
}
use netmirage.Work.Child.{
  Worker, Child, respond, respond_error, after, answered, configure, carry_out, answer, obey,
  child_process, print,
}

module _ {W : Type 0} where
  abbrev pub silent : Child W → Child W
  silent child = record child { responses = [] }

  answered_same :
      (child : Child W) (w : W) (response : WorkerResponse) (err : ℕ)
      → (silent (answered child w response err).0
          ≡ silent (answered (silent child) w response err).0)
        × ((answered child w response err).1 ≡ (answered (silent child) w response err).1)
  unfolding answered respond
  answered_same child w response err = elim (Bool-cases (err == 0)) [
    | inl fine ↦ rw fine (refl, refl)
    | inr wrong ↦ rw wrong (refl, refl)
  ]

  module _ (functions : Worker W) where
    carry_out_same :
        (child : Child W) (order : WorkerOrder)
        → (silent (carry_out functions child order).0
            ≡ silent (carry_out functions (silent child) order).0)
          × ((carry_out functions child order).1 ≡ (carry_out functions (silent child) order).1)
    unfolding carry_out after respond configure
    carry_out_same child worker_ping = (refl, refl)
    carry_out_same child worker_terminate = (refl, refl)
    carry_out_same child (worker_configure c) = (refl, refl)
    carry_out_same child (worker_get_edge_remote_mac n ip) = answered_same child _ _ _
    carry_out_same child (worker_get_edge_local_mac n) = answered_same child _ _ _
    carry_out_same child (worker_get_interface_mtu n) = answered_same child _ _ _
    carry_out_same child (worker_mtu_supported m) = answered_same child _ _ _
    carry_out_same child (worker_add_root o) = (refl, refl)
    carry_out_same child (worker_add_edge_interface n) = (refl, refl)
    carry_out_same child (worker_add_host o) = (refl, refl)
    carry_out_same child (worker_set_self_link id l) = (refl, refl)
    carry_out_same child (worker_ensure_system_scaling o) = (refl, refl)
    carry_out_same child (worker_add_link o) = (refl, refl)
    carry_out_same child (worker_add_internal_routes o) = (refl, refl)
    carry_out_same child (worker_add_client_routes o) = (refl, refl)
    carry_out_same child (worker_add_edge_routes o) = (refl, refl)
    carry_out_same child worker_destroy_hosts = (refl, refl)

    answer_same :
        (child : Child W) (order : WorkerOrder)
        → silent (answer functions child order) ≡ silent (answer functions (silent child) order)
    unfolding answer respond_error respond
    answer_same child order =
        let (same, code) = carry_out_same child order in
        elim (Bool-cases (child.initialized && is_configure order)) [
          | inl twice ↦ rw twice refl
          | inr once ↦
              elim (Bool-cases
                (not child.initialized && not (is_configure order || is_ping order))) [
                  | inl early ↦ rw (once, early) refl
                  | inr now ↦
                      elim (Bool-cases ((carry_out functions (silent child) order).1 == 0)) [
                        | inl fine ↦ rw (once, now, code, fine) same
                        | inr wrong ↦ rw (once, now, code, wrong) same
                      ]
                ]
        ]

    obey_silent :
        (child : Child W) (order : WorkerOrder)
        → silent (obey functions child order) ≡ silent (obey functions (silent child) order)
    unfolding obey
    obey_silent child order =
        let pieces =
          functions.logged child.initialized child.colorize child.threshold child.worker order in
        answer_same (print child pieces) order
        ∙ sym (answer_same (print (silent child) pieces) order)

    -- What a child does for an order does not depend on what it has written.
    pub obey_same :
        (child other : Child W) (order : WorkerOrder)
        → silent child ≡ silent other
        → silent (obey functions child order) ≡ silent (obey functions other order)
    obey_same child other order e =
        obey_silent child order
        ∙ ap (λ c. silent (obey functions c order)) e
        ∙ sym (obey_silent other order)

    pub after_one :
        (child : Child W) (orders : List WorkerOrder) (order : WorkerOrder)
        → silent (child_process functions child (orders ++ (order ∷ []))).0
          ≡ silent (obey functions (child_process functions child orders).0 order)
    unfolding child_process
    after_one child [] order = obey_same child (child_process functions child []).0 order refl
    after_one child (o ∷ os) order = after_one (obey functions child o) os order
