-- ===== src/Work/Child/Writes.antt =====
-- What a child process writes for an order.
use netmirage.Prelude.{
  ◌≢◌, All, ℕ, ◌+◌, ◌≤◌, ◌≡◌, refl, ap, sym, ◌∙◌, Bool, true, false, not, ◌&&◌, ◌||◌, ◌==◌,
  if◌then◌else◌, List, [], ◌∷◌, ◌++◌, Option, none, some, arith, Bool-cases, inl, inr,
}
use mathlib.Core.List.{append-nil, append_assoc}
use netmirage.Work.{
  WorkerOrder, WorkerResponse, worker_ping, worker_terminate, worker_destroy_hosts,
  worker_configure, worker_get_edge_remote_mac, worker_get_edge_local_mac, worker_get_interface_mtu,
  worker_add_edge_interface, worker_mtu_supported, worker_add_root, worker_add_host,
  worker_set_self_link, worker_ensure_system_scaling, worker_add_link, worker_add_internal_routes,
  worker_add_client_routes, worker_add_edge_routes, response_error, response_pong,
  response_log_print, response_log_end, is_ping, is_configure,
}
use netmirage.Work.Child.{
  Worker, Child, respond, respond_error, after, answered, configure, carry_out, answer, obey,
  log_responses, print,
}

abbrev pub is_pong : WorkerResponse → Bool
is_pong response_pong = true
is_pong _ = false

-- An error that would be taken for success.
abbrev pub is_no_error : WorkerResponse → Bool
is_no_error (response_error code) = code == 0
is_no_error _ = false

abbrev pub pongs : List WorkerResponse → ℕ
pongs [] = 0
pongs (r ∷ rs) = (if is_pong r then 1 else 0) + pongs rs

-- The responses but for those of the log.
abbrev pub is_log : WorkerResponse → Bool
is_log (response_log_print len) = true
is_log response_log_end = true
is_log _ = false

abbrev pub answers : List WorkerResponse → ℕ
answers [] = 0
answers (r ∷ rs) = (if is_log r then 0 else 1) + answers rs

abbrev pub pings : List WorkerOrder → ℕ
pings [] = 0
pings (o ∷ os) = (if is_ping o then 1 else 0) + pings os

pub ping_only : (order : WorkerOrder) → is_ping order ≡ true → order ≡ worker_ping
ping_only worker_ping e = refl
ping_only worker_terminate e = cc
ping_only (worker_configure c) e = cc
ping_only (worker_get_edge_remote_mac n ip) e = cc
ping_only (worker_get_edge_local_mac n) e = cc
ping_only (worker_get_interface_mtu n) e = cc
ping_only (worker_mtu_supported m) e = cc
ping_only (worker_add_root o) e = cc
ping_only (worker_add_edge_interface n) e = cc
ping_only (worker_add_host o) e = cc
ping_only (worker_set_self_link id l) e = cc
ping_only (worker_ensure_system_scaling o) e = cc
ping_only (worker_add_link o) e = cc
ping_only (worker_add_internal_routes o) e = cc
ping_only (worker_add_client_routes o) e = cc
ping_only (worker_add_edge_routes o) e = cc
ping_only worker_destroy_hosts e = cc

pub true-false : true ≢ false
true-false e = cc

pub pongs-append : (xs ys : List WorkerResponse) → pongs (xs ++ ys) ≡ pongs xs + pongs ys
pongs-append [] ys = omega arith
pongs-append (x ∷ xs) ys = omega (arith, pongs-append xs ys)

pub answers-append : (xs ys : List WorkerResponse) → answers (xs ++ ys) ≡ answers xs + answers ys
answers-append [] ys = omega arith
answers-append (x ∷ xs) ys = omega (arith, answers-append xs ys)

pub All-append {ℓ κ} :
    {A : Type ℓ} (P : A → Type κ) (xs ys : List A) → All P xs → All P ys → All P (xs ++ ys)
All-append P [] ys hx hy = hy
All-append P (x ∷ xs) ys hx hy = (hx.0, All-append P xs ys hx.1 hy)

-- The log answers nothing.
pub logs_apart :
    (pieces : List (Option (List ℕ)))
    → (pongs (log_responses pieces) ≡ 0)
      × (answers (log_responses pieces) ≡ 0)
      × All (λ r. is_no_error r ≡ false) (log_responses pieces)
logs_apart [] = (refl, refl, tt)
logs_apart (none ∷ pieces) =
    let (p, a, h) = logs_apart pieces in (omega (arith, p), omega (arith, a), (refl, h))
logs_apart (some text ∷ pieces) =
    let (p, a, h) = logs_apart pieces in (omega (arith, p), omega (arith, a), (refl, h))

module _ {W : Type 0} where
  -- What carrying out an order writes.
  pub record Adds (child : Child W) (order : WorkerOrder) (result : Child W × ℕ) : Type 0 where
    pub added : List WorkerResponse
    pub responses_eq : result.0.responses ≡ child.responses ++ added
    pub one : answers added ≤ 1
    pub silent : (result.1 == 0) ≡ false → added ≡ []
    pub counted : pongs added ≡ pings (order ∷ [])
    pub honest : All (λ r. is_no_error r ≡ false) added

  pub after-Adds :
      (child : Child W) (order : WorkerOrder) (result : W × ℕ)
      → pings (order ∷ []) ≡ 0
      → Adds child order (after child result)
  unfolding after
  after-Adds child order result no_ping = record {
    added = [];
    responses_eq = sym (append-nil child.responses);
    one = ground arith;
    silent = λ e. refl;
    counted = sym no_ping;
    honest = tt;
  }

  pub answered-Adds :
      (child : Child W) (order : WorkerOrder) (w : W) (response : WorkerResponse) (err : ℕ)
      → pings (order ∷ []) ≡ 0
      → is_pong response ≡ false
      → is_no_error response ≡ false
      → Adds child order (answered child w response err)
  unfolding answered respond
  answered-Adds child order w response err no_ping no_pong no_error = elim (Bool-cases (err == 0)) [
    | inl fine ↦ rw fine (record {
      added = response ∷ [];
      responses_eq = refl;
      one = ground arith;
      silent = λ e. absurd (true-false (sym fine ∙ e));
      counted = rw no_pong (sym no_ping);
      honest = (no_error, tt);
    })
    | inr wrong ↦ rw wrong (record {
      added = [];
      responses_eq = sym (append-nil child.responses);
      one = ground arith;
      silent = λ e. refl;
      counted = sym no_ping;
      honest = tt;
    })
  ]

  -- What one turn of the loop writes.
  pub record Writes (child : Child W) (order : WorkerOrder) (new : Child W) : Type 0 where
    pub added : List WorkerResponse
    pub responses_eq : new.responses ≡ child.responses ++ added
    pub one : answers added ≤ 1
    pub counted : pongs added ≡ pings (order ∷ [])
    pub honest : All (λ r. is_no_error r ≡ false) added

  pub rejected-Writes :
      (child : Child W) (order : WorkerOrder)
      → is_ping order ≡ false
      → Writes child order (respond_error child 1)
  unfolding respond_error respond
  rejected-Writes child order no_ping = record {
    added = response_error 1 ∷ [];
    responses_eq = refl;
    one = ground arith;
    counted = rw no_ping refl;
    honest = (refl, tt);
  }

  pub carried_out-Writes :
      (child : Child W) (order : WorkerOrder) (result : Child W × ℕ)
      → Adds child order result
      → Writes child order
          (if not (result.1 == 0) then respond_error result.0 result.1 else result.0)
  unfolding respond_error respond
  carried_out-Writes child order result a = elim (Bool-cases (result.1 == 0)) [
    | inl fine ↦ rw fine (record {
      added = a.added;
      responses_eq = a.responses_eq;
      one = a.one;
      counted = a.counted;
      honest = a.honest;
    })
    | inr wrong ↦ rw wrong (record {
      added = response_error result.1 ∷ [];
      responses_eq =
          ap (λ l. l ++ (response_error result.1 ∷ []))
            (a.responses_eq
              ∙ ap (λ l. child.responses ++ l) (a.silent wrong)
              ∙ append-nil child.responses);
      one = ground arith;
      counted = sym (ap pongs (a.silent wrong)) ∙ a.counted;
      honest = (wrong, tt);
    })
  ]

  module _ (functions : Worker W) where
    pub carry_out-Adds :
        (child : Child W) (order : WorkerOrder) → Adds child order (carry_out functions child order)
    unfolding carry_out configure respond
    carry_out-Adds child worker_ping = record {
      added = response_pong ∷ [];
      responses_eq = refl;
      one = ground arith;
      silent = λ e. cc;
      counted = refl;
      honest = (refl, tt);
    }
    carry_out-Adds child worker_terminate = record {
      added = [];
      responses_eq = sym (append-nil child.responses);
      one = ground arith;
      silent = λ e. refl;
      counted = refl;
      honest = tt;
    }
    carry_out-Adds child (worker_configure c) = record {
      added = [];
      responses_eq = sym (append-nil child.responses);
      one = ground arith;
      silent = λ e. refl;
      counted = refl;
      honest = tt;
    }
    carry_out-Adds child (worker_get_edge_remote_mac n ip) =
        answered-Adds child _ _ _ _ refl refl refl
    carry_out-Adds child (worker_get_edge_local_mac n) = answered-Adds child _ _ _ _ refl refl refl
    carry_out-Adds child (worker_get_interface_mtu n) = answered-Adds child _ _ _ _ refl refl refl
    carry_out-Adds child (worker_mtu_supported m) = answered-Adds child _ _ _ _ refl refl refl
    carry_out-Adds child (worker_add_root o) = after-Adds child _ _ refl
    carry_out-Adds child (worker_add_edge_interface n) = after-Adds child _ _ refl
    carry_out-Adds child (worker_add_host o) = after-Adds child _ _ refl
    carry_out-Adds child (worker_set_self_link id l) = after-Adds child _ _ refl
    carry_out-Adds child (worker_ensure_system_scaling o) = after-Adds child _ _ refl
    carry_out-Adds child (worker_add_link o) = after-Adds child _ _ refl
    carry_out-Adds child (worker_add_internal_routes o) = after-Adds child _ _ refl
    carry_out-Adds child (worker_add_client_routes o) = after-Adds child _ _ refl
    carry_out-Adds child (worker_add_edge_routes o) = after-Adds child _ _ refl
    carry_out-Adds child worker_destroy_hosts = after-Adds child _ _ refl

    answer-Writes :
        (child : Child W) (order : WorkerOrder) → Writes child order (answer functions child order)
    unfolding answer
    answer-Writes child order = elim (Bool-cases (child.initialized && is_configure order)) [
      | inl twice ↦ rw twice (rejected-Writes child order (ground arith))
      | inr once ↦
          elim (Bool-cases (not child.initialized && not (is_configure order || is_ping order))) [
            | inl early ↦ rw (once, early) (rejected-Writes child order (ground arith))
            | inr now ↦
                rw (once, now)
                  (carried_out-Writes child order (carry_out functions child order)
                    (carry_out-Adds child order))
          ]
    ]

    pub obey-Writes :
        (child : Child W) (order : WorkerOrder) → Writes child order (obey functions child order)
    unfolding obey
    obey-Writes child order =
        let pieces =
          functions.logged child.initialized child.colorize child.threshold child.worker order in
        let (p, a, h) = logs_apart pieces in
        let w = answer-Writes (print child pieces) order in
        record {
          added = log_responses pieces ++ w.added;
          responses_eq =
              w.responses_eq ∙ append_assoc child.responses (log_responses pieces) w.added;
          one = omega (arith, w.one, a, answers-append (log_responses pieces) w.added);
          counted = omega (arith, w.counted, p, pongs-append (log_responses pieces) w.added);
          honest =
              All-append (λ r. is_no_error r ≡ false) (log_responses pieces) w.added h w.honest;
        }
