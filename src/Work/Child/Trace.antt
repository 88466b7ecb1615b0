-- ===== src/Work/Child/Trace.antt =====
-- What a child process answers to a sequence of orders.
use netmirage.Prelude.{
  All, ◌+◌, ◌≤◌, ◌≡◌, refl, ap, ◌∙◌, false, if◌then◌else◌, List, [], ◌∷◌, ◌++◌, length, arith,
  Bool-cases, inl, inr,
}
use mathlib.Core.List.{append_assoc}
use netmirage.Work.{
  WorkerOrder, WorkerResponse, response_error, response_pong, is_ping, is_configure,
}
use netmirage.Work.Child.{
  Worker, Child, respond, respond_error, carry_out, answer, obey, child_process, log_responses,
  print,
}
use netmirage.Work.Child.Writes.{
  pongs, pings, pongs-append, answers, answers-append, logs_apart, ping_only, obey-Writes,
}

module _ {W : Type 0} where
  module _ (functions : Worker W) where
    -- A child process answers every ping with one pong, whatever else it is ordered to do and whether
    -- it has been configured or not, and, but for the messages of its log, writes at most one response
    -- for each order.
    pub child_pongs :
        (child : Child W) (orders : List WorkerOrder)
        → let last = (child_process functions child orders).0 in
          (pongs last.responses ≡ pongs child.responses + pings orders)
          × (answers last.responses ≤ answers child.responses + length orders)
    unfolding child_process
    child_pongs child [] =
        let pieces =
          functions.logged_last child.initialized child.colorize child.threshold child.worker in
        let (p, a, h) = logs_apart pieces in
        (
          omega (arith, p, pongs-append child.responses (log_responses pieces)),
          omega (arith, a, answers-append child.responses (log_responses pieces)),
        )
    child_pongs child (order ∷ orders) =
        let w = obey-Writes functions child order in
        let (counted, bounded) = child_pongs (obey functions child order) orders in
        let p = ap pongs w.responses_eq ∙ pongs-append child.responses w.added in
        let l = ap answers w.responses_eq ∙ answers-append child.responses w.added in
        (omega (arith, counted, p, w.counted), omega (arith, bounded, l, w.one))

    -- What a child that has not been configured answers.
    abbrev pub refusal : WorkerOrder → WorkerResponse
    refusal order = if is_ping order then response_pong else response_error 1

    refused :
        (child : Child W) (order : WorkerOrder)
        → child.initialized ≡ false
        → is_configure order ≡ false
        → answer functions child order ≡ respond child (refusal order)
    unfolding answer carry_out respond_error
    refused child order new other = elim (Bool-cases (is_ping order)) [
      | inl ping ↦ rw (ping_only order ping) (simp new refl)
      | inr no_ping ↦ simp (new, other, no_ping) refl
    ]

    -- What such a child writes for orders up to the end of its pipe: the messages of its log and, after
    -- them, the refusal, for each order, and the last messages of its log.
    abbrev pub refusals : Child W → List WorkerOrder → List WorkerResponse
    refusals child [] =
        log_responses
          (functions.logged_last child.initialized child.colorize child.threshold child.worker)
    refusals child (order ∷ orders) =
        let rest = refusals child orders in
        let pieces =
          functions.logged child.initialized child.colorize child.threshold child.worker order in
        log_responses pieces ++ (refusal order ∷ rest)

    -- Until it is configured, a child process answers every ping with a pong and every other order with
    -- the error 1, after what it logs, calls no function of the worker, and exits with 0.
    pub unconfigured_refuses :
        (child : Child W) (orders : List WorkerOrder)
        → child.initialized ≡ false
        → All (λ o. is_configure o ≡ false) orders
        → child_process functions child orders
          ≡ (record child { responses = child.responses ++ refusals child orders }, 0)
    unfolding child_process obey respond
    unconfigured_refuses child [] new others =
        ap
          (λ b. (
            record child { responses = child.responses ++ refusals child [] },
            if b then functions.cleanup child.worker else 0,
          ))
          new
    unconfigured_refuses child (order ∷ orders) new others =
        let pieces =
          functions.logged child.initialized child.colorize child.threshold child.worker order in
        rw (refused (print child pieces) order new others.0) (
          unconfigured_refuses (respond (print child pieces) (refusal order)) orders new others.1
          ∙ ap (λ l. (record child { responses = l }, 0))
              (append_assoc (child.responses ++ log_responses pieces) (refusal order ∷ [])
                  (refusals child orders)
                ∙ append_assoc child.responses (log_responses pieces)
                    (refusal order ∷ refusals child orders)))
