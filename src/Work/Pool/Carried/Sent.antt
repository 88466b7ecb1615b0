-- ===== src/Work/Pool/Carried/Sent.antt =====
-- That what has been sent has been carried out when `workJoin` (src/netmirage-core/work.c) returns 0.
use netmirage.Prelude.{
  ℕ, zero, suc, ◌+◌, ◌^◌, ◌<◌, ◌≡◌, refl, ap, ap₂, subst, ◌∙◌, ◌==◌, ltb, not, ◌&&◌, Bool, false,
  if◌then◌else◌, List, [], ◌∷◌, length, replicate, arith, some, All, Bool-cases, inl, inr,
}
use netmirage.Work.{WorkerOrder, order_code, is_ping}
use netmirage.Work.Child.{Worker, Child, child_process}
use netmirage.Work.Master.{WorkMain, send_order}
use netmirage.Work.Pool.{Workplace, Joining, flushing, returned, join_step, order_at, Runs}
use netmirage.Work.Pool.States.{IsQuiet, Done}
use netmirage.Work.Pool.Owing.{Finished}
use netmirage.Work.Pool.Join.{join_finishes}
use netmirage.Work.Pool.History.{
  History, begun, sent, broadcast, moved, joined, work_init, init_main, init_workplace,
  History-IsQuiet,
}
use netmirage.Work.Pool.Carried.{
  count, count_all, count-append, idle-in_hand, total_on_way, AreAfter,
}
use netmirage.Work.Pool.Carried.Steps.{
  Carried, order_at-on_way, order_at-AreAfter, step-Carried, Move-Carried, runs-Carried,
}

-- Orders other than `WorkerPing` and `WorkerTerminate`.
abbrev pub is_work : WorkerOrder → Bool
is_work order = not (is_ping order) && not (order_code order == 1)

module _ {W : Type 0} where
  module _ (functions : Worker W) (pool_size : ℕ) (colorize : Bool) (threshold : ℕ)
      (worker : W) where
    -- The orders for which `sendOrder` has returned 0, and those broadcast to a workplace of the pool.
    abbrev pub given :
        {main : WorkMain} {ws : List (Workplace W)}
        → History functions pool_size colorize threshold worker main ws
        → List WorkerOrder
    given (begun main ws e) = []
    given (sent main ws order ignore_errors r no_ping few) =
        let before = given r in
        if (send_order main order ignore_errors).1 == 0 then order ∷ before else before
    given (broadcast main ws order k r no_ping) =
        let before = given r in if ltb k (length ws) then order ∷ before else before
    given (moved main ws main' ws' r m) = given r
    given (joined main ws reset_error at main' ws' main'' ws'' r runs e) = given r

    -- The child of each workplace is as one of the lists leaves the child that `workInit` started, but for
    -- what it has written, and the lists together hold each order of the given ones, other than
    -- `WorkerPing` and `WorkerTerminate`, as often as these do, whatever kind `p` of orders is counted.
    pub record AllCarriedOut (orders : List WorkerOrder) (ws : List (Workplace W)) : Type 0 where
      pub carried_out : List (List WorkerOrder)
      pub are_after :
          AreAfter functions (init_workplace colorize threshold worker).child ws carried_out
      pub each :
          (p : WorkerOrder → Bool)
          → count (λ o. is_work o && p o) orders ≡ count_all (λ o. is_work o && p o) carried_out

    new-Carried :
        (n : ℕ)
        → let ws = replicate n (init_workplace colorize threshold worker) in
          AreAfter functions (init_workplace colorize threshold worker).child ws (replicate n [])
          × ((p : WorkerOrder → Bool) → total_on_way p ws + count_all p (replicate n []) ≡ 0)
    unfolding init_workplace child_process
    new-Carried zero = (tt, λ p. omega arith)
    new-Carried (suc n) =
        let (after, counts) = new-Carried n in ((refl, after), λ p. omega (arith, counts p))

    init-Carried :
        (main : WorkMain) (ws : List (Workplace W))
        → work_init pool_size colorize threshold worker ≡ (main, ws)
        → Carried functions (init_workplace colorize threshold worker).child [] main ws
    unfolding work_init init_main
    init-Carried main ws e =
        let (after, counts) = new-Carried pool_size in
        subst
          (λ (p : WorkMain × List (Workplace W)).
            Carried functions (init_workplace colorize threshold worker).child [] p.0 p.1)
          e
          (record {
            carried = replicate pool_size [];
            after = after;
            same = λ p no_ping no_terminate. omega (arith, counts p);
          })

    sent-Carried :
        (fresh : Child W) (before : List WorkerOrder) (main : WorkMain) (ws : List (Workplace W))
        (order : WorkerOrder) (ignore_errors : Bool)
        → IsQuiet main ws
        → Carried functions fresh before main ws
        → Carried functions fresh
            (if (send_order main order ignore_errors).1 == 0 then order ∷ before else before)
            (send_order main order ignore_errors).0
            ws
    unfolding send_order
    sent-Carried fresh before main ws order ignore_errors q c =
        elim (Bool-cases (not ignore_errors && main.received_error)) [
          | inl refused ↦
              let wrong : (main.error_code == 0) ≡ false = ground (arith, q.honest) in
              rw (refused, wrong) c
          | inr accepted ↦ rw accepted (record {
            carried = c.carried;
            after = c.after;
            same = λ p no_ping no_terminate. omega (
              arith,
              c.same p no_ping no_terminate,
              count-append p main.order_queue (order ∷ []),
            );
          })
        ]

    broadcast-Carried :
        (fresh : Child W) (before : List WorkerOrder) (main : WorkMain) (ws : List (Workplace W))
        (order : WorkerOrder) (k : ℕ)
        → Carried functions fresh before main ws
        → Carried functions fresh
            (if ltb k (length ws) then order ∷ before else before)
            main
            (order_at order k ws)
    broadcast-Carried fresh before main ws order k c = record {
      carried = c.carried;
      after = order_at-AreAfter functions fresh order k ws c.carried c.after;
      same = λ p no_ping no_terminate.
          ground (arith, c.same p no_ping no_terminate, order_at-on_way p order k ws);
    }

    module _ (small : pool_size < 2 ^ 32) where
      history-Carried :
          {main : WorkMain} {ws : List (Workplace W)}
          (h : History functions pool_size colorize threshold worker main ws)
          → Carried functions (init_workplace colorize threshold worker).child (given h) main ws
      history-Carried (begun main ws e) = init-Carried main ws e
      history-Carried (sent main ws order ignore_errors r no_ping few) =
          sent-Carried (init_workplace colorize threshold worker).child (given r) main ws order
            ignore_errors (History-IsQuiet functions pool_size colorize threshold worker small r)
            (history-Carried r)
      history-Carried (broadcast main ws order k r no_ping) =
          broadcast-Carried (init_workplace colorize threshold worker).child (given r) main ws order
            k (history-Carried r)
      history-Carried (moved main ws main' ws' r m) =
          Move-Carried functions (init_workplace colorize threshold worker).child (given r) main
            (history-Carried r) m
      history-Carried (joined main ws reset_error at main' ws' main'' ws'' r runs e) =
          step-Carried functions (init_workplace colorize threshold worker).child (given r)
            reset_error at (returned 0) main' ws' main'' ws''
            (runs-Carried functions (init_workplace colorize threshold worker).child (given r)
              reset_error flushing main ws (history-Carried r) runs)
            e

      finished-on_way :
          (p : WorkerOrder → Bool) (ws : List (Workplace W))
          → All Finished ws
          → total_on_way p ws ≡ 0
      finished-on_way p [] h = refl
      finished-on_way p (w ∷ ws) h = omega (
        arith,
        ap (count p) (idle-in_hand w.sender h.0.not_busy),
        ap (count p) h.0.carried_out,
        finished-on_way p ws h.1,
      )

      -- Whatever has been done to a pool of fewer than 2^32 workers since `workInit` (orders sent and
      -- broadcast, other than pings and with fewer than 2^32 of them unsent; turns of the threads and
      -- child processes in any order; calls of `workJoin` that returned 0): when `workJoin` then returns
      -- 0, the orders for which `sendOrder` has returned 0 and those broadcast to each workplace have
      -- been carried out, each exactly as often as it was given: there is a list for each child process
      -- such that it is as the orders of the list leave a new child, but for what it has written, and
      -- the lists together hold these orders, other than to terminate, and no others but pings. None is
      -- left at the queue, with a send thread or in a pipe.
      pub work_joined :
          (main : WorkMain) (ws : List (Workplace W)) (reset_error : Bool) (at : Joining)
          (main' : WorkMain) (ws' : List (Workplace W)) (main'' : WorkMain)
          (ws'' : List (Workplace W))
          (h : History functions pool_size colorize threshold worker main ws)
          → Runs functions reset_error flushing main ws at main' ws'
          → join_step reset_error at main' ws' ≡ some (returned 0, main'', ws'')
          → Done main'' ws'' × AllCarriedOut (given h) ws''
      work_joined main ws reset_error at main' ws' main'' ws'' h runs e =
          let done =
            (join_finishes functions reset_error main ws at main' ws' main'' ws''
              (History-IsQuiet functions pool_size colorize threshold worker small h) runs e).0 in
          let c = history-Carried (joined main ws reset_error at main' ws' main'' ws'' h runs e) in
          (
            done,
            record {
              carried_out = c.carried;
              are_after = c.after;
              each = λ p.
                  c.same (λ o. is_work o && p o) refl refl
                  ∙ ap₂ (λ (a b : ℕ). a + (b + count_all (λ o. is_work o && p o) c.carried))
                      (ap (count (λ o. is_work o && p o)) done.no_orders)
                      (finished-on_way (λ o. is_work o && p o) ws'' done.finished)
                  ∙ omega arith;
            },
          )
