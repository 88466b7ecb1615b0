-- ===== src/Work/Pool/Carried/Steps.antt =====
-- Where the orders of a pool are while its threads go on (src/netmirage-core/work.c).
use netmirage.Prelude.{
  ℕ, zero, suc, ◌+◌, ◌≡◌, ap, sym, subst, ap₂, ◌∙◌, ◌⊎◌, ◌==◌, ltb, Bool, false, if◌then◌else◌,
  List, [], ◌∷◌, length, arith, some, Bool-cases, inl, inr,
}
use netmirage.Work.{WorkerOrder, worker_ping, worker_terminate}
use netmirage.Work.Child.{Worker, Child}
use netmirage.Work.Master.{WorkMain}
use netmirage.Work.Pool.{
  Workplace, Move, Joining, flushing, announcing, flushing_again, waiting, asking, returned,
  announce, join_step, order_at, Runs, start, turn, join,
}
use netmirage.Work.Pool.States.{none-some}
use netmirage.Work.Pool.Carried.{
  count, count_all, count-append, total_on_way, AreAfter, Move-Conserves,
}

module _ {W : Type 0} where
  pub order_at-on_way :
      (p : WorkerOrder → Bool) (order : WorkerOrder) (k : ℕ) (ws : List (Workplace W))
      → total_on_way p (order_at order k ws)
        ≡ total_on_way p ws + (if ltb k (length ws) then count p (order ∷ []) else 0)
  unfolding order_at
  order_at-on_way p order k [] = ground arith
  order_at-on_way p order zero (w ∷ ws) = ground (arith, count-append p w.orders (order ∷ []))
  order_at-on_way p order (suc k) (w ∷ ws) = ground (arith, order_at-on_way p order k ws)

  -- A step of `workJoin` leaves the queue as it is, and at most sends a ping to a workplace.
  join_asks :
      (reset_error : Bool) (at next : Joining) (main : WorkMain) (ws : List (Workplace W))
      (main' : WorkMain) (ws' : List (Workplace W))
      → join_step reset_error at main ws ≡ some (next, main', ws')
      → (main.order_queue ≡ main'.order_queue)
        × ((ws ≡ ws') ⊎ ((k : ℕ) × (order_at worker_ping k ws ≡ ws')))
  unfolding join_step announce
  join_asks reset_error flushing next main ws main' ws' e =
      elim (Bool-cases (main.unsent_orders == 0)) [
        | inl c ↦ (ground arith, inl (ground arith))
        | inr c ↦ absurd (none-some (next, main', ws') (rw c at e))
      ]
  join_asks reset_error announcing next main ws main' ws' e = (ground arith, inl (ground arith))
  join_asks reset_error flushing_again next main ws main' ws' e =
      elim (Bool-cases (main.unsent_orders == 0)) [
        | inl c ↦ (ground arith, inl (ground arith))
        | inr c ↦ absurd (none-some (next, main', ws') (rw c at e))
      ]
  join_asks reset_error (asking k) next main ws main' ws' e =
      elim (Bool-cases (ltb k main.pool_size)) [
        | inl c ↦ (ground arith, inr (k, ground arith))
        | inr c ↦ (ground arith, inl (ground arith))
      ]
  join_asks reset_error waiting next main ws main' ws' e = (ground arith, inl (ground arith))
  join_asks reset_error (returned code) next main ws main' ws' e =
      absurd (none-some (next, main', ws') e)

  module _ (functions : Worker W) (fresh : Child W) where
    pub order_at-AreAfter :
        (order : WorkerOrder) (k : ℕ) (ws : List (Workplace W)) (ts : List (List WorkerOrder))
        → AreAfter functions fresh ws ts
        → AreAfter functions fresh (order_at order k ws) ts
    unfolding order_at
    order_at-AreAfter order k [] ts h = h
    order_at-AreAfter order zero (w ∷ ws) [] h = h
    order_at-AreAfter order (suc k) (w ∷ ws) [] h = h
    order_at-AreAfter order zero (w ∷ ws) (t ∷ ts) h = h
    order_at-AreAfter order (suc k) (w ∷ ws) (t ∷ ts) h = (h.0, order_at-AreAfter order k ws ts h.1)

    -- The orders given are at the queue, with the workplaces, or carried out.
    pub record Carried (given : List WorkerOrder) (main : WorkMain) (ws : List (Workplace W))
        : Type 0 where
      pub carried : List (List WorkerOrder)
      pub after : AreAfter functions fresh ws carried
      pub same :
          (p : WorkerOrder → Bool)
          → p worker_ping ≡ false
          → p worker_terminate ≡ false
          → count p given ≡ count p main.order_queue + (total_on_way p ws + count_all p carried)

    pub step-Carried :
        (given : List WorkerOrder) (reset_error : Bool) (at next : Joining) (main : WorkMain)
        (ws : List (Workplace W)) (main' : WorkMain) (ws' : List (Workplace W))
        → Carried given main ws
        → join_step reset_error at main ws ≡ some (next, main', ws')
        → Carried given main' ws'
    step-Carried given reset_error at next main ws main' ws' c e =
        let (queue, places) = join_asks reset_error at next main ws main' ws' e in
        elim places [
          | inl same ↦ record {
            carried = c.carried;
            after = subst (λ l. AreAfter functions fresh l c.carried) same c.after;
            same = λ p no_ping no_terminate.
                c.same p no_ping no_terminate
                ∙ ap₂ (λ (a b : ℕ). a + (b + count_all p c.carried)) (ap (count p) queue)
                    (ap (total_on_way p) same);
          }
          | inr (k, pinged) ↦ record {
            carried = c.carried;
            after =
                subst (λ l. AreAfter functions fresh l c.carried) pinged
                  (order_at-AreAfter worker_ping k ws c.carried c.after);
            same = λ p no_ping no_terminate.
                let kept : total_on_way p (order_at worker_ping k ws) ≡ total_on_way p ws =
                  ground (arith, order_at-on_way p worker_ping k ws, no_ping) in
                c.same p no_ping no_terminate
                ∙ ap₂ (λ (a b : ℕ). a + (b + count_all p c.carried)) (ap (count p) queue)
                    (sym kept ∙ ap (total_on_way p) pinged);
          }
        ]

    pub Move-Carried :
        (given : List WorkerOrder) (main : WorkMain) {ws ws' : List (Workplace W)}
        {main' : WorkMain}
        → Carried given main ws
        → Move functions main ws main' ws'
        → Carried given main' ws'
    Move-Carried given main c m =
        let d = Move-Conserves functions fresh main c.carried c.after m in
        record {
          carried = d.carried;
          after = d.after;
          same = λ p no_ping no_terminate. c.same p no_ping no_terminate ∙ d.same p no_terminate;
        }

    pub runs-Carried :
        (given : List WorkerOrder) (reset_error : Bool) (from : Joining) (main : WorkMain)
        (ws : List (Workplace W)) {to : Joining} {main' : WorkMain} {ws' : List (Workplace W)}
        → Carried given main ws
        → Runs functions reset_error from main ws to main' ws'
        → Carried given main' ws'
    runs-Carried given reset_error from main ws c start = c
    runs-Carried given reset_error from main ws c (turn {to} {main'} {main''} {ws'} {ws''} r m) =
        Move-Carried given main' (runs-Carried given reset_error from main ws c r) m
    runs-Carried given reset_error from main ws c
          (join {to} {next} {main'} {main''} {ws'} {ws''} r e) =
        step-Carried given reset_error to next main' ws' main'' ws''
          (runs-Carried given reset_error from main ws c r) e
