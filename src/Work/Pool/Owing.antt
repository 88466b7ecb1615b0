-- ===== src/Work/Pool/Owing.antt =====
-- The pool between the pings and the last pong.
use netmirage.Prelude.{
  ℕ, zero, suc, ◌+◌, ◌^◌, ◌≤◌, ◌<◌, ◌≡◌, refl, ap, List, [], ◌∷◌, length, arith, All,
}
use netmirage.Work.{WorkerOrder, worker_ping}
use netmirage.Work.Child.{Worker}
use netmirage.Work.Child.Writes.{pings}
use netmirage.Work.Master.{WorkMain}
use netmirage.Work.Pool.{Workplace, Move, here, there, order_at}
use netmirage.Work.Pool.Turns.{
  busy, outstanding, Ends, none_left, ping_last, Turn-Asking, pings-append,
}
use netmirage.Work.Pool.Phases.{total_busy, total_outstanding}

Ends-empty : (orders : List WorkerOrder) → Ends orders → pings orders ≡ 0 → orders ≡ []
Ends-empty orders (none_left e) h = e
Ends-empty orders (ping_last os e) h =
    absurd (omega (arith, ap pings e, pings-append os (worker_ping ∷ []), h))

module _ {W : Type 0} where
  -- The first `k` workplaces have been sent the ping.
  abbrev pub Asked : ℕ → List (Workplace W) → Type 0
  Asked k [] = Unit
  Asked zero (w ∷ ws) = (outstanding w ≡ 0) × Asked zero ws
  Asked (suc k) (w ∷ ws) = Ends w.orders × Asked k ws

  -- `r` is what is owed elsewhere, and by those that have not been sent the ping.
  pub record Owing (main : WorkMain) (k : ℕ) (ws : List (Workplace W)) (r : ℕ) : Type 0 where
    pub no_orders : main.order_queue ≡ []
    pub all_sent : main.unsent_orders ≡ 0
    pub not_busy : total_busy ws ≡ 0
    pub owed : main.pongs_expected ≡ total_outstanding ws + r
    pub small : main.pongs_expected < 2 ^ 32
    pub asked : Asked k ws

  Owing-less :
      (main : WorkMain) (k j : ℕ) (w : Workplace W) (ws : List (Workplace W)) (r : ℕ)
      → Owing main k (w ∷ ws) r
      → Asked j ws
      → Owing main j ws (outstanding w + r)
  Owing-less main k j w ws r o asked = record {
    no_orders = o.no_orders;
    all_sent = o.all_sent;
    not_busy = omega (arith, o.not_busy);
    owed = omega (arith, o.owed);
    small = o.small;
    asked = asked;
  }

  Owing-more :
      (main : WorkMain) (k j : ℕ) (w : Workplace W) (ws : List (Workplace W)) (r : ℕ)
      → Owing main j ws (outstanding w + r)
      → busy w.sender ≡ 0
      → Asked k (w ∷ ws)
      → Owing main k (w ∷ ws) r
  Owing-more main k j w ws r o idle asked = record {
    no_orders = o.no_orders;
    all_sent = o.all_sent;
    not_busy = omega (arith, o.not_busy, idle);
    owed = omega (arith, o.owed);
    small = o.small;
    asked = asked;
  }

  -- A turn at the first workplace.
  Asked-first :
      (k : ℕ) (w w' : Workplace W) (ws : List (Workplace W))
      → outstanding w' ≤ outstanding w
      → (Ends w.orders → Ends w'.orders)
      → Asked k (w ∷ ws)
      → Asked k (w' ∷ ws)
  Asked-first zero w w' ws less ends a = (omega (arith, a.0), a.1)
  Asked-first (suc k) w w' ws less ends a = (ends a.0, a.1)

  pub Move-Owing :
      (functions : Worker W) (main : WorkMain) (k : ℕ) (r : ℕ) {ws ws' : List (Workplace W)}
      {main' : WorkMain}
      → Owing main k ws r
      → Move functions main ws main' ws'
      → Owing main' k ws' r × (main'.pool_size ≡ main.pool_size) × (length ws' ≡ length ws)
  Move-Owing functions main k r o (here w ws main' w' t) =
      let (a, keeps) =
        Turn-Asking functions main w (total_outstanding ws + r) main' w'
          (record {
            no_orders = o.no_orders;
            all_sent = o.all_sent;
            not_busy = omega (arith, o.not_busy);
            owed = omega (arith, o.owed);
            small = o.small;
          })
          t in
      (
        record {
          no_orders = a.no_orders;
          all_sent = a.all_sent;
          not_busy = omega (arith, a.not_busy, o.not_busy);
          owed = omega (arith, a.owed);
          small = a.small;
          asked = Asked-first k w w' ws keeps.less keeps.ends o.asked;
        },
        keeps.pool_eq,
        refl,
      )
  Move-Owing functions main zero r o (there w ws main' ws' m) =
      let (o', pool, same) =
        Move-Owing functions main zero (outstanding w + r)
          (Owing-less main zero zero w ws r o (o.asked.1)) m in
      (
        Owing-more main' zero zero w ws' r o' (omega (arith, o.not_busy)) (o.asked.0, o'.asked),
        pool,
        ap suc same,
      )
  Move-Owing functions main (suc k) r o (there w ws main' ws' m) =
      let (o', pool, same) =
        Move-Owing functions main k (outstanding w + r)
          (Owing-less main (suc k) k w ws r o (o.asked.1)) m in
      (
        Owing-more main' (suc k) k w ws' r o' (omega (arith, o.not_busy)) (o.asked.0, o'.asked),
        pool,
        ap suc same,
      )

  -- The ping goes to the next workplace.
  pub ping-Owing :
      (main : WorkMain) (k : ℕ) (ws : List (Workplace W)) (r : ℕ)
      → k < length ws
      → Owing main k ws (suc r)
      → Owing main (suc k) (order_at worker_ping k ws) r
        × (length (order_at worker_ping k ws) ≡ length ws)
  unfolding order_at
  ping-Owing main k [] r lt o = absurd (omega arith)
  ping-Owing main zero (w ∷ ws) r lt o = (
    record {
      no_orders = o.no_orders;
      all_sent = o.all_sent;
      not_busy = o.not_busy;
      owed = omega (arith, o.owed, pings-append w.orders (worker_ping ∷ []));
      small = o.small;
      asked = (ping_last w.orders refl, o.asked.1);
    },
    refl,
  )
  ping-Owing main (suc k) (w ∷ ws) r lt o =
      let rest = Owing-less main (suc k) k w ws (suc r) o (o.asked.1) in
      let (o', same) = ping-Owing main k ws (outstanding w + r) (omega arith) (record {
        no_orders = rest.no_orders;
        all_sent = rest.all_sent;
        not_busy = rest.not_busy;
        owed = omega (arith, rest.owed);
        small = rest.small;
        asked = rest.asked;
      }) in
      (
        Owing-more main (suc (suc k)) (suc k) w (order_at worker_ping k ws) r o'
            (omega (arith, o.not_busy)) (o.asked.0, o'.asked),
        ap suc same,
      )

  -- All orders have been carried out: none is at the queue, with a send thread or in a pipe.
  pub record Finished (w : Workplace W) : Type 0 where
    pub not_busy : busy w.sender ≡ 0
    pub carried_out : w.orders ≡ []

  pub Owing-Finished :
      (ws : List (Workplace W))
      → Asked (length ws) ws
      → total_busy ws ≡ 0
      → total_outstanding ws ≡ 0
      → All Finished ws
  Owing-Finished [] a idle none_owed = tt
  Owing-Finished (w ∷ ws) a idle none_owed = (
    record {
      not_busy = omega (arith, idle);
      carried_out = Ends-empty w.orders a.0 (omega (arith, none_owed));
    },
    Owing-Finished ws a.1 (omega (arith, idle)) (omega (arith, none_owed)),
  )
