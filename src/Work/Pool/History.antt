-- ===== src/Work/Pool/History.antt =====
-- The pool from `workInit` on (src/netmirage-core/work.c): orders are sent and broadcast, threads have
-- their turns, and `workJoin` is called.
use netmirage.Prelude.{
  ℕ, zero, suc, ◌+◌, ◌^◌, ◌<◌, ◌≡◌, refl, sym, subst, Bool, false, List, [], ◌∷◌, length, arith,
  All, some, replicate, length-replicate, length-append, Bool-cases, inl, inr, not, ◌&&◌,
}
use netmirage.Work.{WorkerOrder, response_error, is_ping}
use netmirage.Work.Child.{Worker}
use netmirage.Work.Child.Writes.{pings}
use netmirage.Work.Master.{WorkMain, send_order}
use netmirage.Work.Pool.{
  at_queue, Workplace, Move, Joining, flushing, returned, join_step, Runs, order_at,
}
use netmirage.Work.Pool.Turns.{pings-append}
use netmirage.Work.Pool.Errors.{AreHonest}
use netmirage.Work.Pool.Phases.{
  total_busy, total_held, total_outstanding, Move-Flushed, Move-IsHonest, Move-length,
}
use netmirage.Work.Pool.States.{IsQuiet}
use netmirage.Work.Pool.Join.{join_finishes}

-- `workMain` as `workInit` leaves it; what it does not set is zero.
unfoldable pub init_main : ℕ → WorkMain
init_main pool_size = record {
  pool_size = pool_size;
  order_queue = [];
  unsent_orders = 0;
  received_error = false;
  error_code = 0;
  response_queued = false;
  response = response_error 0;
  pongs_expected = 0;
}

one_order : (order : WorkerOrder) → is_ping order ≡ false → pings (order ∷ []) ≡ 0
one_order order no_ping = rw no_ping refl

module _ {W : Type 0} where
  -- A workplace whose threads and child process have been started.
  unfoldable pub init_workplace : Bool → ℕ → W → Workplace W
  init_workplace colorize threshold worker = record {
    sender = at_queue;
    orders = [];
    child = record {
      initialized = false;
      colorize = colorize;
      threshold = threshold;
      worker = worker;
      responses = [];
    };
  }

  -- `workInit` when all child processes can be started.
  unfoldable pub work_init : ℕ → Bool → ℕ → W → WorkMain × List (Workplace W)
  work_init pool_size colorize threshold worker =
      (init_main pool_size, replicate pool_size (init_workplace colorize threshold worker))

  -- What can have been done to a pool since. Only `workJoin` broadcasts pings; here it returns 0.
  pub data History (functions : Worker W) (pool_size : ℕ) (colorize : Bool) (threshold : ℕ)
      (worker : W) : WorkMain → List (Workplace W) → Type 0 where
    begun :
        (main : WorkMain) (ws : List (Workplace W))
        → work_init pool_size colorize threshold worker ≡ (main, ws)
        → History functions pool_size colorize threshold worker main ws
    sent :
        (main : WorkMain) (ws : List (Workplace W)) (order : WorkerOrder) (ignore_errors : Bool)
        → History functions pool_size colorize threshold worker main ws
        → is_ping order ≡ false
        → main.unsent_orders + 1 < 2 ^ 32
        → History functions pool_size colorize threshold worker
            (send_order main order ignore_errors).0
            ws
    broadcast :
        (main : WorkMain) (ws : List (Workplace W)) (order : WorkerOrder) (k : ℕ)
        → History functions pool_size colorize threshold worker main ws
        → is_ping order ≡ false
        → History functions pool_size colorize threshold worker main (order_at order k ws)
    moved :
        (main : WorkMain) (ws : List (Workplace W)) (main' : WorkMain) (ws' : List (Workplace W))
        → History functions pool_size colorize threshold worker main ws
        → Move functions main ws main' ws'
        → History functions pool_size colorize threshold worker main' ws'
    joined :
        (main : WorkMain) (ws : List (Workplace W)) (reset_error : Bool) (at : Joining)
        (main' : WorkMain) (ws' : List (Workplace W)) (main'' : WorkMain)
        (ws'' : List (Workplace W))
        → History functions pool_size colorize threshold worker main ws
        → Runs functions reset_error flushing main ws at main' ws'
        → join_step reset_error at main' ws' ≡ some (returned 0, main'', ws'')
        → History functions pool_size colorize threshold worker main'' ws''

  module _ (colorize : Bool) (threshold : ℕ) (worker : W) where
    new_counts :
        (n : ℕ)
        → let ws = replicate n (init_workplace colorize threshold worker) in
          (total_busy ws ≡ 0) × (total_held ws ≡ 0) × (total_outstanding ws ≡ 0) × All AreHonest ws
    unfolding init_workplace
    new_counts zero = (refl, refl, refl, tt)
    new_counts (suc n) =
        let (b, h, o, fine) = new_counts n in
        (omega (arith, b), omega (arith, h), omega (arith, o), (tt, fine))

    init-IsQuiet :
        (n : ℕ)
        → n < 2 ^ 32
        → IsQuiet (init_main n) (replicate n (init_workplace colorize threshold worker))
    unfolding init_main
    init-IsQuiet n small =
        let (b, h, o, fine) = new_counts n in
        record {
          flushed = record {
            account = omega (arith, b);
            small = omega arith;
            clean = omega (arith, h);
            quiet = o;
          };
          pool_eq = sym (length-replicate n (init_workplace colorize threshold worker));
          small =
              omega (arith, length-replicate n (init_workplace colorize threshold worker), small);
          honest = λ e. cc;
          all_honest = fine;
        }

  send-IsQuiet :
      (main : WorkMain) (ws : List (Workplace W)) (order : WorkerOrder) (ignore_errors : Bool)
      → is_ping order ≡ false
      → main.unsent_orders + 1 < 2 ^ 32
      → IsQuiet main ws
      → IsQuiet (send_order main order ignore_errors).0 ws
  unfolding send_order
  send-IsQuiet main ws order ignore_errors no_ping small q =
      elim (Bool-cases (not ignore_errors && main.received_error)) [
        | inl refused ↦ rw refused q
        | inr accepted ↦ rw accepted (record {
          flushed = record {
            account =
                omega
                  (arith, q.flushed.account, length-append main.order_queue (order ∷ []), small);
            small = omega (arith, small);
            clean = omega (
              arith,
              q.flushed.clean,
              pings-append main.order_queue (order ∷ []),
              one_order order no_ping,
            );
            quiet = q.flushed.quiet;
          };
          pool_eq = q.pool_eq;
          small = q.small;
          honest = q.honest;
          all_honest = q.all_honest;
        })
      ]

  broadcast_counts :
      (order : WorkerOrder) (k : ℕ) (ws : List (Workplace W))
      → is_ping order ≡ false
      → (total_busy (order_at order k ws) ≡ total_busy ws)
        × (total_held (order_at order k ws) ≡ total_held ws)
        × (total_outstanding (order_at order k ws) ≡ total_outstanding ws)
        × (length (order_at order k ws) ≡ length ws)
        × (All AreHonest ws → All AreHonest (order_at order k ws))
  unfolding order_at
  broadcast_counts order k [] no_ping = (refl, refl, refl, refl, λ h. tt)
  broadcast_counts order zero (w ∷ ws) no_ping = (
    refl,
    refl,
    omega (arith, pings-append w.orders (order ∷ []), one_order order no_ping),
    refl,
    λ h. h,
  )
  broadcast_counts order (suc k) (w ∷ ws) no_ping =
      let (b, h, o, l, fine) = broadcast_counts order k ws no_ping in
      (
        omega (arith, b),
        omega (arith, h),
        omega (arith, o),
        omega (arith, l),
        λ all. (all.0, fine all.1),
      )

  broadcast-IsQuiet :
      (main : WorkMain) (ws : List (Workplace W)) (order : WorkerOrder) (k : ℕ)
      → is_ping order ≡ false
      → IsQuiet main ws
      → IsQuiet main (order_at order k ws)
  broadcast-IsQuiet main ws order k no_ping q =
      let (b, h, o, l, fine) = broadcast_counts order k ws no_ping in
      record {
        flushed = record {
          account = omega (arith, q.flushed.account, b);
          small = q.flushed.small;
          clean = omega (arith, q.flushed.clean, h);
          quiet = omega (arith, q.flushed.quiet, o);
        };
        pool_eq = omega (arith, q.pool_eq, l);
        small = omega (arith, q.small, l);
        honest = q.honest;
        all_honest = fine q.all_honest;
      }

  Move-IsQuiet :
      (functions : Worker W) (main : WorkMain) {ws ws' : List (Workplace W)} {main' : WorkMain}
      → IsQuiet main ws
      → Move functions main ws main' ws'
      → IsQuiet main' ws'
  Move-IsQuiet functions main q m =
      let (pool, same) = Move-length functions main m in
      let (k, h) = Move-IsHonest functions main q.honest q.all_honest m in
      record {
        flushed = (Move-Flushed functions main 0 0 q.flushed m).0;
        pool_eq = omega (arith, pool, q.pool_eq, same);
        small = omega (arith, same, q.small);
        honest = k;
        all_honest = h;
      }

  module _ (functions : Worker W) (pool_size : ℕ) (colorize : Bool) (threshold : ℕ) (worker : W)
      (small : pool_size < 2 ^ 32) where
    -- Whatever has been done to a pool of fewer than 2^32 workers since `workInit` (orders sent and
    -- broadcast, other than pings and with fewer than 2^32 of them unsent; turns of the threads and
    -- child processes in any order; calls of `workJoin` that returned 0), no pings and pongs are on
    -- their way, the counter counts the orders that have not been sent, and no error code is 0.
    pub History-IsQuiet :
        {main : WorkMain} {ws : List (Workplace W)}
        → History functions pool_size colorize threshold worker main ws
        → IsQuiet main ws
    unfolding work_init
    History-IsQuiet (begun main ws e) =
        subst (λ (p : WorkMain × List (Workplace W)). IsQuiet p.0 p.1) e
          (init-IsQuiet colorize threshold worker pool_size small)
    History-IsQuiet (sent main ws order ignore_errors r no_ping few) =
        send-IsQuiet main ws order ignore_errors no_ping few (History-IsQuiet r)
    History-IsQuiet (broadcast main ws order k r no_ping) =
        broadcast-IsQuiet main ws order k no_ping (History-IsQuiet r)
    History-IsQuiet (moved main ws main' ws' r m) =
        Move-IsQuiet functions main (History-IsQuiet r) m
    History-IsQuiet (joined main ws reset_error at main' ws' main'' ws'' r runs e) =
        (join_finishes functions reset_error main ws at main' ws' main'' ws'' (History-IsQuiet r)
          runs e).1
