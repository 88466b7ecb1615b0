-- ===== src/Work/Pool/Join.antt =====
-- When `workJoin` (src/netmirage-core/work.c) returns, in a pool of running threads.
use netmirage.Prelude.{ℕ, ◌≡◌, refl, ap, sym, subst, ◌∙◌, Bool, List, [], ◌∷◌, length, arith, some}
use netmirage.Work.{WorkerOrder}
use netmirage.Work.Child.{Worker}
use netmirage.Work.Child.Writes.{pings}
use netmirage.Work.Master.{WorkMain}
use netmirage.Work.Pool.{
  Sender, at_queue, sent, leaving, stopped, holding, Workplace, Joining, flushing, announcing,
  flushing_again, waiting, asking, returned, queued_error, join_step, Runs, start, turn, join,
}
use netmirage.Work.Pool.Turns.{busy, held}
use netmirage.Work.Pool.Phases.{total_busy, total_held}
use netmirage.Work.Pool.Owing.{Owing-Finished, Asked}
use netmirage.Work.Pool.States.{IsQuiet, Done, State, Move-State, join-State}

no_pings : (orders : List WorkerOrder) → orders ≡ [] → pings orders ≡ 0
no_pings orders e = ap pings e

idle_held : (s : Sender) → busy s ≡ 0 → held s ≡ 0
idle_held at_queue idle = refl
idle_held (holding o) idle = absurd (omega (arith, idle))
idle_held sent idle = refl
idle_held leaving idle = refl
idle_held stopped idle = refl

module _ {W : Type 0} where
  pub Runs-State :
      (functions : Worker W) (reset_error : Bool) (main : WorkMain) (ws : List (Workplace W))
      {to : Joining} {main' : WorkMain} {ws' : List (Workplace W)}
      → IsQuiet main ws
      → Runs functions reset_error flushing main ws to main' ws'
      → State (length ws) to main' ws'
  Runs-State functions reset_error main ws q start = record {
    phase = q.flushed;
    pool_eq = q.pool_eq;
    len = refl;
    small = q.small;
    honest = q.honest;
    all_honest = q.all_honest;
  }
  Runs-State functions reset_error main ws q (turn r m) =
      Move-State functions (length ws) _ _ (Runs-State functions reset_error main ws q r) m
  Runs-State functions reset_error main ws q (join r e) =
      join-State (length ws) reset_error _ _ _ _ _ _ (Runs-State functions reset_error main ws q r)
        e

  -- Only the loop that waits for pongs returns, and it returns 0 only if it has them all.
  returns_zero :
      (n : ℕ) (reset_error : Bool) (at : Joining) (main : WorkMain) (ws : List (Workplace W))
      (main' : WorkMain) (ws' : List (Workplace W))
      → State n at main ws
      → join_step reset_error at main ws ≡ some (returned 0, main', ws')
      → (at ≡ waiting) × (main.pongs_expected ≡ 0) × (main ≡ main') × (ws ≡ ws')
  unfolding join_step queued_error
  returns_zero n reset_error flushing main ws main' ws' s e = ground arith
  returns_zero n reset_error announcing main ws main' ws' s e = ground arith
  returns_zero n reset_error flushing_again main ws main' ws' s e = ground arith
  returns_zero n reset_error (asking k) main ws main' ws' s e = ground arith
  returns_zero n reset_error (returned code) main ws main' ws' s e = ground arith
  returns_zero n reset_error waiting main ws main' ws' s e = ground arith

  none_held : (ws : List (Workplace W)) → total_busy ws ≡ 0 → total_held ws ≡ 0
  none_held [] idle = refl
  none_held (w ∷ ws) idle =
      omega (arith, idle_held w.sender (omega (arith, idle)), none_held ws (omega (arith, idle)))

  finished_of :
      (n : ℕ) (main : WorkMain) (ws : List (Workplace W))
      → State n waiting main ws
      → main.pongs_expected ≡ 0
      → Done main ws × IsQuiet main ws
  finished_of n main ws s none_expected = (
    record {
      no_orders = s.phase.no_orders;
      finished =
          Owing-Finished ws (subst (λ (k : ℕ). Asked k ws) (sym s.len) s.phase.asked)
            s.phase.not_busy (omega (arith, s.phase.owed, none_expected));
    },
    record {
      flushed = record {
        account = omega (arith, s.phase.all_sent, s.phase.not_busy, ap length s.phase.no_orders);
        small = omega (arith, s.phase.all_sent);
        clean =
            omega
              (arith, no_pings main.order_queue s.phase.no_orders, none_held ws s.phase.not_busy);
        quiet = omega (arith, s.phase.owed, none_expected);
      };
      pool_eq = s.pool_eq ∙ sym s.len;
      small = omega (arith, s.len, s.small);
      honest = s.honest;
      all_honest = s.all_honest;
    },
  )

  -- From a pool without pings or pongs on their way, whose counter counts the orders that have not been
  -- sent and whose errors are not 0, for at most 2^32 - 1 workers: however the turns of the main thread,
  -- the send threads, the response threads and the child processes follow one another, when `workJoin`
  -- returns 0, no order is left at the queue, with a send thread or in a pipe, and the pool is such a
  -- pool again.
  pub join_finishes :
      (functions : Worker W) (reset_error : Bool) (main : WorkMain) (ws : List (Workplace W))
      (at : Joining) (main' : WorkMain) (ws' : List (Workplace W)) (main'' : WorkMain)
      (ws'' : List (Workplace W))
      → IsQuiet main ws
      → Runs functions reset_error flushing main ws at main' ws'
      → join_step reset_error at main' ws' ≡ some (returned 0, main'', ws'')
      → Done main'' ws'' × IsQuiet main'' ws''
  join_finishes functions reset_error main ws at main' ws' main'' ws'' q r e =
      let s = Runs-State functions reset_error main ws q r in
      let (at_loop, none_expected, same, same') =
        returns_zero (length ws) reset_error at main' ws' main'' ws'' s e in
      let s' = subst (λ (j : Joining). State (length ws) j main' ws') at_loop s in
      subst (λ (m : WorkMain). Done m ws'' × IsQuiet m ws'') same
        (subst (λ (v : List (Workplace W)). Done main' v × IsQuiet main' v) same'
          (finished_of (length ws) main' ws' s' none_expected))
