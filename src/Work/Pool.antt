-- ===== src/Work/Pool.antt =====
-- The pool of workers (src/netmirage-core/work.c): the threads of the main process with the child
-- processes, one turn of one of them after the other. The pipes of a workplace are lists of orders
-- and responses, and are taken to be whole: a write to one does not fail.
pub mod Turns
pub mod Errors
pub mod Phases
pub mod Owing
pub mod States
pub mod Join
pub mod Progress
pub mod History
pub mod Carried
mod Tests
use netmirage.Prelude.{
  ◌≡◌, ltb, not, true, false, zero, suc, ℕ, ◌+◌, ◌-◌, ◌%◌, ◌^◌, ◌==◌, Bool, if◌then◌else◌, List, [],
  ◌∷◌, ◌++◌, Option, none, some,
}
use netmirage.Work.{worker_ping, WorkerOrder, WorkerResponse, order_code}
use netmirage.Work.Child.{Worker, Child, obey}
use netmirage.Work.Master.{WorkMain, receive}

-- Where a send thread is: at the queue; with an order in hand; behind the write, or with the order to
-- terminate, before it counts; or at its end.
pub data Sender : Type 0 where
  at_queue sent leaving stopped : Sender
  holding : WorkerOrder → Sender

-- `orders` is the pipe to the child process, and the child's `responses` the pipe from it.
pub record Workplace (W : Type 0) : Type 0 where
  pub sender : Sender
  pub orders : List WorkerOrder
  pub child : Child W

unfoldable pub count_sent : WorkMain → WorkMain
count_sent main = record main { unsent_orders = (main.unsent_orders + 2 ^ 32 - 1) % 2 ^ 32 }

-- Where `workJoin` is: at `waitForSending`; behind it; at `waitForSending` again, for the broadcast;
-- about to write the ping to the workplace of a number; in the loop that waits for pongs; at its end.
pub data Joining : Type 0 where
  flushing announcing flushing_again waiting : Joining
  asking : ℕ → Joining
  returned : ℕ → Joining

-- The error that the queue holds, or 0.
unfoldable pub queued_error : WorkMain → ℕ
queued_error main = if main.received_error then main.error_code else 0

unfoldable pub announce : WorkMain → Bool → WorkMain
announce main reset_error = record main {
  pongs_expected = main.pool_size;
  received_error = if reset_error then false else main.received_error;
}

module _ {W : Type 0} where
  -- `sendThread` at a point, with what the queue holds; `none` where it waits.
  unfoldable pub send_at :
      Sender → List WorkerOrder → WorkMain → Workplace W → Option (WorkMain × Workplace W)
  send_at at_queue [] main w = none
  send_at at_queue (order ∷ orders) main w =
      some (record main { order_queue = orders }, record w { sender = holding order })
  send_at (holding order) queue main w = some (
    main,
    if order_code order == 1
        then record w { sender = leaving }
        else record w { sender = sent; orders = w.orders ++ (order ∷ []) },
  )
  send_at sent queue main w = some (count_sent main, record w { sender = at_queue })
  send_at leaving queue main w = some (count_sent main, record w { sender = stopped })
  send_at stopped queue main w = none

  abbrev pub send_turn : WorkMain → Workplace W → Option (WorkMain × Workplace W)
  send_turn main w = send_at w.sender main.order_queue main w

  -- `childProcess`, with the orders in its pipe.
  unfoldable pub child_at :
      Worker W → List WorkerOrder → WorkMain → Workplace W → Option (WorkMain × Workplace W)
  child_at functions [] main w = none
  child_at functions (order ∷ orders) main w =
      some (main, record w { orders = orders; child = obey functions w.child order })

  abbrev pub child_turn : Worker W → WorkMain → Workplace W → Option (WorkMain × Workplace W)
  child_turn functions main w = child_at functions w.orders main w

  -- `responseThread`, with the responses in its pipe.
  unfoldable pub response_at :
      List WorkerResponse → WorkMain → Workplace W → Option (WorkMain × Workplace W)
  response_at [] main w = none
  response_at (response ∷ responses) main w =
      some (receive main response, record w { child = record w.child { responses = responses } })

  abbrev pub response_turn : WorkMain → Workplace W → Option (WorkMain × Workplace W)
  response_turn main w = response_at w.child.responses main w

  -- A turn of one of the three, at one workplace.
  pub data Turn (functions : Worker W) (main : WorkMain) (w : Workplace W) (main' : WorkMain)
      (w' : Workplace W) : Type 0 where
    by_sender : send_turn main w ≡ some (main', w') → Turn functions main w main' w'
    by_child : child_turn functions main w ≡ some (main', w') → Turn functions main w main' w'
    by_response : response_turn main w ≡ some (main', w') → Turn functions main w main' w'

  -- A turn at one workplace of the pool.
  pub data Move (functions : Worker W) (main : WorkMain)
      : List (Workplace W) → WorkMain → List (Workplace W) → Type 0 where
    here :
        (w : Workplace W) (ws : List (Workplace W)) (main' : WorkMain) (w' : Workplace W)
        → Turn functions main w main' w'
        → Move functions main (w ∷ ws) main' (w' ∷ ws)
    there :
        (w : Workplace W) (ws : List (Workplace W)) (main' : WorkMain) (ws' : List (Workplace W))
        → Move functions main ws main' ws'
        → Move functions main (w ∷ ws) main' (w ∷ ws')

  -- `writeOrderToWorkplace` to the workplace of a number, which `broadcastOrder` does for each.
  unfoldable pub order_at : WorkerOrder → ℕ → List (Workplace W) → List (Workplace W)
  order_at order k [] = []
  order_at order zero (w ∷ ws) = record w { orders = w.orders ++ (order ∷ []) } ∷ ws
  order_at order (suc k) (w ∷ ws) = w ∷ order_at order k ws

  -- One step of `workJoin`; `none` where it waits. In the loop, a wait may end at any time.
  unfoldable pub join_step :
      Bool
      → Joining
      → WorkMain
      → List (Workplace W)
      → Option (Joining × WorkMain × List (Workplace W))
  join_step reset_error flushing main ws =
      if main.unsent_orders == 0 then some (announcing, main, ws) else none
  join_step reset_error announcing main ws = some (flushing_again, announce main reset_error, ws)
  join_step reset_error flushing_again main ws =
      if main.unsent_orders == 0 then some (asking 0, main, ws) else none
  join_step reset_error (asking k) main ws =
      if ltb k main.pool_size
      then some (asking (suc k), main, order_at worker_ping k ws)
      else some (waiting, main, ws)
  join_step reset_error waiting main ws =
      if main.pongs_expected == 0
      then some (returned (queued_error main), main, ws)
      else if not main.received_error
      then none
      else if reset_error
      then some (waiting, record main { received_error = false }, ws)
      else some (returned (queued_error main), main, ws)
  join_step reset_error (returned code) main ws = none

  -- The pool while the main thread is in `workJoin`: either it or one of the other threads goes on.
  pub data Runs (functions : Worker W) (reset_error : Bool) (from : Joining) (main : WorkMain)
      (ws : List (Workplace W)) : Joining → WorkMain → List (Workplace W) → Type 0 where
    start : Runs functions reset_error from main ws from main ws
    turn :
        {to : Joining} {main' main'' : WorkMain} {ws' ws'' : List (Workplace W)}
        → Runs functions reset_error from main ws to main' ws'
        → Move functions main' ws' main'' ws''
        → Runs functions reset_error from main ws to main'' ws''
    join :
        {to next : Joining} {main' main'' : WorkMain} {ws' ws'' : List (Workplace W)}
        → Runs functions reset_error from main ws to main' ws'
        → join_step reset_error to main' ws' ≡ some (next, main'', ws'')
        → Runs functions reset_error from main ws next main'' ws''
