-- ===== src/Work/Pool/Progress.antt =====
-- While `workJoin` (src/netmirage-core/work.c) waits for pongs.
use netmirage.Prelude.{
  ℕ, ◌+◌, ◌<◌, ◌≡◌, ◌≢◌, refl, ap, Bool, List, [], ◌∷◌, length, arith, some, ◌⊎◌, inl, inr,
}
use netmirage.Work.{WorkerOrder, WorkerResponse}
use netmirage.Work.Child.{Worker}
use netmirage.Work.Master.{WorkMain}
use netmirage.Work.Pool.{
  Sender, at_queue, sent, leaving, stopped, holding, send_at, child_at, response_at, by_sender,
  by_child, by_response, Workplace, Move, here, there, flushing, waiting, Runs,
}
use netmirage.Work.Pool.Turns.{busy}
use netmirage.Work.Pool.Phases.{total_busy}
use netmirage.Work.Pool.States.{IsQuiet}
use netmirage.Work.Pool.Join.{Runs-State}

-- Fewer orders, or as many and fewer responses.
abbrev pub LeavesLess : ℕ → ℕ → ℕ → ℕ → Type 0
LeavesLess orders' responses' orders responses =
    (orders' < orders) ⊎ ((orders' ≡ orders) × (responses' < responses))

module _ {W : Type 0} where
  abbrev pub total_orders : List (Workplace W) → ℕ
  total_orders [] = 0
  total_orders (w ∷ ws) = length w.orders + total_orders ws

  abbrev pub total_responses : List (Workplace W) → ℕ
  total_responses [] = 0
  total_responses (w ∷ ws) = length w.child.responses + total_responses ws

  send_idle :
      (s : Sender) (q : List WorkerOrder) (main : WorkMain) (w : Workplace W) (main' : WorkMain)
      (w' : Workplace W)
      → q ≡ []
      → busy s ≡ 0
      → send_at s q main w ≢ some (main', w')
  unfolding send_at
  send_idle at_queue [] main w main' w' queue idle e = cc
  send_idle at_queue (o ∷ os) main w main' w' queue idle e = cc
  send_idle (holding o) q main w main' w' queue idle e = absurd (omega (arith, idle))
  send_idle sent q main w main' w' queue idle e = absurd (omega (arith, idle))
  send_idle leaving q main w main' w' queue idle e = absurd (omega (arith, idle))
  send_idle stopped q main w main' w' queue idle e = cc

  child-work :
      (functions : Worker W) (q : List WorkerOrder) (main : WorkMain) (w : Workplace W)
      (main' : WorkMain) (w' : Workplace W)
      → w.orders ≡ q
      → child_at functions q main w ≡ some (main', w')
      → length w'.orders < length w.orders
  unfolding child_at
  child-work functions [] main w main' w' orders e = ground arith
  child-work functions (o ∷ os) main w main' w' orders e = ground (arith, ap length orders)

  response-work :
      (q : List WorkerResponse) (main : WorkMain) (w : Workplace W) (main' : WorkMain)
      (w' : Workplace W)
      → w.child.responses ≡ q
      → response_at q main w ≡ some (main', w')
      → (length w'.orders ≡ length w.orders)
        × (length w'.child.responses < length w.child.responses)
  unfolding response_at
  response-work [] main w main' w' responses e = ground arith
  response-work (x ∷ xs) main w main' w' responses e = ground (arith, ap length responses)

  Move-work :
      (functions : Worker W) (main : WorkMain) {ws ws' : List (Workplace W)} {main' : WorkMain}
      → main.order_queue ≡ []
      → total_busy ws ≡ 0
      → Move functions main ws main' ws'
      → LeavesLess (total_orders ws') (total_responses ws') (total_orders ws) (total_responses ws)
  Move-work functions main queue idle (here w ws main' w' (by_sender e)) =
      absurd (send_idle w.sender main.order_queue main w main' w' queue (omega (arith, idle)) e)
  Move-work functions main queue idle (here w ws main' w' (by_child e)) =
      inl (omega (arith, child-work functions w.orders main w main' w' refl e))
  Move-work functions main queue idle (here w ws main' w' (by_response e)) =
      let (same, less) = response-work w.child.responses main w main' w' refl e in
      inr (omega (arith, same), omega (arith, less))
  Move-work functions main queue idle (there w ws main' ws' m) =
      elim (Move-work functions main queue (omega (arith, idle)) m) [
        | inl less ↦ inl (omega (arith, less))
        | inr (same, less) ↦ inr (omega (arith, same), omega (arith, less))
      ]

  -- A turn that can be taken.
  abbrev pub Next : Worker W → WorkMain → List (Workplace W) → Type 0
  Next functions main ws =
      (main' : WorkMain) × (ws' : List (Workplace W)) × Move functions main ws main' ws'

  -- From a pool without pings or pongs on their way, whose counter counts the orders that have not been
  -- sent and whose errors are not 0, for at most 2^32 - 1 workers, whenever `workJoin` has come to its
  -- loop: each turn of a thread leaves fewer orders in the pipes, or as many and fewer responses.
  pub turn_lessens :
      (functions : Worker W) (reset_error : Bool) (main : WorkMain) (ws : List (Workplace W))
      (main' : WorkMain) (ws' : List (Workplace W)) (main'' : WorkMain) (ws'' : List (Workplace W))
      → IsQuiet main ws
      → Runs functions reset_error flushing main ws waiting main' ws'
      → Move functions main' ws' main'' ws''
      → LeavesLess
          (total_orders ws'')
          (total_responses ws'')
          (total_orders ws')
          (total_responses ws')
  turn_lessens functions reset_error main ws main' ws' main'' ws'' q r m =
      let s = Runs-State functions reset_error main ws q r in
      Move-work functions main' s.phase.no_orders s.phase.not_busy m
