-- ===== src/Work/Pool/Phases.antt =====
-- The whole pool before the pings, and what all turns keep.
use netmirage.Prelude.{
  ℕ, suc, ◌+◌, ◌^◌, ◌<◌, ◌≡◌, refl, ap, List, [], ◌∷◌, length, arith, All, some,
}
use netmirage.Work.{WorkerOrder, WorkerResponse}
use netmirage.Work.Child.{Worker}
use netmirage.Work.Child.Writes.{pings}
use netmirage.Work.Master.{WorkMain, receive}
use netmirage.Work.Pool.{
  Sender, at_queue, sent, leaving, stopped, holding, count_sent, send_at, child_at, response_at,
  by_sender, by_child, by_response, Workplace, Turn, Move, here, there,
}
use netmirage.Work.Pool.Turns.{busy, held, outstanding, Fewer, Turn-Flushing}
use netmirage.Work.Pool.Errors.{IsHonest, AreHonest, Turn-IsHonest}

module _ {W : Type 0} where
  abbrev pub total_busy : List (Workplace W) → ℕ
  total_busy [] = 0
  total_busy (w ∷ ws) = busy w.sender + total_busy ws

  abbrev pub total_held : List (Workplace W) → ℕ
  total_held [] = 0
  total_held (w ∷ ws) = held w.sender + total_held ws

  abbrev pub total_outstanding : List (Workplace W) → ℕ
  total_outstanding [] = 0
  total_outstanding (w ∷ ws) = outstanding w + total_outstanding ws

  -- `b` and `h` stand for workplaces in front.
  pub record Flushed (main : WorkMain) (ws : List (Workplace W)) (b h : ℕ) : Type 0 where
    pub account : main.unsent_orders ≡ length main.order_queue + (total_busy ws + b)
    pub small : main.unsent_orders < 2 ^ 32
    pub clean : pings main.order_queue + (total_held ws + h) ≡ 0
    pub quiet : total_outstanding ws ≡ 0

  pub Move-Flushed :
      (functions : Worker W) (main : WorkMain) (b h : ℕ) {ws ws' : List (Workplace W)}
      {main' : WorkMain}
      → Flushed main ws b h
      → Move functions main ws main' ws'
      → Flushed main' ws' b h × Fewer main main' × (length ws' ≡ length ws)
  Move-Flushed functions main b h f (here w ws main' w' t) =
      let (f', fewer) =
        Turn-Flushing functions main w (total_busy ws + b) (total_held ws + h) main' w'
          (record {
            account = omega (arith, f.account);
            small = f.small;
            clean = omega (arith, f.clean);
            quiet = omega (arith, f.quiet);
          })
          t in
      (
        record {
          account = omega (arith, f'.account);
          small = f'.small;
          clean = omega (arith, f'.clean);
          quiet = omega (arith, f'.quiet, f.quiet);
        },
        fewer,
        refl,
      )
  Move-Flushed functions main b h f (there w ws main' ws' m) =
      let (f', fewer, same) =
        Move-Flushed functions main (busy w.sender + b) (held w.sender + h)
          (record {
            account = omega (arith, f.account);
            small = f.small;
            clean = omega (arith, f.clean);
            quiet = omega (arith, f.quiet);
          })
          m in
      (
        record {
          account = omega (arith, f'.account);
          small = f'.small;
          clean = omega (arith, f'.clean);
          quiet = omega (arith, f'.quiet, f.quiet);
        },
        fewer,
        ap suc same,
      )

  pub Move-IsHonest :
      (functions : Worker W) (main : WorkMain) {ws ws' : List (Workplace W)} {main' : WorkMain}
      → IsHonest main
      → All AreHonest ws
      → Move functions main ws main' ws'
      → IsHonest main' × All AreHonest ws'
  Move-IsHonest functions main k h (here w ws main' w' t) =
      let (k', h') = Turn-IsHonest functions main w main' w' k h.0 t in (k', (h', h.1))
  Move-IsHonest functions main k h (there w ws main' ws' m) =
      let (k', h') = Move-IsHonest functions main k h.1 m in (k', (h.0, h'))

  send-pool :
      (s : Sender) (q : List WorkerOrder) (main : WorkMain) (w : Workplace W) (main' : WorkMain)
      (w' : Workplace W)
      → send_at s q main w ≡ some (main', w')
      → main'.pool_size ≡ main.pool_size
  unfolding send_at count_sent
  send-pool at_queue [] main w main' w' e = ground arith
  send-pool at_queue (o ∷ os) main w main' w' e = ground arith
  send-pool (holding o) q main w main' w' e = ground arith
  send-pool sent q main w main' w' e = ground arith
  send-pool leaving q main w main' w' e = ground arith
  send-pool stopped q main w main' w' e = ground arith

  child-pool :
      (functions : Worker W) (q : List WorkerOrder) (main : WorkMain) (w : Workplace W)
      (main' : WorkMain) (w' : Workplace W)
      → child_at functions q main w ≡ some (main', w')
      → main'.pool_size ≡ main.pool_size
  unfolding child_at
  child-pool functions [] main w main' w' e = ground arith
  child-pool functions (o ∷ os) main w main' w' e = ground arith

  response-pool :
      (q : List WorkerResponse) (main : WorkMain) (w : Workplace W) (main' : WorkMain)
      (w' : Workplace W)
      → response_at q main w ≡ some (main', w')
      → main'.pool_size ≡ main.pool_size
  unfolding response_at receive
  response-pool [] main w main' w' e = ground arith
  response-pool (x ∷ xs) main w main' w' e = ground arith

  Turn-pool :
      (functions : Worker W) (main : WorkMain) (w : Workplace W) (main' : WorkMain)
      (w' : Workplace W)
      → Turn functions main w main' w'
      → main'.pool_size ≡ main.pool_size
  Turn-pool functions main w main' w' (by_sender e) =
      send-pool w.sender main.order_queue main w main' w' e
  Turn-pool functions main w main' w' (by_child e) = child-pool functions w.orders main w main' w' e
  Turn-pool functions main w main' w' (by_response e) =
      response-pool w.child.responses main w main' w' e

  pub Move-length :
      (functions : Worker W) (main : WorkMain) {ws ws' : List (Workplace W)} {main' : WorkMain}
      → Move functions main ws main' ws'
      → (main'.pool_size ≡ main.pool_size) × (length ws' ≡ length ws)
  Move-length functions main (here w ws main' w' t) = (Turn-pool functions main w main' w' t, refl)
  Move-length functions main (there w ws main' ws' m) =
      let (pool, same) = Move-length functions main m in (pool, ap suc same)
