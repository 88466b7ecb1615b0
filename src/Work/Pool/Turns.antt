-- ===== src/Work/Pool/Turns.antt =====
-- What a turn of a thread does to the work that is left at a workplace.
use netmirage.Prelude.{
  ℕ, ◌+◌, ◌^◌, ◌≤◌, ◌<◌, ◌≡◌, ◌≢◌, subst, refl, ap, ◌∙◌, List, [], ◌∷◌, ◌++◌, length, arith, some,
}
use netmirage.Work.{WorkerOrder, WorkerResponse, worker_ping}
use netmirage.Work.Child.{Worker}
use netmirage.Work.Child.Writes.{pings, pongs, obey-Writes, pongs-append}
use netmirage.Work.Master.{WorkMain, receive}
use netmirage.Work.Pool.{
  Sender, at_queue, sent, leaving, stopped, holding, Workplace, count_sent, send_at, child_at,
  response_at, Turn, by_sender, by_child, by_response,
}

-- 1 for a send thread that has an order which it has not counted as sent.
abbrev pub busy : Sender → ℕ
busy at_queue = 0
busy (holding order) = 1
busy sent = 1
busy leaving = 1
busy stopped = 0

abbrev pub held : Sender → ℕ
held (holding order) = pings (order ∷ [])
held _ = 0

pub pings-append : (xs ys : List WorkerOrder) → pings (xs ++ ys) ≡ pings xs + pings ys
pings-append [] ys = omega arith
pings-append (x ∷ xs) ys = omega (arith, pings-append xs ys)

-- What stays the same of the counters.
pub record Fewer (main main' : WorkMain) : Type 0 where
  pub fewer : main'.unsent_orders ≤ main.unsent_orders
  pub pool_eq : main'.pool_size ≡ main.pool_size

-- The last order in the pipe, if there is one, is a ping.
pub data Ends (orders : List WorkerOrder) : Type 0 where
  none_left : orders ≡ [] → Ends orders
  ping_last : (os : List WorkerOrder) → orders ≡ os ++ (worker_ping ∷ []) → Ends orders

tail-Ends : (o : WorkerOrder) (os : List WorkerOrder) → Ends (o ∷ os) → Ends os
tail-Ends o os (none_left empty) = cc
tail-Ends o os (ping_last [] last) = none_left (cc)
tail-Ends o os (ping_last (x ∷ xs) last) = ping_last xs (cc)

module _ {W : Type 0} where
  -- The pings and pongs in the pipes of a workplace.
  abbrev pub outstanding : Workplace W → ℕ
  outstanding w = pings w.orders + pongs w.child.responses

  -- Before the pings: `b` and `h` stand for the other workplaces.
  pub record Flushing (main : WorkMain) (w : Workplace W) (b h : ℕ) : Type 0 where
    pub account : main.unsent_orders ≡ length main.order_queue + (busy w.sender + b)
    pub small : main.unsent_orders < 2 ^ 32
    pub clean : pings main.order_queue + (held w.sender + h) ≡ 0
    pub quiet : outstanding w ≡ 0

  send-Flushing :
      (s : Sender) (q : List WorkerOrder) (main : WorkMain) (w : Workplace W) (b h : ℕ)
      (main' : WorkMain) (w' : Workplace W)
      → w.sender ≡ s
      → main.order_queue ≡ q
      → Flushing main w b h
      → send_at s q main w ≡ some (main', w')
      → Flushing main' w' b h × Fewer main main'
  unfolding send_at count_sent
  send-Flushing at_queue [] main w b h main' w' at queue f e = ground arith
  send-Flushing at_queue (o ∷ os) main w b h main' w' at queue f e = ground arith
  send-Flushing (holding o) q main w b h main' w' at queue f e =
      ground (arith, pings-append w.orders (o ∷ []))
  send-Flushing sent q main w b h main' w' at queue f e = ground arith
  send-Flushing leaving q main w b h main' w' at queue f e = ground arith
  send-Flushing stopped q main w b h main' w' at queue f e = ground arith

  child-Flushing :
      (functions : Worker W) (q : List WorkerOrder) (main : WorkMain) (w : Workplace W) (b h : ℕ)
      (main' : WorkMain) (w' : Workplace W)
      → w.orders ≡ q
      → Flushing main w b h
      → child_at functions q main w ≡ some (main', w')
      → Flushing main' w' b h × Fewer main main'
  unfolding child_at
  child-Flushing functions [] main w b h main' w' orders f e = ground arith
  child-Flushing functions (o ∷ os) main w b h main' w' orders f e =
      let writes = obey-Writes functions w.child o in
      let p = ap pongs writes.responses_eq ∙ pongs-append w.child.responses writes.added in
      ground (arith, p, writes.counted, ap pings orders)

  response-Flushing :
      (q : List WorkerResponse) (main : WorkMain) (w : Workplace W) (b h : ℕ) (main' : WorkMain)
      (w' : Workplace W)
      → w.child.responses ≡ q
      → Flushing main w b h
      → response_at q main w ≡ some (main', w')
      → Flushing main' w' b h × Fewer main main'
  unfolding response_at receive
  response-Flushing [] main w b h main' w' responses f e = ground arith
  response-Flushing (r ∷ rs) main w b h main' w' responses f e = ground (arith, ap pongs responses)

  -- Whatever thread has its turn before the pings, the orders on their way stay counted, and no ping
  -- or pong appears.
  pub Turn-Flushing :
      (functions : Worker W) (main : WorkMain) (w : Workplace W) (b h : ℕ) (main' : WorkMain)
      (w' : Workplace W)
      → Flushing main w b h
      → Turn functions main w main' w'
      → Flushing main' w' b h × Fewer main main'
  Turn-Flushing functions main w b h main' w' f (by_sender e) =
      send-Flushing w.sender main.order_queue main w b h main' w' refl refl f e
  Turn-Flushing functions main w b h main' w' f (by_child e) =
      child-Flushing functions w.orders main w b h main' w' refl f e
  Turn-Flushing functions main w b h main' w' f (by_response e) =
      response-Flushing w.child.responses main w b h main' w' refl f e

  -- Once all orders have been sent: `r` is the number of pongs that other workplaces owe.
  pub record Asking (main : WorkMain) (w : Workplace W) (r : ℕ) : Type 0 where
    pub no_orders : main.order_queue ≡ []
    pub all_sent : main.unsent_orders ≡ 0
    pub not_busy : busy w.sender ≡ 0
    pub owed : main.pongs_expected ≡ outstanding w + r
    pub small : main.pongs_expected < 2 ^ 32

  record Less (main : WorkMain) (w : Workplace W) (main' : WorkMain) (w' : Workplace W)
      : Type 0 where
    less : outstanding w' ≤ outstanding w
    pool_eq : main'.pool_size ≡ main.pool_size

  -- What a turn keeps of a workplace.
  pub record Keeps (main : WorkMain) (w : Workplace W) (main' : WorkMain) (w' : Workplace W)
      : Type 0 where
    pub less : outstanding w' ≤ outstanding w
    pub ends : Ends w.orders → Ends w'.orders
    pub pool_eq : main'.pool_size ≡ main.pool_size

  send-Asking :
      (s : Sender) (q : List WorkerOrder) (main : WorkMain) (w : Workplace W) (r : ℕ)
      (main' : WorkMain) (w' : Workplace W)
      → w.sender ≡ s
      → main.order_queue ≡ q
      → Asking main w r
      → send_at s q main w ≢ some (main', w')
  unfolding send_at
  send-Asking at_queue [] main w r main' w' at queue a e = ground arith
  send-Asking at_queue (o ∷ os) main w r main' w' at queue a e = ground arith
  send-Asking (holding o) q main w r main' w' at queue a e = ground arith
  send-Asking sent q main w r main' w' at queue a e = ground arith
  send-Asking leaving q main w r main' w' at queue a e = ground arith
  send-Asking stopped q main w r main' w' at queue a e = ground arith

  child-Asking :
      (functions : Worker W) (q : List WorkerOrder) (main : WorkMain) (w : Workplace W) (r : ℕ)
      (main' : WorkMain) (w' : Workplace W)
      → w.orders ≡ q
      → Asking main w r
      → child_at functions q main w ≡ some (main', w')
      → Asking main' w' r × Less main w main' w'
  unfolding child_at
  child-Asking functions [] main w r main' w' orders a e = ground arith
  child-Asking functions (o ∷ os) main w r main' w' orders a e =
      let writes = obey-Writes functions w.child o in
      let p = ap pongs writes.responses_eq ∙ pongs-append w.child.responses writes.added in
      ground (arith, p, writes.counted, ap pings orders)

  response-Asking :
      (q : List WorkerResponse) (main : WorkMain) (w : Workplace W) (r : ℕ) (main' : WorkMain)
      (w' : Workplace W)
      → w.child.responses ≡ q
      → Asking main w r
      → response_at q main w ≡ some (main', w')
      → Asking main' w' r × Less main w main' w'
  unfolding response_at receive
  response-Asking [] main w r main' w' responses a e = ground arith
  response-Asking (x ∷ xs) main w r main' w' responses a e = ground (arith, ap pongs responses)

  child-Ends :
      (functions : Worker W) (q : List WorkerOrder) (main : WorkMain) (w : Workplace W)
      (main' : WorkMain) (w' : Workplace W)
      → w.orders ≡ q
      → child_at functions q main w ≡ some (main', w')
      → Ends w.orders
      → Ends w'.orders
  unfolding child_at
  child-Ends functions [] main w main' w' orders e ends = ground arith
  child-Ends functions (o ∷ os) main w main' w' orders e ends =
      let left : os ≡ w'.orders = ground arith in
      subst Ends left (tail-Ends o os (subst Ends orders ends))

  response-Ends :
      (q : List WorkerResponse) (main : WorkMain) (w : Workplace W) (main' : WorkMain)
      (w' : Workplace W)
      → response_at q main w ≡ some (main', w')
      → Ends w.orders
      → Ends w'.orders
  unfolding response_at
  response-Ends [] main w main' w' e ends = ground arith
  response-Ends (x ∷ xs) main w main' w' e ends =
      let left : w.orders ≡ w'.orders = ground arith in subst Ends left ends

  -- Whatever thread has its turn once all orders have been sent, the pongs that are expected are
  -- those that are owed.
  pub Turn-Asking :
      (functions : Worker W) (main : WorkMain) (w : Workplace W) (r : ℕ) (main' : WorkMain)
      (w' : Workplace W)
      → Asking main w r
      → Turn functions main w main' w'
      → Asking main' w' r × Keeps main w main' w'
  Turn-Asking functions main w r main' w' a (by_sender e) =
      absurd (send-Asking w.sender main.order_queue main w r main' w' refl refl a e)
  Turn-Asking functions main w r main' w' a (by_child e) =
      let (a', l) = child-Asking functions w.orders main w r main' w' refl a e in
      (
        a',
        record {
          less = l.less;
          ends = child-Ends functions w.orders main w main' w' refl e;
          pool_eq = l.pool_eq;
        },
      )
  Turn-Asking functions main w r main' w' a (by_response e) =
      let (a', l) = response-Asking w.child.responses main w r main' w' refl a e in
      (
        a',
        record {
          less = l.less;
          ends = response-Ends w.child.responses main w main' w' e;
          pool_eq = l.pool_eq;
        },
      )
