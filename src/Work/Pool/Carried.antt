-- ===== src/Work/Pool/Carried.antt =====
-- Which orders the child processes of a pool (src/netmirage-core/work.c) have carried out.
pub mod Steps
pub mod Sent
use netmirage.Prelude.{
  ℕ, ◌+◌, ◌≡◌, refl, ap, sym, ◌∙◌, ◌==◌, Bool, true, false, if◌then◌else◌, List, [], ◌∷◌, ◌++◌,
  length, arith, some, Bool-cases, inl, inr,
}
use netmirage.Work.{
  WorkerOrder, WorkerResponse, order_code, worker_ping, worker_terminate, worker_destroy_hosts,
  worker_configure, worker_get_edge_remote_mac, worker_get_edge_local_mac, worker_get_interface_mtu,
  worker_add_edge_interface, worker_mtu_supported, worker_add_root, worker_add_host,
  worker_set_self_link, worker_ensure_system_scaling, worker_add_link, worker_add_internal_routes,
  worker_add_client_routes, worker_add_edge_routes,
}
use netmirage.Work.Child.{Worker, Child, obey, child_process}
use netmirage.Work.Master.{WorkMain, receive}
use netmirage.Work.Pool.{
  Sender, at_queue, sent, leaving, stopped, holding, Workplace, count_sent, send_at, child_at,
  response_at, Turn, by_sender, by_child, by_response, Move, here, there,
}
use netmirage.Work.Pool.Turns.{busy}
use netmirage.Work.Pool.States.{none-some}
use netmirage.Work.Child.Silent.{silent, obey_same, after_one}

abbrev pub count : (WorkerOrder → Bool) → List WorkerOrder → ℕ
count p [] = 0
count p (o ∷ os) = (if p o then 1 else 0) + count p os

abbrev pub count_all : (WorkerOrder → Bool) → List (List WorkerOrder) → ℕ
count_all p [] = 0
count_all p (os ∷ oss) = count p os + count_all p oss

abbrev pub in_hand : Sender → List WorkerOrder
in_hand (holding order) = order ∷ []
in_hand _ = []

pub count-append :
    (p : WorkerOrder → Bool) (xs ys : List WorkerOrder)
    → count p (xs ++ ys) ≡ count p xs + count p ys
count-append p [] ys = omega arith
count-append p (x ∷ xs) ys = omega (arith, count-append p xs ys)

-- Only the order to terminate has its code.
terminate_only :
    (p : WorkerOrder → Bool) (order : WorkerOrder)
    → p worker_terminate ≡ false
    → (order_code order == 1) ≡ true
    → p order ≡ false
terminate_only p worker_terminate no_terminate e = no_terminate
terminate_only p worker_ping no_terminate e = cc
terminate_only p (worker_configure c) no_terminate e = cc
terminate_only p (worker_get_edge_remote_mac n ip) no_terminate e = cc
terminate_only p (worker_get_edge_local_mac n) no_terminate e = cc
terminate_only p (worker_get_interface_mtu n) no_terminate e = cc
terminate_only p (worker_mtu_supported m) no_terminate e = cc
terminate_only p (worker_add_root o) no_terminate e = cc
terminate_only p (worker_add_edge_interface n) no_terminate e = cc
terminate_only p (worker_add_host o) no_terminate e = cc
terminate_only p (worker_set_self_link id l) no_terminate e = cc
terminate_only p (worker_ensure_system_scaling o) no_terminate e = cc
terminate_only p (worker_add_link o) no_terminate e = cc
terminate_only p (worker_add_internal_routes o) no_terminate e = cc
terminate_only p (worker_add_client_routes o) no_terminate e = cc
terminate_only p (worker_add_edge_routes o) no_terminate e = cc
terminate_only p worker_destroy_hosts no_terminate e = cc

pub idle-in_hand : (s : Sender) → busy s ≡ 0 → in_hand s ≡ []
idle-in_hand at_queue idle = refl
idle-in_hand (holding order) idle = absurd (omega (arith, idle))
idle-in_hand sent idle = refl
idle-in_hand leaving idle = refl
idle-in_hand stopped idle = refl

module _ {W : Type 0} where
  -- The orders of a kind that are with a workplace, and have not been carried out.
  abbrev pub on_way : (WorkerOrder → Bool) → Workplace W → ℕ
  on_way p w = count p (in_hand w.sender) + count p w.orders

  abbrev pub total_on_way : (WorkerOrder → Bool) → List (Workplace W) → ℕ
  total_on_way p [] = 0
  total_on_way p (w ∷ ws) = on_way p w + total_on_way p ws

  send_conserves :
      (p : WorkerOrder → Bool) (s : Sender) (q : List WorkerOrder) (main : WorkMain)
      (w : Workplace W) (main' : WorkMain) (w' : Workplace W)
      → p worker_terminate ≡ false
      → w.sender ≡ s
      → main.order_queue ≡ q
      → send_at s q main w ≡ some (main', w')
      → (count p main.order_queue + on_way p w ≡ count p main'.order_queue + on_way p w')
        × (w.child ≡ w'.child)
  unfolding send_at count_sent
  send_conserves p at_queue [] main w main' w' no_terminate at queue e = ground arith
  send_conserves p at_queue (o ∷ os) main w main' w' no_terminate at queue e = ground arith
  send_conserves p (holding o) q main w main' w' no_terminate at queue e =
      elim (Bool-cases (order_code o == 1)) [
        | inl last ↦ ground (arith, terminate_only p o no_terminate last)
        | inr other ↦ ground (arith, count-append p w.orders (o ∷ []))
      ]
  send_conserves p sent q main w main' w' no_terminate at queue e = ground arith
  send_conserves p leaving q main w main' w' no_terminate at queue e = ground arith
  send_conserves p stopped q main w main' w' no_terminate at queue e = ground arith

  response_conserves :
      (q : List WorkerResponse) (main : WorkMain) (w : Workplace W) (main' : WorkMain)
      (w' : Workplace W)
      → response_at q main w ≡ some (main', w')
      → (main.order_queue ≡ main'.order_queue)
        × (w.sender ≡ w'.sender)
        × (w.orders ≡ w'.orders)
        × (silent w.child ≡ silent w'.child)
  unfolding response_at receive
  response_conserves [] main w main' w' e = ground arith
  response_conserves (r ∷ rs) main w main' w' e = ground arith

  module _ (functions : Worker W) (fresh : Child W) where
    -- The child of a workplace is as the orders leave a fresh child, but for what it has written.
    abbrev pub IsAfter : Workplace W → List WorkerOrder → Type 0
    IsAfter w orders = silent w.child ≡ silent (child_process functions fresh orders).0

    -- Each child is as the orders of one of the lists leave a fresh child.
    abbrev pub AreAfter : List (Workplace W) → List (List WorkerOrder) → Type 0
    AreAfter [] [] = Unit
    AreAfter [] (t ∷ ts) = ⊥
    AreAfter (w ∷ ws) [] = ⊥
    AreAfter (w ∷ ws) (t ∷ ts) = IsAfter w t × AreAfter ws ts

    -- A step from a queue and workplaces to others, in which no order is lost and none is made up.
    pub record Conserves (q : List WorkerOrder) (ws : List (Workplace W))
        (ts : List (List WorkerOrder)) (q' : List WorkerOrder) (ws' : List (Workplace W))
        : Type 0 where
      pub carried : List (List WorkerOrder)
      pub after : AreAfter ws' carried
      pub same :
          (p : WorkerOrder → Bool)
          → p worker_terminate ≡ false
          → count p q + (total_on_way p ws + count_all p ts)
            ≡ count p q' + (total_on_way p ws' + count_all p carried)

    child_carries :
        (q : List WorkerOrder) (main : WorkMain) (w : Workplace W) (main' : WorkMain)
        (w' : Workplace W) (orders : List WorkerOrder)
        → w.orders ≡ q
        → IsAfter w orders
        → child_at functions q main w ≡ some (main', w')
        → (o : WorkerOrder) × IsAfter w' (orders ++ (o ∷ []))
          × (main.order_queue ≡ main'.order_queue)
          × (w.sender ≡ w'.sender)
          × (w.orders ≡ o ∷ w'.orders)
    unfolding child_at
    child_carries [] main w main' w' orders pipe h e = absurd (none-some (main', w') e)
    child_carries (o ∷ os) main w main' w' orders pipe h e =
        let same_child : w'.child ≡ obey functions w.child o = ground arith in
        (
          o,
          ap silent same_child
              ∙ obey_same functions w.child (child_process functions fresh orders).0 o h
              ∙ sym (after_one functions fresh orders o),
          ground arith,
          ground arith,
          ground arith,
        )

    Turn-Conserves :
        (main : WorkMain) (w : Workplace W) (ws : List (Workplace W)) (main' : WorkMain)
        (w' : Workplace W) (t : List WorkerOrder) (ts : List (List WorkerOrder))
        → IsAfter w t
        → AreAfter ws ts
        → Turn functions main w main' w'
        → Conserves main.order_queue (w ∷ ws) (t ∷ ts) main'.order_queue (w' ∷ ws)
    Turn-Conserves main w ws main' w' t ts h hs (by_sender e) = record {
      carried = t ∷ ts;
      after = (
        ap silent (
              sym
                (send_conserves (λ o. false) w.sender main.order_queue main w main' w' refl refl
                  refl e).1)
            ∙ h,
        hs,
      );
      same = λ p no_terminate. omega (
        arith,
        (send_conserves p w.sender main.order_queue main w main' w' no_terminate refl refl e).0,
      );
    }
    Turn-Conserves main w ws main' w' t ts h hs (by_child e) =
        let (o, h', queue, at, pipe) = child_carries w.orders main w main' w' t refl h e in
        record {
          carried = (t ++ (o ∷ [])) ∷ ts;
          after = (h', hs);
          same = λ p no_terminate. omega (
            arith,
            count-append p t (o ∷ []),
            ap (count p) queue,
            ap (λ s. count p (in_hand s)) at,
            ap (count p) pipe,
          );
        }
    Turn-Conserves main w ws main' w' t ts h hs (by_response e) =
        let (queue, at, pipe, child) = response_conserves w.child.responses main w main' w' e in
        record {
          carried = t ∷ ts;
          after = (sym child ∙ h, hs);
          same = λ p no_terminate.
              omega
                (arith, ap (count p) queue, ap (λ s. count p (in_hand s)) at, ap (count p) pipe);
        }

    pub Move-Conserves :
        (main : WorkMain) (ts : List (List WorkerOrder)) {ws ws' : List (Workplace W)}
        {main' : WorkMain}
        → AreAfter ws ts
        → Move functions main ws main' ws'
        → Conserves main.order_queue ws ts main'.order_queue ws'
    Move-Conserves main [] h (here w ws main' w' t) = absurd h
    Move-Conserves main (t ∷ ts) h (here w ws main' w' turn) =
        Turn-Conserves main w ws main' w' t ts h.0 h.1 turn
    Move-Conserves main [] h (there w ws main' ws' m) = absurd h
    Move-Conserves main (t ∷ ts) h (there w ws main' ws' m) =
        let c = Move-Conserves main ts h.1 m in
        record {
          carried = t ∷ c.carried;
          after = (h.0, c.after);
          same = λ p no_terminate. omega (arith, c.same p no_terminate);
        }
