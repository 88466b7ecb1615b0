-- ===== src/Work/Pool/Errors.antt =====
-- The error codes that a pool keeps.
use netmirage.Prelude.{
  ◌≡◌, ◌≢◌, sym, subst, ◌∙◌, true, false, List, [], ◌∷◌, ◌++◌, arith, some, All,
}
use netmirage.Work.{WorkerOrder, WorkerResponse}
use netmirage.Work.Child.{Worker}
use netmirage.Work.Child.Writes.{is_no_error, obey-Writes, All-append}
use netmirage.Work.Master.{WorkMain, receive}
use netmirage.Work.Pool.{
  Sender, at_queue, sent, leaving, stopped, holding, Workplace, count_sent, send_at, child_at,
  response_at, Turn, by_sender, by_child, by_response,
}

-- The code of an error is not the code of success.
abbrev pub IsHonest : WorkMain → Type 0
IsHonest main = main.received_error ≡ true → main.error_code ≢ 0

module _ {W : Type 0} where
  abbrev pub AreHonest : Workplace W → Type 0
  AreHonest w = All (λ r. is_no_error r ≡ false) w.child.responses

  send-IsHonest :
      (s : Sender) (q : List WorkerOrder) (main : WorkMain) (w : Workplace W) (main' : WorkMain)
      (w' : Workplace W)
      → send_at s q main w ≡ some (main', w')
      → (main.received_error ≡ main'.received_error)
        × (main.error_code ≡ main'.error_code)
        × (w.child.responses ≡ w'.child.responses)
  unfolding send_at count_sent
  send-IsHonest at_queue [] main w main' w' e = ground arith
  send-IsHonest at_queue (o ∷ os) main w main' w' e = ground arith
  send-IsHonest (holding o) q main w main' w' e = ground arith
  send-IsHonest sent q main w main' w' e = ground arith
  send-IsHonest leaving q main w main' w' e = ground arith
  send-IsHonest stopped q main w main' w' e = ground arith

  child-IsHonest :
      (functions : Worker W) (q : List WorkerOrder) (main : WorkMain) (w : Workplace W)
      (main' : WorkMain) (w' : Workplace W)
      → AreHonest w
      → child_at functions q main w ≡ some (main', w')
      → AreHonest w'
        × (main.received_error ≡ main'.received_error)
        × (main.error_code ≡ main'.error_code)
  unfolding child_at
  child-IsHonest functions [] main w main' w' h e = ground arith
  child-IsHonest functions (o ∷ os) main w main' w' h e =
      let writes = obey-Writes functions w.child o in
      let answers : w.child.responses ++ writes.added ≡ w'.child.responses =
        sym writes.responses_eq ∙ (ground arith) in
      (
        subst (All (λ r. is_no_error r ≡ false)) answers (
            All-append (λ r. is_no_error r ≡ false) w.child.responses writes.added h writes.honest),
        ground arith,
        ground arith,
      )

  response-IsHonest :
      (q : List WorkerResponse) (main : WorkMain) (w : Workplace W) (main' : WorkMain)
      (w' : Workplace W)
      → All (λ r. is_no_error r ≡ false) q
      → IsHonest main
      → response_at q main w ≡ some (main', w')
      → AreHonest w' × IsHonest main'
  unfolding response_at receive
  response-IsHonest [] main w main' w' h k e = ground arith
  response-IsHonest (x ∷ xs) main w main' w' h k e = ground arith

  -- No turn makes an error code 0.
  pub Turn-IsHonest :
      (functions : Worker W) (main : WorkMain) (w : Workplace W) (main' : WorkMain)
      (w' : Workplace W)
      → IsHonest main
      → AreHonest w
      → Turn functions main w main' w'
      → IsHonest main' × AreHonest w'
  Turn-IsHonest functions main w main' w' k h (by_sender e) =
      let (flag, code, same) = send-IsHonest w.sender main.order_queue main w main' w' e in
      (λ f c. k (flag ∙ f) (code ∙ c), subst (All (λ r. is_no_error r ≡ false)) same h)
  Turn-IsHonest functions main w main' w' k h (by_child e) =
      let (h', flag, code) = child-IsHonest functions w.orders main w main' w' h e in
      (λ f c. k (flag ∙ f) (code ∙ c), h')
  Turn-IsHonest functions main w main' w' k h (by_response e) =
      let (h', k') = response-IsHonest w.child.responses main w main' w' h k e in (k', h')
