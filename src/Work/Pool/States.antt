-- ===== src/Work/Pool/States.antt =====
-- `workJoin` (src/netmirage-core/work.c) in a pool of running threads.
use netmirage.Prelude.{
  ℕ, zero, suc, ◌-◌, ◌^◌, ◌≤◌, ◌<◌, ◌≡◌, ◌≢◌, refl, sym, subst, ◌∙◌, ◌==◌, ltb, Bool, false, List,
  [], ◌∷◌, length, arith, All, some, none, inl, inr, Bool-cases, ltb→lt, ltb_false→le, ==_iff,
}
use netmirage.Work.{worker_ping}
use netmirage.Work.Child.{Worker}
use netmirage.Work.Master.{WorkMain}
use netmirage.Work.Pool.{
  Workplace, Move, Joining, flushing, announcing, flushing_again, waiting, asking, returned,
  queued_error, announce, join_step, order_at,
}
use netmirage.Work.Pool.Errors.{IsHonest, AreHonest}
use netmirage.Work.Pool.Phases.{
  total_outstanding, Flushed, Move-Flushed, Move-IsHonest, Move-length,
}
use netmirage.Work.Pool.Owing.{Owing, Asked, Finished, Move-Owing, ping-Owing}

empty : {A : Type 0} (xs : List A) → length xs ≡ 0 → xs ≡ []
empty [] e = refl
empty (x ∷ xs) e = absurd (omega (arith, e))

pub none-some : {A : Type 0} (a : A) → none ≢ some a
none-some a e = cc

some_inj : {A : Type 0} (a b : A) → some a ≡ some b → a ≡ b
some_inj a b e = cc

announce-IsHonest :
    (main : WorkMain) (reset_error : Bool) → IsHonest main → IsHonest (announce main reset_error)
unfolding announce
announce-IsHonest main reset_error h = ground arith

module _ {W : Type 0} where
  -- A pool without pings or pongs on their way, whose counter counts the orders that are not sent.
  pub record IsQuiet (main : WorkMain) (ws : List (Workplace W)) : Type 0 where
    pub flushed : Flushed main ws 0 0
    pub pool_eq : main.pool_size ≡ length ws
    pub small : length ws < 2 ^ 32
    pub honest : IsHonest main
    pub all_honest : All AreHonest ws

  -- No order is left at the queue, with a send thread or in a pipe.
  pub record Done (main : WorkMain) (ws : List (Workplace W)) : Type 0 where
    pub no_orders : main.order_queue ≡ []
    pub finished : All Finished ws

  -- `n` is the size of the pool.
  abbrev pub Phase : ℕ → Joining → WorkMain → List (Workplace W) → Type 0
  Phase n flushing main ws = Flushed main ws 0 0
  Phase n announcing main ws = Flushed main ws 0 0 × (main.unsent_orders ≡ 0)
  Phase n flushing_again main ws = Owing main 0 ws n
  Phase n (asking k) main ws = Owing main k ws (n - k) × (k ≤ n)
  Phase n waiting main ws = Owing main n ws 0
  Phase n (returned code) main ws = Unit

  pub record State (n : ℕ) (at : Joining) (main : WorkMain) (ws : List (Workplace W)) : Type 0 where
    pub phase : Phase n at main ws
    pub pool_eq : main.pool_size ≡ n
    pub len : length ws ≡ n
    pub small : n < 2 ^ 32
    pub honest : IsHonest main
    pub all_honest : All AreHonest ws

  Move-Phase :
      (functions : Worker W) (n : ℕ) (at : Joining) (main : WorkMain) {ws ws' : List (Workplace W)}
      {main' : WorkMain}
      → Phase n at main ws
      → Move functions main ws main' ws'
      → Phase n at main' ws'
  Move-Phase functions n flushing main p m = (Move-Flushed functions main 0 0 p m).0
  Move-Phase functions n announcing main p m =
      let (f, fewer, same) = Move-Flushed functions main 0 0 p.0 m in
      (f, omega (arith, fewer.fewer, p.1))
  Move-Phase functions n flushing_again main p m = (Move-Owing functions main 0 n p m).0
  Move-Phase functions n (asking k) main p m = ((Move-Owing functions main k (n - k) p.0 m).0, p.1)
  Move-Phase functions n waiting main p m = (Move-Owing functions main n 0 p m).0
  Move-Phase functions n (returned code) main p m = tt

  pub Move-State :
      (functions : Worker W) (n : ℕ) (at : Joining) (main : WorkMain) {ws ws' : List (Workplace W)}
      {main' : WorkMain}
      → State n at main ws
      → Move functions main ws main' ws'
      → State n at main' ws'
  Move-State functions n at main s m =
      let (pool, same) = Move-length functions main m in
      let (k, h) = Move-IsHonest functions main s.honest s.all_honest m in
      record {
        phase = Move-Phase functions n at main s.phase m;
        pool_eq = pool ∙ s.pool_eq;
        len = same ∙ s.len;
        small = s.small;
        honest = k;
        all_honest = h;
      }

  Asked-none : (ws : List (Workplace W)) → total_outstanding ws ≡ 0 → Asked 0 ws
  Asked-none [] e = tt
  Asked-none (w ∷ ws) e = (omega (arith, e), Asked-none ws (omega (arith, e)))

  announced :
      (n : ℕ) (main : WorkMain) (ws : List (Workplace W)) (reset_error : Bool)
      → State n announcing main ws
      → Owing (announce main reset_error) 0 ws n
  unfolding announce
  announced n main ws reset_error s =
      let f = s.phase.0 in
      record {
        no_orders = empty main.order_queue (omega (arith, f.account, s.phase.1));
        all_sent = s.phase.1;
        not_busy = omega (arith, f.account, s.phase.1);
        owed = omega (arith, f.quiet, s.pool_eq);
        small = omega (arith, s.small, s.pool_eq);
        asked = Asked-none ws f.quiet;
      }

  -- A state that only differs in where `workJoin` is.
  onward :
      (n : ℕ) (at to : Joining) (main : WorkMain) (ws : List (Workplace W))
      → State n at main ws
      → Phase n to main ws
      → State n to main ws
  onward n at to main ws s phase = record {
    phase = phase;
    pool_eq = s.pool_eq;
    len = s.len;
    small = s.small;
    honest = s.honest;
    all_honest = s.all_honest;
  }

  StateAt : ℕ → Joining × WorkMain × List (Workplace W) → Type 0
  StateAt n (at, main, ws) = State n at main ws

  reached :
      (n : ℕ) (x y : Joining × WorkMain × List (Workplace W))
      → some x ≡ some y
      → StateAt n x
      → StateAt n y
  reached n x y e s = subst (StateAt n) (some_inj x y e) s

  pinged :
      (n k : ℕ) (main : WorkMain) (ws : List (Workplace W))
      → k < n
      → State n (asking k) main ws
      → All AreHonest (order_at worker_ping k ws)
      → State n (asking (suc k)) main (order_at worker_ping k ws)
  pinged n k main ws lt s fine =
      let owing : Owing main k ws (suc (n - suc k)) =
        subst (λ (r : ℕ). Owing main k ws r) (omega (arith)) s.phase.0 in
      let (o, same) = ping-Owing main k ws (n - suc k) (omega (arith, s.len)) owing in
      record {
        phase = (o, omega arith);
        pool_eq = s.pool_eq;
        len = same ∙ s.len;
        small = s.small;
        honest = s.honest;
        all_honest = fine;
      }

  order_at-AreHonest :
      (k : ℕ) (ws : List (Workplace W))
      → All AreHonest ws
      → All AreHonest (order_at worker_ping k ws)
  unfolding order_at
  order_at-AreHonest k [] h = tt
  order_at-AreHonest zero (w ∷ ws) h = h
  order_at-AreHonest (suc k) (w ∷ ws) h = (h.0, order_at-AreHonest k ws h.1)

  asking_step :
      (n k : ℕ) (reset_error : Bool) (main : WorkMain) (ws : List (Workplace W)) (to : Joining)
      (main' : WorkMain) (ws' : List (Workplace W))
      → State n (asking k) main ws
      → join_step reset_error (asking k) main ws ≡ some (to, main', ws')
      → State n to main' ws'
  unfolding join_step StateAt
  asking_step n k reset_error main ws to main' ws' s e = elim (Bool-cases (ltb k main.pool_size)) [
    | inl more ↦
        reached n _ (to, main', ws') (rw more at e)
          (pinged n k main ws (omega (arith, ltb→lt k main.pool_size more, s.pool_eq)) s
            (order_at-AreHonest k ws s.all_honest))
    | inr all ↦
        let k_eq_n : k ≡ n =
          omega (arith, ltb_false→le k main.pool_size all, s.pool_eq, s.phase.1) in
        reached n _ (to, main', ws') (rw all at e)
          (onward n (asking k) waiting main ws s (
            subst (λ (j : ℕ). Owing main j ws 0) k_eq_n
              (subst (λ (r : ℕ). Owing main k ws r) (omega (arith, k_eq_n)) s.phase.0)))
  ]

  forgotten :
      (n : ℕ) (main : WorkMain) (ws : List (Workplace W))
      → State n waiting main ws
      → State n waiting (record main { received_error = false }) ws
  forgotten n main ws s = record {
    phase = record {
      no_orders = s.phase.no_orders;
      all_sent = s.phase.all_sent;
      not_busy = s.phase.not_busy;
      owed = s.phase.owed;
      small = s.phase.small;
      asked = s.phase.asked;
    };
    pool_eq = s.pool_eq;
    len = s.len;
    small = s.small;
    honest = λ e. cc;
    all_honest = s.all_honest;
  }

  waiting_step :
      (n : ℕ) (reset_error : Bool) (main : WorkMain) (ws : List (Workplace W)) (to : Joining)
      (main' : WorkMain) (ws' : List (Workplace W))
      → State n waiting main ws
      → join_step reset_error waiting main ws ≡ some (to, main', ws')
      → State n to main' ws'
  unfolding join_step StateAt
  waiting_step n reset_error main ws to main' ws' s e =
      elim (Bool-cases (main.pongs_expected == 0)) [
        | inl all ↦ reached n _ (to, main', ws') (rw all at e) (onward n waiting _ main ws s tt)
        | inr some_left ↦ elim (Bool-cases (main.received_error)) [
          | inl has_error ↦ elim (Bool-cases reset_error) [
            | inl reset ↦
                reached n (waiting, record main { received_error = false }, ws) (to, main', ws')
                  (sym (simp (some_left, has_error, reset) refl) ∙ e) (forgotten n main ws s)
            | inr keep ↦
                reached n (returned (queued_error main), main, ws) (to, main', ws')
                  (sym (simp (some_left, has_error, keep) refl) ∙ e)
                  (onward n waiting _ main ws s tt)
          ]
          | inr no_error ↦ absurd (none-some _ (sym (simp (some_left, no_error) refl) ∙ e))
        ]
      ]

  announced-State :
      (n : ℕ) (main : WorkMain) (ws : List (Workplace W)) (reset_error : Bool)
      → State n announcing main ws
      → State n flushing_again (announce main reset_error) ws
  unfolding announce
  announced-State n main ws reset_error s = record {
    phase = announced n main ws reset_error s;
    pool_eq = s.pool_eq;
    len = s.len;
    small = s.small;
    honest = announce-IsHonest main reset_error s.honest;
    all_honest = s.all_honest;
  }

  pub join-State :
      (n : ℕ) (reset_error : Bool) (at : Joining) (main : WorkMain) (ws : List (Workplace W))
      (to : Joining) (main' : WorkMain) (ws' : List (Workplace W))
      → State n at main ws
      → join_step reset_error at main ws ≡ some (to, main', ws')
      → State n to main' ws'
  unfolding join_step StateAt
  join-State n reset_error flushing main ws to main' ws' s e =
      elim (Bool-cases (main.unsent_orders == 0)) [
        | inl all ↦
            reached n _ (to, main', ws') (rw all at e)
              (onward n flushing announcing main ws s
                (s.phase, (==_iff main.unsent_orders 0).0 all))
        | inr some_left ↦ absurd (none-some _ (rw some_left at e))
      ]
  join-State n reset_error announcing main ws to main' ws' s e =
      reached n (flushing_again, announce main reset_error, ws) (to, main', ws') e
        (announced-State n main ws reset_error s)
  join-State n reset_error flushing_again main ws to main' ws' s e =
      elim (Bool-cases (main.unsent_orders == 0)) [
        | inl all ↦
            reached n _ (to, main', ws') (rw all at e)
              (onward n flushing_again (asking 0) main ws s
                (subst (λ (r : ℕ). Owing main 0 ws r) (omega arith) s.phase, omega arith))
        | inr some_left ↦ absurd (none-some _ (rw some_left at e))
      ]
  join-State n reset_error (asking k) main ws to main' ws' s e =
      asking_step n k reset_error main ws to main' ws' s e
  join-State n reset_error waiting main ws to main' ws' s e =
      waiting_step n reset_error main ws to main' ws' s e
  join-State n reset_error (returned code) main ws to main' ws' s e = absurd (none-some _ e)
