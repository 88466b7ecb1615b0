-- ===== src/Ip/AddrIter/Next.antt =====
-- The loops of `ip4IterNext`: what they pass over, and where they stop.
use native.Mathlib.Decide.{dec_le}
use netmirage.Prelude.{
  ℕ, ◌+◌, ◌≤◌, ◌<◌, ◌≡◌, ◌↔◌, inl, inr, Bool, true, false, ltb, leb, ◌&&◌, List, [], ◌∷◌, All,
  arith, Bool-cases,
}
use netmirage.Ip.AddrIter.{IgnoreRange, skip_ignored}
use netmirage.Ip.AddrIter.Sorted.{In, Ignored, IsSorted, none_before, All-after}

-- Nothing is hidden behind a first range that ends below the address.
abbrev pub Ready : Bool → ℕ → List IgnoreRange → Type 0
Ready true addr rs = Unit
Ready false addr [] = Unit
Ready false addr (r ∷ rs) = addr ≤ r.end

-- The first range lies ahead of the address.
abbrev pub Ahead : ℕ → List IgnoreRange → Type 0
Ahead addr [] = Unit
Ahead addr (r ∷ rs) = addr < r.start

abbrev pub IsProper : IgnoreRange → Type 0
IsProper r = r.start ≤ r.end

pub record Skipped (addr : ℕ) (rs : List IgnoreRange) (out : ℕ × List IgnoreRange) : Type 0 where
  pub forward : addr ≤ out.0
  pub passed : (a : ℕ) → addr ≤ a → a < out.0 → Ignored a rs
  pub free : ¬ Ignored out.0 rs
  pub kept : (a : ℕ) → out.0 ≤ a → Ignored a rs ↔ Ignored a out.1
  pub ahead : Ahead out.0 out.1
  pub sorted : IsSorted out.1
  pub proper : All IsProper out.1

behind :
    (a : ℕ) (r : IgnoreRange) (rs : List IgnoreRange)
    → r.end < a
    → Ignored a (r ∷ rs)
    → Ignored a rs
behind a r rs h (inl here) = absurd (omega arith)
behind a r rs h (inr later) = later

skip_range :
    (addr : ℕ) (r : IgnoreRange) (rs : List IgnoreRange) (out : ℕ × List IgnoreRange)
    → r.end < addr
    → Skipped addr rs out
    → Skipped addr (r ∷ rs) out
skip_range addr r rs out past s = record {
  forward = s.forward;
  passed = λ a low high. inr (s.passed a low high);
  free = λ m. s.free (behind out.0 r rs (omega (arith, s.forward)) m);
  kept = λ a low.
      let k = s.kept a low in
      (λ m. k.0 (behind a r rs (omega (arith, s.forward)) m), λ m. inr (k.1 m));
  ahead = s.ahead;
  sorted = s.sorted;
  proper = s.proper;
}

leave_range :
    (addr : ℕ) (r : IgnoreRange) (rs : List IgnoreRange) (out : ℕ × List IgnoreRange)
    → In addr r
    → Skipped (r.end + 1) rs out
    → Skipped addr (r ∷ rs) out
leave_range addr r rs out inside s = record {
  forward = omega (arith, s.forward);
  passed = λ a low high. elim (dec_le a r.end) [
    | yes le ↦ inl (omega arith)
    | no gt ↦ inr (s.passed a (omega arith) high)
  ];
  free = λ m. s.free (behind out.0 r rs (omega (arith, s.forward)) m);
  kept = λ a low.
      let k = s.kept a low in
      (λ m. k.0 (behind a r rs (omega (arith, s.forward)) m), λ m. inr (k.1 m));
  ahead = s.ahead;
  sorted = s.sorted;
  proper = s.proper;
}

stop_before :
    (addr : ℕ) (r : IgnoreRange) (rs : List IgnoreRange)
    → addr < r.start
    → IsSorted (r ∷ rs)
    → All IsProper (r ∷ rs)
    → Skipped addr (r ∷ rs) (addr, r ∷ rs)
stop_before addr r rs before sorted proper = record {
  forward = omega arith;
  passed = λ a low high. absurd (omega arith);
  free = none_before addr (r ∷ rs) (before, All-after addr r.start rs before sorted.0);
  kept = λ a low. (λ m. m, λ m. m);
  ahead = before;
  sorted = sorted;
  proper = proper;
}

past_lem :
    (skipping : Bool) (addr : ℕ) (r : IgnoreRange)
    → (skipping && ltb r.end addr) ≡ true
    → r.end < addr
past_lem skipping addr r h = ground arith

before_lem :
    (skipping : Bool) (addr : ℕ) (r : IgnoreRange) (rs : List IgnoreRange)
    → Ready skipping addr (r ∷ rs)
    → (skipping && ltb r.end addr) ≡ false
    → (leb r.start addr && leb addr r.end) ≡ false
    → addr < r.start
before_lem true addr r rs ready h k = ground arith
before_lem false addr r rs ready h k = ground arith

pub skip-Skipped :
    (skipping : Bool) (addr : ℕ) (rs : List IgnoreRange)
    → IsSorted rs
    → All IsProper rs
    → Ready skipping addr rs
    → Skipped addr rs (skip_ignored skipping addr rs)
unfolding skip_ignored
skip-Skipped skipping addr [] sorted proper ready = record {
  forward = omega arith;
  passed = λ a low high. absurd (omega arith);
  free = λ m. m;
  kept = λ a low. (λ m. m, λ m. m);
  ahead = tt;
  sorted = tt;
  proper = tt;
}
skip-Skipped skipping addr (r ∷ rs) sorted proper ready =
    elim (Bool-cases (skipping && ltb r.end addr)) [
      | inl past ↦
          rw (past, skip_ignored)
            (skip_range addr r rs _ (past_lem skipping addr r past)
              (skip-Skipped true addr rs sorted.1 proper.1 tt))
      | inr not_past ↦ elim (Bool-cases (leb r.start addr && leb addr r.end)) [
        | inl inside ↦
            rw (not_past, inside, skip_ignored)
              (leave_range addr r rs _ (ground arith)
                (skip-Skipped true (r.end + 1) rs sorted.1 proper.1 tt))
        | inr outside ↦
            rw (not_past, outside, skip_ignored)
              (stop_before addr r rs (before_lem skipping addr r rs ready not_past outside) sorted
                proper)
      ]
    ]
