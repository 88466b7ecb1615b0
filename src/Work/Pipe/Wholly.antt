-- ===== src/Work/Pipe/Wholly.antt =====
-- What is moved when the loops over `write` and `read` end.
use mathlib.Core.List.{append_assoc, append-nil}
use netmirage.Prelude.{
  ℕ, zero, suc, ◌+◌, ◌-◌, ◌^◌, ◌≤◌, ◌<◌, ◌≡◌, refl, ap, ap₂, sym, ◌∙◌, true, false, ◌==◌, List, [],
  ◌∷◌, ◌++◌, length, take, drop, arith, length-drop, lt→leb_false, take-drop, drop-drop,
  take-drop_whole, drop-append, take-append, take-all, length-append, inl, inr, Bool-cases,
}
use Prim.Native.Nat.{min}
use netmirage.Mem.Checked.{ok}
use netmirage.Work.Pipe.{Written, write_loop, write_all, read_loop, read_all, IsFair}

-- What a write has put into the pipe.
pub record Wrote (pipe bytes : List ℕ) (w : Written) : Type 0 where
  pub count : ℕ
  pub most : count ≤ length bytes
  pub added : w.pipe ≡ pipe ++ take count bytes
  pub all : w.done ≡ true → count ≡ length bytes
  pub partial : w.done ≡ false → count < length bytes

module _ (moved : ℕ → ℕ → ℕ) where
  write_loop_more :
      (pipe bytes : List ℕ) (written : ℕ) (w : Written)
      → written ≤ length bytes
      → Wrote (pipe ++ take written bytes) (drop written bytes) w
      → Wrote pipe bytes w
  write_loop_more pipe bytes written w le r = record {
    count = written + r.count;
    most = omega (arith, r.most, length-drop written bytes);
    added =
        r.added
        ∙ append_assoc pipe (take written bytes) (take r.count (drop written bytes))
        ∙ ap (λ l. pipe ++ l) (take-drop written r.count bytes);
    all = λ e. omega (arith, r.all e, length-drop written bytes);
    partial = λ e. omega (arith, r.partial e, length-drop written bytes);
  }

  write_loop-Wrote :
      ((call n : ℕ) → moved call n ≤ n)
      → (fuel calls : ℕ) (pipe bytes : List ℕ) → length bytes ≤ fuel
      → (w : Written) × (write_loop moved fuel calls pipe bytes ≡ ok w) × Wrote pipe bytes w
  unfolding write_loop
  write_loop-Wrote most fuel calls pipe [] h = (
    record { calls = calls; pipe = pipe; done = true },
    refl,
    record {
      count = 0;
      most = omega arith;
      added = sym (append-nil pipe);
      all = λ e. refl;
      partial = λ e. cc;
    },
  )
  write_loop-Wrote most zero calls pipe (x ∷ xs) h = absurd (omega arith)
  write_loop-Wrote most (suc fuel) calls pipe (x ∷ xs) h =
      let written = moved calls (length (x ∷ xs)) in
      elim (Bool-cases (written == 0)) [
        | inl none_written ↦ (
          record { calls = calls + 1; pipe = pipe; done = false },
          rw none_written refl,
          record {
            count = 0;
            most = omega arith;
            added = sym (append-nil pipe);
            all = λ e. cc;
            partial = λ e. omega arith;
          },
        )
        | inr some_written ↦
            let le = most calls (length (x ∷ xs)) in
            let positive : 0 < written = ground arith in
            let (w, e, r) =
              write_loop-Wrote most fuel (calls + 1) (pipe ++ take written (x ∷ xs))
                (drop written (x ∷ xs)) (omega (arith, length-drop written (x ∷ xs))) in
            (w, rw some_written e, write_loop_more pipe (x ∷ xs) written w le r)
      ]

  -- What a read has taken out of the pipe.
  pub read_loop_lem :
      IsFair moved
      → (fuel calls : ℕ) (pipe bytes : List ℕ) (to_read : ℕ) → to_read ≤ fuel
      → to_read ≤ length pipe
      → (last : ℕ) × (read_loop moved fuel calls pipe bytes to_read
          ≡ ok (record {
            calls = last;
            pipe = drop to_read pipe;
            bytes = bytes ++ take to_read pipe;
            done = true;
          }))
  unfolding read_loop
  read_loop_lem fair fuel calls pipe bytes zero h enough = (
    calls,
    ap (λ l. ok (record { calls = calls; pipe = pipe; bytes = l; done = true }))
        (sym (append-nil bytes)),
  )
  read_loop_lem fair zero calls pipe bytes (suc to_read) h enough = absurd (omega arith)
  read_loop_lem fair (suc fuel) calls pipe bytes (suc to_read) h enough =
      let available = min (suc to_read) (length pipe) in
      let n = moved calls available in
      let some_read : (n == 0) ≡ false = ground (arith, fair.least calls available) in
      let (last, e) =
        read_loop_lem fair fuel (calls + 1) (drop n pipe) (bytes ++ take n pipe) (suc to_read - n)
          (omega (arith, fair.least calls available))
          (omega (arith, fair.most calls available, length-drop n pipe)) in
      let sum : n + (suc to_read - n) ≡ suc to_read = omega (arith, fair.most calls available) in
      (
        last,
        rw some_read (
            e
            ∙ ap₂ (λ p b. ok (record { calls = last; pipe = p; bytes = b; done = true }))
                (drop-drop n (suc to_read - n) pipe ∙ ap (λ (k : ℕ). drop k pipe) sum)
                (append_assoc bytes (take n pipe) (take (suc to_read - n) (drop n pipe))
                  ∙ ap (λ l. bytes ++ l)
                      (take-drop n (suc to_read - n) pipe ∙ ap (λ (k : ℕ). take k pipe) sum))),
      )

  -- On a pipe that moves at most what it is asked for, `writeAll` of less than 2^63 bytes ends, what it
  -- has put into the pipe is the start of the data, and it returns true exactly when that is all of
  -- the data.
  pub write_all-Wrote :
      ((call n : ℕ) → moved call n ≤ n)
      → (calls : ℕ) (pipe bytes : List ℕ) → length bytes < 2 ^ 63
      → (w : Written) × (write_all moved calls pipe bytes ≡ ok w) × Wrote pipe bytes w
  unfolding write_all
  write_all-Wrote most calls pipe bytes small =
      let (w, e, r) = write_loop-Wrote most (length bytes) calls pipe bytes (omega arith) in
      (w, rw (lt→leb_false (2 ^ 63) (length bytes) small) e, r)

  write_loop_fair :
      IsFair moved
      → (fuel calls : ℕ) (pipe bytes : List ℕ) → length bytes ≤ fuel
      → (last : ℕ) × (write_loop moved fuel calls pipe bytes
          ≡ ok (record { calls = last; pipe = pipe ++ bytes; done = true }))
  unfolding write_loop
  write_loop_fair fair fuel calls pipe [] h = (
    calls,
    ap (λ l. ok (record { calls = calls; pipe = l; done = true })) (sym (append-nil pipe)),
  )
  write_loop_fair fair zero calls pipe (x ∷ xs) h = absurd (omega arith)
  write_loop_fair fair (suc fuel) calls pipe (x ∷ xs) h =
      let n = moved calls (length (x ∷ xs)) in
      let some_written : (n == 0) ≡ false = ground (arith, fair.least calls (length (x ∷ xs))) in
      let (last, e) =
        write_loop_fair fair fuel (calls + 1) (pipe ++ take n (x ∷ xs)) (drop n (x ∷ xs))
          (omega (arith, fair.least calls (length (x ∷ xs)), length-drop n (x ∷ xs))) in
      (
        last,
        rw some_written (
            e
            ∙ ap (λ l. ok (record { calls = last; pipe = l; done = true }))
                (append_assoc pipe (take n (x ∷ xs)) (drop n (x ∷ xs))
                  ∙ ap (λ l. pipe ++ l) (take-drop_whole n (x ∷ xs)))),
      )

  -- On a fair pipe, `writeAll` puts all of the data into the pipe and returns true.
  pub write_all_fair :
      IsFair moved
      → (calls : ℕ) (pipe bytes : List ℕ) → length bytes < 2 ^ 63
      → (last : ℕ) × (write_all moved calls pipe bytes
          ≡ ok (record { calls = last; pipe = pipe ++ bytes; done = true }))
  unfolding write_all
  write_all_fair fair calls pipe bytes small =
      let (last, e) = write_loop_fair fair (length bytes) calls pipe bytes (omega arith) in
      (last, rw (lt→leb_false (2 ^ 63) (length bytes) small) e)

  -- On a fair pipe, `readAll` takes the bytes asked for out of a pipe that begins with them, and
  -- returns true.
  pub read_all_lem :
      IsFair moved
      → (calls : ℕ) (bytes rest : List ℕ) → length bytes < 2 ^ 63
      → (last : ℕ) × (read_all moved calls (bytes ++ rest) (length bytes)
          ≡ ok (record { calls = last; pipe = rest; bytes = bytes; done = true }))
  unfolding read_all
  read_all_lem fair calls bytes rest small =
      let (last, e) =
        read_loop_lem fair (length bytes) calls (bytes ++ rest) [] (length bytes) (omega arith)
          (omega (arith, length-append bytes rest)) in
      (
        last,
        rw (lt→leb_false (2 ^ 63) (length bytes) small) (
            e
            ∙ ap₂ (λ p b. ok (record { calls = last; pipe = p; bytes = b; done = true }))
                (drop-append bytes rest)
                (take-append (length bytes) bytes rest (omega arith)
                  ∙ take-all (length bytes) bytes (omega arith))),
      )

  -- Nothing can be read from an empty pipe that all writers have closed.
  pub read_all_end :
      IsFair moved
      → (calls len : ℕ) → 0 < len
      → len < 2 ^ 63
      → read_all moved calls [] len
        ≡ ok (record { calls = calls + 1; pipe = []; bytes = []; done = false })
  unfolding read_all read_loop
  read_all_end fair calls zero positive small = absurd (omega arith)
  read_all_end fair calls (suc n) positive small =
      let none_read : (moved calls (min (suc n) 0) == 0) ≡ true =
        ground (arith, fair.most calls (min (suc n) 0)) in
      rw (lt→leb_false (2 ^ 63) (suc n) small, none_read) refl
