-- ===== src/Work/Pipe.antt =====
-- Moving all of some bytes through a pipe (src/netmirage-core/work.c). A pipe is the list of the bytes
-- that have been written and not yet read.
pub mod Wholly
use netmirage.Prelude.{
  ℕ, zero, suc, ◌+◌, ◌-◌, ◌^◌, ◌≤◌, ◌<◌, Bool, true, false, leb, ◌==◌, if◌then◌else◌, List, [], ◌∷◌,
  ◌++◌, length, take, drop,
}
use Prim.Native.Nat.{min}
use netmirage.Mem.Checked.{Outcome, ok, fault}

-- `calls` counts the system calls so far, and `done` is what the function returns.
pub record Written : Type 0 where
  pub calls : ℕ
  pub pipe : List ℕ
  pub done : Bool

pub record Got : Type 0 where
  pub calls : ℕ
  pub pipe : List ℕ
  pub bytes : List ℕ
  pub done : Bool

-- `moved call n` is how many of the `n` bytes that a call could move it does move; 0 is also an error.
-- The end of the fuel, which is the number of bytes, gives `fault`.
module _ (moved : ℕ → ℕ → ℕ) where
  unfoldable pub write_loop : ℕ → ℕ → List ℕ → List ℕ → Outcome Written
  write_loop fuel calls pipe [] = ok (record { calls = calls; pipe = pipe; done = true })
  write_loop zero calls pipe (x ∷ xs) = fault
  write_loop (suc fuel) calls pipe (x ∷ xs) =
      let written = moved calls (length (x ∷ xs)) in
      let rest =
        write_loop fuel (calls + 1) (pipe ++ take written (x ∷ xs)) (drop written (x ∷ xs)) in
      if written == 0 then ok (record { calls = calls + 1; pipe = pipe; done = false }) else rest

  -- The length as an `ssize_t` is not positive from 2^63 on.
  unfoldable pub write_all : ℕ → List ℕ → List ℕ → Outcome Written
  write_all calls pipe bytes =
      if leb (2 ^ 63) (length bytes)
      then ok (record { calls = calls; pipe = pipe; done = true })
      else write_loop (length bytes) calls pipe bytes

  -- A call can move what is asked for and in the pipe; none is left when all writers have closed it.
  unfoldable pub read_loop : ℕ → ℕ → List ℕ → List ℕ → ℕ → Outcome Got
  read_loop fuel calls pipe bytes zero =
      ok (record { calls = calls; pipe = pipe; bytes = bytes; done = true })
  read_loop zero calls pipe bytes (suc to_read) = fault
  read_loop (suc fuel) calls pipe bytes (suc to_read) =
      let read_bytes = moved calls (min (suc to_read) (length pipe)) in
      let rest =
        read_loop fuel (calls + 1) (drop read_bytes pipe) (bytes ++ take read_bytes pipe)
          (suc to_read - read_bytes) in
      if read_bytes == 0
      then ok (record { calls = calls + 1; pipe = pipe; bytes = bytes; done = false })
      else rest

  unfoldable pub read_all : ℕ → List ℕ → ℕ → Outcome Got
  read_all calls pipe len =
      if leb (2 ^ 63) len
      then ok (record { calls = calls; pipe = pipe; bytes = []; done = true })
      else read_loop len calls pipe [] len

-- What a pipe promises: a call never moves more than it can, and does move something if it can.
pub record IsFair (moved : ℕ → ℕ → ℕ) : Type 0 where
  pub most : (call n : ℕ) → moved call n ≤ n
  pub least : (call n : ℕ) → 0 < n → 0 < moved call n
