-- ===== src/Work/Master/Logs.antt =====
-- How the response thread of a workplace puts log messages together (src/netmirage-core/work.c).
pub mod Joined
use netmirage.Prelude.{
  ℕ, zero, suc, ◌+◌, ◌%◌, ◌^◌, ◌==◌, Bool, true, false, if◌then◌else◌, List, [], ◌∷◌, ◌++◌, length,
  take, Option, none, some,
}
use netmirage.Mem.Checked.{Outcome, ok, fault, ◌>>=◌, Allocator}
use netmirage.Mem.Flex.{Buffer, flex_buffer_grow, flex_buffer_grow_append_str, write_bytes}
use netmirage.Work.{WorkerResponse, response_log_print, response_log_end}

-- `logBuffer` with `logCap`, and `logLen`
pub record Log : Type 0 where
  pub buffer : Buffer
  pub log_len : ℕ

-- A C string in a block: the bytes before the first NUL, which must be in the block.
unfoldable pub c_str : List ℕ → Outcome (List ℕ)
c_str [] = fault
c_str (b ∷ bs) = if b == 0 then ok [] else (do rest ← c_str bs; ok (b ∷ rest))

module _ (alloc : Allocator) where
  -- `ResponseLogPrint`, when all the bytes of the message can be read.
  unfoldable pub log_print : Log → List ℕ → Outcome Log
  log_print log message = do
    grown ← flex_buffer_grow alloc log.buffer log.log_len (length message) 1
    block ← write_bytes grown.block log.log_len message
    ok (record {
      buffer = record grown { block = block };
      log_len = (log.log_len + length message) % 2 ^ 64;
    })

  -- `ResponseLogEnd`, with what is given to `lprintRaw`.
  unfoldable pub log_end : Log → Outcome (Log × List ℕ)
  log_end log = do
    ended ← flex_buffer_grow_append_str alloc log.buffer (some log.log_len) []
    printed ← c_str (ended.0.block)
    ok (record { buffer = ended.0; log_len = 0 }, printed)

  -- What the response thread does with a response and the bytes behind it, with the texts of its calls
  -- of `lprintRaw`.
  unfoldable pub relay : Log → WorkerResponse × List ℕ → Outcome (Log × List (List ℕ))
  relay log (response_log_print len, bytes) = do
    printed ← log_print log (take len bytes)
    ok (printed, [])
  relay log (response_log_end, bytes) = do ended ← log_end log; ok (ended.0, ended.1 ∷ [])
  relay log (_, bytes) = ok (log, [])

  unfoldable pub relay_all : Log → List (WorkerResponse × List ℕ) → Outcome (Log × List (List ℕ))
  relay_all log [] = ok (log, [])
  relay_all log (sent ∷ rest) = do
    one ← relay log sent
    all ← relay_all one.0 rest
    ok (all.0, one.1 ++ all.1)
