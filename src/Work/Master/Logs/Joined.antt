-- ===== src/Work/Master/Logs/Joined.antt =====
-- What the response thread prints of the pieces of a message.
use mathlib.Core.List.{append_assoc, append-nil}
use netmirage.Prelude.{
  ℕ, ◌+◌, ◌*◌, ◌%◌, ◌^◌, ◌≤◌, ◌<◌, ◌≡◌, ◌≢◌, refl, ap, sym, ◌∙◌, ◌==◌, true, false, List, [], ◌∷◌,
  ◌++◌, length, take, some, none, map, subst, take-all, arith, All, length-append, take-drop_whole,
  drop, take-take,
}
use netmirage.Mem.Checked.{ok, Allocator}
use netmirage.Mem.Flex.{flex_buffer_grow_append_str}
use netmirage.Mem.Flex.Laws.{IsBlock, grow-Grown, grow_total, grow_then_append, write_lem}
use netmirage.Work.Master.Logs.{Log, c_str, log_print, log_end, relay, relay_all}
use netmirage.Work.Child.{child_log_print}

abbrev pub joined : List (List ℕ) → List ℕ
joined [] = []
joined (m ∷ ms) = m ++ joined ms

-- The buffer begins with the given text.
pub record Holds (log : Log) (text : List ℕ) : Type 0 where
  pub block : IsBlock 1 log.buffer
  pub fits : log.log_len ≤ log.buffer.cap
  pub len : log.log_len ≡ length text
  pub held : take log.log_len log.buffer.block ≡ text

c_str-append :
    (text rest : List ℕ) → All (λ b. b ≢ 0) text → c_str ((text ++ 0 ∷ []) ++ rest) ≡ ok text
unfolding c_str
c_str-append [] rest h = refl
c_str-append (b ∷ bs) rest h =
    let other : (b == 0) ≡ false = ground (arith, h.0) in rw (other, c_str-append bs rest h.1) refl

c_str_lem :
    (block text : List ℕ) (k : ℕ)
    → take k block ≡ text ++ 0 ∷ []
    → All (λ b. b ≢ 0) text
    → c_str block ≡ ok text
c_str_lem block text k e h =
    ap c_str (sym (take-drop_whole k block) ∙ ap (λ l. l ++ drop k block) e)
    ∙ c_str-append text (drop k block) h

module _ (alloc : Allocator) (memory : (size : ℕ) → alloc.available size ≡ true) where
  log_print-Holds :
      (log : Log) (text message : List ℕ)
      → Holds log text
      → (length text + length message) * 2 < 2 ^ 64
      → (new : Log) × (log_print alloc log message ≡ ok new) × Holds new (text ++ message)
  unfolding log_print
  log_print-Holds log text message h small =
      let (grown, e) =
        grow_total alloc log.buffer log.log_len (length message) 1 (omega arith)
          (omega (arith, h.len)) memory in
      let g = grow-Grown alloc log.buffer log.log_len (length message) 1 h.block e in
      let (block, written, same, holds) =
        write_lem grown.block log.log_len message (omega (arith, g.block, g.room)) in
      (
        record {
          buffer = record { block = block; cap = grown.cap };
          log_len = (log.log_len + length message) % 2 ^ 64;
        },
        rw (e, written) refl,
        record {
          block = (omega (arith, same, g.block), omega (arith, same, g.block));
          fits = omega (arith, g.room, h.len);
          len = omega (arith, h.len, length-append text message);
          held =
              ap (λ (k : ℕ). take k block) (omega (arith, h.len))
              ∙ holds
              ∙ ap (λ l. l ++ message)
                  (sym (
                      take-take log.log_len (length log.buffer.block) grown.block
                        (omega (arith, h.fits, h.block)))
                    ∙ ap (take log.log_len) g.kept
                    ∙ h.held);
        },
      )

  log_end_lem :
      (log : Log) (text : List ℕ)
      → Holds log text
      → All (λ b. b ≢ 0) text
      → (length text + 1) * 2 < 2 ^ 64
      → (new : Log) × (log_end alloc log ≡ ok (new, text)) × Holds new []
  unfolding log_end flex_buffer_grow_append_str
  log_end_lem log text h message small =
      let (grown, e) =
        grow_total alloc log.buffer log.log_len 1 1 (omega arith) (omega (arith, h.len)) memory in
      let (new, e', holds, block, fits) =
        grow_then_append alloc log.buffer log.log_len (0 ∷ []) 1 1 h.block (omega arith) h.fits
          (omega arith) e in
      let start : take ((log.log_len + 1) * 1) new.block ≡ text ++ 0 ∷ [] =
        holds
        ∙ ap (λ l. l ++ 0 ∷ []) (ap (λ (k : ℕ). take k log.buffer.block) (omega arith) ∙ h.held) in
      (
        record { buffer = new; log_len = 0 },
        rw (e, e', c_str_lem new.block text _ start message) refl,
        record { block = block; fits = omega arith; len = refl; held = refl },
      )

  relay_prints :
      (log : Log) (text : List ℕ) (messages : List (List ℕ))
      → Holds log text
      → All (λ b. b ≢ 0) (text ++ joined messages)
      → (length text + length (joined messages) + 1) * 2 < 2 ^ 64
      → (last : Log) × (relay_all alloc log (map child_log_print (map some messages ++ (none ∷ [])))
          ≡ ok (last, (text ++ joined messages) ∷ []))
        × Holds last []
  unfolding relay_all relay
  relay_prints log text [] h message small =
      let whole : text ++ [] ≡ text = append-nil text in
      let (last, e, h') =
        log_end_lem log text h (subst (All (λ b. b ≢ 0)) whole message) (omega arith) in
      (last, rw (e, whole) refl, h')
  relay_prints log text (m ∷ ms) h message small =
      let (next, e, h') =
        log_print-Holds log text m h (omega (arith, length-append m (joined ms))) in
      let (last, e', h'') =
        relay_prints next (text ++ m) ms h'
          (subst (All (λ b. b ≢ 0)) (sym (append_assoc text m (joined ms))) message)
          (omega (arith, length-append m (joined ms), length-append text m)) in
      (
        last,
        rw (take-all (length m) m (omega arith), e, e')
            (ap (λ l. ok (last, l ∷ [])) (append_assoc text m (joined ms))),
        h'',
      )

  -- If memory does not run out, then the response thread prints what a child process logs in pieces
  -- with one call of `lprintRaw`, of the whole message, whatever the pieces (without NULs, and together
  -- shorter than 2^62), and its log buffer is empty again.
  pub pieces_joined :
      (log : Log) (messages : List (List ℕ))
      → Holds log []
      → All (λ b. b ≢ 0) (joined messages)
      → length (joined messages) < 2 ^ 62
      → (last : Log) × (relay_all alloc log (map child_log_print (map some messages ++ (none ∷ [])))
          ≡ ok (last, joined messages ∷ []))
        × Holds last []
  pieces_joined log messages h message small = relay_prints log [] messages h message (omega arith)
