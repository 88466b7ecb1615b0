-- ===== src/Work/Wire/Reading.antt =====
-- The order that is read from the bytes of an order.
use netmirage.Prelude.{
  ℕ, ◌+◌, ◌*◌, ◌%◌, ◌^◌, ◌<◌, ◌≡◌, refl, ap, sym, ◌∙◌, true, List, [], ◌++◌, length, replicate,
  Option, none, some, inl, inr, arith, le→leb, length-replicate,
}
use mathlib.Core.List.{append_assoc}
use netmirage.Mem.Checked.{Outcome, ok, Allocator, ecalloc}
use netmirage.Mem.Flex.{write_bytes}
use netmirage.Work.{Configure, WorkerOrder, worker_configure}
use netmirage.Work.Pipe.{IsFair}
use netmirage.Work.Pipe.Wholly.{read_all_lem, read_all_end}
use netmirage.Work.Wire.{
  Layout, configure_of, read_text, fill_texts, read_texts, read_extra, read_order,
}
use netmirage.Work.Wire.Writing.{
  IsText, HasTexts, without_texts, IsSendable, configured, texts_of, extra_bytes, order_bytes,
  zeros_after, some-none,
}

module _ (alloc : Allocator) (layout : Layout) (moved : ℕ → ℕ → ℕ) (fair : IsFair moved) where
  -- A block of zeros with room for a text and its NUL holds them after the text has been read.
  pub read_text_lem :
      (block : List ℕ) (len : ℕ) (t : IsText block len) (calls : ℕ) (rest : List ℕ)
      → (last : ℕ) × (read_text alloc layout moved calls
            (t.text ++ rest)
            (replicate (len + 1) 0)
            len
          ≡ ok (record { calls = last; pipe = rest; block = block; done = true }))
  unfolding read_text write_bytes
  read_text_lem block len t calls rest =
      let (last, e) = read_all_lem moved fair calls t.text rest (omega (arith, t.small)) in
      (
        last,
        rw
            (
              t.len_eq,
              e,
              le→leb (0 + length t.text) (length {A = ℕ} (replicate (length t.text + 1) 0))
                  (omega (arith, length-replicate {A = ℕ} (length t.text + 1) 0)),
            )
            (ap (λ l. ok (record { calls = last; pipe = rest; block = l; done = true }))
              (ap (λ l. t.text ++ l) (zeros_after (length t.text)) ∙ sym t.block_eq)),
      )

  pub zeroed :
      (len : ℕ)
      → len + 1 < 2 ^ 63
      → ((size : ℕ) → alloc.available size ≡ true)
      → ecalloc alloc ((len + 1) % 2 ^ 64) 1 ≡ ok (replicate (len + 1) 0)
  unfolding ecalloc
  zeroed len small memory =
      let blocks : ℕ → Outcome (List ℕ) = λ n. ok (replicate n 0) in
      rw (memory ((len + 1) % 2 ^ 64 * 1)) (ap blocks (omega arith))

  pub fill_texts_lem :
      (c d : Configure) (t : HasTexts c) (calls : ℕ) (rest : List ℕ)
      → d ≡ record c { ns_prefix = []; ovs_dir = []; ovs_schema = [] }
      → (last : ℕ) × (fill_texts alloc layout moved d
            (replicate (c.ns_prefix_len + 1) 0)
            (replicate (c.ovs_dir_len + 1) 0)
            (replicate (c.ovs_schema_len + 1) 0)
            calls
            (texts_of c t ++ rest)
          ≡ ok (record { calls = last; pipe = rest; order = some (worker_configure c) }))
  unfolding fill_texts texts_of
  fill_texts_lem c d t calls rest same =
      let text_1 = t.ns_prefix_text.text in
      let text_2 = t.ovs_dir_text.text in
      let text_3 = t.ovs_schema_text.text in
      let (n₁, e₁) =
        read_text_lem c.ns_prefix c.ns_prefix_len t.ns_prefix_text calls
          (text_2 ++ (text_3 ++ rest)) in
      let (n₂, e₂) = read_text_lem c.ovs_dir c.ovs_dir_len t.ovs_dir_text n₁ (text_3 ++ rest) in
      let (n₃, e₃) = read_text_lem c.ovs_schema c.ovs_schema_len t.ovs_schema_text n₂ rest in
      let split : (text_1 ++ (text_2 ++ text_3)) ++ rest ≡ text_1 ++ (text_2 ++ (text_3 ++ rest)) =
        append_assoc text_1 (text_2 ++ text_3) rest
        ∙ ap (λ l. text_1 ++ l) (append_assoc text_2 text_3 rest) in
      (n₃, rw (same, split, e₁, e₂, e₃) refl)

  pub read_extra_lem :
      (order : WorkerOrder) (o : Option Configure)
      (texts : (c : Configure) → o ≡ some c → HasTexts c) (calls : ℕ) (rest : List ℕ)
      → configure_of order ≡ o
      → ((size : ℕ) → alloc.available size ≡ true)
      → (last : ℕ) × (read_extra alloc layout moved
            (configure_of (without_texts order))
            (without_texts order)
            calls
            (extra_bytes o texts ++ rest)
          ≡ ok (record { calls = last; pipe = rest; order = some order }))
  unfolding read_extra read_texts configure_of extra_bytes
  read_extra_lem order none texts calls rest e memory = elim (configured order) [
    | inl (no_texts, same) ↦ (calls, rw (same, no_texts) refl)
    | inr (c, is_configure) ↦ absurd (some-none c (sym (ap configure_of is_configure) ∙ e))
  ]
  read_extra_lem order (some c) texts calls rest e memory = elim (configured order) [
    | inl (no_texts, same) ↦ absurd (some-none c (sym e ∙ no_texts))
    | inr (d, is_configure) ↦
        let t = texts c refl in
        let d_eq_c : d ≡ c = cc in
        let (last, filled) = fill_texts_lem c _ t calls rest refl in
        (
          last,
          rw
              (
                is_configure,
                d_eq_c,
                zeroed c.ns_prefix_len
                    (omega (arith, t.ns_prefix_text.small, t.ns_prefix_text.len_eq)) memory,
                zeroed c.ovs_dir_len (omega (arith, t.ovs_dir_text.small, t.ovs_dir_text.len_eq))
                    memory,
                zeroed c.ovs_schema_len
                    (omega (arith, t.ovs_schema_text.small, t.ovs_schema_text.len_eq)) memory,
              )
              filled,
        )
  ]

  pub read_order_lem :
      (order : WorkerOrder) (s : IsSendable layout order) (calls : ℕ) (rest : List ℕ)
      → ((size : ℕ) → alloc.available size ≡ true)
      → (last : ℕ) × (read_order alloc layout moved calls (order_bytes layout order s ++ rest)
          ≡ ok (record { calls = last; pipe = rest; order = some order }))
  unfolding read_order order_bytes
  read_order_lem order s calls rest memory =
      let image = layout.encode order in
      let extra = extra_bytes (configure_of order) s.texts in
      let (n, e) =
        read_all_lem moved fair calls image (extra ++ rest) (omega (arith, s.sized, s.small)) in
      let (last, e') = read_extra_lem order (configure_of order) s.texts n rest refl memory in
      (last, rw (append_assoc image extra rest, rw s.sized at e, s.kept) e')

  -- The pipe is empty and all writers have closed it.
  pub read_order_end :
      (calls : ℕ)
      → 0 < layout.size
      → layout.size < 2 ^ 63
      → read_order alloc layout moved calls []
        ≡ ok (record { calls = calls + 1; pipe = []; order = none })
  unfolding read_order
  read_order_end calls positive small =
      rw (read_all_end moved fair calls layout.size positive small) refl
