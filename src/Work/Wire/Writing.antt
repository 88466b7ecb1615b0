-- ===== src/Work/Wire/Writing.antt =====
-- The bytes that are written for an order.
use netmirage.Prelude.{
  ℕ, zero, suc, ◌+◌, ◌^◌, ◌<◌, ◌≡◌, refl, ap, ap₂, sym, ◌∙◌, true, List, [], ◌∷◌, ◌++◌, length,
  take, drop, replicate, Option, none, some, inl, inr, ◌⊎◌, ◌≢◌, arith, length-append, le→leb,
  take-append, take-all,
}
use mathlib.Core.List.{append_assoc, append-nil}
use netmirage.Mem.Checked.{ok}
use netmirage.Work.{
  Configure, WorkerOrder, worker_ping, worker_terminate, worker_destroy_hosts, worker_configure,
  worker_get_edge_remote_mac, worker_get_edge_local_mac, worker_get_interface_mtu,
  worker_add_edge_interface, worker_mtu_supported, worker_add_root, worker_add_host,
  worker_set_self_link, worker_ensure_system_scaling, worker_add_link, worker_add_internal_routes,
  worker_add_client_routes, worker_add_edge_routes,
}
use netmirage.Work.Pipe.{Written, IsFair}
use netmirage.Work.Pipe.Wholly.{write_all_fair}
use netmirage.Work.Wire.{
  Layout, configure_of, at_pointer, write_text, write_texts, write_extra, write_order_to_workplace,
}

-- A block that holds a text of the given length and its NUL.
pub record IsText (block : List ℕ) (len : ℕ) : Type 0 where
  pub text : List ℕ
  pub block_eq : block ≡ text ++ 0 ∷ []
  pub len_eq : len ≡ length text
  pub small : length text + 1 < 2 ^ 63

pub record HasTexts (c : Configure) : Type 0 where
  pub ns_prefix_text : IsText c.ns_prefix c.ns_prefix_len
  pub ovs_dir_text : IsText c.ovs_dir c.ovs_dir_len
  pub ovs_schema_text : IsText c.ovs_schema c.ovs_schema_len

-- The pointers of one process mean nothing to another.
abbrev pub without_texts : WorkerOrder → WorkerOrder
without_texts (worker_configure c) =
    worker_configure (record c { ns_prefix = []; ovs_dir = []; ovs_schema = [] })
without_texts order = order

-- An order that the compiler's layout keeps, but for what its pointers point to.
pub record IsSendable (layout : Layout) (order : WorkerOrder) : Type 0 where
  pub sized : length (layout.encode order) ≡ layout.size
  pub small : layout.size < 2 ^ 63
  pub kept : layout.decode (layout.encode order) ≡ without_texts order
  pub texts : (c : Configure) → configure_of order ≡ some c → HasTexts c

pub configured :
    (order : WorkerOrder)
    → ((configure_of order ≡ none) × (without_texts order ≡ order))
      ⊎ ((c : Configure) × (order ≡ worker_configure c))
unfolding configure_of
configured (worker_configure c) = inr (c, refl)
configured worker_ping = inl (refl, refl)
configured worker_terminate = inl (refl, refl)
configured worker_destroy_hosts = inl (refl, refl)
configured (worker_get_edge_remote_mac n a) = inl (refl, refl)
configured (worker_get_edge_local_mac n) = inl (refl, refl)
configured (worker_get_interface_mtu n) = inl (refl, refl)
configured (worker_add_edge_interface n) = inl (refl, refl)
configured (worker_mtu_supported n) = inl (refl, refl)
configured (worker_add_root r) = inl (refl, refl)
configured (worker_add_host h) = inl (refl, refl)
configured (worker_set_self_link n l) = inl (refl, refl)
configured (worker_ensure_system_scaling s) = inl (refl, refl)
configured (worker_add_link l) = inl (refl, refl)
configured (worker_add_internal_routes r) = inl (refl, refl)
configured (worker_add_client_routes r) = inl (refl, refl)
configured (worker_add_edge_routes r) = inl (refl, refl)

pub text_taken : (block : List ℕ) (len : ℕ) (t : IsText block len) → take len block ≡ t.text
text_taken block len t =
    rw (t.block_eq, t.len_eq)
      (take-append (length t.text) t.text (0 ∷ []) (omega arith)
        ∙ take-all (length t.text) t.text (omega arith))

unfoldable pub texts_of : (c : Configure) → HasTexts c → List ℕ
texts_of c t = t.ns_prefix_text.text ++ (t.ovs_dir_text.text ++ t.ovs_schema_text.text)

unfoldable pub extra_bytes :
    (o : Option Configure) → ((c : Configure) → o ≡ some c → HasTexts c) → List ℕ
extra_bytes none texts = []
extra_bytes (some c) texts = texts_of c (texts c refl)

-- What is written for an order.
unfoldable pub order_bytes :
    (layout : Layout) (order : WorkerOrder) → IsSendable layout order → List ℕ
order_bytes layout order s = layout.encode order ++ extra_bytes (configure_of order) (s.texts)

pub drop-replicate : (n : ℕ) → drop {A = ℕ} n (replicate (suc n) 0) ≡ 0 ∷ []
drop-replicate zero = refl
drop-replicate (suc n) = drop-replicate n

pub zeros_after : (n : ℕ) → drop {A = ℕ} (0 + n) (replicate (n + 1) 0) ≡ 0 ∷ []
zeros_after n =
    let zeros : ℕ → List ℕ = λ m. replicate m 0 in
    let here : 0 + n ≡ n = omega arith in
    let there : n + 1 ≡ suc n = omega arith in
    ap₂ (λ k m. drop k (zeros m)) here there ∙ drop-replicate n

pub some-none : (c : Configure) → some c ≢ none
some-none c e = cc

module _ (layout : Layout) (moved : ℕ → ℕ → ℕ) (fair : IsFair moved) where
  pub write_text_lem :
      (block : List ℕ) (len : ℕ) (t : IsText block len) (w : Written)
      → (last : ℕ) × (write_text layout moved block len w
          ≡ ok (record { calls = last; pipe = w.pipe ++ t.text; done = true }))
  unfolding write_text at_pointer
  write_text_lem block len t w =
      let (last, e) = write_all_fair moved fair w.calls w.pipe t.text (omega (arith, t.small)) in
      (
        last,
        rw
            (
              le→leb len (length block)
                  (omega (arith, t.len_eq, ap length t.block_eq, length-append t.text (0 ∷ []))),
              text_taken block len t,
            )
            e,
      )

  pub write_texts_lem :
      (c : Configure) (t : HasTexts c) (w : Written)
      → (last : ℕ) × (write_texts layout moved c w
          ≡ ok (record { calls = last; pipe = w.pipe ++ texts_of c t; done = true }))
  unfolding write_texts texts_of
  write_texts_lem c t w =
      let text_1 = t.ns_prefix_text.text in
      let text_2 = t.ovs_dir_text.text in
      let text_3 = t.ovs_schema_text.text in
      let (n₁, e₁) = write_text_lem c.ns_prefix c.ns_prefix_len t.ns_prefix_text w in
      let w₁ : Written = record { calls = n₁; pipe = w.pipe ++ text_1; done = true } in
      let (n₂, e₂) = write_text_lem c.ovs_dir c.ovs_dir_len t.ovs_dir_text w₁ in
      let w₂ : Written = record { calls = n₂; pipe = w₁.pipe ++ text_2; done = true } in
      let (n₃, e₃) = write_text_lem c.ovs_schema c.ovs_schema_len t.ovs_schema_text w₂ in
      (
        n₃,
        rw (e₁, e₂) e₃
            ∙ ap (λ l. ok (record { calls = n₃; pipe = l; done = true }))
                (append_assoc (w.pipe ++ text_1) text_2 text_3
                  ∙ append_assoc w.pipe text_1 (text_2 ++ text_3)),
      )

  pub write_extra_lem :
      (o : Option Configure) (texts : (c : Configure) → o ≡ some c → HasTexts c) (calls : ℕ)
      (pipe : List ℕ)
      → (last : ℕ) × (write_extra layout moved o
            (record { calls = calls; pipe = pipe; done = true })
          ≡ ok (record { calls = last; pipe = pipe ++ extra_bytes o texts; done = true }))
  unfolding write_extra extra_bytes
  write_extra_lem none texts calls pipe = (
    calls,
    ap (λ l. ok (record { calls = calls; pipe = l; done = true })) (sym (append-nil pipe)),
  )
  write_extra_lem (some c) texts calls pipe =
      write_texts_lem c (texts c refl) (record { calls = calls; pipe = pipe; done = true })

  -- `writeOrderToWorkplace` adds the bytes of the order to what is in the pipe.
  pub write_order_lem :
      (order : WorkerOrder) (s : IsSendable layout order) (calls : ℕ) (pipe : List ℕ)
      → (last : ℕ) × (write_order_to_workplace layout moved calls pipe order
          ≡ ok (record { calls = last; pipe = pipe ++ order_bytes layout order s; done = true }))
  unfolding write_order_to_workplace order_bytes
  write_order_lem order s calls pipe =
      let image = layout.encode order in
      let (n, e) = write_all_fair moved fair calls pipe image (omega (arith, s.sized, s.small)) in
      let (last, e') = write_extra_lem (configure_of order) s.texts n (pipe ++ image) in
      (
        last,
        rw e e'
            ∙ ap (λ l. ok (record { calls = last; pipe = l; done = true }))
                (append_assoc pipe image (extra_bytes (configure_of order) s.texts)),
      )
