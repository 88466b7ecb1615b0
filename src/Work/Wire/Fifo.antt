-- ===== src/Work/Wire/Fifo.antt =====
-- What a worker process reads of what the main process writes.
use netmirage.Prelude.{
  ℕ, suc, ◌^◌, ◌<◌, ◌≡◌, refl, ap, sym, ◌∙◌, true, List, [], ◌∷◌, ◌++◌, length, All,
}
use mathlib.Core.List.{append_assoc, append-nil}
use netmirage.Mem.Checked.{ok, Allocator}
use netmirage.Work.{WorkerOrder}
use netmirage.Work.Pipe.{Written, IsFair}
use netmirage.Work.Wire.{Layout, write_orders, read_orders}
use netmirage.Work.Wire.Writing.{IsSendable, order_bytes, write_order_lem}
use netmirage.Work.Wire.Reading.{read_order_lem, read_order_end}

all_bytes : (layout : Layout) (orders : List WorkerOrder) → All (IsSendable layout) orders → List ℕ
all_bytes layout [] sendable = []
all_bytes layout (o ∷ os) sendable =
    order_bytes layout o sendable.0 ++ all_bytes layout os sendable.1

module _ (alloc : Allocator) (layout : Layout) (written moved : ℕ → ℕ → ℕ)
    (fair_write : IsFair written) (fair : IsFair moved) where
  write_orders_lem :
      (orders : List WorkerOrder) (s : All (IsSendable layout) orders) (calls : ℕ) (pipe : List ℕ)
      → (last : ℕ) × (write_orders layout written calls pipe orders
          ≡ ok (record { calls = last; pipe = pipe ++ all_bytes layout orders s; done = true }))
  unfolding write_orders all_bytes
  write_orders_lem [] s calls pipe = (
    calls,
    ap (λ l. ok (record { calls = calls; pipe = l; done = true })) (sym (append-nil pipe)),
  )
  write_orders_lem (o ∷ os) s calls pipe =
      let (n, e) = write_order_lem layout written fair_write o s.0 calls pipe in
      let (last, e') = write_orders_lem os s.1 n (pipe ++ order_bytes layout o s.0) in
      (
        last,
        rw e e'
            ∙ ap (λ l. ok (record { calls = last; pipe = l; done = true }))
                (append_assoc pipe (order_bytes layout o s.0) (all_bytes layout os s.1)),
      )

  read_orders_lem :
      (orders : List WorkerOrder) (s : All (IsSendable layout) orders) (calls : ℕ)
      → 0 < layout.size
      → layout.size < 2 ^ 63
      → ((size : ℕ) → alloc.available size ≡ true)
      → read_orders alloc layout moved (suc (length orders)) calls (all_bytes layout orders s)
        ≡ ok orders
  unfolding read_orders all_bytes
  read_orders_lem [] s calls positive small memory =
      rw (read_order_end alloc layout moved fair calls positive small) refl
  read_orders_lem (o ∷ os) s calls positive small memory =
      let (n, e) =
        read_order_lem alloc layout moved fair o s.0 calls (all_bytes layout os s.1) memory in
      rw (e, read_orders_lem os s.1 n positive small memory) refl

  -- For orders that the compiler's layout keeps, of a size from 1 to 2^63 - 1, with texts that end in a
  -- NUL behind the length given for them, and if memory does not run out: on fair pipes, whatever the
  -- sizes of the single writes and reads, all orders are written, and the worker process reads the
  -- same orders in the same order until the pipe is closed.
  pub pipe_fifo :
      (orders : List WorkerOrder)
      → All (IsSendable layout) orders
      → 0 < layout.size
      → layout.size < 2 ^ 63
      → ((size : ℕ) → alloc.available size ≡ true)
      → (w : Written) × (write_orders layout written 0 [] orders ≡ ok w)
        × (w.done ≡ true)
        × (read_orders alloc layout moved (suc (length orders)) 0 w.pipe ≡ ok orders)
  pipe_fifo orders s positive small memory =
      let (last, e) = write_orders_lem orders s 0 [] in
      (_, e, refl, read_orders_lem orders s 0 positive small memory)
