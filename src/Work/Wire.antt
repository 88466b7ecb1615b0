-- ===== src/Work/Wire.antt =====
-- Work orders as they go through the pipe to a worker process (src/netmirage-core/work.c).
pub mod Writing
pub mod Reading
pub mod Fifo
use netmirage.Prelude.{
  ℕ, zero, suc, ◌+◌, ◌%◌, ◌^◌, Bool, true, false, not, if◌then◌else◌, List, [], ◌∷◌, ◌++◌, length,
  take, Option, none, some, leb,
}
use netmirage.Mem.Checked.{Outcome, ok, fault, ◌>>=◌, Allocator, ecalloc}
use netmirage.Mem.Flex.{write_bytes}
use netmirage.Work.{Configure, WorkerOrder, worker_configure}
use netmirage.Work.Pipe.{Written, write_all, read_all}

-- The memory image of an order, which the compiler lays out.
pub record Layout : Type 0 where
  pub size : ℕ
  pub encode : WorkerOrder → List ℕ
  pub decode : List ℕ → WorkerOrder

-- `order->code == WorkerConfigure`, with that part of the union.
unfoldable pub configure_of : WorkerOrder → Option Configure
configure_of (worker_configure c) = some c
configure_of _ = none

-- The bytes at a pointer that a `write` of the given length reads.
unfoldable pub at_pointer : List ℕ → ℕ → Outcome (List ℕ)
at_pointer block len = if leb len (length block) then ok (take len block) else fault

module _ (layout : Layout) (moved : ℕ → ℕ → ℕ) where
  -- What follows a write that may have failed.
  abbrev pub if_done : Written → (Written → Outcome Written) → Outcome Written
  if_done w next = if w.done then next w else ok w

  -- A text of the configuration, behind what has been written.
  unfoldable pub write_text : List ℕ → ℕ → Written → Outcome Written
  unfolding at_pointer
  write_text block len w = do bytes ← at_pointer block len; write_all moved w.calls w.pipe bytes

  unfoldable pub write_texts : Configure → Written → Outcome Written
  write_texts c w = do
    first ← write_text c.ns_prefix c.ns_prefix_len w
    second ← if_done first (write_text c.ovs_dir c.ovs_dir_len)
    if_done second (write_text c.ovs_schema c.ovs_schema_len)

  unfoldable pub write_extra : Option Configure → Written → Outcome Written
  write_extra none w = ok w
  write_extra (some c) w = write_texts c w

  unfoldable pub write_order_to_workplace : ℕ → List ℕ → WorkerOrder → Outcome Written
  write_order_to_workplace calls pipe order = do
    w ← write_all moved calls pipe (layout.encode order)
    if_done w (write_extra (configure_of order))

  -- One order after the other, as long as none fails.
  unfoldable pub write_orders : ℕ → List ℕ → List WorkerOrder → Outcome Written
  write_orders calls pipe [] = ok (record { calls = calls; pipe = pipe; done = true })
  write_orders calls pipe (order ∷ orders) = do
    w ← write_order_to_workplace calls pipe order
    if_done w (λ w'. write_orders w'.calls w'.pipe orders)

-- What `readOrder` leaves: the order, unless it returns false.
pub record Read : Type 0 where
  pub calls : ℕ
  pub pipe : List ℕ
  pub order : Option WorkerOrder

pub record ReadText : Type 0 where
  pub calls : ℕ
  pub pipe : List ℕ
  pub block : List ℕ
  pub done : Bool

module _ (alloc : Allocator) (layout : Layout) (moved : ℕ → ℕ → ℕ) where
  -- Fills a block from `ecalloc(len+1, 1)`.
  unfoldable pub read_text : ℕ → List ℕ → List ℕ → ℕ → Outcome ReadText
  read_text calls pipe block len = do
    got ← read_all moved calls pipe len
    filled ← write_bytes block 0 got.bytes
    ok (record { calls = got.calls; pipe = got.pipe; block = filled; done = got.done })

  abbrev failed : ReadText → Outcome Read
  failed t = ok (record { calls = t.calls; pipe = t.pipe; order = none })

  -- Nothing more is read after a read that failed.
  unfoldable pub fill_texts : Configure → List ℕ → List ℕ → List ℕ → ℕ → List ℕ → Outcome Read
  fill_texts c block_1 block_2 block_3 calls pipe = do
    first ← read_text calls pipe block_1 c.ns_prefix_len
    (if not first.done then failed first else (do
      second ← read_text first.calls first.pipe block_2 c.ovs_dir_len
      (if not second.done then failed second else (do
        third ← read_text second.calls second.pipe block_3 c.ovs_schema_len
        (if not third.done
            then failed third
            else ok (record {
              calls = third.calls;
              pipe = third.pipe;
              order = some (
                  worker_configure (record c {
                    ns_prefix = first.block;
                    ovs_dir = second.block;
                    ovs_schema = third.block;
                  }));
            }))))))

  -- The three blocks are there before the first is filled.
  unfoldable pub read_texts : Configure → ℕ → List ℕ → Outcome Read
  read_texts c calls pipe = do
    block_1 ← ecalloc alloc ((c.ns_prefix_len + 1) % 2 ^ 64) 1
    block_2 ← ecalloc alloc ((c.ovs_dir_len + 1) % 2 ^ 64) 1
    block_3 ← ecalloc alloc ((c.ovs_schema_len + 1) % 2 ^ 64) 1
    fill_texts c block_1 block_2 block_3 calls pipe

  unfoldable pub read_extra : Option Configure → WorkerOrder → ℕ → List ℕ → Outcome Read
  read_extra none order calls pipe = ok (record { calls = calls; pipe = pipe; order = some order })
  read_extra (some c) order calls pipe = read_texts c calls pipe

  unfoldable pub read_order : ℕ → List ℕ → Outcome Read
  read_order calls pipe = do
    got ← read_all moved calls pipe layout.size
    let order = layout.decode got.bytes
    (if got.done
        then read_extra (configure_of order) order got.calls got.pipe
        else ok (record { calls = got.calls; pipe = got.pipe; order = none }))

  -- The loop of the child process up to the read that fails; the end of the fuel gives `fault`.
  unfoldable pub read_orders : ℕ → ℕ → List ℕ → Outcome (List WorkerOrder)
  read_orders zero calls pipe = fault
  read_orders (suc fuel) calls pipe = do
    r ← read_order calls pipe
    elim r.order [
      | none ↦ ok []
      | some order ↦ (do orders ← read_orders fuel r.calls r.pipe; ok (order ∷ orders))
    ]
