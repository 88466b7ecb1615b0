-- ===== src/Route/Layout.antt =====
-- The block order of the cells: `rpEdgePtr` as an index into the array.
pub mod Cells
pub mod Fresh
use native.Mathlib.Nat.{mul-add-div_right, mul-add-mod_self_right, div-eq_of_lt, mod-eq_of_lt}
use netmirage.Prelude.{
  ℕ, zero, suc, ◌+◌, ◌-◌, ◌*◌, ◌/◌, ◌%◌, ◌^◌, ◌≤◌, ◌<◌, ◌≡◌, refl, sym, ap, subst, ap₂, ◌∙◌, List,
  length, arith,
}
use netmirage.Route.{RoutePlanner, EdgeInfo, rp_edge_index}

-- A planner that `rpNewPlanner` can have made: whole blocks, of fewer than 2^32 cells.
pub record IsBlocked {W : Type 0} (planner : RoutePlanner W) : Type 0 where
  pub aligned : planner.node_count % 16 ≡ 0
  pub area : planner.node_count * planner.node_count < 2 ^ 32
  pub cells : length planner.edges ≡ planner.node_count * planner.node_count

pub root : (n : ℕ) → n * n < 2 ^ 32 → n < 65536
root n h = grind arith

-- The number of a block, of `b` in a row.
block_lt : (b from to : ℕ) → from < b → to < b → from * b + to < b * b
block_lt b from to h k = grind arith

module _ (b from to : ℕ) where
  -- The index without wrap-around, for `16 * b` nodes.
  abbrev pub plain : ℕ
  plain = 256 * (from / 16 * b + to / 16) + 16 * (from % 16) + to % 16

  pub plain-lt : from < 16 * b → to < 16 * b → plain < 256 * (b * b)
  plain-lt h k = omega (arith, block_lt b (from / 16) (to / 16) (omega arith) (omega arith))

  pub index_plain :
      16 * b * (16 * b) < 2 ^ 32
      → from < 16 * b
      → to < 16 * b
      → rp_edge_index (16 * b) from to ≡ plain
  unfolding rp_edge_index
  index_plain small h k =
      ap (λ (n : ℕ). (from / 16 * n + to / 16 * 256 + from % 16 * 16 + to % 16) % 2 ^ 32) row_size
      ∙ omega (arith, plain-lt h k, small)
    where
      row_size : 16 * b * 16 % 2 ^ 32 ≡ 256 * b
      row_size = omega (arith, root (16 * b) small)

  pub block_of : plain / 256 ≡ from / 16 * b + to / 16
  block_of = omega arith

  pub row_of : from < 16 * b → to < 16 * b → plain / 256 / b ≡ from / 16
  row_of h k =
      ap (λ (n : ℕ). n / b) block_of
      ∙ mul-add-div_right {m = b} (omega arith) (from / 16) (to / 16)
      ∙ omega (arith, div-eq_of_lt {n = to / 16} {m = b} (omega arith))

  pub col_of : from < 16 * b → to < 16 * b → plain / 256 % b ≡ to / 16
  col_of h k =
      ap (λ (n : ℕ). n % b) block_of
      ∙ mul-add-mod_self_right (from / 16) b (to / 16)
      ∙ mod-eq_of_lt {n = to / 16} {m = b} (omega arith)

module _ (b : ℕ) where
  plain_injective :
      (from to from' to' : ℕ)
      → (from < 16 * b) × (to < 16 * b) × (from' < 16 * b) × (to' < 16 * b)
      → plain b from to ≡ plain b from' to'
      → (from ≡ from') × (to ≡ to')
  plain_injective from to from' to' h same = (
    omega (
      arith,
      same,
      sym (row_of b from to h.0 h.1)
          ∙ ap (λ (n : ℕ). n / 256 / b) same
          ∙ row_of b from' to' h.2 h.3,
      block_of b from to,
      block_of b from' to',
    ),
    omega (
      arith,
      same,
      sym (col_of b from to h.0 h.1)
          ∙ ap (λ (n : ℕ). n / 256 % b) same
          ∙ col_of b from' to' h.2 h.3,
    ),
  )

  edge_index_whole :
      (from to from' to' : ℕ)
      → 16 * b * (16 * b) < 2 ^ 32
      → (from < 16 * b) × (to < 16 * b) × (from' < 16 * b) × (to' < 16 * b)
      → (rp_edge_index (16 * b) from to < 16 * b * (16 * b))
        × (rp_edge_index (16 * b) from to ≡ rp_edge_index (16 * b) from' to'
            → (from ≡ from') × (to ≡ to'))
  edge_index_whole from to from' to' area h =
      rw (index_plain b from to area h.0 h.1, index_plain b from' to' area h.2 h.3)
        (omega (arith, plain-lt b from to h.0 h.1), plain_injective from to from' to' h)

-- For whole blocks of fewer than 2^32 cells, the index of a cell is inside the array, and no two
-- cells have the same index.
pub edge_index_injective :
    (node_count from to from' to' : ℕ)
    → node_count % 16 ≡ 0
    → node_count * node_count < 2 ^ 32
    → (from < node_count) × (to < node_count) × (from' < node_count) × (to' < node_count)
    → (rp_edge_index node_count from to < node_count * node_count)
      × (rp_edge_index node_count from to ≡ rp_edge_index node_count from' to'
          → (from ≡ from') × (to ≡ to'))
edge_index_injective node_count from to from' to' aligned area h =
    let whole : node_count ≡ 16 * (node_count / 16) = omega arith in
    subst
      (λ n.
        n * n < 2 ^ 32
        → (from < n) × (to < n) × (from' < n) × (to' < n)
        → (rp_edge_index n from to < n * n)
          × (rp_edge_index n from to ≡ rp_edge_index n from' to' → (from ≡ from') × (to ≡ to')))
      (sym whole) (edge_index_whole (node_count / 16) from to from' to') area h
