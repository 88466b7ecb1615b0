-- ===== src/Cache.antt =====
-- src/netmirage-core/netcache.c, the cache of open network namespaces. `NetContext` and the functions of
-- net.c on it are an interface. The hash table has one entry for a key, and the linked list, from
-- `oldest` by way of `newer` to `newest`, is the list of the keys of its nodes.
pub mod Bounded
mod Tests
use netmirage.Prelude.{
  ℕ, zero, suc, ◌<◌, ltb, ◌==◌, Bool, true, false, not, if◌then◌else◌, List, [], ◌∷◌, ◌++◌, length,
  Option, none, some, ◌⊎◌, inl, inr,
}
use netmirage.Prelude.Text.{Text}
use netmirage.Mem.Checked.{Outcome, ok, fault}

-- `netSwitchNamespace`, and `netOpenNamespaceInPlace` on a new node or on an invalidated context: a
-- context or an error code, which is not 0.
pub record Namespaces (NetContext : Type 0) : Type 0 where
  pub net_switch_namespace : NetContext → ℕ
  pub net_open_namespace_in_place : Option NetContext → Text → Bool → Bool → NetContext ⊎ ℕ

pub record NetCache (NetContext : Type 0) : Type 0 where
  pub max_entries : ℕ
  pub nodes : List ℕ
  pub entries : List (ℕ × NetContext)

abbrev pub min_entries : ℕ
min_entries = 100

module _ {C : Type 0} where
  -- `affordable` is the number of entries that the memory allows, from a division of `double`s.
  unfoldable pub nc_new_cache : ℕ → NetCache C
  nc_new_cache affordable = record {
    max_entries = if ltb affordable min_entries then min_entries else affordable;
    nodes = [];
    entries = [];
  }

  unfoldable pub find : ℕ → List (ℕ × C) → Option C
  find key [] = none
  find key ((k, context) ∷ entries) =
      let rest = find key entries in if key == k then some context else rest

  unfoldable pub remove : ℕ → List (ℕ × C) → List (ℕ × C)
  remove key [] = []
  remove key ((k, context) ∷ entries) =
      let rest = remove key entries in if key == k then entries else (k, context) ∷ rest

  module _ (net : Namespaces C) where
    -- The namespace is opened in a node that is not in the cache, and the node becomes the newest.
    unfoldable pub open_in :
        NetCache C → Option C → ℕ → Text → Bool → Bool → Outcome (NetCache C × (C ⊎ ℕ))
    open_in cache reused key name create excl =
        elim (net.net_open_namespace_in_place reused name create excl) [
          | inr code ↦ ok (cache, inr code)
          | inl context ↦ ok (
            record cache {
              nodes = cache.nodes ++ (key ∷ []);
              entries = cache.entries ++ ((key, context) ∷ []);
            },
            inl context,
          )
        ]

    -- A full cache gives up its oldest node; `oldest` must not be NULL.
    unfoldable pub open_evicting :
        NetCache C → List ℕ → ℕ → Text → Bool → Bool → Outcome (NetCache C × (C ⊎ ℕ))
    open_evicting cache [] key name create excl = fault
    open_evicting cache (oldest ∷ newer) key name create excl =
        open_in (record cache { nodes = newer; entries = remove oldest (cache.entries) })
          (find oldest (cache.entries)) key name create excl

    -- The key of an identifier is the identifier (`g_int_hash`).
    unfoldable pub nc_open_namespace :
        NetCache C → ℕ → Text → Bool → Bool → Outcome (NetCache C × (C ⊎ ℕ))
    nc_open_namespace cache id name create excl =
        let room = open_in cache none id name create excl in
        let full = open_evicting cache cache.nodes id name create excl in
        let missing = if ltb (length cache.entries) cache.max_entries then room else full in
        elim (find id cache.entries) [
          | none ↦ missing
          | some context ↦
              if net.net_switch_namespace context == 0
              then ok (cache, inl context)
              else ok (cache, inr (net.net_switch_namespace context))
        ]
