-- ===== src/Cache/Tests.antt =====
-- The theorem on src/netmirage-core/netcache.c for a full cache.
use netmirage.Prelude.{ℕ, ◌≡◌, refl, true, false, some, [], ◌∷◌, ◌⊎◌, inl, arith}
use netmirage.Prelude.Text.{Text, codes}
use netmirage.Mem.Checked.{ok}
use netmirage.Cache.{Namespaces, NetCache, find, remove, open_in, open_evicting, nc_open_namespace}
use netmirage.Cache.Bounded.{IsLinked, open_namespace_cached}

-- A context is the name that was opened; every call succeeds.
abbrev net : Namespaces Text
net = record {
  net_switch_namespace = λ context. 0;
  net_open_namespace_in_place = λ reused name create excl. inl name;
}

abbrev full : NetCache Text
full = record {
  max_entries = 2;
  nodes = 7 ∷ 8 ∷ [];
  entries = (7, codes "a") ∷ (8, codes "b") ∷ [];
}

full-IsLinked : IsLinked full
full-IsLinked = record { order = refl; bound = omega arith; some_room = omega arith }

open_namespace_cached_example :
    (out : NetCache Text × (Text ⊎ ℕ)) × (nc_open_namespace net full 9 (codes "c") true false
      ≡ ok out)
    × IsLinked out.0
    × ((context : Text) → out.1 ≡ inl context → find 9 out.0.entries ≡ some context)
open_namespace_cached_example =
    open_namespace_cached net full 9 (codes "c") true false full-IsLinked

oldest_evicted :
    nc_open_namespace net full 9 (codes "c") true false
    ≡ ok (
      record {
        max_entries = 2;
        nodes = 8 ∷ 9 ∷ [];
        entries = (8, codes "b") ∷ (9, codes "c") ∷ [];
      },
      inl (codes "c"),
    )
unfolding nc_open_namespace open_in open_evicting find remove
oldest_evicted = refl
