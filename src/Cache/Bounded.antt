-- ===== src/Cache/Bounded.antt =====
-- The size of the cache, and what it finds after a namespace has been opened.
use netmirage.Prelude.{
  ℕ, ◌≤◌, ◌<◌, ◌≡◌, refl, sym, ap, ◌∙◌, ltb, ◌==◌, Bool, List, [], ◌∷◌, ◌++◌, length, Option, none,
  some, ◌⊎◌, inl, inr, arith, Bool-cases, Option-cases, length-append, ==_iff, ltb→lt, ltb_false→le,
}
use netmirage.Prelude.Text.{Text}
use netmirage.Mem.Checked.{Outcome, ok}
use netmirage.Cache.{
  Namespaces, NetCache, nc_new_cache, find, remove, open_in, open_evicting, nc_open_namespace,
}

same_head : (k l : ℕ) (ks ls : List ℕ) → (k ∷ ks) ≡ (l ∷ ls) → (k ≡ l) × (ks ≡ ls)
same_head k l ks ls e = (cc, cc)

module _ {C : Type 0} where
  abbrev pub keys : List (ℕ × C) → List ℕ
  keys [] = []
  keys (e ∷ es) = e.0 ∷ keys es

  -- The linked list and the hash table hold the same nodes, no more than are allowed.
  pub record IsLinked (cache : NetCache C) : Type 0 where
    pub order : keys cache.entries ≡ cache.nodes
    pub bound : length cache.entries ≤ cache.max_entries
    pub some_room : 0 < cache.max_entries

  new_cache-IsLinked : (affordable : ℕ) → IsLinked (nc_new_cache affordable)
  unfolding nc_new_cache
  new_cache-IsLinked affordable = record {
    order = refl;
    bound = omega arith;
    some_room = ground arith;
  }

  keys-append : (es fs : List (ℕ × C)) → keys (es ++ fs) ≡ keys es ++ keys fs
  keys-append [] fs = refl
  keys-append (e ∷ es) fs = ap (λ ks. e.0 ∷ ks) (keys-append es fs)

  not_opened : (code : ℕ) (context : C) → ◌≡◌ {A = C ⊎ ℕ} (inr code) (inl context) → ⊥
  not_opened code context e = cc

  same_context : (a b : C) → ◌≡◌ {A = C ⊎ ℕ} (inl a) (inl b) → a ≡ b
  same_context a b e = cc

  not_none : (c : C) → some c ≡ none → ⊥
  not_none c e = cc

  find_last :
      (es : List (ℕ × C)) (key : ℕ) (context : C)
      → find key es ≡ none
      → find key (es ++ ((key, context) ∷ [])) ≡ some context
  unfolding find
  find_last [] key context h = ground arith
  find_last ((k, c) ∷ es) key context h = elim (Bool-cases (key == k)) [
    | inl same ↦ absurd (not_none c (rw same at h))
    | inr other ↦ rw other (find_last es key context (rw other at h))
  ]

  module _ (net : Namespaces C) where
    -- What a call leaves: a cache, which finds the namespace if it was opened.
    record Opened (id : ℕ) (m : Outcome (NetCache C × (C ⊎ ℕ))) : Type 0 where
      out : NetCache C × (C ⊎ ℕ)
      ends : m ≡ ok out
      valid : IsLinked out.0
      found : (context : C) → out.1 ≡ inl context → find id out.0.entries ≡ some context

    open_in-Opened :
        (cache : NetCache C) (reused : Option C) (id : ℕ) (name : Text) (create excl : Bool)
        → IsLinked cache
        → length cache.entries < cache.max_entries
        → find id cache.entries ≡ none
        → Opened id (open_in net cache reused id name create excl)
    unfolding open_in
    open_in-Opened cache reused id name create excl v room missing =
        elim (result (net.net_open_namespace_in_place reused name create excl)) [
          | inr (code, failed) ↦ record {
            out = (cache, inr code);
            ends = rw (failed, open_in) refl;
            valid = v;
            found = λ context e. absurd (not_opened code context e);
          }
          | inl (opened, done) ↦ record {
            out = (
              record cache {
                nodes = cache.nodes ++ (id ∷ []);
                entries = cache.entries ++ ((id, opened) ∷ []);
              },
              inl opened,
            );
            ends = rw (done, open_in) refl;
            valid = record {
              order =
                  keys-append cache.entries ((id, opened) ∷ [])
                  ∙ ap (λ ks. ks ++ (id ∷ [])) v.order;
              bound = omega (arith, length-append cache.entries ((id, opened) ∷ []), room);
              some_room = v.some_room;
            };
            found = λ context e.
                find_last cache.entries id opened missing ∙ ap some (same_context opened context e);
          }
        ]
      where
        result : (r : C ⊎ ℕ) → ((c : C) × (r ≡ inl c)) ⊎ ((code : ℕ) × (r ≡ inr code))
        result (inl c) = inl (c, refl)
        result (inr code) = inr (code, refl)

    -- The oldest node is the first entry, and without it the table is smaller.
    remove_first :
        (es : List (ℕ × C)) (oldest : ℕ) (newer : List ℕ)
        → keys es ≡ oldest ∷ newer
        → (keys (remove oldest es) ≡ newer) × (length (remove oldest es) < length es)
    unfolding remove
    remove_first [] oldest newer h = absurd (no_key h)
      where
        no_key : [] ≡ oldest ∷ newer → ⊥
        no_key e = cc
    remove_first ((k, c) ∷ es) oldest newer h =
        let (head, tail) = same_head k oldest (keys es) newer h in
        rw ((==_iff oldest k).1 (sym head)) (tail, omega arith)

    still_missing :
        (es : List (ℕ × C)) (id oldest : ℕ) → find id es ≡ none → find id (remove oldest es) ≡ none
    unfolding find remove
    still_missing [] id oldest h = refl
    still_missing ((k, c) ∷ es) id oldest h = elim (Bool-cases (id == k)) [
      | inl same ↦ absurd (not_none c (rw same at h))
      | inr other ↦ elim (Bool-cases (oldest == k)) [
        | inl gone ↦ rw gone (rw other at h)
        | inr kept ↦ rw (kept, other) (still_missing es id oldest (rw other at h))
      ]
    ]

    no_keys : (es : List (ℕ × C)) → keys es ≡ [] → length es ≡ 0
    no_keys [] h = refl
    no_keys (e ∷ es) h = absurd (clash h)
      where
        clash : (e.0 ∷ keys es) ≡ [] → ⊥
        clash h = cc

    evicting-Opened :
        (cache : NetCache C) (nodes : List ℕ) (id : ℕ) (name : Text) (create excl : Bool)
        → IsLinked cache
        → keys cache.entries ≡ nodes
        → 0 < length cache.entries
        → find id cache.entries ≡ none
        → Opened id (open_evicting net cache nodes id name create excl)
    unfolding open_evicting
    evicting-Opened cache [] id name create excl v same full missing =
        absurd (omega (arith, no_keys cache.entries same))
    evicting-Opened cache (oldest ∷ newer) id name create excl v same full missing =
        let (order, shorter) = remove_first cache.entries oldest newer same in
        open_in-Opened (record cache { nodes = newer; entries = remove oldest (cache.entries) })
          (find oldest (cache.entries)) id name create excl
          (record { order = order; bound = omega (arith, v.bound); some_room = v.some_room })
          (omega (arith, v.bound)) (still_missing cache.entries id oldest missing)

    -- `ncOpenNamespace` on a cache whose list and table hold the same nodes, no more than are
    -- allowed: it ends without a fault, the cache stays so, and if the namespace was opened, the cache
    -- finds its context under the identifier.
    pub open_namespace_cached :
        (cache : NetCache C) (id : ℕ) (name : Text) (create excl : Bool)
        → IsLinked cache
        → (out : NetCache C × (C ⊎ ℕ)) × (nc_open_namespace net cache id name create excl ≡ ok out)
          × IsLinked out.0
          × ((context : C) → out.1 ≡ inl context → find id out.0.entries ≡ some context)
    unfolding nc_open_namespace
    open_namespace_cached cache id name create excl v =
        elim (Option-cases (find id cache.entries)) [
          | inr (context, hit) ↦ elim (Bool-cases (net.net_switch_namespace context == 0)) [
            | inl switched ↦ (
              (cache, inl context),
              rw (hit, switched, nc_open_namespace) refl,
              v,
              λ c e. hit ∙ ap some (same_context context c e),
            )
            | inr failed ↦ (
              (cache, inr (net.net_switch_namespace context)),
              rw (hit, failed, nc_open_namespace) refl,
              v,
              λ c e. absurd (not_opened (net.net_switch_namespace context) c e),
            )
          ]
          | inl missing ↦ elim (Bool-cases (ltb (length cache.entries) cache.max_entries)) [
            | inl room ↦
                let o =
                  open_in-Opened cache none id name create excl v
                    (ltb→lt (length cache.entries) cache.max_entries room) missing in
                (o.out, rw (missing, room, nc_open_namespace) o.ends, o.valid, o.found)
            | inr full ↦
                let o =
                  evicting-Opened cache cache.nodes id name create excl v v.order
                    (omega (
                      arith,
                      v.some_room,
                      ltb_false→le (length cache.entries) cache.max_entries full,
                    ))
                    missing in
                (o.out, rw (missing, full, nc_open_namespace) o.ends, o.valid, o.found)
          ]
        ]
