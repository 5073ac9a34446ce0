-- ===== src/Map/Lookup.antt =====
-- pt_map_get reads the finite map that a map node stands for.
use pillowtalk.Prelude.{
  ◌≡◌, ◌≢◌, refl, ◌∙◌, true, false, inl, inr, Option-cases, Bool-cases, subst, Option, some, [],
  ◌∷◌, same_bytes, same_bytes_iff, arith, if◌then◌else◌,
}
use pillowtalk.Libraries.{Bytes, Ptr, Entries, Libraries, holds, has_key}
use pillowtalk.Heap.{Heap, ok, null, Obj, key_value}
use pillowtalk.Heap.Access.{not_null, load-ok}
use pillowtalk.Node.{c_str}
use pillowtalk.Tree.{
  Tree, Pairs, nothing, object, no_pairs, pair, root_of, entries_of, Holds, HoldsPairs,
}
use pillowtalk.Map.{map_get}

module _ ⦃L : Libraries⦄ where
  -- The tree at a key, and nothing where the key is missing.
  abbrev pub get_tree : Bytes → Pairs → Tree
  get_tree k no_pairs = nothing
  get_tree k (pair p j t ps) = if same_bytes j k then t else get_tree k ps

  abbrev pub UniqueKeys : Pairs → Type 0
  UniqueKeys no_pairs = Unit
  UniqueKeys (pair p k t ps) = (has_key k (entries_of ps) ≡ false) × UniqueKeys ps

  pub has_key_of_holds :
      (k : Bytes) (p : Ptr) (es : Entries) → holds k p es ≡ true → has_key k es ≡ true
  has_key_of_holds k p [] h = h
  has_key_of_holds k p ((j, q) ∷ es) h = ground (arith, has_key_of_holds k p es)

  -- The pair that the table finds holds the tree at the key.
  pub pair_found :
      (ps : Pairs) (c : Ptr → Option Obj) (m : Ptr) (k : Bytes) (q : Ptr)
      → UniqueKeys ps
      → HoldsPairs c m ps
      → holds k q (entries_of ps) ≡ true
      → (q ≢ null) × (c q ≡ some (key_value k (root_of (get_tree k ps)) m))
  pair_found no_pairs c m k q u r h = ground arith
  pair_found (pair p j t ps) c m k q (out, u) (ne, at, rt, rs) h =
      elim (Bool-cases (same_bytes j k)) [
        | inl same ↦
            let eq = (same_bytes_iff j k).0 same in
            let qp : p ≡ q = ground (arith, has_key_of_holds k q (entries_of ps)) in
            rw same ((λ e. ne (qp ∙ e)), cc)
        | inr other ↦ rw other (pair_found ps c m k q u rs (ground arith))
      ]

  pub nothing_found :
      (ps : Pairs) (k : Bytes) → has_key k (entries_of ps) ≡ false → get_tree k ps ≡ nothing
  nothing_found no_pairs k h = refl
  nothing_found (pair p j t ps) k h = ground (arith, nothing_found ps k)

  -- In a map with distinct keys the node at the key is returned, and NULL where there is none.
  pub map_get-get_tree :
      (p : Ptr) (ps : Pairs) (h : Heap Obj) (key : Bytes)
      → Holds h.cell (object p ps)
      → UniqueKeys ps
      → map_get p (some key) h ≡ ok (root_of (get_tree (c_str key) ps)) h
  unfolding map_get
  map_get-get_tree p ps h key (ne, (t, e, i), rs) u = elim (Option-cases (L.find (c_str key) t)) [
    | inl missing ↦ rw (
      not_null ne,
      load-ok h ne e,
      missing,
      nothing_found ps (c_str key) (
          subst (λ es. has_key (c_str key) es ≡ false) i
            (L.has_key_of_find_none (c_str key) t missing)),
    )
    | inr (q, found) ↦
        let (nq, at) =
          pair_found ps h.cell p (c_str key) q u rs (
            subst (λ es. holds (c_str key) q es ≡ true) i
              (L.holds_of_find (c_str key) t q found)) in
        rw (not_null ne, load-ok h ne e, found, load-ok h nq at)
  ]
