-- ===== src/Free/Gone.antt =====
-- pt_free_node gives back the structs of its tree, each once, and nothing else.
use pillowtalk.Prelude.{
  ℕ, zero, suc, ◌+◌, ◌<◌, ◌≡◌, ◌≢◌, refl, some, List, [], ◌∷◌, arith, ◌∙◌, ◌%◌, ◌^◌,
}
use pillowtalk.Libraries.{Bytes, Ptr, Entries, Libraries}
use pillowtalk.Heap.{Heap, write, Obj, map_node, array_node}
use pillowtalk.Heap.Access.{not_null, load-ok, store-ok, free-ok}
use pillowtalk.Heap.Returns.{Returns, done, Returns-and_then, Returns-weaken}
use pillowtalk.Value.{null_value, bool_value, int_value, double_value, text}
use pillowtalk.Tree.{
  Tree, Elems, Pairs, nothing, leaf, array, object, no_elems, elem, no_pairs, pair, root_of, count,
  elem_ptrs, entries_of, addrs, elem_addrs, pair_addrs, Holds, HoldsElems, HoldsPairs,
}
use pillowtalk.Tree.Footprint.{Distinct, Holds-frame, HoldsElems-frame, HoldsPairs-frame}
use pillowtalk.Free.{free_node, free_map_node, free_array_node}
use pillowtalk.Free.Cells.{
  Gone, GoneBut, untouched, free_root, stored, tree-Distinct, tree_kept, rest-Distinct, item_kept,
  item_stays, freed, container_stays, rest_kept, round,
}

module _ ⦃L : Libraries⦄ where
  -- The structs of a tree, which the fuel of pt_free_node has to exceed.
  unfoldable mutual
    pub size : Tree → ℕ
    size nothing = 0
    size (leaf p s) = 1
    size (array p es) = suc (elems_size es)
    size (object p ps) = suc (pairs_size ps)

    pub elems_size : Elems → ℕ
    elems_size no_elems = 0
    elems_size (elem e t es) = suc (size t + elems_size es)

    pub pairs_size : Pairs → ℕ
    pairs_size no_pairs = 0
    pairs_size (pair p k t ps) = suc (size t + pairs_size ps)

  entries-del_head :
      (p : Ptr) (k : Bytes) (es : Entries) (t : L.Table)
      → L.entries t ≡ (k, p) ∷ es
      → L.entries (L.del p t) ≡ es
  entries-del_head p k es t i = rw (L.entries-del p t, i) (ground arith)

  items-remove_head :
      (p : Ptr) (ps : List Ptr) (q : L.Queue) → L.items q ≡ p ∷ ps → L.items (L.remove p q) ≡ ps
  items-remove_head p ps q i = rw (L.items-remove p q, i) (ground arith)

  -- What the loop leaves: the container, empty.
  abbrev EmptyMap : Ptr → List Ptr → Heap Obj → Heap Obj → Type 0
  EmptyMap m xs h h' = ((t : L.Table) × (h'.cell m ≡ some (map_node t))) × GoneBut m xs h h'

  abbrev EmptyArray : Ptr → List Ptr → Heap Obj → Heap Obj → Type 0
  EmptyArray m xs h h' =
      ((q : L.Queue) × (n : ℕ) × (h'.cell m ≡ some (array_node q n))) × GoneBut m xs h h'

  mutual
    unfolding free_node size addrs write

    free_tree :
        (t : Tree) (f : ℕ) (h : Heap Obj)
        → size t < f
        → Holds h.cell t
        → Distinct (addrs t)
        → Returns (λ _ h'. Gone (addrs t) h h') (free_node f (root_of t) h)
    free_tree t zero h s r d = absurd (omega arith)
    free_tree nothing (suc f) h s r d =
        done (record { next = refl; room = refl; cells = λ a. refl })
    free_tree (leaf p null_value) (suc f) h s (ne, e) d =
        rw (not_null ne, load-ok h ne e) (free_root p [] h h ne e (untouched p h))
    free_tree (leaf p (bool_value b)) (suc f) h s (ne, e) d =
        rw (not_null ne, load-ok h ne e) (free_root p [] h h ne e (untouched p h))
    free_tree (leaf p (int_value b)) (suc f) h s (ne, e) d =
        rw (not_null ne, load-ok h ne e) (free_root p [] h h ne e (untouched p h))
    free_tree (leaf p (double_value b)) (suc f) h s (ne, e) d =
        rw (not_null ne, load-ok h ne e) (free_root p [] h h ne e (untouched p h))
    free_tree (leaf p (text b)) (suc f) h s (ne, e) d =
        rw (not_null ne, load-ok h ne e) (free_root p [] h h ne e (untouched p h))
    free_tree (array p es) (suc f) h s (ne, (q, e, i), rs) d =
        rw (not_null ne, load-ok h ne e)
          (Returns-and_then
            (free_elems es f f h p q (count es % 2 ^ 32) ne e i (omega arith) (omega arith) rs d)
            λ _ h' ((_, _, e'), g). free_root p (elem_addrs es) h h' ne e' g)
    free_tree (object p ps) (suc f) h s (ne, (t, e, i), rs) d =
        rw (not_null ne, load-ok h ne e)
          (Returns-and_then (free_pairs ps f f h p t ne e i (omega arith) (omega arith) rs d)
            λ _ h' ((_, e'), g). free_root p (pair_addrs ps) h h' ne e' g)

    free_pairs :
        (ps : Pairs) (f k : ℕ) (h : Heap Obj) (m : Ptr) (tb : L.Table)
        → m ≢ 0
        → h.cell m ≡ some (map_node tb)
        → L.entries tb ≡ entries_of ps
        → pairs_size ps < f
        → pairs_size ps < k
        → HoldsPairs h.cell m ps
        → Distinct (m ∷ pair_addrs ps)
        → Returns (λ _ h'. EmptyMap m (pair_addrs ps) h h') (free_map_node (free_node f) k m h)
    free_pairs ps f zero h m tb ne e i sf sk r d = absurd (omega arith)
    free_pairs no_pairs f (suc k) h m tb ne e i sf sk r d =
        rw (load-ok h ne e, i) (done ((tb, e), untouched m h))
    free_pairs (pair p key t ps) f (suc k) h m tb ne e i sf sk (np, at, rt, rs) d =
        let xs = addrs t in
        let ys = pair_addrs ps in
        let o = map_node (L.del p tb) in
        rw
          (
            load-ok h ne e,
            i,
            store-ok h ne e,
            load-ok (stored m p xs ys h o d) np (item_kept m p xs ys h o d ∙ at),
          )
          (Returns-and_then
            (free_tree t f (stored m p xs ys h o d) (omega arith)
              (Holds-frame t h.cell (stored m p xs ys h o d).cell (tree_kept m p xs ys h o d) rt)
              (tree-Distinct m p xs ys h o d))
            λ _ h2 g. rw (free-ok h2 np (item_stays m p xs ys h o d h2 g ∙ at)) (
              Returns-weaken
                (free_pairs ps f k (freed m p xs ys h o d h2 g) m (L.del p tb) ne
                  (container_stays m p xs ys h o d h2 g)
                  (entries-del_head p key (entries_of ps) tb i) (omega arith) (omega arith)
                  (HoldsPairs-frame ps m h.cell (freed m p xs ys h o d h2 g).cell
                    (rest_kept m p xs ys h o d h2 g) rs)
                  (rest-Distinct m p xs ys h o d))
                λ _ h' (e', b). (e', round m p xs ys h o d h2 g h' b)))

    free_elems :
        (es : Elems) (f k : ℕ) (h : Heap Obj) (m : Ptr) (q : L.Queue) (n : ℕ)
        → m ≢ 0
        → h.cell m ≡ some (array_node q n)
        → L.items q ≡ elem_ptrs es
        → elems_size es < f
        → elems_size es < k
        → HoldsElems h.cell m es
        → Distinct (m ∷ elem_addrs es)
        → Returns (λ _ h'. EmptyArray m (elem_addrs es) h h') (free_array_node (free_node f) k m h)
    free_elems es f zero h m q n ne e i sf sk r d = absurd (omega arith)
    free_elems no_elems f (suc k) h m q n ne e i sf sk r d =
        rw (load-ok h ne e, i) (done ((q, n, e), untouched m h))
    free_elems (elem p t es) f (suc k) h m q n ne e i sf sk (np, at, rt, rs) d =
        let xs = addrs t in
        let ys = elem_addrs es in
        let o = array_node (L.remove p q) n in
        rw
          (
            load-ok h ne e,
            i,
            store-ok h ne e,
            load-ok (stored m p xs ys h o d) np (item_kept m p xs ys h o d ∙ at),
          )
          (Returns-and_then
            (free_tree t f (stored m p xs ys h o d) (omega arith)
              (Holds-frame t h.cell (stored m p xs ys h o d).cell (tree_kept m p xs ys h o d) rt)
              (tree-Distinct m p xs ys h o d))
            λ _ h2 g. rw (free-ok h2 np (item_stays m p xs ys h o d h2 g ∙ at)) (
              Returns-weaken
                (free_elems es f k (freed m p xs ys h o d h2 g) m (L.remove p q) n ne
                  (container_stays m p xs ys h o d h2 g) (items-remove_head p (elem_ptrs es) q i)
                  (omega arith) (omega arith)
                  (HoldsElems-frame es m h.cell (freed m p xs ys h o d h2 g).cell
                    (rest_kept m p xs ys h o d h2 g) rs)
                  (rest-Distinct m p xs ys h o d))
                λ _ h' (e', b). (e', round m p xs ys h o d h2 g h' b)))

  -- With more fuel than there are structs pt_free_node ends without a fault; it frees exactly the
  -- structs of the tree: no leak, no double free.
  pub free_node-Gone :
      (t : Tree) (f : ℕ) (h : Heap Obj)
      → size t < f
      → Holds h.cell t
      → Distinct (addrs t)
      → Returns (λ _ h'. Gone (addrs t) h h') (free_node f (root_of t) h)
  free_node-Gone = free_tree
