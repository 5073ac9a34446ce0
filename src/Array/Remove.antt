-- ===== src/Array/Remove.antt =====
-- pt_array_remove takes out the first element that holds a node and releases both.
use pillowtalk.Prelude.{
  ℕ, ◌+◌, ◌-◌, ◌%◌, ◌^◌, ◌<◌, ◌≡◌, ◌≢◌, sym, ap, subst, ◌∙◌, true, false, none, some, ◌∷◌, arith,
}
use pillowtalk.Libraries.{Ptr, Libraries, without}
use pillowtalk.Heap.{Heap, ok, Obj, array_node, array_elem, write}
use pillowtalk.Heap.Access.{IsHeap, not_null, load-ok, store-ok, free-ok, put, put-IsHeap, used-lt}
use pillowtalk.Heap.Returns.{Returns, done, Returns-and_then}
use pillowtalk.Tree.{Elems, array, count, addrs, elem_addrs, Holds}
use pillowtalk.Tree.Footprint.{has, Distinct, Holds-frame}
use pillowtalk.Tree.Edited.{Edited, Gone-IsHeap}
use pillowtalk.Free.{free_node}
use pillowtalk.Free.Gone.{size, free_node-Gone}
use pillowtalk.Free.Cells.{Gone}
use pillowtalk.Array.{array_remove, unlink}
use pillowtalk.Array.Items.{count-drop_node, elem_ptrs-drop_node, drop_node-kept, drop_node-Holds}
use pillowtalk.Array.Nodes.{
  has_node, drop_node, node_elem, node_tree, has-node_tree, has-node_elem, drop_node-has,
  drop_node-Distinct, node_tree-Distinct, root_of-node_tree, node_tree-Holds, elem_found,
  elem_apart,
}
use pillowtalk.Array.Search.{remove_loop-unlink, remove_loop-skip, shorter}

module _ ⦃L : Libraries⦄ where
  module _ (p n : Ptr) (es : Elems) (h : Heap Obj) (w : IsHeap h) (ha : Holds h.cell (array p es))
      (d : Distinct (p ∷ elem_addrs es)) (i : has_node n es ≡ true) where
    -- The array without the element, which is still in the heap.
    abbrev rest : L.Queue
    rest = L.remove (node_elem n es) ha.1.0

    abbrev unlinked : Heap Obj
    unlinked = put h p (some (array_node rest (count es % 2 ^ 32)))

    e_in : has (node_elem n es) (elem_addrs es) ≡ true
    e_in = has-node_elem n es i

    e_out : has (node_elem n es) (addrs (node_tree n es)) ≡ false
    e_out = elem_apart n es d.1 i

    p_out : has p (addrs (node_tree n es)) ≡ false
    p_out = ground (arith, has-node_tree n es p)

    p_ne_e : p ≢ node_elem n es
    p_ne_e x = cc (x, e_in, d.0)

    tree_unlinked : Holds unlinked.cell (node_tree n es)
    unfolding write
    tree_unlinked =
        Holds-frame (node_tree n es) h.cell unlinked.cell (λ a m. ground (arith, p_out))
          (node_tree-Holds n es h.cell p ha.2)

    elem_unlinked : unlinked.cell (node_elem n es) ≡ some (array_elem n p)
    unfolding write
    elem_unlinked = ground (arith, p_ne_e, (elem_found n es h.cell p ha.2 i).1)

    module _ (h2 : Heap Obj) (g : Gone (addrs (node_tree n es)) unlinked h2) where
      elem_stays : h2.cell (node_elem n es) ≡ some (array_elem n p)
      elem_stays = ground (arith, g.cells (node_elem n es), e_out, elem_unlinked)

      abbrev freed : Heap Obj
      freed = put h2 (node_elem n es) none

      array_stays : freed.cell p ≡ some (array_node rest (count es % 2 ^ 32))
      unfolding write
      array_stays = ground (arith, g.cells p, p_out, p_ne_e)

      abbrev removed : Heap Obj
      removed = put freed p (some (array_node rest ((count es % 2 ^ 32 + 2 ^ 32 - 1) % 2 ^ 32)))

      removed_other :
          (a : Ptr)
          → a ≢ p
          → has a (addrs (node_tree n es)) ≡ false
          → a ≢ node_elem n es
          → removed.cell a ≡ h.cell a
      unfolding write
      removed_other a np i1 nq = ground (arith, g.cells a)

      removed_array :
          removed.cell p ≡ some (array_node rest ((count es % 2 ^ 32 + 2 ^ 32 - 1) % 2 ^ 32))
      unfolding write
      removed_array = ground arith

      removed-Holds : Holds removed.cell (array p (drop_node n es))
      removed-Holds = (
        ha.0,
        (
          rest,
          removed_array
              ∙ ap (λ k. some (array_node rest k))
                  (shorter (count es) (count (drop_node n es)) (count-drop_node n es i)),
          L.items-remove (node_elem n es) ha.1.0
              ∙ ap (without (node_elem n es)) ha.1.2
              ∙ sym (elem_ptrs-drop_node n es d.1 i),
        ),
        drop_node-Holds es h.cell removed.cell p n d.1 ha.2 i
            λ a m o nq. removed_other a (λ e. cc (e, m, d.0)) o nq,
      )

      freed_cell :
          (b : Ptr)
          → has b (elem_addrs es) ≡ true
          → has b (elem_addrs (drop_node n es)) ≡ false
          → removed.cell b ≡ none
      unfolding write
      freed_cell b m o = ground (arith, drop_node-kept n es b i, g.cells b, d.0)

      elem_not : (b : Ptr) → has b (p ∷ elem_addrs es) ≡ false → b ≢ node_elem n es
      elem_not b o x = ground (arith, e_in)

      removed-Edited : Edited (array p es) (array p (drop_node n es)) h removed
      unfolding addrs
      removed-Edited = record {
        held = removed-Holds;
        distinct = (ground (arith, drop_node-has n es p), drop_node-Distinct n es d.1);
        is_heap =
            put-IsHeap freed p (some (array_node rest ((count es % 2 ^ 32 + 2 ^ 32 - 1) % 2 ^ 32)))
              (put-IsHeap h2 (node_elem n es) none
                (Gone-IsHeap
                  (put-IsHeap h p (some (array_node rest (count es % 2 ^ 32))) w
                    (used-lt h p w ha.1.1))
                  g)
                (omega (
                  arith,
                  used-lt h (node_elem n es) w (elem_found n es h.cell p ha.2 i).1,
                  g.next,
                )))
              (omega (arith, used-lt h p w ha.1.1, g.next));
        next = g.next;
        room = g.room;
        freed = λ b m o. freed_cell b (ground arith) (ground arith);
        other = λ b o.
            removed_other b (ground arith) (ground (arith, has-node_tree n es b)) (elem_not b o);
      }

    -- unlink with more fuel than the tree at the node has structs.
    pub unlink-drop_node :
        (fuel : ℕ)
        → size (node_tree n es) < fuel
        → Returns
            (λ _ h'. Edited (array p es) (array p (drop_node n es)) h h')
            (unlink fuel p (node_elem n es) n h)
    unfolding unlink
    unlink-drop_node fuel enough =
        let (ne, (q, at, j), rs) = ha in
        let nq = (elem_found n es h.cell p rs i).0 in
        rw (load-ok h ne at, store-ok h ne at)
          (Returns-and_then
            (subst
              (λ x.
                Returns (λ _ h'. Gone (addrs (node_tree n es)) unlinked h')
                  (free_node fuel x unlinked))
              (root_of-node_tree n es i)
              (free_node-Gone (node_tree n es) fuel unlinked enough tree_unlinked
                (node_tree-Distinct n es d.1)))
            λ _ h2 g.
              rw
                (
                  free-ok h2 nq (elem_stays h2 g),
                  load-ok (freed h2 g) ne (array_stays h2 g),
                  store-ok (freed h2 g) ne (array_stays h2 g),
                )
                (done (removed-Edited h2 g)))

  -- Where an element of the array holds the node, with more fuel than the tree at it has structs,
  -- pt_array_remove takes the first such element out, frees it and the tree, counts it off, and
  -- changes no struct outside the array.
  pub array_remove-drop_node :
      (fuel : ℕ) (p n : Ptr) (es : Elems) (h : Heap Obj)
      → IsHeap h
      → Holds h.cell (array p es)
      → Distinct (p ∷ elem_addrs es)
      → has_node n es ≡ true
      → size (node_tree n es) < fuel
      → Returns
          (λ _ h'. Edited (array p es) (array p (drop_node n es)) h h')
          (array_remove fuel p n h)
  unfolding array_remove
  array_remove-drop_node fuel p n es h w ha d i enough =
      let (ne, (q, at, j), rs) = ha in
      rw (not_null ne, load-ok h ne at, j, remove_loop-unlink es fuel p n h rs i)
        (unlink-drop_node p n es h w ha d i fuel enough)

  -- Where none does it changes nothing.
  pub array_remove-skip :
      (fuel : ℕ) (p n : Ptr) (es : Elems) (h : Heap Obj)
      → Holds h.cell (array p es)
      → has_node n es ≡ false
      → array_remove fuel p n h ≡ ok tt h
  unfolding array_remove
  array_remove-skip fuel p n es h (ne, (q, at, j), rs) i =
      rw (not_null ne, load-ok h ne at, j) (remove_loop-skip es fuel p n h rs i)
