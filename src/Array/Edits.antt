-- ===== src/Array/Edits.antt =====
-- Any sequence of edits of an array keeps it well formed, and does to it what it does to the value.
use pillowtalk.Prelude.{
  ℕ, ◌+◌, ◌*◌, ◌^◌, ◌<◌, ◌≤◌, ◌≢◌, sym, ap, ◌∙◌, inl, inr, Bool-cases, List, [], ◌∷◌, ◌++◌, length,
  arith,
}
use pillowtalk.Libraries.{Ptr, Libraries}
use pillowtalk.Heap.{Heap, null, Obj}
use pillowtalk.Heap.Access.{grown}
use pillowtalk.Heap.Returns.{Returns, done, Returns-and_then, Returns-weaken}
use pillowtalk.Value.{Scalar, obj_of, Values, scalar, value}
use pillowtalk.Tree.{Tree, leaf, array, elem, root_of, meaning, meanings, addrs, elem_addrs, Holds}
use pillowtalk.Tree.Footprint.{Distinct, append-Distinct}
use pillowtalk.Tree.Append.{snoc}
use pillowtalk.Tree.New.{NewTree, NewTree-keeps, Holds-below, leaf-NewTree}
use pillowtalk.Tree.Ends.{elems_size-snoc}
use pillowtalk.Tree.Scalars.{new_scalar-ok}
use pillowtalk.Free.Gone.{size}
use pillowtalk.Clone.Kept.{kept_scalar}
use pillowtalk.Array.Read.{nth, array_get-nth}
use pillowtalk.Array.Push.{array_push_back-snoc, array_push_front-cons}
use pillowtalk.Array.Nodes.{has_node, drop_node}
use pillowtalk.Array.Remove.{array_remove-drop_node, array_remove-skip}
use pillowtalk.Array.Places.{
  drop_at, snoc_value, meanings-snoc, has_node-snoc, has_node-drop_node, drop_node-missing,
  drop_node-size, node_tree-size, count-le-size, meanings-drop_node,
}
use pillowtalk.Array.Client.{
  ArrayEdit, push_first, push_last, remove_at, edit_array, run_array_edits, edit_values,
  edited_values, IsIndex, AreIndices, IsArray, IsArray-weaken,
}

module _ ⦃L : Libraries⦄ where
  -- What an edit leaves.
  abbrev AfterEdit : Ptr → Values → ℕ → Heap Obj → Unit {0} → Heap Obj → Type 0
  AfterEdit p vs n h _ h' = IsArray p vs n h' × (h.room ≤ h'.room + 2)

  -- A new scalar node, which is not in the array yet.
  module _ (p : Ptr) (vs : Values) (n : ℕ) (h : Heap Obj) (m : IsArray p vs n h) (s : Scalar)
      (room : 2 ≤ h.room) where
    abbrev node : Tree
    node = leaf h.next (kept_scalar s)

    abbrev with_node : Heap Obj
    with_node = grown h (obj_of (kept_scalar s))

    node-NewTree : NewTree h node 1 with_node
    node-NewTree = leaf-NewTree h (kept_scalar s) m.is_heap (omega arith)

    array_held : Holds with_node.cell (array p m.elems)
    array_held = NewTree-keeps h with_node node 1 (array p m.elems) m.is_heap node-NewTree m.held

    apart : Distinct (p ∷ (elem_addrs m.elems ++ addrs node))
    unfolding addrs
    apart =
        append-Distinct (p ∷ elem_addrs m.elems) (addrs node) m.distinct node-NewTree.distinct
          λ b i.
            ground
              (arith, node-NewTree.fresh b, Holds-below (array p m.elems) h b m.is_heap m.held i)

    node_not_null : root_of node ≢ null
    node_not_null = omega (arith, m.is_heap.next_pos)

    push_last-IsArray :
        (fuel : ℕ)
        → Returns
            (AfterEdit p (edit_values (push_last s) vs) (n + 2) h)
            (edit_array fuel p (push_last s) h)
    unfolding edit_array size addrs meaning
    push_last-IsArray fuel = rw (new_scalar-ok s h (omega arith)) (
        Returns-weaken
          (array_push_back-snoc p m.elems node with_node node-NewTree.is_heap (omega arith)
            array_held node-NewTree.held apart)
          λ _ h' x. (
            record {
              elems = snoc m.elems with_node.next node;
              held = x.held;
              distinct = x.distinct;
              whole = has_node-snoc null m.elems with_node.next node m.whole node_not_null;
              is_heap = x.is_heap;
              means =
                  meanings-snoc m.elems with_node.next node
                  ∙ ap (λ ws. snoc_value ws (scalar (kept_scalar s))) m.means;
              small = omega (arith, elems_size-snoc m.elems with_node.next node, m.small);
            },
            omega (arith, x.room),
          ))

    push_first-IsArray :
        (fuel : ℕ)
        → Returns
            (AfterEdit p (edit_values (push_first s) vs) (n + 2) h)
            (edit_array fuel p (push_first s) h)
    unfolding edit_array size addrs meaning
    push_first-IsArray fuel = rw (new_scalar-ok s h (omega arith)) (
        Returns-weaken
          (array_push_front-cons p m.elems node with_node node-NewTree.is_heap (omega arith)
            array_held node-NewTree.held apart)
          λ _ h' x. (
            record {
              elems = elem with_node.next node m.elems;
              held = x.held;
              distinct = x.distinct;
              whole = ground (arith, m.whole, node_not_null);
              is_heap = x.is_heap;
              means = ap (value (scalar (kept_scalar s))) m.means;
              small = omega (arith, m.small);
            },
            omega (arith, x.room),
          ))

  remove_at-IsArray :
      (fuel : ℕ) (p : Ptr) (i : ℕ) (vs : Values) (n : ℕ) (h : Heap Obj)
      → IsArray p vs n h
      → i < 2 ^ 32
      → n < fuel
      → n + 2 ≤ 2 ^ 32
      → Returns
          (AfterEdit p (edit_values (remove_at i) vs) (n + 2) h)
          (edit_array fuel p (remove_at i) h)
  unfolding edit_array addrs
  remove_at-IsArray fuel p i vs n h m index enough few =
      let k = root_of (nth m.elems i) in
      let means' = meanings-drop_node m.elems i m.distinct.1 m.whole ∙ ap (drop_at i) m.means in
      rw
        (array_get-nth p m.elems h i m.held (omega (arith, count-le-size m.elems m.whole, m.small))
          index)
        (elim (Bool-cases (has_node k m.elems)) [
          | inl there ↦
              Returns-weaken
                (array_remove-drop_node fuel p k m.elems h m.is_heap m.held m.distinct there
                  (omega (arith, node_tree-size k m.elems, m.small)))
                λ _ h' x. (
                  record {
                    elems = drop_node k m.elems;
                    held = x.held;
                    distinct = x.distinct;
                    whole = has_node-drop_node null k m.elems m.whole;
                    is_heap = x.is_heap;
                    means = means';
                    small = omega (arith, drop_node-size k m.elems, m.small);
                  },
                  omega (arith, x.room),
                )
          | inr absent ↦ rw (array_remove-skip fuel p k m.elems h m.held absent) (
              done (
                record {
                  elems = m.elems;
                  held = m.held;
                  distinct = m.distinct;
                  whole = m.whole;
                  is_heap = m.is_heap;
                  means = ap meanings (sym (drop_node-missing k m.elems absent)) ∙ means';
                  small = omega (arith, m.small);
                },
                omega arith,
              ))
        ])

  edit_array-IsArray :
      (fuel : ℕ) (p : Ptr) (e : ArrayEdit) (vs : Values) (n : ℕ) (h : Heap Obj)
      → IsArray p vs n h
      → IsIndex e
      → n < fuel
      → n + 2 ≤ 2 ^ 32
      → 2 ≤ h.room
      → Returns (AfterEdit p (edit_values e vs) (n + 2) h) (edit_array fuel p e h)
  edit_array-IsArray fuel p (push_first s) vs n h m index enough few room =
      push_first-IsArray p vs n h m s room fuel
  edit_array-IsArray fuel p (push_last s) vs n h m index enough few room =
      push_last-IsArray p vs n h m s room fuel
  edit_array-IsArray fuel p (remove_at i) vs n h m index enough few room =
      remove_at-IsArray fuel p i vs n h m index enough few

  -- From an array without a NULL in it, with two structs of memory for each edit, fuel for what may be
  -- freed and no more than 2^32 structs, every sequence of edits with indices of type unsigned int
  -- ends without a fault at such an array, which stands for the edited sequence.
  pub run_array_edits-IsArray :
      (es : List ArrayEdit) (fuel : ℕ) (p : Ptr) (vs : Values) (n : ℕ) (h : Heap Obj)
      → IsArray p vs n h
      → AreIndices es
      → n + 2 * length es < fuel
      → n + 2 * length es ≤ 2 ^ 32
      → 2 * length es ≤ h.room
      → Returns
          (λ _ h'. IsArray p (edited_values es vs) (n + 2 * length es) h')
          (run_array_edits fuel p es h)
  unfolding run_array_edits
  run_array_edits-IsArray [] fuel p vs n h m index enough few room =
      done (IsArray-weaken (omega arith) m)
  run_array_edits-IsArray (e ∷ es) fuel p vs n h m (index, later) enough few room =
      Returns-and_then
        (edit_array-IsArray fuel p e vs n h m index (omega arith) (omega arith) (omega arith))
        λ _ h1 (m1, r).
          Returns-weaken
            (run_array_edits-IsArray es fuel p (edit_values e vs) (n + 2) h1 m1 later (omega arith)
              (omega arith) (omega arith))
            λ _ h' m2. IsArray-weaken (omega arith) m2
