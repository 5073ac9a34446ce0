-- ===== src/Clone/Copied.antt =====
-- pt_clone makes a tree of new structs with the same value.

use pillowtalk.Prelude.{ℕ, zero, suc, ◌+◌, ◌<◌, ◌≤◌, refl, sym, ap, inl, inr, ◌∙◌, arith}
use pillowtalk.Libraries.{Ptr, Libraries}
use pillowtalk.Heap.{Heap, Obj, map_node, array_node}
use pillowtalk.Heap.Access.{IsHeap, not_null, load-ok, alloc-ok, grown}
use pillowtalk.Heap.Returns.{Returns, done, Returns-and_then, Returns-weaken}
use pillowtalk.Node.{c_str, map_new, array_new}
use pillowtalk.Value.{sequence, mapping, value, field}
use pillowtalk.Tree.{
  Tree, Elems, Pairs, nothing, leaf, array, object, no_elems, elem, no_pairs, pair, root_of,
  entries_of, elem_ptrs, meaning, meanings, fields_of, Holds, HoldsElems, HoldsPairs,
}
use pillowtalk.Tree.Append.{snoc}
use pillowtalk.Tree.LastPair.{snoc_pair, entries_of-snoc_pair}
use pillowtalk.Tree.Meaning.{
  append_values, append_fields, append-no_values, append-no_fields, meanings-snoc, fields_of-snoc,
}
use pillowtalk.Tree.New.{
  NewTree, NewTree-weaken, NewTree-and_newer, nothing-NewTree, array-NewTree, object-NewTree,
  NewTree-keeps_elems, NewTree-keeps_pairs,
}
use pillowtalk.Tree.Grown.{push-NewTree, insert-NewTree}
use pillowtalk.Free.Gone.{size, elems_size, pairs_size}
use pillowtalk.Json.Tokens.{depth, elems_depth, pairs_depth}
use pillowtalk.Clone.{clone, clone_elems, clone_pairs}
use pillowtalk.Clone.Kept.{
  kept, kept_values, kept_fields, DistinctKeys, DistinctKeysAll, DistinctFields, NoneOf,
  empty-NoneOf, snoc-NoneOf,
}
use pillowtalk.Clone.Steps.{
  Copied, CopiedElems, CopiedPairs, leaf_Copied, skip_null, addrs_missing, missing-cases,
  root_missing, root_present, keep_field-present,
}

module _ ⦃L : Libraries⦄ where
  mutual
    unfolding clone kept meaning size depth map_new array_new

    copy_tree :
        (t : Tree) (f : ℕ) (h : Heap Obj)
        → depth t < f
        → IsHeap h
        → size t ≤ h.room
        → Holds h.cell t
        → DistinctKeys (meaning t)
        → Returns (Copied t h) (clone f (root_of t) h)
    copy_tree t zero h d w r held u = absurd (omega arith)
    copy_tree nothing (suc f) h d w r held u =
        done (record { copy = nothing; root_is = refl; new = nothing-NewTree h w; means = refl })
    copy_tree (leaf p s) (suc f) h d w r held u = leaf_Copied p s f h w (omega arith) held
    copy_tree (array p es) (suc f) h d w r (ne, (q, e, i), rs) u =
        rw (not_null ne, load-ok h ne e, alloc-ok h (array_node L.init 0) (omega arith), i)
          (Returns-weaken
            (copy_elems es f h (grown h (array_node L.init 0)) p h.next no_elems 1 (omega arith) w
              (array-NewTree h w (omega arith)) (omega arith) rs u)
            λ root h' c. record {
              copy = array h.next c.all;
              root_is = sym c.root_is;
              new = NewTree-weaken (omega arith) c.new;
              means = ap sequence c.means;
            })
    copy_tree (object p ps) (suc f) h d w r (ne, (tb, e, i), rs) u =
        rw (not_null ne, load-ok h ne e, alloc-ok h (map_node L.empty) (omega arith), i)
          (Returns-weaken
            (copy_pairs ps f h (grown h (map_node L.empty)) p h.next no_pairs 1 (omega arith) w
              (object-NewTree h w (omega arith)) (omega arith) rs u (empty-NoneOf (fields_of ps)))
            λ root h' c. record {
              copy = object h.next c.all;
              root_is = sym c.root_is;
              new = NewTree-weaken (omega arith) c.new;
              means = ap mapping c.means;
            })

    copy_elems :
        (es : Elems) (f : ℕ) (h0 h : Heap Obj) (src p : Ptr) (acc : Elems) (n : ℕ)
        → elems_depth es < f
        → IsHeap h0
        → NewTree h0 (array p acc) n h
        → n + elems_size es ≤ h0.room
        → HoldsElems h0.cell src es
        → DistinctKeysAll (meanings es)
        → Returns
            (CopiedElems h0 p acc es (n + elems_size es))
            (clone_elems (clone f) p (elem_ptrs es) h)
    copy_elems no_elems f h0 h src p acc n d w new r held u = done (record {
      root_is = refl;
      all = acc;
      new = NewTree-weaken (omega arith) new;
      means = sym (append-no_values (meanings acc));
    })
    copy_elems (elem e t es) f h0 h src p acc n d w new r held (ut, us) =
        let (ne, at, rt, rs) =
          NewTree-keeps_elems h0 h (array p acc) n src (elem e t es) w new held in
        rw (load-ok h ne at) (
          Returns-and_then
            (copy_tree t f h (omega arith) new.is_heap (omega (arith, new.room)) rt ut)
            λ root h1 c. rw (← c.root_is) (
              Returns-and_then
                (push-NewTree h0 h h1 p c.copy n (size t) c.new
                  (omega (arith, new.room, c.new.room)) acc new)
                λ _ h2 new2.
                  Returns-weaken
                    (copy_elems es f h0 h2 src p (snoc acc h1.next c.copy) (suc (n + size t))
                      (omega arith) w new2 (omega arith) held.3 us)
                    λ r h' a. record {
                      root_is = a.root_is;
                      all = a.all;
                      new = NewTree-weaken (omega arith) a.new;
                      means =
                          a.means
                          ∙ meanings-snoc acc h1.next c.copy (kept_values (meanings es))
                          ∙ ap
                              (λ v.
                                append_values (meanings acc) (value v (kept_values (meanings es))))
                              c.means;
                    }))

    copy_pairs :
        (ps : Pairs) (f : ℕ) (h0 h : Heap Obj) (src p : Ptr) (acc : Pairs) (n : ℕ)
        → pairs_depth ps < f
        → IsHeap h0
        → NewTree h0 (object p acc) n h
        → n + pairs_size ps ≤ h0.room
        → HoldsPairs h0.cell src ps
        → DistinctFields (fields_of ps)
        → NoneOf (entries_of acc) (fields_of ps)
        → Returns
            (CopiedPairs h0 p acc ps (n + pairs_size ps))
            (clone_pairs (clone f) f p (entries_of ps) h)
    copy_pairs no_pairs f h0 h src p acc n d w new r held u out = done (record {
      root_is = refl;
      all = acc;
      new = NewTree-weaken (omega arith) new;
      means = sym (append-no_fields (fields_of acc));
    })
    copy_pairs (pair e k t ps) f h0 h src p acc n d w new r held (lacks, ut, us) (absent, out) =
        let (ne, at, rt, rs) =
          NewTree-keeps_pairs h0 h (object p acc) n src (pair e k t ps) w new held in
        rw (load-ok h ne at) (
          Returns-and_then
            (copy_tree t f h (omega arith) new.is_heap (omega (arith, new.room)) rt ut)
            λ root h1 c. elim (missing-cases (kept (meaning t))) [
              | inl gone ↦
                  let newer =
                    NewTree-and_newer h0 h h1 (object p acc) c.copy n (size t) new c.new
                      (addrs_missing c.copy (c.means ∙ gone)) in
                  rw
                    (
                      ← c.root_is,
                      root_missing c.copy (c.means ∙ gone),
                      skip_null f p acc k h1 newer.held,
                    )
                    (Returns-weaken
                      (copy_pairs ps f h0 h1 src p acc (n + size t) (omega arith) w newer
                        (omega arith) held.3 us out)
                      λ r h' a. record {
                        root_is = a.root_is;
                        all = a.all;
                        new = NewTree-weaken (omega arith) a.new;
                        means = rw gone a.means;
                      })
              | inr there ↦ rw (← c.root_is) (
                  Returns-and_then
                    (insert-NewTree h0 h h1 p c.copy n (size t) c.new
                      (omega (arith, new.room, c.new.room)) f acc k new
                      (root_present c.copy h1.cell c.new.held (λ z. there (sym c.means ∙ z)))
                      absent)
                    λ _ h2 new2.
                      Returns-weaken
                        (copy_pairs ps f h0 h2 src p (snoc_pair acc h1.next (c_str k) c.copy)
                          (suc (n + size t)) (omega arith) w new2 (omega arith) held.3 us
                          (rw (entries_of-snoc_pair acc h1.next (c_str k) c.copy) (
                            snoc-NoneOf (c_str k) h1.next (entries_of acc) (fields_of ps) out
                              lacks)))
                        λ r h' a. record {
                          root_is = a.root_is;
                          all = a.all;
                          new = NewTree-weaken (omega arith) a.new;
                          means =
                              a.means
                              ∙ fields_of-snoc acc h1.next (c_str k) c.copy
                                  (kept_fields (fields_of ps))
                              ∙ ap (λ fs. append_fields (fields_of acc) fs)
                                  (ap (λ v. field (c_str k) v (kept_fields (fields_of ps))) c.means
                                    ∙ sym (
                                        keep_field-present (c_str k) (kept (meaning t))
                                          (kept_fields (fields_of ps)) there));
                        })
            ])

  -- Where memory suffices, the fuel exceeds the depth of the tree and no two keys of one map read
  -- alike, pt_clone ends without a fault at a tree of new structs, each once, which stands for the
  -- same value less the pairs without a value and what texts and keys have behind a NUL; the older
  -- structs are unchanged.
  pub clone-Copied :
      (t : Tree) (f : ℕ) (h : Heap Obj)
      → depth t < f
      → IsHeap h
      → size t ≤ h.room
      → Holds h.cell t
      → DistinctKeys (meaning t)
      → Returns (Copied t h) (clone f (root_of t) h)
  clone-Copied = copy_tree
