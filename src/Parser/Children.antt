-- ===== src/Parser/Children.antt =====
-- A value that has come behind the others of an open array or map belongs to the container's tree.
use pillowtalk.Prelude.{
  ◌+◌, ◌%◌, ◌^◌, ◌<◌, ◌≤◌, ◌≡◌, ◌≢◌, sym, ap, ◌∙◌, true, false, ◌⊎◌, some, List, [], ◌∷◌, ◌++◌,
  arith,
}
use pillowtalk.Libraries.{Bytes, Ptr, Libraries}
use pillowtalk.Heap.{Heap, null, Obj, map_node, array_node, key_value, array_elem}
use pillowtalk.Heap.Access.{IsHeap}
use pillowtalk.Tree.{
  Tree, Elems, Pairs, array, object, root_of, elem_ptrs, entries_of, count, addrs, elem_addrs,
  pair_addrs, Holds, HoldsElems, HoldsPairs,
}
use pillowtalk.Tree.Footprint.{
  has, Distinct, has-append, append-Distinct, HoldsElems-frame, HoldsPairs-frame,
}
use pillowtalk.Tree.Fresh.{HoldsElems-fresh, HoldsPairs-fresh}
use pillowtalk.Tree.Append.{snoc, elem_ptrs-snoc, count-snoc, HoldsElems-snoc, length_eq}
use pillowtalk.Array.Push.{elem_addrs-snoc}
use pillowtalk.Tree.LastPair.{
  snoc_pair, entries_of-snoc_pair, pair_addrs-snoc_pair, HoldsPairs-snoc_pair,
}
use pillowtalk.Parser.Slot.{SameBut}

module _ ⦃L : Libraries⦄ where
  -- Old addresses `xs` below `n`, a new one `e` and those of a new tree `ys`, from `n` on.
  module _ (p e n : Ptr) (xs ys : List Ptr) (d : Distinct (p ∷ xs)) (dy : Distinct ys)
      (below : (b : Ptr) → n ≤ b → has b xs ≡ false) (p_lt : p < n) (e_le : n ≤ e)
      (out : has e ys ≡ false) (above : (b : Ptr) → has b ys ≡ true → n ≤ b) where
    p_out : has p ys ≡ false
    p_out = ground (arith, above p)

    extended-Distinct : Distinct (p ∷ (xs ++ e ∷ ys))
    extended-Distinct = (
      ground (arith, has-append p xs (e ∷ ys), p_out),
      append-Distinct xs (e ∷ ys) d.1 (out, dy) λ a i. ground (arith, below e, below a, above a),
    )

  module _ (h h' : Heap Obj) (w : IsHeap h) (p : Ptr) (p_lt : p < h.next) (kept : SameBut h h' p)
      (t : Tree) (ht : Holds h'.cell t) (dt : Distinct (addrs t)) where
    -- An array's last value and the element that holds it.
    module _ (es : Elems) (q : L.Queue) (ne : p ≢ null) (i : L.items q ≡ elem_ptrs es)
        (rs : HoldsElems h.cell p es) (d : Distinct (p ∷ elem_addrs es))
        (at : h'.cell p
          ≡ some (array_node (L.insert_tail (h.next + 1) q) ((count es % 2 ^ 32 + 1) % 2 ^ 32)))
        (item : h'.cell (h.next + 1) ≡ some (array_elem (root_of t) p))
        (above : (b : Ptr) → has b (addrs t) ≡ true → (b ≡ h.next) ⊎ (h.next + 2 ≤ b)) where
      old_elems : HoldsElems h'.cell p es
      old_elems =
          HoldsElems-frame es p h.cell h'.cell
            (λ b m.
              kept b (ground (arith, HoldsElems-fresh es h p b w rs))
                (λ x. cc (ap (λ (z : Ptr). has z (elem_addrs es)) x)))
            rs

      pub array_Holds-snoc : Holds h'.cell (array p (snoc es (h.next + 1) t))
      array_Holds-snoc = (
        ne,
        (
          L.insert_tail (h.next + 1) q,
          at
              ∙ ap (λ k. some (array_node (L.insert_tail (h.next + 1) q) k))
                  (length_eq (count es) (count (snoc es (h.next + 1) t))
                    (count-snoc es (h.next + 1) t)),
          L.items-insert_tail (h.next + 1) q
              ∙ ap (λ r. r ++ (h.next + 1) ∷ []) i
              ∙ sym (elem_ptrs-snoc es (h.next + 1) t),
        ),
        HoldsElems-snoc h'.cell p es (h.next + 1) t old_elems (omega arith) item ht,
      )

      pub array_Distinct-snoc : Distinct (p ∷ elem_addrs (snoc es (h.next + 1) t))
      array_Distinct-snoc = rw (elem_addrs-snoc es (h.next + 1) t) (
          extended-Distinct p (h.next + 1) h.next (elem_addrs es) (addrs t) d dt
            (λ b le. HoldsElems-fresh es h p b w rs le) p_lt (omega arith)
            (ground (arith, above (h.next + 1))) (λ b m. ground (arith, above b)))

    -- A map's last pair.
    module _ (ps : Pairs) (k : Bytes) (tb : L.Table) (ne : p ≢ null)
        (i : L.entries tb ≡ entries_of ps) (rs : HoldsPairs h.cell p ps)
        (d : Distinct (p ∷ pair_addrs ps))
        (at : h'.cell p ≡ some (map_node (L.add_keyptr k h.next tb)))
        (item : h'.cell h.next ≡ some (key_value k (root_of t) p))
        (above : (b : Ptr) → has b (addrs t) ≡ true → h.next + 1 ≤ b) where
      old_pairs : HoldsPairs h'.cell p ps
      old_pairs =
          HoldsPairs-frame ps p h.cell h'.cell
            (λ b m.
              kept b (ground (arith, HoldsPairs-fresh ps h p b w rs))
                (λ x. cc (ap (λ (z : Ptr). has z (pair_addrs ps)) x)))
            rs

      pub object_Holds-snoc : Holds h'.cell (object p (snoc_pair ps h.next k t))
      object_Holds-snoc = (
        ne,
        (
          L.add_keyptr k h.next tb,
          at,
          L.entries-add_keyptr k h.next tb
              ∙ ap (λ r. r ++ (k, h.next) ∷ []) i
              ∙ sym (entries_of-snoc_pair ps h.next k t),
        ),
        HoldsPairs-snoc_pair h'.cell p ps h.next k t old_pairs (omega (arith, w.next_pos)) item ht,
      )

      pub object_Distinct-snoc : Distinct (p ∷ pair_addrs (snoc_pair ps h.next k t))
      object_Distinct-snoc = rw (pair_addrs-snoc_pair ps h.next k t) (
          extended-Distinct p h.next h.next (pair_addrs ps) (addrs t) d dt
            (λ b le. HoldsPairs-fresh ps h p b w rs le) p_lt (omega arith)
            (ground (arith, above h.next)) (λ b m. omega (arith, above b m)))
