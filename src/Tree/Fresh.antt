-- ===== src/Tree/Fresh.antt =====
-- An unused address is none of a tree's.
use pillowtalk.Prelude.{◌≤◌, ◌≡◌, refl, false, Option, none, arith}
use pillowtalk.Libraries.{Ptr, Libraries}
use pillowtalk.Heap.{Heap, Obj}
use pillowtalk.Heap.Access.{IsHeap}
use pillowtalk.Tree.{
  Tree, Elems, Pairs, nothing, leaf, array, object, no_elems, elem, no_pairs, pair, addrs,
  elem_addrs, pair_addrs, Holds, HoldsElems, HoldsPairs,
}
use pillowtalk.Tree.Footprint.{has, has-append}

module _ ⦃L : Libraries⦄ where
  mutual
    unfolding addrs

    not_in_tree :
        (t : Tree) (c : Ptr → Option Obj) (a : Ptr)
        → Holds c t
        → c a ≡ none
        → has a (addrs t) ≡ false
    not_in_tree nothing c a r u = refl
    not_in_tree (leaf p s) c a (ne, e) u = ground arith
    not_in_tree (array p es) c a (ne, (q, e, i), rs) u = ground (arith, not_in_elems es c p a rs u)
    not_in_tree (object p ps) c a (ne, (t, e, i), rs) u = ground (arith, not_in_pairs ps c p a rs u)

    not_in_elems :
        (es : Elems) (c : Ptr → Option Obj) (p a : Ptr)
        → HoldsElems c p es
        → c a ≡ none
        → has a (elem_addrs es) ≡ false
    not_in_elems no_elems c p a r u = refl
    not_in_elems (elem e t es) c p a (ne, at, rt, rs) u = ground (
      arith,
      not_in_tree t c a rt u,
      not_in_elems es c p a rs u,
      has-append a (addrs t) (elem_addrs es),
    )

    not_in_pairs :
        (ps : Pairs) (c : Ptr → Option Obj) (p a : Ptr)
        → HoldsPairs c p ps
        → c a ≡ none
        → has a (pair_addrs ps) ≡ false
    not_in_pairs no_pairs c p a r u = refl
    not_in_pairs (pair e k t ps) c p a (ne, at, rt, rs) u = ground (
      arith,
      not_in_tree t c a rt u,
      not_in_pairs ps c p a rs u,
      has-append a (addrs t) (pair_addrs ps),
    )

  pub Holds-fresh :
      (t : Tree) (h : Heap Obj) (a : Ptr)
      → IsHeap h
      → Holds h.cell t
      → h.next ≤ a
      → has a (addrs t) ≡ false
  Holds-fresh t h a w r le = not_in_tree t h.cell a r (w.unused a le)

  pub HoldsElems-fresh :
      (es : Elems) (h : Heap Obj) (p a : Ptr)
      → IsHeap h
      → HoldsElems h.cell p es
      → h.next ≤ a
      → has a (elem_addrs es) ≡ false
  HoldsElems-fresh es h p a w r le = not_in_elems es h.cell p a r (w.unused a le)

  pub HoldsPairs-fresh :
      (ps : Pairs) (h : Heap Obj) (p a : Ptr)
      → IsHeap h
      → HoldsPairs h.cell p ps
      → h.next ≤ a
      → has a (pair_addrs ps) ≡ false
  HoldsPairs-fresh ps h p a w r le = not_in_pairs ps h.cell p a r (w.unused a le)
