-- ===== src/Tree/Append.antt =====
-- A new element behind, or in front of, the sequence of an array: the cells change at the array and
-- at the element alone.
use pillowtalk.Prelude.{
  ℕ, suc, ◌+◌, ◌%◌, ◌^◌, ◌≡◌, ◌≢◌, refl, sym, ap, false, Option, some, [], ◌∷◌, ◌++◌, ◌∙◌, arith,
}
use pillowtalk.Libraries.{Ptr, Libraries}
use pillowtalk.Heap.{null, Obj, array_node, array_elem}
use pillowtalk.Tree.{
  Tree, Elems, array, no_elems, elem, root_of, elem_ptrs, count, addrs, elem_addrs, Holds,
  HoldsElems,
}
use pillowtalk.Tree.Footprint.{has, Holds-frame, HoldsElems-frame}

module _ ⦃L : Libraries⦄ where
  abbrev pub snoc : Elems → Ptr → Tree → Elems
  snoc no_elems e t = elem e t no_elems
  snoc (elem e' t' es) e t = elem e' t' (snoc es e t)

  pub elem_ptrs-snoc :
      (es : Elems) (e : Ptr) (t : Tree) → elem_ptrs (snoc es e t) ≡ elem_ptrs es ++ e ∷ []
  elem_ptrs-snoc no_elems e t = refl
  elem_ptrs-snoc (elem e' t' es) e t = ap (λ r. e' ∷ r) (elem_ptrs-snoc es e t)

  pub count-snoc : (es : Elems) (e : Ptr) (t : Tree) → count (snoc es e t) ≡ suc (count es)
  count-snoc no_elems e t = refl
  count-snoc (elem e' t' es) e t = ap suc (count-snoc es e t)

  pub HoldsElems-snoc :
      (c : Ptr → Option Obj) (p : Ptr) (es : Elems) (e : Ptr) (t : Tree)
      → HoldsElems c p es
      → e ≢ null
      → c e ≡ some (array_elem (root_of t) p)
      → Holds c t
      → HoldsElems c p (snoc es e t)
  HoldsElems-snoc c p no_elems e t r ne at rt = (ne, at, rt, tt)
  HoldsElems-snoc c p (elem e' t' es) e t (n', a', r', rs) ne at rt =
      (n', a', r', HoldsElems-snoc c p es e t rs ne at rt)

  -- What a push leaves: the array with its new queue and length, the new element, the rest as it was.
  pub record Pushed (c d : Ptr → Option Obj) (p e node : Ptr) (q : L.Queue) (n : ℕ) : Type 0 where
    pub container : d p ≡ some (array_node q n)
    pub item : d e ≡ some (array_elem node p)
    pub other : (a : Ptr) → a ≢ p → a ≢ e → d a ≡ c a

  pub length_eq : (n m : ℕ) → m ≡ suc n → (n % 2 ^ 32 + 1) % 2 ^ 32 ≡ m % 2 ^ 32
  length_eq n m e = omega arith

  module _ (c d : Ptr → Option Obj) (p e : Ptr) (es : Elems) (t : Tree) (q q' : L.Queue)
      (held : Holds c (array p es)) (at : c p ≡ some (array_node q (count es % 2 ^ 32)))
      (ht : Holds c t) (ne : e ≢ null) (out_p : has p (elem_addrs es) ≡ false)
      (out_e : has e (elem_addrs es) ≡ false) (apart_p : has p (addrs t) ≡ false)
      (apart_e : has e (addrs t) ≡ false) (i : L.items q ≡ elem_ptrs es)
      (w : Pushed c d p e (root_of t) q' ((count es % 2 ^ 32 + 1) % 2 ^ 32)) where
    tree_after : Holds d t
    tree_after = Holds-frame t c d (λ a h. w.other a (λ x. cc) (λ x. cc)) ht

    elems_after : HoldsElems d p es
    elems_after = HoldsElems-frame es p c d (λ a h. w.other a (λ x. cc) (λ x. cc)) held.2

    pub Holds-push_back : L.items q' ≡ L.items q ++ e ∷ [] → Holds d (array p (snoc es e t))
    Holds-push_back j = (
      held.0,
      (
        q',
        w.container
            ∙ ap (λ k. some (array_node q' k))
                (length_eq (count es) (count (snoc es e t)) (count-snoc es e t)),
        j ∙ ap (λ r. r ++ e ∷ []) i ∙ sym (elem_ptrs-snoc es e t),
      ),
      HoldsElems-snoc d p es e t elems_after ne w.item tree_after,
    )

    pub Holds-push_front : L.items q' ≡ e ∷ L.items q → Holds d (array p (elem e t es))
    Holds-push_front j = (
      held.0,
      (
        q',
        w.container ∙ ap (λ k. some (array_node q' k)) (length_eq (count es) (suc (count es)) refl),
        j ∙ ap (λ r. e ∷ r) i,
      ),
      (ne, w.item, tree_after, elems_after),
    )
