-- ===== src/Array/Items.antt =====
-- The elements of an array without the first one that holds a given node.
use pillowtalk.Prelude.{
  suc, ◌≡◌, ◌≢◌, refl, sym, subst, ap, ◌∙◌, true, false, ◌⊎◌, inl, inr, Bool-cases, Option, ◌∷◌,
  ◌==◌, arith,
}
use pillowtalk.Libraries.{Ptr, Libraries, without}
use pillowtalk.Heap.{Obj}
use pillowtalk.Tree.{
  Elems, no_elems, elem, root_of, elem_ptrs, count, addrs, elem_addrs, HoldsElems,
}
use pillowtalk.Tree.Footprint.{
  has, Distinct, has-append, Distinct-append, Holds-frame, HoldsElems-frame,
}
use pillowtalk.Array.Nodes.{
  has_node, drop_node, node_elem, node_tree, has-node_tree, node_elem-later, has-node_elem,
}

module _ ⦃L : Libraries⦄ where
  pub count-drop_node :
      (n : Ptr) (es : Elems) → has_node n es ≡ true → count es ≡ suc (count (drop_node n es))
  count-drop_node n no_elems i = cc
  count-drop_node n (elem e t es) i = elim (Bool-cases (root_of t == n)) [
    | inl same ↦ rw same refl
    | inr other ↦ rw other (ap suc (count-drop_node n es (ground arith)))
  ]

  pub elem_ptrs-drop_node :
      (n : Ptr) (es : Elems)
      → Distinct (elem_addrs es)
      → has_node n es ≡ true
      → elem_ptrs (drop_node n es) ≡ without (node_elem n es) (elem_ptrs es)
  unfolding addrs
  elem_ptrs-drop_node n no_elems d i = refl
  elem_ptrs-drop_node n (elem e t es) (out, d) i =
      let (d1, d2, apart) = Distinct-append (addrs t) (elem_addrs es) d in
      elim (Bool-cases (root_of t == n)) [
        | inl same ↦ rw same (ground arith)
        | inr other ↦
            subst (λ x. elem_ptrs (drop_node n (elem e t es)) ≡ without x (e ∷ elem_ptrs es))
              (sym (node_elem-later n e t es other))
              (rw other (
                ground (
                  arith,
                  elem_ptrs-drop_node n es d2,
                  has-node_elem n es,
                  has-append e (addrs t) (elem_addrs es),
                )))
      ]

  pub drop_node-kept :
      (n : Ptr) (es : Elems) (a : Ptr)
      → has_node n es ≡ true
      → has a (elem_addrs es) ≡ true
      → ((has a (elem_addrs (drop_node n es)) ≡ true) ⊎ (has a (addrs (node_tree n es)) ≡ true))
        ⊎ (a ≡ node_elem n es)
  unfolding addrs
  drop_node-kept n no_elems a i m = inl (inl m)
  drop_node-kept n (elem e t es) a i m = elim (Bool-cases (root_of t == n)) [
    | inl same ↦ rw same (ground (arith, has-append a (addrs t) (elem_addrs es)))
    | inr other ↦ rw other (
        ground (
          arith,
          drop_node-kept n es a,
          has-append a (addrs t) (elem_addrs es),
          has-append a (addrs t) (elem_addrs (drop_node n es)),
        ))
  ]

  pub drop_node-Holds :
      (es : Elems) (c d : Ptr → Option Obj) (p n : Ptr)
      → Distinct (elem_addrs es)
      → HoldsElems c p es
      → has_node n es ≡ true
      → ((a : Ptr)
          → has a (elem_addrs es) ≡ true
          → has a (addrs (node_tree n es)) ≡ false
          → a ≢ node_elem n es
          → d a ≡ c a)
      → HoldsElems d p (drop_node n es)
  unfolding addrs
  drop_node-Holds no_elems c d p n dp r i same = tt
  drop_node-Holds (elem e t es) c d p n (out, dp) (ne, at, rt, rs) i same =
      let (d1, d2, apart) = Distinct-append (addrs t) (elem_addrs es) dp in
      elim (Bool-cases (root_of t == n)) [
        | inl eq ↦ rw eq (
            HoldsElems-frame es p c d
              (λ a i2.
                same a (ground (arith, has-append a (addrs t) (elem_addrs es)))
                  (rw eq (ground (arith, apart a)))
                  (rw eq (λ x. ground (arith, has-append e (addrs t) (elem_addrs es)))))
              rs)
        | inr other ↦
            let hn : has_node n es ≡ true = ground arith in
            let in_es = has-node_elem n es hn in
            rw other (
              ne,
              same e (ground arith)
                    (rw other (
                      ground (arith, has-node_tree n es e, has-append e (addrs t) (elem_addrs es))))
                    (rw other (λ x. ground (arith, has-append e (addrs t) (elem_addrs es))))
                  ∙ at,
              Holds-frame t c d
                  (λ a i2.
                    same a (ground (arith, has-append a (addrs t) (elem_addrs es)))
                      (rw other (ground (arith, has-node_tree n es a, apart a)))
                      (rw other (λ x. ground (arith, apart a))))
                  rt,
              drop_node-Holds es c d p n d2 rs hn λ a i2 i3 nq.
                  same a (ground (arith, has-append a (addrs t) (elem_addrs es))) (rw other i3)
                    (rw other nq),
            )
      ]
