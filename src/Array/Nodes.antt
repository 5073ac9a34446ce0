-- ===== src/Array/Nodes.antt =====
-- The first element of an array that holds a given node, and the addresses of the others.
use pillowtalk.Prelude.{
  ◌≡◌, ◌≢◌, refl, sym, subst, ap, ◌∙◌, Bool, true, false, inl, inr, Bool-cases, Option, some, ◌∷◌,
  ◌++◌, ◌==◌, ◌||◌, arith, if◌then◌else◌,
}
use pillowtalk.Libraries.{Ptr, Libraries}
use pillowtalk.Heap.{null, Obj, array_elem}
use pillowtalk.Tree.{
  Tree, Elems, nothing, no_elems, elem, root_of, addrs, elem_addrs, Holds, HoldsElems,
}
use pillowtalk.Tree.Footprint.{has, Distinct, has-append, Distinct-append, append-Distinct}

module _ ⦃L : Libraries⦄ where
  abbrev pub has_node : Ptr → Elems → Bool
  has_node n no_elems = false
  has_node n (elem e t es) = (root_of t == n) || has_node n es

  abbrev pub drop_node : Ptr → Elems → Elems
  drop_node n no_elems = no_elems
  drop_node n (elem e t es) = if root_of t == n then es else elem e t (drop_node n es)

  -- The first element that holds the node, and the tree at the node.
  abbrev pub node_elem : Ptr → Elems → Ptr
  node_elem n no_elems = null
  node_elem n (elem e t es) = if root_of t == n then e else node_elem n es

  abbrev pub node_tree : Ptr → Elems → Tree
  node_tree n no_elems = nothing
  node_tree n (elem e t es) = if root_of t == n then t else node_tree n es

  pub has-node_tree :
      (n : Ptr) (es : Elems) (a : Ptr)
      → has a (addrs (node_tree n es)) ≡ true
      → has a (elem_addrs es) ≡ true
  unfolding addrs
  has-node_tree n no_elems a i = i
  has-node_tree n (elem e t es) a i =
      ground (arith, has-node_tree n es a, has-append a (addrs t) (elem_addrs es))

  pub node_elem-here :
      (n e : Ptr) (t : Tree) (es : Elems) → (root_of t == n) ≡ true → node_elem n (elem e t es) ≡ e
  node_elem-here n e t es same = rw same refl

  pub node_elem-later :
      (n e : Ptr) (t : Tree) (es : Elems)
      → (root_of t == n) ≡ false
      → node_elem n (elem e t es) ≡ node_elem n es
  node_elem-later n e t es other = rw other refl

  pub has-node_elem :
      (n : Ptr) (es : Elems) → has_node n es ≡ true → has (node_elem n es) (elem_addrs es) ≡ true
  unfolding addrs
  has-node_elem n no_elems i = i
  has-node_elem n (elem e t es) i = elim (Bool-cases (root_of t == n)) [
    | inl same ↦ rw same (ground arith)
    | inr other ↦
        subst (λ x. has x (e ∷ (addrs t ++ elem_addrs es)) ≡ true)
          (sym (node_elem-later n e t es other))
          (ground
            (arith, has-node_elem n es, has-append (node_elem n es) (addrs t) (elem_addrs es)))
  ]

  pub drop_node-has :
      (n : Ptr) (es : Elems) (a : Ptr)
      → has a (elem_addrs (drop_node n es)) ≡ true
      → has a (elem_addrs es) ≡ true
  unfolding addrs
  drop_node-has n no_elems a i = i
  drop_node-has n (elem e t es) a i = ground (
    arith,
    drop_node-has n es a,
    has-append a (addrs t) (elem_addrs es),
    has-append a (addrs t) (elem_addrs (drop_node n es)),
  )

  pub drop_node-Distinct :
      (n : Ptr) (es : Elems) → Distinct (elem_addrs es) → Distinct (elem_addrs (drop_node n es))
  unfolding addrs
  drop_node-Distinct n no_elems d = tt
  drop_node-Distinct n (elem e t es) (out, d) =
      let (d1, d2, apart) = Distinct-append (addrs t) (elem_addrs es) d in
      elim (Bool-cases (root_of t == n)) [
        | inl same ↦ rw same d2
        | inr other ↦ rw other (
          ground (
            arith,
            has-append e (addrs t) (elem_addrs (drop_node n es)),
            has-append e (addrs t) (elem_addrs es),
            drop_node-has n es e,
          ),
          append-Distinct (addrs t) (elem_addrs (drop_node n es)) d1 (drop_node-Distinct n es d2)
              λ a i. ground (arith, drop_node-has n es a, apart a),
        )
      ]

  pub node_tree-Distinct :
      (n : Ptr) (es : Elems) → Distinct (elem_addrs es) → Distinct (addrs (node_tree n es))
  unfolding addrs
  node_tree-Distinct n no_elems d = tt
  node_tree-Distinct n (elem e t es) (out, d) =
      let (d1, d2, apart) = Distinct-append (addrs t) (elem_addrs es) d in
      elim (Bool-cases (root_of t == n)) [
        | inl same ↦ rw same d1
        | inr other ↦ rw other (node_tree-Distinct n es d2)
      ]

  pub root_of-node_tree :
      (n : Ptr) (es : Elems) → has_node n es ≡ true → root_of (node_tree n es) ≡ n
  root_of-node_tree n no_elems i = cc
  root_of-node_tree n (elem e t es) i = elim (Bool-cases (root_of t == n)) [
    | inl same ↦ rw same (ground arith)
    | inr other ↦ rw other (root_of-node_tree n es (ground arith))
  ]

  pub node_tree-Holds :
      (n : Ptr) (es : Elems) (c : Ptr → Option Obj) (p : Ptr)
      → HoldsElems c p es
      → Holds c (node_tree n es)
  node_tree-Holds n no_elems c p r = tt
  node_tree-Holds n (elem e t es) c p (ne, at, rt, rs) = elim (Bool-cases (root_of t == n)) [
    | inl same ↦ rw same rt
    | inr other ↦ rw other (node_tree-Holds n es c p rs)
  ]

  pub elem_found :
      (n : Ptr) (es : Elems) (c : Ptr → Option Obj) (p : Ptr)
      → HoldsElems c p es
      → has_node n es ≡ true
      → (node_elem n es ≢ null) × (c (node_elem n es) ≡ some (array_elem n p))
  elem_found n no_elems c p r i = cc
  elem_found n (elem e t es) c p (ne, at, rt, rs) i = elim (Bool-cases (root_of t == n)) [
    | inl same ↦
        let eq : root_of t ≡ n = ground arith in
        rw same (ne, at ∙ ap (λ x. some (array_elem x p)) eq)
    | inr other ↦ rw other (elem_found n es c p rs (ground arith))
  ]

  pub elem_apart :
      (n : Ptr) (es : Elems)
      → Distinct (elem_addrs es)
      → has_node n es ≡ true
      → has (node_elem n es) (addrs (node_tree n es)) ≡ false
  unfolding addrs
  elem_apart n no_elems d i = refl
  elem_apart n (elem e t es) (out, d) i =
      let (d1, d2, apart) = Distinct-append (addrs t) (elem_addrs es) d in
      elim (Bool-cases (root_of t == n)) [
        | inl same ↦ rw same (ground (arith, has-append e (addrs t) (elem_addrs es)))
        | inr other ↦ rw other (elem_apart n es d2 (ground arith))
      ]
