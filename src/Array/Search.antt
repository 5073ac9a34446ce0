-- ===== src/Array/Search.antt =====
-- The loop of pt_array_remove ends at the first element that holds the node.
use pillowtalk.Prelude.{
  ℕ, suc, ◌+◌, ◌-◌, ◌%◌, ◌^◌, ◌≡◌, refl, sym, ap, ◌∙◌, true, false, inl, inr, Bool-cases, ◌==◌,
  arith,
}
use pillowtalk.Libraries.{Ptr, Libraries}
use pillowtalk.Heap.{Heap, ok, Obj}
use pillowtalk.Heap.Access.{load-ok}
use pillowtalk.Tree.{Elems, no_elems, elem, root_of, elem_ptrs, HoldsElems}
use pillowtalk.Free.{node_of}
use pillowtalk.Array.{remove_loop, unlink}
use pillowtalk.Array.Nodes.{node_elem-here, node_elem-later, has_node, node_elem}

module _ ⦃L : Libraries⦄ where
  -- The loop ends at the first element that holds the node, or does nothing.
  pub remove_loop-unlink :
      (es : Elems) (fuel : ℕ) (p n : Ptr) (h : Heap Obj)
      → HoldsElems h.cell p es
      → has_node n es ≡ true
      → remove_loop fuel p n (elem_ptrs es) h ≡ unlink fuel p (node_elem n es) n h
  unfolding remove_loop node_of
  remove_loop-unlink no_elems fuel p n h r i = cc
  remove_loop-unlink (elem e t es) fuel p n h (ne, at, rt, rs) i =
      elim (Bool-cases (root_of t == n)) [
        | inl same ↦
            let eq : root_of t ≡ n = ground arith in
            rw (load-ok h ne at, same)
              (ap (λ x. unlink fuel p e x h) eq
                ∙ ap (λ x. unlink fuel p x n h) (sym (node_elem-here n e t es same)))
        | inr other ↦
            rw (load-ok h ne at, other)
              (remove_loop-unlink es fuel p n h rs (ground arith)
                ∙ ap (λ x. unlink fuel p x n h) (sym (node_elem-later n e t es other)))
      ]

  pub remove_loop-skip :
      (es : Elems) (fuel : ℕ) (p n : Ptr) (h : Heap Obj)
      → HoldsElems h.cell p es
      → has_node n es ≡ false
      → remove_loop fuel p n (elem_ptrs es) h ≡ ok tt h
  unfolding remove_loop node_of
  remove_loop-skip no_elems fuel p n h r i = refl
  remove_loop-skip (elem e t es) fuel p n h (ne, at, rt, rs) i =
      let other : (root_of t == n) ≡ false = ground arith in
      rw (load-ok h ne at, other) (remove_loop-skip es fuel p n h rs (ground arith))

  pub shorter : (n m : ℕ) → n ≡ suc m → (n % 2 ^ 32 + 2 ^ 32 - 1) % 2 ^ 32 ≡ m % 2 ^ 32
  shorter n m e = omega arith
