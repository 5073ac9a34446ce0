-- ===== src/Array/Read.antt =====
-- pt_array_len and pt_array_get read the sequence that an array node stands for.
use pillowtalk.Prelude.{
  ℕ, zero, suc, ◌+◌, ◌%◌, ◌^◌, ◌<◌, ◌≡◌, refl, ap, ◌∙◌, ◌-◌, false, ◌==◌, arith,
}
use pillowtalk.Libraries.{Ptr, Libraries}
use pillowtalk.Heap.{Heap, ok, Obj}
use pillowtalk.Heap.Access.{not_null, load-ok}
use pillowtalk.Tree.{
  Tree, Elems, nothing, array, no_elems, elem, root_of, elem_ptrs, count, Holds, HoldsElems,
}
use pillowtalk.Array.{array_len, array_get, get_loop}
use pillowtalk.Free.{node_of}

module _ ⦃L : Libraries⦄ where
  -- The element at an index, and NULL behind the last one.
  abbrev pub nth : Elems → ℕ → Tree
  nth no_elems i = nothing
  nth (elem e t es) zero = t
  nth (elem e t es) (suc i) = nth es i

  -- pt_array_len is the length of the sequence modulo 2^32, and leaves the heap alone.
  pub array_len-count :
      (p : Ptr) (es : Elems) (h : Heap Obj)
      → Holds h.cell (array p es)
      → array_len p h ≡ ok (count es % 2 ^ 32) h
  unfolding array_len
  array_len-count p es h (ne, (q, e, i), rs) = rw (not_null ne, load-ok h ne e)

  get_loop-nth :
      (es : Elems) (p : Ptr) (h : Heap Obj) (idx index d : ℕ)
      → HoldsElems h.cell p es
      → index + count es < 2 ^ 31
      → idx < 2 ^ 32
      → idx ≡ index + d
      → get_loop idx (elem_ptrs es) index h ≡ ok (root_of (nth es d)) h
  unfolding get_loop node_of
  get_loop-nth no_elems p h idx index d r small lt e = refl
  get_loop-nth (elem e t es) p h idx index zero (ne, at, rt, rs) small lt eq =
      ground (arith, load-ok h ne at)
  get_loop-nth (elem e t es) p h idx index (suc d) (ne, at, rt, rs) small lt eq =
      let passed : (index == idx) ≡ false = ground arith in
      let fits : (index == 2 ^ 31 - 1) ≡ false = ground arith in
      rw (passed, fits) (get_loop-nth es p h idx (index + 1) d rs (omega arith) lt (omega arith))

  -- In an array of less than 2^31 elements every index of type `unsigned int` gives the node at that
  -- place, and an index past the end gives NULL; the heap is left alone.
  pub array_get-nth :
      (p : Ptr) (es : Elems) (h : Heap Obj) (idx : ℕ)
      → Holds h.cell (array p es)
      → count es < 2 ^ 31
      → idx < 2 ^ 32
      → array_get p idx h ≡ ok (root_of (nth es idx)) h
  unfolding array_get
  array_get-nth p es h idx (ne, (q, e, i), rs) small lt =
      rw (not_null ne, load-ok h ne e, i)
        (get_loop-nth es p h idx 0 idx rs (omega arith) lt (omega arith))

  -- In an array of less than 2^31 elements pt_array_len is the length of the sequence, and
  -- pt_array_get gives the node at an index of type unsigned int, and NULL past the end; both leave
  -- the heap alone.
  pub array_len-array_get :
      (p : Ptr) (es : Elems) (h : Heap Obj) (idx : ℕ)
      → Holds h.cell (array p es)
      → count es < 2 ^ 31
      → idx < 2 ^ 32
      → (array_len p h ≡ ok (count es) h) × (array_get p idx h ≡ ok (root_of (nth es idx)) h)
  array_len-array_get p es h idx held small lt = (
    array_len-count p es h held ∙ ap (λ n. ok n h) (omega arith),
    array_get-nth p es h idx held small lt,
  )
