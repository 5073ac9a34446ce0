-- ===== src/Tree/New.antt =====
-- A tree of structs that are new since an earlier heap, whose own structs are as they were.
use pillowtalk.Prelude.{false, none, ℕ, ◌+◌, ◌<◌, ◌≤◌, ◌≡◌, refl, ap, true, some, [], ◌∷◌, arith}
use pillowtalk.Libraries.{Ptr, Libraries}
use pillowtalk.Heap.{Heap, Obj, write, map_node, array_node}
use pillowtalk.Heap.Access.{IsHeap, alloc-IsHeap, grown, write-at}
use pillowtalk.Tree.{
  Tree, Elems, Pairs, nothing, leaf, array, object, no_elems, no_pairs, addrs, Holds, HoldsElems,
  HoldsPairs,
}
use pillowtalk.Tree.Footprint.{has, Distinct, Holds-frame, HoldsElems-frame, HoldsPairs-frame}
use pillowtalk.Tree.Fresh.{Holds-fresh, HoldsElems-fresh, HoldsPairs-fresh}
use pillowtalk.Value.{Scalar, obj_of}
use pillowtalk.Free.Gone.{size}

module _ ⦃L : Libraries⦄ where
  -- What has been allocated since `h` is in the tree, of `n` structs at most, or free again.
  pub record NewTree (h : Heap Obj) (t : Tree) (n : ℕ) (h' : Heap Obj) : Type 0 where
    pub held : Holds h'.cell t
    pub distinct : Distinct (addrs t)
    pub fresh : (b : Ptr) → has b (addrs t) ≡ true → h.next ≤ b
    pub same : (b : Ptr) → b < h.next → h'.cell b ≡ h.cell b
    pub is_heap : IsHeap h'
    pub room : h.room ≤ h'.room + n
    pub grows : h.next ≤ h'.next
    pub lost : (b : Ptr) → h.next ≤ b → has b (addrs t) ≡ false → h'.cell b ≡ none
    pub small : size t ≤ n

  -- The structs that a heap holds lie below the unused addresses.
  pub Holds-below :
      (t : Tree) (h : Heap Obj) (b : Ptr)
      → IsHeap h
      → Holds h.cell t
      → has b (addrs t) ≡ true
      → b < h.next
  Holds-below t h b w r m = ground (arith, Holds-fresh t h b w r)

  -- An older tree is still there.
  pub NewTree-keeps :
      (h h' : Heap Obj) (a : Tree) (n : ℕ) (t : Tree)
      → IsHeap h
      → NewTree h a n h'
      → Holds h.cell t
      → Holds h'.cell t
  NewTree-keeps h h' a n t w new r =
      Holds-frame t h.cell h'.cell (λ b m. new.same b (Holds-below t h b w r m)) r

  pub NewTree-keeps_elems :
      (h h' : Heap Obj) (a : Tree) (n : ℕ) (p : Ptr) (es : Elems)
      → IsHeap h
      → NewTree h a n h'
      → HoldsElems h.cell p es
      → HoldsElems h'.cell p es
  NewTree-keeps_elems h h' a n p es w new r =
      HoldsElems-frame es p h.cell h'.cell
        (λ b m. new.same b (ground (arith, HoldsElems-fresh es h p b w r))) r

  pub NewTree-keeps_pairs :
      (h h' : Heap Obj) (a : Tree) (n : ℕ) (p : Ptr) (ps : Pairs)
      → IsHeap h
      → NewTree h a n h'
      → HoldsPairs h.cell p ps
      → HoldsPairs h'.cell p ps
  NewTree-keeps_pairs h h' a n p ps w new r =
      HoldsPairs-frame ps p h.cell h'.cell
        (λ b m. new.same b (ground (arith, HoldsPairs-fresh ps h p b w r))) r

  -- A struct that has just been allocated, with no other below it.
  pub alloc-NewTree :
      (h : Heap Obj) (o : Obj) (t : Tree)
      → IsHeap h
      → addrs t ≡ h.next ∷ []
      → size t ≤ 1
      → 0 < h.room
      → Holds (grown h o).cell t
      → NewTree h t 1 (grown h o)
  unfolding write
  alloc-NewTree h o t w one small r held = record {
    held = held;
    distinct = rw one (refl, tt);
    fresh = rw one (λ b m. ground arith);
    same = λ b lt. ground arith;
    is_heap = alloc-IsHeap o w;
    room = omega arith;
    grows = omega arith;
    lost = rw one (λ b le o. ground (arith, w.unused b));
    small = small;
  }

  pub nothing-NewTree : (h : Heap Obj) → IsHeap h → NewTree h nothing 0 h
  unfolding addrs size
  nothing-NewTree h w = record {
    held = tt;
    distinct = tt;
    fresh = λ b m. ground arith;
    same = λ b lt. refl;
    is_heap = w;
    room = omega arith;
    grows = omega arith;
    lost = λ b le o. w.unused b le;
    small = omega arith;
  }

  pub leaf-NewTree :
      (h : Heap Obj) (s : Scalar)
      → IsHeap h
      → 0 < h.room
      → NewTree h (leaf h.next s) 1 (grown h (obj_of s))
  unfolding addrs size
  leaf-NewTree h s w r =
      alloc-NewTree h (obj_of s) (leaf h.next s) w refl (omega arith) r
        (omega (arith, w.next_pos), write-at h.cell h.next (some (obj_of s)))

  pub array-NewTree :
      (h : Heap Obj)
      → IsHeap h
      → 0 < h.room
      → NewTree h (array h.next no_elems) 1 (grown h (array_node L.init 0))
  unfolding addrs size
  array-NewTree h w r =
      alloc-NewTree h (array_node L.init 0) (array h.next no_elems) w refl (omega arith) r (
        omega (arith, w.next_pos),
        (L.init, write-at h.cell h.next (some (array_node L.init 0)), L.items-init),
        tt,
      )

  pub object-NewTree :
      (h : Heap Obj)
      → IsHeap h
      → 0 < h.room
      → NewTree h (object h.next no_pairs) 1 (grown h (map_node L.empty))
  unfolding addrs size
  object-NewTree h w r =
      alloc-NewTree h (map_node L.empty) (object h.next no_pairs) w refl (omega arith) r (
        omega (arith, w.next_pos),
        (L.empty, write-at h.cell h.next (some (map_node L.empty)), L.entries-empty),
        tt,
      )

  pub NewTree-weaken :
      {h h' : Heap Obj} {t : Tree} {n m : ℕ} → n ≤ m → NewTree h t n h' → NewTree h t m h'
  NewTree-weaken le new = record {
    held = new.held;
    distinct = new.distinct;
    fresh = new.fresh;
    same = new.same;
    is_heap = new.is_heap;
    room = omega (arith, new.room);
    grows = new.grows;
    lost = new.lost;
    small = omega (arith, new.small);
  }

  -- It is left alone where no struct is newer.
  pub NewTree-and_newer :
      (h h1 h2 : Heap Obj) (a t : Tree) (n m : ℕ)
      → NewTree h a n h1
      → NewTree h1 t m h2
      → addrs t ≡ []
      → NewTree h a (n + m) h2
  NewTree-and_newer h h1 h2 a t n m na nt empty = record {
    held = NewTree-keeps h1 h2 t m a na.is_heap nt na.held;
    distinct = na.distinct;
    fresh = na.fresh;
    same = λ b lt. ground (arith, na.same b, nt.same b, na.grows);
    is_heap = nt.is_heap;
    room = omega (arith, na.room, nt.room);
    grows = omega (arith, na.grows, nt.grows);
    lost = λ b le o. ground (arith, na.lost b, nt.lost b, nt.same b, ap (λ xs. has b xs) empty);
    small = omega (arith, na.small);
  }
