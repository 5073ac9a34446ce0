-- ===== src/Array/Push.antt =====
-- pt_array_push_back and pt_array_push_front add an element at either end of the sequence.
use pillowtalk.Prelude.{
  ℕ, ◌+◌, ◌%◌, ◌^◌, ◌<◌, ◌≡◌, ◌≢◌, false, some, ◌∷◌, ◌++◌, append-nil, append_assoc, arith,
}
use pillowtalk.Libraries.{Ptr, Libraries}
use pillowtalk.Heap.{Heap, null, write, Obj, array_node, array_elem}
use pillowtalk.Heap.Access.{IsHeap, not_null, load-ok, store-ok, alloc-ok, grown, put}
use pillowtalk.Heap.Returns.{Returns, done}
use pillowtalk.Tree.{Tree, Elems, array, no_elems, elem, root_of, count, addrs, elem_addrs, Holds}
use pillowtalk.Tree.Footprint.{has, Distinct, Apart, has-append, Distinct-append, append-Distinct}
use pillowtalk.Tree.Fresh.{Holds-fresh, HoldsElems-fresh}
use pillowtalk.Tree.Append.{snoc, Pushed, Holds-push_back, Holds-push_front}
use pillowtalk.Array.{array_push_back, array_push_front}

module _ ⦃L : Libraries⦄ where
  abbrev pub next_len : ℕ → ℕ
  next_len len = (len + 1) % 2 ^ 32

  -- The heap after the allocation of an element and the store to its array.
  abbrev pub pushed : Heap Obj → (p node : Ptr) → L.Queue → ℕ → Heap Obj
  pushed h p node q n = put (grown h (array_elem node p)) p (some (array_node q n))

  module _ (h : Heap Obj) (p node : Ptr) (o : Obj) (w : IsHeap h) (e : h.cell p ≡ some o) where
    pub ne_next : p ≢ h.next
    ne_next x = ground (arith, w.unused p (omega arith))

    pub kept_by_alloc : (grown h (array_elem node p)).cell p ≡ some o
    unfolding write
    kept_by_alloc = ground (arith, ne_next)

    pub push-Pushed :
        (q : L.Queue) (n : ℕ) → Pushed h.cell (pushed h p node q n).cell p h.next node q n
    unfolding write
    push-Pushed q n = record {
      container = ground arith;
      item = ground (arith, ne_next);
      other = λ a n1 n2. ground arith;
    }

    pub push-IsHeap : (q : L.Queue) (n : ℕ) → IsHeap (pushed h p node q n)
    unfolding write
    push-IsHeap q n = record {
      next_pos = omega arith;
      unused = λ a le. ground (arith, w.unused a, w.unused p);
    }

  pub elem_addrs-snoc :
      (es : Elems) (e : Ptr) (t : Tree) → elem_addrs (snoc es e t) ≡ elem_addrs es ++ e ∷ addrs t
  unfolding addrs
  elem_addrs-snoc no_elems e t = rw append-nil
  elem_addrs-snoc (elem e' t' es) e t = rw (elem_addrs-snoc es e t, append_assoc)

  -- What a push makes of the heap, if `a` is the array afterwards.
  pub record PushedTo (a : Tree) (p : Ptr) (h h' : Heap Obj) : Type 0 where
    pub held : Holds h'.cell a
    pub distinct : Distinct (addrs a)
    pub is_heap : IsHeap h'
    pub room : h'.room + 1 ≡ h.room
    pub next : h'.next ≡ h.next + 1
    pub other : (b : Ptr) → b ≢ p → b ≢ h.next → h'.cell b ≡ h.cell b

  module _ (p : Ptr) (es : Elems) (t : Tree) (h : Heap Obj) (w : IsHeap h) (r : 0 < h.room)
      (ha : Holds h.cell (array p es)) (ht : Holds h.cell t)
      (d : Distinct (p ∷ (elem_addrs es ++ addrs t))) where
    parts : Distinct (elem_addrs es) × Distinct (addrs t) × Apart (elem_addrs es) (addrs t)
    parts = Distinct-append (elem_addrs es) (addrs t) d.1

    out_p : (has p (elem_addrs es) ≡ false) × (has p (addrs t) ≡ false)
    out_p = ground (arith, has-append p (elem_addrs es) (addrs t))

    out_e : (has h.next (elem_addrs es) ≡ false) × (has h.next (addrs t) ≡ false)
    out_e = (
      HoldsElems-fresh es h p h.next w ha.2 (omega arith),
      Holds-fresh t h h.next w ht (omega arith),
    )

    next_ne_null : h.next ≢ null
    next_ne_null = omega (arith, w.next_pos)

    p_ne_next : p ≢ h.next
    p_ne_next = ne_next h p (root_of t) (array_node ha.1.0 (count es % 2 ^ 32)) w ha.1.1

    snoc-Distinct : Distinct (p ∷ elem_addrs (snoc es h.next t))
    snoc-Distinct = rw (elem_addrs-snoc es h.next t) (
      ground (arith, has-append p (elem_addrs es) (h.next ∷ addrs t), out_p, p_ne_next),
      append-Distinct (elem_addrs es) (h.next ∷ addrs t) parts.0 (out_e.1, parts.1)
          λ a i. ground (arith, parts.2 a, out_e.0),
    )

    front-Distinct : Distinct (p ∷ h.next ∷ (addrs t ++ elem_addrs es))
    front-Distinct = (
      ground (arith, has-append p (addrs t) (elem_addrs es), out_p, p_ne_next),
      (
        ground (arith, has-append h.next (addrs t) (elem_addrs es), out_e),
        append-Distinct (addrs t) (elem_addrs es) parts.1 parts.0 λ a i. ground (arith, parts.2 a),
      ),
    )

    -- The heap that both leave.
    module _ (q' : L.Queue) where
      abbrev after : Heap Obj
      after = pushed h p (root_of t) q' (next_len (count es % 2 ^ 32))

      after-Pushed : Pushed h.cell after.cell p h.next (root_of t) q' (next_len (count es % 2 ^ 32))
      after-Pushed =
          push-Pushed h p (root_of t) (array_node ha.1.0 (count es % 2 ^ 32)) w ha.1.1 q' _

      after-IsHeap : IsHeap after
      after-IsHeap =
          push-IsHeap h p (root_of t) (array_node ha.1.0 (count es % 2 ^ 32)) w ha.1.1 q' _

      pushed_to : (a : Tree) → Holds after.cell a → Distinct (addrs a) → PushedTo a p h after
      pushed_to a held d' = record {
        held = held;
        distinct = d';
        is_heap = after-IsHeap;
        room = omega arith;
        next = omega arith;
        other = after-Pushed.other;
      }

    -- Where there is memory and the node shares no struct with the array, pt_array_push_back puts it
    -- behind the sequence, and changes nothing but the array and the new element.
    pub array_push_back-snoc :
        Returns
          (λ _ h'. PushedTo (array p (snoc es h.next t)) p h h')
          (array_push_back p (root_of t) h)
    unfolding array_push_back addrs
    array_push_back-snoc =
        let (ne, (q, at, i), rs) = ha in
        let q' = L.insert_tail h.next q in
        rw
          (
            not_null ne,
            load-ok h ne at,
            alloc-ok h (array_elem (root_of t) p) r,
            store-ok (grown h (array_elem (root_of t) p)) ne
                (kept_by_alloc h p (root_of t) (array_node q (count es % 2 ^ 32)) w at),
          )
          (done (
            pushed_to q' (array p (snoc es h.next t))
              (Holds-push_back h.cell (after q').cell p h.next es t q q' ha at ht next_ne_null
                out_p.0 out_e.0 out_p.1 out_e.1 i (after-Pushed q') (L.items-insert_tail h.next q))
              snoc-Distinct))

    -- Under the same conditions pt_array_push_front puts it in front, and changes nothing but the array
    -- and the new element.
    pub array_push_front-cons :
        Returns
          (λ _ h'. PushedTo (array p (elem h.next t es)) p h h')
          (array_push_front p (root_of t) h)
    unfolding array_push_front addrs
    array_push_front-cons =
        let (ne, (q, at, i), rs) = ha in
        let q' = L.insert_head h.next q in
        rw
          (
            not_null ne,
            load-ok h ne at,
            alloc-ok h (array_elem (root_of t) p) r,
            store-ok (grown h (array_elem (root_of t) p)) ne
                (kept_by_alloc h p (root_of t) (array_node q (count es % 2 ^ 32)) w at),
          )
          (done (
            pushed_to q' (array p (elem h.next t es))
              (Holds-push_front h.cell (after q').cell p h.next es t q q' ha at ht next_ne_null
                out_p.0 out_e.0 out_p.1 out_e.1 i (after-Pushed q') (L.items-insert_head h.next q))
              front-Distinct))
