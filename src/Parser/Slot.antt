-- ===== src/Parser/Slot.antt =====
-- Where the parser puts the next value, and what the heap is once it is there.
use pillowtalk.Prelude.{ℕ, ◌+◌, ◌%◌, ◌^◌, ◌<◌, ◌≤◌, ◌≡◌, ◌≢◌, refl, ◌∙◌, some, List, [], ◌∷◌, arith}
use pillowtalk.Libraries.{Bytes, Ptr, Libraries}
use pillowtalk.Heap.{Heap, null, write, Obj, array_node, key_value, array_elem}
use pillowtalk.Heap.Access.{
  IsHeap, alloc-IsHeap, not_null, load-ok, store-ok, alloc-ok, used-lt, grown-keeps, put-IsHeap,
  grown,
}
use pillowtalk.Heap.Returns.{Returns, done}
use pillowtalk.Parser.{Frame, Context, frame, context, add_node_to_context_container, add_leaf}

module _ ⦃L : Libraries⦄ where
  -- The document's root, the end of an open array, or the value of the pair whose key came last.
  pub data Slot (h : Heap Obj) : Context → Type 0 where
    top : {r : Ptr} → Slot h (context r [])
    in_array :
        {r a : Ptr} {q : L.Queue} {n : ℕ} {rest : List Frame}
        → a ≢ null
        → h.cell a ≡ some (array_node q n)
        → Slot h (context r (frame a a ∷ rest))
    in_pair :
        {r m p : Ptr} {k : Bytes} {v : Ptr} {rest : List Frame}
        → p ≢ null
        → h.cell p ≡ some (key_value k v m)
        → Slot h (context r (frame m p ∷ rest))

  -- The structs that are allocated for the node itself and for its array element.
  abbrev pub skip : {h : Heap Obj} {c : Context} → Slot h c → ℕ
  skip top = 1
  skip (in_array ne e) = 2
  skip (in_pair ne e) = 1

  pub skip-le : {h : Heap Obj} {c : Context} (s : Slot h c) → skip s ≤ 2
  skip-le top = omega arith
  skip-le (in_array ne e) = omega arith
  skip-le (in_pair ne e) = omega arith

  -- The older structs are as they were.
  abbrev pub SameBelow : (h h' : Heap Obj) → Type 0
  SameBelow h h' = (b : Ptr) → b < h.next → h'.cell b ≡ h.cell b

  abbrev pub SameBut : (h h' : Heap Obj) → Ptr → Type 0
  SameBut h h' a = (b : Ptr) → b < h.next → b ≢ a → h'.cell b ≡ h.cell b

  -- `node` is in its slot.
  abbrev pub Attached :
      {h : Heap Obj} {c : Context} → Slot h c → (node : Ptr) → Heap Obj → Context → Type 0
  Attached {h} top node h' c' = (c' ≡ context node []) × SameBelow h h'
  Attached {h} (in_array {r} {a} {q} {n} {rest} ne e) node h' c' =
      (c' ≡ context r (frame a a ∷ rest))
      × (h'.cell a ≡ some (array_node (L.insert_tail (h.next + 1) q) ((n + 1) % 2 ^ 32)))
      × (h'.cell (h.next + 1) ≡ some (array_elem node a))
      × SameBut h h' a
  Attached {h} (in_pair {r} {m} {p} {k} {v} {rest} ne e) node h' c' =
      (c' ≡ context r (frame m p ∷ rest)) × (h'.cell p ≡ some (key_value k node m)) × SameBut h h' p

  -- A change of fresh cells alone leaves the node in its slot.
  pub Attached-frame :
      {h : Heap Obj} {c : Context} (s : Slot h c) (node : Ptr) (h1 h2 : Heap Obj) (c1 : Context)
      → IsHeap h
      → ((b : Ptr) → b < h.next + skip s → b ≢ h.next → h2.cell b ≡ h1.cell b)
      → Attached s node h1 c1
      → Attached s node h2 c1
  Attached-frame top node h1 h2 c1 w same (ce, below) =
      (ce, λ b lt. same b (omega arith) (omega arith) ∙ below b lt)
  Attached-frame {h} (in_array {a} ne e) node h1 h2 c1 w same (ce, at, item, below) =
      let small : a < h.next = used-lt h a w e in
      (
        ce,
        same a (omega arith) (omega arith) ∙ at,
        same (h.next + 1) (omega arith) (omega arith) ∙ item,
        λ b lt ne. same b (omega arith) (omega arith) ∙ below b lt ne,
      )
  Attached-frame {h} (in_pair {p} ne e) node h1 h2 c1 w same (ce, at, below) =
      let small : p < h.next = used-lt h p w e in
      (
        ce,
        same p (omega arith) (omega arith) ∙ at,
        λ b lt ne. same b (omega arith) (omega arith) ∙ below b lt ne,
      )

  -- A new node, allocated and put in its slot.
  pub record NewNode {h : Heap Obj} {c : Context} (s : Slot h c) (o : Obj) (c' : Context)
      (h' : Heap Obj) : Type 0 where
    pub attached : Attached s h.next h' c'
    pub node : h'.cell h.next ≡ some o
    pub is_heap : IsHeap h'
    pub next : h'.next ≡ h.next + skip s
    pub room : h'.room + skip s ≡ h.room

  pub add_leaf-NewNode :
      {h : Heap Obj} {c : Context} (s : Slot h c) (o : Obj)
      → IsHeap h
      → 2 ≤ h.room
      → Returns (NewNode s o) (add_leaf o c h)
  unfolding add_leaf write
  add_leaf-NewNode {h} top o w r = rw (alloc-ok h o (omega arith)) (
      done (record {
        attached = (refl, λ b lt. ground arith);
        node = ground arith;
        is_heap = alloc-IsHeap {h = h} o w;
        next = refl;
        room = omega arith;
      }))
  add_leaf-NewNode {h} (in_array {a} {q} {n} ne e) o w r =
      let h1 = grown h o in
      let x = array_elem h.next a in
      let h2 = grown h1 x in
      let w1 = alloc-IsHeap {h = h} o w in
      let e1 = grown-keeps h a o w e in
      let e2 = grown-keeps h1 a x w1 e1 in
      let lt = used-lt h a w e in
      rw
        (
          alloc-ok h o (omega arith),
          not_null ne,
          load-ok h1 ne e1,
          alloc-ok h1 x (omega arith),
          store-ok h2 ne e2,
        )
        (done (record {
          attached = (refl, ground arith, ground arith, λ b l n. ground arith);
          node = ground arith;
          is_heap =
              put-IsHeap h2 a (some (array_node (L.insert_tail (h.next + 1) q) ((n + 1) % 2 ^ 32)))
                (alloc-IsHeap {h = h1} x w1) (omega arith);
          next = omega arith;
          room = omega arith;
        }))
  add_leaf-NewNode {h} (in_pair {m} {p} {k} {v} ne e) o w r =
      let h1 = grown h o in
      let w1 = alloc-IsHeap {h = h} o w in
      let e1 = grown-keeps h p o w e in
      let lt = used-lt h p w e in
      rw (alloc-ok h o (omega arith), not_null ne, load-ok h1 ne e1, store-ok h1 ne e1)
        (done (record {
          attached = (refl, ground arith, λ b l n. ground arith);
          node = ground arith;
          is_heap = put-IsHeap h1 p (some (key_value k h.next m)) w1 (omega arith);
          next = omega arith;
          room = omega arith;
        }))

  pub add_node-NewNode :
      {h : Heap Obj} {c : Context} (s : Slot h c) (o : Obj)
      → IsHeap h
      → 2 ≤ h.room
      → Returns (NewNode s o) (add_node_to_context_container c h.next (grown h o))
  unfolding add_leaf
  add_node-NewNode {h} {c} s o w r = rw (alloc-ok h o (omega arith)) at (add_leaf-NewNode s o w r)
