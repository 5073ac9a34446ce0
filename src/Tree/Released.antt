-- ===== src/Tree/Released.antt =====
-- A tree of new structs, released again by pt_free_node.
use pillowtalk.Prelude.{◌≤◌, true, false, ◌∙◌, ◌+◌, none, if◌then◌else◌, ℕ, ◌<◌, ◌≡◌, arith}
use pillowtalk.Libraries.{Ptr, Libraries}
use pillowtalk.Heap.{Heap, Obj}
use pillowtalk.Heap.Access.{IsHeap}
use pillowtalk.Heap.Returns.{Returns, Returns-weaken}
use pillowtalk.Tree.{Tree, root_of, addrs}
use pillowtalk.Tree.New.{NewTree, Holds-below}
use pillowtalk.Tree.Edited.{Gone-IsHeap}
use pillowtalk.Free.{free_node}
use pillowtalk.Tree.Changed.{Changed}
use pillowtalk.Tree.Footprint.{has, Holds-frame}
use pillowtalk.Free.Gone.{size, free_node-Gone}
use pillowtalk.Free.Cells.{Gone}

module _ ⦃L : Libraries⦄ where
  -- Every cell is what it was in `h`: what has been allocated since is free again.
  abbrev pub Restored : {A : Type 0} → Heap Obj → A → Heap Obj → Type 0
  Restored h _ h' = (b : Ptr) → h'.cell b ≡ h.cell b

  -- The same, for a heap from which one can go on; at most `n` allocations were made.
  pub record Settled (n : ℕ) (h h' : Heap Obj) : Type 0 where
    pub cells : (b : Ptr) → h'.cell b ≡ h.cell b
    pub is_heap : IsHeap h'
    pub grows : h.next ≤ h'.next
    pub room : h.room ≤ h'.room + n

  pub Settled-and_then :
      (n m : ℕ) (h h1 h2 : Heap Obj) → Settled n h h1 → Settled m h1 h2 → Settled (n + m) h h2
  Settled-and_then n m h h1 h2 x y = record {
    cells = λ b. y.cells b ∙ x.cells b;
    is_heap = y.is_heap;
    grows = omega (arith, x.grows, y.grows);
    room = omega (arith, x.room, y.room);
  }

  Gone-Settled :
      (h h1 h2 : Heap Obj) (t : Tree) (n : ℕ)
      → IsHeap h
      → NewTree h t n h1
      → Gone (addrs t) h1 h2
      → Settled n h h2
  Gone-Settled h h1 h2 t n w new gone = record {
    cells = λ b. ground (arith, gone.cells b, new.lost b, new.fresh b, new.same b, w.unused b);
    is_heap = Gone-IsHeap new.is_heap gone;
    grows = omega (arith, new.grows, gone.next);
    room = omega (arith, new.room, gone.room);
  }

  -- Once the structs of a new tree are gone, all cells are those of the heap before it was made.
  pub free_node-Settled :
      (h h1 : Heap Obj) (t : Tree) (n g : ℕ)
      → IsHeap h
      → n < g
      → NewTree h t n h1
      → Returns (λ _ h'. Settled n h h') (free_node g (root_of t) h1)
  free_node-Settled h h1 t n g w lt new =
      Returns-weaken (free_node-Gone t g h1 (omega (arith, new.small)) new.held new.distinct)
        λ _ h2 gone. Gone-Settled h h1 h2 t n w new gone

  -- A new tree is still one when something else has come and gone.
  pub Settled-NewTree :
      (h h1 h2 : Heap Obj) (t : Tree) (n m : ℕ)
      → NewTree h t n h1
      → Settled m h1 h2
      → NewTree h t (n + m) h2
  Settled-NewTree h h1 h2 t n m new s = record {
    held = Holds-frame t h1.cell h2.cell (λ b i. s.cells b) new.held;
    distinct = new.distinct;
    fresh = new.fresh;
    same = λ b lt. s.cells b ∙ new.same b lt;
    is_heap = s.is_heap;
    room = omega (arith, new.room, s.room);
    grows = omega (arith, new.grows, s.grows);
    lost = λ b le o. s.cells b ∙ new.lost b le o;
    small = omega (arith, new.small);
  }

  older_apart :
      (h h1 h2 : Heap Obj) (a t : Tree) (n m : ℕ) (b : Ptr)
      → NewTree h a n h1
      → NewTree h1 t m h2
      → has b (addrs t) ≡ true
      → has b (addrs a) ≡ false
  older_apart h h1 h2 a t n m b na nt i =
      ground (arith, nt.fresh b i, Holds-below a h1 b na.is_heap na.held)

  -- The older of two new trees may go first.
  pub older_first-NewTree :
      (h h1 h2 h3 : Heap Obj) (a t : Tree) (n m : ℕ)
      → NewTree h a n h1
      → NewTree h1 t m h2
      → Gone (addrs a) h2 h3
      → NewTree h t (n + m) h3
  older_first-NewTree h h1 h2 h3 a t n m na nt gone =
      let apart = λ (b : Ptr) (i : has b (addrs t) ≡ true). older_apart h h1 h2 a t n m b na nt i in
      record {
        held =
            Holds-frame t h2.cell h3.cell (λ b i. ground (arith, gone.cells b, apart b i)) nt.held;
        distinct = nt.distinct;
        fresh = λ b i. ground (arith, nt.fresh b, na.grows);
        same = λ b lt. ground (arith, gone.cells b, na.fresh b, na.same b, nt.same b, na.grows);
        is_heap = Gone-IsHeap nt.is_heap gone;
        room = omega (arith, na.room, nt.room, gone.room);
        grows = omega (arith, na.grows, nt.grows, gone.next);
        lost = λ b le o. ground (arith, gone.cells b, na.lost b, nt.lost b, nt.same b);
        small = omega (arith, nt.small);
      }

  -- The heap less the structs of a tree, where what is new has been released too.
  abbrev pub Without : {A : Type 0} → Tree → Heap Obj → A → Heap Obj → Type 0
  Without t h _ h' = (b : Ptr) → h'.cell b ≡ (if has b (addrs t) then none else h.cell b)

  Gone-Without :
      (h h1 h2 : Heap Obj) (a t : Tree) (n : ℕ) (b : Ptr)
      → IsHeap h
      → Changed a t n h h1
      → Gone (addrs t) h1 h2
      → h2.cell b ≡ (if has b (addrs a) then none else h.cell b)
  Gone-Without h h1 h2 a t n b w x gone =
      ground (arith, gone.cells b, x.lost b, x.other b, x.within b, w.unused b)

  -- A tree that has been changed in place is released as the one before would have been.
  pub free_node-Without :
      (h h1 : Heap Obj) (a t : Tree) (n g : ℕ)
      → IsHeap h
      → size a + n < g
      → Changed a t n h h1
      → Returns (Without a h) (free_node g (root_of t) h1)
  free_node-Without h h1 a t n g w lt x =
      Returns-weaken (free_node-Gone t g h1 (omega (arith, x.small)) x.held x.distinct)
        λ _ h2 gone b. Gone-Without h h1 h2 a t n b w x gone
