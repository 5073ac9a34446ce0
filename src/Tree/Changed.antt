-- ===== src/Tree/Changed.antt =====
-- What it means that a tree has been changed in place, with new structs put into it.
use pillowtalk.Prelude.{ℕ, ◌+◌, ◌<◌, ◌≤◌, ◌≡◌, refl, true, false, none, ◌⊎◌, inl, arith}
use pillowtalk.Libraries.{Ptr, Libraries}
use pillowtalk.Heap.{Heap, Obj}
use pillowtalk.Heap.Access.{IsHeap}
use pillowtalk.Tree.{Tree, Pairs, addrs, pair_addrs, Holds, HoldsPairs}
use pillowtalk.Tree.Footprint.{has, Distinct, Holds-frame, HoldsPairs-frame}
use pillowtalk.Tree.Fresh.{HoldsPairs-fresh}
use pillowtalk.Free.Gone.{size}
use pillowtalk.Tree.New.{NewTree, Holds-below}

module _ ⦃L : Libraries⦄ where
  -- The structs of `after` are those of `before` and all new ones, of which there are `n` at most; what
  -- has left the tree is free, and no older struct outside of `before` has changed.
  pub record Changed (before after : Tree) (n : ℕ) (h h' : Heap Obj) : Type 0 where
    pub held : Holds h'.cell after
    pub distinct : Distinct (addrs after)
    pub is_heap : IsHeap h'
    pub within :
        (b : Ptr) → has b (addrs after) ≡ true → (has b (addrs before) ≡ true) ⊎ (h.next ≤ b)
    pub other : (b : Ptr) → b < h.next → has b (addrs before) ≡ false → h'.cell b ≡ h.cell b
    pub lost :
        (b : Ptr)
        → (has b (addrs before) ≡ true) ⊎ (h.next ≤ b)
        → has b (addrs after) ≡ false
        → h'.cell b ≡ none
    pub grows : h.next ≤ h'.next
    pub room : h.room ≤ h'.room + n
    pub small : size after ≤ size before + n

  pub unchanged :
      (t : Tree) (h : Heap Obj) → Holds h.cell t → Distinct (addrs t) → IsHeap h → Changed t t 0 h h
  unchanged t h r d w = record {
    held = r;
    distinct = d;
    is_heap = w;
    within = λ b i. inl i;
    other = λ b lt o. refl;
    lost = λ b i o. ground (arith, w.unused b);
    grows = omega arith;
    room = omega arith;
    small = omega arith;
  }

  pub Changed-weaken :
      {a b : Tree} {n m : ℕ} {h h' : Heap Obj} → n ≤ m → Changed a b n h h' → Changed a b m h h'
  Changed-weaken le c = record {
    held = c.held;
    distinct = c.distinct;
    is_heap = c.is_heap;
    within = c.within;
    other = c.other;
    lost = c.lost;
    grows = c.grows;
    room = omega (arith, c.room);
    small = omega (arith, c.small);
  }

  pub Changed-and_then :
      (a b c : Tree) (n m : ℕ) (h h1 h2 : Heap Obj)
      → Changed a b n h h1
      → Changed b c m h1 h2
      → Changed a c (n + m) h h2
  Changed-and_then a b c n m h h1 h2 x y = record {
    held = y.held;
    distinct = y.distinct;
    is_heap = y.is_heap;
    within = λ p i. ground (arith, y.within p, x.within p, x.grows);
    other = λ p lt o. ground (arith, y.other p, x.other p, x.within p, x.grows);
    lost = λ p i o. ground (arith, x.lost p, y.lost p, y.other p, x.grows);
    grows = omega (arith, x.grows, y.grows);
    room = omega (arith, x.room, y.room);
    small = omega (arith, x.small, y.small);
  }

  -- A tree that shares no struct with `before` is still there.
  pub Changed-keeps :
      (a b t : Tree) (n : ℕ) (h h' : Heap Obj)
      → Changed a b n h h'
      → IsHeap h
      → Holds h.cell t
      → ((p : Ptr) → has p (addrs t) ≡ true → has p (addrs a) ≡ false)
      → Holds h'.cell t
  Changed-keeps a b t n h h' x w r apart =
      Holds-frame t h.cell h'.cell (λ p i. x.other p (Holds-below t h p w r i) (apart p i)) r

  pub Changed-keeps_pairs :
      (a b : Tree) (m : Ptr) (ps : Pairs) (n : ℕ) (h h' : Heap Obj)
      → Changed a b n h h'
      → IsHeap h
      → HoldsPairs h.cell m ps
      → ((p : Ptr) → has p (pair_addrs ps) ≡ true → has p (addrs a) ≡ false)
      → HoldsPairs h'.cell m ps
  Changed-keeps_pairs a b m ps n h h' x w r apart =
      HoldsPairs-frame ps m h.cell h'.cell
        (λ p i. x.other p (ground (arith, HoldsPairs-fresh ps h m p w r)) (apart p i)) r

  -- A new tree that has been changed in place is still new.
  pub Changed-NewTree :
      (h h1 h2 : Heap Obj) (a b : Tree) (n m : ℕ)
      → NewTree h a n h1
      → Changed a b m h1 h2
      → NewTree h b (n + m) h2
  Changed-NewTree h h1 h2 a b n m new x = record {
    held = x.held;
    distinct = x.distinct;
    fresh = λ p i. ground (arith, x.within p i, new.fresh p, new.grows);
    same = λ p lt. ground (arith, x.other p, new.same p, new.fresh p, new.grows);
    is_heap = x.is_heap;
    room = omega (arith, new.room, x.room);
    grows = omega (arith, new.grows, x.grows);
    lost = λ p le o. ground (arith, x.lost p, x.other p, new.lost p);
    small = omega (arith, new.small, x.small);
  }
