-- ===== src/Tree/Edited.antt =====
-- What it means that an operation has changed one tree to another, in place.
use pillowtalk.Prelude.{◌≡◌, true, false, none, List, arith}
use pillowtalk.Libraries.{Ptr, Libraries}
use pillowtalk.Heap.{Heap, Obj}
use pillowtalk.Heap.Access.{IsHeap}
use pillowtalk.Tree.{Tree, addrs, Holds}
use pillowtalk.Tree.Footprint.{has, Distinct}
use pillowtalk.Free.Cells.{Gone}

module _ ⦃L : Libraries⦄ where
  -- What an operation makes of the tree `before`, if it is `after` then: what has left the tree is
  -- free, and no struct outside of it has changed.
  pub record Edited (before after : Tree) (h h' : Heap Obj) : Type 0 where
    pub held : Holds h'.cell after
    pub distinct : Distinct (addrs after)
    pub is_heap : IsHeap h'
    pub next : h'.next ≡ h.next
    pub room : h'.room ≡ h.room
    pub freed :
        (b : Ptr) → has b (addrs before) ≡ true → has b (addrs after) ≡ false → h'.cell b ≡ none
    pub other : (b : Ptr) → has b (addrs before) ≡ false → h'.cell b ≡ h.cell b

  pub Gone-IsHeap : {xs : List Ptr} {h h' : Heap Obj} → IsHeap h → Gone xs h h' → IsHeap h'
  Gone-IsHeap w g = record {
    next_pos = omega (arith, w.next_pos, g.next);
    unused = λ b le. ground (arith, g.cells b, w.unused b, g.next);
  }
