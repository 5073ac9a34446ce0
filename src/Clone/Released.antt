-- ===== src/Clone/Released.antt =====
-- pt_clone followed by pt_free_node of the copy: no struct is left over.
use pillowtalk.Prelude.{ℕ, ◌<◌, ◌≤◌}
use pillowtalk.Libraries.{Libraries}
use pillowtalk.Heap.{Heap, Obj, ◌>>=◌}
use pillowtalk.Heap.Access.{IsHeap}
use pillowtalk.Heap.Returns.{Returns, Returns-and_then, Returns-weaken}
use pillowtalk.Tree.{Tree, root_of, meaning, Holds}
use pillowtalk.Tree.Released.{Restored, free_node-Settled}
use pillowtalk.Free.{free_node}
use pillowtalk.Free.Gone.{size}
use pillowtalk.Json.Tokens.{depth}
use pillowtalk.Clone.{clone}
use pillowtalk.Clone.Kept.{DistinctKeys}
use pillowtalk.Clone.Copied.{clone-Copied}

module _ ⦃L : Libraries⦄ where
  -- Where memory suffices, the fuel of each exceeds the depth, or the number, of the structs of the
  -- tree, and no two keys of one map read alike: pt_clone and then pt_free_node of the copy end
  -- without a fault and leave every cell of the heap as it was, so that no struct is left over.
  pub clone-free_node :
      (t : Tree) (f g : ℕ) (h : Heap Obj)
      → depth t < f
      → size t < g
      → IsHeap h
      → size t ≤ h.room
      → Holds h.cell t
      → DistinctKeys (meaning t)
      → Returns (Restored h) ((clone f (root_of t) >>= free_node g) h)
  clone-free_node t f g h d lt w r held u =
      Returns-and_then (clone-Copied t f h d w r held u) λ root h1 c.
        rw (← c.root_is)
          (Returns-weaken (free_node-Settled h h1 c.copy (size t) g w lt c.new) λ _ h2 s. s.cells)
