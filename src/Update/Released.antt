-- ===== src/Update/Released.antt =====
-- A merged document, released: the merge leaves nothing over.
use pillowtalk.Prelude.{ℕ, ◌+◌, ◌<◌, arith}
use pillowtalk.Libraries.{Ptr, Libraries}
use pillowtalk.Heap.{Heap, Obj, ◌>>=◌}
use pillowtalk.Heap.Returns.{Returns, Returns-and_then}
use pillowtalk.Tree.{Pairs, object}
use pillowtalk.Tree.Released.{Without, free_node-Without}
use pillowtalk.Free.{free_node}
use pillowtalk.Free.Gone.{size, pairs_size}
use pillowtalk.Update.{map_update}
use pillowtalk.Update.Merged.{map_update-Merged}
use pillowtalk.Update.Ready.{Ready}

module _ ⦃L : Libraries⦄ where
  -- Where pt_map_update may merge, with more fuel than the structs of both maps and one, pt_map_update and
  -- then pt_free_node of the root end without a fault and leave the heap as it was less the structs of
  -- the root: what has been replaced is free already, and the additions are as they were.
  pub map_update-free_node :
      (f g : ℕ) (p a : Ptr) (ps qs : Pairs) (append : ℕ) (h : Heap Obj)
      → Ready f p a ps qs h
      → pairs_size ps + pairs_size qs + 1 < g
      → Returns (Without (object p ps) h) ((map_update f p a append >>= λ code. free_node g p) h)
  unfolding size
  map_update-free_node f g p a ps qs append h r lt =
      Returns-and_then (map_update-Merged f p a ps qs append h r) λ code h1 m.
        free_node-Without h h1 (object p ps) (object p m.now) (pairs_size qs) g r.is_heap
          (omega arith) m.changed
