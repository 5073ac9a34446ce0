-- ===== src/Tests/Merge.antt =====
-- The merge of {"a": 8} into {"a": 7}.
use pillowtalk.Prelude.{refl, Option, none, some, [], ◌∷◌, ◌==◌, if◌then◌else◌, arith}
use pillowtalk.Prelude.Int.{pos}
use pillowtalk.Libraries.{Ptr}
use pillowtalk.Libraries.Lists.{list_libraries}
use pillowtalk.Heap.{◌>>=◌, Heap, Obj, map_node, int_node, key_value}
use pillowtalk.Heap.Returns.{Returns}
use pillowtalk.Value.{int_value}
use pillowtalk.Tree.{Pairs, leaf, object, pair, no_pairs, Holds, addrs, meaning}
use pillowtalk.Free.Gone.{size}
use pillowtalk.Update.{map_update}
use pillowtalk.Update.Released.{map_update-free_node}
use pillowtalk.Tree.Released.{Without}
use pillowtalk.Free.{free_node}
use pillowtalk.Update.Merged.{map_update-Merged}
use pillowtalk.Update.Ready.{Ready, Merged}

abbrev pub root_pairs : Pairs
root_pairs = pair 6 (97 ∷ []) (leaf 3 (int_value (pos 7))) no_pairs

abbrev pub added_pairs : Pairs
added_pairs = pair 5 (97 ∷ []) (leaf 4 (int_value (pos 8))) no_pairs

abbrev pub two_cells : Ptr → Option (Obj)
two_cells p =
    if p == 1
    then some (map_node ((97 ∷ [], 6) ∷ []))
    else if p == 2
    then some (map_node ((97 ∷ [], 5) ∷ []))
    else if p == 3
    then some (int_node (pos 7))
    else if p == 4
    then some (int_node (pos 8))
    else if p == 5
    then some (key_value (97 ∷ []) 4 2)
    else if p == 6
    then some (key_value (97 ∷ []) 3 1)
    else none

abbrev pub two_maps : Heap (Obj)
two_maps = record { next = 7; room = 10; cell = two_cells }

root-Holds : Holds two_cells (object 1 root_pairs)
root-Holds =
    (omega arith, ((97 ∷ [], 6) ∷ [], refl, refl), (omega arith, refl, (omega arith, refl), tt))

added-Holds : Holds two_cells (object 2 added_pairs)
added-Holds =
    (omega arith, ((97 ∷ [], 5) ∷ [], refl, refl), (omega arith, refl, (omega arith, refl), tt))

pub two_maps-Ready : Ready 9 1 2 root_pairs added_pairs two_maps
unfolding addrs meaning size
two_maps-Ready = record {
  is_heap = record { next_pos = omega arith; unused = λ p h. ground arith };
  root_held = root-Holds;
  root_distinct = ground arith;
  keyed = ((refl, tt), (tt, tt));
  added_held = added-Holds;
  added_distinct = ground arith;
  apart = λ b i. ground arith;
  keys = (tt, tt, tt);
  room = omega arith;
  enough = omega arith;
}

map_update-Merged_example :
    Returns (Merged 1 root_pairs added_pairs two_maps) (map_update 9 1 2 0 two_maps)
map_update-Merged_example = map_update-Merged 9 1 2 root_pairs added_pairs 0 two_maps two_maps-Ready

map_update-free_node_example :
    Returns
      (Without (object 1 root_pairs) two_maps)
      ((map_update 9 1 2 0 >>= λ code. free_node 9 1) two_maps)
map_update-free_node_example =
    map_update-free_node 9 9 1 2 root_pairs added_pairs 0 two_maps two_maps-Ready
      (unfold size in omega arith)
