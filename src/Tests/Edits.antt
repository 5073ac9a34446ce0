-- ===== src/Tests/Edits.antt =====
-- The theorems on edits, copies and iterators at concrete inputs.
use pillowtalk.Prelude.{◌≡◌, refl, true, none, some, [], ◌∷◌, arith, same_bytes_iff}
use pillowtalk.Libraries.{has_key}
use pillowtalk.Libraries.Lists.{list_libraries}
use pillowtalk.Heap.{ok, null, ◌>>=◌}
use pillowtalk.Heap.Returns.{Returns}
use pillowtalk.Node.{c_str}
use pillowtalk.Tree.{object, array, pair, no_pairs, meaning, addrs}
use pillowtalk.Tree.Edited.{Edited}
use pillowtalk.Free.Gone.{size}
use pillowtalk.Json.Tokens.{depth}
use pillowtalk.Clone.{clone}
use pillowtalk.Clone.Steps.{Copied}
use pillowtalk.Clone.Copied.{clone-Copied}
use pillowtalk.Clone.Released.{clone-free_node}
use pillowtalk.Tree.Released.{Restored}
use pillowtalk.Free.{free_node}
use pillowtalk.Map.{map_set, map_unset}
use pillowtalk.Map.Addresses.{set_tree, drop_tree}
use pillowtalk.Map.Replace.{map_set-set_tree}
use pillowtalk.Map.Remove.{map_unset-drop_tree}
use pillowtalk.Array.{array_remove}
use pillowtalk.Array.Nodes.{drop_node}
use pillowtalk.Array.Remove.{array_remove-drop_node}
use pillowtalk.Iterator.{iterator, iterator_next}
use pillowtalk.Iterator.Visits.{
  next_times, nodes, items, at_elem, at_pair, iterator-nodes, iterator-items,
}
use pillowtalk.Tests.Sample.{
  sample, sample_array, sample_elems, number, sample_heap, sample-IsHeap, sample-Holds, array-Holds,
  number-Holds,
}

clone-Copied_example : Returns (Copied sample sample_heap) (clone 5 1 sample_heap)
unfolding meaning
clone-Copied_example =
    clone-Copied sample 5 sample_heap (unfold depth in omega arith) sample-IsHeap
      (unfold size in omega arith) sample-Holds (tt, (tt, tt), tt)

clone-free_node_example : Returns (Restored sample_heap) ((clone 5 1 >>= free_node 9) sample_heap)
unfolding meaning
clone-free_node_example =
    clone-free_node sample 5 9 sample_heap (unfold depth in omega arith)
      (unfold size in omega arith) sample-IsHeap (unfold size in omega arith) sample-Holds
      (tt, (tt, tt), tt)

-- "a" is a key of `sample`.
old_key : has_key (c_str (97 ∷ [])) ((97 ∷ [], 6) ∷ []) ≡ true
unfolding c_str
old_key = ground (arith, same_bytes_iff (97 ∷ []) (97 ∷ []))

map_set-set_tree_example :
    Returns
      (λ _ h'.
        Edited sample
          (object 1 (set_tree (c_str (97 ∷ [])) number (pair 6 (97 ∷ []) sample_array no_pairs)))
          sample_heap
          h')
      (map_set 9 1 (some (97 ∷ [])) 5 sample_heap)
map_set-set_tree_example =
    map_set-set_tree 9 1 (pair 6 (97 ∷ []) sample_array no_pairs) (97 ∷ []) number sample_heap
      sample-IsHeap sample-Holds number-Holds (omega arith) (unfold addrs in ground arith)
      (refl, tt) old_key (unfold size in ground arith)

map_unset-drop_tree_example :
    Returns
      (λ _ h'.
        Edited sample
          (object 1 (drop_tree (c_str (97 ∷ [])) (pair 6 (97 ∷ []) sample_array no_pairs)))
          sample_heap
          h')
      (map_unset 9 1 (some (97 ∷ [])) sample_heap)
map_unset-drop_tree_example =
    map_unset-drop_tree 9 1 (pair 6 (97 ∷ []) sample_array no_pairs) (97 ∷ []) sample_heap
      sample-IsHeap sample-Holds (unfold addrs in ground arith) (refl, tt) old_key
      (unfold size in ground arith)

array_remove-drop_node_example :
    Returns
      (λ _ h'. Edited sample_array (array 2 (drop_node 3 sample_elems)) sample_heap h')
      (array_remove 9 2 3 sample_heap)
array_remove-drop_node_example =
    array_remove-drop_node 9 2 3 sample_elems sample_heap sample-IsHeap array-Holds
      (unfold addrs in ground arith) refl (unfold size in omega arith)

iterator-nodes_example :
    ((iterator 2 >>= next_times 1) sample_heap
      ≡ ok (nodes sample_elems, some (at_elem null)) sample_heap)
    × (iterator_next (some (at_elem null)) sample_heap
        ≡ ok (null, none, some (at_elem null)) sample_heap)
iterator-nodes_example =
    iterator-nodes 2 sample_elems sample_heap array-Holds (unfold addrs in ground arith)

iterator-items_example :
    ((iterator 1 >>= next_times 1) sample_heap
      ≡ ok (items (pair 6 (97 ∷ []) sample_array no_pairs), some (at_pair null)) sample_heap)
    × (iterator_next (some (at_pair null)) sample_heap
        ≡ ok (null, none, some (at_pair null)) sample_heap)
iterator-items_example =
    iterator-items 1 (pair 6 (97 ∷ []) sample_array no_pairs) sample_heap sample-Holds
      (unfold addrs in ground arith)
