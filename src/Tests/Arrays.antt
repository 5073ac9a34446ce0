-- ===== src/Tests/Arrays.antt =====
-- Edits of the array [7], and the map {"a": [7]} with its own node set again.
use pillowtalk.Prelude.{same_bytes, ◌≡◌, refl, some, [], ◌∷◌, arith}
use pillowtalk.Prelude.Int.{pos}
use pillowtalk.Libraries.Lists.{list_libraries}
use pillowtalk.Heap.{◌>>◌}
use pillowtalk.Heap.Returns.{Returns}
use pillowtalk.Value.{int_value, null_value, scalar, value, no_values}
use pillowtalk.Tree.{addrs, meaning, root_of, pair, no_pairs}
use pillowtalk.Free.Gone.{size}
use pillowtalk.Node.{c_str}
use pillowtalk.Array.Edits.{run_array_edits-IsArray}
use pillowtalk.Array.Client.{push_first, push_last, remove_at, run_array_edits, IsArray}
use pillowtalk.Map.{map_get, map_set}
use pillowtalk.Map.Lookup.{get_tree}
use pillowtalk.Map.Same.{Dangling, map_set-Dangling}
use pillowtalk.Tests.Sample.{
  sample_array, sample_elems, sample_heap, sample-IsHeap, sample-Holds, array-Holds,
}

sample-IsArray : IsArray 2 (value (scalar (int_value (pos 7))) no_values) 2 sample_heap
unfolding addrs meaning size
sample-IsArray = record {
  elems = sample_elems;
  held = array-Holds;
  distinct = ground arith;
  whole = refl;
  is_heap = sample-IsHeap;
  means = refl;
  small = omega arith;
}

-- The 7 goes, and the index 5 is behind the end.
run_array_edits-IsArray_example :
    Returns
      (λ _ h'.
        IsArray 2 (value (scalar null_value) (value (scalar (int_value (pos 9))) no_values)) 10 h')
      (run_array_edits 20 2
        (push_last (int_value (pos 9)) ∷ push_first null_value ∷ remove_at 1 ∷ remove_at 5 ∷ [])
        sample_heap)
run_array_edits-IsArray_example =
    run_array_edits-IsArray
      (push_last (int_value (pos 9)) ∷ push_first null_value ∷ remove_at 1 ∷ remove_at 5 ∷ []) 20 2
      (value (scalar (int_value (pos 7))) no_values) 2 sample_heap sample-IsArray
      (tt, (tt, (omega arith, (omega arith, tt)))) (omega arith) (omega arith) (omega arith)

old_node : root_of (get_tree (c_str (97 ∷ [])) (pair 6 (97 ∷ []) sample_array no_pairs)) ≡ 2
unfolding c_str same_bytes
old_node = refl

map_set-Dangling_example :
    Returns
      (λ v h'. (v ≡ 2) × Dangling v h')
      ((map_set 9 1 (some (97 ∷ [])) 2 >> map_get 1 (some (97 ∷ []))) sample_heap)
unfolding addrs size c_str same_bytes
map_set-Dangling_example =
    map_set-Dangling 9 1 (pair 6 (97 ∷ []) sample_array no_pairs) (97 ∷ []) sample_heap sample-Holds
      (ground arith) (refl, tt) (λ e. omega (arith, old_node)) (omega arith) refl
