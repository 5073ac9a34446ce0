-- ===== src/Tests/Fuel.antt =====
-- The fuel of the operations on {"a": [7]} and of the merge of {"a": 8} into {"a": 7}.
use pillowtalk.Prelude.{arith}
use pillowtalk.Libraries.Lists.{list_libraries}
use pillowtalk.Tree.{addrs, meaning}
use pillowtalk.Free.{free_node}
use pillowtalk.Free.Gone.{size}
use pillowtalk.Clone.{clone}
use pillowtalk.Json.{to_json}
use pillowtalk.Update.{map_update}
use pillowtalk.Fuel.Enough.{Terminates, tree-Terminates, map_update-Terminates}
use pillowtalk.Tests.Sample.{sample, sample_heap, sample-IsHeap, sample-Holds, counting}
use pillowtalk.Tests.Merge.{root_pairs, added_pairs, two_maps, two_maps-Ready}

tree-Terminates_example :
    Terminates 6 (λ f. free_node f 1 sample_heap)
    × Terminates 6 (λ f. clone f 1 sample_heap)
    × Terminates 6 (λ f. to_json f 1 1 sample_heap)
unfolding addrs meaning size
tree-Terminates_example =
    tree-Terminates sample 1 sample_heap sample-IsHeap sample-Holds (ground arith)
      (tt, (tt, tt), tt) (omega arith)

map_update-Terminates_example : Terminates 9 (λ f. map_update f 1 2 0 two_maps)
map_update-Terminates_example =
    map_update-Terminates 9 1 2 root_pairs added_pairs 0 two_maps two_maps-Ready
