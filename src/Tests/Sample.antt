-- ===== src/Tests/Sample.antt =====
-- The document {"a": [7]} in a heap, and a generator that counts.
use pillowtalk.Prelude.{
  refl, Option, none, some, List, [], ◌∷◌, ◌++◌, arith, ◌==◌, if◌then◌else◌, length,
}
use pillowtalk.Prelude.Int.{pos}
use pillowtalk.Libraries.{Ptr}
use pillowtalk.Libraries.Lists.{list_libraries}
use pillowtalk.Heap.{Heap, Obj, map_node, array_node, int_node, key_value, array_elem}
use pillowtalk.Heap.Access.{IsHeap}
use pillowtalk.Value.{int_value}
use pillowtalk.Tree.{Tree, Elems, leaf, array, object, no_elems, elem, no_pairs, pair, Holds}
use pillowtalk.Json.{Token, YajlGen}

-- {"a": [7]} at the addresses 1 to 4, and a further number at 5.
abbrev pub sample_elems : Elems
sample_elems = elem 4 (leaf 3 (int_value (pos 7))) no_elems

abbrev pub sample_array : Tree
sample_array = array 2 sample_elems

abbrev pub sample : Tree
sample = object 1 (pair 6 (97 ∷ []) sample_array no_pairs)

abbrev pub number : Tree
number = leaf 5 (int_value (pos 8))

abbrev pub sample_cell : Ptr → Option (Obj)
sample_cell p =
    if p == 1
    then some (map_node ((97 ∷ [], 6) ∷ []))
    else if p == 2
    then some (array_node (4 ∷ []) 1)
    else if p == 3
    then some (int_node (pos 7))
    else if p == 4
    then some (array_elem 3 2)
    else if p == 5
    then some (int_node (pos 8))
    else if p == 6
    then some (key_value (97 ∷ []) 2 1)
    else none

abbrev pub sample_heap : Heap (Obj)
sample_heap = record { next = 7; room = 10; cell = sample_cell }

pub sample-IsHeap : IsHeap sample_heap
sample-IsHeap = record { next_pos = omega arith; unused = λ p h. ground arith }

pub seven-Holds : Holds sample_cell (leaf 3 (int_value (pos 7)))
seven-Holds = (omega arith, refl)

pub array-Holds : Holds sample_cell sample_array
array-Holds = (omega arith, (4 ∷ [], refl, refl), (omega arith, refl, seven-Holds, tt))

pub sample-Holds : Holds sample_cell sample
sample-Holds = (omega arith, ((97 ∷ [], 6) ∷ [], refl, refl), (omega arith, refl, array-Holds, tt))

pub number-Holds : Holds sample_cell number
number-Holds = (omega arith, refl)

-- A generator that keeps the calls that it was given, and prints their number.
instance abbrev pub counting : YajlGen
counting = record {
  Gen = List (Token);
  gen_alloc = λ b. [];
  gen = λ t ts. ts ++ t ∷ [];
  get_buf = λ ts. length ts ∷ [];
}
