-- ===== src/Tests/Conflict.antt =====
-- The merge of {"a": {"b": "c"}} into {"a": {"b": 7}}: the conflict is below the first level.
use pillowtalk.Prelude.{
  ◌≡◌, refl, Option, none, some, [], ◌∷◌, ◌==◌, if◌then◌else◌, arith, same_bytes,
}
use pillowtalk.Prelude.Int.{pos}
use pillowtalk.Libraries.{Ptr}
use pillowtalk.Libraries.Lists.{list_libraries}
use pillowtalk.Heap.{Heap, Obj, map_node, int_node, string_node, key_value}
use pillowtalk.Heap.Returns.{Returns}
use pillowtalk.Node.{c_str}
use pillowtalk.Value.{int_value, text}
use pillowtalk.Tree.{Tree, Pairs, leaf, object, pair, no_pairs, Holds, addrs, meaning}
use pillowtalk.Free.Gone.{size}
use pillowtalk.Update.{map_update}
use pillowtalk.Update.Ready.{Ready}
use pillowtalk.Update.Code.{map_update-clashes}

abbrev below : Ptr → Ptr → Tree → Tree
below p e t = object p (pair e (98 ∷ []) t no_pairs)

abbrev number_below : Pairs
number_below = pair 7 (97 ∷ []) (below 3 8 (leaf 5 (int_value (pos 7)))) no_pairs

abbrev text_below : Pairs
text_below = pair 9 (97 ∷ []) (below 4 10 (leaf 6 (text (99 ∷ [])))) no_pairs

abbrev cells : Ptr → Option (Obj)
cells p =
    if p == 1
    then some (map_node ((97 ∷ [], 7) ∷ []))
    else if p == 2
    then some (map_node ((97 ∷ [], 9) ∷ []))
    else if p == 3
    then some (map_node ((98 ∷ [], 8) ∷ []))
    else if p == 4
    then some (map_node ((98 ∷ [], 10) ∷ []))
    else if p == 5
    then some (int_node (pos 7))
    else if p == 6
    then some (string_node (99 ∷ []))
    else if p == 7
    then some (key_value (97 ∷ []) 3 1)
    else if p == 8
    then some (key_value (98 ∷ []) 5 3)
    else if p == 9
    then some (key_value (97 ∷ []) 4 2)
    else if p == 10
    then some (key_value (98 ∷ []) 6 4)
    else none

abbrev conflicting : Heap (Obj)
conflicting = record { next = 11; room = 10; cell = cells }

number-Holds : Holds cells (below 3 8 (leaf 5 (int_value (pos 7))))
number-Holds =
    (omega arith, ((98 ∷ [], 8) ∷ [], refl, refl), (omega arith, refl, (omega arith, refl), tt))

text-Holds : Holds cells (below 4 10 (leaf 6 (text (99 ∷ []))))
text-Holds =
    (omega arith, ((98 ∷ [], 10) ∷ [], refl, refl), (omega arith, refl, (omega arith, refl), tt))

conflicting-Ready : Ready 13 1 2 number_below text_below conflicting
unfolding addrs meaning size
conflicting-Ready = record {
  is_heap = record { next_pos = omega arith; unused = λ p h. ground arith };
  root_held = (omega arith, ((97 ∷ [], 7) ∷ [], refl, refl), (omega arith, refl, number-Holds, tt));
  root_distinct = ground arith;
  keyed = ((refl, tt), (((refl, tt), (tt, tt)), tt));
  added_held = (omega arith, ((97 ∷ [], 9) ∷ [], refl, refl), (omega arith, refl, text-Holds, tt));
  added_distinct = ground arith;
  apart = λ b i. ground arith;
  keys = (tt, (tt, tt, tt), tt);
  room = omega arith;
  enough = omega arith;
}

map_update-clashes_example : Returns (λ code _. code ≡ 0) (map_update 13 1 2 0 conflicting)
unfolding meaning same_bytes c_str
map_update-clashes_example =
    map_update-clashes 13 1 2 number_below text_below 0 conflicting conflicting-Ready
