-- ===== src/Tests.antt =====
-- The theorems at concrete inputs, with the interfaces kept as lists.
mod Edits
mod Merge
mod Program
mod Example
mod Main
mod Fuel
mod Arrays
mod Network
mod Conflict
mod Sample
use pillowtalk.Prelude.{
  ◌%◌, ◌^◌, ◌≡◌, refl, true, Option, none, some, List, [], ◌∷◌, ◌++◌, map, arith, ◌==◌,
  if◌then◌else◌, length, drop, false, same_bytes, same_bytes_iff,
}
use pillowtalk.Prelude.Int.{pos}
use pillowtalk.Libraries.{Ptr, has_key}
use pillowtalk.Libraries.Lists.{list_libraries}
use pillowtalk.Map.Guards.{MapRefuses, ArrayRefuses, wrong_type}
use pillowtalk.Map.Insert.{map_set-snoc_pair}
use pillowtalk.Tree.LastPair.{snoc_pair}
use pillowtalk.Map.GetSet.{map_get-map_set}
use pillowtalk.Update.{merge_existing}
use pillowtalk.Http.Failure.{http_operation-refused}
use pillowtalk.Json.RoundTrip.{IsDocument, from_json-to_json}
use pillowtalk.Heap.{
  null, pure, fault, pt_map, pt_array, ◌>>=◌, ◌>>◌, Heap, ok, Obj, map_node, array_node, int_node,
  key_value, array_elem,
}
use pillowtalk.Heap.Access.{IsHeap}
use pillowtalk.Heap.Returns.{Returns}
use pillowtalk.Value.{
  int_value, Value, scalar, missing, sequence, mapping, value, no_values, field, no_fields,
}
use pillowtalk.Node.{c_str}
use pillowtalk.Map.{map_get, map_set, map_unset}
use pillowtalk.Map.Lookup.{get_tree, map_get-get_tree}
use pillowtalk.Parser.{YajlParse, parse_json, from_json}
use pillowtalk.Parser.Events.{events_of, cost}
use pillowtalk.Parser.Document.{Parsed, parse_json-Parsed}
use pillowtalk.Tree.{
  count, Tree, Elems, leaf, array, object, no_elems, elem, no_pairs, pair, root_of, Holds, addrs,
  meaning,
}
use pillowtalk.Json.{Token, YajlGen, to_json}
use pillowtalk.Json.Tokens.{tokens, depth, emit, to_json-tokens}
use pillowtalk.Free.{free_node}
use pillowtalk.Free.Gone.{size, free_node-Gone}
use pillowtalk.Free.Cells.{Gone}
use pillowtalk.Array.{array_get, array_len, array_push_back, array_push_front}
use pillowtalk.Array.Read.{nth, array_len-array_get}
use pillowtalk.Array.Push.{PushedTo, array_push_back-snoc, array_push_front-cons}
use pillowtalk.Tree.Append.{snoc}
use pillowtalk.Chunk.Send.{drain, offered, drain-offered, drain-all}
use pillowtalk.Http.{get_method, receives, Curl, http_operation}
use pillowtalk.Http.Body.{body, outcome, answer_for, http_operation-answer}
use pillowtalk.Tests.Sample.{
  sample_elems, sample_array, sample, number, sample_cell, sample_heap, sample-IsHeap, seven-Holds,
  array-Holds, sample-Holds, number-Holds, counting,
}

to_json-tokens_example :
    to_json 5 1 0 sample_heap
    ≡ ok (counting.get_buf (emit (tokens (meaning sample)) (counting.gen_alloc 0))) sample_heap
to_json-tokens_example =
    to_json-tokens sample 5 sample_heap 0 (unfold depth in omega arith) sample-Holds

free_node-Gone_example :
    Returns (λ _ h'. Gone (addrs sample) sample_heap h') (free_node 9 1 sample_heap)
free_node-Gone_example =
    free_node-Gone sample 9 sample_heap (unfold size in omega arith) sample-Holds
      (unfold addrs in ground arith)

array_len-array_get_example :
    (array_len 2 sample_heap ≡ ok (count sample_elems) sample_heap)
    × (array_get 2 0 sample_heap ≡ ok (root_of (nth sample_elems 0)) sample_heap)
array_len-array_get_example =
    array_len-array_get 2 sample_elems sample_heap 0 array-Holds (omega arith) (omega arith)

array_push_back-snoc_example :
    Returns
      (λ _ h'. PushedTo (array 2 (snoc sample_elems 7 number)) 2 sample_heap h')
      (array_push_back 2 5 sample_heap)
array_push_back-snoc_example =
    array_push_back-snoc 2 sample_elems number sample_heap sample-IsHeap (omega arith) array-Holds
      number-Holds (unfold addrs in ground arith)

array_push_front-cons_example :
    Returns
      (λ _ h'. PushedTo (array 2 (elem 7 number sample_elems)) 2 sample_heap h')
      (array_push_front 2 5 sample_heap)
array_push_front-cons_example =
    array_push_front-cons 2 sample_elems number sample_heap sample-IsHeap (omega arith) array-Holds
      number-Holds (unfold addrs in ground arith)

drain-offered_example :
    (drain ((1, 2) ∷ (5, 1) ∷ []) (offered (1 ∷ 2 ∷ 3 ∷ []))).0
      ++ drop
          (drain ((1, 2) ∷ (5, 1) ∷ []) (offered (1 ∷ 2 ∷ 3 ∷ []))).1.offset
          (map some (1 ∷ 2 ∷ 3 ∷ []))
    ≡ map some (1 ∷ 2 ∷ 3 ∷ [])
drain-offered_example = drain-offered ((1, 2) ∷ (5, 1) ∷ []) (1 ∷ 2 ∷ 3 ∷ [])

drain-all_example : (drain ((1, 2) ∷ (5, 1) ∷ []) (offered (1 ∷ 2 ∷ []))).0 ≡ map some (1 ∷ 2 ∷ [])
drain-all_example = drain-all ((1, 2) ∷ (5, 1) ∷ []) (1 ∷ 2 ∷ []) (omega arith) (omega arith)

-- A server that answers `{}` in two pieces.
instance abbrev braces : Curl
braces = record {
  perform = λ r. record {
    copied = true;
    steps = receives true (123 ∷ []) ∷ receives true (125 ∷ []) ∷ [];
    perform_code = 0;
    info_code = 0;
    status = pos 200;
  };
}

http_operation-answer_example :
    http_operation get_method [] none 0 ≡ some (answer_for (outcome get_method [] none 0))
http_operation-answer_example =
    http_operation-answer get_method [] none 0 tt (refl, (refl, tt)) (unfold body in omega arith)

-- A yajl that reads every text as {"a": [7, null]}.
abbrev document : Value
document = mapping (
    field (97 ∷ []) (sequence (value (scalar (int_value (pos 7))) (value missing no_values)))
      no_fields)

instance abbrev reader : YajlParse
reader = record { events = λ s. events_of document }

parse_json-Parsed_example : Returns (Parsed document sample_heap) (parse_json [] sample_heap)
parse_json-Parsed_example =
    parse_json-Parsed [] document sample_heap refl sample-IsHeap (unfold cost in omega arith)

map_get-get_tree_example :
    map_get 1 (some (97 ∷ [])) sample_heap
    ≡ ok (root_of (get_tree (c_str (97 ∷ [])) (pair 6 (97 ∷ []) sample_array no_pairs))) sample_heap
map_get-get_tree_example =
    map_get-get_tree 1 (pair 6 (97 ∷ []) sample_array no_pairs) sample_heap (97 ∷ []) sample-Holds
      (refl, tt)

-- The map is no array, and the array is no map.
wrong_type_example :
    MapRefuses 2 9 (some (97 ∷ [])) 5 sample_heap × ArrayRefuses 1 9 0 5 sample_heap
wrong_type_example =
    wrong_type 2 1 (array_node (4 ∷ []) 1) (map_node ((97 ∷ [], 6) ∷ [])) pt_array pt_map 9 0
      (some (97 ∷ [])) 5 sample_heap (omega arith) refl refl (λ e. cc e) (omega arith) refl refl
      (λ e. cc e)

-- A server whose second piece finds no memory.
abbrev starved : Curl
starved = record {
  perform = λ r. record {
    copied = true;
    steps = receives true (123 ∷ []) ∷ receives false (125 ∷ []) ∷ [];
    perform_code = 0;
    info_code = 0;
    status = pos 200;
  };
}

http_operation-refused_example : http_operation ⦃C = starved⦄ get_method [] none 0 ≡ none
http_operation-refused_example =
    http_operation-refused ⦃C = starved⦄ get_method [] none 0 (receives true (123 ∷ []) ∷ [])
      (125 ∷ []) tt refl refl (refl, tt) (unfold body in omega arith) (unfold body in omega arith)

-- A yajl that reads every text as the value of `sample`.
abbrev sample_reader : YajlParse
sample_reader = record { events = λ s. events_of (meaning sample) }

from_json-to_json_example :
    Returns
      (IsDocument (meaning sample) sample_heap)
      ((to_json 5 1 0 >>= from_json ⦃Y = sample_reader⦄) sample_heap)
unfolding meaning c_str emit tokens
from_json-to_json_example =
    from_json-to_json ⦃P = sample_reader⦄ sample 5 sample_heap 0 (unfold depth in omega arith)
      sample-Holds sample-IsHeap (unfold cost in omega arith) (refl, (omega arith, tt), tt) refl
      (omega arith)

-- "b" is no key of `sample`.
fresh_key : has_key (c_str (98 ∷ [])) ((97 ∷ [], 6) ∷ []) ≡ false
unfolding c_str
fresh_key = ground (arith, same_bytes_iff (97 ∷ []) (98 ∷ []))

map_set-snoc_pair_example :
    Returns
      (λ _ h'.
        PushedTo
          (object 1 (snoc_pair (pair 6 (97 ∷ []) sample_array no_pairs) 7 (c_str (98 ∷ [])) number))
          1
          sample_heap
          h')
      (map_set 9 1 (some (98 ∷ [])) 5 sample_heap)
map_set-snoc_pair_example =
    map_set-snoc_pair 9 1 (pair 6 (97 ∷ []) sample_array no_pairs) (98 ∷ []) number sample_heap
      sample-IsHeap (omega arith) sample-Holds number-Holds (omega arith)
      (unfold addrs in ground arith) fresh_key

map_get-map_set_example :
    Returns
      (λ node _.
        node
        ≡ root_of (
            if same_bytes (c_str (98 ∷ [])) (c_str (97 ∷ []))
            then number
            else get_tree (c_str (97 ∷ [])) (pair 6 (97 ∷ []) sample_array no_pairs)))
      ((map_set 9 1 (some (98 ∷ [])) 5 >> map_get 1 (some (97 ∷ []))) sample_heap)
map_get-map_set_example =
    map_get-map_set 9 1 (pair 6 (97 ∷ []) sample_array no_pairs) (98 ∷ []) (97 ∷ []) number
      sample_heap sample-IsHeap (omega arith) sample-Holds number-Holds (omega arith)
      (unfold addrs in ground arith) (refl, tt) fresh_key
