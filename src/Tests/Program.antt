-- ===== src/Tests/Program.antt =====
-- The map edits, pt_get and the example program at concrete inputs.
use pillowtalk.Prelude.{true, ℕ, ◌≡◌, refl, Option, none, some, List, [], ◌∷◌, arith, same_bytes}
use pillowtalk.Prelude.Int.{pos}
use pillowtalk.Libraries.Lists.{list_libraries}
use pillowtalk.Heap.{
  alloc, load, store, write, Heap, Run, ok, fault, aborted, out_of_fuel, Obj, Prog, ◌>>=◌, ◌>>◌,
}
use pillowtalk.Heap.Returns.{Returns}
use pillowtalk.Node.{c_str, string_get, string_new, map_new, array_new}
use pillowtalk.Value.{Fields, field, no_fields, scalar, sequence, value, no_values, int_value}
use pillowtalk.Tree.{meaning, addrs, pair, no_pairs}
use pillowtalk.Free.Gone.{size}
use pillowtalk.Parser.Events.{cost}
use pillowtalk.Map.{map_get, map_set}
use pillowtalk.Map.Edits.{run_edits-IsMap}
use pillowtalk.Map.Client.{Edit, set_scalar, unset, IsMap, run_edits, edited_fields}
use pillowtalk.Array.{array_len, array_push_back}
use pillowtalk.Http.{get_method, reads, receives, Curl}
use pillowtalk.Http.Body.{body, outcome}
use pillowtalk.Requests.{get, free_response}
use pillowtalk.Requests.Released.{get-free_response}
use pillowtalk.Tree.Released.{Restored}
use pillowtalk.Requests.Fetched.{Fetched, get-Fetched}
use pillowtalk.Heap.Access.{IsHeap}
use pillowtalk.Basic.Build.{NewDocument, star_wars, build_document-NewDocument}
use pillowtalk.Basic.{codes, build_document, edit_document}
use pillowtalk.Tests.{document, reader, braces}
use pillowtalk.Tests.Sample.{counting, sample_array, sample_heap, sample-IsHeap, sample-Holds}

abbrev sample_fields : Fields
sample_fields = field (97 ∷ []) (sequence (value (scalar (int_value (pos 7))) no_values)) no_fields

sample-IsMap : IsMap 1 sample_fields 4 sample_heap
unfolding addrs meaning size
sample-IsMap = record {
  pairs = pair 6 (97 ∷ []) sample_array no_pairs;
  held = sample-Holds;
  distinct = ground arith;
  unique = (refl, tt);
  is_heap = sample-IsHeap;
  means = refl;
  small = omega arith;
}

abbrev two_edits : List Edit
two_edits = set_scalar (98 ∷ []) (int_value (pos 9)) ∷ unset (97 ∷ []) ∷ []

run_edits-IsMap_example :
    Returns
      (λ _ h'. IsMap 1 (edited_fields two_edits sample_fields) 8 h')
      (run_edits 9 1 two_edits sample_heap)
run_edits-IsMap_example =
    run_edits-IsMap two_edits 9 1 sample_fields 4 sample_heap sample-IsMap (omega arith)
      (omega arith)

get-Fetched_example :
    Returns (Fetched (outcome get_method [] none 0) document sample_heap) (get [] sample_heap)
get-Fetched_example =
    get-Fetched [] document sample_heap refl (refl, (refl, tt)) (unfold body in omega arith) refl
      sample-IsHeap (unfold cost in omega arith)

get-free_response_example :
    Returns (Restored sample_heap) ((get [] >>= λ r. free_response 20 (some r)) sample_heap)
get-free_response_example =
    get-free_response [] document 20 sample_heap refl (refl, (refl, tt))
      (unfold body in omega arith) refl sample-IsHeap (unfold cost in omega arith)
      (unfold cost in omega arith)

-- A server that takes the text by pieces of 16 bytes until it gets none, and answers `{}`.
abbrev echo : Curl
echo = record {
  perform = λ r. record {
    copied = true;
    steps = reads 16 1 ∷ reads 16 1 ∷ receives true (123 ∷ 125 ∷ []) ∷ [];
    perform_code = 0;
    info_code = 0;
    status = pos 201;
  };
}

-- What a run returns.
abbrev answer : {A : Type 0} → Run (Obj) A → Option A
answer (ok a h) = some a
answer fault = none
answer aborted = none
answer out_of_fuel = none

abbrev empty_heap : Heap (Obj)
empty_heap = record { next = 1; room = 30; cell = λ p. none }

empty-IsHeap : IsHeap empty_heap
empty-IsHeap = record { next_pos = omega arith; unused = λ p le. refl }

build_document-NewDocument_example :
    Returns (NewDocument star_wars 15 empty_heap) (build_document 9 empty_heap)
build_document-NewDocument_example =
    build_document-NewDocument 9 empty_heap empty-IsHeap (omega arith) (omega arith)

-- The characters of the built document once it has been edited, and the year.
abbrev edited : Prog ℕ
edited = do
  root ← build_document 9
  edit_document 9 root
  movies ← map_get root (some (codes "movies"))
  ep4 ← map_get movies (some (codes "Star Wars Episode IV"))
  characters ← map_get ep4 (some (codes "characters"))
  array_len characters

edited_characters : answer (edited empty_heap) ≡ some 4
unfolding build_document edit_document map_new array_new string_new alloc load store write
    same_bytes c_str map_set map_get array_push_back array_len string_get
edited_characters = refl
