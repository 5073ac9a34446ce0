-- ===== src/Tests/Example.antt =====
-- The edits of the example program, and the parser's integers, on concrete documents.
use pillowtalk.Prelude.{refl, Option, none, some, [], ◌∷◌, arith, ◌==◌, if◌then◌else◌}
use pillowtalk.Libraries.{Ptr}
use pillowtalk.Libraries.Lists.{list_libraries}
use pillowtalk.Heap.{Heap, Obj, map_node, array_node, key_value, array_elem, string_node}
use pillowtalk.Heap.Access.{IsHeap}
use pillowtalk.Heap.Returns.{Returns}
use pillowtalk.Prelude.Int.{pos}
use pillowtalk.Value.{Value, scalar, sequence, value, no_values, int_value}
use pillowtalk.Parser.{YajlParse, parse_json, on_start_array, on_integer, on_end_array}
use pillowtalk.Parser.Broken.{Started, parse_json-Started}
use pillowtalk.Parser.Events.{events_of, cost}
use pillowtalk.Tree.{meaning, Elems, no_elems, elem, Holds, addrs}
use pillowtalk.Tree.Footprint.{Distinct}
use pillowtalk.Node.{c_str}
use pillowtalk.Basic.{edit_document}
use pillowtalk.Basic.Strings.{key_of, string_leaf}
use pillowtalk.Basic.Edit.{document_tree}
use pillowtalk.Basic.Revision.{Revision}
use pillowtalk.Basic.Build.{three_characters}
use pillowtalk.Basic.Fetched.{EditedDocument, edit_document-EditedDocument}
use pillowtalk.Tree.Shape.{value_count}

abbrev cast : Elems
cast =
    elem 11 (string_leaf 10 "Luke Skywalker")
      (elem 13 (string_leaf 12 "Han Solo") (elem 15 (string_leaf 14 "Obi Wan Kenobi") no_elems))

-- The server has put a revision behind the key.
abbrev revision : Revision
revision = some (17, 16, key_of "1")

abbrev cell : Ptr → Option (Obj)
cell b =
    if b == 1
    then some (map_node ((key_of "_id", 3) ∷ (key_of "_rev", 17) ∷ (key_of "movies", 5) ∷ []))
    else if b == 2
    then some (string_node (key_of "star_wars"))
    else if b == 3
    then some (key_value (key_of "_id") 2 1)
    else if b == 4
    then some (map_node ((key_of "Star Wars Episode IV", 7) ∷ []))
    else if b == 5
    then some (key_value (key_of "movies") 4 1)
    else if b == 6
    then some (map_node ((key_of "characters", 9) ∷ []))
    else if b == 7
    then some (key_value (key_of "Star Wars Episode IV") 6 4)
    else if b == 8
    then some (array_node (11 ∷ 13 ∷ 15 ∷ []) 3)
    else if b == 9
    then some (key_value (key_of "characters") 8 6)
    else if b == 10
    then some (string_node (key_of "Luke Skywalker"))
    else if b == 11
    then some (array_elem 10 8)
    else if b == 12
    then some (string_node (key_of "Han Solo"))
    else if b == 13
    then some (array_elem 12 8)
    else if b == 14
    then some (string_node (key_of "Obi Wan Kenobi"))
    else if b == 15
    then some (array_elem 14 8)
    else if b == 16
    then some (string_node (key_of "1"))
    else if b == 17
    then some (key_value (key_of "_rev") 16 1)
    else none

abbrev fetched_heap : Heap (Obj)
fetched_heap = record { next = 18; room = 4; cell = cell }

fetched-Holds : Holds cell (document_tree revision 1 3 2 5 4 7 6 9 8 cast)
fetched-Holds = (
  omega arith,
  ((key_of "_id", 3) ∷ (key_of "_rev", 17) ∷ (key_of "movies", 5) ∷ [], refl, refl),
  (
    omega arith,
    refl,
    (omega arith, refl),
    (
      omega arith,
      refl,
      (omega arith, refl),
      (
        omega arith,
        refl,
        (
          omega arith,
          ((key_of "Star Wars Episode IV", 7) ∷ [], refl, refl),
          (
            omega arith,
            refl,
            (
              omega arith,
              ((key_of "characters", 9) ∷ [], refl, refl),
              (
                omega arith,
                refl,
                (
                  omega arith,
                  (11 ∷ 13 ∷ 15 ∷ [], refl, refl),
                  (
                    omega arith,
                    refl,
                    (omega arith, refl),
                    (
                      omega arith,
                      refl,
                      (omega arith, refl),
                      (omega arith, refl, (omega arith, refl), tt),
                    ),
                  ),
                ),
                tt,
              ),
            ),
            tt,
          ),
        ),
        tt,
      ),
    ),
  ),
)

fetched-IsHeap : IsHeap fetched_heap
fetched-IsHeap = record { next_pos = omega arith; unused = λ b le. ground arith }

fetched-Distinct : Distinct (addrs (document_tree revision 1 3 2 5 4 7 6 9 8 cast))
unfolding addrs
fetched-Distinct = ground arith

-- A yajl that reads every text as the list of 2147483647 and 2147483648.
abbrev edge : Value
edge = sequence (
    value (scalar (int_value (pos 2147483647)))
      (value (scalar (int_value (pos 2147483648))) no_values))

abbrev edge_reader : YajlParse
edge_reader = record { events = λ s. events_of edge }

abbrev small_heap : Heap (Obj)
small_heap = record { next = 1; room = 6; cell = λ b. none }

edit_document-EditedDocument_example :
    Returns
      (λ _ h'.
        EditedDocument
          (document_tree revision 1 3 2 5 4 7 6 9 8 cast)
          (some (key_of "1"))
          three_characters
          fetched_heap
          h')
      (edit_document 1 1 fetched_heap)
unfolding meaning c_str value_count
edit_document-EditedDocument_example =
    edit_document-EditedDocument (document_tree revision 1 3 2 5 4 7 6 9 8 cast) (some (key_of "1"))
      three_characters 1 fetched_heap refl refl fetched-IsHeap fetched-Holds fetched-Distinct
      (omega arith) (omega arith)

-- A yajl that stops within the list, at its second number.
abbrev stopping_reader : YajlParse
stopping_reader = record { events = λ s. on_start_array ∷ on_integer (pos 2147483647) ∷ [] }

parse_json-Started_example :
    Returns (Started small_heap) (parse_json ⦃Y = stopping_reader⦄ [] small_heap)
unfolding events_of
parse_json-Started_example =
    parse_json-Started ⦃Y = stopping_reader⦄ [] edge
      (on_integer (pos 2147483648) ∷ on_end_array ∷ []) small_heap refl
      (record { next_pos = omega arith; unused = λ b le. refl }) (unfold cost in omega arith)
