-- ===== src/Basic/Build.antt =====
-- The document that examples/basic.c builds, in every heap.
use Prim.Native.String.{String}
use pillowtalk.Prelude.{ℕ, suc, ◌+◌, ◌<◌, ◌≤◌, ◌≡◌, ◌≢◌, refl, some, arith, same_bytes}
use pillowtalk.Libraries.{Ptr, Libraries}
use pillowtalk.Heap.{pure, ◌>>=◌, ◌>>◌, Heap, null, Obj, map_node, array_node}
use pillowtalk.Heap.Access.{IsHeap, alloc-ok, alloc-IsHeap, grown}
use pillowtalk.Heap.Returns.{Returns, done, Returns-and_then, Returns-weaken}
use pillowtalk.Node.{c_str, map_new, array_new}
use pillowtalk.Value.{
  text, Value, scalar, sequence, mapping, no_values, value, no_fields, field, Values, Fields,
}
use pillowtalk.Tree.{Tree, Pairs, array, object, no_elems, no_pairs, pair, root_of, meaning, addrs}
use pillowtalk.Tree.New.{NewTree, array-NewTree, object-NewTree}
use pillowtalk.Tree.Grown.{insert-NewTree}
use pillowtalk.Tree.Changed.{Changed-NewTree, Changed}
use pillowtalk.Free.Gone.{size}
use pillowtalk.Map.{map_set}
use pillowtalk.Map.Put.{map_set-put_tree}
use pillowtalk.Map.Nested.{nested-Changed}
use pillowtalk.Basic.Strings.{key_of, string_leaf, set_string-NewTree, push_string-NewTree}
use pillowtalk.Basic.{codes, push_string, build_document}

module _ ⦃L : Libraries⦄ where
  abbrev pub string_value : String → Value
  string_value s = scalar (text (codes s))

  -- {"_id": "star_wars", "movies": {"Star Wars Episode IV": {"characters": [...], ...}}}
  abbrev pub saga : (characters : Values) (more : Fields) → Value
  saga characters more = mapping (
      field (codes "_id") (string_value "star_wars") (
        field (codes "movies")
          (mapping (
            field (codes "Star Wars Episode IV")
              (mapping (field (codes "characters") (sequence characters) more)) no_fields))
          no_fields))

  abbrev pub three_characters : Values
  three_characters =
      value (string_value "Luke Skywalker")
        (value (string_value "Han Solo") (value (string_value "Obi Wan Kenobi") no_values))

  -- The document in the comment of the program.
  abbrev pub star_wars : Value
  star_wars = saga three_characters no_fields

  -- A tree of new structs for a value, and the older structs as they were.
  pub record NewDocument (v : Value) (n : ℕ) (h : Heap Obj) (root : Ptr) (h' : Heap Obj)
      : Type 0 where
    pub tree : Tree
    pub root_is : root_of tree ≡ root
    pub new : NewTree h tree n h'
    pub means : meaning tree ≡ v

  -- At its end the map `movies`, which the document has already, gets its one entry.
  module _ (fuel : ℕ) (h h1 h2 : Heap Obj) (r p e1 e2 : Ptr) (s : Tree) (ep4 : Tree) (n m : ℕ)
      (new : NewTree h
        (object r
          (pair e1 (key_of "_id") s (pair e2 (key_of "movies") (object p no_pairs) no_pairs)))
        n
        h1)
      (nt : NewTree h1 ep4 m h2) (nv : root_of ep4 ≢ null) (room : 0 < h2.room)
      (enough : 0 < fuel) where
    abbrev movies : Tree
    movies = object p (pair h2.next (key_of "Star Wars Episode IV") ep4 no_pairs)

    abbrev root_pairs : Pairs
    root_pairs = pair e1 (key_of "_id") s (pair e2 (key_of "movies") (object p no_pairs) no_pairs)

    filled-Changed :
        Returns
          (λ _ h3. Changed (object p no_pairs) movies (suc m) h1 h3)
          (map_set fuel p (some (codes "Star Wars Episode IV")) (root_of ep4) h2)
    unfolding size addrs
    filled-Changed =
        map_set-put_tree fuel p no_pairs (codes "Star Wars Episode IV") ep4 m h1 h2 new.is_heap
          new.held.2.3.2 (refl, tt) tt nt nv room enough

    last_step :
        Returns
          (λ _ h3.
            NewDocument
              (meaning
                (object r (pair e1 (key_of "_id") s (pair e2 (key_of "movies") movies no_pairs))))
              (n + suc m)
              h
              r
              h3)
          (map_set fuel p (some (codes "Star Wars Episode IV")) (root_of ep4) h2)
    unfolding same_bytes c_str addrs
    last_step = Returns-weaken filled-Changed λ _ h3 x. record {
      tree = object r (pair e1 (key_of "_id") s (pair e2 (key_of "movies") movies no_pairs));
      root_is = refl;
      new = Changed-NewTree h h1 h3 (object r root_pairs) _ n (suc m) new (
          nested-Changed r root_pairs (key_of "movies") movies (suc m) h1 h3 new.is_heap new.held
            new.distinct x refl refl);
      means = refl;
    }

  -- The document once it has its two entries, of which the second is an empty map yet.
  abbrev outline : (r p : Ptr) → Tree
  outline r p = object r (
      pair (r + 1 + 1) (key_of "_id") (string_leaf (r + 1) "star_wars")
        (pair (p + 1) (key_of "movies") (object p no_pairs) no_pairs))

  -- The rest of build_document.
  fill_document :
      (fuel : ℕ) (h h1 : Heap Obj) (p : Ptr)
      → NewTree h (outline h.next p) 5 h1
      → 10 ≤ h1.room
      → 0 < fuel
      → Returns (NewDocument star_wars 15 h) (
          (do
            ep4 ← map_new
            ep4_chars ← array_new
            push_string ep4_chars "Luke Skywalker"
            push_string ep4_chars "Han Solo"
            push_string ep4_chars "Obi Wan Kenobi"
            map_set fuel ep4 (some (codes "characters")) ep4_chars
            map_set fuel p (some (codes "Star Wars Episode IV")) ep4
            pure h.next)
            h1)
  unfolding map_new array_new c_str meaning
  fill_document fuel h h1 p new r enough =
      let w1 = new.is_heap in
      let h2 = grown h1 (map_node L.empty) in
      let w2 = alloc-IsHeap {h = h1} (map_node L.empty) w1 in
      rw
        (
          alloc-ok h1 (map_node L.empty) (omega arith),
          alloc-ok h2 (array_node L.init 0) (omega arith),
        )
        (Returns-and_then
          (push_string-NewTree h2 (grown h2 (array_node L.init 0)) h2.next 1 (omega arith) no_elems
            "Luke Skywalker" (array-NewTree h2 w2 (omega arith)))
          λ _ h4 n4.
            Returns-and_then
              (push_string-NewTree h2 h4 h2.next 3 (omega (arith, n4.room)) _ "Han Solo" n4)
              λ _ h5 n5.
                Returns-and_then
                  (push_string-NewTree h2 h5 h2.next 5 (omega (arith, n5.room)) _ "Obi Wan Kenobi"
                    n5)
                  λ _ h6 n6.
                    Returns-and_then
                      (insert-NewTree h1 h2 h6 h1.next (array h2.next _) 1 7 n6
                        (omega (arith, n6.room)) fuel no_pairs (codes "characters")
                        (object-NewTree h1 w1 (omega arith)) (omega (arith, w2.next_pos)) refl)
                      λ _ h7 n7.
                        Returns-and_then
                          (last_step fuel h h1 h7 h.next p (h.next + 1 + 1) (p + 1) _ _ 5 9 new n7
                            (omega (arith, w1.next_pos)) (omega (arith, n7.room)) enough)
                          λ _ h8 d. done d)

  -- From any heap with memory for fifteen structs, and with fuel, the example program builds its document
  -- without a fault: a tree of new structs, each once, that stands for the value in the comment of
  -- basic.c; no older struct changes.
  pub build_document-NewDocument :
      (fuel : ℕ) (h : Heap Obj)
      → IsHeap h
      → 15 ≤ h.room
      → 0 < fuel
      → Returns (NewDocument star_wars 15 h) (build_document fuel h)
  unfolding build_document map_new same_bytes c_str addrs
  build_document-NewDocument fuel h w r enough = rw (alloc-ok h (map_node L.empty) (omega arith)) (
      Returns-and_then
        (set_string-NewTree h (grown h (map_node L.empty)) h.next 1 (omega arith) fuel no_pairs
          "_id" "star_wars" (object-NewTree h w (omega arith)) refl)
        λ _ h3 n3. rw (alloc-ok h3 (map_node L.empty) (omega (arith, n3.room))) (
          Returns-and_then
            (insert-NewTree h h3 (grown h3 (map_node L.empty)) h.next (object h3.next no_pairs) 3 1
              (object-NewTree h3 n3.is_heap (omega (arith, n3.room))) (omega (arith, n3.room)) fuel
              _ (codes "movies") n3 (omega (arith, n3.is_heap.next_pos)) refl)
            λ _ h5 n5. fill_document fuel h h5 h3.next n5 (omega (arith, n5.room)) enough))
