-- ===== src/Basic/Edit.antt =====
-- What examples/basic.c does to the document that it has fetched.
use pillowtalk.Prelude.{ℕ, ◌+◌, ◌<◌, ◌≤◌, ◌≡◌, refl, some, ◌∙◌, ap, sym, [], arith, same_bytes}
use pillowtalk.Libraries.{Bytes, Ptr, Libraries}
use pillowtalk.Heap.{ok, ◌>>◌, Heap, Obj}
use pillowtalk.Heap.Access.{IsHeap, load-ok, not_null}
use pillowtalk.Heap.Returns.{Returns, Returns-and_then, Returns-weaken}
use pillowtalk.Node.{c_str, string_get}
use pillowtalk.Value.{text, value, no_values, field, no_fields}
use pillowtalk.Tree.{
  Tree, Elems, Pairs, leaf, array, object, no_pairs, pair, root_of, count, meaning, meanings, addrs,
  Holds,
}
use pillowtalk.Tree.Footprint.{Distinct, Distinct-append}
use pillowtalk.Tree.Append.{snoc}
use pillowtalk.Tree.Changed.{Changed, Changed-and_then}
use pillowtalk.Free.Gone.{size}
use pillowtalk.Array.Read.{array_len-count}
use pillowtalk.Map.Lookup.{map_get-get_tree}
use pillowtalk.Map.Nested.{nested-Changed}
use pillowtalk.Basic.{codes, set_string, push_string, check_id, assertion, edit_document}
use pillowtalk.Basic.Build.{string_value}
use pillowtalk.Basic.Revision.{
  Revision, revision_of, stored, document_pairs, document_pairs-UniqueKeys, at_id, at_movies,
  movies-Holds, movies-Distinct, movies-Changed, document-meaning,
}
use pillowtalk.Basic.Strings.{key_of, string_leaf, set_string-Changed, push_string-Changed}
use pillowtalk.Tree.Meaning.{append_values, meanings-snoc, append-no_values}

module _ ⦃L : Libraries⦄ where
  string_get-ok :
      (q : Ptr) (s : Bytes) (h : Heap Obj)
      → Holds h.cell (leaf q (text s))
      → string_get q h ≡ ok (some s) h
  unfolding string_get
  string_get-ok q s h (ne, e) = rw (not_null ne, load-ok h ne e) refl

  -- A document as the program builds it, with any characters, at any addresses, and a revision or none.
  module _ (v : Revision) (r e1 q e2 m e3 p e4 a : Ptr) (es : Elems) where
    abbrev episode_pairs : Pairs
    episode_pairs = pair e4 (key_of "characters") (array a es) no_pairs

    abbrev movies_pairs : Pairs
    movies_pairs = pair e3 (key_of "Star Wars Episode IV") (object p episode_pairs) no_pairs

    abbrev root_pairs : Pairs
    root_pairs = document_pairs e1 q e2 v (object m movies_pairs)

    abbrev pub document_tree : Tree
    document_tree = object r root_pairs

    -- The tree is changed in place to that of the document with a year and one more character.
    pub record Updated (h h' : Heap Obj) : Type 0 where
      pub tree : Tree
      pub root_is : root_of tree ≡ r
      pub means :
          meaning tree
          ≡ stored
              (revision_of v)
              (append_values (meanings es) (value (string_value "Princess Leia") no_values))
              (field (codes "year") (string_value "1977") no_fields)
      pub changed : Changed document_tree tree 4 h h'

    -- The document with another tree of the episode.
    abbrev with_episode : Tree → Tree
    with_episode t =
        object r
          (document_pairs e1 q e2 v (object m (pair e3 (key_of "Star Wars Episode IV") t no_pairs)))

    episodes-Holds :
        (h : Heap Obj) → Holds h.cell document_tree → Holds h.cell (object m movies_pairs)
    episodes-Holds h held = movies-Holds e1 q e2 v (object m movies_pairs) r h held

    episodes-Distinct : Distinct (addrs document_tree) → Distinct (addrs (object m movies_pairs))
    episodes-Distinct d = movies-Distinct e1 q e2 v (object m movies_pairs) r d

    -- The change of the episode is one of the document.
    whole-Changed :
        (t : Tree) (h h' : Heap Obj)
        → IsHeap h
        → Holds h.cell document_tree
        → Distinct (addrs document_tree)
        → Changed (object p episode_pairs) t 4 h h'
        → root_of t ≡ p
        → Changed document_tree (with_episode t) 4 h h'
    unfolding same_bytes c_str addrs
    whole-Changed t h h' w held d x root =
        movies-Changed e1 q e2 v (object m movies_pairs)
          (object m (pair e3 (key_of "Star Wars Episode IV") t no_pairs)) r 4 h h' w held d
          (nested-Changed m movies_pairs (key_of "Star Wars Episode IV") t 4 h h' w
            (episodes-Holds h held) (episodes-Distinct d) x root refl)
          refl

    -- The two changes of the episode.
    edit_episode :
        (fuel : ℕ) (h : Heap Obj)
        → IsHeap h
        → Holds h.cell document_tree
        → Distinct (addrs document_tree)
        → 4 ≤ h.room
        → 0 < fuel
        → Returns
            (λ _ h'. Updated h h')
            ((set_string fuel p "year" "1977" >> push_string a "Princess Leia") h)
    unfolding same_bytes c_str addrs size meaning
    edit_episode fuel h w held d room enough =
        let dm : Distinct (addrs (object m movies_pairs)) = episodes-Distinct d in
        let de : Distinct (addrs (object p episode_pairs)) =
          (Distinct-append (addrs (object p episode_pairs)) [] dm.1.1).0 in
        let episode = (episodes-Holds h held).2.2 in
        Returns-and_then
          (set_string-Changed fuel p episode_pairs "year" "1977" h w episode de (refl, tt)
            (omega arith) enough)
          λ _ h1 x1.
            Returns-weaken
              (push_string-Changed a es "Princess Leia" h1 x1.is_heap x1.held.2.2
                (Distinct-append (addrs (array a es)) _ x1.distinct.1.1).0 (omega (arith, x1.room)))
              λ _ h2 x2.
                let longer =
                  array a (snoc es (h1.next + 1) (string_leaf h1.next "Princess Leia")) in
                let year = pair (h.next + 1) (key_of "year") (string_leaf h.next "1977") no_pairs in
                let new = object p (pair e4 (key_of "characters") longer year) in
                record {
                  tree = with_episode new;
                  root_is = refl;
                  means =
                      document-meaning e1 q e2 v
                        (object m (pair e3 (key_of "Star Wars Episode IV") new no_pairs)) r
                      ∙ ap
                          (λ vs.
                            stored (revision_of v) vs
                              (field (codes "year") (string_value "1977") no_fields))
                          (sym (
                              append-no_values (
                                meanings
                                  (snoc es (h1.next + 1) (string_leaf h1.next "Princess Leia"))))
                            ∙ meanings-snoc es (h1.next + 1) (string_leaf h1.next "Princess Leia")
                                no_values);
                  changed =
                      whole-Changed new h h2 w held d
                        (Changed-and_then (object p episode_pairs)
                          (object p (pair e4 (key_of "characters") (array a es) year)) new 2 2 h h1
                          h2 x1
                          (nested-Changed p (pair e4 (key_of "characters") (array a es) year)
                            (key_of "characters") longer 2 h1 h2 x1.is_heap x1.held x1.distinct x2
                            refl refl))
                        refl;
                }

    -- On a tree of the document with any three characters, at any addresses, each struct once, with memory
    -- for four structs and with fuel, the checks of the example program hold and its edits end without a
    -- fault: the tree at the same root has the year and one more character behind the others, and no
    -- struct outside it has changed.
    pub edit_document-Updated :
        (fuel : ℕ) (h : Heap Obj)
        → IsHeap h
        → Holds h.cell document_tree
        → Distinct (addrs document_tree)
        → count es ≡ 3
        → 4 ≤ h.room
        → 0 < fuel
        → Returns (λ _ h'. Updated h h') (edit_document fuel r h)
    unfolding edit_document check_id assertion same_bytes c_str
    edit_document-Updated fuel h w held d three room enough =
        let movies = episodes-Holds h held in
        let unique = document_pairs-UniqueKeys e1 q e2 v (object m movies_pairs) in
        rw
          (
            map_get-get_tree r root_pairs h (codes "_id") held unique,
            at_id e1 q e2 v (object m movies_pairs),
            string_get-ok q (key_of "star_wars") h held.2.2,
            map_get-get_tree r root_pairs h (codes "movies") held unique,
            at_movies e1 q e2 v (object m movies_pairs),
            map_get-get_tree m movies_pairs h (codes "Star Wars Episode IV") movies (refl, tt),
            map_get-get_tree p episode_pairs h (codes "characters") movies.2.2 (refl, tt),
            array_len-count a es h movies.2.2.2.2,
            three,
          )
          (edit_episode fuel h w held d room enough)
