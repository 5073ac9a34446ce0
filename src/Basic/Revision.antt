-- ===== src/Basic/Revision.antt =====
-- The document of examples/basic.c as it is stored: a server may put a revision behind its key.
use pillowtalk.Prelude.{ℕ, ◌≡◌, refl, Option, none, some, [], same_bytes}
use pillowtalk.Libraries.{Bytes, Ptr, Libraries}
use pillowtalk.Heap.{Heap, Obj}
use pillowtalk.Heap.Access.{IsHeap}
use pillowtalk.Node.{c_str}
use pillowtalk.Value.{Value, Values, Fields, text, scalar, sequence, mapping, no_fields, field}
use pillowtalk.Tree.{Tree, Pairs, leaf, object, no_pairs, pair, root_of, meaning, addrs, Holds}
use pillowtalk.Tree.Footprint.{Distinct, Distinct-append}
use pillowtalk.Tree.Changed.{Changed}
use pillowtalk.Map.Lookup.{get_tree, UniqueKeys}
use pillowtalk.Map.Nested.{nested-Changed}
use pillowtalk.Basic.{codes}
use pillowtalk.Basic.Build.{string_value, three_characters}
use pillowtalk.Basic.Strings.{key_of, string_leaf}

module _ ⦃L : Libraries⦄ where
  abbrev pub revision_fields : Option Bytes → Fields → Fields
  revision_fields none fs = fs
  revision_fields (some rev) fs = field (codes "_rev") (scalar (text rev)) fs

  -- {"_id": "star_wars", "_rev": ..., "movies": {"Star Wars Episode IV": {"characters": [...], ...}}}
  abbrev pub stored : (rev : Option Bytes) (characters : Values) (more : Fields) → Value
  stored rev characters more = mapping (
      field (codes "_id") (string_value "star_wars") (
        revision_fields rev (
          field (codes "movies")
            (mapping (
              field (codes "Star Wars Episode IV")
                (mapping (field (codes "characters") (sequence characters) more)) no_fields))
            no_fields)))

  -- The document as it is fetched once it has been saved.
  abbrev pub fetched_saga : Option Bytes → Value
  fetched_saga rev = stored rev three_characters no_fields

  -- The pair of the revision, if there is one: its address, that of the text, and the text.
  abbrev pub Revision : Type 0
  Revision = Option (Ptr × Ptr × Bytes)

  abbrev pub revision_of : Revision → Option Bytes
  revision_of none = none
  revision_of (some (e, q, rev)) = some rev

  abbrev pub revision_pairs : Revision → Pairs → Pairs
  revision_pairs none ps = ps
  revision_pairs (some (e, q, rev)) ps = pair e (key_of "_rev") (leaf q (text rev)) ps

  -- The pairs of the document, with the tree of its movies.
  module _ (e1 q e2 : Ptr) where
    abbrev pub document_pairs : Revision → (movies : Tree) → Pairs
    document_pairs v movies =
        pair e1 (key_of "_id") (string_leaf q "star_wars")
          (revision_pairs v (pair e2 (key_of "movies") movies no_pairs))

    pub document_pairs-UniqueKeys :
        (v : Revision) (movies : Tree) → UniqueKeys (document_pairs v movies)
    unfolding same_bytes c_str
    document_pairs-UniqueKeys none movies = (refl, (refl, tt))
    document_pairs-UniqueKeys (some x) movies = (refl, (refl, (refl, tt)))

    pub at_id :
        (v : Revision) (movies : Tree)
        → root_of (get_tree (c_str (codes "_id")) (document_pairs v movies)) ≡ q
    unfolding same_bytes c_str
    at_id v movies = refl

    pub at_movies :
        (v : Revision) (movies : Tree)
        → root_of (get_tree (c_str (codes "movies")) (document_pairs v movies)) ≡ root_of movies
    unfolding same_bytes c_str
    at_movies none movies = refl
    at_movies (some x) movies = refl

    pub movies-Holds :
        (v : Revision) (movies : Tree) (r : Ptr) (h : Heap Obj)
        → Holds h.cell (object r (document_pairs v movies))
        → Holds h.cell movies
    movies-Holds none movies r h held = held.2.3.2
    movies-Holds (some x) movies r h held = held.2.3.3.2

    pub movies-Distinct :
        (v : Revision) (movies : Tree) (r : Ptr)
        → Distinct (addrs (object r (document_pairs v movies)))
        → Distinct (addrs movies)
    unfolding addrs
    movies-Distinct none movies r d = (Distinct-append (addrs movies) [] d.1.1.1.1).0
    movies-Distinct (some x) movies r d = (Distinct-append (addrs movies) [] d.1.1.1.1.1.1).0

    -- A change of the movies is one of the document.
    pub movies-Changed :
        (v : Revision) (movies new : Tree) (r : Ptr) (n : ℕ) (h h' : Heap Obj)
        → IsHeap h
        → Holds h.cell (object r (document_pairs v movies))
        → Distinct (addrs (object r (document_pairs v movies)))
        → Changed movies new n h h'
        → root_of new ≡ root_of movies
        → Changed (object r (document_pairs v movies)) (object r (document_pairs v new)) n h h'
    unfolding same_bytes c_str addrs
    movies-Changed none movies new r n h h' w held d x root =
        nested-Changed r (document_pairs none movies) (key_of "movies") new n h h' w held d x root
          refl
    movies-Changed (some z) movies new r n h h' w held d x root =
        nested-Changed r (document_pairs (some z) movies) (key_of "movies") new n h h' w held d x
          root refl

    pub document-meaning :
        (v : Revision) (movies : Tree) (r : Ptr)
        → meaning (object r (document_pairs v movies))
          ≡ mapping (
              field (codes "_id") (string_value "star_wars") (
                revision_fields
                  (revision_of v)
                  (field (codes "movies") (meaning movies) no_fields)))
    unfolding meaning c_str
    document-meaning none movies r = refl
    document-meaning (some x) movies r = refl
