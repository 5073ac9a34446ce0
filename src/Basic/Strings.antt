-- ===== src/Basic/Strings.antt =====
-- A string constant of examples/basic.c that is set in a map or pushed to an array.
use Prim.Native.String.{String}
use pillowtalk.Prelude.{ℕ, suc, ◌+◌, ◌<◌, ◌≤◌, ◌≡◌, refl, true, false, arith, ap, [], ◌∷◌, ◌++◌}
use pillowtalk.Libraries.{Bytes, Ptr, Libraries, has_key}
use pillowtalk.Heap.{Heap, Obj, string_node}
use pillowtalk.Heap.Access.{IsHeap, alloc-ok, grown}
use pillowtalk.Heap.Returns.{Returns, Returns-weaken}
use pillowtalk.Node.{c_str, string_new}
use pillowtalk.Value.{text}
use pillowtalk.Tree.{Tree, Elems, Pairs, leaf, array, object, entries_of, addrs, Holds, elem_addrs}
use pillowtalk.Tree.Footprint.{has, Distinct, append-Distinct, has-append}
use pillowtalk.Tree.Append.{snoc}
use pillowtalk.Tree.LastPair.{snoc_pair}
use pillowtalk.Tree.New.{NewTree, leaf-NewTree, NewTree-keeps, Holds-below}
use pillowtalk.Tree.Grown.{push-NewTree, insert-NewTree}
use pillowtalk.Tree.Ends.{has-snoc, elems_size-snoc}
use pillowtalk.Free.Gone.{size}
use pillowtalk.Tree.Changed.{Changed}
use pillowtalk.Free.Gone.{size}
use pillowtalk.Map.Put.{map_set-put_tree}
use pillowtalk.Map.Fields.{put_tree}
use pillowtalk.Basic.{codes, set_string, push_string}
use pillowtalk.Array.Push.{PushedTo, array_push_back-snoc, elem_addrs-snoc}
use pillowtalk.Map.Lookup.{UniqueKeys, get_tree}

-- What a string constant reads as, and its value.
abbrev pub key_of : String → Bytes
key_of s = c_str (codes s)

module _ ⦃L : Libraries⦄ where
  abbrev pub string_leaf : Ptr → String → Tree
  string_leaf p s = leaf p (text (key_of s))

  module _ (h h1 : Heap Obj) (p : Ptr) (n : ℕ) (r : 2 ≤ h1.room) where
    pub set_string-NewTree :
        (fuel : ℕ) (ps : Pairs) (key s : String)
        → NewTree h (object p ps) n h1
        → has_key (key_of key) (entries_of ps) ≡ false
        → Returns
            (λ _ h3.
              NewTree h
                (object p (snoc_pair ps (h1.next + 1) (key_of key) (string_leaf h1.next s)))
                (suc (n + 1))
                h3)
            (set_string fuel p key s h1)
    unfolding set_string string_new
    set_string-NewTree fuel ps key s new absent =
        let w = new.is_heap in
        rw (alloc-ok h1 (string_node (key_of s)) (omega arith)) (
          insert-NewTree h h1 (grown h1 (string_node (key_of s))) p (string_leaf h1.next s) n 1
            (leaf-NewTree h1 (text (key_of s)) w (omega arith)) (omega arith) fuel ps (codes key)
            new (omega (arith, w.next_pos)) absent)

    pub push_string-NewTree :
        (es : Elems) (s : String)
        → NewTree h (array p es) n h1
        → Returns
            (λ _ h3.
              NewTree h (array p (snoc es (h1.next + 1) (string_leaf h1.next s))) (suc (n + 1)) h3)
            (push_string p s h1)
    unfolding push_string string_new
    push_string-NewTree es s new =
        let w = new.is_heap in
        rw (alloc-ok h1 (string_node (key_of s)) (omega arith)) (
          push-NewTree h h1 (grown h1 (string_node (key_of s))) p (string_leaf h1.next s) n 1
            (leaf-NewTree h1 (text (key_of s)) w (omega arith)) (omega arith) es new)

  -- A string that is set in a map, or pushed to an array, that is there already.
  pub set_string-Changed :
      (fuel : ℕ) (p : Ptr) (ps : Pairs) (key s : String) (h : Heap Obj)
      → IsHeap h
      → Holds h.cell (object p ps)
      → Distinct (addrs (object p ps))
      → UniqueKeys ps
      → 2 ≤ h.room
      → size (get_tree (key_of key) ps) < fuel
      → Returns
          (λ _ h'.
            Changed
              (object p ps)
              (object p (put_tree (h.next + 1) (key_of key) (string_leaf h.next s) ps))
              2
              h
              h')
          (set_string fuel p key s h)
  unfolding set_string string_new addrs
  set_string-Changed fuel p ps key s h w held d u r enough =
      let h1 = grown h (string_node (key_of s)) in
      rw (alloc-ok h (string_node (key_of s)) (omega arith)) (
        map_set-put_tree fuel p ps (codes key) (string_leaf h.next s) 1 h h1 w held d u
          (leaf-NewTree h (text (key_of s)) w (omega arith)) (omega (arith, w.next_pos))
          (omega arith) enough)

  module _ (a : Ptr) (es : Elems) (s : String) (h : Heap Obj) (w : IsHeap h)
      (held : Holds h.cell (array a es)) (d : Distinct (addrs (array a es))) (r : 2 ≤ h.room) where
    abbrev with_string : Heap Obj
    with_string = grown h (string_node (key_of s))

    string-NewTree : NewTree h (string_leaf h.next s) 1 with_string
    string-NewTree = leaf-NewTree h (text (key_of s)) w (omega arith)

    old_below : (b : Ptr) → has b (a ∷ elem_addrs es) ≡ true → b < h.next
    unfolding addrs
    old_below b i = Holds-below (array a es) h b w held i

    all-Distinct : Distinct (a ∷ (elem_addrs es ++ addrs (string_leaf h.next s)))
    unfolding addrs
    all-Distinct =
        append-Distinct (a ∷ elem_addrs es) (h.next ∷ []) d (refl, tt)
          λ b i. ground (arith, old_below b)

    pushed-Changed :
        (h2 : Heap Obj)
        → PushedTo (array a (snoc es (h.next + 1) (string_leaf h.next s))) a with_string h2
        → Changed (array a es) (array a (snoc es (h.next + 1) (string_leaf h.next s))) 2 h h2
    unfolding addrs size
    pushed-Changed h2 x = record {
      held = x.held;
      distinct = x.distinct;
      is_heap = x.is_heap;
      within = λ b i. ground (
        arith,
        ap (λ xs. has b xs) (elem_addrs-snoc es (h.next + 1) (string_leaf h.next s)),
        has-append b (elem_addrs es) ((h.next + 1) ∷ h.next ∷ []),
      );
      other = λ b lt o. ground (arith, x.other b, string-NewTree.same b);
      lost = λ b i o. ground (
        arith,
        has-snoc es (h.next + 1) (string_leaf h.next s) a b,
        string-NewTree.lost b,
        x.other b,
        x.is_heap.unused b,
        x.next,
      );
      grows = omega (arith, x.next);
      room = omega (arith, x.room);
      small = omega (arith, elems_size-snoc es (h.next + 1) (string_leaf h.next s));
    }

    pub push_string-Changed :
        Returns
          (λ _ h2.
            Changed (array a es) (array a (snoc es (h.next + 1) (string_leaf h.next s))) 2 h h2)
          (push_string a s h)
    unfolding push_string string_new
    push_string-Changed = rw (alloc-ok h (string_node (key_of s)) (omega arith)) (
        Returns-weaken
          (array_push_back-snoc a es (string_leaf h.next s) with_string string-NewTree.is_heap
            (omega arith)
            (NewTree-keeps h with_string (string_leaf h.next s) 1 (array a es) w string-NewTree
              held)
            string-NewTree.held all-Distinct)
          λ _ h2 x. pushed-Changed h2 x)
