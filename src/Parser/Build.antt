-- ===== src/Parser/Build.antt =====
-- The callbacks for a JSON value build a tree that stands for it, in the slot that was open.
use pillowtalk.Prelude.{◌+◌, ◌<◌, ◌≤◌, ◌≡◌, ◌≢◌, ap, ◌∙◌, true, inl, ◌⊎◌, some, List, ◌∷◌, arith}
use pillowtalk.Libraries.{Bytes, Ptr, Libraries}
use pillowtalk.Heap.{Heap, ok, null, write, Obj, map_node, key_value, array_elem}
use pillowtalk.Heap.Access.{
  IsHeap, load-ok, store-ok, alloc-ok, alloc-IsHeap, put-IsHeap, used-lt, grown-keeps, grown, put,
}
use pillowtalk.Value.{Value, Values, Fields, value, field}
use pillowtalk.Tree.{
  Elems, Pairs, array, object, root_of, meanings, fields_of, addrs, elem_addrs, pair_addrs, Holds,
}
use pillowtalk.Tree.Footprint.{has, Distinct, has-append}
use pillowtalk.Tree.Append.{snoc}
use pillowtalk.Array.Push.{elem_addrs-snoc}
use pillowtalk.Tree.Ends.{elems_size-snoc, pairs_size-snoc_pair}
use pillowtalk.Parser.{Frame, Context, frame, context, json_map_key}
use pillowtalk.Parser.Slot.{Slot, in_array, in_pair, SameBut}
use pillowtalk.Parser.Children.{
  array_Holds-snoc, array_Distinct-snoc, object_Holds-snoc, object_Distinct-snoc,
}
use pillowtalk.Tree.LastPair.{snoc_pair, pair_addrs-snoc_pair}
use pillowtalk.Parser.Events.{parsed, parsed_values, parsed_fields, cost}
use pillowtalk.Tree.Meaning.{append_values, append_fields, meanings-snoc, fields_of-snoc}
use pillowtalk.Parser.Built.{Built, BuiltElems, BuiltPairs}

module _ ⦃L : Libraries⦄ where
  -- The array once one more value has been built in it.
  module _ (h : Heap Obj) (r a : Ptr) (rest : List Frame) (es : Elems) (v : Value) (w : IsHeap h)
      (held : Holds h.cell (array a es)) (d : Distinct (a ∷ elem_addrs es)) where
    abbrev pub elem_slot : Slot h (context r (frame a a ∷ rest))
    elem_slot = in_array held.0 held.1.1

    module _ (c1 : Context) (h1 : Heap Obj) (b : Built elem_slot v c1 h1) where
      abbrev pub more : Elems
      more = snoc es (h.next + 1) b.tree

      item_at : h1.cell (h.next + 1) ≡ some (array_elem (root_of b.tree) a)
      item_at = rw b.root b.attached.2

      pub more-Holds : Holds h1.cell (array a more)
      more-Holds =
          array_Holds-snoc h h1 w a (used-lt h a w held.1.1) b.attached.3 b.tree b.held b.distinct
            es held.1.0 held.0 held.1.2 held.2 d b.attached.1 item_at b.above

      pub more-Distinct : Distinct (a ∷ elem_addrs more)
      more-Distinct =
          array_Distinct-snoc h h1 w a (used-lt h a w held.1.1) b.attached.3 b.tree b.held
            b.distinct es held.1.0 held.0 held.1.2 held.2 d b.attached.1 item_at b.above

      more-has :
          (x : Ptr)
          → (has x (elem_addrs es) ≡ true) ⊎ ((h.next ≤ x) × (x < h1.next))
          → has x (elem_addrs more) ≡ true
      more-has x i = ground (
        arith,
        ap (has x) (elem_addrs-snoc es (h.next + 1) b.tree),
        has-append x (elem_addrs es) ((h.next + 1) ∷ addrs b.tree),
        b.complete x,
      )

      -- The rest of the values come behind it.
      pub elems_step :
          (vs : Values) (h2 : Heap Obj)
          → BuiltElems h1 a more vs h2
          → BuiltElems h a es (value v vs) h2
      unfolding parsed cost
      elems_step vs h2 e = record {
        elems = e.elems;
        held = e.held;
        means =
            e.means
            ∙ meanings-snoc es (h.next + 1) b.tree (parsed_values vs)
            ∙ ap (λ z. append_values (meanings es) (value z (parsed_values vs))) b.means;
        distinct = e.distinct;
        above = λ x i. ground (
          arith,
          e.above x i,
          ap (has x) (elem_addrs-snoc es (h.next + 1) b.tree),
          has-append x (elem_addrs es) ((h.next + 1) ∷ addrs b.tree),
          b.above x,
          b.grows,
        );
        keeps = λ x i. e.keeps x (more-has x (inl i));
        complete = λ x le lt. ground (arith, e.complete x, e.keeps x, more-has x);
        small = omega (arith, e.small, b.small, elems_size-snoc es (h.next + 1) b.tree);
        same = λ x lt ne. e.same x (omega (arith, b.grows)) ne ∙ b.attached.3 x lt ne;
        is_heap = e.is_heap;
        room = omega (arith, e.room, b.room);
        grows = omega (arith, e.grows, b.grows);
      }

  -- The map once one more key has come: a pair with no value yet.
  module _ (h : Heap Obj) (r m cur : Ptr) (rest : List Frame) (ps : Pairs) (k : Bytes)
      (w : IsHeap h) (held : Holds h.cell (object m ps)) (enough : 0 < h.room) where
    abbrev pub keyed : Heap Obj
    keyed = put (grown h (key_value k null m)) m (some (map_node (L.add_keyptr k h.next held.1.0)))

    m_lt : m < h.next
    m_lt = used-lt h m w held.1.1

    pub keyed-IsHeap : IsHeap keyed
    keyed-IsHeap =
        put-IsHeap (grown h (key_value k null m)) m _ (alloc-IsHeap {h = h} (key_value k null m) w)
          (omega (arith, m_lt))

    pub pair_at : keyed.cell h.next ≡ some (key_value k null m)
    unfolding write
    pair_at = ground (arith, m_lt)

    map_at : keyed.cell m ≡ some (map_node (L.add_keyptr k h.next held.1.0))
    unfolding write
    map_at = ground arith

    keyed_same : (x : Ptr) → x < h.next → x ≢ m → keyed.cell x ≡ h.cell x
    unfolding write
    keyed_same x lt ne = ground arith

    pub map_key-ok :
        json_map_key k (context r (frame m cur ∷ rest)) h
        ≡ ok (context r (frame m h.next ∷ rest)) keyed
    unfolding json_map_key
    map_key-ok = rw (
      load-ok h held.0 held.1.1,
      alloc-ok h (key_value k null m) enough,
      store-ok (grown h (key_value k null m)) held.0
          (grown-keeps h m (key_value k null m) w held.1.1),
    )

    abbrev pub pair_slot : Slot keyed (context r (frame m h.next ∷ rest))
    pair_slot = in_pair (λ e. absurd (omega (arith, w.next_pos))) pair_at

    module _ (v : Value) (d : Distinct (m ∷ pair_addrs ps)) (c1 : Context) (h1 : Heap Obj)
        (b : Built pair_slot v c1 h1) where
      abbrev pub more_pairs : Pairs
      more_pairs = snoc_pair ps h.next k b.tree

      kept : SameBut h h1 m
      kept x lt ne = b.attached.2 x (omega arith) (omega arith) ∙ keyed_same x lt ne

      map_still : h1.cell m ≡ some (map_node (L.add_keyptr k h.next held.1.0))
      map_still = b.attached.2 m (omega (arith, m_lt)) (omega (arith, m_lt)) ∙ map_at

      pair_filled : h1.cell h.next ≡ some (key_value k (root_of b.tree) m)
      pair_filled = rw b.root b.attached.1

      tree_above : (x : Ptr) → has x (addrs b.tree) ≡ true → h.next + 1 ≤ x
      tree_above x i = omega (arith, b.above x i)

      pub more_pairs-Holds : Holds h1.cell (object m more_pairs)
      more_pairs-Holds =
          object_Holds-snoc h h1 w m m_lt kept b.tree b.held b.distinct ps k held.1.0 held.0
            held.1.2 held.2 d map_still pair_filled tree_above

      pub more_pairs-Distinct : Distinct (m ∷ pair_addrs more_pairs)
      more_pairs-Distinct =
          object_Distinct-snoc h h1 w m m_lt kept b.tree b.held b.distinct ps k held.1.0 held.0
            held.1.2 held.2 d map_still pair_filled tree_above

      more_pairs-has :
          (x : Ptr)
          → (has x (pair_addrs ps) ≡ true) ⊎ ((h.next ≤ x) × (x < h1.next))
          → has x (pair_addrs more_pairs) ≡ true
      more_pairs-has x i = ground (
        arith,
        ap (has x) (pair_addrs-snoc_pair ps h.next k b.tree),
        has-append x (pair_addrs ps) (h.next ∷ addrs b.tree),
        b.complete x,
      )

      pub pairs_step :
          (fs : Fields) (h2 : Heap Obj)
          → BuiltPairs h1 m more_pairs fs h2
          → BuiltPairs h m ps (field k v fs) h2
      unfolding parsed cost
      pairs_step fs h2 e = record {
        pairs = e.pairs;
        held = e.held;
        means =
            e.means
            ∙ fields_of-snoc ps h.next k b.tree (parsed_fields fs)
            ∙ ap (λ z. append_fields (fields_of ps) (field k z (parsed_fields fs))) b.means;
        distinct = e.distinct;
        above = λ x i. ground (
          arith,
          e.above x i,
          ap (has x) (pair_addrs-snoc_pair ps h.next k b.tree),
          has-append x (pair_addrs ps) (h.next ∷ addrs b.tree),
          tree_above x,
          b.grows,
        );
        keeps = λ x i. e.keeps x (more_pairs-has x (inl i));
        complete = λ x le lt. ground (arith, e.complete x, e.keeps x, more_pairs-has x);
        small = omega (arith, e.small, b.small, pairs_size-snoc_pair ps h.next k b.tree);
        same = λ x lt ne. e.same x (omega (arith, b.grows)) ne ∙ kept x lt ne;
        is_heap = e.is_heap;
        room = omega (arith, e.room, b.room);
        grows = omega (arith, e.grows, b.grows);
      }
