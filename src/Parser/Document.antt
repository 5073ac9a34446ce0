-- ===== src/Parser/Document.antt =====
-- parse_json on a text that yajl reads as a JSON value: the tree that it returns stands for the value.
use pillowtalk.Prelude.{◌<◌, ◌≤◌, ◌≡◌, refl, sym, ap, ◌∙◌, List, [], ◌∷◌, arith}
use pillowtalk.Libraries.{Bytes, Ptr, Libraries}
use pillowtalk.Heap.{Heap, null, Obj}
use pillowtalk.Heap.Access.{IsHeap}
use pillowtalk.Heap.Returns.{Returns, done, Returns-and_then, Returns-weaken}
use pillowtalk.Value.{
  Value, Values, Fields, missing, scalar, sequence, mapping, no_values, value, no_fields, field,
}
use pillowtalk.Tree.{
  Tree, Elems, Pairs, array, object, no_elems, no_pairs, root_of, meaning, addrs, elem_addrs,
  pair_addrs, Holds,
}
use pillowtalk.Tree.Footprint.{Distinct}
use pillowtalk.Tree.New.{NewTree}
use pillowtalk.Parser.{
  Frame, Context, frame, context, on_end_array, on_end_map, run_callbacks, YajlParse, parse_json,
}
use pillowtalk.Parser.Slot.{Slot, top, skip-le}
use pillowtalk.Parser.Events.{
  events_of, value_events, field_events, parsed, cost, values_cost, fields_cost, run-append,
}
use pillowtalk.Parser.Built.{Built, BuiltElems, BuiltPairs}
use pillowtalk.Parser.Build.{
  elem_slot, more, more-Holds, more-Distinct, elems_step, keyed, keyed-IsHeap, map_key-ok,
  pair_slot, more_pairs, more_pairs-Holds, more_pairs-Distinct, pairs_step,
}
use pillowtalk.Parser.Leaves.{
  scalar_Built, missing_Built, start_array-Opened, start_map-Opened, end_array-ok, end_map-ok,
}
use pillowtalk.Parser.Finished.{array_Built, object_Built, no_more_elems, no_more_pairs}

module _ ⦃L : Libraries⦄ where
  mutual
    unfolding events_of parsed cost run_callbacks addrs meaning

    pub build :
        (v : Value) {h : Heap Obj} {c : Context} (s : Slot h c)
        → IsHeap h
        → cost v ≤ h.room
        → Returns (Built s v) (run_callbacks (events_of v) c h)
    build missing s w r = missing_Built s w r
    build (scalar sc) s w r = scalar_Built s sc w r
    build (sequence vs) {h} s w r =
        Returns-and_then (start_array-Opened s w (omega arith)) λ c1 h1 (c', ce, n).
          rw
            (
              ce,
              run-append (value_events vs) (on_end_array ∷ [])
                  (context c'.root (frame h.next h.next ∷ c'.stack)) h1,
            )
            (Returns-and_then
              (build_elems vs h1 c'.root h.next c'.stack no_elems n.is_heap
                (omega (arith, w.next_pos), (L.init, n.node, L.items-init), tt) (refl, tt)
                (omega (arith, n.room, skip-le s)))
              λ c2 h2 (ce2, e).
                rw (ce2, end_array-ok h2 c' h.next e.elems e.held)
                  (done (array_Built s vs c1 h1 h2 w (c', ce, n) e)))
    build (mapping fs) {h} s w r =
        Returns-and_then (start_map-Opened s w (omega arith)) λ c1 h1 (c', ce, n).
          rw
            (
              ce,
              run-append (field_events fs) (on_end_map ∷ [])
                  (context c'.root (frame h.next null ∷ c'.stack)) h1,
            )
            (Returns-and_then
              (build_pairs fs h1 c'.root h.next null c'.stack no_pairs n.is_heap
                (omega (arith, w.next_pos), (L.empty, n.node, L.entries-empty), tt) (refl, tt)
                (omega (arith, n.room, skip-le s)))
              λ c2 h2 ((cur, ce2), e).
                rw (ce2, end_map-ok h2 c' h.next cur e.pairs e.held)
                  (done (object_Built s fs c1 h1 h2 w (c', ce, n) e)))

    build_elems :
        (vs : Values) (h : Heap Obj) (r a : Ptr) (rest : List Frame) (es : Elems)
        → IsHeap h
        → Holds h.cell (array a es)
        → Distinct (a ∷ elem_addrs es)
        → values_cost vs ≤ h.room
        → Returns
            (λ c' h'. (c' ≡ context r (frame a a ∷ rest)) × BuiltElems h a es vs h')
            (run_callbacks (value_events vs) (context r (frame a a ∷ rest)) h)
    build_elems no_values h r a rest es w held d enough = done (refl, no_more_elems h a es w held d)
    build_elems (value v vs) h r a rest es w held d enough =
        rw (run-append (events_of v) (value_events vs) (context r (frame a a ∷ rest)) h) (
          Returns-and_then (build v (elem_slot h r a rest es v w held d) w (omega arith)) λ c1 h1 b.
            rw b.attached.0 (
              Returns-weaken
                (build_elems vs h1 r a rest (more h r a rest es v w held d c1 h1 b) b.is_heap
                  (more-Holds h r a rest es v w held d c1 h1 b)
                  (more-Distinct h r a rest es v w held d c1 h1 b) (omega (arith, b.room)))
                λ c2 h2 (ce, e). (ce, elems_step h r a rest es v w held d c1 h1 b vs h2 e)))

    build_pairs :
        (fs : Fields) (h : Heap Obj) (r m cur : Ptr) (rest : List Frame) (ps : Pairs)
        → IsHeap h
        → Holds h.cell (object m ps)
        → Distinct (m ∷ pair_addrs ps)
        → fields_cost fs ≤ h.room
        → Returns
            (λ c' h'.
              ((cur' : Ptr) × (c' ≡ context r (frame m cur' ∷ rest))) × BuiltPairs h m ps fs h')
            (run_callbacks (field_events fs) (context r (frame m cur ∷ rest)) h)
    build_pairs no_fields h r m cur rest ps w held d enough =
        done ((cur, refl), no_more_pairs h m ps w held d)
    build_pairs (field k v fs) h r m cur rest ps w held d enough =
        let en : 0 < h.room = omega arith in
        let h0 = keyed h r m cur rest ps k w held en in
        let slot = pair_slot h r m cur rest ps k w held en in
        rw
          (
            map_key-ok h r m cur rest ps k w held en,
            run-append (events_of v) (field_events fs) (context r (frame m h.next ∷ rest)) h0,
          )
          (Returns-and_then
            (build v slot (keyed-IsHeap h r m cur rest ps k w held en) (omega arith))
            λ c1 h1 b. rw b.attached.0 (
              Returns-weaken
                (build_pairs fs h1 r m h.next rest
                  (more_pairs h r m cur rest ps k w held en v d c1 h1 b) b.is_heap
                  (more_pairs-Holds h r m cur rest ps k w held en v d c1 h1 b)
                  (more_pairs-Distinct h r m cur rest ps k w held en v d c1 h1 b)
                  (omega (arith, b.room)))
                λ c2 h2 (ce, e).
                  (ce, pairs_step h r m cur rest ps k w held en v d c1 h1 b fs h2 e)))

  -- What parse_json leaves: a tree of new structs that stands for the value, and the older ones as
  -- they were.
  pub record Parsed (v : Value) (h : Heap Obj) (root : Ptr) (h' : Heap Obj) : Type 0 where
    pub tree : Tree
    pub root_is : root_of tree ≡ root
    pub new : NewTree h tree (cost v) h'
    pub means : meaning tree ≡ parsed v

  module _ ⦃Y : YajlParse⦄ where
    -- Where yajl reads a text as the value `v` and memory suffices, parse_json ends without a fault, and
    -- returns the root of a tree of new structs, each struct of it once, that stands for `v` with its
    -- integers cut to `int` and NULL read as null; it changes no older struct.
    pub parse_json-Parsed :
        (json : Bytes) (v : Value) (h : Heap Obj)
        → Y.events json ≡ events_of v
        → IsHeap h
        → cost v ≤ h.room
        → Returns (Parsed v h) (parse_json json h)
    unfolding parse_json
    parse_json-Parsed json v h e w r = rw e (
        Returns-and_then (build v (top {r = null}) w r) λ c' h' b. done (record {
          tree = b.tree;
          root_is = b.root ∙ sym (ap (λ c. c.root) b.attached.0);
          new = record {
            held = b.held;
            distinct = b.distinct;
            fresh = λ a i. ground (arith, b.above a i);
            same = b.attached.1;
            is_heap = b.is_heap;
            room = b.room;
            grows = b.grows;
            lost = λ a le o. ground (arith, b.complete a, b.is_heap.unused a);
            small = omega (arith, b.small);
          };
          means = b.means;
        }))
