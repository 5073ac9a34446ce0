-- ===== src/Parser/Finished.antt =====
-- What a container stands for once all of its text is read.
use pillowtalk.Prelude.{refl, sym, ap, inl, ◌∷◌, arith}
use pillowtalk.Libraries.{Ptr, Libraries}
use pillowtalk.Heap.{Heap, null, Obj, map_node, array_node}
use pillowtalk.Heap.Access.{IsHeap}
use pillowtalk.Value.{Values, Fields, sequence, mapping, no_values, no_fields}
use pillowtalk.Tree.{
  Elems, Pairs, array, object, no_elems, no_pairs, meaning, meanings, fields_of, addrs, elem_addrs,
  pair_addrs, Holds,
}
use pillowtalk.Tree.Footprint.{Distinct}
use pillowtalk.Free.Gone.{size}
use pillowtalk.Parser.{Context}
use pillowtalk.Parser.Slot.{Slot, skip-le, Attached-frame}
use pillowtalk.Parser.Events.{parsed, cost}
use pillowtalk.Tree.Meaning.{append-no_values, append-no_fields}
use pillowtalk.Parser.Built.{Built, BuiltElems, BuiltPairs}
use pillowtalk.Parser.Leaves.{Opened}

module _ ⦃L : Libraries⦄ where
  -- An array that has been opened and filled is its value, built.
  pub array_Built :
      {h : Heap Obj} {c : Context} (s : Slot h c) (vs : Values) (c1 : Context) (h1 h2 : Heap Obj)
      → IsHeap h
      → (o : Opened s (array_node L.init 0) h.next c1 h1) → BuiltElems h1 h.next no_elems vs h2
      → Built s (sequence vs) o.0 h2
  unfolding meaning addrs parsed cost size
  array_Built {h} s vs c1 h1 h2 w (c', ce, n) e = record {
    tree = array h.next e.elems;
    root = refl;
    held = e.held;
    means = ap sequence e.means;
    distinct = e.distinct;
    above = λ b i. ground (arith, e.above b, n.next);
    complete = λ b i lt. ground (arith, e.complete b, n.next);
    small = omega (arith, e.small);
    attached =
        Attached-frame s h.next h1 h2 c' w (λ b lt ne. e.same b (omega (arith, n.next)) ne)
          n.attached;
    is_heap = e.is_heap;
    room = omega (arith, n.room, e.room, skip-le s);
    grows = omega (arith, e.grows, n.next);
  }

  pub object_Built :
      {h : Heap Obj} {c : Context} (s : Slot h c) (fs : Fields) (c1 : Context) (h1 h2 : Heap Obj)
      → IsHeap h
      → (o : Opened s (map_node L.empty) null c1 h1) → BuiltPairs h1 h.next no_pairs fs h2
      → Built s (mapping fs) o.0 h2
  unfolding meaning addrs parsed cost size
  object_Built {h} s fs c1 h1 h2 w (c', ce, n) e = record {
    tree = object h.next e.pairs;
    root = refl;
    held = e.held;
    means = ap mapping e.means;
    distinct = e.distinct;
    above = λ b i. ground (arith, e.above b, n.next);
    complete = λ b i lt. ground (arith, e.complete b, n.next);
    small = omega (arith, e.small);
    attached =
        Attached-frame s h.next h1 h2 c' w (λ b lt ne. e.same b (omega (arith, n.next)) ne)
          n.attached;
    is_heap = e.is_heap;
    room = omega (arith, n.room, e.room, skip-le s);
    grows = omega (arith, e.grows, n.next);
  }

  pub no_more_elems :
      (h : Heap Obj) (a : Ptr) (es : Elems)
      → IsHeap h
      → Holds h.cell (array a es)
      → Distinct (a ∷ elem_addrs es)
      → BuiltElems h a es no_values h
  unfolding parsed cost
  no_more_elems h a es w held d = record {
    elems = es;
    held = held;
    means = sym (append-no_values (meanings es));
    distinct = d;
    above = λ b i. inl i;
    keeps = λ b i. i;
    complete = λ b le lt. absurd (omega arith);
    small = omega arith;
    same = λ b lt ne. refl;
    is_heap = w;
    room = omega arith;
    grows = omega arith;
  }

  pub no_more_pairs :
      (h : Heap Obj) (m : Ptr) (ps : Pairs)
      → IsHeap h
      → Holds h.cell (object m ps)
      → Distinct (m ∷ pair_addrs ps)
      → BuiltPairs h m ps no_fields h
  unfolding parsed cost
  no_more_pairs h m ps w held d = record {
    pairs = ps;
    held = held;
    means = sym (append-no_fields (fields_of ps));
    distinct = d;
    above = λ b i. inl i;
    keeps = λ b i. i;
    complete = λ b le lt. absurd (omega arith);
    small = omega arith;
    same = λ b lt ne. refl;
    is_heap = w;
    room = omega arith;
    grows = omega arith;
  }
