-- ===== src/Parser/Built.antt =====
-- What the parser has built: a value's tree in its slot, and a container with more of its items.
use pillowtalk.Prelude.{◌<◌, ◌+◌, ◌≤◌, ◌≡◌, ◌⊎◌, true, ◌∷◌}
use pillowtalk.Libraries.{Ptr, Libraries}
use pillowtalk.Heap.{Heap, Obj}
use pillowtalk.Heap.Access.{IsHeap}
use pillowtalk.Value.{Value, Values, Fields}
use pillowtalk.Tree.{
  Tree, Elems, Pairs, array, object, root_of, meaning, meanings, fields_of, addrs, elem_addrs,
  pair_addrs, Holds,
}
use pillowtalk.Tree.Footprint.{has, Distinct}
use pillowtalk.Free.Gone.{size, elems_size, pairs_size}
use pillowtalk.Parser.{Context}
use pillowtalk.Parser.Slot.{Slot, skip, SameBut, Attached}
use pillowtalk.Parser.Events.{parsed, parsed_values, parsed_fields, cost, values_cost, fields_cost}
use pillowtalk.Tree.Meaning.{append_values, append_fields}

module _ ⦃L : Libraries⦄ where
  -- The value's tree, held in its slot.
  pub record Built {h : Heap Obj} {c : Context} (s : Slot h c) (v : Value) (c' : Context)
      (h' : Heap Obj) : Type 0 where
    pub tree : Tree
    pub root : root_of tree ≡ h.next
    pub held : Holds h'.cell tree
    pub means : meaning tree ≡ parsed v
    pub distinct : Distinct (addrs tree)
    pub above : (b : Ptr) → has b (addrs tree) ≡ true → (b ≡ h.next) ⊎ (h.next + skip s ≤ b)
    pub complete :
        (b : Ptr) → (b ≡ h.next) ⊎ (h.next + skip s ≤ b) → b < h'.next → has b (addrs tree) ≡ true
    pub small : size tree < cost v
    pub attached : Attached s h.next h' c'
    pub is_heap : IsHeap h'
    pub room : h.room ≤ h'.room + cost v
    pub grows : h.next ≤ h'.next

  -- An open array, with some of its values, after the rest of them.
  pub record BuiltElems (h : Heap Obj) (a : Ptr) (es : Elems) (vs : Values) (h' : Heap Obj)
      : Type 0 where
    pub elems : Elems
    pub held : Holds h'.cell (array a elems)
    pub means : meanings elems ≡ append_values (meanings es) (parsed_values vs)
    pub distinct : Distinct (a ∷ elem_addrs elems)
    pub above :
        (b : Ptr) → has b (elem_addrs elems) ≡ true → (has b (elem_addrs es) ≡ true) ⊎ (h.next ≤ b)
    pub keeps : (b : Ptr) → has b (elem_addrs es) ≡ true → has b (elem_addrs elems) ≡ true
    pub complete : (b : Ptr) → h.next ≤ b → b < h'.next → has b (elem_addrs elems) ≡ true
    pub small : elems_size elems ≤ elems_size es + values_cost vs
    pub same : SameBut h h' a
    pub is_heap : IsHeap h'
    pub room : h.room ≤ h'.room + values_cost vs
    pub grows : h.next ≤ h'.next

  pub record BuiltPairs (h : Heap Obj) (m : Ptr) (ps : Pairs) (fs : Fields) (h' : Heap Obj)
      : Type 0 where
    pub pairs : Pairs
    pub held : Holds h'.cell (object m pairs)
    pub means : fields_of pairs ≡ append_fields (fields_of ps) (parsed_fields fs)
    pub distinct : Distinct (m ∷ pair_addrs pairs)
    pub above :
        (b : Ptr) → has b (pair_addrs pairs) ≡ true → (has b (pair_addrs ps) ≡ true) ⊎ (h.next ≤ b)
    pub keeps : (b : Ptr) → has b (pair_addrs ps) ≡ true → has b (pair_addrs pairs) ≡ true
    pub complete : (b : Ptr) → h.next ≤ b → b < h'.next → has b (pair_addrs pairs) ≡ true
    pub small : pairs_size pairs ≤ pairs_size ps + fields_cost fs
    pub same : SameBut h h' m
    pub is_heap : IsHeap h'
    pub room : h.room ≤ h'.room + fields_cost fs
    pub grows : h.next ≤ h'.next
