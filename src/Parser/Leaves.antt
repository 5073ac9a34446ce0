-- ===== src/Parser/Leaves.antt =====
-- The callbacks for a scalar, and for the start and the end of a container.
use pillowtalk.Prelude.{◌≤◌, ◌≡◌, refl, inl, [], ◌∷◌, arith}
use pillowtalk.Prelude.Int.{to_int}
use pillowtalk.Libraries.{Ptr, Libraries}
use pillowtalk.Heap.{Heap, ok, null, and_then, Obj, map_node, array_node}
use pillowtalk.Heap.Access.{IsHeap, load-ok, alloc-ok}
use pillowtalk.Heap.Returns.{Returns, done, Returns-and_then}
use pillowtalk.Value.{
  Scalar, null_value, bool_value, int_value, double_value, text, obj_of, Value, missing, scalar,
}
use pillowtalk.Tree.{Elems, Pairs, leaf, array, object, meaning, addrs, Holds}
use pillowtalk.Free.Gone.{size}
use pillowtalk.Parser.{
  Context, frame, context, on_null, on_end_map, on_end_array, run_callbacks, add_leaf, json_null,
  json_boolean, json_integer, json_double, json_string, json_start_map, json_start_array,
  json_end_map, json_end_array,
}
use pillowtalk.Parser.Slot.{Slot, skip-le, NewNode, add_leaf-NewNode, add_node-NewNode}
use pillowtalk.Parser.Events.{scalar_event, parsed, cost}
use pillowtalk.Parser.Built.{Built}

module _ ⦃L : Libraries⦄ where
  pub leaf_Built :
      {h : Heap Obj} {c : Context} (s : Slot h c) (v : Value) (sc : Scalar)
      → IsHeap h
      → 2 ≤ h.room
      → cost v ≡ 2
      → scalar sc ≡ parsed v
      → Returns (Built s v) (and_then (add_leaf (obj_of sc) c h) (run_callbacks []))
  unfolding run_callbacks addrs meaning size
  leaf_Built {h} s v sc w r e m = Returns-and_then (add_leaf-NewNode s (obj_of sc) w r) λ c' h' n.
      done (record {
        tree = leaf h.next sc;
        root = refl;
        held = (omega (arith, w.next_pos), n.node);
        means = m;
        distinct = (refl, tt);
        above = λ b i. inl (ground arith);
        complete = λ b i lt. ground (arith, n.next);
        small = omega (arith, e);
        attached = n.attached;
        is_heap = n.is_heap;
        room = omega (arith, n.room, e, skip-le s);
        grows = omega (arith, n.next);
      })

  -- A value without parts is one callback; a missing one reads as null.
  pub scalar_Built :
      {h : Heap Obj} {c : Context} (s : Slot h c) (sc : Scalar)
      → IsHeap h
      → 2 ≤ h.room
      → Returns (Built s (scalar sc)) (run_callbacks (scalar_event sc ∷ []) c h)
  unfolding run_callbacks json_null json_boolean json_integer json_double json_string parsed cost
  scalar_Built s null_value w r = leaf_Built s _ null_value w r refl refl
  scalar_Built s (bool_value b) w r = leaf_Built s _ (bool_value b) w r refl refl
  scalar_Built s (int_value z) w r = leaf_Built s _ (int_value (to_int z)) w r refl refl
  scalar_Built s (double_value d) w r = leaf_Built s _ (double_value d) w r refl refl
  scalar_Built s (text t) w r = leaf_Built s _ (text t) w r refl refl

  pub missing_Built :
      {h : Heap Obj} {c : Context} (s : Slot h c)
      → IsHeap h
      → 2 ≤ h.room
      → Returns (Built s missing) (run_callbacks (on_null ∷ []) c h)
  unfolding run_callbacks json_null parsed cost
  missing_Built s w r = leaf_Built s missing null_value w r refl refl

  -- A container that has been opened: its node is in its slot, and its frame on the stack.
  abbrev pub Opened :
      {h : Heap Obj} {c : Context} (s : Slot h c) (o : Obj) (cur : Ptr) (c1 : Context)
      (h1 : Heap Obj)
      → Type 0
  Opened {h} s o cur c1 h1 =
      (c' : Context) × (c1 ≡ context c'.root (frame h.next cur ∷ c'.stack)) × NewNode s o c' h1

  pub start_array-Opened :
      {h : Heap Obj} {c : Context} (s : Slot h c)
      → IsHeap h
      → 2 ≤ h.room
      → Returns (Opened s (array_node L.init 0) h.next) (json_start_array c h)
  unfolding json_start_array
  start_array-Opened {h} s w r = rw (alloc-ok h (array_node L.init 0) (omega arith)) (
      Returns-and_then (add_node-NewNode s (array_node L.init 0) w r) λ c' h' n. done (c', refl, n))

  pub start_map-Opened :
      {h : Heap Obj} {c : Context} (s : Slot h c)
      → IsHeap h
      → 2 ≤ h.room
      → Returns (Opened s (map_node L.empty) null) (json_start_map c h)
  unfolding json_start_map
  start_map-Opened {h} s w r =
      rw (alloc-ok h (map_node L.empty) (omega arith))
        (Returns-and_then (add_node-NewNode s (map_node L.empty) w r) λ c' h' n. done (c', refl, n))

  pub end_array-ok :
      (h : Heap Obj) (c : Context) (a : Ptr) (es : Elems)
      → Holds h.cell (array a es)
      → run_callbacks (on_end_array ∷ []) (context c.root (frame a a ∷ c.stack)) h ≡ ok c h
  unfolding run_callbacks json_end_array
  end_array-ok h c a es (ne, (q, e, i), rs) = rw (load-ok h ne e)

  pub end_map-ok :
      (h : Heap Obj) (c : Context) (m cur : Ptr) (ps : Pairs)
      → Holds h.cell (object m ps)
      → run_callbacks (on_end_map ∷ []) (context c.root (frame m cur ∷ c.stack)) h ≡ ok c h
  unfolding run_callbacks json_end_map
  end_map-ok h c m cur ps (ne, (t, e, i), rs) = rw (load-ok h ne e)
