-- ===== src/Map/Edits.antt =====
-- Any sequence of edits of a map keeps it well formed, and does to it what it does to the value.
use pillowtalk.Prelude.{
  ℕ, ◌+◌, ◌*◌, ◌<◌, ◌≤◌, ◌≡◌, refl, sym, ap, ◌∙◌, false, inl, inr, Bool-cases, List, [], ◌∷◌,
  same_bytes, length, arith,
}
use pillowtalk.Libraries.{Bytes, Ptr, Libraries, has_key}
use pillowtalk.Heap.{Heap, Obj}
use pillowtalk.Heap.Access.{grown}
use pillowtalk.Heap.Returns.{Returns, done, Returns-and_then, Returns-weaken}
use pillowtalk.Node.{c_str}
use pillowtalk.Value.{Scalar, obj_of, Fields, scalar, field}
use pillowtalk.Tree.{Tree, Pairs, leaf, no_pairs, pair, entries_of, meaning, fields_of, addrs}
use pillowtalk.Tree.New.{leaf-NewTree}
use pillowtalk.Tree.Ends.{pairs_size-snoc_pair}
use pillowtalk.Free.Gone.{size, pairs_size}
use pillowtalk.Clone.Kept.{kept_scalar}
use pillowtalk.Tree.Scalars.{new_scalar-ok}
use pillowtalk.Map.Lookup.{UniqueKeys}
use pillowtalk.Map.Addresses.{drop_tree}
use pillowtalk.Map.Remove.{map_unset-drop_tree, map_unset-missing}
use pillowtalk.Map.Parts.{get_tree-size, set_tree-size}
use pillowtalk.Map.Put.{map_set-put_tree}
use pillowtalk.Map.Fields.{put_tree, put_field, fields_of-put_tree, put_tree-UniqueKeys}
use pillowtalk.Map.Client.{
  Edit, set_scalar, unset, edit, run_edits, drop_field, edit_fields, edited_fields, IsMap,
  IsMap-weaken,
}

module _ ⦃L : Libraries⦄ where
  put_tree-size :
      (e : Ptr) (k : Bytes) (t : Tree) (ps : Pairs)
      → pairs_size (put_tree e k t ps) ≤ pairs_size ps + size t + 1
  put_tree-size e k t ps = ground (arith, set_tree-size k t ps, pairs_size-snoc_pair ps e k t)

  drop_tree-size : (k : Bytes) (ps : Pairs) → pairs_size (drop_tree k ps) ≤ pairs_size ps
  unfolding size
  drop_tree-size k no_pairs = omega arith
  drop_tree-size k (pair e j t ps) = ground (arith, drop_tree-size k ps)

  fields_of-drop_tree :
      (k : Bytes) (ps : Pairs) → fields_of (drop_tree k ps) ≡ drop_field k (fields_of ps)
  unfolding meaning
  fields_of-drop_tree k no_pairs = refl
  fields_of-drop_tree k (pair e j t ps) = elim (Bool-cases (same_bytes j k)) [
    | inl same ↦ rw same refl
    | inr other ↦ rw other (ap (field j (meaning t)) (fields_of-drop_tree k ps))
  ]

  has_key-drop_tree :
      (i k : Bytes) (ps : Pairs)
      → has_key i (entries_of ps) ≡ false
      → has_key i (entries_of (drop_tree k ps)) ≡ false
  has_key-drop_tree i k no_pairs o = o
  has_key-drop_tree i k (pair e j t ps) o = ground (arith, has_key-drop_tree i k ps)

  drop_tree-UniqueKeys : (k : Bytes) (ps : Pairs) → UniqueKeys ps → UniqueKeys (drop_tree k ps)
  drop_tree-UniqueKeys k no_pairs u = tt
  drop_tree-UniqueKeys k (pair e j t ps) (o, u) =
      ground (arith, drop_tree-UniqueKeys k ps u, has_key-drop_tree j k ps)

  drop_tree-missing :
      (k : Bytes) (ps : Pairs) → has_key k (entries_of ps) ≡ false → drop_tree k ps ≡ ps
  drop_tree-missing k no_pairs o = refl
  drop_tree-missing k (pair e j t ps) o =
      let other : same_bytes j k ≡ false = ground arith in
      rw other (ap (pair e j t) (drop_tree-missing k ps (ground arith)))

  -- What an edit leaves.
  abbrev AfterEdit : Ptr → Fields → ℕ → Heap Obj → Unit {0} → Heap Obj → Type 0
  AfterEdit p fs n h _ h' = IsMap p fs n h' × (h.room ≤ h'.room + 2)

  set_scalar-IsMap :
      (fuel : ℕ) (p : Ptr) (key : Bytes) (s : Scalar) (fs : Fields) (n : ℕ) (h : Heap Obj)
      → IsMap p fs n h
      → n + 1 < fuel
      → 2 ≤ h.room
      → Returns
          (AfterEdit p (edit_fields (set_scalar key s) fs) (n + 2) h)
          (edit fuel p (set_scalar key s) h)
  unfolding edit size addrs meaning
  set_scalar-IsMap fuel p key s fs n h m enough room =
      let h1 = grown h (obj_of (kept_scalar s)) in
      let t = leaf h.next (kept_scalar s) in
      rw (new_scalar-ok s h (omega arith)) (
        Returns-weaken
          (map_set-put_tree fuel p m.pairs key t 1 h h1 m.is_heap m.held m.distinct m.unique
            (leaf-NewTree h (kept_scalar s) m.is_heap (omega arith))
            (omega (arith, m.is_heap.next_pos)) (omega arith)
            (omega (arith, get_tree-size (c_str key) m.pairs, m.small)))
          λ _ h' x. (
            record {
              pairs = put_tree h1.next (c_str key) t m.pairs;
              held = x.held;
              distinct = x.distinct;
              unique = put_tree-UniqueKeys h1.next (c_str key) t m.pairs m.unique;
              is_heap = x.is_heap;
              means =
                  fields_of-put_tree h1.next (c_str key) t m.pairs
                  ∙ ap (put_field (c_str key) (scalar (kept_scalar s))) m.means;
              small = omega (arith, put_tree-size h1.next (c_str key) t m.pairs, m.small);
            },
            x.room,
          ))

  unset-IsMap :
      (fuel : ℕ) (p : Ptr) (key : Bytes) (fs : Fields) (n : ℕ) (h : Heap Obj)
      → IsMap p fs n h
      → n < fuel
      → Returns (AfterEdit p (edit_fields (unset key) fs) (n + 2) h) (edit fuel p (unset key) h)
  unfolding edit addrs
  unset-IsMap fuel p key fs n h m enough =
      elim (Bool-cases (has_key (c_str key) (entries_of m.pairs))) [
        | inl there ↦
            Returns-weaken
              (map_unset-drop_tree fuel p m.pairs key h m.is_heap m.held m.distinct m.unique there
                (omega (arith, get_tree-size (c_str key) m.pairs, m.small)))
              λ _ h' x. (
                record {
                  pairs = drop_tree (c_str key) m.pairs;
                  held = x.held;
                  distinct = x.distinct;
                  unique = drop_tree-UniqueKeys (c_str key) m.pairs m.unique;
                  is_heap = x.is_heap;
                  means =
                      fields_of-drop_tree (c_str key) m.pairs ∙ ap (drop_field (c_str key)) m.means;
                  small = omega (arith, drop_tree-size (c_str key) m.pairs, m.small);
                },
                omega (arith, x.room),
              )
        | inr absent ↦ rw (map_unset-missing fuel p m.pairs key h m.held absent) (
            done (
              record {
                pairs = m.pairs;
                held = m.held;
                distinct = m.distinct;
                unique = m.unique;
                is_heap = m.is_heap;
                means =
                    ap fields_of (sym (drop_tree-missing (c_str key) m.pairs absent))
                    ∙ fields_of-drop_tree (c_str key) m.pairs
                    ∙ ap (drop_field (c_str key)) m.means;
                small = omega (arith, m.small);
              },
              omega arith,
            ))
      ]

  edit-IsMap :
      (fuel : ℕ) (p : Ptr) (e : Edit) (fs : Fields) (n : ℕ) (h : Heap Obj)
      → IsMap p fs n h
      → n + 1 < fuel
      → 2 ≤ h.room
      → Returns (AfterEdit p (edit_fields e fs) (n + 2) h) (edit fuel p e h)
  edit-IsMap fuel p (set_scalar key s) fs n h m enough room =
      set_scalar-IsMap fuel p key s fs n h m enough room
  edit-IsMap fuel p (unset key) fs n h m enough room = unset-IsMap fuel p key fs n h m (omega arith)

  -- From a map of distinct keys, with two structs of memory for each edit and fuel for what may be
  -- freed, every sequence of edits ends without a fault at such a map, which stands for the edited
  -- value.
  pub run_edits-IsMap :
      (es : List Edit) (fuel : ℕ) (p : Ptr) (fs : Fields) (n : ℕ) (h : Heap Obj)
      → IsMap p fs n h
      → n + 2 * length es < fuel
      → 2 * length es ≤ h.room
      → Returns
          (λ _ h'. IsMap p (edited_fields es fs) (n + 2 * length es) h')
          (run_edits fuel p es h)
  unfolding run_edits
  run_edits-IsMap [] fuel p fs n h m enough room = done (IsMap-weaken (omega arith) m)
  run_edits-IsMap (e ∷ es) fuel p fs n h m enough room =
      Returns-and_then (edit-IsMap fuel p e fs n h m (omega arith) (omega arith)) λ _ h1 (m1, r).
        Returns-weaken
          (run_edits-IsMap es fuel p (edit_fields e fs) (n + 2) h1 m1 (omega arith) (omega arith))
          λ _ h' m2. IsMap-weaken (omega arith) m2
