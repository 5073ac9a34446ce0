-- ===== src/Update/Existing.antt =====
-- What a round of pt_map_update does to a pair that both maps have: merge_existing in each of its cases.
use pillowtalk.Prelude.{
  ℕ, ◌≡◌, ◌≢◌, refl, true, false, Bool, some, ◌==◌, same_bytes, arith, if◌then◌else◌,
}
use pillowtalk.Libraries.{Bytes, Ptr, Libraries}
use pillowtalk.Heap.{
  Heap, ok, pure, ◌>>=◌, ◌>>◌, Obj, Prog, PtType, pt_map, pt_array, pt_null, pt_boolean, pt_integer,
  pt_double, pt_string, pt_key_value,
}
use pillowtalk.Heap.Access.{load-ok}
use pillowtalk.Value.{
  Value, null_value, bool_value, int_value, double_value, text, missing, scalar, sequence, mapping,
}
use pillowtalk.Tree.{Tree, Pairs, nothing, leaf, array, object, root_of, meaning, fields_of, Holds}
use pillowtalk.Tree.Changed.{Changed}
use pillowtalk.Free.Gone.{pairs_size}
use pillowtalk.Clone.{clone}
use pillowtalk.Clone.Kept.{kept}
use pillowtalk.Map.{map_set}
use pillowtalk.Map.Lookup.{get_tree, UniqueKeys}
use pillowtalk.Update.{load_type, type_code, merge_same_type, merge_existing}
use pillowtalk.Update.Merge.{merge_fields, kind, conflict, merge_field, merge_value, kind-present}

module _ ⦃L : Libraries⦄ where
  -- What a round at the key `k` with the added value `v` makes of the map.
  pub record Round (p : Ptr) (cur : Pairs) (k : Bytes) (v : Value) (n : ℕ) (h : Heap Obj)
      (fine : Bool) (h' : Heap Obj) : Type 0 where
    pub now : Pairs
    pub changed : Changed (object p cur) (object p now) n h h'
    pub unique : UniqueKeys now
    pub others : (j : Bytes) → same_bytes k j ≡ false → get_tree j now ≡ get_tree j cur
    pub result : merge_field k v (merge_value v) (fields_of cur) ≡ (fine, fields_of now)

  pub kept-present : (v : Value) → v ≢ missing → kept v ≢ missing
  unfolding kept
  kept-present missing ne = ne
  kept-present (scalar s) ne = λ e. cc
  kept-present (sequence vs) ne = λ e. cc
  kept-present (mapping fs) ne = λ e. cc

  pub load_type-kind :
      (t : Tree) (h : Heap Obj)
      → Holds h.cell t
      → meaning t ≢ missing
      → (ty : PtType) × (load_type (root_of t) h ≡ ok ty h) × (type_code ty ≡ kind (meaning t))
  unfolding load_type meaning
  load_type-kind nothing h r ne = absurd (ne refl)
  load_type-kind (leaf p null_value) h (np, e) ne = (pt_null, rw (load-ok h np e) refl, refl)
  load_type-kind (leaf p (bool_value b)) h (np, e) ne = (pt_boolean, rw (load-ok h np e) refl, refl)
  load_type-kind (leaf p (int_value z)) h (np, e) ne = (pt_integer, rw (load-ok h np e) refl, refl)
  load_type-kind (leaf p (double_value z)) h (np, e) ne =
      (pt_double, rw (load-ok h np e) refl, refl)
  load_type-kind (leaf p (text s)) h (np, e) ne = (pt_string, rw (load-ok h np e) refl, refl)
  load_type-kind (array p es) h (np, (q, e, i), rs) ne = (pt_array, rw (load-ok h np e) refl, refl)
  load_type-kind (object p ps) h (np, (tb, e, i), rs) ne = (pt_map, rw (load-ok h np e) refl, refl)

  -- The three ways in which merge_existing goes.
  pub existing-conflict :
      (rec : Ptr → Ptr → Prog ℕ) (f : ℕ) (p : Ptr) (key : Bytes) (value existing : Ptr)
      (tv te : PtType) (h : Heap Obj)
      → load_type value h ≡ ok tv h
      → load_type existing h ≡ ok te h
      → (type_code tv == type_code te) ≡ false
      → merge_existing rec f p key value existing h ≡ ok false h
  unfolding merge_existing merge_same_type
  existing-conflict rec f p key value existing tv te h lv le clash = rw (lv, le, clash) refl

  pub existing-nested :
      (rec : Ptr → Ptr → Prog ℕ) (f : ℕ) (p : Ptr) (key : Bytes) (value existing : Ptr)
      (tv te : PtType) (h : Heap Obj)
      → load_type value h ≡ ok tv h
      → load_type existing h ≡ ok te h
      → (type_code tv == type_code te) ≡ true
      → type_code tv ≡ 0
      → merge_existing rec f p key value existing h ≡ (rec existing value >> pure true) h
  unfolding merge_existing merge_same_type
  existing-nested rec f p key value existing pt_map te h lv le same z = rw (lv, le, same) refl
  existing-nested rec f p key value existing pt_array te h lv le same z = absurd (omega arith)
  existing-nested rec f p key value existing pt_null te h lv le same z = absurd (omega arith)
  existing-nested rec f p key value existing pt_boolean te h lv le same z = absurd (omega arith)
  existing-nested rec f p key value existing pt_integer te h lv le same z = absurd (omega arith)
  existing-nested rec f p key value existing pt_double te h lv le same z = absurd (omega arith)
  existing-nested rec f p key value existing pt_string te h lv le same z = absurd (omega arith)
  existing-nested rec f p key value existing pt_key_value te h lv le same z = absurd (omega arith)

  pub existing-copy :
      (rec : Ptr → Ptr → Prog ℕ) (f : ℕ) (p : Ptr) (key : Bytes) (value existing : Ptr)
      (tv te : PtType) (h : Heap Obj)
      → load_type value h ≡ ok tv h
      → load_type existing h ≡ ok te h
      → (type_code tv == type_code te) ≡ true
      → type_code tv ≢ 0
      → merge_existing rec f p key value existing h
        ≡ (clone f value >>= λ copy. map_set f p (some key) copy >> pure true) h
  unfolding merge_existing merge_same_type
  existing-copy rec f p key value existing pt_map te h lv le same nz = absurd (nz refl)
  existing-copy rec f p key value existing pt_array te h lv le same nz = rw (lv, le, same) refl
  existing-copy rec f p key value existing pt_null te h lv le same nz = rw (lv, le, same) refl
  existing-copy rec f p key value existing pt_boolean te h lv le same nz = rw (lv, le, same) refl
  existing-copy rec f p key value existing pt_integer te h lv le same nz = rw (lv, le, same) refl
  existing-copy rec f p key value existing pt_double te h lv le same nz = rw (lv, le, same) refl
  existing-copy rec f p key value existing pt_string te h lv le same nz = rw (lv, le, same) refl
  existing-copy rec f p key value existing pt_key_value te h lv le same nz = rw (lv, le, same) refl

  -- A tree whose value is a mapping is that of a map.
  pub object-kind : (t : Tree) → kind (meaning t) ≡ 0 → (a : Ptr) × (qs : Pairs) × (t ≡ object a qs)
  unfolding meaning
  object-kind nothing z = absurd (omega arith)
  object-kind (leaf p null_value) z = absurd (omega arith)
  object-kind (leaf p (bool_value b)) z = absurd (omega arith)
  object-kind (leaf p (int_value b)) z = absurd (omega arith)
  object-kind (leaf p (double_value b)) z = absurd (omega arith)
  object-kind (leaf p (text b)) z = absurd (omega arith)
  object-kind (array p es) z = absurd (omega arith)
  object-kind (object a qs) z = (a, qs, refl)

  pub conflict-none : (v : Value) → conflict v missing ≡ false
  conflict-none v = refl

  pub conflict-eq :
      (v o : Value) → o ≢ missing → conflict v o ≡ (if kind v == kind o then false else true)
  conflict-eq v o there = rw (kind-present o there) refl

  -- What the nested call makes of the old map.
  abbrev pub NestedMerge : Ptr → (cur qs : Pairs) → Heap Obj → ℕ → Heap Obj → Type 0
  NestedMerge p cur qs h code h' =
      (now : Pairs) × Changed (object p cur) (object p now) (pairs_size qs) h h'
      × (fields_of now ≡ (merge_fields (fields_of qs) (fields_of cur)).1)
