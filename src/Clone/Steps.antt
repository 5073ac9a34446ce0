-- ===== src/Clone/Steps.antt =====
-- A copied scalar, and what pt_map_set and pt_clone do about a value that is missing.

use pillowtalk.Prelude.{[], ℕ, suc, ◌<◌, ◌≡◌, ◌≢◌, refl, ◌⊎◌, inl, inr, Option, some}
use pillowtalk.Libraries.{Bytes, Ptr, Libraries}
use pillowtalk.Heap.{Heap, ok, null, Obj, null_node, bool_node, int_node, double_node, string_node}
use pillowtalk.Heap.Access.{IsHeap, not_null, load-ok, alloc-ok, grown}
use pillowtalk.Heap.Returns.{Returns, done}
use pillowtalk.Node.{c_str, null_new, bool_new, integer_new, double_new, string_new}
use pillowtalk.Value.{
  Scalar, obj_of, null_value, bool_value, int_value, double_value, text, Value, Fields, missing,
  scalar, sequence, mapping, field,
}
use pillowtalk.Tree.{
  Tree, Elems, Pairs, nothing, leaf, array, object, root_of, addrs, meaning, meanings, fields_of,
  Holds,
}
use pillowtalk.Tree.Meaning.{append_values, append_fields}
use pillowtalk.Tree.New.{NewTree, leaf-NewTree}
use pillowtalk.Free.Gone.{size}
use pillowtalk.Map.{map_set}
use pillowtalk.Clone.{clone}
use pillowtalk.Clone.Kept.{keep_field, kept, kept_values, kept_fields, kept_scalar}

module _ ⦃L : Libraries⦄ where
  -- The copy, of which each struct is new, and what it stands for.
  pub record Copied (t : Tree) (h : Heap Obj) (root : Ptr) (h' : Heap Obj) : Type 0 where
    pub copy : Tree
    pub root_is : root_of copy ≡ root
    pub new : NewTree h copy (size t) h'
    pub means : meaning copy ≡ kept (meaning t)

  new_leaf :
      (p : Ptr) (s : Scalar) (h : Heap Obj)
      → IsHeap h
      → 0 < h.room
      → Copied (leaf p s) h h.next (grown h (obj_of (kept_scalar s)))
  unfolding kept meaning size
  new_leaf p s h w r = record {
    copy = leaf h.next (kept_scalar s);
    root_is = refl;
    new = leaf-NewTree h (kept_scalar s) w r;
    means = refl;
  }

  pub leaf_Copied :
      (p : Ptr) (s : Scalar) (f : ℕ) (h : Heap Obj)
      → IsHeap h
      → 0 < h.room
      → Holds h.cell (leaf p s)
      → Returns (Copied (leaf p s) h) (clone (suc f) p h)
  unfolding clone null_new bool_new integer_new double_new string_new
  leaf_Copied p null_value f h w r (ne, e) =
      rw (not_null ne, load-ok h ne e, alloc-ok h null_node r) (done (new_leaf p null_value h w r))
  leaf_Copied p (bool_value b) f h w r (ne, e) =
      rw (not_null ne, load-ok h ne e, alloc-ok h (bool_node b) r)
        (done (new_leaf p (bool_value b) h w r))
  leaf_Copied p (int_value z) f h w r (ne, e) =
      rw (not_null ne, load-ok h ne e, alloc-ok h (int_node z) r)
        (done (new_leaf p (int_value z) h w r))
  leaf_Copied p (double_value z) f h w r (ne, e) =
      rw (not_null ne, load-ok h ne e, alloc-ok h (double_node z) r)
        (done (new_leaf p (double_value z) h w r))
  leaf_Copied p (text s) f h w r (ne, e) =
      rw (not_null ne, load-ok h ne e, alloc-ok h (string_node (c_str s)) r)
        (done (new_leaf p (text s) h w r))

  -- What the loops make of a copy that has the elements `acc`, or the pairs, already.
  pub record CopiedElems (h0 : Heap Obj) (p : Ptr) (acc es : Elems) (n : ℕ) (root : Ptr)
      (h' : Heap Obj) : Type 0 where
    pub root_is : root ≡ p
    pub all : Elems
    pub new : NewTree h0 (array p all) n h'
    pub means : meanings all ≡ append_values (meanings acc) (kept_values (meanings es))

  pub record CopiedPairs (h0 : Heap Obj) (p : Ptr) (acc ps : Pairs) (n : ℕ) (root : Ptr)
      (h' : Heap Obj) : Type 0 where
    pub root_is : root ≡ p
    pub all : Pairs
    pub new : NewTree h0 (object p all) n h'
    pub means : fields_of all ≡ append_fields (fields_of acc) (kept_fields (fields_of ps))

  pub skip_null :
      (fuel : ℕ) (p : Ptr) (ps : Pairs) (k : Bytes) (h : Heap Obj)
      → Holds h.cell (object p ps)
      → map_set fuel p (some k) null h ≡ ok tt h
  unfolding map_set
  skip_null fuel p ps k h (ne, (t, e, i), rs) = rw (not_null ne, load-ok h ne e)

  pub missing-cases : (v : Value) → (v ≡ missing) ⊎ (v ≢ missing)
  missing-cases missing = inl refl
  missing-cases (scalar s) = inr (λ e. cc)
  missing-cases (sequence vs) = inr (λ e. cc)
  missing-cases (mapping fs) = inr (λ e. cc)

  pub root_missing : (t : Tree) → meaning t ≡ missing → root_of t ≡ null
  unfolding meaning
  root_missing nothing e = refl
  root_missing (leaf p s) e = cc
  root_missing (array p es) e = cc
  root_missing (object p ps) e = cc

  pub addrs_missing : (t : Tree) → meaning t ≡ missing → addrs t ≡ []
  unfolding meaning addrs
  addrs_missing nothing e = refl
  addrs_missing (leaf p s) e = cc
  addrs_missing (array p es) e = cc
  addrs_missing (object p ps) e = cc

  pub root_present :
      (t : Tree) (c : Ptr → Option Obj) → Holds c t → meaning t ≢ missing → root_of t ≢ null
  unfolding meaning
  root_present nothing c r ne = absurd (ne refl)
  root_present (leaf p s) c (np, r) ne = np
  root_present (array p es) c (np, r, rs) ne = np
  root_present (object p ps) c (np, r, rs) ne = np

  pub keep_field-present :
      (k : Bytes) (v : Value) (fs : Fields) → v ≢ missing → keep_field k v fs ≡ field k v fs
  keep_field-present k missing fs ne = absurd (ne refl)
  keep_field-present k (scalar s) fs ne = refl
  keep_field-present k (sequence vs) fs ne = refl
  keep_field-present k (mapping gs) fs ne = refl
