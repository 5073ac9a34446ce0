-- ===== src/Array/Client.antt =====
-- What a client does to an array, and the same on the values of the sequence.
use pillowtalk.Prelude.{ℕ, ◌^◌, ◌<◌, ◌≤◌, ◌≡◌, false, List, [], ◌∷◌, arith}
use pillowtalk.Libraries.{Ptr, Libraries}
use pillowtalk.Heap.{Heap, null, pure, ◌>>=◌, ◌>>◌, Obj, Prog}
use pillowtalk.Heap.Access.{IsHeap}
use pillowtalk.Value.{Scalar, Values, scalar, value}
use pillowtalk.Tree.{Elems, array, meanings, elem_addrs, Holds}
use pillowtalk.Tree.Footprint.{Distinct}
use pillowtalk.Tree.Scalars.{new_scalar}
use pillowtalk.Free.Gone.{elems_size}
use pillowtalk.Clone.Kept.{kept_scalar}
use pillowtalk.Array.{array_get, array_remove, array_push_back, array_push_front}
use pillowtalk.Array.Nodes.{has_node}
use pillowtalk.Array.Places.{drop_at, snoc_value}

module _ ⦃L : Libraries⦄ where
  -- What a client does to an array: push a new scalar node at either end, or remove the node at an
  -- index.
  pub data ArrayEdit : Type 0 where
    push_first : Scalar → ArrayEdit
    push_last : Scalar → ArrayEdit
    remove_at : ℕ → ArrayEdit

  unfoldable pub edit_array : (fuel : ℕ) → Ptr → ArrayEdit → Prog (Unit {0})
  edit_array fuel p (push_first s) = new_scalar s >>= array_push_front p
  edit_array fuel p (push_last s) = new_scalar s >>= array_push_back p
  edit_array fuel p (remove_at i) = array_get p i >>= array_remove fuel p

  unfoldable pub run_array_edits : (fuel : ℕ) → Ptr → List ArrayEdit → Prog (Unit {0})
  unfolding edit_array
  run_array_edits fuel p [] = pure tt
  run_array_edits fuel p (e ∷ es) = edit_array fuel p e >> run_array_edits fuel p es

  -- The same on the values of the sequence.
  abbrev pub edit_values : ArrayEdit → Values → Values
  edit_values (push_first s) vs = value (scalar (kept_scalar s)) vs
  edit_values (push_last s) vs = snoc_value vs (scalar (kept_scalar s))
  edit_values (remove_at i) vs = drop_at i vs

  abbrev pub edited_values : List ArrayEdit → Values → Values
  edited_values [] vs = vs
  edited_values (e ∷ es) vs = edited_values es (edit_values e vs)

  -- The indices are of type unsigned int.
  abbrev pub IsIndex : ArrayEdit → Type 0
  IsIndex (push_first s) = Unit
  IsIndex (push_last s) = Unit
  IsIndex (remove_at i) = i < 2 ^ 32

  abbrev pub AreIndices : List ArrayEdit → Type 0
  AreIndices [] = Unit
  AreIndices (e ∷ es) = IsIndex e × AreIndices es

  -- An array at `p` without a NULL in it that stands for the values, of `n` structs at most.
  pub record IsArray (p : Ptr) (vs : Values) (n : ℕ) (h : Heap Obj) : Type 0 where
    pub elems : Elems
    pub held : Holds h.cell (array p elems)
    pub distinct : Distinct (p ∷ elem_addrs elems)
    pub whole : has_node null elems ≡ false
    pub is_heap : IsHeap h
    pub means : meanings elems ≡ vs
    pub small : elems_size elems ≤ n

  pub IsArray-weaken :
      {p : Ptr} {vs : Values} {n k : ℕ} {h : Heap Obj} → n ≤ k → IsArray p vs n h → IsArray p vs k h
  IsArray-weaken le m = record {
    elems = m.elems;
    held = m.held;
    distinct = m.distinct;
    whole = m.whole;
    is_heap = m.is_heap;
    means = m.means;
    small = omega (arith, m.small);
  }
