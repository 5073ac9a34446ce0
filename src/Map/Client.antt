-- ===== src/Map/Client.antt =====
-- What a client does to a map, and the same on the fields of the value.
use pillowtalk.Prelude.{ℕ, ◌≤◌, ◌≡◌, some, List, [], ◌∷◌, same_bytes, arith, if◌then◌else◌}
use pillowtalk.Libraries.{Bytes, Ptr, Libraries}
use pillowtalk.Heap.{Heap, pure, ◌>>=◌, ◌>>◌, Obj, Prog}
use pillowtalk.Heap.Access.{IsHeap}
use pillowtalk.Node.{c_str}
use pillowtalk.Value.{Scalar, Fields, scalar, no_fields, field}
use pillowtalk.Tree.{Pairs, object, fields_of, addrs, Holds}
use pillowtalk.Tree.Footprint.{Distinct}
use pillowtalk.Free.Gone.{pairs_size}
use pillowtalk.Clone.Kept.{kept_scalar}
use pillowtalk.Tree.Scalars.{new_scalar}
use pillowtalk.Map.{map_set, map_unset}
use pillowtalk.Map.Lookup.{UniqueKeys}
use pillowtalk.Map.Fields.{put_field}

module _ ⦃L : Libraries⦄ where
  -- What a client does to a map: set a key to a new scalar node, or unset a key.
  pub data Edit : Type 0 where
    set_scalar : Bytes → Scalar → Edit
    unset : Bytes → Edit

  unfoldable pub edit : (fuel : ℕ) → Ptr → Edit → Prog (Unit {0})
  unfolding new_scalar
  edit fuel p (set_scalar key s) = new_scalar s >>= map_set fuel p (some key)
  edit fuel p (unset key) = map_unset fuel p (some key)

  unfoldable pub run_edits : (fuel : ℕ) → Ptr → List Edit → Prog (Unit {0})
  unfolding edit
  run_edits fuel p [] = pure tt
  run_edits fuel p (e ∷ es) = edit fuel p e >> run_edits fuel p es

  abbrev pub drop_field : Bytes → Fields → Fields
  drop_field k no_fields = no_fields
  drop_field k (field j v fs) = if same_bytes j k then fs else field j v (drop_field k fs)

  -- The same on the fields of the value.
  abbrev pub edit_fields : Edit → Fields → Fields
  edit_fields (set_scalar key s) fs = put_field (c_str key) (scalar (kept_scalar s)) fs
  edit_fields (unset key) fs = drop_field (c_str key) fs

  abbrev pub edited_fields : List Edit → Fields → Fields
  edited_fields [] fs = fs
  edited_fields (e ∷ es) fs = edited_fields es (edit_fields e fs)

  -- A map of distinct keys at `p` that stands for the fields, of `n` structs at most.
  pub record IsMap (p : Ptr) (fs : Fields) (n : ℕ) (h : Heap Obj) : Type 0 where
    pub pairs : Pairs
    pub held : Holds h.cell (object p pairs)
    pub distinct : Distinct (addrs (object p pairs))
    pub unique : UniqueKeys pairs
    pub is_heap : IsHeap h
    pub means : fields_of pairs ≡ fs
    pub small : pairs_size pairs ≤ n

  pub IsMap-weaken :
      {p : Ptr} {fs : Fields} {n k : ℕ} {h : Heap Obj} → n ≤ k → IsMap p fs n h → IsMap p fs k h
  IsMap-weaken le m = record {
    pairs = m.pairs;
    held = m.held;
    distinct = m.distinct;
    unique = m.unique;
    is_heap = m.is_heap;
    means = m.means;
    small = omega (arith, m.small);
  }
