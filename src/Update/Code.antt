-- ===== src/Update/Code.antt =====
-- The code of pt_map_update.
use pillowtalk.Prelude.{
  ℕ, ◌≡◌, refl, sym, ap, ◌∙◌, Bool, Bool-cases, inl, inr, true, false, ◌==◌, same_bytes,
  same_bytes_iff, if◌then◌else◌,
}
use pillowtalk.Libraries.{Bytes, Ptr, Libraries}
use pillowtalk.Heap.{Heap, Obj}
use pillowtalk.Heap.Returns.{Returns, Returns-weaken}
use pillowtalk.Node.{c_str}
use pillowtalk.Value.{Value, Fields, no_fields, field, get_field}
use pillowtalk.Tree.{Pairs, fields_of}
use pillowtalk.Clone.Kept.{Lacks, DistinctFields}
use pillowtalk.Map.Fields.{has_field, set_field, add_field, put_field}
use pillowtalk.Update.{map_update}
use pillowtalk.Update.Merge.{kind, conflict, merge_field, merge_value, merge_fields}
use pillowtalk.Update.Ready.{Ready}
use pillowtalk.Update.Merged.{map_update-Merged}

module _ ⦃L : Libraries⦄ where
  -- Some added value differs in kind from the one that the root has at its key. What is below the values
  -- has no part in it.
  abbrev pub clashes : (added root : Fields) → Bool
  clashes no_fields gs = false
  clashes (field k v fs) gs =
      if kind v == 8
      then clashes fs gs
      else if conflict v (get_field (c_str k) gs)
      then true
      else clashes fs gs

  get_field-set_field :
      (j k : Bytes) (v : Value) (gs : Fields)
      → same_bytes k j ≡ false
      → get_field j (set_field k v gs) ≡ get_field j gs
  get_field-set_field j k v no_fields ne = refl
  get_field-set_field j k v (field i w gs) ne = elim (Bool-cases (same_bytes i k)) [
    | inl same ↦
        let i_k = (same_bytes_iff i k).0 same in
        let other : same_bytes i j ≡ false = ap (λ x. same_bytes x j) i_k ∙ ne in
        rw (same, other) refl
    | inr other ↦
        rw other (ap (λ x. if same_bytes i j then w else x) (get_field-set_field j k v gs ne))
  ]

  get_field-add_field :
      (j k : Bytes) (v : Value) (gs : Fields)
      → same_bytes k j ≡ false
      → get_field j (add_field k v gs) ≡ get_field j gs
  get_field-add_field j k v no_fields ne = rw ne refl
  get_field-add_field j k v (field i w gs) ne =
      ap (λ x. if same_bytes i j then w else x) (get_field-add_field j k v gs ne)

  get_field-put_field :
      (j k : Bytes) (v : Value) (gs : Fields)
      → same_bytes k j ≡ false
      → get_field j (put_field k v gs) ≡ get_field j gs
  get_field-put_field j k v gs ne = elim (Bool-cases (has_field k gs)) [
    | inl old ↦ rw old (get_field-set_field j k v gs ne)
    | inr new ↦ rw new (get_field-add_field j k v gs ne)
  ]

  -- A field put at another key has no part in it either.
  clashes-put_field :
      (fs : Fields) (k : Bytes) (v : Value) (gs : Fields)
      → Lacks k fs
      → clashes fs (put_field k v gs) ≡ clashes fs gs
  clashes-put_field no_fields k v gs o = refl
  clashes-put_field (field j w fs) k v gs (ne, o) =
      rw (get_field-put_field (c_str j) k v gs ne, clashes-put_field fs k v gs o) refl

  -- The rest of the merge, after the first field.
  abbrev rest_code : Fields → Bool × Fields → ℕ
  rest_code fs r =
      (elim r.0 as (λ _. ℕ × Fields) [ false ↦ (1, r.1) | true ↦ merge_fields fs r.1 ]).0

  first_code :
      (k : Bytes) (v : Value) (fs gs : Fields) (r : Bool × Fields)
      → merge_field (c_str k) v (merge_value v) gs ≡ r
      → (merge_fields (field k v fs) gs).0 ≡ rest_code fs r
  unfolding merge_value
  first_code k v fs gs r e = ap (rest_code fs) e

  merge_fields-clashes :
      (fs gs : Fields)
      → DistinctFields fs
      → (merge_fields fs gs).0 ≡ (if clashes fs gs then 1 else 0)
  unfolding merge_value
  merge_fields-clashes no_fields gs d = refl
  merge_fields-clashes (field k v fs) gs (o, _, d) =
      let w = merge_value v (get_field (c_str k) gs) in
      elim (Bool-cases (kind v == 8)) [
        | inl absent ↦
            first_code k v fs gs (true, gs) (rw absent refl)
            ∙ merge_fields-clashes fs gs d
            ∙ rw absent refl
        | inr there ↦ elim (Bool-cases (conflict v (get_field (c_str k) gs))) [
          | inl clash ↦
              first_code k v fs gs (false, gs) (rw (there, clash) refl) ∙ rw (there, clash) refl
          | inr fits ↦
              first_code k v fs gs (true, put_field (c_str k) w gs) (rw (there, fits) refl)
              ∙ merge_fields-clashes fs (put_field (c_str k) w gs) d
              ∙ ap (λ (b : Bool). if b then 1 else 0) (clashes-put_field fs (c_str k) w gs o)
              ∙ rw (there, fits) refl
        ]
      ]

  -- Where pt_map_update may merge, it ends without a fault with the code 1 if an added value differs in kind
  -- from the one that the root has at its key, and with 0 otherwise: a conflict below the values of the
  -- two maps is not reported.
  pub map_update-clashes :
      (f : ℕ) (p a : Ptr) (ps qs : Pairs) (append : ℕ) (h : Heap Obj)
      → Ready f p a ps qs h
      → Returns
          (λ code _. code ≡ (if clashes (fields_of qs) (fields_of ps) then 1 else 0))
          (map_update f p a append h)
  map_update-clashes f p a ps qs append h r =
      Returns-weaken (map_update-Merged f p a ps qs append h r) λ code h' m.
        sym (ap (λ x. x.0) m.result) ∙ merge_fields-clashes (fields_of qs) (fields_of ps) r.keys
