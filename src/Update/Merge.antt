-- ===== src/Update/Merge.antt =====
-- The merge of values that pt_map_update computes.
use pillowtalk.Prelude.{ℕ, ◌≡◌, ◌≢◌, refl, Bool, true, false, ◌==◌, if◌then◌else◌}
use pillowtalk.Libraries.{Bytes, Libraries}
use pillowtalk.Node.{c_str}
use pillowtalk.Value.{
  Scalar, null_value, bool_value, int_value, double_value, text, Value, Fields, missing, scalar,
  sequence, mapping, no_fields, field, get_field,
}
use pillowtalk.Clone.Kept.{kept}
use pillowtalk.Map.Fields.{put_field}

module _ ⦃L : Libraries⦄ where
  -- The code of pt_type_t of a value, and 8 where there is none.
  abbrev pub scalar_kind : Scalar → ℕ
  scalar_kind null_value = 2
  scalar_kind (bool_value b) = 3
  scalar_kind (int_value z) = 4
  scalar_kind (double_value d) = 5
  scalar_kind (text s) = 6

  abbrev pub kind : Value → ℕ
  kind missing = 8
  kind (scalar s) = scalar_kind s
  kind (sequence vs) = 1
  kind (mapping fs) = 0

  -- An added value whose kind is not that of the old one.
  abbrev pub conflict : (added old : Value) → Bool
  conflict added old =
      if kind old == 8 then false else if kind added == kind old then false else true

  -- One added field: `false` where it cannot be merged. A field without a value is passed over.
  abbrev pub merge_field :
      Bytes → (added : Value) → (merged : Value → Value) → Fields → Bool × Fields
  merge_field k added merged gs =
      if kind added == 8
      then (true, gs)
      else if conflict added (get_field k gs)
      then (false, gs)
      else (true, put_field k (merged (get_field k gs)) gs)

  -- Where both values are mappings the added one is merged into the old one, as far as it goes;
  -- otherwise a copy takes its place. The first conflict at this level ends the merge with code 1.
  unfoldable mutual
    pub merge_value : (added old : Value) → Value
    merge_value missing old = missing
    merge_value (scalar s) old = kept (scalar s)
    merge_value (sequence vs) old = kept (sequence vs)
    merge_value (mapping fs) old = elim old [
      | mapping gs ↦ mapping (merge_fields fs gs).1
      | _ ↦ kept (mapping fs)
    ]

    pub merge_fields : (added root : Fields) → ℕ × Fields
    merge_fields no_fields gs = (0, gs)
    merge_fields (field k v fs) gs =
        let r = merge_field (c_str k) v (merge_value v) gs in
        elim r.0 [ false ↦ (1, r.1) | true ↦ merge_fields fs r.1 ]

  pub merge_value-missing : (v : Value) → merge_value v missing ≡ kept v
  unfolding merge_value kept
  merge_value-missing missing = refl
  merge_value-missing (scalar s) = refl
  merge_value-missing (sequence vs) = refl
  merge_value-missing (mapping fs) = refl

  pub merge_value-no_map : (v old : Value) → kind v ≢ 0 → merge_value v old ≡ kept v
  unfolding merge_value kept
  merge_value-no_map missing old ne = refl
  merge_value-no_map (scalar s) old ne = refl
  merge_value-no_map (sequence vs) old ne = refl
  merge_value-no_map (mapping fs) old ne = absurd (ne refl)

  pub scalar_kind-lt : (s : Scalar) → (scalar_kind s == 8) ≡ false
  scalar_kind-lt null_value = refl
  scalar_kind-lt (bool_value b) = refl
  scalar_kind-lt (int_value z) = refl
  scalar_kind-lt (double_value d) = refl
  scalar_kind-lt (text s) = refl

  pub kind-present : (v : Value) → v ≢ missing → (kind v == 8) ≡ false
  kind-present missing ne = absurd (ne refl)
  kind-present (scalar s) ne = scalar_kind-lt s
  kind-present (sequence vs) ne = refl
  kind-present (mapping fs) ne = refl

  pub merge_field-put :
      (k : Bytes) (v : Value) (merged : Value → Value) (gs : Fields)
      → v ≢ missing
      → conflict v (get_field k gs) ≡ false
      → merge_field k v merged gs ≡ (true, put_field k (merged (get_field k gs)) gs)
  merge_field-put k v merged gs there fits = rw (kind-present v there, fits) refl

  pub merge_field-skip :
      (k : Bytes) (v : Value) (merged : Value → Value) (gs : Fields)
      → v ≡ missing
      → merge_field k v merged gs ≡ (true, gs)
  merge_field-skip k v merged gs e = rw e refl

  pub merge_field-conflict :
      (k : Bytes) (v : Value) (merged : Value → Value) (gs : Fields)
      → v ≢ missing
      → conflict v (get_field k gs) ≡ true
      → merge_field k v merged gs ≡ (false, gs)
  merge_field-conflict k v merged gs there clash = rw (kind-present v there, clash) refl
