-- ===== src/Clone/Kept.antt =====
-- What pt_clone keeps of a value: texts and keys up to their first NUL, and no pair without a value.
use pillowtalk.Prelude.{◌≡◌, refl, false, [], ◌∷◌, ◌++◌, same_bytes, arith}
use pillowtalk.Libraries.{Bytes, Ptr, Entries, Libraries, has_key}
use pillowtalk.Node.{c_str}
use pillowtalk.Value.{
  Scalar, null_value, bool_value, int_value, double_value, text, Value, Values, Fields, missing,
  scalar, sequence, mapping, no_values, value, no_fields, field,
}

module _ ⦃L : Libraries⦄ where
  abbrev pub kept_scalar : Scalar → Scalar
  kept_scalar null_value = null_value
  kept_scalar (bool_value b) = bool_value b
  kept_scalar (int_value z) = int_value z
  kept_scalar (double_value d) = double_value d
  kept_scalar (text s) = text (c_str s)

  -- pt_map_set passes over a NULL value.
  abbrev pub keep_field : Bytes → Value → Fields → Fields
  keep_field k missing fs = fs
  keep_field k (scalar s) fs = field k (scalar s) fs
  keep_field k (sequence vs) fs = field k (sequence vs) fs
  keep_field k (mapping gs) fs = field k (mapping gs) fs

  unfoldable mutual
    pub kept : Value → Value
    kept missing = missing
    kept (scalar s) = scalar (kept_scalar s)
    kept (sequence vs) = sequence (kept_values vs)
    kept (mapping fs) = mapping (kept_fields fs)

    pub kept_values : Values → Values
    kept_values no_values = no_values
    kept_values (value v vs) = value (kept v) (kept_values vs)

    pub kept_fields : Fields → Fields
    kept_fields no_fields = no_fields
    kept_fields (field k v fs) = keep_field (c_str k) (kept v) (kept_fields fs)

  -- No field has a key that reads as `k`.
  abbrev pub Lacks : Bytes → Fields → Type 0
  Lacks k no_fields = Unit
  Lacks k (field j v fs) = (same_bytes k (c_str j) ≡ false) × Lacks k fs

  -- In each mapping no two keys read alike.
  abbrev mutual
    pub DistinctKeys : Value → Type 0
    DistinctKeys missing = Unit
    DistinctKeys (scalar s) = Unit
    DistinctKeys (sequence vs) = DistinctKeysAll vs
    DistinctKeys (mapping fs) = DistinctFields fs

    pub DistinctKeysAll : Values → Type 0
    DistinctKeysAll no_values = Unit
    DistinctKeysAll (value v vs) = DistinctKeys v × DistinctKeysAll vs

    pub DistinctFields : Fields → Type 0
    DistinctFields no_fields = Unit
    DistinctFields (field k v fs) = Lacks (c_str k) fs × DistinctKeys v × DistinctFields fs

  -- No item has the key of one of the fields.
  abbrev pub NoneOf : Entries → Fields → Type 0
  NoneOf es no_fields = Unit
  NoneOf es (field j v fs) = (has_key (c_str j) es ≡ false) × NoneOf es fs

  pub empty-NoneOf : (fs : Fields) → NoneOf [] fs
  empty-NoneOf no_fields = tt
  empty-NoneOf (field k v fs) = (refl, empty-NoneOf fs)

  has_key-snoc :
      (j k : Bytes) (p : Ptr) (es : Entries)
      → has_key j es ≡ false
      → same_bytes k j ≡ false
      → has_key j (es ++ (k, p) ∷ []) ≡ false
  has_key-snoc j k p [] out ne = ground arith
  has_key-snoc j k p ((i, q) ∷ es) out ne = ground (arith, has_key-snoc j k p es)

  pub snoc-NoneOf :
      (k : Bytes) (p : Ptr) (es : Entries) (fs : Fields)
      → NoneOf es fs
      → Lacks k fs
      → NoneOf (es ++ (k, p) ∷ []) fs
  snoc-NoneOf k p es no_fields out l = tt
  snoc-NoneOf k p es (field j v fs) (o, out) (ne, l) =
      (has_key-snoc (c_str j) k p es o ne, snoc-NoneOf k p es fs out l)
