-- ===== src/Map/Fields.antt =====
-- A tree put at a key of a map, and the fields of the value.
use pillowtalk.Prelude.{
  ◌≡◌, refl, ap, true, false, inl, inr, Bool-cases, Bool, same_bytes, same_bytes_iff, arith,
  if◌then◌else◌,
}
use pillowtalk.Libraries.{Bytes, Ptr, Libraries, has_key}
use pillowtalk.Value.{Value, Fields, no_fields, field, get_field}
use pillowtalk.Tree.{Tree, Pairs, no_pairs, pair, entries_of, meaning, fields_of}
use pillowtalk.Tree.LastPair.{snoc_pair}
use pillowtalk.Map.Lookup.{get_tree, UniqueKeys}
use pillowtalk.Map.GetSet.{snoc_pair-UniqueKeys, get_tree-snoc_pair}
use pillowtalk.Map.Items.{entries_of-set_tree}
use pillowtalk.Map.Addresses.{set_tree}

module _ ⦃L : Libraries⦄ where
  -- The pairs with a tree at a key: in the place of the old one, or behind the others.
  abbrev pub put_tree : Ptr → Bytes → Tree → Pairs → Pairs
  put_tree e k t ps = if has_key k (entries_of ps) then set_tree k t ps else snoc_pair ps e k t

  abbrev pub has_field : Bytes → Fields → Bool
  has_field k no_fields = false
  has_field k (field j v fs) = if same_bytes j k then true else has_field k fs

  abbrev pub set_field : Bytes → Value → Fields → Fields
  set_field k v no_fields = no_fields
  set_field k v (field j w fs) =
      if same_bytes j k then field j v fs else field j w (set_field k v fs)

  abbrev pub add_field : Bytes → Value → Fields → Fields
  add_field k v no_fields = field k v no_fields
  add_field k v (field j w fs) = field j w (add_field k v fs)

  -- The same on the fields of a value.
  abbrev pub put_field : Bytes → Value → Fields → Fields
  put_field k v fs = if has_field k fs then set_field k v fs else add_field k v fs

  pub has_field-entries :
      (k : Bytes) (ps : Pairs) → has_field k (fields_of ps) ≡ has_key k (entries_of ps)
  unfolding meaning
  has_field-entries k no_pairs = refl
  has_field-entries k (pair e j t ps) = ground (arith, has_field-entries k ps)

  pub fields_of-set_tree :
      (k : Bytes) (t : Tree) (ps : Pairs)
      → fields_of (set_tree k t ps) ≡ set_field k (meaning t) (fields_of ps)
  unfolding meaning
  fields_of-set_tree k t no_pairs = refl
  fields_of-set_tree k t (pair e j t' ps) = elim (Bool-cases (same_bytes j k)) [
    | inl same ↦ rw same refl
    | inr other ↦ rw other (ap (field j (meaning t')) (fields_of-set_tree k t ps))
  ]

  pub fields_of-add :
      (k : Bytes) (e : Ptr) (t : Tree) (ps : Pairs)
      → fields_of (snoc_pair ps e k t) ≡ add_field k (meaning t) (fields_of ps)
  unfolding meaning
  fields_of-add k e t no_pairs = refl
  fields_of-add k e t (pair e' j t' ps) = ap (field j (meaning t')) (fields_of-add k e t ps)

  pub fields_of-put_tree :
      (e : Ptr) (k : Bytes) (t : Tree) (ps : Pairs)
      → fields_of (put_tree e k t ps) ≡ put_field k (meaning t) (fields_of ps)
  fields_of-put_tree e k t ps = elim (Bool-cases (has_key k (entries_of ps))) [
    | inl there ↦ rw (has_field-entries k ps, there) (fields_of-set_tree k t ps)
    | inr absent ↦ rw (has_field-entries k ps, absent) (fields_of-add k e t ps)
  ]

  pub meaning-get_tree :
      (k : Bytes) (ps : Pairs) → meaning (get_tree k ps) ≡ get_field k (fields_of ps)
  unfolding meaning
  meaning-get_tree k no_pairs = refl
  meaning-get_tree k (pair e j t ps) = elim (Bool-cases (same_bytes j k)) [
    | inl same ↦ rw same refl
    | inr other ↦ rw other (meaning-get_tree k ps)
  ]

  pub set_tree-UniqueKeys :
      (k : Bytes) (t : Tree) (ps : Pairs) → UniqueKeys ps → UniqueKeys (set_tree k t ps)
  set_tree-UniqueKeys k t no_pairs u = tt
  set_tree-UniqueKeys k t (pair e j t' ps) (o, u) =
      ground (arith, set_tree-UniqueKeys k t ps u, entries_of-set_tree k t ps)

  pub put_tree-UniqueKeys :
      (e : Ptr) (k : Bytes) (t : Tree) (ps : Pairs) → UniqueKeys ps → UniqueKeys (put_tree e k t ps)
  put_tree-UniqueKeys e k t ps u = elim (Bool-cases (has_key k (entries_of ps))) [
    | inl there ↦ rw there (set_tree-UniqueKeys k t ps u)
    | inr absent ↦ rw absent (snoc_pair-UniqueKeys ps e k t u absent)
  ]

  -- Another key keeps its tree.
  pub get_tree-set_tree :
      (j k : Bytes) (t : Tree) (ps : Pairs)
      → same_bytes k j ≡ false
      → get_tree j (set_tree k t ps) ≡ get_tree j ps
  get_tree-set_tree j k t no_pairs ne = refl
  get_tree-set_tree j k t (pair e i t' ps) ne = ground (
    arith,
    get_tree-set_tree j k t ps,
    same_bytes_iff i k,
    same_bytes_iff i j,
    same_bytes_iff k j,
  )

  pub get_tree-put_tree :
      (e : Ptr) (j k : Bytes) (t : Tree) (ps : Pairs)
      → same_bytes k j ≡ false
      → get_tree j (put_tree e k t ps) ≡ get_tree j ps
  get_tree-put_tree e j k t ps ne = elim (Bool-cases (has_key k (entries_of ps))) [
    | inl there ↦ rw there (get_tree-set_tree j k t ps ne)
    | inr absent ↦ rw (absent, get_tree-snoc_pair ps e k j t absent, ne) refl
  ]
