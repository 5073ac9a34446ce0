-- ===== src/Tree/Shape.antt =====
-- The shape of a tree from the value that it stands for.
use pillowtalk.Prelude.{ℕ, suc, ◌≡◌, refl, ap, ◌∙◌}
use pillowtalk.Libraries.{Bytes, Ptr, Libraries}
use pillowtalk.Value.{
  Scalar, Value, Values, Fields, scalar, sequence, mapping, no_values, value, no_fields, field,
}
use pillowtalk.Tree.{
  Tree, Elems, Pairs, nothing, leaf, array, object, no_elems, elem, no_pairs, pair, count, meaning,
  meanings, fields_of,
}

module _ ⦃L : Libraries⦄ where
  pub scalar_shape : (t : Tree) (s : Scalar) → meaning t ≡ scalar s → (p : Ptr) × (t ≡ leaf p s)
  unfolding meaning
  scalar_shape nothing s e = cc
  scalar_shape (leaf p s') s e = (p, cc)
  scalar_shape (array p es) s e = cc
  scalar_shape (object p ps) s e = cc

  pub sequence_shape :
      (t : Tree) (vs : Values)
      → meaning t ≡ sequence vs
      → (p : Ptr) × (es : Elems) × (t ≡ array p es) × (meanings es ≡ vs)
  unfolding meaning
  sequence_shape nothing vs e = cc
  sequence_shape (leaf p s) vs e = cc
  sequence_shape (array p es) vs e = (p, es, refl, cc)
  sequence_shape (object p ps) vs e = cc

  pub mapping_shape :
      (t : Tree) (fs : Fields)
      → meaning t ≡ mapping fs
      → (p : Ptr) × (ps : Pairs) × (t ≡ object p ps) × (fields_of ps ≡ fs)
  unfolding meaning
  mapping_shape nothing fs e = cc
  mapping_shape (leaf p s) fs e = cc
  mapping_shape (array p es) fs e = cc
  mapping_shape (object p ps) fs e = (p, ps, refl, cc)

  pub field_shape :
      (ps : Pairs) (k : Bytes) (v : Value) (fs : Fields)
      → fields_of ps ≡ field k v fs
      → (e : Ptr) × (t : Tree) × (qs : Pairs) × (ps ≡ pair e k t qs)
        × (meaning t ≡ v)
        × (fields_of qs ≡ fs)
  unfolding meaning
  field_shape no_pairs k v fs e = cc
  field_shape (pair a j t qs) k v fs e = (a, t, qs, cc, cc, cc)

  pub no_fields_shape : (ps : Pairs) → fields_of ps ≡ no_fields → ps ≡ no_pairs
  unfolding meaning
  no_fields_shape no_pairs e = refl
  no_fields_shape (pair a j t qs) e = cc

  -- A map of one pair.
  pub single_shape :
      (t : Tree) (k : Bytes) (v : Value)
      → meaning t ≡ mapping (field k v no_fields)
      → (p e : Ptr) × (s : Tree) × (t ≡ object p (pair e k s no_pairs)) × (meaning s ≡ v)
  single_shape t k v means =
      let (p, ps, t_is, ps_means) = mapping_shape t (field k v no_fields) means in
      let (e, s, qs, ps_is, s_means, qs_means) = field_shape ps k v no_fields ps_means in
      let qs_is = no_fields_shape qs qs_means in
      (p, e, s, t_is ∙ ap (object p) (ps_is ∙ ap (pair e k s) qs_is), s_means)

  unfoldable pub value_count : Values → ℕ
  value_count no_values = 0
  value_count (value v vs) = suc (value_count vs)

  pub count-meanings : (es : Elems) → count es ≡ value_count (meanings es)
  unfolding meaning value_count
  count-meanings no_elems = refl
  count-meanings (elem e t es) = ap suc (count-meanings es)
