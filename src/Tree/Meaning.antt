-- ===== src/Tree/Meaning.antt =====
-- What a tree stands for once a value has been put behind its others.
use pillowtalk.Prelude.{◌≡◌, refl, ap}
use pillowtalk.Libraries.{Bytes, Ptr, Libraries}
use pillowtalk.Value.{Values, Fields, no_values, value, no_fields, field}
use pillowtalk.Tree.{
  Tree, Elems, Pairs, no_elems, elem, no_pairs, pair, meaning, meanings, fields_of,
}
use pillowtalk.Tree.Append.{snoc}
use pillowtalk.Tree.LastPair.{snoc_pair}

module _ ⦃L : Libraries⦄ where
  abbrev pub append_values : Values → Values → Values
  append_values no_values ws = ws
  append_values (value v vs) ws = value v (append_values vs ws)

  abbrev pub append_fields : Fields → Fields → Fields
  append_fields no_fields gs = gs
  append_fields (field k v fs) gs = field k v (append_fields fs gs)

  pub append-no_values : (vs : Values) → append_values vs no_values ≡ vs
  append-no_values no_values = refl
  append-no_values (value v vs) = ap (value v) (append-no_values vs)

  pub append-no_fields : (fs : Fields) → append_fields fs no_fields ≡ fs
  append-no_fields no_fields = refl
  append-no_fields (field k v fs) = ap (field k v) (append-no_fields fs)

  pub meanings-snoc :
      (es : Elems) (e : Ptr) (t : Tree) (ws : Values)
      → append_values (meanings (snoc es e t)) ws
        ≡ append_values (meanings es) (value (meaning t) ws)
  unfolding meaning
  meanings-snoc no_elems e t ws = refl
  meanings-snoc (elem e' t' es) e t ws = ap (value (meaning t')) (meanings-snoc es e t ws)

  pub fields_of-snoc :
      (ps : Pairs) (e : Ptr) (k : Bytes) (t : Tree) (gs : Fields)
      → append_fields (fields_of (snoc_pair ps e k t)) gs
        ≡ append_fields (fields_of ps) (field k (meaning t) gs)
  unfolding meaning
  fields_of-snoc no_pairs e k t gs = refl
  fields_of-snoc (pair e' k' t' ps) e k t gs =
      ap (field k' (meaning t')) (fields_of-snoc ps e k t gs)
