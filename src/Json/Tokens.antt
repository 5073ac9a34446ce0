-- ===== src/Json/Tokens.antt =====
-- What pt_to_json tells the generator, as a function of the value alone.
use Prim.Native.Nat.{max}
use pillowtalk.Prelude.{ℕ, zero, suc, ◌<◌, ◌≡◌, refl, List, [], ◌∷◌, ◌++◌, arith}
use pillowtalk.Libraries.{Ptr, Libraries}
use pillowtalk.Heap.{Heap, ok, Obj}
use pillowtalk.Heap.Access.{not_null, load-ok}
use pillowtalk.Node.{c_str}
use pillowtalk.Value.{
  Scalar, null_value, bool_value, int_value, double_value, text, Value, Values, Fields, missing,
  scalar, sequence, mapping, no_values, value, no_fields, field,
}
use pillowtalk.Tree.{
  Tree, Elems, Pairs, nothing, leaf, array, object, no_elems, elem, no_pairs, pair, root_of,
  elem_ptrs, entries_of, meaning, meanings, fields_of, Holds, HoldsElems, HoldsPairs,
}
use pillowtalk.Json.{
  Token, map_open, map_close, array_open, array_close, null_token, bool_token, integer_token,
  double_token, string_token, YajlGen, generate_node_json, generate_elems, generate_pairs, to_json,
}

module _ ⦃L : Libraries⦄ where
  abbrev pub scalar_token : Scalar → Token
  scalar_token null_value = null_token
  scalar_token (bool_value b) = bool_token b
  scalar_token (int_value z) = integer_token z
  scalar_token (double_value d) = double_token d
  scalar_token (text s) = string_token (c_str s)

  unfoldable mutual
    pub tokens : Value → List Token
    tokens missing = null_token ∷ []
    tokens (scalar s) = scalar_token s ∷ []
    tokens (sequence vs) = array_open ∷ (value_tokens vs ++ array_close ∷ [])
    tokens (mapping fs) = map_open ∷ (field_tokens fs ++ map_close ∷ [])

    pub value_tokens : Values → List Token
    value_tokens no_values = []
    value_tokens (value v vs) = tokens v ++ value_tokens vs

    pub field_tokens : Fields → List Token
    field_tokens no_fields = []
    field_tokens (field k v fs) = string_token (c_str k) ∷ (tokens v ++ field_tokens fs)

  -- The nesting of containers, which the fuel has to exceed.
  unfoldable mutual
    pub depth : Tree → ℕ
    depth nothing = 0
    depth (leaf p s) = 0
    depth (array p es) = suc (elems_depth es)
    depth (object p ps) = suc (pairs_depth ps)

    pub elems_depth : Elems → ℕ
    elems_depth no_elems = 0
    elems_depth (elem e t es) = max (depth t) (elems_depth es)

    pub pairs_depth : Pairs → ℕ
    pairs_depth no_pairs = 0
    pairs_depth (pair p k t ps) = max (depth t) (pairs_depth ps)

  module _ ⦃Y : YajlGen⦄ where
    -- The generator after a list of calls.
    unfoldable pub emit : List Token → Y.Gen → Y.Gen
    emit [] g = g
    emit (t ∷ ts) g = emit ts (Y.gen t g)

    pub emit-append : (ts us : List Token) (g : Y.Gen) → emit (ts ++ us) g ≡ emit us (emit ts g)
    unfolding emit
    emit-append [] us g = refl
    emit-append (t ∷ ts) us g = emit-append ts us (Y.gen t g)

    mutual
      unfolding tokens depth emit generate_node_json meaning

      node-emit :
          (t : Tree) (f : ℕ) (h : Heap Obj) (g : Y.Gen)
          → depth t < f
          → Holds h.cell t
          → generate_node_json f (root_of t) g h ≡ ok (emit (tokens (meaning t)) g) h
      node-emit t zero h g d r = absurd (omega arith)
      node-emit nothing (suc f) h g d r = refl
      node-emit (leaf p null_value) (suc f) h g d (ne, e) = rw (not_null ne, load-ok h ne e)
      node-emit (leaf p (bool_value b)) (suc f) h g d (ne, e) = rw (not_null ne, load-ok h ne e)
      node-emit (leaf p (int_value b)) (suc f) h g d (ne, e) = rw (not_null ne, load-ok h ne e)
      node-emit (leaf p (double_value b)) (suc f) h g d (ne, e) = rw (not_null ne, load-ok h ne e)
      node-emit (leaf p (text b)) (suc f) h g d (ne, e) = rw (not_null ne, load-ok h ne e)
      node-emit (array p es) (suc f) h g d (ne, (q, e, i), rs) = rw (
        not_null ne,
        load-ok h ne e,
        i,
        elems-emit es f h p (Y.gen array_open g) (omega arith) rs,
        emit-append,
      )
      node-emit (object p ps) (suc f) h g d (ne, (t, e, i), rs) = rw (
        not_null ne,
        load-ok h ne e,
        i,
        pairs-emit ps f h p (Y.gen map_open g) (omega arith) rs,
        emit-append,
      )

      elems-emit :
          (es : Elems) (f : ℕ) (h : Heap Obj) (a : Ptr) (g : Y.Gen)
          → elems_depth es < f
          → HoldsElems h.cell a es
          → generate_elems (generate_node_json f) (elem_ptrs es) g h
            ≡ ok (emit (value_tokens (meanings es)) g) h
      elems-emit no_elems f h a g d r = refl
      elems-emit (elem e t es) f h a g d (ne, at, rt, rs) = rw (
        load-ok h ne at,
        node-emit t f h g (omega arith) rt,
        elems-emit es f h a (emit (tokens (meaning t)) g) (omega arith) rs,
        emit-append,
      )

      pairs-emit :
          (ps : Pairs) (f : ℕ) (h : Heap Obj) (m : Ptr) (g : Y.Gen)
          → pairs_depth ps < f
          → HoldsPairs h.cell m ps
          → generate_pairs (generate_node_json f) (entries_of ps) g h
            ≡ ok (emit (field_tokens (fields_of ps)) g) h
      pairs-emit no_pairs f h a g d r = refl
      pairs-emit (pair p k t ps) f h m g d (ne, at, rt, rs) = rw (
        load-ok h ne at,
        node-emit t f h (Y.gen (string_token (c_str k)) g) (omega arith) rt,
        pairs-emit ps f h m (emit (tokens (meaning t)) (Y.gen (string_token (c_str k)) g))
            (omega arith) rs,
        emit-append,
      )

    -- With more fuel than the tree is deep pt_to_json makes the calls of yajl_gen for the value that the
    -- root stands for, returns their text, and leaves the heap alone.
    pub to_json-tokens :
        (t : Tree) (f : ℕ) (h : Heap Obj) (beautify : ℕ)
        → depth t < f
        → Holds h.cell t
        → to_json f (root_of t) beautify h
          ≡ ok (Y.get_buf (emit (tokens (meaning t)) (Y.gen_alloc beautify))) h
    unfolding to_json
    to_json-tokens t f h beautify d r = rw (node-emit t f h (Y.gen_alloc beautify) d r)
