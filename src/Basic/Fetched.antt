-- ===== src/Basic/Fetched.antt =====
-- edit_document of examples/basic.c on whatever tree stands for the document.
use pillowtalk.Prelude.{ℕ, ap₂, refl, Option, none, some, ◌<◌, ◌≤◌, ◌≡◌, sym, ap, ◌∙◌, subst}
use pillowtalk.Libraries.{Bytes, Ptr, Libraries}
use pillowtalk.Heap.{Heap, Obj}
use pillowtalk.Heap.Access.{IsHeap}
use pillowtalk.Heap.Returns.{Returns, Returns-weaken}
use pillowtalk.Node.{c_str}
use pillowtalk.Value.{scalar, Fields, Values, Value, value, no_values, field, no_fields, text}
use pillowtalk.Basic.Strings.{string_leaf}
use pillowtalk.Tree.{
  Pairs, fields_of, Tree, object, pair, no_pairs, Elems, root_of, meaning, meanings, addrs, Holds,
}
use pillowtalk.Tree.Footprint.{Distinct}
use pillowtalk.Tree.Meaning.{append_values}
use pillowtalk.Tree.Shape.{
  mapping_shape, field_shape, no_fields_shape, scalar_shape, sequence_shape, single_shape,
  value_count, count-meanings,
}
use pillowtalk.Tree.Changed.{Changed}
use pillowtalk.Basic.{codes, edit_document}
use pillowtalk.Basic.Build.{string_value}
use pillowtalk.Basic.Revision.{revision_fields, revision_pairs, Revision, revision_of, stored}
use pillowtalk.Basic.Edit.{document_tree, edit_document-Updated}

module _ ⦃L : Libraries⦄ where
  -- The pairs of the revision, and what is behind them.
  revision_shape :
      (rev : Option Bytes) (ps : Pairs) (fs : Fields)
      → fields_of ps ≡ revision_fields rev fs
      → (w : Revision) × (qs : Pairs) × (revision_of w ≡ rev)
        × (ps ≡ revision_pairs w qs)
        × (fields_of qs ≡ fs)
  unfolding c_str
  revision_shape none ps fs e = (none, ps, refl, refl, e)
  revision_shape (some rev) ps fs e =
      let (d, t, qs, ps_is, t_means, qs_means) =
        field_shape ps (codes "_rev") (scalar (text rev)) fs e in
      let (q, t_is) = scalar_shape t (text rev) t_means in
      (some (d, q, rev), qs, refl, ps_is ∙ ap (λ s. pair d (codes "_rev") s qs) t_is, qs_means)

  -- The tree of a document has the shape that build_document makes, but for the revision.
  document_shape :
      (t : Tree) (rev : Option Bytes) (vs : Values)
      → meaning t ≡ stored rev vs no_fields
      → (w : Revision) × (r e1 q e2 m e3 p e4 a : Ptr) × (es : Elems) × (t
          ≡ document_tree w r e1 q e2 m e3 p e4 a es)
        × (meanings es ≡ vs)
        × (revision_of w ≡ rev)
  unfolding c_str
  document_shape t rev vs means =
      let (r, ps, t_is, ps_means) = mapping_shape t _ means in
      let (e1, t1, qs, ps_is, t1_means, qs_means) = field_shape ps (codes "_id") _ _ ps_means in
      let (w, rs, w_is, qs_is, rs_means) = revision_shape rev qs _ qs_means in
      let (e2, t2, ss, rs_is, t2_means, ss_means) = field_shape rs (codes "movies") _ _ rs_means in
      let ss_is = no_fields_shape ss ss_means in
      let (q, t1_is) = scalar_shape t1 (text (codes "star_wars")) t1_means in
      let (m, e3, t3, t2_is, t3_means) =
        single_shape t2 (codes "Star Wars Episode IV") _ t2_means in
      let (p, e4, t4, t3_is, t4_means) = single_shape t3 (codes "characters") _ t3_means in
      let (a, es, t4_is, es_means) = sequence_shape t4 vs t4_means in
      let movies =
        t2_is
        ∙ ap (λ s. object m (pair e3 (codes "Star Wars Episode IV") s no_pairs))
            (t3_is ∙ ap (λ s. object p (pair e4 (codes "characters") s no_pairs)) t4_is) in
      let behind =
        qs_is
        ∙ ap (revision_pairs w) (
            rs_is
            ∙ ap (pair e2 (codes "movies") t2) ss_is
            ∙ ap (λ s. pair e2 (codes "movies") s no_pairs) movies) in
      (
        w,
        r,
        e1,
        q,
        e2,
        m,
        e3,
        p,
        e4,
        a,
        es,
        t_is
            ∙ ap (object r) (
                ps_is
                ∙ ap (λ s. pair e1 (codes "_id") s qs) t1_is
                ∙ ap (pair e1 (codes "_id") (string_leaf q "star_wars")) behind),
        es_means,
        w_is,
      )

  -- The value of the document once it has been edited.
  abbrev pub edited_saga : Option Bytes → Values → Value
  edited_saga rev vs =
      stored rev (append_values vs (value (string_value "Princess Leia") no_values))
        (field (codes "year") (string_value "1977") no_fields)

  -- The tree is changed in place to one of the edited document.
  pub record EditedDocument (t : Tree) (rev : Option Bytes) (vs : Values) (h h' : Heap Obj)
      : Type 0 where
    pub tree : Tree
    pub root_is : root_of tree ≡ root_of t
    pub means : meaning tree ≡ edited_saga rev vs
    pub changed : Changed t tree 4 h h'

  -- On whatever tree stands for the document with three characters, and with a revision or without one,
  -- each struct once, with memory for four structs and with fuel, the checks of the example program hold
  -- and its edits end without a fault: the tree at the same root then has the year and one more character
  -- behind the others, and no struct outside it has changed.
  pub edit_document-EditedDocument :
      (t : Tree) (rev : Option Bytes) (vs : Values) (fuel : ℕ) (h : Heap Obj)
      → meaning t ≡ stored rev vs no_fields
      → value_count vs ≡ 3
      → IsHeap h
      → Holds h.cell t
      → Distinct (addrs t)
      → 4 ≤ h.room
      → 0 < fuel
      → Returns (λ _ h'. EditedDocument t rev vs h h') (edit_document fuel (root_of t) h)
  edit_document-EditedDocument t rev vs fuel h means three w held d room enough =
      let (v, r, e1, q, e2, m, e3, p, e4, a, es, t_is, es_means, v_is) =
        document_shape t rev vs means in
      rw (ap root_of t_is) (
        Returns-weaken
          (edit_document-Updated v r e1 q e2 m e3 p e4 a es fuel h w
            (subst (Holds h.cell) t_is held) (subst (λ s. Distinct (addrs s)) t_is d)
            (count-meanings es ∙ ap value_count es_means ∙ three) room enough)
          λ _ h' u. record {
            tree = u.tree;
            root_is = u.root_is ∙ ap root_of (sym t_is);
            means = u.means ∙ ap₂ edited_saga v_is es_means;
            changed = subst (λ s. Changed s u.tree 4 h h') (sym t_is) u.changed;
          })
