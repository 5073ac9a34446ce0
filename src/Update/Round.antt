-- ===== src/Update/Round.antt =====
-- One round of pt_map_update does to the tree what merge_field does to the value.
use pillowtalk.Prelude.{
  ℕ, suc, ◌+◌, ◌<◌, ◌≤◌, ◌≡◌, ◌≢◌, refl, sym, subst, ap, ◌∙◌, true, false, inl, inr, Bool,
  Bool-cases, some, ◌∷◌, ◌==◌, arith,
}
use pillowtalk.Libraries.{Bytes, Ptr, Libraries, has_key}
use pillowtalk.Heap.{Heap, pure, ◌>>=◌, ◌>>◌, Obj, Prog}
use pillowtalk.Heap.Access.{IsHeap, not_null}
use pillowtalk.Heap.Returns.{Returns, done, Returns-and_then}
use pillowtalk.Node.{c_str}
use pillowtalk.Value.{missing, mapping}
use pillowtalk.Tree.{
  Tree, Pairs, entries_of, object, root_of, meaning, fields_of, addrs, pair_addrs, Holds,
}
use pillowtalk.Tree.Footprint.{Distinct}
use pillowtalk.Tree.Changed.{Changed, Changed-weaken, unchanged}
use pillowtalk.Free.Gone.{size, pairs_size}
use pillowtalk.Json.Tokens.{depth}
use pillowtalk.Clone.{clone}
use pillowtalk.Clone.Kept.{kept, DistinctKeys}
use pillowtalk.Clone.Steps.{missing-cases, root_missing, root_present}
use pillowtalk.Clone.Copied.{clone-Copied}
use pillowtalk.Map.{map_set}
use pillowtalk.Map.Lookup.{nothing_found, get_tree, UniqueKeys, map_get-get_tree}
use pillowtalk.Map.Items.{get_tree-Holds}
use pillowtalk.Map.Addresses.{set_tree}
use pillowtalk.Map.Put.{map_set-put_tree}
use pillowtalk.Map.Fields.{
  set_tree-UniqueKeys, get_tree-set_tree, put_tree, put_field, fields_of-put_tree,
  put_tree-UniqueKeys, get_tree-put_tree, meaning-get_tree,
}
use pillowtalk.Update.{type_code, merge_pair, merge_existing}
use pillowtalk.Map.Nested.{nested-Changed}
use pillowtalk.Update.Merge.{
  merge_fields, conflict, merge_field, merge_value, merge_value-missing, merge_value-no_map,
  merge_field-put, merge_field-skip, merge_field-conflict,
}
use pillowtalk.Update.Existing.{
  Round, kept-present, load_type-kind, existing-conflict, existing-nested, existing-copy,
  object-kind, conflict-eq, NestedMerge,
}

module _ ⦃L : Libraries⦄ where
  module _ (rec : Ptr → Ptr → Prog ℕ) (f : ℕ) (p : Ptr) (cur : Pairs) (key : Bytes) (t : Tree)
      (h : Heap Obj) (w : IsHeap h) (hm : Holds h.cell (object p cur))
      (d : Distinct (p ∷ pair_addrs cur)) (u : UniqueKeys cur) (ht : Holds h.cell t)
      (keys : DistinctKeys (meaning t)) (deep : depth t < f)
      (enough : size (get_tree (c_str key) cur) + size t < f) (room : suc (size t) ≤ h.room) where
    abbrev old : Tree
    old = get_tree (c_str key) cur

    abbrev Rounded : Bool → Heap Obj → Type 0
    Rounded = Round p cur (c_str key) (meaning t) (suc (size t)) h

    -- What the value is once the pair has a tree `s`.
    put_result :
        (e : Ptr) (s : Tree)
        → meaning t ≢ missing
        → conflict (meaning t) (meaning old) ≡ false
        → meaning s ≡ merge_value (meaning t) (meaning old)
        → merge_field (c_str key) (meaning t) (merge_value (meaning t)) (fields_of cur)
          ≡ (true, fields_of (put_tree e (c_str key) s cur))
    put_result e s there fits same =
        let g = meaning-get_tree (c_str key) cur in
        merge_field-put (c_str key) (meaning t) (merge_value (meaning t)) (fields_of cur) there
          (ap (conflict (meaning t)) (sym g) ∙ fits)
        ∙ ap (λ v. (true, put_field (c_str key) v (fields_of cur)))
            (ap (merge_value (meaning t)) (sym g) ∙ sym same)
        ∙ ap (λ fs. (true, fs)) (sym (fields_of-put_tree e (c_str key) s cur))

    -- The pair gets a copy of the added value.
    put_copy :
        meaning t ≢ missing
        → conflict (meaning t) (meaning old) ≡ false
        → merge_value (meaning t) (meaning old) ≡ kept (meaning t)
        → Returns Rounded
            ((clone f (root_of t) >>= λ copy. map_set f p (some key) copy >> pure true) h)
    put_copy there fits copied =
        Returns-and_then (clone-Copied t f h deep w (omega arith) ht keys) λ root h1 c.
          rw (← c.root_is) (
            Returns-and_then
              (map_set-put_tree f p cur key c.copy (size t) h h1 w hm d u c.new
                (root_present c.copy h1.cell c.new.held
                  (λ e. kept-present (meaning t) there (sym c.means ∙ e)))
                (omega (arith, c.new.room)) (omega arith))
              λ _ h2 x. done (record {
                now = put_tree h1.next (c_str key) c.copy cur;
                changed = x;
                unique = put_tree-UniqueKeys h1.next (c_str key) c.copy cur u;
                others = λ j ne. get_tree-put_tree h1.next j (c_str key) c.copy cur ne;
                result = put_result h1.next c.copy there fits (c.means ∙ sym copied);
              }))

    -- The nested call, where both are maps.
    abbrev Nested : Type 0
    Nested =
        (p2 a2 : Ptr) (cur2 qs2 : Pairs)
        → old ≡ object p2 cur2
        → t ≡ object a2 qs2
        → Returns (NestedMerge p2 cur2 qs2 h) (rec p2 a2 h)

    key_there :
        (p2 : Ptr) (cur2 : Pairs)
        → old ≡ object p2 cur2
        → has_key (c_str key) (entries_of cur) ≡ true
    key_there p2 cur2 eo = elim (Bool-cases (has_key (c_str key) (entries_of cur))) [
      | inl there ↦ there
      | inr absent ↦ absurd (cc (eo, nothing_found cur (c_str key) absent))
    ]

    put_there :
        (e p2 : Ptr) (cur2 : Pairs) (s : Tree)
        → old ≡ object p2 cur2
        → put_tree e (c_str key) s cur ≡ set_tree (c_str key) s cur
    put_there e p2 cur2 s eo = rw (key_there p2 cur2 eo) refl

    nested_meaning :
        (now2 : Pairs) (p2 a2 : Ptr) (cur2 qs2 : Pairs)
        → old ≡ object p2 cur2
        → t ≡ object a2 qs2
        → fields_of now2 ≡ (merge_fields (fields_of qs2) (fields_of cur2)).1
        → meaning (object p2 now2) ≡ merge_value (meaning t) (meaning old)
    unfolding meaning merge_value
    nested_meaning now2 p2 a2 cur2 qs2 eo et m =
        ap mapping m
        ∙ sym (ap (merge_value (mapping (fields_of qs2))) (ap meaning eo))
        ∙ sym (ap (λ s. merge_value (meaning s) (meaning old)) et)

    nested_round :
        (p2 a2 : Ptr) (cur2 qs2 : Pairs)
        → old ≡ object p2 cur2
        → t ≡ object a2 qs2
        → meaning t ≢ missing
        → conflict (meaning t) (meaning old) ≡ false
        → Nested
        → Returns Rounded ((rec (root_of old) (root_of t) >> pure true) h)
    unfolding meaning merge_value size
    nested_round p2 a2 cur2 qs2 eo et there fits nested =
        rw (ap root_of eo, ap root_of et)
          (Returns-and_then (nested p2 a2 cur2 qs2 eo et) λ code h' (now2, x, m). done (record {
            now = set_tree (c_str key) (object p2 now2) cur;
            changed = Changed-weaken (omega (arith, ap size et)) (
                nested-Changed p cur (c_str key) (object p2 now2) (pairs_size qs2) h h' w hm d
                  (subst (λ s. Changed s (object p2 now2) (pairs_size qs2) h h') (sym eo) x)
                  (ap root_of (sym eo)) (key_there p2 cur2 eo));
            unique = set_tree-UniqueKeys (c_str key) (object p2 now2) cur u;
            others = λ j ne. get_tree-set_tree j (c_str key) (object p2 now2) cur ne;
            result =
                put_result 0 (object p2 now2) there fits
                  (nested_meaning now2 p2 a2 cur2 qs2 eo et m)
                ∙ ap (λ qs. (true, fields_of qs)) (put_there 0 p2 cur2 (object p2 now2) eo);
          }))

    old_held : Holds h.cell old
    old_held = get_tree-Holds (c_str key) cur h.cell p hm.2

    d' : Distinct (addrs (object p cur))
    unfolding addrs
    d' = d

    existing_round :
        Nested
        → meaning t ≢ missing
        → meaning old ≢ missing
        → Returns Rounded (merge_existing rec f p key (root_of t) (root_of old) h)
    existing_round nested there old_there =
        let (tv, lv, kv) = load_type-kind t h ht there in
        let (te, le, ke) = load_type-kind old h old_held old_there in
        let kinds = conflict-eq (meaning t) (meaning old) old_there in
        elim (Bool-cases (type_code tv == type_code te)) [
          | inr clash ↦
              rw (existing-conflict rec f p key (root_of t) (root_of old) tv te h lv le clash) (
                done (record {
                  now = cur;
                  changed = Changed-weaken (omega arith) (unchanged (object p cur) h hm d' w);
                  unique = u;
                  others = λ j ne. refl;
                  result =
                      merge_field-conflict (c_str key) (meaning t) (merge_value (meaning t))
                        (fields_of cur) there
                        (ap (conflict (meaning t)) (sym (meaning-get_tree (c_str key) cur))
                          ∙ kinds
                          ∙ ground arith);
                }))
          | inl same ↦
              let fits : conflict (meaning t) (meaning old) ≡ false = kinds ∙ ground arith in
              elim (Bool-cases (type_code tv == 0)) [
                | inl zero ↦
                    let (a2, qs2, et) = object-kind t (ground arith) in
                    let (p2, cur2, eo) = object-kind old (ground arith) in
                    rw
                      (existing-nested rec f p key (root_of t) (root_of old) tv te h lv le same
                        (ground arith))
                      (nested_round p2 a2 cur2 qs2 eo et there fits nested)
                | inr other ↦
                    rw
                      (existing-copy rec f p key (root_of t) (root_of old) tv te h lv le same
                        (ground arith))
                      (put_copy there fits
                        (merge_value-no_map (meaning t) (meaning old) (ground arith)))
              ]
        ]

    -- A round, whichever way it goes.
    pub merge_pair-Round : Nested → Returns Rounded (merge_pair rec f p key (root_of t) h)
    unfolding merge_pair
    merge_pair-Round nested = elim (missing-cases (meaning t)) [
      | inl gone ↦ rw (root_missing t gone) (
          done (record {
            now = cur;
            changed = Changed-weaken (omega arith) (unchanged (object p cur) h hm d' w);
            unique = u;
            others = λ j ne. refl;
            result =
                merge_field-skip (c_str key) (meaning t) (merge_value (meaning t)) (fields_of cur)
                  gone;
          }))
      | inr there ↦ elim (missing-cases (meaning old)) [
        | inl none ↦
            rw
              (
                not_null (root_present t h.cell ht there),
                map_get-get_tree p cur h key hm u,
                root_missing old none,
              )
              (put_copy there (ap (conflict (meaning t)) none)
                (ap (merge_value (meaning t)) none ∙ merge_value-missing (meaning t)))
        | inr old_there ↦
            rw
              (
                not_null (root_present t h.cell ht there),
                map_get-get_tree p cur h key hm u,
                not_null (root_present old h.cell old_held old_there),
              )
              (existing_round nested there old_there)
      ]
    ]
