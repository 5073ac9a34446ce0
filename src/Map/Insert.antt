-- ===== src/Map/Insert.antt =====
-- pt_map_set at a key that the map does not have yet.
use pillowtalk.Prelude.{
  ℕ, ◌<◌, ◌≡◌, ◌≢◌, refl, ◌∙◌, sym, ap, subst, false, inl, inr, Option-cases, none, some, [], ◌∷◌,
  ◌++◌, arith,
}
use pillowtalk.Libraries.{Bytes, Ptr, Libraries, has_key}
use pillowtalk.Heap.{Heap, null, write, Obj, map_node, key_value}
use pillowtalk.Heap.Access.{
  IsHeap, not_null, load-ok, store-ok, alloc-ok, grown, put, used-lt, write-at, put-IsHeap,
  alloc-IsHeap, grown-keeps,
}
use pillowtalk.Heap.Returns.{Returns, done}
use pillowtalk.Node.{c_str}
use pillowtalk.Tree.{Tree, Pairs, object, root_of, entries_of, addrs, pair_addrs, Holds}
use pillowtalk.Tree.Footprint.{
  has, Distinct, Apart, has-append, Distinct-append, append-Distinct, Holds-frame, HoldsPairs-frame,
}
use pillowtalk.Tree.Fresh.{Holds-fresh, HoldsPairs-fresh}
use pillowtalk.Tree.LastPair.{
  snoc_pair, entries_of-snoc_pair, pair_addrs-snoc_pair, HoldsPairs-snoc_pair,
}
use pillowtalk.Array.Push.{PushedTo}
use pillowtalk.Map.{map_set}
use pillowtalk.Map.Lookup.{has_key_of_holds}

module _ ⦃L : Libraries⦄ where
  -- A key that no pair has is not found.
  pub find_missing : (k : Bytes) (t : L.Table) → has_key k (L.entries t) ≡ false → L.find k t ≡ none
  find_missing k t out = elim (Option-cases (L.find k t)) [
    | inl missing ↦ missing
    | inr (q, found) ↦
        ground (arith, has_key_of_holds k q (L.entries t) (L.holds_of_find k t q found))
  ]

  module _ (p : Ptr) (ps : Pairs) (k : Bytes) (t : Tree) (h : Heap Obj) (w : IsHeap h)
      (r : 0 < h.room) (hm : Holds h.cell (object p ps)) (ht : Holds h.cell t)
      (d : Distinct (p ∷ (pair_addrs ps ++ addrs t))) where
    parts : Distinct (pair_addrs ps) × Distinct (addrs t) × Apart (pair_addrs ps) (addrs t)
    parts = Distinct-append (pair_addrs ps) (addrs t) d.1

    out_p : (has p (pair_addrs ps) ≡ false) × (has p (addrs t) ≡ false)
    out_p = ground (arith, has-append p (pair_addrs ps) (addrs t))

    out_e : (has h.next (pair_addrs ps) ≡ false) × (has h.next (addrs t) ≡ false)
    out_e = (
      HoldsPairs-fresh ps h p h.next w hm.2 (omega arith),
      Holds-fresh t h h.next w ht (omega arith),
    )

    p_ne_next : p ≢ h.next
    p_ne_next = omega (arith, used-lt h p w hm.1.1)

    abbrev new_pair : Obj
    new_pair = key_value k (root_of t) p

    snoc_pair-Distinct : Distinct (p ∷ pair_addrs (snoc_pair ps h.next k t))
    snoc_pair-Distinct = rw (pair_addrs-snoc_pair ps h.next k t) (
      ground (arith, has-append p (pair_addrs ps) (h.next ∷ addrs t), out_p, p_ne_next),
      append-Distinct (pair_addrs ps) (h.next ∷ addrs t) parts.0 (out_e.1, parts.1)
          λ a i. ground (arith, parts.2 a, out_e.0),
    )

    abbrev inserted : Heap Obj
    inserted = put (grown h new_pair) p (some (map_node (L.add_keyptr k h.next hm.1.0)))

    inserted_other : (a : Ptr) → a ≢ p → a ≢ h.next → inserted.cell a ≡ h.cell a
    unfolding write
    inserted_other a n1 n2 = ground arith

    inserted_pair : inserted.cell h.next ≡ some new_pair
    unfolding write
    inserted_pair = ground (arith, p_ne_next)

    inserted-Holds : Holds inserted.cell (object p (snoc_pair ps h.next k t))
    inserted-Holds = (
      hm.0,
      (
        L.add_keyptr k h.next hm.1.0,
        write-at (grown h new_pair).cell p (some (map_node (L.add_keyptr k h.next hm.1.0))),
        L.entries-add_keyptr k h.next hm.1.0
            ∙ ap (λ r. r ++ (k, h.next) ∷ []) hm.1.2
            ∙ sym (entries_of-snoc_pair ps h.next k t),
      ),
      HoldsPairs-snoc_pair inserted.cell p ps h.next k t
          (HoldsPairs-frame ps p h.cell inserted.cell
            (λ a i. inserted_other a (λ x. cc (x, i, out_p.0)) (λ x. cc (x, i, out_e.0))) hm.2)
          (omega (arith, w.next_pos)) inserted_pair
          (Holds-frame t h.cell inserted.cell
            (λ a i. inserted_other a (λ x. cc (x, i, out_p.1)) (λ x. cc (x, i, out_e.1))) ht),
    )

    inserted-PushedTo : PushedTo (object p (snoc_pair ps h.next k t)) p h inserted
    unfolding addrs
    inserted-PushedTo = record {
      held = inserted-Holds;
      distinct = snoc_pair-Distinct;
      is_heap =
          put-IsHeap (grown h new_pair) p (some (map_node (L.add_keyptr k h.next hm.1.0)))
            (alloc-IsHeap new_pair w) (omega (arith, used-lt h p w hm.1.1));
      room = omega arith;
      next = refl;
      other = inserted_other;
    }

  -- Where there is memory and a node other than NULL shares no struct with the map, at a key that the
  -- map does not have pt_map_set puts a pair of the key and the node behind the
  -- others, and changes nothing but the map and the new pair.
  pub map_set-snoc_pair :
      (fuel : ℕ) (p : Ptr) (ps : Pairs) (key : Bytes) (t : Tree) (h : Heap Obj)
      → IsHeap h
      → 0 < h.room
      → Holds h.cell (object p ps)
      → Holds h.cell t
      → root_of t ≢ null
      → Distinct (p ∷ (pair_addrs ps ++ addrs t))
      → has_key (c_str key) (entries_of ps) ≡ false
      → Returns
          (λ _ h'. PushedTo (object p (snoc_pair ps h.next (c_str key) t)) p h h')
          (map_set fuel p (some key) (root_of t) h)
  unfolding map_set
  map_set-snoc_pair fuel p ps key t h w r hm ht nv d out =
      let (ne, (tbl, at, i), rs) = hm in
      rw
        (
          not_null ne,
          load-ok h ne at,
          not_null nv,
          find_missing (c_str key) tbl (subst (λ es. has_key (c_str key) es ≡ false) (sym i) out),
          alloc-ok h (key_value (c_str key) (root_of t) p) r,
          store-ok (grown h (key_value (c_str key) (root_of t) p)) ne
              (grown-keeps h p (key_value (c_str key) (root_of t) p) w at),
        )
        (done (inserted-PushedTo p ps (c_str key) t h w r hm ht d))
