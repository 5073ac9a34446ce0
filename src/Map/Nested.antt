-- ===== src/Map/Nested.antt =====
-- A change inside the value at a key is a change of the map.
use pillowtalk.Prelude.{
  ℕ, ◌<◌, ◌≡◌, sym, ap, ◌∙◌, true, false, inl, inr, Bool-cases, Option, some, ◌∷◌, ◌++◌, same_bytes,
  arith,
}
use pillowtalk.Libraries.{Bytes, Ptr, Libraries, has_key}
use pillowtalk.Heap.{Heap, Obj, key_value}
use pillowtalk.Heap.Access.{IsHeap}
use pillowtalk.Tree.{
  Tree, Pairs, object, no_pairs, pair, root_of, entries_of, addrs, pair_addrs, Holds, HoldsPairs,
}
use pillowtalk.Tree.Footprint.{
  has, Distinct, has-append, Distinct-append, append-Distinct, Holds-frame, HoldsPairs-frame,
}
use pillowtalk.Tree.New.{Holds-below}
use pillowtalk.Tree.Changed.{Changed}
use pillowtalk.Map.Lookup.{get_tree}
use pillowtalk.Free.Gone.{size}
use pillowtalk.Map.Parts.{set_tree-size, set_tree-puts}
use pillowtalk.Map.Items.{set_tree-kept, entries_of-set_tree}
use pillowtalk.Map.Addresses.{set_tree, has-get_tree, set_tree-has}

module _ ⦃L : Libraries⦄ where
  nested-HoldsPairs :
      (ps : Pairs) (c d : Ptr → Option Obj) (m : Ptr) (k : Bytes) (t : Tree)
      → Distinct (pair_addrs ps)
      → HoldsPairs c m ps
      → ((a : Ptr)
          → has a (pair_addrs ps) ≡ true
          → has a (addrs (get_tree k ps)) ≡ false
          → d a ≡ c a)
      → Holds d t
      → root_of t ≡ root_of (get_tree k ps)
      → HoldsPairs d m (set_tree k t ps)
  unfolding addrs
  nested-HoldsPairs no_pairs c d m k t dp r same held root = tt
  nested-HoldsPairs (pair e j t' ps) c d m k t (out, dp) (ne, at, rt, rs) same held root =
      let (d1, d2, apart) = Distinct-append (addrs t') (pair_addrs ps) dp in
      elim (Bool-cases (same_bytes j k)) [
        | inl eq ↦
            let r : root_of t ≡ root_of t' = rw eq at root in
            rw eq (
              ne,
              same e (ground arith)
                    (rw eq (ground (arith, has-append e (addrs t') (pair_addrs ps))))
                  ∙ at
                  ∙ ap (λ x. some (key_value j x m)) (sym r),
              held,
              HoldsPairs-frame ps m c d
                  (λ a i.
                    same a (ground (arith, has-append a (addrs t') (pair_addrs ps)))
                      (rw eq (ground (arith, apart a))))
                  rs,
            )
        | inr other ↦ rw other (
          ne,
          same e (ground arith) (
                rw other
                  (ground (arith, has-get_tree k ps e, has-append e (addrs t') (pair_addrs ps))))
              ∙ at,
          Holds-frame t' c d
              (λ a i.
                same a (ground (arith, has-append a (addrs t') (pair_addrs ps)))
                  (rw other (ground (arith, has-get_tree k ps a, apart a))))
              rt,
          nested-HoldsPairs ps c d m k t d2 rs
              (λ a i o.
                same a (ground (arith, has-append a (addrs t') (pair_addrs ps))) (rw other o))
              held (rw other at root),
        )
      ]

  nested-Distinct :
      (k : Bytes) (t : Tree) (ps : Pairs)
      → Distinct (pair_addrs ps)
      → Distinct (addrs t)
      → ((a : Ptr)
          → has a (addrs t) ≡ true
          → has a (pair_addrs ps) ≡ true
          → has a (addrs (get_tree k ps)) ≡ true)
      → Distinct (pair_addrs (set_tree k t ps))
  unfolding addrs
  nested-Distinct k t no_pairs d dt own = tt
  nested-Distinct k t (pair e j t' ps) (out, d) dt own =
      let (d1, d2, apart) = Distinct-append (addrs t') (pair_addrs ps) d in
      elim (Bool-cases (same_bytes j k)) [
        | inl same ↦
            let own' : (a : Ptr)
                → has a (addrs t) ≡ true
                → has a (e ∷ (addrs t' ++ pair_addrs ps)) ≡ true
                → has a (addrs t') ≡ true =
              rw same at own in
            rw same (
              ground (
                arith,
                has-append e (addrs t) (pair_addrs ps),
                has-append e (addrs t') (pair_addrs ps),
                own' e,
              ),
              append-Distinct (addrs t) (pair_addrs ps) dt d2
                  λ a i. ground (arith, own' a, apart a, has-append a (addrs t') (pair_addrs ps)),
            )
        | inr other ↦
            let own' : (a : Ptr)
                → has a (addrs t) ≡ true
                → has a (e ∷ (addrs t' ++ pair_addrs ps)) ≡ true
                → has a (addrs (get_tree k ps)) ≡ true =
              rw other at own in
            rw other (
              ground (
                arith,
                has-append e (addrs t') (pair_addrs ps),
                has-append e (addrs t') (pair_addrs (set_tree k t ps)),
                set_tree-has k t ps e,
                has-get_tree k ps e,
                own' e,
              ),
              append-Distinct (addrs t') (pair_addrs (set_tree k t ps)) d1
                  (nested-Distinct k t ps d2 dt
                    λ a i m. own' a i (ground (arith, has-append a (addrs t') (pair_addrs ps))))
                  λ a i. ground (
                    arith,
                    set_tree-has k t ps a,
                    apart a,
                    own' a,
                    has-get_tree k ps a,
                    has-append a (addrs t') (pair_addrs ps),
                  ),
            )
      ]

  -- The value at the key is changed to `t`, at the same address.
  module _ (p : Ptr) (ps : Pairs) (k : Bytes) (t : Tree) (n : ℕ) (h h' : Heap Obj) (w : IsHeap h)
      (hm : Holds h.cell (object p ps)) (d : Distinct (p ∷ pair_addrs ps))
      (x : Changed (get_tree k ps) t n h h') (root : root_of t ≡ root_of (get_tree k ps))
      (there : has_key k (entries_of ps) ≡ true) where
    below : (b : Ptr) → has b (p ∷ pair_addrs ps) ≡ true → b < h.next
    unfolding addrs
    below b i = Holds-below (object p ps) h b w hm i

    same :
        (a : Ptr)
        → has a (pair_addrs ps) ≡ true
        → has a (addrs (get_tree k ps)) ≡ false
        → h'.cell a ≡ h.cell a
    same a i o = x.other a (below a (ground arith)) o

    map_same : h'.cell p ≡ h.cell p
    map_same = x.other p (below p (ground arith)) (ground (arith, has-get_tree k ps p))

    own :
        (a : Ptr)
        → has a (addrs t) ≡ true
        → has a (pair_addrs ps) ≡ true
        → has a (addrs (get_tree k ps)) ≡ true
    own a i m = ground (arith, x.within a, below a)

    p_out : has p (addrs t) ≡ false
    p_out = ground (arith, x.within p, below p, has-get_tree k ps p)

    nested-Holds : Holds h'.cell (object p (set_tree k t ps))
    nested-Holds =
        let (ne, (tb, e, i), rs) = hm in
        (
          ne,
          (tb, map_same ∙ e, i ∙ sym (entries_of-set_tree k t ps)),
          nested-HoldsPairs ps h.cell h'.cell p k t d.1 rs same x.held root,
        )

    pub nested-Changed : Changed (object p ps) (object p (set_tree k t ps)) n h h'
    unfolding addrs size
    nested-Changed = record {
      held = nested-Holds;
      distinct =
          (ground (arith, set_tree-has k t ps p, p_out), nested-Distinct k t ps d.1 x.distinct own);
      is_heap = x.is_heap;
      within = λ b i. ground (arith, set_tree-has k t ps b, x.within b, has-get_tree k ps b);
      other = λ b lt o. x.other b lt (ground (arith, has-get_tree k ps b));
      lost =
          λ b i o. ground (arith, x.lost b, set_tree-puts k t ps b there, set_tree-kept k t ps b);
      grows = x.grows;
      room = x.room;
      small = omega (arith, set_tree-size k t ps, x.small);
    }
