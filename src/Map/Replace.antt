-- ===== src/Map/Replace.antt =====
-- pt_map_set at a key that the map has: the old value is released and the new one takes its place.
use pillowtalk.Prelude.{
  ℕ, ◌<◌, ◌≡◌, ◌≢◌, sym, ap, subst, ◌∙◌, true, false, inl, inr, Bool-cases, Option-cases, Option,
  none, some, ◌∷◌, ◌++◌, same_bytes, same_bytes_iff, arith,
}
use pillowtalk.Libraries.{Bytes, Ptr, Libraries, holds, has_key}
use pillowtalk.Heap.{Heap, null, Obj, key_value, write}
use pillowtalk.Heap.Access.{IsHeap, not_null, load-ok, store-ok, put, put-IsHeap, used-lt, write-at}
use pillowtalk.Heap.Returns.{Returns, done, Returns-and_then}
use pillowtalk.Node.{c_str}
use pillowtalk.Tree.{
  Tree, Pairs, object, no_pairs, pair, root_of, entries_of, addrs, pair_addrs, Holds, HoldsPairs,
}
use pillowtalk.Tree.Footprint.{
  has, Distinct, Apart, has-append, Distinct-append, Holds-frame, HoldsPairs-frame,
}
use pillowtalk.Tree.Edited.{Edited, Gone-IsHeap}
use pillowtalk.Free.Gone.{size, free_node-Gone}
use pillowtalk.Free.Cells.{Gone}
use pillowtalk.Free.{value_of}
use pillowtalk.Map.{map_set}
use pillowtalk.Map.Lookup.{get_tree, UniqueKeys, has_key_of_holds, pair_found}
use pillowtalk.Map.Items.{
  entries_of-set_tree, get_tree-Distinct, found_apart, set_tree-kept, get_tree-Holds,
}
use pillowtalk.Map.Addresses.{set_tree, has-get_tree, has_of_holds, set_tree-has, set_tree-Distinct}

module _ ⦃L : Libraries⦄ where
  set_tree-Holds :
      (ps : Pairs) (c d : Ptr → Option Obj) (m : Ptr) (k : Bytes) (q : Ptr) (t : Tree)
      → UniqueKeys ps
      → Distinct (pair_addrs ps)
      → HoldsPairs c m ps
      → holds k q (entries_of ps) ≡ true
      → ((a : Ptr)
          → has a (pair_addrs ps) ≡ true
          → has a (addrs (get_tree k ps)) ≡ false
          → a ≢ q
          → d a ≡ c a)
      → d q ≡ some (key_value k (root_of t) m)
      → Holds d t
      → HoldsPairs d m (set_tree k t ps)
  unfolding addrs
  set_tree-Holds no_pairs c d m k q t u dp r i same at held = tt
  set_tree-Holds (pair e j t' ps) c d m k q t (o, u) (out, dp) (ne, at', rt, rs) i same at held =
      let (d1, d2, apart) = Distinct-append (addrs t') (pair_addrs ps) dp in
      elim (Bool-cases (same_bytes j k)) [
        | inl eq ↦
            let jk = (same_bytes_iff j k).0 eq in
            let eq_q : e ≡ q = ground (arith, has_key_of_holds k q (entries_of ps)) in
            rw eq (
              ne,
              cc,
              held,
              HoldsPairs-frame ps m c d
                  (λ a i2.
                    same a (ground (arith, has-append a (addrs t') (pair_addrs ps)))
                      (rw eq (ground (arith, apart a)))
                      (λ x. ground (arith, has-append e (addrs t') (pair_addrs ps))))
                  rs,
            )
        | inr ne_k ↦
            let in_ps : has q (pair_addrs ps) ≡ true = has_of_holds k q ps (ground arith) in
            rw ne_k (
              ne,
              same e (ground arith)
                    (rw ne_k (
                      ground (arith, has-get_tree k ps e, has-append e (addrs t') (pair_addrs ps))))
                    (λ x. ground (arith, has-append e (addrs t') (pair_addrs ps)))
                  ∙ at',
              Holds-frame t' c d
                  (λ a i2.
                    same a (ground (arith, has-append a (addrs t') (pair_addrs ps)))
                      (rw ne_k (ground (arith, has-get_tree k ps a, apart a)))
                      (λ x. ground (arith, apart a)))
                  rt,
              set_tree-Holds ps c d m k q t u d2 rs (ground arith)
                  (λ a i2 i3 nq.
                    same a (ground (arith, has-append a (addrs t') (pair_addrs ps))) (rw ne_k i3)
                      nq)
                  at held,
            )
      ]

  -- The heap once the old value is gone and the pair `q` has the new one.
  module _ (p q : Ptr) (ps : Pairs) (k : Bytes) (t : Tree) (h h2 : Heap Obj) (w : IsHeap h)
      (hm : Holds h.cell (object p ps)) (ht : Holds h.cell t) (u : UniqueKeys ps)
      (d : Distinct (p ∷ (pair_addrs ps ++ addrs t))) (i : holds k q (entries_of ps) ≡ true)
      (atq : h.cell q ≡ some (key_value k (root_of (get_tree k ps)) p))
      (g : Gone (addrs (get_tree k ps)) h h2) where
    parts : Distinct (pair_addrs ps) × Distinct (addrs t) × Apart (pair_addrs ps) (addrs t)
    parts = Distinct-append (pair_addrs ps) (addrs t) d.1

    abbrev replaced : Heap Obj
    replaced = put h2 q (some (key_value k (root_of t) p))

    q_in : has q (pair_addrs ps) ≡ true
    q_in = has_of_holds k q ps i

    q_out : has q (addrs (get_tree k ps)) ≡ false
    q_out = found_apart k q ps u parts.0 i

    out_p : (has p (pair_addrs ps) ≡ false) × (has p (addrs t) ≡ false)
    out_p = ground (arith, has-append p (pair_addrs ps) (addrs t))

    pub pair_stays : h2.cell q ≡ some (key_value k (root_of (get_tree k ps)) p)
    pair_stays = ground (arith, g.cells q, q_out)

    replaced_other :
        (a : Ptr) → has a (addrs (get_tree k ps)) ≡ false → a ≢ q → replaced.cell a ≡ h.cell a
    unfolding write
    replaced_other a i1 nq = ground (arith, g.cells a)

    outside : (a : Ptr) → has a (pair_addrs ps) ≡ false → replaced.cell a ≡ h.cell a
    outside a o = replaced_other a (ground (arith, has-get_tree k ps a)) (λ e. cc (q_in, e, o))

    tree_stays : Holds replaced.cell t
    tree_stays =
        Holds-frame t h.cell replaced.cell (λ a m. outside a (ground (arith, parts.2 a))) ht

    replaced-Holds : Holds replaced.cell (object p (set_tree k t ps))
    replaced-Holds =
        let (ne, (tb, e, j), rs) = hm in
        (
          ne,
          (tb, outside p out_p.0 ∙ e, j ∙ sym (entries_of-set_tree k t ps)),
          set_tree-Holds ps h.cell replaced.cell p k q t u parts.0 rs i
              (λ a m o nq. replaced_other a o nq)
              (write-at h2.cell q (some (key_value k (root_of t) p))) tree_stays,
        )

    freed_cell :
        (b : Ptr)
        → has b (pair_addrs ps) ≡ true
        → has b (pair_addrs (set_tree k t ps)) ≡ false
        → replaced.cell b ≡ none
    unfolding write
    freed_cell b m o = ground (arith, set_tree-kept k t ps b, g.cells b, q_out)

    pub replaced-Edited : Edited (object p ps) (object p (set_tree k t ps)) h replaced
    unfolding addrs
    replaced-Edited = record {
      held = replaced-Holds;
      distinct = (
        ground (arith, set_tree-has k t ps p, out_p),
        set_tree-Distinct k t ps parts.0 parts.1 parts.2,
      );
      is_heap =
          put-IsHeap h2 q (some (key_value k (root_of t) p)) (Gone-IsHeap w g)
            (omega (arith, used-lt h q w atq, g.next));
      next = g.next;
      room = g.room;
      freed = λ b m o. freed_cell b (ground arith) (ground arith);
      other = λ b o. outside b (ground arith);
    }

  -- In a map with distinct keys that has the key, with more fuel than the old value has structs and a
  -- node other than NULL that shares no struct with the map, pt_map_set puts the node in the place
  -- of the old value, frees that, and changes no struct outside the map.
  pub map_set-set_tree :
      (fuel : ℕ) (p : Ptr) (ps : Pairs) (key : Bytes) (t : Tree) (h : Heap Obj)
      → IsHeap h
      → Holds h.cell (object p ps)
      → Holds h.cell t
      → root_of t ≢ null
      → Distinct (p ∷ (pair_addrs ps ++ addrs t))
      → UniqueKeys ps
      → has_key (c_str key) (entries_of ps) ≡ true
      → size (get_tree (c_str key) ps) < fuel
      → Returns
          (λ _ h'. Edited (object p ps) (object p (set_tree (c_str key) t ps)) h h')
          (map_set fuel p (some key) (root_of t) h)
  unfolding map_set value_of
  map_set-set_tree fuel p ps key t h w hm ht nv d u there enough =
      let (ne, (tb, at, i), rs) = hm in
      let k = c_str key in
      let dp = (Distinct-append (pair_addrs ps) (addrs t) d.1).0 in
      elim (Option-cases (L.find (c_str key) tb)) [
        | inl missing ↦
            absurd (
              cc (there, ap (has_key (c_str key)) i, L.has_key_of_find_none (c_str key) tb missing))
        | inr (q, found) ↦
            let iq =
              subst (λ es. holds (c_str key) q es ≡ true) i
                (L.holds_of_find (c_str key) tb q found) in
            let (nq, atq) = pair_found ps h.cell p (c_str key) q u rs iq in
            rw (not_null ne, load-ok h ne at, not_null nv, found, load-ok h nq atq)
              (Returns-and_then
                (free_node-Gone (get_tree (c_str key) ps) fuel h enough
                  (get_tree-Holds (c_str key) ps h.cell p rs) (get_tree-Distinct (c_str key) ps dp))
                λ _ h2 g.
                  let stays = pair_stays p q ps (c_str key) t h h2 w hm ht u d iq atq g in
                  rw (load-ok h2 nq stays, store-ok h2 nq stays)
                    (done (replaced-Edited p q ps (c_str key) t h h2 w hm ht u d iq atq g)))
      ]
