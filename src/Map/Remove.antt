-- ===== src/Map/Remove.antt =====
-- pt_map_unset takes the pair at a key out of the map and releases it with its value.
use pillowtalk.Prelude.{
  ℕ, ◌<◌, ◌≡◌, ◌≢◌, refl, sym, ap, subst, ◌∙◌, true, false, inl, inr, Option-cases, none, some, ◌∷◌,
  arith,
}
use pillowtalk.Libraries.{Bytes, Ptr, Libraries, holds, has_key, without_item}
use pillowtalk.Heap.{Heap, ok, Obj, key_value, map_node, write}
use pillowtalk.Heap.Access.{IsHeap, not_null, load-ok, store-ok, free-ok, put, put-IsHeap, used-lt}
use pillowtalk.Heap.Returns.{Returns, done, Returns-and_then}
use pillowtalk.Node.{c_str}
use pillowtalk.Tree.{Pairs, object, root_of, entries_of, addrs, pair_addrs, Holds}
use pillowtalk.Tree.Footprint.{has, Distinct, Holds-frame}
use pillowtalk.Free.{value_of}
use pillowtalk.Free.Gone.{size, free_node-Gone}
use pillowtalk.Free.Cells.{Gone}
use pillowtalk.Map.{map_unset}
use pillowtalk.Map.Insert.{find_missing}
use pillowtalk.Map.Lookup.{get_tree, UniqueKeys, pair_found}
use pillowtalk.Map.Items.{
  entries_of-drop_tree, get_tree-Distinct, found_apart, drop_tree-kept, get_tree-Holds,
}
use pillowtalk.Map.Addresses.{
  drop_tree, has-get_tree, has_of_holds, drop_tree-has, drop_tree-Distinct,
}
use pillowtalk.Tree.Edited.{Edited, Gone-IsHeap}
use pillowtalk.Map.Dropped.{drop_tree-Holds}

module _ ⦃L : Libraries⦄ where
  module _ (p q : Ptr) (ps : Pairs) (k : Bytes) (h : Heap Obj) (w : IsHeap h)
      (hm : Holds h.cell (object p ps)) (u : UniqueKeys ps) (d : Distinct (p ∷ pair_addrs ps))
      (i : holds k q (entries_of ps) ≡ true)
      (atq : h.cell q ≡ some (key_value k (root_of (get_tree k ps)) p)) where
    -- The map without the pair, which is still in the heap.
    abbrev unlinked : Heap Obj
    unlinked = put h p (some (map_node (L.del q hm.1.0)))

    q_in : has q (pair_addrs ps) ≡ true
    q_in = has_of_holds k q ps i

    q_out : has q (addrs (get_tree k ps)) ≡ false
    q_out = found_apart k q ps u d.1 i

    p_out : has p (addrs (get_tree k ps)) ≡ false
    p_out = ground (arith, has-get_tree k ps p)

    pub pair_unlinked : unlinked.cell q ≡ some (key_value k (root_of (get_tree k ps)) p)
    unfolding write
    pair_unlinked = ground (arith, q_in)

    pub value_unlinked : Holds unlinked.cell (get_tree k ps)
    unfolding write
    value_unlinked =
        Holds-frame (get_tree k ps) h.cell unlinked.cell (λ a m. ground (arith, p_out))
          (get_tree-Holds k ps h.cell p hm.2)

    module _ (h2 : Heap Obj) (g : Gone (addrs (get_tree k ps)) unlinked h2) where
      abbrev removed : Heap Obj
      removed = put h2 q none

      pub pair_stays : h2.cell q ≡ some (key_value k (root_of (get_tree k ps)) p)
      pair_stays = ground (arith, g.cells q, q_out, pair_unlinked)

      removed_other :
          (a : Ptr)
          → a ≢ p
          → has a (addrs (get_tree k ps)) ≡ false
          → a ≢ q
          → removed.cell a ≡ h.cell a
      unfolding write
      removed_other a np i1 nq = ground (arith, g.cells a)

      removed_map : removed.cell p ≡ some (map_node (L.del q hm.1.0))
      unfolding write
      removed_map = ground (arith, g.cells p, p_out, q_in)

      removed-Holds : Holds removed.cell (object p (drop_tree k ps))
      removed-Holds = (
        hm.0,
        (
          L.del q hm.1.0,
          removed_map,
          L.entries-del q hm.1.0
              ∙ ap (without_item q) hm.1.2
              ∙ sym (entries_of-drop_tree k q ps u d.1 i),
        ),
        drop_tree-Holds ps h.cell removed.cell p k q u d.1 hm.2 i
            λ a m o nq. removed_other a (λ e. cc (e, m, d.0)) o nq,
      )

      freed_cell :
          (b : Ptr)
          → has b (pair_addrs ps) ≡ true
          → has b (pair_addrs (drop_tree k ps)) ≡ false
          → removed.cell b ≡ none
      unfolding write
      freed_cell b m o = ground (arith, drop_tree-kept k q ps b u, g.cells b)

      pub removed-Edited : Edited (object p ps) (object p (drop_tree k ps)) h removed
      unfolding addrs
      removed-Edited = record {
        held = removed-Holds;
        distinct = (ground (arith, drop_tree-has k ps p), drop_tree-Distinct k ps d.1);
        is_heap =
            put-IsHeap h2 q none
              (Gone-IsHeap
                (put-IsHeap h p (some (map_node (L.del q hm.1.0))) w (used-lt h p w hm.1.1)) g)
              (omega (arith, used-lt h q w atq, g.next));
        next = g.next;
        room = g.room;
        freed = λ b m o. freed_cell b (ground arith) (ground arith);
        other = λ b o.
            removed_other b (ground arith) (ground (arith, has-get_tree k ps b))
              (ground (arith, q_in));
      }

  -- In a map with distinct keys that has the key, with more fuel than the value has structs,
  -- pt_map_unset takes the pair out of the map, frees it and its value, and changes no struct outside
  -- the map.
  pub map_unset-drop_tree :
      (fuel : ℕ) (p : Ptr) (ps : Pairs) (key : Bytes) (h : Heap Obj)
      → IsHeap h
      → Holds h.cell (object p ps)
      → Distinct (p ∷ pair_addrs ps)
      → UniqueKeys ps
      → has_key (c_str key) (entries_of ps) ≡ true
      → size (get_tree (c_str key) ps) < fuel
      → Returns
          (λ _ h'. Edited (object p ps) (object p (drop_tree (c_str key) ps)) h h')
          (map_unset fuel p (some key) h)
  unfolding map_unset value_of
  map_unset-drop_tree fuel p ps key h w hm d u there enough =
      let (ne, (tb, at, i), rs) = hm in
      elim (Option-cases (L.find (c_str key) tb)) [
        | inl missing ↦
            absurd (
              cc (there, ap (has_key (c_str key)) i, L.has_key_of_find_none (c_str key) tb missing))
        | inr (q, found) ↦
            let iq =
              subst (λ es. holds (c_str key) q es ≡ true) i
                (L.holds_of_find (c_str key) tb q found) in
            let (nq, atq) = pair_found ps h.cell p (c_str key) q u rs iq in
            rw
              (
                not_null ne,
                load-ok h ne at,
                found,
                store-ok h ne at,
                load-ok (unlinked p q ps (c_str key) h w hm u d iq atq) nq
                    (pair_unlinked p q ps (c_str key) h w hm u d iq atq),
              )
              (Returns-and_then
                (free_node-Gone (get_tree (c_str key) ps) fuel
                  (unlinked p q ps (c_str key) h w hm u d iq atq) enough
                  (value_unlinked p q ps (c_str key) h w hm u d iq atq)
                  (get_tree-Distinct (c_str key) ps d.1))
                λ _ h2 g.
                  rw (free-ok h2 nq (pair_stays p q ps (c_str key) h w hm u d iq atq h2 g))
                    (done (removed-Edited p q ps (c_str key) h w hm u d iq atq h2 g)))
      ]

  -- At a key that the map does not have it changes nothing.
  pub map_unset-missing :
      (fuel : ℕ) (p : Ptr) (ps : Pairs) (key : Bytes) (h : Heap Obj)
      → Holds h.cell (object p ps)
      → has_key (c_str key) (entries_of ps) ≡ false
      → map_unset fuel p (some key) h ≡ ok tt h
  unfolding map_unset
  map_unset-missing fuel p ps key h (ne, (tb, at, i), rs) out =
      rw
        (
          not_null ne,
          load-ok h ne at,
          find_missing (c_str key) tb (subst (λ es. has_key (c_str key) es ≡ false) (sym i) out),
        )
        refl
