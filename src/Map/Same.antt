-- ===== src/Map/Same.antt =====
-- pt_map_set of the node that the map has at the key already: the node is freed, and stays in the map.
use pillowtalk.Prelude.{
  refl, ℕ, ◌<◌, ◌≡◌, ◌≢◌, ap, subst, true, inl, inr, Option-cases, none, some, ◌∷◌, arith,
}
use pillowtalk.Libraries.{Bytes, Ptr, Libraries, holds, has_key}
use pillowtalk.Heap.{Heap, fault, null, Obj, ◌>>◌, load, key_value, map_node, write}
use pillowtalk.Heap.Access.{not_null, load-ok, store-ok, dangling-load, put}
use pillowtalk.Heap.Returns.{Returns, done, Returns-and_then}
use pillowtalk.Node.{c_str}
use pillowtalk.Tree.{Pairs, object, root_of, entries_of, addrs, pair_addrs, Holds}
use pillowtalk.Tree.Footprint.{has-root_of, Distinct}
use pillowtalk.Free.Gone.{size, free_node-Gone}
use pillowtalk.Free.Cells.{Gone}
use pillowtalk.Free.{value_of}
use pillowtalk.Map.{map_get, map_set}
use pillowtalk.Map.Lookup.{get_tree, UniqueKeys, pair_found}
use pillowtalk.Map.Items.{found_apart, get_tree-Distinct, get_tree-Holds}
use pillowtalk.Map.Addresses.{has-get_tree, has_of_holds}

module _ ⦃L : Libraries⦄ where
  -- A node that a read finds no struct at.
  abbrev pub Dangling : Ptr → Heap Obj → Type 0
  Dangling p h = load p h ≡ fault

  module _ (fuel : ℕ) (p : Ptr) (ps : Pairs) (key : Bytes) (h : Heap Obj)
      (hm : Holds h.cell (object p ps)) (d : Distinct (p ∷ pair_addrs ps)) (u : UniqueKeys ps)
      (nv : root_of (get_tree (c_str key) ps) ≢ null)
      (enough : size (get_tree (c_str key) ps) < fuel) where
    abbrev old : Ptr
    old = root_of (get_tree (c_str key) ps)

    -- The map still leads to the node, and the node is gone.
    record StillThere (q : Ptr) (h' : Heap Obj) : Type 0 where
      table : h'.cell p ≡ some (map_node hm.1.0)
      item : (q ≢ null) × (h'.cell q ≡ some (key_value (c_str key) old p))
      freed : h'.cell old ≡ none

    module _ (q : Ptr) (found : L.find (c_str key) hm.1.0 ≡ some q) where
      is_key : holds (c_str key) q (entries_of ps) ≡ true
      is_key =
          subst (λ es. holds (c_str key) q es ≡ true) hm.1.2
            (L.holds_of_find (c_str key) hm.1.0 q found)

      at_key : (q ≢ null) × (h.cell q ≡ some (key_value (c_str key) old p))
      at_key = pair_found ps h.cell p (c_str key) q u hm.2 is_key

      put-StillThere :
          (h2 : Heap Obj)
          → Gone (addrs (get_tree (c_str key) ps)) h h2
          → StillThere q (put h2 q (some (key_value (c_str key) old p)))
      unfolding write
      put-StillThere h2 g =
          let in_ps = has_of_holds (c_str key) q ps is_key in
          let q_out = found_apart (c_str key) q ps u d.1 is_key in
          let old_in = has-root_of (get_tree (c_str key) ps) nv in
          record {
            table = ground (arith, g.cells p, has-get_tree (c_str key) ps p, hm.1.1);
            item = (at_key.0, ground arith);
            freed = ground (arith, g.cells old);
          }

      map_set-StillThere : Returns (λ _ h'. StillThere q h') (map_set fuel p (some key) old h)
      unfolding map_set value_of
      map_set-StillThere =
          rw (not_null hm.0, load-ok h hm.0 hm.1.1, not_null nv, found, load-ok h at_key.0 at_key.1)
            (Returns-and_then
              (free_node-Gone (get_tree (c_str key) ps) fuel h enough
                (get_tree-Holds (c_str key) ps h.cell p hm.2)
                (get_tree-Distinct (c_str key) ps d.1))
              λ _ h2 g.
                let stays : h2.cell q ≡ some (key_value (c_str key) old p) =
                  ground (arith, g.cells q, at_key.1, found_apart (c_str key) q ps u d.1 is_key) in
                rw (load-ok h2 at_key.0 stays, store-ok h2 at_key.0 stays)
                  (done (put-StillThere h2 g)))

      map_get-StillThere :
          (h' : Heap Obj)
          → StillThere q h'
          → Returns (λ v h2. (v ≡ old) × Dangling v h2) (map_get p (some key) h')
      unfolding map_get value_of
      map_get-StillThere h' x =
          rw (not_null hm.0, load-ok h' hm.0 x.table, found, load-ok h' x.item.0 x.item.1)
            (done (refl, dangling-load old h' x.freed))

    -- In a map with distinct keys that has a node other than NULL at the key, with more fuel than the tree
    -- at the node has structs: after pt_map_set of that node at the key, pt_map_get gives the node
    -- still, and a read of it is undefined.
    pub map_set-Dangling :
        has_key (c_str key) (entries_of ps) ≡ true
        → Returns
            (λ v h'. (v ≡ old) × Dangling v h')
            ((map_set fuel p (some key) old >> map_get p (some key)) h)
    map_set-Dangling there = elim (Option-cases (L.find (c_str key) hm.1.0)) [
      | inl missing ↦ absurd (
          cc (
            there,
            ap (has_key (c_str key)) hm.1.2,
            L.has_key_of_find_none (c_str key) hm.1.0 missing,
          ))
      | inr (q, found) ↦
          Returns-and_then (map_set-StillThere q found) λ _ h' x. map_get-StillThere q found h' x
    ]
