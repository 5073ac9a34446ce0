-- ===== src/Map/GetSet.antt =====
-- pt_map_get after pt_map_set at a key that the map did not have.
use pillowtalk.Prelude.{
  ℕ, ◌<◌, ◌≡◌, ◌≢◌, refl, ap, false, some, ◌∷◌, ◌++◌, same_bytes, same_bytes_iff, ◌||◌, arith,
  if◌then◌else◌,
}
use pillowtalk.Libraries.{Bytes, Ptr, Libraries, has_key}
use pillowtalk.Heap.{Heap, null, Obj, ◌>>◌}
use pillowtalk.Heap.Access.{IsHeap}
use pillowtalk.Heap.Returns.{Returns, done, Returns-and_then}
use pillowtalk.Node.{c_str}
use pillowtalk.Tree.{
  Tree, Pairs, object, no_pairs, pair, root_of, entries_of, addrs, pair_addrs, Holds,
}
use pillowtalk.Tree.Footprint.{Distinct}
use pillowtalk.Map.{map_set, map_get}
use pillowtalk.Map.Lookup.{get_tree, UniqueKeys, map_get-get_tree}
use pillowtalk.Map.Insert.{map_set-snoc_pair}
use pillowtalk.Tree.LastPair.{snoc_pair}

module _ ⦃L : Libraries⦄ where
  has_key-snoc_pair :
      (j k : Bytes) (ps : Pairs) (e : Ptr) (t : Tree)
      → has_key j (entries_of (snoc_pair ps e k t)) ≡ (has_key j (entries_of ps) || same_bytes k j)
  has_key-snoc_pair j k no_pairs e t = ground arith
  has_key-snoc_pair j k (pair e' k' t' ps) e t = ground (arith, has_key-snoc_pair j k ps e t)

  pub snoc_pair-UniqueKeys :
      (ps : Pairs) (e : Ptr) (k : Bytes) (t : Tree)
      → UniqueKeys ps
      → has_key k (entries_of ps) ≡ false
      → UniqueKeys (snoc_pair ps e k t)
  snoc_pair-UniqueKeys no_pairs e k t u out = (refl, tt)
  snoc_pair-UniqueKeys (pair e' k' t' ps) e k t (o, u) out = (
    ground (arith, has_key-snoc_pair k' k ps e t, same_bytes_iff k k', same_bytes_iff k' k),
    snoc_pair-UniqueKeys ps e k t u (ground arith),
  )

  pub get_tree-snoc_pair :
      (ps : Pairs) (e : Ptr) (k j : Bytes) (t : Tree)
      → has_key k (entries_of ps) ≡ false
      → get_tree j (snoc_pair ps e k t) ≡ (if same_bytes k j then t else get_tree j ps)
  get_tree-snoc_pair no_pairs e k j t out = refl
  get_tree-snoc_pair (pair e' k' t' ps) e k j t out = ground (
    arith,
    get_tree-snoc_pair ps e k j t,
    same_bytes_iff k j,
    same_bytes_iff k' j,
    same_bytes_iff k' k,
  )

  -- In a map with distinct keys, where there is memory and a node other than NULL shares no struct with
  -- the map: after pt_map_set of the node at a key that the map does not have, pt_map_get gives the
  -- node at that key and at each other key what the map had there.
  pub map_get-map_set :
      (fuel : ℕ) (p : Ptr) (ps : Pairs) (key other : Bytes) (t : Tree) (h : Heap Obj)
      → IsHeap h
      → 0 < h.room
      → Holds h.cell (object p ps)
      → Holds h.cell t
      → root_of t ≢ null
      → Distinct (p ∷ (pair_addrs ps ++ addrs t))
      → UniqueKeys ps
      → has_key (c_str key) (entries_of ps) ≡ false
      → Returns
          (λ node _.
            node
            ≡ root_of
                (if same_bytes (c_str key) (c_str other) then t else get_tree (c_str other) ps))
          ((map_set fuel p (some key) (root_of t) >> map_get p (some other)) h)
  map_get-map_set fuel p ps key other t h w r hm ht nv d u out =
      Returns-and_then (map_set-snoc_pair fuel p ps key t h w r hm ht nv d out) λ x h' q.
        rw
          (map_get-get_tree p (snoc_pair ps h.next (c_str key) t) h' other q.held
            (snoc_pair-UniqueKeys ps h.next (c_str key) t u out))
          (done (ap root_of (get_tree-snoc_pair ps h.next (c_str key) (c_str other) t out)))
