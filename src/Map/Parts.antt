-- ===== src/Map/Parts.antt =====
-- How large a map is once the value at a key has been replaced, and what is in it then.
use pillowtalk.Prelude.{◌+◌, ◌≤◌, ◌≡◌, true, arith}
use pillowtalk.Libraries.{Bytes, Ptr, Libraries, has_key}
use pillowtalk.Tree.{Tree, Pairs, no_pairs, pair, entries_of, addrs, pair_addrs}
use pillowtalk.Tree.Footprint.{has, has-append}
use pillowtalk.Free.Gone.{size, pairs_size}
use pillowtalk.Map.Lookup.{get_tree}
use pillowtalk.Map.Addresses.{set_tree}

module _ ⦃L : Libraries⦄ where
  pub get_tree-size : (k : Bytes) (ps : Pairs) → size (get_tree k ps) ≤ pairs_size ps
  unfolding size
  get_tree-size k no_pairs = omega arith
  get_tree-size k (pair e j t ps) = ground (arith, get_tree-size k ps)

  -- The new value takes the room of the old one.
  pub set_tree-size :
      (k : Bytes) (t : Tree) (ps : Pairs)
      → pairs_size (set_tree k t ps) + size (get_tree k ps) ≤ pairs_size ps + size t
  unfolding size
  set_tree-size k t no_pairs = omega arith
  set_tree-size k t (pair e j t' ps) = ground (arith, set_tree-size k t ps)

  -- The new value is in the map.
  pub set_tree-puts :
      (k : Bytes) (t : Tree) (ps : Pairs) (a : Ptr)
      → has_key k (entries_of ps) ≡ true
      → has a (addrs t) ≡ true
      → has a (pair_addrs (set_tree k t ps)) ≡ true
  unfolding addrs
  set_tree-puts k t no_pairs a there i = ground arith
  set_tree-puts k t (pair e j t' ps) a there i = ground (
    arith,
    set_tree-puts k t ps a,
    has-append a (addrs t) (pair_addrs ps),
    has-append a (addrs t') (pair_addrs (set_tree k t ps)),
  )
