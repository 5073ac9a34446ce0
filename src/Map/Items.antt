-- ===== src/Map/Items.antt =====
-- The pairs of a map with the value at a key replaced, or with that pair taken out.
use pillowtalk.Prelude.{
  ◌≡◌, refl, true, false, ◌⊎◌, inl, inr, Bool-cases, Option, same_bytes, same_bytes_iff, arith,
}
use pillowtalk.Libraries.{Bytes, Ptr, Libraries, holds, without_item}
use pillowtalk.Heap.{Obj}
use pillowtalk.Tree.{Tree, Pairs, no_pairs, pair, entries_of, addrs, pair_addrs, Holds, HoldsPairs}
use pillowtalk.Tree.Footprint.{has, Distinct, has-append, Distinct-append}
use pillowtalk.Map.Lookup.{get_tree, UniqueKeys, has_key_of_holds}
use pillowtalk.Map.Addresses.{set_tree, drop_tree, has_of_holds}

module _ ⦃L : Libraries⦄ where
  pub entries_of-set_tree :
      (k : Bytes) (t : Tree) (ps : Pairs) → entries_of (set_tree k t ps) ≡ entries_of ps
  entries_of-set_tree k t no_pairs = refl
  entries_of-set_tree k t (pair e j t' ps) = ground (arith, entries_of-set_tree k t ps)

  -- The pair at the key is the one with the address that the table finds.
  pub entries_of-drop_tree :
      (k : Bytes) (q : Ptr) (ps : Pairs)
      → UniqueKeys ps
      → Distinct (pair_addrs ps)
      → holds k q (entries_of ps) ≡ true
      → entries_of (drop_tree k ps) ≡ without_item q (entries_of ps)
  unfolding addrs
  entries_of-drop_tree k q no_pairs u d i = refl
  entries_of-drop_tree k q (pair e j t ps) (o, u) (out, d) i =
      let d2 = (Distinct-append (addrs t) (pair_addrs ps) d).1 in
      ground (
        arith,
        same_bytes_iff j k,
        has_key_of_holds k q (entries_of ps),
        has_of_holds k q ps,
        has-append e (addrs t) (pair_addrs ps),
        entries_of-drop_tree k q ps u d2,
      )

  -- The value at a key is held, is no more than a part of the map, and is not the pair itself.
  pub get_tree-Holds :
      (k : Bytes) (ps : Pairs) (c : Ptr → Option Obj) (m : Ptr)
      → HoldsPairs c m ps
      → Holds c (get_tree k ps)
  get_tree-Holds k no_pairs c m r = tt
  get_tree-Holds k (pair e j t ps) c m (ne, at, rt, rs) = elim (Bool-cases (same_bytes j k)) [
    | inl same ↦ rw same rt
    | inr other ↦ rw other (get_tree-Holds k ps c m rs)
  ]

  pub get_tree-Distinct :
      (k : Bytes) (ps : Pairs) → Distinct (pair_addrs ps) → Distinct (addrs (get_tree k ps))
  unfolding addrs
  get_tree-Distinct k no_pairs d = tt
  get_tree-Distinct k (pair e j t ps) (out, d) =
      let (d1, d2, apart) = Distinct-append (addrs t) (pair_addrs ps) d in
      elim (Bool-cases (same_bytes j k)) [
        | inl same ↦ rw same d1
        | inr other ↦ rw other (get_tree-Distinct k ps d2)
      ]

  pub found_apart :
      (k : Bytes) (q : Ptr) (ps : Pairs)
      → UniqueKeys ps
      → Distinct (pair_addrs ps)
      → holds k q (entries_of ps) ≡ true
      → has q (addrs (get_tree k ps)) ≡ false
  unfolding addrs
  found_apart k q no_pairs u d i = refl
  found_apart k q (pair e j t ps) (o, u) (out, d) i =
      let (d1, d2, apart) = Distinct-append (addrs t) (pair_addrs ps) d in
      ground (
        arith,
        same_bytes_iff j k,
        has_key_of_holds k q (entries_of ps),
        found_apart k q ps u d2,
        has-append e (addrs t) (pair_addrs ps),
      )

  -- A struct of the map stays in it, or belongs to the old value.
  pub set_tree-kept :
      (k : Bytes) (t : Tree) (ps : Pairs) (a : Ptr)
      → has a (pair_addrs ps) ≡ true
      → (has a (pair_addrs (set_tree k t ps)) ≡ true) ⊎ (has a (addrs (get_tree k ps)) ≡ true)
  unfolding addrs
  set_tree-kept k t no_pairs a i = inl i
  set_tree-kept k t (pair e j t' ps) a i = ground (
    arith,
    set_tree-kept k t ps a,
    has-append a (addrs t') (pair_addrs ps),
    has-append a (addrs t) (pair_addrs ps),
    has-append a (addrs t') (pair_addrs (set_tree k t ps)),
  )

  -- A struct of the map stays in it, or is the pair or belongs to its value.
  pub drop_tree-kept :
      (k : Bytes) (q : Ptr) (ps : Pairs) (a : Ptr)
      → UniqueKeys ps
      → holds k q (entries_of ps) ≡ true
      → has a (pair_addrs ps) ≡ true
      → ((has a (pair_addrs (drop_tree k ps)) ≡ true) ⊎ (has a (addrs (get_tree k ps)) ≡ true))
        ⊎ (a ≡ q)
  unfolding addrs
  drop_tree-kept k q no_pairs a u i m = inl (inl m)
  drop_tree-kept k q (pair e j t' ps) a (o, u) i m = ground (
    arith,
    same_bytes_iff j k,
    has_key_of_holds k q (entries_of ps),
    drop_tree-kept k q ps a u,
    has-append a (addrs t') (pair_addrs ps),
    has-append a (addrs t') (pair_addrs (drop_tree k ps)),
  )
