-- ===== src/Map/Addresses.antt =====
-- The addresses of a map with a value in the place of another, and of one without a pair.
use pillowtalk.Prelude.{◌≡◌, true, ◌⊎◌, inl, inr, Bool-cases, same_bytes, arith, if◌then◌else◌}
use pillowtalk.Libraries.{Bytes, Ptr, Libraries, holds}
use pillowtalk.Tree.{Tree, Pairs, no_pairs, pair, entries_of, addrs, pair_addrs}
use pillowtalk.Tree.Footprint.{has, Distinct, Apart, has-append, Distinct-append, append-Distinct}
use pillowtalk.Map.Lookup.{get_tree}

module _ ⦃L : Libraries⦄ where
  abbrev pub set_tree : Bytes → Tree → Pairs → Pairs
  set_tree k t no_pairs = no_pairs
  set_tree k t (pair e j t' ps) =
      if same_bytes j k then pair e j t ps else pair e j t' (set_tree k t ps)

  abbrev pub drop_tree : Bytes → Pairs → Pairs
  drop_tree k no_pairs = no_pairs
  drop_tree k (pair e j t' ps) = if same_bytes j k then ps else pair e j t' (drop_tree k ps)

  pub has-get_tree :
      (k : Bytes) (ps : Pairs) (a : Ptr)
      → has a (addrs (get_tree k ps)) ≡ true
      → has a (pair_addrs ps) ≡ true
  unfolding addrs
  has-get_tree k no_pairs a i = i
  has-get_tree k (pair e j t ps) a i =
      ground (arith, has-get_tree k ps a, has-append a (addrs t) (pair_addrs ps))

  pub has_of_holds :
      (k : Bytes) (q : Ptr) (ps : Pairs)
      → holds k q (entries_of ps) ≡ true
      → has q (pair_addrs ps) ≡ true
  unfolding addrs
  has_of_holds k q no_pairs i = i
  has_of_holds k q (pair e j t ps) i =
      ground (arith, has_of_holds k q ps, has-append q (addrs t) (pair_addrs ps))

  pub set_tree-has :
      (k : Bytes) (t : Tree) (ps : Pairs) (a : Ptr)
      → has a (pair_addrs (set_tree k t ps)) ≡ true
      → (has a (pair_addrs ps) ≡ true) ⊎ (has a (addrs t) ≡ true)
  unfolding addrs
  set_tree-has k t no_pairs a i = inl i
  set_tree-has k t (pair e j t' ps) a i = ground (
    arith,
    set_tree-has k t ps a,
    has-append a (addrs t') (pair_addrs ps),
    has-append a (addrs t) (pair_addrs ps),
    has-append a (addrs t') (pair_addrs (set_tree k t ps)),
  )

  pub drop_tree-has :
      (k : Bytes) (ps : Pairs) (a : Ptr)
      → has a (pair_addrs (drop_tree k ps)) ≡ true
      → has a (pair_addrs ps) ≡ true
  unfolding addrs
  drop_tree-has k no_pairs a i = i
  drop_tree-has k (pair e j t' ps) a i = ground (
    arith,
    drop_tree-has k ps a,
    has-append a (addrs t') (pair_addrs ps),
    has-append a (addrs t') (pair_addrs (drop_tree k ps)),
  )

  pub set_tree-Distinct :
      (k : Bytes) (t : Tree) (ps : Pairs)
      → Distinct (pair_addrs ps)
      → Distinct (addrs t)
      → Apart (pair_addrs ps) (addrs t)
      → Distinct (pair_addrs (set_tree k t ps))
  unfolding addrs
  set_tree-Distinct k t no_pairs d dt apart = tt
  set_tree-Distinct k t (pair e j t' ps) (out, d) dt apart =
      let (d1, d2, ap12) = Distinct-append (addrs t') (pair_addrs ps) d in
      elim (Bool-cases (same_bytes j k)) [
        | inl same ↦ rw same (
          ground (
            arith,
            has-append e (addrs t) (pair_addrs ps),
            has-append e (addrs t') (pair_addrs ps),
            apart e,
          ),
          append-Distinct (addrs t) (pair_addrs ps) dt d2
              λ a i. ground (arith, apart a, has-append a (addrs t') (pair_addrs ps)),
        )
        | inr other ↦ rw other (
          ground (
            arith,
            has-append e (addrs t') (pair_addrs (set_tree k t ps)),
            has-append e (addrs t') (pair_addrs ps),
            apart e,
            set_tree-has k t ps e,
          ),
          append-Distinct (addrs t') (pair_addrs (set_tree k t ps)) d1
              (set_tree-Distinct k t ps d2 dt
                λ a i. ground (arith, apart a, has-append a (addrs t') (pair_addrs ps)))
              λ a i. ground (
                arith,
                set_tree-has k t ps a,
                ap12 a,
                apart a,
                has-append a (addrs t') (pair_addrs ps),
              ),
        )
      ]

  pub drop_tree-Distinct :
      (k : Bytes) (ps : Pairs) → Distinct (pair_addrs ps) → Distinct (pair_addrs (drop_tree k ps))
  unfolding addrs
  drop_tree-Distinct k no_pairs d = tt
  drop_tree-Distinct k (pair e j t' ps) (out, d) =
      let (d1, d2, ap12) = Distinct-append (addrs t') (pair_addrs ps) d in
      elim (Bool-cases (same_bytes j k)) [
        | inl same ↦ rw same d2
        | inr other ↦ rw other (
          ground (
            arith,
            has-append e (addrs t') (pair_addrs (drop_tree k ps)),
            has-append e (addrs t') (pair_addrs ps),
            drop_tree-has k ps e,
          ),
          append-Distinct (addrs t') (pair_addrs (drop_tree k ps)) d1 (drop_tree-Distinct k ps d2)
              λ a i. ground (arith, drop_tree-has k ps a, ap12 a),
        )
      ]
