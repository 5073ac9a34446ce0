-- ===== src/Map/Dropped.antt =====
-- A heap that holds the pairs of a map but one.
use pillowtalk.Prelude.{
  ◌≡◌, ◌≢◌, ◌∙◌, true, false, inl, inr, Bool-cases, Option, same_bytes, same_bytes_iff, arith,
}
use pillowtalk.Libraries.{Bytes, Ptr, Libraries, holds}
use pillowtalk.Heap.{Obj}
use pillowtalk.Tree.{Pairs, no_pairs, pair, entries_of, addrs, pair_addrs, HoldsPairs}
use pillowtalk.Tree.Footprint.{
  has, Distinct, has-append, Distinct-append, Holds-frame, HoldsPairs-frame,
}
use pillowtalk.Map.Lookup.{get_tree, UniqueKeys, has_key_of_holds}
use pillowtalk.Map.Addresses.{drop_tree, has-get_tree, has_of_holds}

module _ ⦃L : Libraries⦄ where
  pub drop_tree-Holds :
      (ps : Pairs) (c d : Ptr → Option Obj) (m : Ptr) (k : Bytes) (q : Ptr)
      → UniqueKeys ps
      → Distinct (pair_addrs ps)
      → HoldsPairs c m ps
      → holds k q (entries_of ps) ≡ true
      → ((a : Ptr)
          → has a (pair_addrs ps) ≡ true
          → has a (addrs (get_tree k ps)) ≡ false
          → a ≢ q
          → d a ≡ c a)
      → HoldsPairs d m (drop_tree k ps)
  unfolding addrs
  drop_tree-Holds no_pairs c d m k q u dp r i same = tt
  drop_tree-Holds (pair e j t' ps) c d m k q (o, u) (out, dp) (ne, at', rt, rs) i same =
      let (d1, d2, apart) = Distinct-append (addrs t') (pair_addrs ps) dp in
      elim (Bool-cases (same_bytes j k)) [
        | inl eq ↦
            let jk = (same_bytes_iff j k).0 eq in
            let eq_q : e ≡ q = ground (arith, has_key_of_holds k q (entries_of ps)) in
            rw eq (
              HoldsPairs-frame ps m c d
                (λ a i2.
                  same a (ground (arith, has-append a (addrs t') (pair_addrs ps)))
                    (rw eq (ground (arith, apart a)))
                    (λ x. ground (arith, has-append e (addrs t') (pair_addrs ps))))
                rs)
        | inr ne_k ↦
            let in_ps : has q (pair_addrs ps) ≡ true = has_of_holds k q ps (ground arith) in
            rw ne_k (
              ne,
              same e (ground arith)
                    (rw ne_k (
                      ground (arith, has-get_tree k ps e, has-append e (addrs t') (pair_addrs ps))))
                    (λ x. ground (arith, has-append e (addrs t') (pair_addrs ps)))
                  ∙ at',
              Holds-frame t' c d
                  (λ a i2.
                    same a (ground (arith, has-append a (addrs t') (pair_addrs ps)))
                      (rw ne_k (ground (arith, has-get_tree k ps a, apart a)))
                      (λ x. ground (arith, apart a)))
                  rt,
              drop_tree-Holds ps c d m k q u d2 rs (ground arith) λ a i2 i3 nq.
                  same a (ground (arith, has-append a (addrs t') (pair_addrs ps))) (rw ne_k i3) nq,
            )
      ]
