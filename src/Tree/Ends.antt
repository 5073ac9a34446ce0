-- ===== src/Tree/Ends.antt =====
-- A sequence or a map with one more item behind the others: its size and its structs.
use pillowtalk.Prelude.{◌+◌, ◌≡◌, ap, true, ◌⊎◌, ◌∷◌, arith}
use pillowtalk.Libraries.{Bytes, Ptr, Libraries}
use pillowtalk.Tree.{
  Tree, Elems, Pairs, no_elems, elem, no_pairs, pair, addrs, elem_addrs, pair_addrs,
}
use pillowtalk.Tree.Footprint.{has, has-append}
use pillowtalk.Tree.Append.{snoc}
use pillowtalk.Tree.LastPair.{snoc_pair, pair_addrs-snoc_pair}
use pillowtalk.Free.Gone.{size, elems_size, pairs_size}
use pillowtalk.Array.Push.{elem_addrs-snoc}

module _ ⦃L : Libraries⦄ where
  pub elems_size-snoc :
      (es : Elems) (e : Ptr) (t : Tree) → elems_size (snoc es e t) ≡ elems_size es + size t + 1
  unfolding size
  elems_size-snoc no_elems e t = omega arith
  elems_size-snoc (elem e' t' es) e t = omega (arith, elems_size-snoc es e t)

  pub pairs_size-snoc_pair :
      (ps : Pairs) (e : Ptr) (k : Bytes) (t : Tree)
      → pairs_size (snoc_pair ps e k t) ≡ pairs_size ps + size t + 1
  unfolding size
  pairs_size-snoc_pair no_pairs e k t = omega arith
  pairs_size-snoc_pair (pair e' k' t' ps) e k t = omega (arith, pairs_size-snoc_pair ps e k t)

  pub has-snoc :
      (es : Elems) (e : Ptr) (t : Tree) (p b : Ptr)
      → ((has b (p ∷ elem_addrs es) ≡ true) ⊎ (has b (addrs t) ≡ true)) ⊎ (b ≡ e)
      → has b (p ∷ elem_addrs (snoc es e t)) ≡ true
  has-snoc es e t p b i = ground (
    arith,
    ap (λ xs. has b xs) (elem_addrs-snoc es e t),
    has-append b (elem_addrs es) (e ∷ addrs t),
  )

  pub has-snoc_pair :
      (ps : Pairs) (e : Ptr) (k : Bytes) (t : Tree) (p b : Ptr)
      → ((has b (p ∷ pair_addrs ps) ≡ true) ⊎ (has b (addrs t) ≡ true)) ⊎ (b ≡ e)
      → has b (p ∷ pair_addrs (snoc_pair ps e k t)) ≡ true
  has-snoc_pair ps e k t p b i = ground (
    arith,
    ap (λ xs. has b xs) (pair_addrs-snoc_pair ps e k t),
    has-append b (pair_addrs ps) (e ∷ addrs t),
  )

  pub snoc-has :
      (es : Elems) (e : Ptr) (t : Tree) (p b : Ptr)
      → has b (p ∷ elem_addrs (snoc es e t)) ≡ true
      → ((has b (p ∷ elem_addrs es) ≡ true) ⊎ (has b (addrs t) ≡ true)) ⊎ (b ≡ e)
  snoc-has es e t p b i = ground (
    arith,
    ap (λ xs. has b xs) (elem_addrs-snoc es e t),
    has-append b (elem_addrs es) (e ∷ addrs t),
  )

  pub snoc_pair-has :
      (ps : Pairs) (e : Ptr) (k : Bytes) (t : Tree) (p b : Ptr)
      → has b (p ∷ pair_addrs (snoc_pair ps e k t)) ≡ true
      → ((has b (p ∷ pair_addrs ps) ≡ true) ⊎ (has b (addrs t) ≡ true)) ⊎ (b ≡ e)
  snoc_pair-has ps e k t p b i = ground (
    arith,
    ap (λ xs. has b xs) (pair_addrs-snoc_pair ps e k t),
    has-append b (pair_addrs ps) (e ∷ addrs t),
  )
