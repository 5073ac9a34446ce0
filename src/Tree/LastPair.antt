-- ===== src/Tree/LastPair.antt =====
-- A new pair behind the others of a map.
use pillowtalk.Prelude.{◌≡◌, ◌≢◌, refl, ap, Option, some, [], ◌∷◌, ◌++◌, append-nil, append_assoc}
use pillowtalk.Libraries.{Bytes, Ptr, Libraries}
use pillowtalk.Heap.{null, Obj, key_value}
use pillowtalk.Tree.{
  Tree, Pairs, no_pairs, pair, root_of, entries_of, addrs, pair_addrs, Holds, HoldsPairs,
}

module _ ⦃L : Libraries⦄ where
  abbrev pub snoc_pair : Pairs → Ptr → Bytes → Tree → Pairs
  snoc_pair no_pairs e k t = pair e k t no_pairs
  snoc_pair (pair e' k' t' ps) e k t = pair e' k' t' (snoc_pair ps e k t)

  pub entries_of-snoc_pair :
      (ps : Pairs) (e : Ptr) (k : Bytes) (t : Tree)
      → entries_of (snoc_pair ps e k t) ≡ entries_of ps ++ (k, e) ∷ []
  entries_of-snoc_pair no_pairs e k t = refl
  entries_of-snoc_pair (pair e' k' t' ps) e k t =
      ap (λ r. (k', e') ∷ r) (entries_of-snoc_pair ps e k t)

  pub pair_addrs-snoc_pair :
      (ps : Pairs) (e : Ptr) (k : Bytes) (t : Tree)
      → pair_addrs (snoc_pair ps e k t) ≡ pair_addrs ps ++ e ∷ addrs t
  unfolding addrs
  pair_addrs-snoc_pair no_pairs e k t = rw append-nil
  pair_addrs-snoc_pair (pair e' k' t' ps) e k t = rw (pair_addrs-snoc_pair ps e k t, append_assoc)

  pub HoldsPairs-snoc_pair :
      (c : Ptr → Option Obj) (p : Ptr) (ps : Pairs) (e : Ptr) (k : Bytes) (t : Tree)
      → HoldsPairs c p ps
      → e ≢ null
      → c e ≡ some (key_value k (root_of t) p)
      → Holds c t
      → HoldsPairs c p (snoc_pair ps e k t)
  HoldsPairs-snoc_pair c p no_pairs e k t r ne at rt = (ne, at, rt, tt)
  HoldsPairs-snoc_pair c p (pair e' k' t' ps) e k t (n', a', r', rs) ne at rt =
      (n', a', r', HoldsPairs-snoc_pair c p ps e k t rs ne at rt)
