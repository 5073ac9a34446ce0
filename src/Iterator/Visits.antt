-- ===== src/Iterator/Visits.antt =====
-- An iterator gives the items of its container in order, and then NULL.
use pillowtalk.Prelude.{
  ℕ, zero, suc, ◌≡◌, ◌≢◌, refl, ap, subst, ◌∙◌, true, false, Option, none, some, List, [], ◌∷◌,
  ◌++◌, append_assoc, ◌==◌, arith,
}
use pillowtalk.Libraries.{Bytes, Ptr, Libraries}
use pillowtalk.Heap.{Heap, ok, null, pure, ◌>>=◌, Obj, Prog, array_node, map_node}
use pillowtalk.Heap.Access.{not_null, load-ok}
use pillowtalk.Tree.{
  Elems, Pairs, array, object, no_elems, elem, no_pairs, pair, root_of, elem_ptrs, entries_of,
  count, addrs, elem_addrs, pair_addrs, Holds, HoldsElems, HoldsPairs,
}
use pillowtalk.Tree.Footprint.{has, Distinct, has-append, Distinct-append}
use pillowtalk.Iterator.{
  Iterator, array_iterator, map_iterator, head_ptr, addresses, successor, next_elem, next_pair,
  iterator, iterator_next,
}

pub successor-append :
    (p : Ptr) (before after : List Ptr)
    → has p before ≡ false
    → successor p (before ++ p ∷ after) ≡ head_ptr after
unfolding successor
successor-append p [] after o = ground arith
successor-append p (q ∷ qs) after o =
    let differ : (q == p) ≡ false = ground arith in
    rw differ (successor-append p qs after (ground arith))

module _ ⦃L : Libraries⦄ where
  -- `n` calls of pt_iterator_next: the nodes and keys that they give, and the iterator afterwards.
  unfoldable pub next_times :
      ℕ → Option Iterator → Prog (List (Ptr × Option Bytes) × Option Iterator)
  next_times zero it = pure ([], it)
  next_times (suc n) it = do
    (node, key, it') ← iterator_next it
    (rest, last) ← next_times n it'
    pure ((node, key) ∷ rest, last)

  abbrev pub nodes : Elems → List (Ptr × Option Bytes)
  nodes no_elems = []
  nodes (elem e t es) = (root_of t, none) ∷ nodes es

  abbrev pub items : Pairs → List (Ptr × Option Bytes)
  items no_pairs = []
  items (pair p k t ps) = (root_of t, some k) ∷ items ps

  abbrev pub pair_count : Pairs → ℕ
  pair_count no_pairs = 0
  pair_count (pair p k t ps) = suc (pair_count ps)

  abbrev pub at_elem : Ptr → Iterator
  at_elem e = record { type = array_iterator; next_array_elem = e; next_map_pair = null }

  abbrev pub at_pair : Ptr → Iterator
  at_pair p = record { type = map_iterator; next_array_elem = null; next_map_pair = p }

  has-elem_ptrs :
      (es : Elems) (a : Ptr) → has a (elem_ptrs es) ≡ true → has a (elem_addrs es) ≡ true
  unfolding addrs
  has-elem_ptrs no_elems a i = i
  has-elem_ptrs (elem e t es) a i =
      ground (arith, has-elem_ptrs es a, has-append a (addrs t) (elem_addrs es))

  elem_ptrs-Distinct : (es : Elems) → Distinct (elem_addrs es) → Distinct (elem_ptrs es)
  unfolding addrs
  elem_ptrs-Distinct no_elems d = tt
  elem_ptrs-Distinct (elem e t es) (out, d) = (
    ground (arith, has-elem_ptrs es e, has-append e (addrs t) (elem_addrs es)),
    elem_ptrs-Distinct es (Distinct-append (addrs t) (elem_addrs es) d).1,
  )

  has-addresses :
      (ps : Pairs) (a : Ptr)
      → has a (addresses (entries_of ps)) ≡ true
      → has a (pair_addrs ps) ≡ true
  unfolding addrs
  has-addresses no_pairs a i = i
  has-addresses (pair e k t ps) a i =
      ground (arith, has-addresses ps a, has-append a (addrs t) (pair_addrs ps))

  pub addresses-Distinct :
      (ps : Pairs) → Distinct (pair_addrs ps) → Distinct (addresses (entries_of ps))
  unfolding addrs
  addresses-Distinct no_pairs d = tt
  addresses-Distinct (pair e k t ps) (out, d) = (
    ground (arith, has-addresses ps e, has-append e (addrs t) (pair_addrs ps)),
    addresses-Distinct ps (Distinct-append (addrs t) (pair_addrs ps) d).1,
  )

  -- The item at the front of the rest is none of those passed.
  pub front_out :
      (p : Ptr) (before after : List Ptr) → Distinct (before ++ p ∷ after) → has p before ≡ false
  front_out p before after d = ground (arith, (Distinct-append before (p ∷ after) d).2 p)

  visit_elems :
      (es : Elems) (before : List Ptr) (p : Ptr) (q : L.Queue) (n : ℕ) (h : Heap Obj)
      → p ≢ null
      → h.cell p ≡ some (array_node q n)
      → L.items q ≡ before ++ elem_ptrs es
      → Distinct (before ++ elem_ptrs es)
      → HoldsElems h.cell p es
      → next_times (count es) (some (at_elem (head_ptr (elem_ptrs es)))) h
        ≡ ok (nodes es, some (at_elem null)) h
  unfolding next_times iterator_next next_elem
  visit_elems no_elems before p q n h ne at i d r = refl
  visit_elems (elem e t es) before p q n h ne at i d (e_ne, e_at, rt, rs) =
      let next = successor-append e before (elem_ptrs es) (front_out e before (elem_ptrs es) d) in
      let again : before ++ e ∷ elem_ptrs es ≡ (before ++ e ∷ []) ++ elem_ptrs es =
        rw append_assoc refl in
      rw
        (
          not_null e_ne,
          load-ok h e_ne e_at,
          load-ok h ne at,
          i,
          next,
          visit_elems es (before ++ e ∷ []) p q n h ne at (i ∙ again) (subst Distinct again d) rs,
        )
        refl

  visit_pairs :
      (ps : Pairs) (before : List Ptr) (p : Ptr) (tb : L.Table) (h : Heap Obj)
      → p ≢ null
      → h.cell p ≡ some (map_node tb)
      → addresses (L.entries tb) ≡ before ++ addresses (entries_of ps)
      → Distinct (before ++ addresses (entries_of ps))
      → HoldsPairs h.cell p ps
      → next_times (pair_count ps) (some (at_pair (head_ptr (addresses (entries_of ps))))) h
        ≡ ok (items ps, some (at_pair null)) h
  unfolding next_times iterator_next next_pair
  visit_pairs no_pairs before p tb h ne at i d r = refl
  visit_pairs (pair e k t ps) before p tb h ne at i d (e_ne, e_at, rt, rs) =
      let next =
        successor-append e before (addresses (entries_of ps))
          (front_out e before (addresses (entries_of ps)) d) in
      let again : before ++ e ∷ addresses (entries_of ps)
          ≡ (before ++ e ∷ []) ++ addresses (entries_of ps) =
        rw append_assoc refl in
      rw
        (
          not_null e_ne,
          load-ok h e_ne e_at,
          load-ok h ne at,
          i,
          next,
          visit_pairs ps (before ++ e ∷ []) p tb h ne at (i ∙ again) (subst Distinct again d) rs,
        )
        refl

  -- On an array as many calls of pt_iterator_next as it has elements give its nodes in order, and
  -- each later call gives NULL; nothing is changed.
  pub iterator-nodes :
      (p : Ptr) (es : Elems) (h : Heap Obj)
      → Holds h.cell (array p es)
      → Distinct (elem_addrs es)
      → ((iterator p >>= next_times (count es)) h ≡ ok (nodes es, some (at_elem null)) h)
        × (iterator_next (some (at_elem null)) h ≡ ok (null, none, some (at_elem null)) h)
  unfolding iterator iterator_next
  iterator-nodes p es h (ne, (q, at, i), rs) d = (
    rw (not_null ne, load-ok h ne at, i)
        (visit_elems es [] p q _ h ne at i (elem_ptrs-Distinct es d) rs),
    refl,
  )

  -- On a map as many calls of pt_iterator_next as it has pairs give its values with their keys in order, and each later
  -- call gives NULL; nothing is changed.
  pub iterator-items :
      (p : Ptr) (ps : Pairs) (h : Heap Obj)
      → Holds h.cell (object p ps)
      → Distinct (pair_addrs ps)
      → ((iterator p >>= next_times (pair_count ps)) h ≡ ok (items ps, some (at_pair null)) h)
        × (iterator_next (some (at_pair null)) h ≡ ok (null, none, some (at_pair null)) h)
  unfolding iterator iterator_next
  iterator-items p ps h (ne, (tb, at, i), rs) d = (
    rw (not_null ne, load-ok h ne at, i)
        (visit_pairs ps [] p tb h ne at (ap addresses i) (addresses-Distinct ps d) rs),
    refl,
  )
