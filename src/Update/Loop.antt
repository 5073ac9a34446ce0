-- ===== src/Update/Loop.antt =====
-- What holds of the root and the additions at the start of each round of pt_map_update.
use pillowtalk.Prelude.{
  ℕ, suc, ◌+◌, ◌<◌, ◌≤◌, ◌≡◌, ◌≢◌, refl, sym, subst, ◌∙◌, true, false, Bool, some, List, [], ◌∷◌,
  ◌++◌, append_assoc, same_bytes, arith,
}
use pillowtalk.Libraries.{Bytes, Ptr, Libraries}
use pillowtalk.Heap.{Heap, ok, null, Obj, map_node}
use pillowtalk.Heap.Access.{IsHeap, load-ok, used-lt}
use pillowtalk.Node.{c_str}
use pillowtalk.Tree.{
  Tree, Pairs, nothing, leaf, array, object, no_pairs, pair, entries_of, meaning, fields_of, addrs,
  pair_addrs, Holds, HoldsPairs,
}
use pillowtalk.Tree.Footprint.{has, Distinct, has-append, Distinct-append}
use pillowtalk.Tree.Fresh.{HoldsPairs-fresh}
use pillowtalk.Tree.Changed.{Changed-keeps_pairs}
use pillowtalk.Free.Gone.{size, pairs_size}
use pillowtalk.Json.Tokens.{depth, pairs_depth}
use pillowtalk.Clone.Kept.{DistinctFields, Lacks}
use pillowtalk.Map.Lookup.{get_tree, UniqueKeys}
use pillowtalk.Iterator.{head_ptr, addresses}
use pillowtalk.Iterator.Visits.{successor-append, front_out}
use pillowtalk.Update.{advance}
use pillowtalk.Update.Existing.{Round}

module _ ⦃L : Libraries⦄ where
  -- No two pairs of one map have the same key, in maps that are reached through maps.
  abbrev mutual
    pub KeyedTree : Tree → Type 0
    KeyedTree nothing = Unit
    KeyedTree (leaf p s) = Unit
    KeyedTree (array p es) = Unit
    KeyedTree (object p ps) = UniqueKeys ps × KeyedPairs ps

    pub KeyedPairs : Pairs → Type 0
    KeyedPairs no_pairs = Unit
    KeyedPairs (pair e k t ps) = KeyedTree t × KeyedPairs ps

  -- The fuel suffices for each value that is still to be merged, and what it meets is keyed.
  abbrev pub Fits : ℕ → (cur qs : Pairs) → Type 0
  Fits f cur no_pairs = Unit
  Fits f cur (pair e k t qs) =
      (size (get_tree (c_str k) cur) + size t < f)
      × KeyedTree (get_tree (c_str k) cur)
      × Fits f cur qs

  pub record Going (p a : Ptr) (f : ℕ) (before : List Ptr) (cur qs : Pairs) (tb : L.Table)
      (h : Heap Obj) : Type 0 where
    pub is_heap : IsHeap h
    pub root_held : Holds h.cell (object p cur)
    pub root_distinct : Distinct (p ∷ pair_addrs cur)
    pub unique : UniqueKeys cur
    pub a_ne : a ≢ null
    pub a_at : h.cell a ≡ some (map_node tb)
    pub links : addresses (L.entries tb) ≡ before ++ addresses (entries_of qs)
    pub links_distinct : Distinct (before ++ addresses (entries_of qs))
    pub added_held : HoldsPairs h.cell a qs
    pub added_distinct : Distinct (pair_addrs qs)
    pub apart : (b : Ptr) → has b (a ∷ pair_addrs qs) ≡ true → has b (p ∷ pair_addrs cur) ≡ false
    pub keys : DistinctFields (fields_of qs)
    pub room : pairs_size qs ≤ h.room
    pub fits : Fits f cur qs
    pub deep : pairs_depth qs < f

  Fits-frame :
      (f : ℕ) (k : Bytes) (cur now qs : Pairs)
      → ((j : Bytes) → same_bytes k j ≡ false → get_tree j now ≡ get_tree j cur)
      → Lacks k (fields_of qs)
      → Fits f cur qs
      → Fits f now qs
  unfolding meaning
  Fits-frame f k cur now no_pairs same l fits = tt
  Fits-frame f k cur now (pair e j t qs) same (ne, l) (small, keyed, fits) = (
    rw (same (c_str j) ne) small,
    subst KeyedTree (sym (same (c_str j) ne)) keyed,
    Fits-frame f k cur now qs same l fits,
  )

  -- From the round at `pair e key t qs` to the next.
  module _ (p a : Ptr) (f : ℕ) (before : List Ptr) (cur : Pairs) (e : Ptr) (key : Bytes) (t : Tree)
      (qs : Pairs) (tb : L.Table) (h h1 : Heap Obj) (fine : Bool)
      (g : Going p a f before cur (pair e key t qs) tb h)
      (x : Round p cur (c_str key) (meaning t) (suc (size t)) h fine h1) where
    not_root :
        (b : Ptr)
        → has b (a ∷ e ∷ (addrs t ++ pair_addrs qs)) ≡ true
        → has b (addrs (object p cur)) ≡ false
    unfolding addrs
    not_root b i = g.apart b i

    a_lt : a < h.next
    a_lt = used-lt h a g.is_heap g.a_at

    pub a_stays : h1.cell a ≡ some (map_node tb)
    a_stays = x.changed.other a a_lt (not_root a (ground arith)) ∙ g.a_at

    pair_stays : HoldsPairs h1.cell a (pair e key t qs)
    unfolding addrs
    pair_stays =
        Changed-keeps_pairs (object p cur) (object p x.now) a (pair e key t qs) (suc (size t)) h h1
          x.changed g.is_heap g.added_held λ b i. not_root b (ground arith)

    added_below : (b : Ptr) → has b (a ∷ pair_addrs qs) ≡ true → b < h.next
    unfolding addrs
    added_below b i = ground (
      arith,
      a_lt,
      has-append b (addrs t) (pair_addrs qs),
      HoldsPairs-fresh (pair e key t qs) h a b g.is_heap g.added_held,
    )

    still_apart :
        (b : Ptr) → has b (a ∷ pair_addrs qs) ≡ true → has b (p ∷ pair_addrs x.now) ≡ false
    unfolding addrs
    still_apart b i = ground (
      arith,
      x.changed.within b,
      added_below b i,
      has-append b (addrs t) (pair_addrs qs),
      g.apart b,
    )

    again :
        before ++ e ∷ addresses (entries_of qs) ≡ (before ++ e ∷ []) ++ addresses (entries_of qs)
    again = rw append_assoc refl

    pub advance-next : advance e h1 ≡ ok (head_ptr (addresses (entries_of qs))) h1
    unfolding advance
    advance-next =
        rw
          (
            load-ok h1 pair_stays.0 pair_stays.1,
            load-ok h1 g.a_ne a_stays,
            g.links,
            successor-append e before (addresses (entries_of qs))
                (front_out e before (addresses (entries_of qs)) g.links_distinct),
          )
          refl

    pub next-Going : Going p a f (before ++ e ∷ []) x.now qs tb h1
    unfolding meaning addrs size depth
    next-Going = record {
      is_heap = x.changed.is_heap;
      root_held = x.changed.held;
      root_distinct = x.changed.distinct;
      unique = x.unique;
      a_ne = g.a_ne;
      a_at = a_stays;
      links = g.links ∙ again;
      links_distinct = subst Distinct again g.links_distinct;
      added_held = pair_stays.3;
      added_distinct = (Distinct-append (addrs t) (pair_addrs qs) g.added_distinct.1).1;
      apart = still_apart;
      keys = g.keys.2;
      room = omega (arith, x.changed.room, g.room);
      fits = Fits-frame f (c_str key) cur x.now qs x.others g.keys.0 g.fits.2;
      deep = omega (arith, g.deep);
    }
