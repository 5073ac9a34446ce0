-- ===== src/Update/Ready.antt =====
-- When two maps may be merged, and what holds of them as the merge begins.
use pillowtalk.Prelude.{
  ℕ, suc, ◌+◌, ◌<◌, ◌≤◌, ◌≡◌, ap, subst, true, false, Bool-cases, inl, inr, List, [], ◌∷◌,
  same_bytes, arith,
}
use pillowtalk.Libraries.{Bytes, Ptr, Libraries}
use pillowtalk.Heap.{Heap, Obj}
use pillowtalk.Heap.Access.{IsHeap}
use pillowtalk.Node.{c_str}
use pillowtalk.Tree.{
  Tree, Pairs, object, no_pairs, pair, meaning, fields_of, addrs, pair_addrs, Holds,
}
use pillowtalk.Tree.Footprint.{has, Distinct, has-append, Distinct-append}
use pillowtalk.Tree.Changed.{Changed}
use pillowtalk.Free.Gone.{size, pairs_size}
use pillowtalk.Json.Depth.{pairs_depth-le}
use pillowtalk.Clone.Kept.{DistinctFields, DistinctKeys}
use pillowtalk.Map.Lookup.{get_tree, UniqueKeys}
use pillowtalk.Map.Parts.{get_tree-size}
use pillowtalk.Map.Items.{get_tree-Holds, get_tree-Distinct}
use pillowtalk.Map.Addresses.{has-get_tree}
use pillowtalk.Iterator.{addresses}
use pillowtalk.Iterator.Visits.{pair_count, addresses-Distinct}
use pillowtalk.Update.Merge.{merge_fields}
use pillowtalk.Update.Loop.{KeyedTree, KeyedPairs, Fits, Going}

module _ ⦃L : Libraries⦄ where
  -- Two maps that share no struct, and enough of memory and fuel to merge the one at `a` into the one
  -- at `p`.
  pub record Ready (f : ℕ) (p a : Ptr) (ps qs : Pairs) (h : Heap Obj) : Type 0 where
    pub is_heap : IsHeap h
    pub root_held : Holds h.cell (object p ps)
    pub root_distinct : Distinct (p ∷ pair_addrs ps)
    pub keyed : KeyedTree (object p ps)
    pub added_held : Holds h.cell (object a qs)
    pub added_distinct : Distinct (pair_addrs qs)
    pub apart : (b : Ptr) → has b (a ∷ pair_addrs qs) ≡ true → has b (p ∷ pair_addrs ps) ≡ false
    pub keys : DistinctFields (fields_of qs)
    pub room : pairs_size qs ≤ h.room
    pub enough : pairs_size ps + pairs_size qs + 2 < f

  -- The root stands for the merged value, and the code is that of the merge.
  pub record Merged (p : Ptr) (ps qs : Pairs) (h : Heap Obj) (code : ℕ) (h' : Heap Obj)
      : Type 0 where
    pub now : Pairs
    pub changed : Changed (object p ps) (object p now) (pairs_size qs) h h'
    pub unique : UniqueKeys now
    pub result : merge_fields (fields_of qs) (fields_of ps) ≡ (code, fields_of now)

  pub pair_count-le : (ps : Pairs) → pair_count ps ≤ pairs_size ps
  unfolding size
  pair_count-le no_pairs = omega arith
  pair_count-le (pair e k t ps) = omega (arith, pair_count-le ps)

  pub get_tree-KeyedTree : (k : Bytes) (ps : Pairs) → KeyedPairs ps → KeyedTree (get_tree k ps)
  get_tree-KeyedTree k no_pairs u = tt
  get_tree-KeyedTree k (pair e j t ps) (u, us) = elim (Bool-cases (same_bytes j k)) [
    | inl same ↦ rw same u
    | inr other ↦ rw other (get_tree-KeyedTree k ps us)
  ]

  pub start-Fits :
      (f : ℕ) (ps qs : Pairs) → KeyedPairs ps → pairs_size ps + pairs_size qs < f → Fits f ps qs
  unfolding size
  start-Fits f ps no_pairs u lt = tt
  start-Fits f ps (pair e k t qs) u lt = (
    omega (arith, get_tree-size (c_str k) ps),
    get_tree-KeyedTree (c_str k) ps u,
    start-Fits f ps qs u (omega arith),
  )

  pub start-Going :
      (f : ℕ) (p a : Ptr) (ps qs : Pairs) (h : Heap Obj) (r : Ready (suc f) p a ps qs h)
      → Going p a f [] ps qs r.added_held.1.0 h
  start-Going f p a ps qs h r = record {
    is_heap = r.is_heap;
    root_held = r.root_held;
    root_distinct = r.root_distinct;
    unique = r.keyed.0;
    a_ne = r.added_held.0;
    a_at = r.added_held.1.1;
    links = ap addresses r.added_held.1.2;
    links_distinct = addresses-Distinct qs r.added_distinct;
    added_held = r.added_held.2;
    added_distinct = r.added_distinct;
    apart = r.apart;
    keys = r.keys;
    room = r.room;
    fits = start-Fits f ps qs r.keyed.1 (omega (arith, r.enough));
    deep = omega (arith, r.enough, pairs_depth-le qs);
  }

  -- The nested call is ready too.
  pub nested-Ready :
      (f : ℕ) (p a : Ptr) (before : List Ptr) (cur : Pairs) (e : Ptr) (key : Bytes) (t : Tree)
      (qs : Pairs) (tb : L.Table) (h : Heap Obj) (p2 a2 : Ptr) (cur2 qs2 : Pairs)
      → Going p a f before cur (pair e key t qs) tb h
      → get_tree (c_str key) cur ≡ object p2 cur2
      → t ≡ object a2 qs2
      → Ready f p2 a2 cur2 qs2 h
  unfolding meaning addrs size
  nested-Ready f p a before cur e key t qs tb h p2 a2 cur2 qs2 g eo et =
      let eo' : addrs (get_tree (c_str key) cur) ≡ p2 ∷ pair_addrs cur2 = ap addrs eo in
      let et' : addrs t ≡ a2 ∷ pair_addrs qs2 = ap addrs et in
      record {
        is_heap = g.is_heap;
        root_held = subst (Holds h.cell) eo (get_tree-Holds (c_str key) cur h.cell p g.root_held.2);
        root_distinct = subst Distinct eo' (get_tree-Distinct (c_str key) cur g.root_distinct.1);
        keyed = subst KeyedTree eo g.fits.1;
        added_held = subst (Holds h.cell) et g.added_held.2;
        added_distinct =
            (subst Distinct et' (Distinct-append (addrs t) (pair_addrs qs) g.added_distinct.1).0).1;
        apart = λ b i. ground (
          arith,
          has-get_tree (c_str key) cur b,
          ap (λ xs. has b xs) eo',
          ap (λ xs. has b xs) et',
          has-append b (addrs t) (pair_addrs qs),
          g.apart b,
        );
        keys = (subst (λ s. DistinctKeys (meaning s)) et g.keys.1);
        room = omega (arith, g.room, ap size et);
        enough = omega (arith, g.fits.0, ap size et, ap size eo);
      }
