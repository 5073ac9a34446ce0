-- ===== src/Update/Merged.antt =====
-- pt_map_update merges the additions into the root, in place.
use pillowtalk.Prelude.{
  ℕ, zero, suc, ◌<◌, refl, sym, ap, ◌∙◌, true, false, Bool, List, [], ◌∷◌, ◌++◌, arith,
}
use pillowtalk.Libraries.{Bytes, Ptr, Libraries}
use pillowtalk.Heap.{Heap, pure, ◌>>=◌, Obj, Prog}
use pillowtalk.Heap.Access.{not_null, load-ok}
use pillowtalk.Heap.Returns.{Returns, done, Returns-and_then, Returns-weaken}
use pillowtalk.Node.{c_str}
use pillowtalk.Tree.{Tree, Pairs, object, no_pairs, pair, entries_of, meaning, fields_of, addrs}
use pillowtalk.Tree.Changed.{Changed-weaken, Changed-and_then, unchanged}
use pillowtalk.Free.Gone.{size, pairs_size}
use pillowtalk.Json.Tokens.{depth}
use pillowtalk.Iterator.{head_ptr, addresses}
use pillowtalk.Iterator.Visits.{pair_count}
use pillowtalk.Value.{Fields}
use pillowtalk.Update.{advance, map_update, update_loop, load_type, first_pair}
use pillowtalk.Clone.{load_pair}
use pillowtalk.Update.Merge.{merge_fields}
use pillowtalk.Update.Round.{merge_pair-Round}
use pillowtalk.Update.Existing.{Round}
use pillowtalk.Update.Loop.{Going, advance-next, next-Going}
use pillowtalk.Update.Ready.{Ready, Merged, pair_count-le, start-Going, nested-Ready}

module _ ⦃L : Libraries⦄ where
  -- What merge_fields does with the result of a field.
  abbrev after : Pairs → Bool × Fields → ℕ × Fields
  after qs r = elim r.0 [ false ↦ (1, r.1) | true ↦ merge_fields (fields_of qs) r.1 ]

  abbrev next_round : Prog ℕ → Bool → Prog ℕ
  next_round rest false = pure 1
  next_round rest true = rest

  module _ (rec : Ptr → Ptr → Prog ℕ) (f : ℕ)
      (ih : (p a : Ptr) (ps qs : Pairs) (h : Heap Obj)
        → Ready f p a ps qs h
        → Returns (Merged p ps qs h) (rec p a h))
      (p a : Ptr) where
    -- The end of a round, and the rounds that follow.
    after-Round :
        (fine : Bool) (before : List Ptr) (k : ℕ) (cur : Pairs) (e : Ptr) (key : Bytes) (t : Tree)
        (qs : Pairs) (tb : L.Table) (h h1 : Heap Obj)
        → (g : Going p a f before cur (pair e key t qs) tb h)
        → (x : Round p cur (c_str key) (meaning t) (suc (size t)) h fine h1)
        → Returns
            (Merged p x.now qs h1)
            (update_loop rec f k p (head_ptr (addresses (entries_of qs))) h1)
        → Returns
            (Merged p cur (pair e key t qs) h)
            (next_round (advance e >>= update_loop rec f k p) fine h1)
    unfolding merge_fields meaning size
    after-Round false before k cur e key t qs tb h h1 g x rest = done (record {
      now = x.now;
      changed = Changed-weaken (omega arith) x.changed;
      unique = x.unique;
      result = ap (after qs) x.result;
    })
    after-Round true before k cur e key t qs tb h h1 g x rest =
        rw (advance-next p a f before cur e key t qs tb h h1 true g x) (
          Returns-weaken rest λ code h' m. record {
            now = m.now;
            changed = Changed-weaken (omega arith) (
                Changed-and_then (object p cur) (object p x.now) (object p m.now) (suc (size t))
                  (pairs_size qs) h h1 h' x.changed m.changed);
            unique = m.unique;
            result = ap (after qs) x.result ∙ m.result;
          })

    loop-Merged :
        (qs : Pairs) (before : List Ptr) (k : ℕ) (cur : Pairs) (tb : L.Table) (h : Heap Obj)
        → Going p a f before cur qs tb h
        → pair_count qs < k
        → Returns
            (Merged p cur qs h)
            (update_loop rec f k p (head_ptr (addresses (entries_of qs))) h)
    unfolding update_loop merge_fields meaning size depth addrs load_pair
    loop-Merged qs before zero cur tb h g lt = absurd (omega arith)
    loop-Merged no_pairs before (suc k) cur tb h g lt = done (record {
      now = cur;
      changed = unchanged (object p cur) h g.root_held g.root_distinct g.is_heap;
      unique = g.unique;
      result = refl;
    })
    loop-Merged (pair e key t qs) before (suc k) cur tb h g lt =
        let (e_ne, e_at, rt, rs) = g.added_held in
        rw (not_null e_ne, load-ok h e_ne e_at)
          (Returns-and_then
            (merge_pair-Round rec f p cur key t h g.is_heap g.root_held g.root_distinct g.unique rt
              g.keys.1 (omega (arith, g.deep)) g.fits.0 (omega (arith, g.room))
              λ p2 a2 cur2 qs2 eo et.
                Returns-weaken
                  (ih p2 a2 cur2 qs2 h
                    (nested-Ready f p a before cur e key t qs tb h p2 a2 cur2 qs2 g eo et))
                  λ code h' m. (m.now, m.changed, sym (ap (λ r. r.1) m.result)))
            λ fine h1 x. after-Round fine before k cur e key t qs tb h h1 g x (
              loop-Merged qs (before ++ e ∷ []) k x.now tb h1
                (next-Going p a f before cur e key t qs tb h h1 fine g x) (omega arith)))

  -- Where the two maps share no struct and each has distinct keys, with the memory for a copy of the
  -- additions and more fuel than the structs of both and two, pt_map_update ends without a fault; the
  -- root then stands for the merge of the two values, the code is that of the merge, and no struct
  -- outside the root has changed.
  pub map_update-Merged :
      (f : ℕ) (p a : Ptr) (ps qs : Pairs) (append : ℕ) (h : Heap Obj)
      → Ready f p a ps qs h
      → Returns (Merged p ps qs h) (map_update f p a append h)
  unfolding map_update load_type first_pair
  map_update-Merged zero p a ps qs append h r = absurd (omega (arith, r.enough))
  map_update-Merged (suc f) p a ps qs append h r =
      let (p_ne, (pt, p_at, p_i), p_rs) = r.root_held in
      let (a_ne, (at, a_at, a_i), a_rs) = r.added_held in
      rw
        (
          not_null p_ne,
          not_null a_ne,
          load-ok h p_ne p_at,
          load-ok h a_ne a_at,
          load-ok h a_ne a_at,
          a_i,
        )
        (loop-Merged (λ x y. map_update f x y append) f
          (λ p2 a2 ps2 qs2 h2 r2. map_update-Merged f p2 a2 ps2 qs2 append h2 r2) p a qs [] f ps at
          h (start-Going f p a ps qs h r) (omega (arith, r.enough, pair_count-le qs)))
