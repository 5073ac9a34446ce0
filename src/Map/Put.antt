-- ===== src/Map/Put.antt =====
-- pt_map_set of a new tree, whether the map has the key or not.
use pillowtalk.Prelude.{
  none, ℕ, suc, ◌<◌, ◌≤◌, ◌≡◌, ◌≢◌, ap, ◌∙◌, true, false, ◌⊎◌, inl, inr, Bool-cases, some, ◌∷◌,
  ◌++◌, arith,
}
use pillowtalk.Libraries.{Bytes, Ptr, Libraries, has_key}
use pillowtalk.Heap.{Heap, null, Obj}
use pillowtalk.Heap.Access.{IsHeap}
use pillowtalk.Heap.Returns.{Returns, Returns-weaken}
use pillowtalk.Node.{c_str}
use pillowtalk.Tree.{Tree, Pairs, object, root_of, entries_of, addrs, pair_addrs, Holds}
use pillowtalk.Tree.Footprint.{has, Distinct, append-Distinct, has-append}
use pillowtalk.Tree.LastPair.{snoc_pair, pair_addrs-snoc_pair}
use pillowtalk.Tree.New.{NewTree, NewTree-keeps, Holds-below}
use pillowtalk.Tree.Edited.{Edited}
use pillowtalk.Tree.Changed.{Changed}
use pillowtalk.Free.Gone.{size}
use pillowtalk.Array.Push.{PushedTo}
use pillowtalk.Map.{map_set}
use pillowtalk.Map.Insert.{map_set-snoc_pair}
use pillowtalk.Map.Lookup.{get_tree, UniqueKeys}
use pillowtalk.Map.Addresses.{set_tree, set_tree-has}
use pillowtalk.Map.Parts.{set_tree-size, set_tree-puts}
use pillowtalk.Tree.Ends.{has-snoc_pair, pairs_size-snoc_pair}
use pillowtalk.Map.Replace.{map_set-set_tree}
use pillowtalk.Map.Fields.{put_tree}

module _ ⦃L : Libraries⦄ where
  -- A tree `t` that is newer than the heap `h` of the map is put into it.
  module _ (fuel : ℕ) (p : Ptr) (ps : Pairs) (key : Bytes) (t : Tree) (n : ℕ) (h h1 : Heap Obj)
      (w : IsHeap h) (hm : Holds h.cell (object p ps)) (d : Distinct (p ∷ pair_addrs ps))
      (u : UniqueKeys ps) (nt : NewTree h t n h1) (nv : root_of t ≢ null) (room : 0 < h1.room)
      (enough : size (get_tree (c_str key) ps) < fuel) where
    map_stays : Holds h1.cell (object p ps)
    map_stays = NewTree-keeps h h1 t n (object p ps) w nt hm

    old_below : (b : Ptr) → has b (p ∷ pair_addrs ps) ≡ true → b < h.next
    unfolding addrs
    old_below b i = Holds-below (object p ps) h b w hm i

    all-Distinct : Distinct (p ∷ (pair_addrs ps ++ addrs t))
    all-Distinct =
        append-Distinct (p ∷ pair_addrs ps) (addrs t) d nt.distinct
          λ b i. ground (arith, old_below b, nt.fresh b)

    old_same : (b : Ptr) (h2 : Heap Obj) → b < h.next → h2.cell b ≡ h1.cell b → h2.cell b ≡ h.cell b
    old_same b h2 lt e = e ∙ nt.same b lt

    replaced_lost :
        (h2 : Heap Obj)
        → has_key (c_str key) (entries_of ps) ≡ true
        → Edited (object p ps) (object p (set_tree (c_str key) t ps)) h1 h2
        → (b : Ptr) → (has b (addrs (object p ps)) ≡ true) ⊎ (h.next ≤ b)
        → has b (addrs (object p (set_tree (c_str key) t ps))) ≡ false
        → h2.cell b ≡ none
    unfolding addrs
    replaced_lost h2 there x b i o = ground (
      arith,
      x.freed b,
      nt.lost b,
      x.other b,
      set_tree-puts (c_str key) t ps b there,
      x.is_heap.unused b,
      x.next,
    )

    replaced-Changed :
        (h2 : Heap Obj)
        → has_key (c_str key) (entries_of ps) ≡ true
        → Edited (object p ps) (object p (set_tree (c_str key) t ps)) h1 h2
        → Changed (object p ps) (object p (set_tree (c_str key) t ps)) (suc n) h h2
    unfolding addrs size
    replaced-Changed h2 there x = record {
      held = x.held;
      distinct = x.distinct;
      is_heap = x.is_heap;
      within = λ b i. ground (arith, set_tree-has (c_str key) t ps b, nt.fresh b);
      other = λ b lt o. old_same b h2 lt (x.other b o);
      lost = λ b i o. replaced_lost h2 there x b i o;
      grows = omega (arith, x.next, nt.grows);
      room = omega (arith, x.room, nt.room);
      small = omega (arith, set_tree-size (c_str key) t ps, nt.small);
    }

    added-Changed :
        (h2 : Heap Obj)
        → PushedTo (object p (snoc_pair ps h1.next (c_str key) t)) p h1 h2
        → Changed (object p ps) (object p (snoc_pair ps h1.next (c_str key) t)) (suc n) h h2
    unfolding addrs size
    added-Changed h2 x = record {
      held = x.held;
      distinct = x.distinct;
      is_heap = x.is_heap;
      within = λ b i. ground (
        arith,
        ap (λ xs. has b xs) (pair_addrs-snoc_pair ps h1.next (c_str key) t),
        has-append b (pair_addrs ps) (h1.next ∷ addrs t),
        nt.fresh b,
        nt.grows,
      );
      other = λ b lt o. old_same b h2 lt (x.other b (ground arith) (omega (arith, nt.grows)));
      lost = λ b i o. ground (
        arith,
        has-snoc_pair ps h1.next (c_str key) t p b,
        nt.lost b,
        x.other b,
        x.is_heap.unused b,
        x.next,
      );
      grows = omega (arith, x.next, nt.grows);
      room = omega (arith, x.room, nt.room);
      small = omega (arith, pairs_size-snoc_pair ps h1.next (c_str key) t, nt.small);
    }

    pub map_set-put_tree :
        Returns
          (λ _ h2.
            Changed (object p ps) (object p (put_tree h1.next (c_str key) t ps)) (suc n) h h2)
          (map_set fuel p (some key) (root_of t) h1)
    map_set-put_tree = elim (Bool-cases (has_key (c_str key) (entries_of ps))) [
      | inl there ↦ rw there (
          Returns-weaken
            (map_set-set_tree fuel p ps key t h1 nt.is_heap map_stays nt.held nv all-Distinct u
              there enough)
            λ _ h2 x. replaced-Changed h2 there x)
      | inr absent ↦ rw absent (
          Returns-weaken
            (map_set-snoc_pair fuel p ps key t h1 nt.is_heap room map_stays nt.held nv all-Distinct
              absent)
            λ _ h2 x. added-Changed h2 x)
    ]
