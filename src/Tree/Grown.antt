-- ===== src/Tree/Grown.antt =====
-- A new container into which a newer tree is put is a new tree.
use pillowtalk.Prelude.{
  none, false, ℕ, suc, ◌+◌, ◌<◌, ◌≤◌, ◌≡◌, ◌≢◌, true, false, ◌⊎◌, some, ◌++◌, arith,
}
use pillowtalk.Libraries.{Bytes, Ptr, Libraries, has_key}
use pillowtalk.Heap.{Heap, null, Obj}
use pillowtalk.Heap.Returns.{Returns, Returns-weaken}
use pillowtalk.Node.{c_str}
use pillowtalk.Tree.{Tree, Elems, Pairs, array, object, root_of, entries_of, addrs}
use pillowtalk.Tree.Footprint.{has, Distinct, append-Distinct}
use pillowtalk.Tree.Append.{snoc}
use pillowtalk.Tree.LastPair.{snoc_pair}
use pillowtalk.Array.{array_push_back}
use pillowtalk.Free.Gone.{size}
use pillowtalk.Array.Push.{PushedTo, array_push_back-snoc}
use pillowtalk.Map.{map_set}
use pillowtalk.Map.Insert.{map_set-snoc_pair}
use pillowtalk.Tree.New.{NewTree, NewTree-keeps, Holds-below}
use pillowtalk.Tree.Ends.{
  elems_size-snoc, pairs_size-snoc_pair, has-snoc, has-snoc_pair, snoc-has, snoc_pair-has,
}

module _ ⦃L : Libraries⦄ where
  -- A container `a` of new structs and a tree `t` that is newer still.
  module _ (h h1 h2 : Heap Obj) (a t : Tree) (n m : ℕ) (na : NewTree h a n h1)
      (nt : NewTree h1 t m h2) where
    both-Distinct : Distinct (addrs a ++ addrs t)
    both-Distinct =
        append-Distinct (addrs a) (addrs t) na.distinct nt.distinct
          λ b i. ground (arith, nt.fresh b, Holds-below a h1 b na.is_heap na.held)

    -- `a'` is `a` with `t` put into it.
    module _ (a' : Tree) (p : Ptr) (inside : has p (addrs a) ≡ true)
        (all : (b : Ptr)
          → has b (addrs a') ≡ true
          → ((has b (addrs a) ≡ true) ⊎ (has b (addrs t) ≡ true)) ⊎ (b ≡ h2.next))
        (whole : (b : Ptr)
          → ((has b (addrs a) ≡ true) ⊎ (has b (addrs t) ≡ true)) ⊎ (b ≡ h2.next)
          → has b (addrs a') ≡ true)
        (bound : size a' ≡ size a + size t + 1) (h3 : Heap Obj) (pushed : PushedTo a' p h2 h3) where
      newer : (b : Ptr) → h.next ≤ b → has b (addrs a') ≡ false → h3.cell b ≡ none
      newer b le o = ground (arith, na.lost b, nt.lost b, nt.same b, whole b, pushed.other b)

      pushed-NewTree : NewTree h a' (suc (n + m)) h3
      pushed-NewTree = record {
        held = pushed.held;
        distinct = pushed.distinct;
        fresh = λ b i. ground (arith, all b i, na.fresh b, nt.fresh b, na.grows, nt.grows);
        same = λ b lt.
            ground (arith, pushed.other b, na.same b, nt.same b, na.fresh p, na.grows, nt.grows);
        is_heap = pushed.is_heap;
        room = omega (arith, na.room, nt.room, pushed.room);
        grows = omega (arith, na.grows, nt.grows, pushed.next);
        lost = newer;
        small = omega (arith, na.small, nt.small);
      }

  module _ (h h1 h2 : Heap Obj) (p : Ptr) (t : Tree) (n m : ℕ) (nt : NewTree h1 t m h2)
      (r : 0 < h2.room) where
    -- pt_array_push_back of a newer tree.
    pub push-NewTree :
        (es : Elems)
        → NewTree h (array p es) n h1
        → Returns
            (λ _ h3. NewTree h (array p (snoc es h2.next t)) (suc (n + m)) h3)
            (array_push_back p (root_of t) h2)
    unfolding addrs size
    push-NewTree es na =
        Returns-weaken
          (array_push_back-snoc p es t h2 nt.is_heap r
            (NewTree-keeps h1 h2 t m (array p es) na.is_heap nt na.held) nt.held
            (both-Distinct h h1 h2 (array p es) t n m na nt))
          (λ _ h3 pushed.
            pushed-NewTree h h1 h2 (array p es) t n m na nt (array p (snoc es h2.next t)) p
              (ground arith) (λ b i. snoc-has es h2.next t p b i)
              (λ b i. has-snoc es h2.next t p b i) (omega (arith, elems_size-snoc es h2.next t)) h3
              pushed)

    -- pt_map_set of a newer tree at a key that the map does not have.
    pub insert-NewTree :
        (fuel : ℕ) (ps : Pairs) (key : Bytes)
        → NewTree h (object p ps) n h1
        → root_of t ≢ null
        → has_key (c_str key) (entries_of ps) ≡ false
        → Returns
            (λ _ h3. NewTree h (object p (snoc_pair ps h2.next (c_str key) t)) (suc (n + m)) h3)
            (map_set fuel p (some key) (root_of t) h2)
    unfolding addrs size
    insert-NewTree fuel ps key na nv out =
        Returns-weaken
          (map_set-snoc_pair fuel p ps key t h2 nt.is_heap r
            (NewTree-keeps h1 h2 t m (object p ps) na.is_heap nt na.held) nt.held nv
            (both-Distinct h h1 h2 (object p ps) t n m na nt) out)
          (λ _ h3 pushed.
            pushed-NewTree h h1 h2 (object p ps) t n m na nt
              (object p (snoc_pair ps h2.next (c_str key) t)) p (ground arith)
              (λ b i. snoc_pair-has ps h2.next (c_str key) t p b i)
              (λ b i. has-snoc_pair ps h2.next (c_str key) t p b i)
              (omega (arith, pairs_size-snoc_pair ps h2.next (c_str key) t)) h3 pushed)
