-- ===== src/Fuel/Clone.antt =====
-- pt_map_set, pt_clone and pt_to_json with more fuel.
use pillowtalk.Prelude.{
  ℕ, zero, suc, inl, inr, Option, none, some, Option-cases, List, [], ◌∷◌, ◌==◌,
}
use pillowtalk.Libraries.{Bytes, Ptr, Entries, Libraries}
use pillowtalk.Heap.{null, pure, load, Prog}
use pillowtalk.Node.{c_str, map_new, array_new}
use pillowtalk.Array.{array_push_back}
use pillowtalk.Free.{value_of, free_node}
use pillowtalk.Map.{map_set, replace_value, add_pair}
use pillowtalk.Clone.{clone, clone_pairs, clone_elems, load_pair, load_elem}
use pillowtalk.Fuel.{
  Extends, Extends-same, Extends-spent, Extends-if, Extends-bind, Extends-after, Extends-obj,
}
use pillowtalk.Fuel.Free.{free_node-Extends}

module _ ⦃L : Libraries⦄ where
  replace_value-Extends :
      (f : ℕ) (pair v : Ptr) → Extends (replace_value f pair v) (replace_value (suc f) pair v)
  unfolding replace_value
  replace_value-Extends f pair v = Extends-after (load pair) _ _ λ kv.
      Extends-after (value_of kv) _ _ λ old.
        Extends-bind (free_node f old) (free_node (suc f) old) _ _ (free_node-Extends f old)
          λ _. Extends-same _

  pub map_set-Extends :
      (f : ℕ) (map : Ptr) (key : Option Bytes) (v : Ptr)
      → Extends (map_set f map key v) (map_set (suc f) map key v)
  unfolding map_set
  map_set-Extends f map none v = Extends-if (map == null) _ _ _ _ (Extends-same (pure tt)) (
      Extends-after (load map) _ _ (
        Extends-obj _ _ (λ _. Extends-same _) (λ _ _. Extends-same _) (Extends-same _)
          (λ _. Extends-same _) (λ _. Extends-same _) (λ _. Extends-same _) (λ _. Extends-same _)
          (λ _ _ _. Extends-same _) (λ _ _. Extends-same _)))
  map_set-Extends f map (some k) v = Extends-if (map == null) _ _ _ _ (Extends-same (pure tt)) (
      Extends-after (load map) _ _ (
        Extends-obj _ _
          (λ t.
            Extends-if (v == null) _ _ _ _ (Extends-same (pure tt))
              (elim (Option-cases (L.find (c_str k) t)) [
                | inl missing ↦ rw missing (Extends-same (add_pair map t k v))
                | inr (pair, found) ↦ rw found (replace_value-Extends f pair v)
              ]))
          (λ _ _. Extends-same _) (Extends-same _) (λ _. Extends-same _) (λ _. Extends-same _)
          (λ _. Extends-same _) (λ _. Extends-same _) (λ _ _ _. Extends-same _)
          (λ _ _. Extends-same _)))

  module _ (rec rec' : Ptr → Prog Ptr) (e : (p : Ptr) → Extends (rec p) (rec' p)) where
    clone_pairs-Extends :
        (f : ℕ) (c : Ptr) (xs : Entries)
        → Extends (clone_pairs rec f c xs) (clone_pairs rec' (suc f) c xs)
    unfolding clone_pairs
    clone_pairs-Extends f c [] = Extends-same (pure c)
    clone_pairs-Extends f c (x ∷ rest) = Extends-after (load_pair x.1) _ _ λ kv.
        Extends-bind (rec kv.1) (rec' kv.1) _ _ (e kv.1) λ copy.
          Extends-bind _ _ _ _ (map_set-Extends f c (some kv.0) copy)
            λ _. clone_pairs-Extends f c rest

    clone_elems-Extends :
        (c : Ptr) (xs : List Ptr) → Extends (clone_elems rec c xs) (clone_elems rec' c xs)
    unfolding clone_elems
    clone_elems-Extends c [] = Extends-same (pure c)
    clone_elems-Extends c (x ∷ rest) = Extends-after (load_elem x) _ _ λ node.
        Extends-bind (rec node) (rec' node) _ _ (e node)
          λ copy. Extends-after (array_push_back c copy) _ _ λ _. clone_elems-Extends c rest

  pub clone-Extends : (f : ℕ) (p : Ptr) → Extends (clone f p) (clone (suc f) p)
  unfolding clone
  clone-Extends zero p = Extends-spent (clone 1 p)
  clone-Extends (suc f) p = Extends-if (p == null) _ _ _ _ (Extends-same (pure null)) (
      Extends-after (load p) _ _ (
        Extends-obj _ _
          (λ t. Extends-after map_new _ _ λ copy.
            clone_pairs-Extends (clone f) (clone (suc f)) (clone-Extends f) f copy (L.entries t))
          (λ q n. Extends-after array_new _ _ λ copy.
            clone_elems-Extends (clone f) (clone (suc f)) (clone-Extends f) copy (L.items q))
          (Extends-same _) (λ _. Extends-same _) (λ _. Extends-same _) (λ _. Extends-same _)
          (λ _. Extends-same _) (λ _ _ _. Extends-same _) (λ _ _. Extends-same _)))
