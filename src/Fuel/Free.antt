-- ===== src/Fuel/Free.antt =====
-- pt_free_node with more fuel.
use pillowtalk.Prelude.{ℕ, zero, suc, inl, inr, ◌==◌}
use pillowtalk.Libraries.{Ptr, Libraries}
use pillowtalk.Heap.{null, pure, load, store, free, Prog, map_node, array_node}
use pillowtalk.Free.{free_node, free_map_node, free_array_node, value_of, node_of}
use pillowtalk.Fuel.{
  Extends, Extends-same, Extends-spent, Extends-if, Extends-bind, Extends-after, Extends-obj,
  List-cases,
}

module _ ⦃L : Libraries⦄ where
  module _ (rec rec' : Ptr → Prog (Unit {0})) (e : (p : Ptr) → Extends (rec p) (rec' p)) where
    free_map-Extends :
        (f : ℕ) (m : Ptr) → Extends (free_map_node rec f m) (free_map_node rec' (suc f) m)
    unfolding free_map_node
    free_map-Extends zero m = Extends-spent (free_map_node rec' 1 m)
    free_map-Extends (suc f) m = Extends-after (load m) _ _ (
        Extends-obj _ _
          (λ t. elim (List-cases (L.entries t)) [
            | inl none ↦ rw none (Extends-same (pure tt))
            | inr (x, rest, some) ↦ rw some (
                Extends-after (store m (map_node (L.del x.1 t))) _ _ λ _.
                  Extends-after (load x.1) _ _ λ kv. Extends-after (value_of kv) _ _ λ v.
                    Extends-bind (rec v) (rec' v) _ _ (e v)
                      λ _. Extends-after (free x.1) _ _ λ _. free_map-Extends f m)
          ])
          (λ _ _. Extends-same _) (Extends-same _) (λ _. Extends-same _) (λ _. Extends-same _)
          (λ _. Extends-same _) (λ _. Extends-same _) (λ _ _ _. Extends-same _)
          (λ _ _. Extends-same _))

    free_array-Extends :
        (f : ℕ) (a : Ptr) → Extends (free_array_node rec f a) (free_array_node rec' (suc f) a)
    unfolding free_array_node
    free_array-Extends zero a = Extends-spent (free_array_node rec' 1 a)
    free_array-Extends (suc f) a = Extends-after (load a) _ _ (
        Extends-obj _ _ (λ _. Extends-same _)
          (λ q n. elim (List-cases (L.items q)) [
            | inl none ↦ rw none (Extends-same (pure tt))
            | inr (x, rest, some) ↦ rw some (
                Extends-after (store a (array_node (L.remove x q) n)) _ _ λ _.
                  Extends-after (load x) _ _ λ cell. Extends-after (node_of cell) _ _ λ node.
                    Extends-bind (rec node) (rec' node) _ _ (e node)
                      λ _. Extends-after (free x) _ _ λ _. free_array-Extends f a)
          ])
          (Extends-same _) (λ _. Extends-same _) (λ _. Extends-same _) (λ _. Extends-same _)
          (λ _. Extends-same _) (λ _ _ _. Extends-same _) (λ _ _. Extends-same _))

  pub free_node-Extends : (f : ℕ) (p : Ptr) → Extends (free_node f p) (free_node (suc f) p)
  unfolding free_node
  free_node-Extends zero p = Extends-spent (free_node 1 p)
  free_node-Extends (suc f) p = Extends-if (p == null) _ _ _ _ (Extends-same (pure tt)) (
      Extends-after (load p) _ _ (
        Extends-obj _ _
          (λ _.
            Extends-bind _ _ _ _
              (free_map-Extends (free_node f) (free_node (suc f)) (free_node-Extends f) f p)
              λ _. Extends-same (free p))
          (λ _ _.
            Extends-bind _ _ _ _
              (free_array-Extends (free_node f) (free_node (suc f)) (free_node-Extends f) f p)
              λ _. Extends-same (free p))
          (Extends-same _) (λ _. Extends-same _) (λ _. Extends-same _) (λ _. Extends-same _)
          (λ _. Extends-same _) (λ _ _ _. Extends-same _) (λ _ _. Extends-same _)))
