-- ===== src/Free.antt =====
-- pt_free_node of src/pillowtalk_impl.c, with free_map_node and free_array_node.
-- Each call and each round of a loop costs a unit of fuel.
pub mod Gone
pub mod Cells
use pillowtalk.Prelude.{ℕ, zero, suc, Bool, true, false, [], ◌∷◌, ◌==◌, if◌then◌else◌}
use pillowtalk.Libraries.{Ptr, Libraries}
use pillowtalk.Heap.{
  null, out_of_fuel, pure, crash, ◌>>=◌, ◌>>◌, load, store, free, Obj, map_node, array_node,
  key_value, array_elem, Prog,
}

module _ ⦃L : Libraries⦄ where
  -- `kv->value` and `elem->node`; another struct at that address is a fault
  unfoldable pub value_of : Obj → Prog Ptr
  value_of (key_value k v m) = pure v
  value_of _ = crash

  unfoldable pub node_of : Obj → Prog Ptr
  node_of (array_elem n a) = pure n
  node_of _ = crash

  -- `rec` is pt_free_node. The key of a pair is freed with the pair.
  unfoldable pub free_map_node : (rec : Ptr → Prog (Unit {0})) → ℕ → Ptr → Prog (Unit {0})
  unfolding value_of
  free_map_node rec zero m = λ _. out_of_fuel
  free_map_node rec (suc f) m = do
    o ← load m
    elim o [
      | map_node t ↦ elim (L.entries t) [
        | [] ↦ pure tt
        | (k, cur) ∷ _ ↦ do
          store m (map_node (L.del cur t))
          kv ← load cur
          value ← value_of kv
          rec value
          free cur
          free_map_node rec f m
      ]
      | _ ↦ crash
    ]

  unfoldable pub free_array_node : (rec : Ptr → Prog (Unit {0})) → ℕ → Ptr → Prog (Unit {0})
  unfolding node_of
  free_array_node rec zero a = λ _. out_of_fuel
  free_array_node rec (suc f) a = do
    o ← load a
    elim o [
      | array_node q len ↦ elim (L.items q) [
        | [] ↦ pure tt
        | elem ∷ _ ↦ do
          store a (array_node (L.remove elem q) len)
          cell ← load elem
          node ← node_of cell
          rec node
          free elem
          free_array_node rec f a
      ]
      | _ ↦ crash
    ]

  -- A string's buffer is freed with its node.
  unfoldable pub free_node : ℕ → Ptr → Prog (Unit {0})
  unfolding free_map_node free_array_node
  free_node zero p = λ _. out_of_fuel
  free_node (suc f) p = if p == null then pure tt else do
    o ← load p
    elim o [
      | map_node t ↦ free_map_node (free_node f) f p
      | array_node q n ↦ free_array_node (free_node f) f p
      | array_elem n a ↦ crash
      | _ ↦ pure tt
    ]
    free p
