-- ===== src/Clone.antt =====
-- pt_clone of src/pillowtalk_impl.c. Fuel bounds the depth of the tree; the loops walk the list of
-- the source's items, which the calls in their bodies leave alone.
pub mod Kept
pub mod Steps
pub mod Copied
pub mod Released
use pillowtalk.Prelude.{ℕ, zero, suc, some, List, [], ◌∷◌, ◌==◌, if◌then◌else◌}
use pillowtalk.Libraries.{Bytes, Ptr, Entries, Libraries}
use pillowtalk.Heap.{
  null, out_of_fuel, pure, crash, ◌>>=◌, ◌>>◌, load, map_node, array_node, null_node, bool_node,
  int_node, double_node, string_node, key_value, array_elem, Prog,
}
use pillowtalk.Node.{map_new, array_new, null_new, bool_new, integer_new, double_new, string_new}
use pillowtalk.Array.{array_push_back}
use pillowtalk.Map.{map_set}

module _ ⦃L : Libraries⦄ where
  -- The fields of a pair, read together.
  unfoldable pub load_pair : Ptr → Prog (Bytes × Ptr)
  load_pair p = do kv ← load p; elim kv [ key_value k v m ↦ pure (k, v) | _ ↦ crash ]

  unfoldable pub load_elem : Ptr → Prog Ptr
  load_elem p = do cell ← load p; elim cell [ array_elem n a ↦ pure n | _ ↦ crash ]

  -- `rec` is pt_clone, `fuel` is for what pt_map_set may free
  unfoldable pub clone_pairs :
      (rec : Ptr → Prog Ptr) (fuel : ℕ) → (clone : Ptr) → Entries → Prog Ptr
  unfolding load_pair
  clone_pairs rec fuel clone [] = pure clone
  clone_pairs rec fuel clone ((_, p) ∷ rest) = do
    (key, value) ← load_pair p
    copy ← rec value
    map_set fuel clone (some key) copy
    clone_pairs rec fuel clone rest

  unfoldable pub clone_elems : (rec : Ptr → Prog Ptr) → (clone : Ptr) → List Ptr → Prog Ptr
  unfolding load_elem
  clone_elems rec clone [] = pure clone
  clone_elems rec clone (p ∷ rest) = do
    node ← load_elem p
    copy ← rec node
    array_push_back clone copy
    clone_elems rec clone rest

  unfoldable pub clone : ℕ → Ptr → Prog Ptr
  unfolding clone_pairs clone_elems
  clone zero root = λ _. out_of_fuel
  clone (suc f) root = if root == null then pure null else do
    o ← load root
    elim o [
      | map_node t ↦ do copy ← map_new; clone_pairs (clone f) f copy (L.entries t)
      | array_node q n ↦ do copy ← array_new; clone_elems (clone f) copy (L.items q)
      | null_node ↦ null_new
      | bool_node b ↦ bool_new b
      | int_node z ↦ integer_new z
      | double_node d ↦ double_new d
      | string_node s ↦ string_new (some s)
      | key_value k v m ↦ pure null
      | array_elem n a ↦ crash
    ]
