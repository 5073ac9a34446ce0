-- ===== src/Map.antt =====
-- Map nodes of src/pillowtalk_impl.c: pt_map_get, pt_map_set and pt_map_unset.
pub mod Guards
pub mod GetSet
pub mod Insert
pub mod Lookup
pub mod Items
pub mod Parts
pub mod Replace
pub mod Same
pub mod Remove
pub mod Put
pub mod Nested
pub mod Edits
pub mod Addresses
pub mod Fields
pub mod Client
pub mod Dropped
use pillowtalk.Prelude.{ℕ, Bool, true, false, Option, none, some, ◌==◌, if◌then◌else◌, ◌||◌}
use pillowtalk.Libraries.{Bytes, Ptr, Libraries}
use pillowtalk.Heap.{
  null, pure, crash, ◌>>=◌, ◌>>◌, load, store, free, alloc, Obj, map_node, key_value, array_elem,
  Prog,
}
use pillowtalk.Node.{c_str, guarded}
use pillowtalk.Free.{value_of, free_node}

module _ ⦃L : Libraries⦄ where
  abbrev pub find_value : Bytes → Option Ptr → Prog Ptr
  find_value k none = pure null
  find_value k (some pair) = load pair >>= value_of

  unfoldable pub map_get : Ptr → Option Bytes → Prog Ptr
  unfolding value_of
  map_get map key =
      guarded null
        (elim [
          | map_node t ↦ elim key [ none ↦ pure null | some k ↦ find_value k (L.find (c_str k) t) ]
          | array_elem n a ↦ crash
          | _ ↦ pure null
        ])
        map

  -- The old value is freed before the new one takes its place.
  unfoldable pub replace_value : (fuel : ℕ) → (pair value : Ptr) → Prog (Unit {0})
  replace_value fuel pair value = do
    kv ← load pair
    old ← value_of kv
    free_node fuel old
    kv' ← load pair
    elim kv' [ key_value k v m ↦ store pair (key_value k value m) | _ ↦ crash ]

  unfoldable pub add_pair : (map : Ptr) → L.Table → Bytes → (value : Ptr) → Prog (Unit {0})
  add_pair map t key value = do
    pair ← alloc (key_value (c_str key) value map)
    store map (map_node (L.add_keyptr (c_str key) pair t))

  unfoldable pub map_set : (fuel : ℕ) → (map : Ptr) → Option Bytes → (value : Ptr) → Prog (Unit {0})
  unfolding replace_value add_pair
  map_set fuel map key value =
      guarded tt
        (elim [
          | map_node t ↦ elim key [
            | none ↦ pure tt
            | some k ↦ if value == null then pure tt else elim (L.find (c_str k) t) [
              | some pair ↦ replace_value fuel pair value
              | none ↦ add_pair map t k value
            ]
          ]
          | array_elem n a ↦ crash
          | _ ↦ pure tt
        ])
        map

  -- Unlike pt_map_set this one does not test the key: strlen(NULL) is undefined.
  unfoldable pub map_unset : (fuel : ℕ) → (map : Ptr) → Option Bytes → Prog (Unit {0})
  map_unset fuel map key =
      guarded tt
        (elim [
          | map_node t ↦ elim key [
            | none ↦ crash
            | some k ↦ elim (L.find (c_str k) t) [
              | none ↦ pure tt
              | some pair ↦ do
                store map (map_node (L.del pair t))
                kv ← load pair
                value ← value_of kv
                free_node fuel value
                free pair
            ]
          ]
          | array_elem n a ↦ crash
          | _ ↦ pure tt
        ])
        map
