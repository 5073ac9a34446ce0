-- ===== src/Array.antt =====
-- Array nodes of src/pillowtalk_impl.c: pt_array_len, pt_array_get, pt_array_remove,
-- pt_array_push_front and pt_array_push_back.
pub mod Read
pub mod Push
pub mod Items
pub mod Remove
pub mod Places
pub mod Edits
pub mod Nodes
pub mod Search
pub mod Client
use pillowtalk.Prelude.{
  ℕ, zero, suc, ◌+◌, ◌-◌, ◌%◌, ◌^◌, Bool, true, false, List, [], ◌∷◌, ◌==◌, if◌then◌else◌,
}
use pillowtalk.Libraries.{Ptr, Libraries}
use pillowtalk.Heap.{
  null, pure, crash, ◌>>=◌, ◌>>◌, load, store, free, alloc, Obj, map_node, array_node, array_elem,
  Prog,
}
use pillowtalk.Node.{guarded}
use pillowtalk.Free.{node_of, free_node}

module _ ⦃L : Libraries⦄ where
  abbrev pub len_of : Obj → Prog ℕ
  len_of (array_node q n) = pure n
  len_of (array_elem n a) = crash
  len_of _ = pure 0

  unfoldable pub array_len : Ptr → Prog ℕ
  array_len = guarded 0 len_of

  -- The TAILQ_FOREACH loop. The counter is an `int`, whose overflow is undefined.
  unfoldable pub get_loop : (idx : ℕ) → List Ptr → (index : ℕ) → Prog Ptr
  get_loop idx [] index = pure null
  get_loop idx (cur ∷ rest) index =
      let next = get_loop idx rest (index + 1) in
      if index == idx then load cur >>= node_of else if index == 2 ^ 31 - 1 then crash else next

  unfoldable pub array_get : Ptr → (idx : ℕ) → Prog Ptr
  array_get array idx =
      guarded null
        (elim [
          | array_node q n ↦ get_loop idx (L.items q) 0
          | array_elem n a ↦ crash
          | _ ↦ pure null
        ])
        array

  -- What is done with the element found: unlink it, free its node and the element, count it off.
  unfoldable pub unlink : (fuel : ℕ) → (array elem node : Ptr) → Prog (Unit {0})
  unlink fuel array elem node = do
    o ← load array
    elim o [
      | array_node q len ↦ do
        store array (array_node (L.remove elem q) len)
        free_node fuel node
        free elem
        o' ← load array
        elim o' [
          | array_node q' len' ↦ store array (array_node q' ((len' + 2 ^ 32 - 1) % 2 ^ 32))
          | _ ↦ crash
        ]
      | _ ↦ crash
    ]

  -- The TAILQ_FOREACH_SAFE loop: it ends at the first element that holds the node.
  unfoldable pub remove_loop : (fuel : ℕ) → (array node : Ptr) → List Ptr → Prog (Unit {0})
  unfolding unlink
  remove_loop fuel array node [] = pure tt
  remove_loop fuel array node (cur ∷ rest) = do
    cell ← load cur
    n ← node_of cell
    let next = remove_loop fuel array node rest
    if n == node then unlink fuel array cur n else next

  unfoldable pub array_remove : (fuel : ℕ) → (array node : Ptr) → Prog (Unit {0})
  array_remove fuel array node =
      guarded tt
        (elim [
          | array_node q n ↦ remove_loop fuel array node (L.items q)
          | array_elem n a ↦ crash
          | _ ↦ pure tt
        ])
        array

  unfoldable pub array_push_front : (array node : Ptr) → Prog (Unit {0})
  array_push_front array node =
      guarded tt
        (elim [
          | array_node q len ↦ do
            elem ← alloc (array_elem node array)
            store array (array_node (L.insert_head elem q) ((len + 1) % 2 ^ 32))
          | array_elem n a ↦ crash
          | _ ↦ pure tt
        ])
        array

  unfoldable pub array_push_back : (array node : Ptr) → Prog (Unit {0})
  array_push_back array node =
      guarded tt
        (elim [
          | array_node q len ↦ do
            elem ← alloc (array_elem node array)
            store array (array_node (L.insert_tail elem q) ((len + 1) % 2 ^ 32))
          | array_elem n a ↦ crash
          | _ ↦ pure tt
        ])
        array
