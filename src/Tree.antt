-- ===== src/Tree.antt =====
-- The tree of structs below a node, with the address of each, and when a heap holds it.
pub mod Released
pub mod Footprint
pub mod Append
pub mod LastPair
pub mod Meaning
pub mod New
pub mod Ends
pub mod Grown
pub mod Edited
pub mod Changed
pub mod Fresh
pub mod Shape
pub mod Scalars
use pillowtalk.Prelude.{
  ℕ, suc, ◌+◌, ◌%◌, ◌^◌, ◌≡◌, ◌≢◌, refl, Bool, true, false, ◌||◌, Option, none, some, List, [], ◌∷◌,
  ◌++◌, ◌==◌, arith,
}
use pillowtalk.Libraries.{Bytes, Ptr, Entries, Libraries}
use pillowtalk.Heap.{null, Obj, map_node, array_node, key_value, array_elem}
use pillowtalk.Value.{
  Scalar, obj_of, Value, Values, Fields, missing, scalar, sequence, mapping, no_values, value,
  no_fields, field,
}

module _ ⦃L : Libraries⦄ where
  mutual
    pub data Tree : Type 0 where
      nothing : Tree
      leaf : Ptr → Scalar → Tree
      array : Ptr → Elems → Tree
      object : Ptr → Pairs → Tree

    pub data Elems : Type 0 where
      no_elems : Elems
      elem : Ptr → Tree → Elems → Elems

    pub data Pairs : Type 0 where
      no_pairs : Pairs
      pair : Ptr → Bytes → Tree → Pairs → Pairs

  abbrev pub root_of : Tree → Ptr
  root_of nothing = null
  root_of (leaf p s) = p
  root_of (array p es) = p
  root_of (object p ps) = p

  abbrev pub elem_ptrs : Elems → List Ptr
  elem_ptrs no_elems = []
  elem_ptrs (elem e t es) = e ∷ elem_ptrs es

  abbrev pub entries_of : Pairs → Entries
  entries_of no_pairs = []
  entries_of (pair p k t ps) = (k, p) ∷ entries_of ps

  abbrev pub count : Elems → ℕ
  count no_elems = 0
  count (elem e t es) = suc (count es)

  -- The value that a tree stands for.
  unfoldable mutual
    pub meaning : Tree → Value
    meaning nothing = missing
    meaning (leaf p s) = scalar s
    meaning (array p es) = sequence (meanings es)
    meaning (object p ps) = mapping (fields_of ps)

    pub meanings : Elems → Values
    meanings no_elems = no_values
    meanings (elem e t es) = value (meaning t) (meanings es)

    pub fields_of : Pairs → Fields
    fields_of no_pairs = no_fields
    fields_of (pair p k t ps) = field k (meaning t) (fields_of ps)

  -- The addresses of all structs of a tree.
  unfoldable mutual
    pub addrs : Tree → List Ptr
    addrs nothing = []
    addrs (leaf p s) = p ∷ []
    addrs (array p es) = p ∷ elem_addrs es
    addrs (object p ps) = p ∷ pair_addrs ps

    pub elem_addrs : Elems → List Ptr
    elem_addrs no_elems = []
    elem_addrs (elem e t es) = e ∷ (addrs t ++ elem_addrs es)

    pub pair_addrs : Pairs → List Ptr
    pair_addrs no_pairs = []
    pair_addrs (pair p k t ps) = p ∷ (addrs t ++ pair_addrs ps)

  -- The heap's cells hold the tree: each struct at its address, linked as the tree says.
  abbrev mutual
    pub Holds : (Ptr → Option Obj) → Tree → Type 0
    Holds c nothing = Unit
    Holds c (leaf p s) = (p ≢ null) × (c p ≡ some (obj_of s))
    Holds c (array p es) =
        (p ≢ null)
        × ((q : L.Queue) × (c p ≡ some (array_node q (count es % 2 ^ 32)))
            × (L.items q ≡ elem_ptrs es))
        × HoldsElems c p es
    Holds c (object p ps) =
        (p ≢ null)
        × ((t : L.Table) × (c p ≡ some (map_node t)) × (L.entries t ≡ entries_of ps))
        × HoldsPairs c p ps

    pub HoldsElems : (Ptr → Option Obj) → Ptr → Elems → Type 0
    HoldsElems c a no_elems = Unit
    HoldsElems c a (elem e t es) =
        (e ≢ null) × (c e ≡ some (array_elem (root_of t) a)) × Holds c t × HoldsElems c a es

    pub HoldsPairs : (Ptr → Option Obj) → Ptr → Pairs → Type 0
    HoldsPairs c m no_pairs = Unit
    HoldsPairs c m (pair p k t ps) =
        (p ≢ null) × (c p ≡ some (key_value k (root_of t) m)) × Holds c t × HoldsPairs c m ps
