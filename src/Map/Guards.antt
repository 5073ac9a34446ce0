-- ===== src/Map/Guards.antt =====
-- The operations of maps and arrays at a node of another type.
use pillowtalk.Prelude.{ℕ, ◌≡◌, ◌≢◌, Option, some, arith}
use pillowtalk.Libraries.{Bytes, Ptr, Libraries}
use pillowtalk.Heap.{
  Heap, null, ok, Obj, PtType, pt_map, pt_array, type_of, map_node, array_node, array_elem,
}
use pillowtalk.Heap.Access.{not_null, load-ok}
use pillowtalk.Map.{map_get, map_set, map_unset}
use pillowtalk.Array.{array_len, array_get, array_push_back, array_push_front, array_remove}

module _ ⦃L : Libraries⦄ where
  -- The map operations at an address: NULL is returned and nothing is changed.
  abbrev pub MapRefuses : Ptr → ℕ → Option Bytes → Ptr → Heap Obj → Type 0
  MapRefuses p fuel key value h =
      (map_get p key h ≡ ok null h)
      × (map_set fuel p key value h ≡ ok tt h)
      × (map_unset fuel p key h ≡ ok tt h)

  abbrev pub ArrayRefuses : Ptr → ℕ → ℕ → Ptr → Heap Obj → Type 0
  ArrayRefuses p fuel idx node h =
      (array_len p h ≡ ok 0 h)
      × (array_get p idx h ≡ ok null h)
      × (array_push_back p node h ≡ ok tt h)
      × (array_push_front p node h ≡ ok tt h)
      × (array_remove fuel p node h ≡ ok tt h)

  map_refuses :
      (p : Ptr) (o : Obj) (ty : PtType) (fuel : ℕ) (key : Option Bytes) (value : Ptr) (h : Heap Obj)
      → p ≢ null
      → h.cell p ≡ some o
      → type_of o ≡ some ty
      → ty ≢ pt_map
      → MapRefuses p fuel key value h
  unfolding map_get map_set map_unset
  map_refuses p (map_node t) ty fuel key value h ne e is other = ground arith
  map_refuses p (array_elem n a) ty fuel key value h ne e is other = ground arith
  map_refuses p _ ty fuel key value h ne e is other = (
    rw (not_null ne, load-ok h ne e),
    rw (not_null ne, load-ok h ne e),
    rw (not_null ne, load-ok h ne e),
  )

  array_refuses :
      (p : Ptr) (o : Obj) (ty : PtType) (fuel idx : ℕ) (node : Ptr) (h : Heap Obj)
      → p ≢ null
      → h.cell p ≡ some o
      → type_of o ≡ some ty
      → ty ≢ pt_array
      → ArrayRefuses p fuel idx node h
  unfolding array_len array_get array_push_back array_push_front array_remove
  array_refuses p (array_node q n) ty fuel idx node h ne e is other = ground arith
  array_refuses p (array_elem n a) ty fuel idx node h ne e is other = ground arith
  array_refuses p _ ty fuel idx node h ne e is other = (
    rw (not_null ne, load-ok h ne e),
    rw (not_null ne, load-ok h ne e),
    rw (not_null ne, load-ok h ne e),
    rw (not_null ne, load-ok h ne e),
    rw (not_null ne, load-ok h ne e),
  )

  -- At a node that is no map, arrays included, the three map operations return NULL or nothing; at one
  -- that is no array, maps included, the five array operations return 0, NULL or nothing; the heap is
  -- left as it was.
  pub wrong_type :
      (m a : Ptr) (o q : Obj) (ty uy : PtType) (fuel idx : ℕ) (key : Option Bytes) (node : Ptr)
      (h : Heap Obj)
      → m ≢ null
      → h.cell m ≡ some o
      → type_of o ≡ some ty
      → ty ≢ pt_map
      → a ≢ null
      → h.cell a ≡ some q
      → type_of q ≡ some uy
      → uy ≢ pt_array
      → MapRefuses m fuel key node h × ArrayRefuses a fuel idx node h
  wrong_type m a o q ty uy fuel idx key node h m_ne m_at m_is no_map a_ne a_at a_is no_array = (
    map_refuses m o ty fuel key node h m_ne m_at m_is no_map,
    array_refuses a q uy fuel idx node h a_ne a_at a_is no_array,
  )
