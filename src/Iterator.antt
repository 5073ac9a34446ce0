-- ===== src/Iterator.antt =====
-- pt_iterator and pt_iterator_next of src/pillowtalk_impl.c. The iterator struct lives outside the
-- heap; the caller releases it with free().
pub mod Visits
use pillowtalk.Prelude.{Option, none, some, List, [], ◌∷◌, ◌==◌, if◌then◌else◌}
use pillowtalk.Libraries.{Bytes, Ptr, Entries, Libraries}
use pillowtalk.Heap.{
  null, pure, crash, ◌>>=◌, load, map_node, array_node, key_value, array_elem, Prog,
}
use pillowtalk.Node.{guarded}

-- pt_iterator_type
pub data IteratorType : Type 0 where
  array_iterator map_iterator : IteratorType

-- pt_iterator_impl_t
pub record Iterator : Type 0 where
  pub type : IteratorType
  pub next_array_elem : Ptr
  pub next_map_pair : Ptr

abbrev pub head_ptr : List Ptr → Ptr
head_ptr [] = null
head_ptr (p ∷ ps) = p

abbrev pub addresses : Entries → List Ptr
addresses [] = []
addresses ((k, p) ∷ es) = p ∷ addresses es

-- What follows an item in the list that it is threaded in: TAILQ_NEXT and `hh.next`.
unfoldable pub successor : Ptr → List Ptr → Ptr
successor p [] = null
successor p (q ∷ qs) = if q == p then head_ptr qs else successor p qs

module _ ⦃L : Libraries⦄ where
  unfoldable pub next_elem : (elem array : Ptr) → Prog Ptr
  unfolding successor
  next_elem elem array = do
    o ← load array
    elim o [ array_node q n ↦ pure (successor elem (L.items q)) | _ ↦ crash ]

  unfoldable pub next_pair : (pair map : Ptr) → Prog Ptr
  unfolding successor
  next_pair pair map = do
    o ← load map
    elim o [ map_node t ↦ pure (successor pair (addresses (L.entries t))) | _ ↦ crash ]

  unfoldable pub iterator : Ptr → Prog (Option Iterator)
  iterator = guarded none (elim [
    | array_node q n ↦ pure (
        some (record {
          type = array_iterator;
          next_array_elem = head_ptr (L.items q);
          next_map_pair = null;
        }))
    | map_node t ↦ pure (
        some (record {
          type = map_iterator;
          next_array_elem = null;
          next_map_pair = head_ptr (addresses (L.entries t));
        }))
    | array_elem n a ↦ crash
    | _ ↦ pure none
  ])

  -- The node, the key if the call sets one, and the iterator afterwards.
  abbrev pub Step : Type 0
  Step = Ptr × Option Bytes × Option Iterator

  unfoldable pub iterator_next_pair : Iterator → Prog Step
  unfolding next_pair
  iterator_next_pair it = if it.next_map_pair == null then pure (null, none, some it) else do
    kv ← load it.next_map_pair
    elim kv [
      | key_value k v m ↦ do
        next ← next_pair it.next_map_pair m
        pure (v, some k, some (record it { next_map_pair = next }))
      | _ ↦ crash
    ]

  unfoldable pub iterator_next_elem : Iterator → Prog Step
  unfolding next_elem
  iterator_next_elem it = if it.next_array_elem == null then pure (null, none, some it) else do
    cell ← load it.next_array_elem
    elim cell [
      | array_elem n a ↦ do
        next ← next_elem it.next_array_elem a
        pure (n, none, some (record it { next_array_elem = next }))
      | _ ↦ crash
    ]

  unfoldable pub iterator_next : Option Iterator → Prog Step
  unfolding iterator_next_pair iterator_next_elem
  iterator_next none = pure (null, none, none)
  iterator_next (some it) = elim it.type [
    | map_iterator ↦ iterator_next_pair it
    | array_iterator ↦ iterator_next_elem it
  ]
