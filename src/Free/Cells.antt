-- ===== src/Free/Cells.antt =====
-- A heap less some of its structs, and one round of the release of a container.
use pillowtalk.Prelude.{
  ◌≡◌, ◌≢◌, refl, true, none, some, List, [], ◌∷◌, ◌++◌, arith, ◌∙◌, if◌then◌else◌,
}
use pillowtalk.Libraries.{Ptr}
use pillowtalk.Heap.{Heap, null, free, write}
use pillowtalk.Heap.Access.{free-ok, put}
use pillowtalk.Heap.Returns.{Returns, done}
use pillowtalk.Tree.Footprint.{has, Distinct, has-append, Distinct-append}

-- `h'` is `h` less the structs at `xs`.
pub record Gone {O : Type 0} (xs : List Ptr) (h h' : Heap O) : Type 0 where
  pub next : h'.next ≡ h.next
  pub room : h'.room ≡ h.room
  pub cells : (a : Ptr) → h'.cell a ≡ (if has a xs then none else h.cell a)

-- The same but at the address `m` of a container, whose own struct is still there.
pub record GoneBut {O : Type 0} (m : Ptr) (xs : List Ptr) (h h' : Heap O) : Type 0 where
  pub next : h'.next ≡ h.next
  pub room : h'.room ≡ h.room
  pub cells : (a : Ptr) → a ≢ m → h'.cell a ≡ (if has a xs then none else h.cell a)

module _ {O : Type 0} where
  pub untouched : (m : Ptr) (h : Heap O) → GoneBut m [] h h
  untouched m h = record { next = refl; room = refl; cells = λ a ne. refl }

  -- The last step: the container, or a leaf, goes itself.
  pub free_root :
      (p : Ptr) (xs : List Ptr) (h h' : Heap O) {o : O}
      → p ≢ null
      → h'.cell p ≡ some o
      → GoneBut p xs h h'
      → Returns (λ _. Gone (p ∷ xs) h) (free p h')
  unfolding write
  free_root p xs h h' ne e g =
      rw (free-ok h' ne e)
        (done (record { next = g.next; room = g.room; cells = λ a. ground (arith, g.cells a) }))

  -- One round at the first item `p` of the container `m`: the container is stored without it, the
  -- tree below it goes, then the item. `ys` is what later rounds free.
  module _ (m p : Ptr) (xs ys : List Ptr) (h : Heap O) (o : O)
      (d : Distinct (m ∷ p ∷ (xs ++ ys))) where
    abbrev pub stored : Heap O
    stored = put h m (some o)

    pub m_ne_p : m ≢ p
    m_ne_p e = ground arith

    pub p_ne_m : p ≢ m
    p_ne_m e = ground arith

    pub tree-Distinct : Distinct xs
    tree-Distinct = (Distinct-append xs ys d.1.1).0

    pub tree_kept : (a : Ptr) → has a xs ≡ true → stored.cell a ≡ h.cell a
    unfolding write
    tree_kept a i = ground (arith, has-append m xs ys)

    pub rest-Distinct : Distinct (m ∷ ys)
    rest-Distinct = (ground (arith, has-append m xs ys), (Distinct-append xs ys d.1.1).1)

    pub item_kept : stored.cell p ≡ h.cell p
    unfolding write
    item_kept = ground (arith, m_ne_p)

    module _ (h2 : Heap O) (g : Gone xs stored h2) where
      pub item_stays : h2.cell p ≡ h.cell p
      item_stays = ground (arith, g.cells p, has-append p xs ys, item_kept)

      abbrev pub freed : Heap O
      freed = put h2 p none

      pub container_stays : freed.cell m ≡ some o
      unfolding write
      container_stays = ground (arith, g.cells m, has-append m xs ys, m_ne_p)

      pub rest_kept : (a : Ptr) → has a ys ≡ true → freed.cell a ≡ h.cell a
      unfolding write
      rest_kept a i =
          let apart = (Distinct-append xs ys d.1.1).2 a in
          ground (arith, g.cells a, has-append m xs ys, has-append p xs ys, apart)

      pub round : (h' : Heap O) → GoneBut m ys freed h' → GoneBut m (p ∷ (xs ++ ys)) h h'
      unfolding write
      round h' b = record {
        next = b.next ∙ g.next;
        room = b.room ∙ g.room;
        cells = λ a ne. ground (arith, g.cells a, b.cells a ne, has-append a xs ys);
      }
