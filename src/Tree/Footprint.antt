-- ===== src/Tree/Footprint.antt =====
-- The addresses of a tree as a set: a tree stays held where its own addresses are left alone.
use pillowtalk.Prelude.{
  ◌≡◌, ◌≢◌, refl, Bool, true, false, ◌||◌, Option, List, [], ◌∷◌, ◌++◌, ◌==◌, arith,
}
use pillowtalk.Libraries.{Ptr, Libraries}
use pillowtalk.Heap.{null, Obj}
use pillowtalk.Tree.{
  Tree, Elems, Pairs, nothing, leaf, array, object, no_elems, elem, no_pairs, pair, root_of, addrs,
  elem_addrs, pair_addrs, Holds, HoldsElems, HoldsPairs,
}

abbrev pub has : Ptr → List Ptr → Bool
has a [] = false
has a (p ∷ ps) = (p == a) || has a ps

abbrev pub Distinct : List Ptr → Type 0
Distinct [] = Unit
Distinct (p ∷ ps) = (has p ps ≡ false) × Distinct ps

-- No address of `xs` is one of `ys`.
abbrev pub Apart : List Ptr → List Ptr → Type 0
Apart xs ys = (a : Ptr) → has a xs ≡ true → has a ys ≡ false

pub has-append : (a : Ptr) (xs ys : List Ptr) → has a (xs ++ ys) ≡ (has a xs || has a ys)
has-append a [] ys = refl
has-append a (x ∷ xs) ys = ground (arith, has-append a xs ys)

pub Distinct-append :
    (xs ys : List Ptr) → Distinct (xs ++ ys) → Distinct xs × Distinct ys × Apart xs ys
Distinct-append [] ys d = (tt, d, λ a h. ground arith)
Distinct-append (x ∷ xs) ys (out, d) =
    let (dx, dy, apart) = Distinct-append xs ys d in
    (
      (ground (arith, has-append x xs ys), dx),
      dy,
      λ a h. ground (arith, apart a, has-append x xs ys),
    )

pub append-Distinct :
    (xs ys : List Ptr) → Distinct xs → Distinct ys → Apart xs ys → Distinct (xs ++ ys)
append-Distinct [] ys dx dy apart = dy
append-Distinct (x ∷ xs) ys (out, dx) dy apart = (
  ground (arith, has-append x xs ys, apart x),
  append-Distinct xs ys dx dy (λ a h. apart a (ground arith)),
)

module _ ⦃L : Libraries⦄ where
  pub has-root_of : (t : Tree) → root_of t ≢ null → has (root_of t) (addrs t) ≡ true
  unfolding addrs
  has-root_of nothing ne = absurd (ne refl)
  has-root_of (leaf p s) ne = ground arith
  has-root_of (array p es) ne = ground arith
  has-root_of (object p ps) ne = ground arith

  -- `d` agrees with `c` at the addresses of `xs`.
  abbrev pub Agree : List Ptr → (c d : Ptr → Option Obj) → Type 0
  Agree xs c d = (a : Ptr) → has a xs ≡ true → d a ≡ c a

  mutual
    unfolding addrs

    frame_tree : (t : Tree) {c d : Ptr → Option Obj} → Agree (addrs t) c d → Holds c t → Holds d t
    frame_tree nothing same r = tt
    frame_tree (leaf p s) same (ne, e) = (ne, ground (arith, same p))
    frame_tree (array p es) same (ne, (q, e, i), rs) =
        (ne, (q, ground (arith, same p), i), frame_elems es p (λ a h. same a (ground arith)) rs)
    frame_tree (object p ps) same (ne, (t, e, i), rs) =
        (ne, (t, ground (arith, same p), i), frame_pairs ps p (λ a h. same a (ground arith)) rs)

    frame_elems :
        (es : Elems) (p : Ptr) {c d : Ptr → Option Obj}
        → Agree (elem_addrs es) c d
        → HoldsElems c p es
        → HoldsElems d p es
    frame_elems no_elems p same r = tt
    frame_elems (elem e t es) p same (ne, at, rt, rs) = (
      ne,
      ground (arith, same e),
      frame_tree t (λ a h. same a (ground (arith, has-append a (addrs t) (elem_addrs es)))) rt,
      frame_elems es p (λ a h. same a (ground (arith, has-append a (addrs t) (elem_addrs es)))) rs,
    )

    frame_pairs :
        (ps : Pairs) (p : Ptr) {c d : Ptr → Option Obj}
        → Agree (pair_addrs ps) c d
        → HoldsPairs c p ps
        → HoldsPairs d p ps
    frame_pairs no_pairs p same r = tt
    frame_pairs (pair e k t ps) p same (ne, at, rt, rs) = (
      ne,
      ground (arith, same e),
      frame_tree t (λ a h. same a (ground (arith, has-append a (addrs t) (pair_addrs ps)))) rt,
      frame_pairs ps p (λ a h. same a (ground (arith, has-append a (addrs t) (pair_addrs ps)))) rs,
    )

  pub Holds-frame :
      (t : Tree) (c d : Ptr → Option Obj) → Agree (addrs t) c d → Holds c t → Holds d t
  Holds-frame t c d = frame_tree t

  pub HoldsElems-frame :
      (es : Elems) (p : Ptr) (c d : Ptr → Option Obj)
      → Agree (elem_addrs es) c d
      → HoldsElems c p es
      → HoldsElems d p es
  HoldsElems-frame es p c d = frame_elems es p

  pub HoldsPairs-frame :
      (ps : Pairs) (p : Ptr) (c d : Ptr → Option Obj)
      → Agree (pair_addrs ps) c d
      → HoldsPairs c p ps
      → HoldsPairs d p ps
  HoldsPairs-frame ps p c d = frame_pairs ps p
