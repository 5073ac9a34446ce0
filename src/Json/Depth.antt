-- ===== src/Json/Depth.antt =====
-- A tree is no deeper than it is large.
use pillowtalk.Prelude.{◌≤◌, arith}
use pillowtalk.Libraries.{Libraries}
use pillowtalk.Tree.{
  Tree, Elems, Pairs, nothing, leaf, array, object, no_elems, elem, no_pairs, pair,
}
use pillowtalk.Free.Gone.{size, elems_size, pairs_size}
use pillowtalk.Json.Tokens.{depth, elems_depth, pairs_depth}

module _ ⦃L : Libraries⦄ where
  mutual
    unfolding size depth

    pub depth-le-size : (t : Tree) → depth t ≤ size t
    depth-le-size nothing = omega arith
    depth-le-size (leaf p s) = omega arith
    depth-le-size (array p es) = omega (arith, elems_depth-le es)
    depth-le-size (object p ps) = omega (arith, pairs_depth-le ps)

    elems_depth-le : (es : Elems) → elems_depth es ≤ elems_size es
    elems_depth-le no_elems = omega arith
    elems_depth-le (elem e t es) = omega (arith, depth-le-size t, elems_depth-le es)

    pub pairs_depth-le : (ps : Pairs) → pairs_depth ps ≤ pairs_size ps
    pairs_depth-le no_pairs = omega arith
    pairs_depth-le (pair e k t ps) = omega (arith, depth-le-size t, pairs_depth-le ps)
