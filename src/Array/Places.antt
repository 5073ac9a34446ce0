-- ===== src/Array/Places.antt =====
-- The element at an index of an array of nodes that are not NULL, and the array without it.
use pillowtalk.Prelude.{◌*◌, ℕ, zero, suc, ◌≤◌, ◌≡◌, ◌≢◌, refl, ap, true, false, ◌==◌, arith}
use pillowtalk.Libraries.{Ptr, Libraries}
use pillowtalk.Heap.{null}
use pillowtalk.Value.{Value, Values, no_values, value}
use pillowtalk.Tree.{
  nothing, leaf, array, object, Tree, Elems, no_elems, elem, root_of, meaning, meanings, addrs,
  elem_addrs, count,
}
use pillowtalk.Tree.Footprint.{has, has-root_of, Distinct, has-append, Distinct-append}
use pillowtalk.Tree.Append.{snoc}
use pillowtalk.Free.Gone.{size, elems_size}
use pillowtalk.Array.Read.{nth}
use pillowtalk.Array.Nodes.{has_node, drop_node, node_tree}

module _ ⦃L : Libraries⦄ where
  abbrev pub drop_at : ℕ → Values → Values
  drop_at i no_values = no_values
  drop_at zero (value v vs) = vs
  drop_at (suc i) (value v vs) = value v (drop_at i vs)

  abbrev pub snoc_value : Values → Value → Values
  snoc_value no_values v = value v no_values
  snoc_value (value w vs) v = value w (snoc_value vs v)

  pub meanings-snoc :
      (es : Elems) (e : Ptr) (t : Tree)
      → meanings (snoc es e t) ≡ snoc_value (meanings es) (meaning t)
  unfolding meaning
  meanings-snoc no_elems e t = refl
  meanings-snoc (elem e' t' es) e t = ap (value (meaning t')) (meanings-snoc es e t)

  pub has_node-snoc :
      (n : Ptr) (es : Elems) (e : Ptr) (t : Tree)
      → has_node n es ≡ false
      → root_of t ≢ n
      → has_node n (snoc es e t) ≡ false
  has_node-snoc n no_elems e t o ne = ground arith
  has_node-snoc n (elem e' t' es) e t o ne = ground (arith, has_node-snoc n es e t)

  pub has_node-drop_node :
      (m n : Ptr) (es : Elems) → has_node m es ≡ false → has_node m (drop_node n es) ≡ false
  has_node-drop_node m n no_elems o = o
  has_node-drop_node m n (elem e t es) o = ground (arith, has_node-drop_node m n es)

  pub drop_node-missing : (n : Ptr) (es : Elems) → has_node n es ≡ false → drop_node n es ≡ es
  drop_node-missing n no_elems o = refl
  drop_node-missing n (elem e t es) o =
      let other : (root_of t == n) ≡ false = ground arith in
      rw other (ap (elem e t) (drop_node-missing n es (ground arith)))

  pub drop_node-size : (n : Ptr) (es : Elems) → elems_size (drop_node n es) ≤ elems_size es
  unfolding size
  drop_node-size n no_elems = omega arith
  drop_node-size n (elem e t es) = ground (arith, drop_node-size n es)

  pub node_tree-size : (n : Ptr) (es : Elems) → size (node_tree n es) ≤ elems_size es
  unfolding size
  node_tree-size n no_elems = omega arith
  node_tree-size n (elem e t es) = ground (arith, node_tree-size n es)

  size-root_of : (t : Tree) → root_of t ≢ null → 1 ≤ size t
  unfolding size
  size-root_of nothing ne = absurd (ne refl)
  size-root_of (leaf p s) ne = omega arith
  size-root_of (array p es) ne = omega arith
  size-root_of (object p ps) ne = omega arith

  -- Each element has a node.
  pub count-le-size : (es : Elems) → has_node null es ≡ false → 2 * count es ≤ elems_size es
  unfolding size
  count-le-size no_elems o = omega arith
  count-le-size (elem e t es) o =
      let there : root_of t ≢ null = ground arith in
      omega (arith, count-le-size es (ground arith), size-root_of t there)

  has-nth :
      (es : Elems) (i : ℕ)
      → root_of (nth es i) ≢ null
      → has (root_of (nth es i)) (elem_addrs es) ≡ true
  unfolding addrs
  has-nth no_elems i ne = absurd (ne refl)
  has-nth (elem e t es) zero ne =
      ground (arith, has-root_of t ne, has-append (root_of t) (addrs t) (elem_addrs es))
  has-nth (elem e t es) (suc i) ne =
      ground (arith, has-nth es i ne, has-append (root_of (nth es i)) (addrs t) (elem_addrs es))

  -- The node of a first element is at no later index.
  first_only :
      (e : Ptr) (t : Tree) (es : Elems) (i : ℕ)
      → Distinct (elem_addrs (elem e t es))
      → root_of t ≢ null
      → (root_of t == root_of (nth es i)) ≡ false
  unfolding addrs
  first_only e t es i (out, d) ne =
      let (d1, d2, apart) = Distinct-append (addrs t) (elem_addrs es) d in
      ground (arith, has-nth es i, has-root_of t ne, apart (root_of t))

  pub meanings-drop_node :
      (es : Elems) (i : ℕ)
      → Distinct (elem_addrs es)
      → has_node null es ≡ false
      → meanings (drop_node (root_of (nth es i)) es) ≡ drop_at i (meanings es)
  unfolding meaning addrs
  meanings-drop_node no_elems i d o = refl
  meanings-drop_node (elem e t es) zero d o =
      let same : (root_of t == root_of t) ≡ true = ground arith in rw same refl
  meanings-drop_node (elem e t es) (suc i) d o =
      let other = first_only e t es i d (ground arith) in
      rw other (
        ap (value (meaning t)) (
          meanings-drop_node es i (Distinct-append (addrs t) (elem_addrs es) d.1).1 (ground arith)))
