-- ===== src/Tree/Scalars.antt =====
-- The constructors of the scalar nodes of src/pillowtalk_impl.c, chosen by the scalar.
use pillowtalk.Prelude.{◌<◌, ◌≡◌, some}
use pillowtalk.Libraries.{Ptr, Libraries}
use pillowtalk.Heap.{Heap, ok, Obj, Prog, null_node, bool_node, int_node, double_node, string_node}
use pillowtalk.Heap.Access.{alloc-ok, grown}
use pillowtalk.Node.{c_str, null_new, bool_new, integer_new, double_new, string_new}
use pillowtalk.Value.{Scalar, obj_of, null_value, bool_value, int_value, double_value, text}
use pillowtalk.Clone.Kept.{kept_scalar}

module _ ⦃L : Libraries⦄ where
  -- The constructor of a scalar.
  unfoldable pub new_scalar : Scalar → Prog Ptr
  new_scalar null_value = null_new
  new_scalar (bool_value b) = bool_new b
  new_scalar (int_value z) = integer_new z
  new_scalar (double_value d) = double_new d
  new_scalar (text s) = string_new (some s)

  pub new_scalar-ok :
      (s : Scalar) (h : Heap Obj)
      → 0 < h.room
      → new_scalar s h ≡ ok h.next (grown h (obj_of (kept_scalar s)))
  unfolding new_scalar null_new bool_new integer_new double_new string_new
  new_scalar-ok null_value h r = alloc-ok h null_node r
  new_scalar-ok (bool_value b) h r = alloc-ok h (bool_node b) r
  new_scalar-ok (int_value z) h r = alloc-ok h (int_node z) r
  new_scalar-ok (double_value d) h r = alloc-ok h (double_node d) r
  new_scalar-ok (text s) h r = alloc-ok h (string_node (c_str s)) r
