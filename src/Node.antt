-- ===== src/Node.antt =====
-- Scalar nodes of src/pillowtalk_impl.c: the constructors pt_*_new and the getters pt_*_get.
use pillowtalk.Prelude.{Bool, true, false, Option, none, some, [], ◌∷◌, ◌==◌, if◌then◌else◌}
use pillowtalk.Prelude.Int.{ℤ, pos}
use pillowtalk.Libraries.{Bytes, Ptr, Libraries}
use pillowtalk.Heap.{
  null, pure, crash, ◌>>=◌, load, alloc, Obj, map_node, array_node, null_node, bool_node, int_node,
  double_node, string_node, array_elem, Prog,
}

-- What strlen and strdup see of a buffer: the bytes in front of its first NUL.
unfoldable pub c_str : Bytes → Bytes
c_str [] = []
c_str (b ∷ bs) = if b == 0 then [] else b ∷ c_str bs

module _ ⦃L : Libraries⦄ where
  unfoldable pub map_new : Prog Ptr
  map_new = alloc (map_node L.empty)

  unfoldable pub array_new : Prog Ptr
  array_new = alloc (array_node L.init 0)

  unfoldable pub null_new : Prog Ptr
  null_new = alloc null_node

  unfoldable pub bool_new : ℤ → Prog Ptr
  bool_new b = alloc (bool_node b)

  unfoldable pub integer_new : ℤ → Prog Ptr
  integer_new z = alloc (int_node z)

  unfoldable pub double_new : L.Double → Prog Ptr
  double_new d = alloc (double_node d)

  -- strdup(NULL) is undefined
  unfoldable pub string_new : Option Bytes → Prog Ptr
  string_new none = crash
  string_new (some s) = alloc (string_node (c_str s))

  -- `p && …p->type…`: the answer for NULL, and what a switch on the node's tag gives
  abbrev pub guarded : {A : Type 0} → A → (Obj → Prog A) → Ptr → Prog A
  guarded d k p = if p == null then pure d else load p >>= k

  -- a struct without a tag cannot be asked for it
  abbrev pub is_null_obj : Obj → Prog Bool
  is_null_obj null_node = pure true
  is_null_obj (array_elem n a) = crash
  is_null_obj _ = pure false

  unfoldable pub is_null : Ptr → Prog Bool
  is_null = guarded true is_null_obj

  abbrev pub boolean_of : Obj → Prog ℤ
  boolean_of (bool_node b) = pure b
  boolean_of (array_elem n a) = crash
  boolean_of _ = pure (pos 0)

  unfoldable pub boolean_get : Ptr → Prog ℤ
  boolean_get = guarded (pos 0) boolean_of

  abbrev pub integer_of : Obj → Prog ℤ
  integer_of (int_node z) = pure z
  integer_of (double_node d) = pure (L.trunc d)
  integer_of (array_elem n a) = crash
  integer_of _ = pure (pos 0)

  unfoldable pub integer_get : Ptr → Prog ℤ
  integer_get = guarded (pos 0) integer_of

  abbrev pub double_of : Obj → Prog L.Double
  double_of (double_node d) = pure d
  double_of (int_node z) = pure (L.of_int z)
  double_of (array_elem n a) = crash
  double_of _ = pure L.zero_double

  unfoldable pub double_get : Ptr → Prog L.Double
  double_get = guarded L.zero_double double_of

  -- The buffer itself: what the caller reads of it ends at the first NUL.
  abbrev pub string_of : Obj → Prog (Option Bytes)
  string_of (string_node s) = pure (some s)
  string_of (array_elem n a) = crash
  string_of _ = pure none

  unfoldable pub string_get : Ptr → Prog (Option Bytes)
  string_get = guarded none string_of
