-- ===== src/Fuel/Update.antt =====
-- pt_map_update with more fuel.
use pillowtalk.Prelude.{ℕ, zero, suc, true, false, ◌||◌, some, ◌==◌}
use pillowtalk.Libraries.{Bytes, Ptr, Libraries}
use pillowtalk.Heap.{
  null, pure, Prog, ◌>>=◌, ◌>>◌, PtType, pt_map, pt_array, pt_null, pt_boolean, pt_integer,
  pt_double, pt_string, pt_key_value,
}
use pillowtalk.Map.{map_get, map_set}
use pillowtalk.Clone.{clone, load_pair}
use pillowtalk.Update.{
  type_code, load_type, advance, merge_same_type, merge_existing, merge_pair, update_loop,
  first_pair, map_update,
}
use pillowtalk.Fuel.{
  Extends, Extends-same, Extends-spent, Extends-if, Extends-bind, Extends-after, Extends-Bool,
}
use pillowtalk.Fuel.Clone.{clone-Extends, map_set-Extends}

module _ ⦃L : Libraries⦄ where
  copy-Extends :
      (f : ℕ) (root : Ptr) (key : Bytes) (value : Ptr)
      → Extends
          (clone f value >>= λ copy. map_set f root (some key) copy >> pure true)
          (clone (suc f) value >>= λ copy. map_set (suc f) root (some key) copy >> pure true)
  copy-Extends f root key value = Extends-bind _ _ _ _ (clone-Extends f value) λ copy.
      Extends-bind _ _ _ _ (map_set-Extends f root (some key) copy) λ _. Extends-same (pure true)

  module _ (rec rec' : Ptr → Ptr → Prog ℕ) (e : (p a : Ptr) → Extends (rec p a) (rec' p a)) where
    same_type-Extends :
        (f : ℕ) (root : Ptr) (key : Bytes) (value existing : Ptr) (ty : PtType)
        → Extends
            (merge_same_type rec f root key value existing ty)
            (merge_same_type rec' (suc f) root key value existing ty)
    unfolding merge_same_type
    same_type-Extends f root key value existing pt_map =
        Extends-bind _ _ _ _ (e existing value) λ _. Extends-same (pure true)
    same_type-Extends f root key value existing pt_array = copy-Extends f root key value
    same_type-Extends f root key value existing pt_null = copy-Extends f root key value
    same_type-Extends f root key value existing pt_boolean = copy-Extends f root key value
    same_type-Extends f root key value existing pt_integer = copy-Extends f root key value
    same_type-Extends f root key value existing pt_double = copy-Extends f root key value
    same_type-Extends f root key value existing pt_string = copy-Extends f root key value
    same_type-Extends f root key value existing pt_key_value = copy-Extends f root key value

    pair-Extends :
        (f : ℕ) (root : Ptr) (key : Bytes) (value : Ptr)
        → Extends (merge_pair rec f root key value) (merge_pair rec' (suc f) root key value)
    unfolding merge_pair merge_existing
    pair-Extends f root key value = Extends-if (value == null) _ _ _ _ (Extends-same (pure true)) (
        Extends-after (map_get root (some key)) _ _ λ existing.
          Extends-if (existing == null) _ _ _ _ (copy-Extends f root key value) (
            Extends-after (load_type value) _ _ λ tv. Extends-after (load_type existing) _ _ λ te.
              Extends-if (type_code tv == type_code te) _ _ _ _
                (same_type-Extends f root key value existing tv) (Extends-same (pure false))))

    loop-Extends :
        (f k : ℕ) (root cur : Ptr)
        → Extends (update_loop rec f k root cur) (update_loop rec' (suc f) (suc k) root cur)
    unfolding update_loop
    loop-Extends f zero root cur = Extends-spent (update_loop rec' (suc f) 1 root cur)
    loop-Extends f (suc k) root cur = Extends-if (cur == null) _ _ _ _ (Extends-same (pure 0)) (
        Extends-after (load_pair cur) _ _ λ kv.
          Extends-bind _ _ _ _ (pair-Extends f root kv.0 kv.1) (
            Extends-Bool _ _ (Extends-after (advance cur) _ _ λ next. loop-Extends f k root next)
              (Extends-same _)))

  pub map_update-Extends :
      (f : ℕ) (root additions : Ptr) (append : ℕ)
      → Extends (map_update f root additions append) (map_update (suc f) root additions append)
  unfolding map_update
  map_update-Extends zero root additions append = Extends-spent (map_update 1 root additions append)
  map_update-Extends (suc f) root additions append =
      Extends-if ((root == null) || (additions == null)) _ _ _ _ (Extends-same (pure 1)) (
        Extends-after (load_type root) _ _ λ tr.
          Extends-if (type_code tr == 0) _ _ _ _
            (Extends-after (load_type additions) _ _ λ ta.
              Extends-if (type_code ta == 0) _ _ _ _
                (Extends-after (first_pair additions) _ _ λ cur.
                  loop-Extends (λ r a. map_update f r a append)
                    (λ r a. map_update (suc f) r a append) (λ r a. map_update-Extends f r a append)
                    f f root cur)
                (Extends-same (pure 1)))
            (Extends-same (pure 1)))
