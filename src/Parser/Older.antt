-- ===== src/Parser/Older.antt =====
-- The callbacks leave older structs alone: the containers they write to are new.
use pillowtalk.Prelude.{◌≤◌, ◌≡◌, refl, ◌⊎◌, inl, inr, List, [], ◌∷◌, arith, ◌==◌, Bool-cases}
use pillowtalk.Prelude.Int.{to_int}
use pillowtalk.Libraries.{Bytes, Ptr, Libraries}
use pillowtalk.Heap.{
  null, Obj, load, store, alloc, map_node, array_node, null_node, bool_node, int_node, double_node,
  string_node, key_value, array_elem,
}
use pillowtalk.Heap.Local.{
  Local, Local-pure, Local-bind, Local-after, Anything, Local-load, Local-store, Local-alloc,
  Local-obj, Local-crash, Local-abort,
}
use pillowtalk.Parser.{
  Frame, Context, frame, context, Event, on_null, on_boolean, on_integer, on_double, on_string,
  on_start_map, on_map_key, on_end_map, on_start_array, on_end_array, attach,
  add_node_to_context_container, add_leaf, json_null, json_boolean, json_integer, json_double,
  json_string, json_map_key, json_start_map, json_end_map, json_start_array, json_end_array,
  callbacks, run_callbacks,
}

module _ ⦃L : Libraries⦄ (n : Ptr) where
  abbrev pub NullOrNew : Ptr → Type 0
  NullOrNew p = (p ≡ null) ⊎ (n ≤ p)

  abbrev pub AreNew : List Frame → Type 0
  AreNew [] = Unit
  AreNew (f ∷ rest) = (n ≤ f.container) × NullOrNew f.cur × AreNew rest

  -- The root and the containers of a context are new.
  abbrev pub IsNew : Context → Type 0
  IsNew c = NullOrNew c.root × AreNew c.stack

  -- A node below which the parser is not.
  attach-Local : (cur value : Ptr) → n ≤ cur → Local n Anything (attach cur value)
  unfolding attach
  attach-Local cur value above = Local-after n Anything (load cur) _ (Local-load n cur) (
      Local-obj n Anything _ (λ t. Local-pure n Anything tt tt)
        (λ q k.
          Local-bind n (λ p. n ≤ p) Anything (alloc (array_elem value cur)) _
            (Local-alloc n (array_elem value cur)) λ p _. Local-store n cur _ above)
        (Local-pure n Anything tt tt) (λ _. Local-pure n Anything tt tt)
        (λ _. Local-pure n Anything tt tt) (λ _. Local-pure n Anything tt tt)
        (λ _. Local-pure n Anything tt tt) (λ k v m. Local-store n cur _ above)
        (λ _ _. Local-crash n Anything))

  add_node-Local :
      (r : Ptr) (stack : List Frame) (value : Ptr)
      → NullOrNew r
      → AreNew stack
      → n ≤ value
      → Local n IsNew (add_node_to_context_container (context r stack) value)
  unfolding add_node_to_context_container
  add_node-Local r [] value new frames above = Local-pure n IsNew (context value []) (inr above, tt)
  add_node-Local r (f ∷ rest) value new (box, cur, frames) above =
      elim (Bool-cases (f.cur == null)) [
        | inl at_null ↦
            rw at_null
              (Local-pure n IsNew (context value (f ∷ rest)) (inr above, (box, cur, frames)))
        | inr there ↦ rw there (
            Local-after n IsNew (attach f.cur value) _ (attach-Local f.cur value (ground arith))
              λ _. Local-pure n IsNew (context r (f ∷ rest)) (new, (box, cur, frames)))
      ]

  add_leaf-Local : (o : Obj) (c : Context) → IsNew c → Local n IsNew (add_leaf o c)
  unfolding add_leaf
  add_leaf-Local o c (new, frames) =
      Local-bind n (λ p. n ≤ p) IsNew (alloc o) _ (Local-alloc n o)
        λ p above. add_node-Local c.root c.stack p new frames above

  start_map-Local : (c : Context) → IsNew c → Local n IsNew (json_start_map c)
  unfolding json_start_map
  start_map-Local c (new, frames) =
      Local-bind n (λ p. n ≤ p) IsNew (alloc (map_node L.empty)) _
        (Local-alloc n (map_node L.empty))
        λ p above.
          Local-bind n IsNew IsNew _ _ (add_node-Local c.root c.stack p new frames above) λ c' x.
            Local-pure n IsNew (context c'.root (frame p null ∷ c'.stack))
              (x.0, (above, inl refl, x.1))

  start_array-Local : (c : Context) → IsNew c → Local n IsNew (json_start_array c)
  unfolding json_start_array
  start_array-Local c (new, frames) =
      Local-bind n (λ p. n ≤ p) IsNew (alloc (array_node L.init 0)) _
        (Local-alloc n (array_node L.init 0))
        λ p above.
          Local-bind n IsNew IsNew _ _ (add_node-Local c.root c.stack p new frames above) λ c' x.
            Local-pure n IsNew (context c'.root (frame p p ∷ c'.stack))
              (x.0, (above, inr above, x.1))

  map_key-Local :
      (s : Bytes) (r : Ptr) (stack : List Frame)
      → NullOrNew r
      → AreNew stack
      → Local n IsNew (json_map_key s (context r stack))
  unfolding json_map_key
  map_key-Local s r [] new frames = Local-abort n IsNew
  map_key-Local s r (f ∷ rest) new (box, cur, frames) =
      Local-after n IsNew (load f.container) _ (Local-load n f.container) (
        Local-obj n IsNew _
          (λ t.
            Local-bind n (λ p. n ≤ p) IsNew (alloc (key_value s null f.container)) _
              (Local-alloc n (key_value s null f.container))
              λ p above.
                Local-after n IsNew (store f.container (map_node (L.add_keyptr s p t))) _
                  (Local-store n f.container (map_node (L.add_keyptr s p t)) box)
                  λ _.
                    Local-pure n IsNew (context r (frame f.container p ∷ rest))
                      (new, (box, inr above, frames)))
          (λ _ _. Local-abort n IsNew) (Local-abort n IsNew) (λ _. Local-abort n IsNew)
          (λ _. Local-abort n IsNew) (λ _. Local-abort n IsNew) (λ _. Local-abort n IsNew)
          (λ _ _ _. Local-abort n IsNew) (λ _ _. Local-crash n IsNew))

  end_map-Local :
      (r : Ptr) (stack : List Frame)
      → NullOrNew r
      → AreNew stack
      → Local n IsNew (json_end_map (context r stack))
  unfolding json_end_map
  end_map-Local r [] new frames = Local-crash n IsNew
  end_map-Local r (f ∷ rest) new (box, cur, frames) =
      Local-after n IsNew (load f.container) _ (Local-load n f.container) (
        Local-obj n IsNew _ (λ t. Local-pure n IsNew (context r rest) (new, frames))
          (λ _ _. Local-abort n IsNew) (Local-abort n IsNew) (λ _. Local-abort n IsNew)
          (λ _. Local-abort n IsNew) (λ _. Local-abort n IsNew) (λ _. Local-abort n IsNew)
          (λ _ _ _. Local-abort n IsNew) (λ _ _. Local-crash n IsNew))

  end_array-Local :
      (r : Ptr) (stack : List Frame)
      → NullOrNew r
      → AreNew stack
      → Local n IsNew (json_end_array (context r stack))
  unfolding json_end_array
  end_array-Local r [] new frames = Local-crash n IsNew
  end_array-Local r (f ∷ rest) new (box, cur, frames) =
      Local-after n IsNew (load f.container) _ (Local-load n f.container) (
        Local-obj n IsNew _ (λ _. Local-abort n IsNew)
          (λ q k. Local-pure n IsNew (context r rest) (new, frames)) (Local-abort n IsNew)
          (λ _. Local-abort n IsNew) (λ _. Local-abort n IsNew) (λ _. Local-abort n IsNew)
          (λ _. Local-abort n IsNew) (λ _ _ _. Local-abort n IsNew) (λ _ _. Local-crash n IsNew))

  -- Whatever callback comes next.
  callback-Local : (e : Event) (c : Context) → IsNew c → Local n IsNew (callbacks e c)
  unfolding json_null json_boolean json_integer json_double json_string
  callback-Local on_null c x = add_leaf-Local null_node c x
  callback-Local (on_boolean b) c x = add_leaf-Local (bool_node b) c x
  callback-Local (on_integer z) c x = add_leaf-Local (int_node (to_int z)) c x
  callback-Local (on_double d) c x = add_leaf-Local (double_node d) c x
  callback-Local (on_string s) c x = add_leaf-Local (string_node s) c x
  callback-Local on_start_map c x = start_map-Local c x
  callback-Local (on_map_key s) c x = map_key-Local s c.root c.stack x.0 x.1
  callback-Local on_end_map c x = end_map-Local c.root c.stack x.0 x.1
  callback-Local on_start_array c x = start_array-Local c x
  callback-Local on_end_array c x = end_array-Local c.root c.stack x.0 x.1

  pub run-Local : (es : List Event) (c : Context) → IsNew c → Local n IsNew (run_callbacks es c)
  unfolding run_callbacks
  run-Local [] c x = Local-pure n IsNew c x
  run-Local (e ∷ es) c x =
      Local-bind n IsNew IsNew (callbacks e c) _ (callback-Local e c x) λ c' x'. run-Local es c' x'
