-- ===== src/Parser.antt =====
-- parse_json of src/pillowtalk_impl.c and the callbacks that yajl_parse makes, with the context of
-- pillowtalk_impl.h: the root so far and the stack of open containers. The context lives outside the
-- heap; LL_PREPEND and LL_DELETE of its head are `∷` and the tail. Every callback returns 1, which
-- tells yajl to go on.
pub mod Slot
pub mod Build
pub mod Document
pub mod Broken
pub mod Older
pub mod Events
pub mod Built
pub mod Children
pub mod Leaves
pub mod Finished
use pillowtalk.Prelude.{
  take, length, ℕ, suc, ◌+◌, ◌%◌, ◌^◌, Bool, true, false, List, [], ◌∷◌, ◌==◌, if◌then◌else◌,
}
use pillowtalk.Prelude.Int.{ℤ, pos, negsuc, to_int}
use pillowtalk.Libraries.{Bytes, Ptr, Libraries}
use pillowtalk.Heap.{
  null, fault, aborted, pure, crash, ◌>>=◌, ◌>>◌, load, store, alloc, Obj, map_node, array_node,
  null_node, bool_node, int_node, double_node, string_node, key_value, array_elem, Prog,
}
use pillowtalk.Node.{c_str}

-- pt_container_ctx_t
pub record Frame : Type 0 where
  pub container : Ptr
  pub cur : Ptr

-- pt_parser_ctx_t
pub record Context : Type 0 where
  pub root : Ptr
  pub stack : List Frame

abbrev pub frame : Ptr → Ptr → Frame
frame container cur = record { container = container; cur = cur }

abbrev pub context : Ptr → List Frame → Context
context root stack = record { root = root; stack = stack }

module _ ⦃L : Libraries⦄ where
  -- The callbacks that yajl makes.
  pub data Event : Type 0 where
    on_null on_start_map on_end_map on_start_array on_end_array : Event
    on_boolean on_integer : ℤ → Event
    on_double : L.Double → Event
    on_string on_map_key : Bytes → Event

  -- What is done with a value where `cur` is not NULL.
  unfoldable pub attach : (cur value : Ptr) → Prog (Unit {0})
  attach cur value = do
    o ← load cur
    elim o [
      | array_node q len ↦ do
        elem ← alloc (array_elem value cur)
        store cur (array_node (L.insert_tail elem q) ((len + 1) % 2 ^ 32))
      | key_value k v m ↦ store cur (key_value k value m)
      | array_elem n a ↦ crash
      | _ ↦ pure tt
    ]

  unfoldable pub add_node_to_context_container : Context → (value : Ptr) → Prog Context
  unfolding attach
  add_node_to_context_container c value = elim c.stack [
    | [] ↦ pure (record c { root = value })
    | top ∷ rest ↦
        if top.cur == null then pure (record c { root = value }) else attach top.cur value >> pure c
  ]

  -- A leaf: allocate the node and hand it to the container.
  unfoldable pub add_leaf : Obj → Context → Prog Context
  unfolding add_node_to_context_container
  add_leaf o c = alloc o >>= add_node_to_context_container c

  unfoldable pub json_null : Context → Prog Context
  unfolding add_leaf
  json_null = add_leaf null_node

  unfoldable pub json_boolean : ℤ → Context → Prog Context
  unfolding add_leaf
  json_boolean b = add_leaf (bool_node b)

  -- yajl hands over a `long long`, and the node holds an `int`
  unfoldable pub json_integer : ℤ → Context → Prog Context
  unfolding add_leaf
  json_integer z = add_leaf (int_node (to_int z))

  unfoldable pub json_double : L.Double → Context → Prog Context
  unfolding add_leaf
  json_double d = add_leaf (double_node d)

  unfoldable pub json_string : Bytes → Context → Prog Context
  unfolding add_leaf
  json_string s = add_leaf (string_node s)

  -- The key is entered with all its bytes and without a search for an equal one.
  unfoldable pub json_map_key : Bytes → Context → Prog Context
  json_map_key s c = elim c.stack [
    | [] ↦ λ _. aborted
    | top ∷ rest ↦ do
      o ← load top.container
      elim o [
        | map_node t ↦ do
          pair ← alloc (key_value s null top.container)
          store top.container (map_node (L.add_keyptr s pair t))
          pure (record c { stack = record top { cur = pair } ∷ rest })
        | array_elem n a ↦ crash
        | _ ↦ λ _. aborted
      ]
  ]

  unfoldable pub json_start_map : Context → Prog Context
  json_start_map c = do
    node ← alloc (map_node L.empty)
    c' ← add_node_to_context_container c node
    pure (record c' { stack = frame node null ∷ c'.stack })

  unfoldable pub json_start_array : Context → Prog Context
  json_start_array c = do
    node ← alloc (array_node L.init 0)
    c' ← add_node_to_context_container c node
    pure (record c' { stack = frame node node ∷ c'.stack })

  -- The assert reads the stack's head before it is known that there is one.
  unfoldable pub json_end_map : Context → Prog Context
  json_end_map c = elim c.stack [
    | [] ↦ λ _. fault
    | top ∷ rest ↦ do
      o ← load top.container
      elim o [
        | map_node t ↦ pure (record c { stack = rest })
        | array_elem n a ↦ crash
        | _ ↦ λ _. aborted
      ]
  ]

  unfoldable pub json_end_array : Context → Prog Context
  json_end_array c = elim c.stack [
    | [] ↦ λ _. fault
    | top ∷ rest ↦ do
      o ← load top.container
      elim o [
        | array_node q n ↦ pure (record c { stack = rest })
        | array_elem n a ↦ crash
        | _ ↦ λ _. aborted
      ]
  ]

  -- The table `callbacks`.
  abbrev pub callbacks : Event → Context → Prog Context
  callbacks on_null = json_null
  callbacks (on_boolean b) = json_boolean b
  callbacks (on_integer z) = json_integer z
  callbacks (on_double d) = json_double d
  callbacks (on_string s) = json_string s
  callbacks on_start_map = json_start_map
  callbacks (on_map_key s) = json_map_key s
  callbacks on_end_map = json_end_map
  callbacks on_start_array = json_start_array
  callbacks on_end_array = json_end_array

  -- yajl_parse as it shows to the program: the callbacks made, in order.
  unfoldable pub run_callbacks : List Event → Context → Prog Context
  run_callbacks [] c = pure c
  run_callbacks (e ∷ es) c = callbacks e c >>= run_callbacks es

  -- yajl_parse: the callbacks that a text leads to, up to its first error or its end.
  pub record YajlParse : Type 0 where
    pub events : Bytes → List Event

  module _ ⦃Y : YajlParse⦄ where
    -- The message on stderr for a text with an error has no effect on the result.
    unfoldable pub parse_json : Bytes → Prog Ptr
    unfolding run_callbacks
    parse_json json = do c ← run_callbacks (Y.events json) (context null []); pure c.root

    -- strlen is converted to `int`; a negative length is read as a huge one.
    unfoldable pub from_json : Bytes → Prog Ptr
    unfolding parse_json
    from_json json = elim (to_int (pos (length (c_str json)))) [
      | pos n ↦ parse_json (take n (c_str json))
      | negsuc n ↦ crash
    ]
