-- ===== src/Json.antt =====
-- pt_to_json of src/pillowtalk_impl.c with its generate_*_json functions, over the calls of yajl_gen
-- that they make. Fuel bounds the depth of the tree.
pub mod Tokens
pub mod Depth
pub mod RoundTrip
use pillowtalk.Prelude.{ℕ, zero, suc, Bool, true, false, List, [], ◌∷◌, ◌==◌, if◌then◌else◌, ◌≡◌}
use pillowtalk.Prelude.Int.{ℤ}
use pillowtalk.Libraries.{Bytes, Ptr, Entries, Libraries}
use pillowtalk.Heap.{
  null, out_of_fuel, pure, crash, ◌>>=◌, ◌>>◌, load, Obj, map_node, array_node, null_node,
  bool_node, int_node, double_node, string_node, key_value, array_elem, Prog,
}
use pillowtalk.Node.{c_str}
use pillowtalk.Clone.{load_pair, load_elem}

module _ ⦃L : Libraries⦄ where
  -- The calls yajl_gen_map_open(g), yajl_gen_string(g, s, len), ….
  pub data Token : Type 0 where
    map_open map_close array_open array_close null_token : Token
    bool_token integer_token : ℤ → Token
    double_token : L.Double → Token
    string_token : Bytes → Token

  -- yajl_gen: a generator, what a call makes of it, and the text that it has written.
  pub record YajlGen : Type 1 where
    pub Gen : Type 0
    pub gen_alloc : (beautify : ℕ) → Gen
    pub gen : Token → Gen → Gen
    pub get_buf : Gen → Bytes

  module _ ⦃Y : YajlGen⦄ where
    -- `rec` is generate_node_json
    unfoldable pub generate_pairs : (rec : Ptr → Y.Gen → Prog Y.Gen) → Entries → Y.Gen → Prog Y.Gen
    unfolding load_pair
    generate_pairs rec [] g = pure g
    generate_pairs rec ((_, p) ∷ rest) g = do
      (key, value) ← load_pair p
      g' ← rec value (Y.gen (string_token (c_str key)) g)
      generate_pairs rec rest g'

    unfoldable pub generate_map_json :
        (rec : Ptr → Y.Gen → Prog Y.Gen) → Entries → Y.Gen → Prog Y.Gen
    unfolding generate_pairs
    generate_map_json rec es g = do
      g' ← generate_pairs rec es (Y.gen map_open g)
      pure (Y.gen map_close g')

    unfoldable pub generate_elems : (rec : Ptr → Y.Gen → Prog Y.Gen) → List Ptr → Y.Gen → Prog Y.Gen
    unfolding load_elem
    generate_elems rec [] g = pure g
    generate_elems rec (p ∷ rest) g = do
      node ← load_elem p
      g' ← rec node g
      generate_elems rec rest g'

    unfoldable pub generate_array_json :
        (rec : Ptr → Y.Gen → Prog Y.Gen) → List Ptr → Y.Gen → Prog Y.Gen
    unfolding generate_elems
    generate_array_json rec ps g = do
      g' ← generate_elems rec ps (Y.gen array_open g)
      pure (Y.gen array_close g')

    unfoldable pub generate_node_json : ℕ → Ptr → Y.Gen → Prog Y.Gen
    unfolding generate_map_json generate_array_json
    generate_node_json zero node g = λ _. out_of_fuel
    generate_node_json (suc f) node g = if node == null then pure (Y.gen null_token g) else do
      o ← load node
      elim o [
        | array_node q n ↦ generate_array_json (generate_node_json f) (L.items q) g
        | map_node t ↦ generate_map_json (generate_node_json f) (L.entries t) g
        | null_node ↦ pure (Y.gen null_token g)
        | bool_node b ↦ pure (Y.gen (bool_token b) g)
        | int_node z ↦ pure (Y.gen (integer_token z) g)
        | double_node d ↦ pure (Y.gen (double_token d) g)
        | string_node s ↦ pure (Y.gen (string_token (c_str s)) g)
        | key_value k v m ↦ pure g
        | array_elem n a ↦ crash
      ]

    -- The buffer that is returned; a NUL is written behind it.
    unfoldable pub to_json : ℕ → (root : Ptr) → (beautify : ℕ) → Prog Bytes
    unfolding generate_node_json
    to_json f root beautify = do
      g ← generate_node_json f root (Y.gen_alloc beautify)
      pure (Y.get_buf g)
