-- ===== src/Update.antt =====
-- pt_map_update of src/pillowtalk_impl.c. The loop follows `hh.next` of the additions as they are
-- after each round; each call and each round costs a unit of fuel. The parameter `append` of the
-- source is passed on and never read.
pub mod Code
pub mod Merge
pub mod Round
pub mod Loop
pub mod Merged
pub mod Released
pub mod Existing
pub mod Ready
use pillowtalk.Prelude.{ℕ, zero, suc, Bool, true, false, none, some, ◌||◌, ◌==◌, if◌then◌else◌}
use pillowtalk.Libraries.{Bytes, Ptr, Libraries}
use pillowtalk.Heap.{
  null, out_of_fuel, pure, crash, ◌>>=◌, ◌>>◌, load, Obj, map_node, Prog, PtType, type_of, pt_map,
  pt_array, pt_null, pt_boolean, pt_integer, pt_double, pt_string, pt_key_value,
}
use pillowtalk.Map.{map_get, map_set}
use pillowtalk.Iterator.{head_ptr, addresses, next_pair}
use pillowtalk.Clone.{load_pair, clone}

abbrev pub type_code : PtType → ℕ
type_code pt_map = 0
type_code pt_array = 1
type_code pt_null = 2
type_code pt_boolean = 3
type_code pt_integer = 4
type_code pt_double = 5
type_code pt_string = 6
type_code pt_key_value = 7

module _ ⦃L : Libraries⦄ where
  -- `p->type`
  unfoldable pub load_type : Ptr → Prog PtType
  load_type p = do o ← load p; elim (type_of o) [ none ↦ crash | some ty ↦ pure ty ]

  -- `key_value = key_value->hh.next`
  unfoldable pub advance : Ptr → Prog Ptr
  unfolding next_pair
  advance pair = do o ← load pair; elim o [ Obj.key_value k v m ↦ next_pair pair m | _ ↦ crash ]

  -- The switch on the type that both values have: `rec` is pt_map_update, whose result is dropped.
  unfoldable pub merge_same_type :
      (rec : Ptr → Ptr → Prog ℕ) (fuel : ℕ)
      → (root : Ptr) → Bytes
      → (value existing : Ptr) → PtType
      → Prog Bool
  merge_same_type rec fuel root key value existing pt_map = rec existing value >> pure true
  merge_same_type rec fuel root key value existing _ = do
    copy ← clone fuel value
    map_set fuel root (some key) copy
    pure true

  -- One round at a key that the root has. `false` is `return 1`.
  unfoldable pub merge_existing :
      (rec : Ptr → Ptr → Prog ℕ) (fuel : ℕ)
      → (root : Ptr) → Bytes
      → (value existing : Ptr) → Prog Bool
  unfolding load_type merge_same_type
  merge_existing rec fuel root key value existing = do
    tv ← load_type value
    te ← load_type existing
    if type_code tv == type_code te
        then merge_same_type rec fuel root key value existing tv
        else pure false

  unfoldable pub merge_pair :
      (rec : Ptr → Ptr → Prog ℕ) (fuel : ℕ) → (root : Ptr) → Bytes → (value : Ptr) → Prog Bool
  unfolding merge_existing
  merge_pair rec fuel root key value = if value == null then pure true else do
    existing ← map_get root (some key)
    if existing == null
        then (do copy ← clone fuel value; map_set fuel root (some key) copy; pure true)
        else merge_existing rec fuel root key value existing

  unfoldable pub update_loop :
      (rec : Ptr → Ptr → Prog ℕ) (f : ℕ) → (fuel : ℕ) → (root cur : Ptr) → Prog ℕ
  unfolding merge_pair advance
  update_loop rec f zero root cur = λ _. out_of_fuel
  update_loop rec f (suc fuel) root cur = if cur == null then pure 0 else do
    (key, value) ← load_pair cur
    merged ← merge_pair rec f root key value
    elim merged [ false ↦ pure 1 | true ↦ do next ← advance cur; update_loop rec f fuel root next ]

  unfoldable pub first_pair : Ptr → Prog Ptr
  first_pair map = do
    o ← load map
    elim o [ map_node t ↦ pure (head_ptr (addresses (L.entries t))) | _ ↦ crash ]

  unfoldable pub map_update : ℕ → (root additions : Ptr) → (append : ℕ) → Prog ℕ
  unfolding update_loop first_pair load_type
  map_update zero root additions append = λ _. out_of_fuel
  map_update (suc f) root additions append =
      if (root == null) || (additions == null) then pure 1 else do
        tr ← load_type root
        if type_code tr == 0
            then (do
              ta ← load_type additions
              if type_code ta == 0
                  then first_pair additions
                    >>= update_loop (λ r a. map_update f r a append) f f root
                  else pure 1)
            else pure 1
