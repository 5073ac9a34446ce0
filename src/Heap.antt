-- ===== src/Heap.antt =====
-- The heap that pillowtalk_impl.c works on: the structs of pillowtalk_impl.h at addresses, and
-- commands that allocate, read, write and free them.
pub mod Access
pub mod Returns
pub mod Local
use pillowtalk.Prelude.{
  ℕ, suc, ◌+◌, ◌-◌, ◌≡◌, Bool, true, false, Option, none, some, ◌==◌, if◌then◌else◌,
}
use pillowtalk.Prelude.Int.{ℤ}
use pillowtalk.Libraries.{Bytes, Ptr, Libraries}

abbrev pub null : Ptr
null = 0

-- `room` allocations succeed, at `next` and above; then malloc and calloc return NULL.
pub record Heap (O : Type 0) : Type 0 where
  pub next : Ptr
  pub room : ℕ
  pub cell : Ptr → Option O

-- `fault` is undefined behaviour: a read, a write or a free through NULL or through an address that
-- holds no such struct. `aborted` is a failed assert.
pub data Run (O A : Type 0) : Type 0 where
  ok : A → Heap O → Run O A
  fault aborted out_of_fuel : Run O A

abbrev pub Cmd : Type 0 → Type 0 → Type 0
Cmd O A = Heap O → Run O A

module _ {O A : Type 0} where
  abbrev pub pure : A → Cmd O A
  pure = ok

  abbrev pub crash : Cmd O A
  crash h = fault

module _ {O A B : Type 0} where
  abbrev pub and_then : Run O A → (A → Cmd O B) → Run O B
  and_then (ok a h) k = k a h
  and_then fault k = fault
  and_then aborted k = aborted
  and_then out_of_fuel k = out_of_fuel

  infixl 5 ◌>>=◌ ◌>>◌
  abbrev pub ◌>>=◌ : Cmd O A → (A → Cmd O B) → Cmd O B
  m >>= k = λ h. and_then (m h) k

  abbrev pub ◌>>◌ : Cmd O A → Cmd O B → Cmd O B
  m >> n = m >>= λ _. n

module _ {O : Type 0} where
  unfoldable pub write : (Ptr → Option O) → Ptr → Option O → Ptr → Option O
  write f p c a = if p == a then c else f a

  -- `*p`
  unfoldable pub load : Ptr → Cmd O O
  load p h = if p == null then fault else elim (h.cell p) [ none ↦ fault | some o ↦ ok o h ]

  -- `*p = o`
  unfoldable pub store : Ptr → O → Cmd O (Unit {0})
  unfolding load
  store p o = do old ← load p; λ h. ok tt (record h { cell = write h.cell p (some o) })

  unfoldable pub free : Ptr → Cmd O (Unit {0})
  unfolding load
  free p = do old ← load p; λ h. ok tt (record h { cell = write h.cell p none })

  -- calloc or malloc, and the stores that fill the new struct: they are not guarded by a test of the
  -- result, so that they fault where it is NULL.
  unfoldable pub alloc : O → Cmd O Ptr
  alloc o h =
      if h.room == 0
      then fault
      else ok h.next
          (record h { next = h.next + 1; room = h.room - 1; cell = write h.cell h.next (some o) })

-- pt_type_t
pub data PtType : Type 0 where
  pt_map pt_array pt_null pt_boolean pt_integer pt_double pt_string pt_key_value : PtType

-- The structs, by their tag. `map` and `array` stand for the links of `hh` and `entries`: they name
-- the container in which the struct is threaded.
module _ ⦃L : Libraries⦄ where
  pub data Obj : Type 0 where
    map_node : (key_values : L.Table) → Obj
    array_node : (head : L.Queue) → (len : ℕ) → Obj
    null_node : Obj
    bool_node int_node : (value : ℤ) → Obj
    double_node : (value : L.Double) → Obj
    string_node : (value : Bytes) → Obj
    key_value : (key : Bytes) → (value map : Ptr) → Obj
    array_elem : (node array : Ptr) → Obj

  -- `p->type`, and `none` for a struct that has no such field
  abbrev pub type_of : Obj → Option PtType
  type_of (map_node t) = some pt_map
  type_of (array_node q n) = some pt_array
  type_of null_node = some pt_null
  type_of (bool_node b) = some pt_boolean
  type_of (int_node z) = some pt_integer
  type_of (double_node d) = some pt_double
  type_of (string_node s) = some pt_string
  type_of (key_value k v m) = some pt_key_value
  type_of (array_elem n a) = none

  abbrev pub Prog : Type 0 → Type 0
  Prog A = Cmd Obj A
