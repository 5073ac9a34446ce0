-- ===== src/Libraries.antt =====
-- The third-party containers and number types that pillowtalk_impl.c calls, as interfaces: the hash
-- table of uthash.h, the tail queue of bsd_queue.h and the C `double`.
pub mod Lists
use pillowtalk.Prelude.{
  ℕ, ◌≡◌, ◌≢◌, Bool, true, false, ◌||◌, ◌&&◌, ◌==◌, if◌then◌else◌, same_bytes, Option, none, some,
  List, [], ◌∷◌, ◌++◌,
}
use pillowtalk.Prelude.Int.{ℤ}

-- Bytes of a text without its closing NUL.
abbrev pub Bytes : Type 0
Bytes = List ℕ

-- Addresses; 0 is NULL.
abbrev pub Ptr : Type 0
Ptr = ℕ

-- What a hash table holds: each key with the address of its item, in the order of `hh.next`.
abbrev pub Entries : Type 0
Entries = List (Bytes × Ptr)

abbrev pub holds : Bytes → Ptr → Entries → Bool
holds k p [] = false
holds k p ((j, q) ∷ es) = (same_bytes j k && (q == p)) || holds k p es

abbrev pub has_key : Bytes → Entries → Bool
has_key k [] = false
has_key k ((j, q) ∷ es) = same_bytes j k || has_key k es

abbrev pub without_item : Ptr → Entries → Entries
without_item p [] = []
without_item p ((j, q) ∷ es) = if q == p then es else (j, q) ∷ without_item p es

abbrev pub without : Ptr → List Ptr → List Ptr
without p [] = []
without p (q ∷ qs) = if q == p then qs else q ∷ without p qs

-- uthash.h: HASH_FIND, HASH_ADD_KEYPTR, HASH_DEL and the list threaded by `hh.next`. The item that
-- HASH_FIND gives is one with that key; which one is left open where two share the key.
pub record Uthash : Type 1 where
  pub Table : Type 0
  pub empty : Table
  pub entries : Table → Entries
  pub find : Bytes → Table → Option Ptr
  pub add_keyptr : Bytes → Ptr → Table → Table
  pub del : Ptr → Table → Table
  pub entries-empty : entries empty ≡ []
  pub entries-add_keyptr :
      (k : Bytes) (p : Ptr) (t : Table) → entries (add_keyptr k p t) ≡ entries t ++ (k, p) ∷ []
  pub entries-del : (p : Ptr) (t : Table) → entries (del p t) ≡ without_item p (entries t)
  pub holds_of_find :
      (k : Bytes) (t : Table) (p : Ptr) → find k t ≡ some p → holds k p (entries t) ≡ true
  pub has_key_of_find_none :
      (k : Bytes) (t : Table) → find k t ≡ none → has_key k (entries t) ≡ false

-- bsd_queue.h: the TAILQ macros.
pub record Tailq : Type 1 where
  pub Queue : Type 0
  pub init : Queue
  pub items : Queue → List Ptr
  pub insert_head : Ptr → Queue → Queue
  pub insert_tail : Ptr → Queue → Queue
  pub remove : Ptr → Queue → Queue
  pub items-init : items init ≡ []
  pub items-insert_head : (p : Ptr) (q : Queue) → items (insert_head p q) ≡ p ∷ items q
  pub items-insert_tail : (p : Ptr) (q : Queue) → items (insert_tail p q) ≡ items q ++ p ∷ []
  pub items-remove : (p : Ptr) (q : Queue) → items (remove p q) ≡ without p (items q)

-- The C type `double` and its conversions from and to `int`.
pub record Doubles : Type 1 where
  pub Double : Type 0
  pub zero_double : Double
  pub of_int : ℤ → Double
  pub trunc : Double → ℤ

pub record Libraries : Type 1 where
  pub uthash : Uthash
  pub open uthash use *
  pub tailq : Tailq
  pub open tailq use *
  pub doubles : Doubles
  pub open doubles use *
