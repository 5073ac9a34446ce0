-- ===== src/Libraries/Lists.antt =====
-- The interfaces kept as plain lists: they show that the laws can be met, and run the tests.
use pillowtalk.Prelude.{
  ◌≡◌, refl, true, false, Option, none, some, List, [], ◌∷◌, ◌++◌, if◌then◌else◌, same_bytes, arith,
}
use pillowtalk.Prelude.Int.{ℤ, pos}
use pillowtalk.Libraries.{
  Bytes, Ptr, Entries, holds, has_key, without_item, without, Uthash, Tailq, Doubles, Libraries,
}

abbrev pub find_entry : Bytes → Entries → Option Ptr
find_entry k [] = none
find_entry k ((j, p) ∷ es) = if same_bytes j k then some p else find_entry k es

pub holds_of_find :
    (k : Bytes) (es : Entries) (p : Ptr) → find_entry k es ≡ some p → holds k p es ≡ true
holds_of_find k [] p h = ground arith
holds_of_find k ((j, q) ∷ es) p h = ground (arith, holds_of_find k es p)

pub has_key_of_find_none :
    (k : Bytes) (es : Entries) → find_entry k es ≡ none → has_key k es ≡ false
has_key_of_find_none k [] h = refl
has_key_of_find_none k ((j, q) ∷ es) h = ground (arith, has_key_of_find_none k es)

abbrev pub list_hash : Uthash
list_hash = record {
  Table = Entries;
  empty = [];
  entries = λ es. es;
  find = find_entry;
  add_keyptr = λ k p es. es ++ (k, p) ∷ [];
  del = without_item;
  entries-empty = refl;
  entries-add_keyptr = λ k p es. refl;
  entries-del = λ p es. refl;
  holds_of_find = holds_of_find;
  has_key_of_find_none = has_key_of_find_none;
}

abbrev pub list_queue : Tailq
list_queue = record {
  Queue = List Ptr;
  init = [];
  items = λ ps. ps;
  insert_head = λ p ps. p ∷ ps;
  insert_tail = λ p ps. ps ++ p ∷ [];
  remove = without;
  items-init = refl;
  items-insert_head = λ p ps. refl;
  items-insert_tail = λ p ps. refl;
  items-remove = λ p ps. refl;
}

-- Doubles that are whole numbers.
abbrev pub whole_doubles : Doubles
whole_doubles = record { Double = ℤ; zero_double = pos 0; of_int = λ z. z; trunc = λ z. z }

instance abbrev pub list_libraries : Libraries
list_libraries = record { uthash = list_hash; tailq = list_queue; doubles = whole_doubles }
