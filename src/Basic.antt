-- ===== src/Basic.antt =====
-- The example program examples/basic.c. libcurl answers each of its five requests in its own way, and
-- pt_init and pt_cleanup are left out. A string constant is its bytes.
pub mod Strings
pub mod Build
pub mod Revision
pub mod Edit
pub mod Fetched
pub mod Main
pub mod Expected
use Prim.Native.Char.{code}
use Prim.Native.String.{String}
use pillowtalk.Prelude.{ℕ, Bool, true, false, Option, none, some, [], ◌∷◌, ◌==◌, same_bytes}
use pillowtalk.Prelude.Int.{ℤ, pos, negsuc}
use pillowtalk.Libraries.{Bytes, Ptr, Libraries}
use pillowtalk.Heap.{null, aborted, pure, crash, ◌>>=◌, ◌>>◌, Prog}
use pillowtalk.Node.{c_str, map_new, array_new, string_new, string_get}
use pillowtalk.Free.{free_node}
use pillowtalk.Array.{array_len, array_push_back}
use pillowtalk.Map.{map_get, map_set}
use pillowtalk.Json.{YajlGen}
use pillowtalk.Parser.{YajlParse}
use pillowtalk.Http.{Curl}
use pillowtalk.Requests.{get, put, delete, free_response}

-- The bytes of a string constant.
abbrev pub codes : String → Bytes
codes String.[] = []
codes (String.◌∷◌ c s) = code c ∷ codes s

abbrev pub database_url : Bytes
database_url = codes "http://localhost:5984/pillowtalk_basics"

abbrev pub document_url : Bytes
document_url = codes "http://localhost:5984/pillowtalk_basics/star_wars"

-- What libcurl does for the requests of the program, in their order.
pub record Session : Type 0 where
  pub at_delete : Curl
  pub at_create : Curl
  pub at_save : Curl
  pub at_fetch : Curl
  pub at_update : Curl

module _ ⦃L : Libraries⦄ where
  unfoldable pub assertion : Bool → Prog (Unit {0})
  assertion true = pure tt
  assertion false = λ _. aborted

  abbrev pub is_code : ℕ → ℤ → Bool
  is_code n (pos m) = m == n
  is_code n (negsuc m) = false

  -- `pt_map_set(map,key,pt_string_new(s))`
  unfoldable pub set_string : (fuel : ℕ) → (map : Ptr) → (key s : String) → Prog (Unit {0})
  set_string fuel map key s = string_new (some (codes s)) >>= map_set fuel map (some (codes key))

  -- `pt_array_push_back(array,pt_string_new(s))`
  unfoldable pub push_string : (array : Ptr) → (s : String) → Prog (Unit {0})
  push_string array s = string_new (some (codes s)) >>= array_push_back array

  unfoldable pub build_document : (fuel : ℕ) → Prog Ptr
  unfolding set_string push_string
  build_document fuel = do
    root ← map_new
    set_string fuel root "_id" "star_wars"
    movies ← map_new
    map_set fuel root (some (codes "movies")) movies
    ep4 ← map_new
    ep4_chars ← array_new
    push_string ep4_chars "Luke Skywalker"
    push_string ep4_chars "Han Solo"
    push_string ep4_chars "Obi Wan Kenobi"
    map_set fuel ep4 (some (codes "characters")) ep4_chars
    map_set fuel movies (some (codes "Star Wars Episode IV")) ep4
    pure root

  -- `strcmp(id,"star_wars")` of NULL is undefined.
  unfoldable pub check_id : Option Bytes → Prog (Unit {0})
  unfolding assertion
  check_id none = crash
  check_id (some id) = assertion (same_bytes (c_str id) (codes "star_wars"))

  unfoldable pub edit_document : (fuel : ℕ) → (doc : Ptr) → Prog (Unit {0})
  unfolding check_id assertion set_string push_string
  edit_document fuel doc = do
    id_node ← map_get doc (some (codes "_id"))
    id ← string_get id_node
    check_id id
    movies ← map_get doc (some (codes "movies"))
    ep4_node ← map_get movies (some (codes "Star Wars Episode IV"))
    characters_node ← map_get ep4_node (some (codes "characters"))
    array_length ← array_len characters_node
    assertion (array_length == 3)
    set_string fuel ep4_node "year" "1977"
    push_string characters_node "Princess Leia"

  module _ ⦃P : YajlParse⦄ ⦃Y : YajlGen⦄ where
    unfoldable pub main : Session → (fuel : ℕ) → Prog (Unit {0})
    unfolding build_document edit_document assertion
    main s fuel = do
      root ← build_document fuel
      deleted ← delete ⦃C = s.at_delete⦄ database_url
      free_response fuel (some deleted)
      created ← put ⦃C = s.at_create⦄ fuel database_url null
      free_response fuel (some created)
      saved ← put ⦃C = s.at_save⦄ fuel document_url root
      assertion (is_code 201 saved.reply.response_code)
      free_response fuel (some saved)
      free_node fuel root
      fetched ← get ⦃C = s.at_fetch⦄ document_url
      assertion (is_code 200 fetched.reply.response_code)
      edit_document fuel fetched.root
      put_response ← put ⦃C = s.at_update⦄ fuel document_url fetched.root
      free_response fuel (some fetched)
      free_response fuel (some put_response)
