-- ===== src/Requests.antt =====
-- The public requests of src/pillowtalk_impl.c: pt_delete, pt_put, pt_put_raw, pt_unparsed_get and
-- pt_get, and pt_free_response. The URL and the answer are those of http_operation.
pub mod Fetched
pub mod Stored
pub mod Released
pub mod Failed
use pillowtalk.Prelude.{
  ℕ, ◌<◌, ◌≤◌, ◌≡◌, ◌^◌, arith, Option, none, some, [], ◌∷◌, ◌==◌, if◌then◌else◌, length,
}
use pillowtalk.Prelude.Int.{pos, negsuc, word32, to_int}
use pillowtalk.Libraries.{Bytes, Ptr, Libraries}
use pillowtalk.Heap.{null, pure, crash, ◌>>=◌, Prog}
use pillowtalk.Chunk.{Block, contents}
use pillowtalk.Node.{c_str}
use pillowtalk.Free.{free_node}
use pillowtalk.Json.{YajlGen, to_json}
use pillowtalk.Parser.{YajlParse, parse_json}
use pillowtalk.Http.{get_method, put_method, delete_method, Reply, Curl, http_operation}

-- pt_response_t
pub record Response : Type 0 where
  pub root : Ptr
  pub reply : Reply

-- The first `n` bytes of a block; `none` if one of them was never written or lies outside.
unfoldable pub read_bytes : ℕ → Block → Option Bytes
read_bytes ℕ.zero b = some []
read_bytes (ℕ.suc n) [] = none
read_bytes (ℕ.suc n) (none ∷ b) = none
read_bytes (ℕ.suc n) (some x ∷ b) = elim (read_bytes n b) [ none ↦ none | some xs ↦ some (x ∷ xs) ]

-- `raw_json` with `raw_json_len`; a negative length is read as a huge one.
unfoldable pub body_of : Reply → Option Bytes
unfolding read_bytes
body_of r = elim r.raw_json_len [ pos n ↦ read_bytes n (contents r.raw_json) | negsuc n ↦ none ]

-- `int data_len = strlen(data)`, and then the conversion to `unsigned`.
unfoldable pub data_len : Bytes → ℕ
data_len data' = word32 (to_int (pos (length data')))

pub data_len-small : (data' : Bytes) → length data' < 2 ^ 32 → data_len data' ≡ length data'
unfolding data_len to_int
data_len-small data' small = ground arith

pub data_len-le : (data' : Bytes) → data_len data' ≤ length data'
unfolding data_len to_int
data_len-le data' = ground arith

module _ ⦃L : Libraries⦄ ⦃C : Curl⦄ where
  unfoldable pub unparsed_get : Bytes → Prog Response
  unparsed_get url = elim (http_operation get_method url none 0) [
    | none ↦ crash
    | some reply ↦ pure (record { root = null; reply = reply })
  ]

  module _ ⦃P : YajlParse⦄ where
    -- `res->root = parse_json(res->raw_json, res->raw_json_len)`
    unfoldable pub parse_reply : Option Reply → Prog Response
    parse_reply none = crash
    parse_reply (some reply) = elim (body_of reply) [
      | none ↦ crash
      | some body ↦ do root ← parse_json body; pure (record { root = root; reply = reply })
    ]

    unfoldable pub delete : Bytes → Prog Response
    unfolding parse_reply
    delete url = parse_reply (http_operation delete_method url none 0)

    unfoldable pub get : Bytes → Prog Response
    unfolding parse_reply
    get url = parse_reply (http_operation get_method url none 0)

    unfoldable pub put_raw : Bytes → Option Bytes → (data_len : ℕ) → Prog Response
    unfolding parse_reply
    put_raw url body n = parse_reply (http_operation put_method url body n)

    unfoldable pub put : ⦃Y : YajlGen⦄ → (fuel : ℕ) → Bytes → (doc : Ptr) → Prog Response
    unfolding put_raw data_len
    put fuel url doc =
        if doc == null
        then put_raw url none 0
        else do text ← to_json fuel doc 0; put_raw url (some (c_str text)) (data_len (c_str text))

module _ ⦃L : Libraries⦄ where
  -- The response struct and its text are released with it.
  unfoldable pub free_response : (fuel : ℕ) → Option Response → Prog (Unit {0})
  free_response fuel none = pure tt
  free_response fuel (some r) = if r.root == null then pure tt else free_node fuel r.root
