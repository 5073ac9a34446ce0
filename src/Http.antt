-- ===== src/Http.antt =====
-- http_operation of src/pillowtalk_impl.c, with libcurl as an interface: it makes its callbacks in
-- some order and answers with its codes.
pub mod Body
pub mod Failure
use pillowtalk.Prelude.{
  leb, length, ℕ, zero, suc, ◌+◌, ◌*◌, Bool, true, false, Option, none, some, List, [], ◌∷◌, ◌&&◌,
  map, ◌==◌, ltb, if◌then◌else◌, take,
}
use pillowtalk.Prelude.Int.{ℤ, pos, to_int}
use pillowtalk.Libraries.{Bytes, Ptr, Libraries}
use pillowtalk.Heap.{null, fault, pure, crash, ◌>>=◌, ◌>>◌, Prog}
use pillowtalk.Chunk.{Block, Chunk, copy_in, contents, recv_memory_callback, send_memory_callback}
use pillowtalk.Node.{c_str}
use pillowtalk.Free.{free_node}
use pillowtalk.Json.{YajlGen, to_json}
use pillowtalk.Parser.{YajlParse, parse_json}

pub data Method : Type 0 where
  get_method put_method delete_method : Method

-- What curl_easy_setopt is told: the upload option is set for PUT, and the send callback is installed
-- where there is something to send.
pub record Request : Type 0 where
  pub method : Method
  pub url : Bytes
  pub upload : Bool
  pub sends : Bool

-- One call that libcurl makes during curl_easy_perform.
pub data CurlStep : Type 0 where
  receives : (granted : Bool) → Bytes → CurlStep
  reads : (size nmemb : ℕ) → CurlStep

-- What the environment does for a request: whether malloc grants a copy of the data, what
-- curl_easy_perform does and returns, and what curl_easy_getinfo answers; code 0 is CURLE_OK.
pub record Transfer : Type 0 where
  pub copied : Bool
  pub steps : List CurlStep
  pub perform_code : ℕ
  pub info_code : ℕ
  pub status : ℤ

pub record Curl : Type 0 where
  pub perform : Request → Transfer

-- pt_response_t, without its root: `raw_json` is the block, NULL if none.
pub record Reply : Type 0 where
  pub response_code : ℤ
  pub raw_json : Option Block
  pub raw_json_len : ℤ

-- The callbacks in order; `none` is a write outside a block.
unfoldable pub transfer :
    (sends : Bool) → List CurlStep → (recv send : Chunk) → Option (Chunk × Chunk)
transfer sends [] recv send = some (recv, send)
transfer sends (receives granted bytes ∷ rest) recv send =
    elim (recv_memory_callback granted bytes recv) [
      | none ↦ none
      | some (n, recv') ↦ transfer sends rest recv' send
    ]
transfer sends (reads size nmemb ∷ rest) recv send =
    transfer sends rest recv (if sends then (send_memory_callback size nmemb send).1 else send)

abbrev pub empty_chunk : Chunk
empty_chunk = record { memory = none; offset = 0; size = 0 }

unfoldable pub is_put : Method → Bool
is_put put_method = true
is_put _ = false

-- `data && data_len > 0`
unfoldable pub has_data : Option Bytes → (data_len : ℕ) → Bool
has_data none n = false
has_data (some d) n = ltb 0 n

-- The malloc and the memcpy; `none` is a copy to NULL, or of more bytes than the data has.
unfoldable pub send_chunk : (granted : Bool) → Option Bytes → (data_len : ℕ) → Option Chunk
unfolding has_data
send_chunk granted none n = some empty_chunk
send_chunk granted (some d) n =
    if ltb 0 n
    then if granted && leb n (length d)
      then some (record { memory = some (map some (take n d)); offset = 0; size = n })
      else none
    else some empty_chunk

-- The body is kept if a byte has come; a NUL is stored behind it, in the block or nowhere.
unfoldable pub reply_of : Transfer → Chunk → Option Reply
reply_of t recv =
    let code = if t.info_code == 0 then t.status else pos 500 in
    if ltb 0 recv.size
    then elim recv.memory [
      | none ↦ none
      | some b ↦ elim (copy_in b recv.size (0 ∷ [])) [
        | none ↦ none
        | some b' ↦ some (record {
          response_code = code;
          raw_json = some b';
          raw_json_len = to_int (pos recv.size);
        })
      ]
    ]
    else some (record { response_code = code; raw_json = none; raw_json_len = pos 0 })

abbrev pub failed_reply : Reply
failed_reply = record { response_code = pos 500; raw_json = none; raw_json_len = pos 0 }

module _ ⦃C : Curl⦄ where
  abbrev pub request : Method → Bytes → Option Bytes → ℕ → Request
  request m url data' n = record {
    method = m;
    url = url;
    upload = is_put m;
    sends = has_data data' n;
  }

  -- `none` is undefined behaviour.
  unfoldable pub http_operation : Method → Bytes → Option Bytes → (data_len : ℕ) → Option Reply
  unfolding transfer send_chunk reply_of
  http_operation m url body n =
      let r = request m url body n in
      let t = C.perform r in
      elim (send_chunk t.copied body n) [
        | none ↦ none
        | some send ↦ elim (transfer r.sends t.steps empty_chunk send) [
          | none ↦ none
          | some (recv, send') ↦ if t.perform_code == 0 then reply_of t recv else some failed_reply
        ]
      ]
