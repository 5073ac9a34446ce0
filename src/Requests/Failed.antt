-- ===== src/Requests/Failed.antt =====
-- The requests where the server cannot be reached.
use pillowtalk.Prelude.{
  true, ◌==◌, ℕ, ◌^◌, ◌<◌, ◌≡◌, ◌≢◌, refl, inl, inr, Bool-cases, false, Option, none, some, [],
  length, arith,
}
use pillowtalk.Libraries.{Bytes, Libraries}
use pillowtalk.Heap.{Heap, ok, null, Obj}
use pillowtalk.Tree.{Tree, root_of, Holds}
use pillowtalk.Http.{
  Method, get_method, put_method, delete_method, Request, request, Curl, failed_reply,
  http_operation,
}
use pillowtalk.Http.Body.{CanCopy, body, AllGranted, outcome, http_operation-answer}
use pillowtalk.Json.{YajlGen}
use pillowtalk.Json.Tokens.{depth, to_json-tokens}
use pillowtalk.Parser.{YajlParse, parse_json, run_callbacks}
use pillowtalk.Requests.{
  data_len-le, Response, read_bytes, body_of, parse_reply, unparsed_get, get, delete, put_raw, put,
}

-- Whatever the request, the transfer fails, with every allocation granted, and less than 2^31 bytes
-- are received before.
pub record Unreachable ⦃C : Curl⦄ : Type 0 where
  pub fails : (r : Request) → (C.perform r).perform_code ≢ 0
  pub granted : (r : Request) → AllGranted (C.perform r).steps
  pub copied : (r : Request) → (C.perform r).copied ≡ true
  pub small : (r : Request) → length (body (C.perform r).steps) < 2 ^ 31

-- The response with status 500, without a text and a document.
abbrev pub failed_response : Response
failed_response = record { root = null; reply = failed_reply }

module _ ⦃L : Libraries⦄ ⦃C : Curl⦄ where
  failed_operation :
      (m : Method) (url : Bytes) (data' : Option Bytes) (n : ℕ)
      → Unreachable
      → CanCopy (outcome m url data' n) data' n
      → http_operation m url data' n ≡ some failed_reply
  failed_operation m url data' n u can =
      let r = request m url data' n in
      let failed : ((outcome m url data' n).perform_code == 0) ≡ false =
        ground (arith, u.fails r) in
      rw (http_operation-answer m url data' n can (u.granted r) (u.small r), failed) refl

  module _ ⦃P : YajlParse⦄ where
    failed_parse :
        (m : Method) (url : Bytes) (data' : Option Bytes) (n : ℕ) (h : Heap Obj)
        → Unreachable
        → CanCopy (outcome m url data' n) data' n
        → P.events [] ≡ []
        → parse_reply (http_operation m url data' n) h ≡ ok failed_response h
    unfolding parse_reply body_of read_bytes parse_json run_callbacks
    failed_parse m url data' n h u can quiet = rw (failed_operation m url data' n u can, quiet) refl

    -- Where the server cannot be reached, and yajl makes no callback for an empty text, pt_get,
    -- pt_unparsed_get, pt_delete, pt_put_raw, of no more bytes than
    -- its data has, and pt_put, of a tree with more fuel than it is deep, answer
    -- with status 500, no text and no document, and leave the heap as it was.
    pub requests-failed_response :
        ⦃Y : YajlGen⦄
        → (url : Bytes) (data' : Option Bytes) (n fuel : ℕ) (t : Tree) (h : Heap Obj) → Unreachable
        → P.events [] ≡ []
        → CanCopy (outcome put_method url data' n) data' n
        → depth t < fuel
        → Holds h.cell t
        → (get url h ≡ ok failed_response h)
          × (unparsed_get url h ≡ ok failed_response h)
          × (delete url h ≡ ok failed_response h)
          × (put_raw url data' n h ≡ ok failed_response h)
          × (put fuel url (root_of t) h ≡ ok failed_response h)
    unfolding get unparsed_get delete put_raw put
    requests-failed_response url data' n fuel t h u quiet can enough held = (
      failed_parse get_method url none 0 h u tt quiet,
      rw (unparsed_get, failed_operation get_method url none 0 u tt) refl,
      failed_parse delete_method url none 0 h u tt quiet,
      failed_parse put_method url data' n h u can quiet,
      elim (Bool-cases (root_of t == null)) [
        | inl absent ↦ rw absent (failed_parse put_method url none 0 h u tt quiet)
        | inr there ↦
            rw (there, to_json-tokens t fuel h 0 enough held)
              (failed_parse put_method url _ _ h u (u.copied _, data_len-le _) quiet)
      ],
    )
