-- ===== src/Requests/Fetched.antt =====
-- pt_get as a whole: transfer, body and parser.
use pillowtalk.Prelude.{Option, ℕ, ◌<◌, ◌≤◌, ◌≡◌, refl, none, some, [], ◌∷◌, ◌++◌, map, length, ◌^◌}
use pillowtalk.Libraries.{Bytes, Libraries}
use pillowtalk.Heap.{Heap, Obj}
use pillowtalk.Heap.Access.{IsHeap}
use pillowtalk.Heap.Returns.{Returns, done, Returns-and_then}
use pillowtalk.Value.{Value}
use pillowtalk.Chunk.{Block}
use pillowtalk.Http.{Method, get_method, Transfer, Curl, http_operation}
use pillowtalk.Http.Body.{CanCopy, body, AllGranted, outcome, reply_for, http_operation-body}
use pillowtalk.Parser.{YajlParse}
use pillowtalk.Parser.Events.{events_of, cost}
use pillowtalk.Parser.Document.{Parsed, parse_json-Parsed}
use pillowtalk.Requests.{Response, get, parse_reply, read_bytes, body_of}

read_bytes-map :
    (bs : Bytes) (rest : Block) → read_bytes (length bs) (map some bs ++ rest) ≡ some bs
unfolding read_bytes
read_bytes-map [] rest = refl
read_bytes-map (b ∷ bs) rest = rw (read_bytes-map bs rest) refl

body_of-reply_for : (t : Transfer) (bs : Bytes) → body_of (reply_for t bs) ≡ some bs
unfolding body_of
body_of-reply_for t [] = refl
body_of-reply_for t (b ∷ bs) = read_bytes-map (b ∷ bs) (some 0 ∷ [])

module _ ⦃L : Libraries⦄ where
  -- The response has the reply of the transfer, and a document of the value.
  pub record Fetched (t : Transfer) (v : Value) (h : Heap Obj) (r : Response) (h' : Heap Obj)
      : Type 0 where
    pub reply_is : r.reply ≡ reply_for t (body t.steps)
    pub document : Parsed v h r.root h'

module _ ⦃L : Libraries⦄ ⦃C : Curl⦄ where
  module _ ⦃P : YajlParse⦄ where
    -- A transfer that has gone well, and its body read by yajl.
    pub parse_reply-Fetched :
        (m : Method) (url : Bytes) (data' : Option Bytes) (n : ℕ) (v : Value) (h : Heap Obj)
        → CanCopy (outcome m url data' n) data' n
        → (outcome m url data' n).perform_code ≡ 0
        → AllGranted (outcome m url data' n).steps
        → length (body (outcome m url data' n).steps) < 2 ^ 31
        → P.events (body (outcome m url data' n).steps) ≡ events_of v
        → IsHeap h
        → cost v ≤ h.room
        → Returns
            (Fetched (outcome m url data' n) v h)
            (parse_reply (http_operation m url data' n) h)
    unfolding parse_reply
    parse_reply-Fetched m url data' n v h can fine granted small reads w room =
        let t = outcome m url data' n in
        rw
          (
            http_operation-body m url data' n can fine granted small,
            parse_reply,
            body_of-reply_for t (body t.steps),
          )
          (Returns-and_then (parse_json-Parsed (body t.steps) v h reads w room)
            λ root h' p. done (record { reply_is = refl; document = p }))

    -- Where the transfer succeeds with every allocation granted, its body is below 2^31 bytes, yajl reads
    -- it as a value and memory suffices, pt_get ends without a fault; the response has the status and
    -- the body, and its root is a tree of new structs that stands for the value.
    pub get-Fetched :
        (url : Bytes) (v : Value) (h : Heap Obj)
        → (outcome get_method url none 0).perform_code ≡ 0
        → AllGranted (outcome get_method url none 0).steps
        → length (body (outcome get_method url none 0).steps) < 2 ^ 31
        → P.events (body (outcome get_method url none 0).steps) ≡ events_of v
        → IsHeap h
        → cost v ≤ h.room
        → Returns (Fetched (outcome get_method url none 0) v h) (get url h)
    unfolding get
    get-Fetched url v h = parse_reply-Fetched get_method url none 0 v h tt
