-- ===== src/Requests/Stored.antt =====
-- pt_put as a whole: the document's text is sent, and the answer is read.
use pillowtalk.Prelude.{
  none, ℕ, ◌<◌, ◌≤◌, ◌≡◌, ◌≢◌, Option, some, List, [], ◌∷◌, length, arith, ◌^◌, if◌then◌else◌, true,
}
use pillowtalk.Libraries.{Bytes, Libraries}
use pillowtalk.Heap.{Heap, null, Obj}
use pillowtalk.Heap.Access.{IsHeap, not_null}
use pillowtalk.Heap.Returns.{Returns}
use pillowtalk.Node.{c_str}
use pillowtalk.Value.{Value}
use pillowtalk.Tree.{Tree, root_of, meaning, Holds}
use pillowtalk.Chunk.{Block}
use pillowtalk.Chunk.Send.{drain, offered, Exhausted}
use pillowtalk.Http.{
  Method, put_method, CurlStep, receives, reads, Transfer, Curl, request, send_chunk,
}
use pillowtalk.Http.Body.{body, AllGranted, outcome}
use pillowtalk.Json.{YajlGen}
use pillowtalk.Json.Tokens.{depth, to_json-tokens}
use pillowtalk.Json.RoundTrip.{text_of}
use pillowtalk.Parser.{YajlParse}
use pillowtalk.Parser.Events.{events_of, cost}
use pillowtalk.Requests.{data_len-small, put, put_raw}
use pillowtalk.Requests.Fetched.{Fetched, parse_reply-Fetched}

-- The reads that libcurl makes in the course of a transfer.
abbrev pub reads_of : List CurlStep → List (ℕ × ℕ)
reads_of [] = []
reads_of (receives granted bytes ∷ rest) = reads_of rest
reads_of (reads size nmemb ∷ rest) = (size, nmemb) ∷ reads_of rest

module _ ⦃L : Libraries⦄ ⦃P : YajlParse⦄ ⦃G : YajlGen⦄ where
  -- The text that pt_put sends for a value.
  abbrev pub sent_text : Value → Bytes
  sent_text v = c_str (text_of 0 v)

module _ ⦃L : Libraries⦄ ⦃C : Curl⦄ where
  -- What the send callback hands over in the course of a transfer, if it is installed.
  abbrev pub uploaded : Method → Bytes → Option Bytes → ℕ → Option Block
  uploaded m url data' n =
      if (request m url data' n).sends
      then elim (send_chunk (outcome m url data' n).copied data' n) [
        | none ↦ none
        | some send ↦ some (drain (reads_of (outcome m url data' n).steps) send).0
      ]
      else some []

  -- The last read that libcurl makes asks for a byte at least, and gets none.
  abbrev pub ReadToEnd : Method → Bytes → (data' : Bytes) → Type 0
  ReadToEnd m url b = Exhausted (reads_of (outcome m url (some b) (length b)).steps) (offered b)

  module _ ⦃P : YajlParse⦄ ⦃G : YajlGen⦄ where
    -- What libcurl does for the document.
    abbrev pub put_outcome : Bytes → Value → Transfer
    put_outcome url v = outcome put_method url (some (sent_text v)) (length (sent_text v))

    -- The answer that pt_put returns for a document.
    pub put-answer :
        (url : Bytes) (t : Tree) (v : Value) (fuel : ℕ) (h : Heap Obj)
        → root_of t ≢ null
        → depth t < fuel
        → Holds h.cell t
        → length (sent_text (meaning t)) < 2 ^ 32
        → (put_outcome url (meaning t)).copied ≡ true
        → (put_outcome url (meaning t)).perform_code ≡ 0
        → AllGranted (put_outcome url (meaning t)).steps
        → length (body (put_outcome url (meaning t)).steps) < 2 ^ 31
        → P.events (body (put_outcome url (meaning t)).steps) ≡ events_of v
        → IsHeap h
        → cost v ≤ h.room
        → Returns (Fetched (put_outcome url (meaning t)) v h) (put fuel url (root_of t) h)
    unfolding put put_raw
    put-answer url t v fuel h there deep held short copied fine granted small answer w room =
        rw
          (
            not_null there,
            to_json-tokens t fuel h 0 deep held,
            data_len-small (sent_text (meaning t)) short,
          )
          (parse_reply-Fetched put_method url (some (sent_text (meaning t)))
            (length (sent_text (meaning t))) v h (copied, omega arith) fine granted small answer w
            room)
