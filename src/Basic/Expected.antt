-- ===== src/Basic/Expected.antt =====
-- The requests of the example program, and the answers that it expects.
use pillowtalk.Prelude.{
  ℕ, ◌<◌, ◌≤◌, ◌≡◌, ◌≢◌, refl, sym, ap, ◌∙◌, Option, none, some, length, arith, ◌^◌, true,
}
use pillowtalk.Prelude.Int.{pos}
use pillowtalk.Libraries.{Bytes, Ptr, Libraries}
use pillowtalk.Heap.{Heap, ok, null, Obj}
use pillowtalk.Heap.Access.{IsHeap}
use pillowtalk.Heap.Returns.{Returns}
use pillowtalk.Value.{Value}
use pillowtalk.Tree.{Tree, root_of, meaning, Holds}
use pillowtalk.Free.Gone.{size}
use pillowtalk.Clone.Steps.{root_present}
use pillowtalk.Http.{Method, get_method, put_method, delete_method, Curl}
use pillowtalk.Http.Body.{CanCopy, body, AllGranted, outcome}
use pillowtalk.Json.{YajlGen}
use pillowtalk.Json.Depth.{depth-le-size}
use pillowtalk.Parser.{YajlParse}
use pillowtalk.Parser.Events.{events_of, parsed, cost}
use pillowtalk.Requests.{Response, put}
use pillowtalk.Requests.Fetched.{Fetched}
use pillowtalk.Requests.Stored.{sent_text, put-answer}
use pillowtalk.Basic.{Session, database_url, document_url, assertion, is_code}
use pillowtalk.Basic.Build.{three_characters, star_wars}
use pillowtalk.Basic.Revision.{fetched_saga}
use pillowtalk.Basic.Fetched.{edited_saga}

module _ ⦃L : Libraries⦄ ⦃P : YajlParse⦄ where
  -- A transfer that goes well, and whose body yajl reads as the value.
  pub record Answered ⦃C : Curl⦄ (m : Method) (url : Bytes) (data' : Option Bytes) (n : ℕ)
      (v : Value) : Type 0 where
    pub can : CanCopy (outcome m url data' n) data' n
    pub fine : (outcome m url data' n).perform_code ≡ 0
    pub granted : AllGranted (outcome m url data' n).steps
    pub small : length (body (outcome m url data' n).steps) < 2 ^ 31
    pub reads : P.events (body (outcome m url data' n).steps) ≡ events_of v

  -- One that has a status too.
  pub record AnsweredWith ⦃C : Curl⦄ (code : ℕ) (m : Method) (url : Bytes) (data' : Option Bytes)
      (n : ℕ) (v : Value) : Type 0 where
    pub answered : Answered m url data' n v
    pub known : (outcome m url data' n).info_code ≡ 0
    pub status : (outcome m url data' n).status ≡ pos code

  pub code-ok :
      ⦃C : Curl⦄
      → (code : ℕ) (m : Method) (url : Bytes) (data' : Option Bytes) (n : ℕ) (v : Value)
        (h h1 h2 : Heap Obj) (r : Response)
      → AnsweredWith code m url data' n v
      → Fetched (outcome m url data' n) v h r h1
      → assertion (is_code code r.reply.response_code) h2 ≡ ok tt h2
  unfolding assertion
  code-ok code m url data' n v h h1 h2 r a f =
      let e : r.reply.response_code ≡ pos code =
        ap (λ x. x.response_code) f.reply_is ∙ rw (a.known, a.status) refl in
      let yes' : is_code code r.reply.response_code ≡ true = ap (is_code code) e ∙ ground arith in
      rw yes' refl

  pub parsed-fetched_saga : (rev : Option Bytes) → parsed (fetched_saga rev) ≡ fetched_saga rev
  unfolding parsed
  parsed-fetched_saga none = refl
  parsed-fetched_saga (some rev) = refl

  pub document-root :
      (t : Tree) (root : Ptr) (h : Heap Obj)
      → root_of t ≡ root
      → meaning t ≡ star_wars
      → Holds h.cell t
      → root ≢ null
  document-root t root h root_is means held =
      let there = root_present t h.cell held (λ e. cc (e, means)) in λ e. there (root_is ∙ e)

  module _ ⦃G : YajlGen⦄ where
    -- The request that saves a document, and what the server answers.
    abbrev pub Saved : ⦃C : Curl⦄ → (code : ℕ) (sent v : Value) → Type 0
    Saved code sent v =
        AnsweredWith code put_method document_url (some (sent_text sent)) (length (sent_text sent))
          v

    pub save :
        ⦃C : Curl⦄
        → (fuel : ℕ) (t : Tree) (q : Ptr) (sent v : Value) (h : Heap Obj)
        → Answered put_method document_url (some (sent_text sent)) (length (sent_text sent)) v
        → length (sent_text sent) < 2 ^ 32
        → root_of t ≡ q
        → q ≢ null
        → meaning t ≡ sent
        → size t < fuel
        → Holds h.cell t
        → IsHeap h
        → cost v ≤ h.room
        → Returns
            (Fetched
              (outcome put_method document_url (some (sent_text sent)) (length (sent_text sent)))
              v
              h)
            (put fuel document_url q h)
    save fuel t q sent v h a short root there means lt held w room =
        rw (← root, ← means)
          (put-answer document_url t v fuel h (λ e. there (sym root ∙ e))
            (omega (arith, depth-le-size t)) held (rw means short) (rw means a.can.0)
            (rw means a.fine) (rw means a.granted) (rw means a.small) (rw means a.reads) w room)

    -- The server that the program expects: the values are those of its answers, of which the fetched one
    -- is the document that has been saved, with the server's revision or without one.
    pub record Expected (s : Session) (rev : Option Bytes) (deleted created saved updated : Value)
        : Type 0 where
      pub at_delete : Answered ⦃C = s.at_delete⦄ delete_method database_url none 0 deleted
      pub at_create : Answered ⦃C = s.at_create⦄ put_method database_url none 0 created
      pub at_save : Saved ⦃C = s.at_save⦄ 201 star_wars saved
      pub at_fetch :
          AnsweredWith ⦃C = s.at_fetch⦄ 200 get_method document_url none 0 (fetched_saga rev)
      pub short : length (sent_text star_wars) < 2 ^ 32
      pub short_edited : length (sent_text (edited_saga rev three_characters)) < 2 ^ 32
      pub at_update :
          Answered ⦃C = s.at_update⦄ put_method document_url
            (some (sent_text (edited_saga rev three_characters)))
            (length (sent_text (edited_saga rev three_characters)))
            updated
