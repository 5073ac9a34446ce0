-- ===== src/Http/Body.antt =====
-- What http_operation answers: the whole body where every allocation succeeds, and 500 where the
-- transfer fails.
use pillowtalk.Prelude.{
  ap, leb, ltb, take, ◌≤◌, ℕ, ◌+◌, ◌^◌, ◌<◌, ◌≡◌, refl, sym, ◌∙◌, inl, inr, Bool-cases, Bool, true,
  Option, none, some, List, [], ◌∷◌, ◌++◌, map, arith, ◌==◌, length, length-append, length-map,
  append_assoc, append-nil, if◌then◌else◌,
}
use pillowtalk.Prelude.Int.{pos, to_int-IsInt}
use pillowtalk.Libraries.{Bytes}
use pillowtalk.Chunk.{Chunk, size_max, send_memory_callback}
use pillowtalk.Chunk.Receive.{
  Received, filled, filled-Received, recv_memory_callback-Received, copy_in-middle,
}
use pillowtalk.Http.{
  Method, CurlStep, receives, reads, Transfer, Curl, Reply, transfer, empty_chunk, send_chunk,
  reply_of, request, http_operation, failed_reply,
}

-- The bytes that libcurl hands over in the course of a transfer.
unfoldable pub body : List CurlStep → Bytes
body [] = []
body (receives granted bytes ∷ rest) = bytes ++ body rest
body (reads size nmemb ∷ rest) = body rest

abbrev pub AllGranted : List CurlStep → Type 0
AllGranted [] = Unit
AllGranted (receives granted bytes ∷ rest) = (granted ≡ true) × AllGranted rest
AllGranted (reads size nmemb ∷ rest) = AllGranted rest

-- The transfer ends with the whole body in the receiving chunk.
pub transfer-Received :
    (steps : List CurlStep) (sends : Bool) (recv send : Chunk) (bs : Bytes)
    → Received recv bs
    → AllGranted steps
    → length bs + length (body steps) + 1 < size_max
    → (recv' send' : Chunk) × (transfer sends steps recv send ≡ some (recv', send'))
      × Received recv' (bs ++ body steps)
unfolding transfer body
transfer-Received [] sends recv send bs r g small = (recv, send, refl, rw (append-nil bs) r)
transfer-Received (receives granted bytes ∷ rest) sends recv send bs r (yes', g) small =
    let step =
      recv_memory_callback-Received recv bs bytes r
        (omega (arith, length-append bytes (body rest))) in
    let (recv', send', run, r') =
      transfer-Received rest sends (filled bs bytes) send (bs ++ bytes) (filled-Received bs bytes) g
        (omega (arith, length-append bytes (body rest), length-append bs bytes)) in
    (recv', send', rw (yes', transfer, step) run, rw (← append_assoc bs bytes (body rest)) r')
transfer-Received (reads size nmemb ∷ rest) sends recv send bs r g small =
    transfer-Received rest sends recv
      (if sends then (send_memory_callback size nmemb send).1 else send) bs r g small

-- The reply to a transfer that has gone well.
abbrev pub reply_for : Transfer → Bytes → Reply
reply_for t bs = record {
  response_code = if t.info_code == 0 then t.status else pos 500;
  raw_json = elim bs [ [] ↦ none | b ∷ more ↦ some (map some (b ∷ more) ++ some 0 ∷ []) ];
  raw_json_len = pos (length bs);
}

reply_of-Received :
    (t : Transfer) (recv : Chunk) (bs : Bytes)
    → Received recv bs
    → length bs < 2 ^ 31
    → reply_of t recv ≡ some (reply_for t bs)
unfolding reply_of
reply_of-Received t recv [] (sz, m) small = ground arith
reply_of-Received t recv (x ∷ bs) (sz, inl (m, nil)) small = ground arith
reply_of-Received t recv (x ∷ bs) (sz, inr m) small =
    let all = map {B = Option ℕ} some (x ∷ bs) in
    let closed =
      copy_in-middle all (some 0 ∷ []) [] (0 ∷ []) recv.size (sz ∙ sym (length-map (x ∷ bs) some))
        refl in
    ground (arith, closed, to_int-IsInt (pos (length (x ∷ bs))))

module _ ⦃C : Curl⦄ where
  -- What libcurl does for a request.
  abbrev pub outcome : Method → Bytes → Option Bytes → ℕ → Transfer
  outcome m url data' n = C.perform (request m url data' n)

  -- The data has `n` bytes at least, and the allocation for their copy is granted.
  abbrev pub CanCopy : Transfer → Option Bytes → ℕ → Type 0
  CanCopy t none n = Unit
  CanCopy t (some d) n = (t.copied ≡ true) × (n ≤ length d)

  pub send_chunk-CanCopy :
      (t : Transfer) (data' : Option Bytes) (n : ℕ)
      → CanCopy t data' n
      → (send : Chunk) × (send_chunk t.copied data' n ≡ some send)
  unfolding send_chunk
  send_chunk-CanCopy t none n c = (empty_chunk, refl)
  send_chunk-CanCopy t (some d) n (granted, enough) =
      let fits : leb n (length d) ≡ true = ground arith in
      elim (Bool-cases (ltb 0 n)) [
        | inl more ↦ (
          record { memory = some (map some (take n d)); offset = 0; size = n },
          rw (send_chunk, more, granted, fits) refl,
        )
        | inr nothing' ↦ (empty_chunk, rw (send_chunk, nothing') refl)
      ]

  -- The operation once its data has been copied.
  operation_run :
      (m : Method) (url : Bytes) (data' : Option Bytes) (n : ℕ) (send : Chunk)
      → send_chunk (outcome m url data' n).copied data' n ≡ some send
      → AllGranted (outcome m url data' n).steps
      → length (body (outcome m url data' n).steps) < 2 ^ 31
      → (recv : Chunk) × (http_operation m url data' n ≡ (
          if (outcome m url data' n).perform_code == 0
          then reply_of (outcome m url data' n) recv
          else some failed_reply))
        × Received recv (body (outcome m url data' n).steps)
  unfolding http_operation
  operation_run m url data' n send copied g small =
      let (recv, send', run, got) =
        transfer-Received (outcome m url data' n).steps (request m url data' n).sends empty_chunk
          send [] (refl, inl (refl, refl)) g (omega arith) in
      (recv, rw (http_operation, copied, run) refl, got)

  -- A transfer that succeeds, with every allocation granted, no more bytes to send than the data has, and
  -- a body below 2^31 bytes, is answered with the status, the whole body and a NUL behind it, and the
  -- body's length.
  pub http_operation-body :
      (m : Method) (url : Bytes) (data' : Option Bytes) (n : ℕ)
      → CanCopy (outcome m url data' n) data' n
      → (outcome m url data' n).perform_code ≡ 0
      → AllGranted (outcome m url data' n).steps
      → length (body (outcome m url data' n).steps) < 2 ^ 31
      → http_operation m url data' n
        ≡ some (reply_for (outcome m url data' n) (body (outcome m url data' n).steps))
  http_operation-body m url data' n can fine g small =
      let (send, copied) = send_chunk-CanCopy (outcome m url data' n) data' n can in
      let (recv, run, got) = operation_run m url data' n send copied g small in
      let good : ((outcome m url data' n).perform_code == 0) ≡ true = ground arith in
      run
      ∙ ap (λ b. if b then reply_of (outcome m url data' n) recv else some failed_reply) good
      ∙ reply_of-Received (outcome m url data' n) recv (body (outcome m url data' n).steps) got
          small

  -- The reply to a transfer, whether it has gone well or not.
  abbrev pub answer_for : Transfer → Reply
  answer_for t = if t.perform_code == 0 then reply_for t (body t.steps) else failed_reply

  -- With every allocation granted, no more bytes to send than the data has, and a body below 2^31 bytes,
  -- a transfer that succeeds is answered with
  -- the status, the whole body and a NUL behind it, and the body's length; one that fails is
  -- answered with 500 and without a body.
  pub http_operation-answer :
      (m : Method) (url : Bytes) (data' : Option Bytes) (n : ℕ)
      → CanCopy (outcome m url data' n) data' n
      → AllGranted (outcome m url data' n).steps
      → length (body (outcome m url data' n).steps) < 2 ^ 31
      → http_operation m url data' n ≡ some (answer_for (outcome m url data' n))
  http_operation-answer m url data' n can g small =
      let r = request m url data' n in
      let t = C.perform r in
      elim (Bool-cases (t.perform_code == 0)) [
        | inl fine ↦ rw fine (http_operation-body m url data' n can (ground arith) g small)
        | inr failed ↦
            let (send, copied) = send_chunk-CanCopy t data' n can in
            let (recv, run, got) = operation_run m url data' n send copied g small in
            rw (run, failed) refl
      ]
