-- ===== src/Http/Failure.antt =====
-- A refused allocation in recv_memory_callback that nothing follows.
use pillowtalk.Prelude.{
  ℕ, ◌+◌, ◌<◌, ◌≡◌, refl, inl, inr, Option-cases, Option, none, some, List, [], ◌∷◌, ◌++◌, arith,
  length, if◌then◌else◌, Bool, false,
}
use pillowtalk.Libraries.{Bytes}
use pillowtalk.Chunk.{Chunk, size_max, myrealloc, recv_memory_callback, send_memory_callback}
use pillowtalk.Http.{
  Method, CurlStep, receives, reads, Curl, Transfer, transfer, reply_of, empty_chunk, send_chunk,
  request, http_operation,
}
use pillowtalk.Http.Body.{CanCopy, send_chunk-CanCopy, body, AllGranted, transfer-Received, outcome}

transfer-append :
    (xs ys : List CurlStep) (sends : Bool) (recv send recv' send' : Chunk)
    → transfer sends xs recv send ≡ some (recv', send')
    → transfer sends (xs ++ ys) recv send ≡ transfer sends ys recv' send'
unfolding transfer
transfer-append [] ys sends recv send recv' send' e = ground arith
transfer-append (receives g b ∷ xs) ys sends recv send recv' send' e =
    elim (Option-cases (recv_memory_callback g b recv)) [
      | inl bad ↦ cc (rw (transfer, bad) at e)
      | inr ((n, next), good) ↦
          rw (transfer, good)
            (transfer-append xs ys sends next send recv' send' (rw (transfer, good) at e))
    ]
transfer-append (reads s n ∷ xs) ys sends recv send recv' send' e =
    transfer-append xs ys sends recv (if sends then (send_memory_callback s n send).1 else send)
      recv' send' e

-- A refused allocation forgets the bytes and keeps their number.
refused_step :
    (bytes : Bytes) (recv : Chunk)
    → recv_memory_callback false bytes recv ≡ some (length bytes, record recv { memory = none })
unfolding recv_memory_callback myrealloc
refused_step bytes recv = refl

lost_reply :
    (t : Transfer) (recv : Chunk) → recv.memory ≡ none → 0 < recv.size → reply_of t recv ≡ none
unfolding reply_of
lost_reply t recv m s = ground arith

module _ ⦃C : Curl⦄ where
  refused_run :
      (m : Method) (url : Bytes) (data' : Option Bytes) (n : ℕ) (before : List CurlStep)
      (last : Bytes) (send : Chunk)
      → send_chunk (outcome m url data' n).copied data' n ≡ some send
      → (outcome m url data' n).perform_code ≡ 0
      → (outcome m url data' n).steps ≡ before ++ receives false last ∷ []
      → AllGranted before
      → 0 < length (body before)
      → length (body before) + 1 < size_max
      → http_operation m url data' n ≡ none
  unfolding http_operation transfer
  refused_run m url data' n before last chunk copied fine steps g some_bytes small =
      let r = request m url data' n in
      let t = C.perform r in
      let (recv, send, run, (sz, _)) =
        transfer-Received before r.sends empty_chunk chunk [] (refl, inl (refl, refl)) g
          (omega arith) in
      let all =
        transfer-append before (receives false last ∷ []) r.sends empty_chunk chunk recv send run in
      rw (http_operation, copied, steps, all, transfer, refused_step last recv, fine)
        (lost_reply t (record recv { memory = none }) refl (omega arith))

  -- If the allocation for the last bytes of a transfer is refused after others have come, with every
  -- other one granted and no more bytes to send than the data has, and libcurl reports success,
  -- http_operation stores through NULL.
  pub http_operation-refused :
      (m : Method) (url : Bytes) (data' : Option Bytes) (n : ℕ) (before : List CurlStep)
      (last : Bytes)
      → CanCopy (outcome m url data' n) data' n
      → (outcome m url data' n).perform_code ≡ 0
      → (outcome m url data' n).steps ≡ before ++ receives false last ∷ []
      → AllGranted before
      → 0 < length (body before)
      → length (body before) + 1 < size_max
      → http_operation m url data' n ≡ none
  http_operation-refused m url data' n before last can =
      let (send, copied) = send_chunk-CanCopy (outcome m url data' n) data' n can in
      refused_run m url data' n before last send copied
