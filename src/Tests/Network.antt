-- ===== src/Tests/Network.antt =====
-- A connection that breaks off after a byte.
use pillowtalk.Prelude.{◌≡◌, true, refl, some, [], ◌∷◌, arith}
use pillowtalk.Prelude.Int.{pos}
use pillowtalk.Libraries.Lists.{list_libraries}
use pillowtalk.Heap.{ok}
use pillowtalk.Tree.{root_of}
use pillowtalk.Json.Tokens.{depth}
use pillowtalk.Http.{Curl, receives}
use pillowtalk.Http.Body.{body}
use pillowtalk.Parser.{YajlParse}
use pillowtalk.Requests.{get, unparsed_get, delete, put_raw, put}
use pillowtalk.Requests.Failed.{Unreachable, failed_response, requests-failed_response}
use pillowtalk.Tests.Sample.{sample, sample_heap, sample-Holds, counting}

instance abbrev broken_off : Curl
broken_off = record {
  perform = λ r. record {
    copied = true;
    steps = receives true (123 ∷ []) ∷ [];
    perform_code = 56;
    info_code = 0;
    status = pos 0;
  };
}

instance abbrev quiet_reader : YajlParse
quiet_reader = record { events = λ s. [] }

broken_off-Unreachable : Unreachable
unfolding body
broken_off-Unreachable = record {
  fails = λ r. omega arith;
  granted = λ r. (refl, tt);
  copied = λ r. refl;
  small = λ r. omega arith;
}

requests-failed_response_example :
    (get [] sample_heap ≡ ok failed_response sample_heap)
    × (unparsed_get [] sample_heap ≡ ok failed_response sample_heap)
    × (delete [] sample_heap ≡ ok failed_response sample_heap)
    × (put_raw [] (some (49 ∷ [])) 1 sample_heap ≡ ok failed_response sample_heap)
    × (put 5 [] (root_of sample) sample_heap ≡ ok failed_response sample_heap)
requests-failed_response_example =
    requests-failed_response [] (some (49 ∷ [])) 1 5 sample sample_heap broken_off-Unreachable refl
      (refl, omega arith) (unfold depth in omega arith) sample-Holds
