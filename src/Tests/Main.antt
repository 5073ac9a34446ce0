-- ===== src/Tests/Main.antt =====
-- The example program with a concrete server.
use pillowtalk.Prelude.{ℕ, refl, true, none, some, [], ◌∷◌, arith, ◌==◌, if◌then◌else◌}
use pillowtalk.Prelude.Int.{pos}
use pillowtalk.Libraries.Lists.{list_libraries}
use pillowtalk.Heap.{Heap, Obj}
use pillowtalk.Heap.Returns.{Returns}
use pillowtalk.Value.{Value, mapping, no_fields}
use pillowtalk.Tree.Released.{Restored}
use pillowtalk.Node.{c_str}
use pillowtalk.Json.Tokens.{tokens, emit}
use pillowtalk.Tree.{meaning}
use pillowtalk.Http.{Curl, receives}
use pillowtalk.Http.Body.{body}
use pillowtalk.Parser.{YajlParse}
use pillowtalk.Parser.Events.{events_of, cost}
use pillowtalk.Basic.{Session, main}
use pillowtalk.Basic.Main.{main-Restored}
use pillowtalk.Basic.Expected.{Expected}
use pillowtalk.Basic.Revision.{fetched_saga}
use pillowtalk.Tests.Sample.{counting}

-- A server that sends one byte with a status, and a yajl that reads `d` as the document.
abbrev answering : (status byte : ℕ) → Curl
answering status byte = record {
  perform = λ r. record {
    copied = true;
    steps = receives true (byte ∷ []) ∷ [];
    perform_code = 0;
    info_code = 0;
    status = pos status;
  };
}

abbrev empty_value : Value
empty_value = mapping no_fields

instance abbrev session_reader : YajlParse
session_reader = record {
  events = λ s. elim s [
    | [] ↦ events_of empty_value
    | b ∷ bs ↦ if b == 100 then events_of (fetched_saga (some (49 ∷ []))) else events_of empty_value
  ];
}

abbrev couch : Session
couch = record {
  at_delete = answering 404 101;
  at_create = answering 201 101;
  at_save = answering 201 101;
  at_fetch = answering 200 100;
  at_update = answering 201 101;
}

couch-Expected : Expected couch (some (49 ∷ [])) empty_value empty_value empty_value empty_value
unfolding body meaning tokens emit c_str
couch-Expected = record {
  at_delete = record {
    can = tt;
    fine = refl;
    granted = (refl, tt);
    small = omega arith;
    reads = refl;
  };
  at_create = record {
    can = tt;
    fine = refl;
    granted = (refl, tt);
    small = omega arith;
    reads = refl;
  };
  at_save = record {
    answered = record {
      can = (refl, omega arith);
      fine = refl;
      granted = (refl, tt);
      small = omega arith;
      reads = refl;
    };
    known = refl;
    status = refl;
  };
  at_fetch = record {
    answered = record {
      can = tt;
      fine = refl;
      granted = (refl, tt);
      small = omega arith;
      reads = refl;
    };
    known = refl;
    status = refl;
  };
  short = omega arith;
  short_edited = omega arith;
  at_update = record {
    can = (refl, omega arith);
    fine = refl;
    granted = (refl, tt);
    small = omega arith;
    reads = refl;
  };
}

abbrev large_heap : Heap (Obj)
large_heap = record { next = 1; room = 100; cell = λ p. none }

main-Restored_example : Returns (Restored large_heap) (main couch 101 large_heap)
main-Restored_example =
    main-Restored couch (some (49 ∷ [])) 101 empty_value empty_value empty_value empty_value
      large_heap couch-Expected (record { next_pos = omega arith; unused = λ b le. refl })
      (unfold cost in omega arith) (unfold cost in omega arith)
