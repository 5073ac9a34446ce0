-- ===== src/Parser/Broken.antt =====
-- A text at which yajl stops: parse_json returns what has been read so far, and no older struct has
-- changed.
use pillowtalk.Prelude.{subst, ◌<◌, ◌≤◌, ◌≡◌, refl, sym, ap, ◌∙◌, ◌⊎◌, inl, List, [], ◌++◌, arith}
use pillowtalk.Libraries.{Bytes, Ptr, Libraries}
use pillowtalk.Heap.{Heap, Run, ok, fault, aborted, out_of_fuel, null, Obj, Prog, and_then}
use pillowtalk.Heap.Access.{IsHeap}
use pillowtalk.Heap.Returns.{Returns, done, Returns-and_then}
use pillowtalk.Heap.Local.{LocalRun, ended}
use pillowtalk.Value.{Value}
use pillowtalk.Parser.{Context, context, Event, run_callbacks, YajlParse, parse_json}
use pillowtalk.Parser.Events.{events_of, cost, run-append}
use pillowtalk.Parser.Built.{Built}
use pillowtalk.Parser.Document.{build}
use pillowtalk.Parser.Slot.{top}
use pillowtalk.Parser.Older.{IsNew, run-Local}

module _ ⦃L : Libraries⦄ where
  -- What is there after a part of a text: a root that is NULL or new, and the older structs as they
  -- were.
  pub record Started (h : Heap Obj) (root : Ptr) (h' : Heap Obj) : Type 0 where
    pub root_new : (root ≡ null) ⊎ (h.next ≤ root)
    pub grows : h.next ≤ h'.next
    pub same : (b : Ptr) → b < h.next → h'.cell b ≡ h.cell b

  -- A run that goes on to return has returned so far.
  first_part :
      {P : Context → Heap Obj → Type 0} {h : Heap Obj} (r : Run Obj Context)
      (k : Context → Prog Context)
      → Returns P (and_then r k)
      → LocalRun h.next (IsNew h.next) h r
      → Returns (λ c h'. Started h c.root h') r
  first_part (ok c h') k all (ended new kept) =
      done (record { root_new = new.0; grows = kept.beyond; same = kept.same })
  first_part fault k all l = elim all [ ]
  first_part aborted k all l = elim all [ ]
  first_part out_of_fuel k all l = elim all [ ]

  module _ ⦃Y : YajlParse⦄ where
    -- Where the callbacks that yajl makes for a text, up to its first error or its end, are the first of
    -- those for a value `v`, and memory suffices for `v`, parse_json ends without a fault; it returns
    -- NULL or a new struct, and changes no older struct.
    pub parse_json-Started :
        (json : Bytes) (v : Value) (rest : List Event) (h : Heap Obj)
        → Y.events json ++ rest ≡ events_of v
        → IsHeap h
        → cost v ≤ h.room
        → Returns (Started h) (parse_json json h)
    unfolding parse_json
    parse_json-Started json v rest h e w r =
        Returns-and_then
          (first_part (run_callbacks (Y.events json) (context null []) h) (run_callbacks rest)
            (subst (Returns (Built (top {r = null}) v))
              (sym (ap (λ es. run_callbacks es (context null []) h) e)
                ∙ run-append (Y.events json) rest (context null []) h)
              (build v (top {r = null}) w r))
            (run-Local h.next (Y.events json) (context null []) (inl refl, tt) h (omega arith)))
          λ c h' x. done x
