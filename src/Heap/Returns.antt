-- ===== src/Heap/Returns.antt =====
-- Total correctness of a run: it ends without a fault, and its result meets a postcondition.

use pillowtalk.Heap.{Heap, Run, Cmd, ok, and_then}

module _ {O A : Type 0} where
  pub data Returns (P : A → Heap O → Type 0) : Run O A → Type 0 where
    done : {a : A} {h : Heap O} → P a h → Returns P (ok a h)

module _ {O A B : Type 0} where
  pub Returns-and_then :
      {P : A → Heap O → Type 0} {Q : B → Heap O → Type 0} {r : Run O A} {k : A → Cmd O B}
      → Returns P r
      → ((a : A) (h : Heap O) → P a h → Returns Q (k a h))
      → Returns Q (and_then r k)
  Returns-and_then (done {a} {h} p) k = k a h p

module _ {O A : Type 0} where
  pub Returns-weaken :
      {P Q : A → Heap O → Type 0} {r : Run O A}
      → Returns P r
      → ((a : A) (h : Heap O) → P a h → Q a h)
      → Returns Q r
  Returns-weaken (done {a} {h} p) k = done (k a h p)
