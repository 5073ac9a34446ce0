-- ===== src/Heap/Access.antt =====
-- How the commands of Heap.antt act where the struct is there, and where it is not.
use pillowtalk.Prelude.{◌+◌, ◌-◌, ◌<◌, ◌≤◌, ◌≡◌, ◌≢◌, refl, false, Option, none, some, arith, ◌==◌}
use pillowtalk.Libraries.{Ptr}
use pillowtalk.Heap.{Heap, null, ok, fault, load, store, free, alloc, write}

pub not_null : {p : Ptr} → p ≢ null → (p == null) ≡ false
not_null ne = ground arith

module _ {O : Type 0} where
  -- The addresses from `next` on are unused, and NULL is never used.
  pub record IsHeap (h : Heap O) : Type 0 where
    pub next_pos : 0 < h.next
    pub unused : (p : Ptr) → h.next ≤ p → h.cell p ≡ none

  -- The heap with the cell at `p` set to `c`.
  abbrev pub put : Heap O → Ptr → Option O → Heap O
  put h p c = record h { cell = write h.cell p c }

  -- The heap after an allocation.
  abbrev pub grown : Heap O → O → Heap O
  grown h o = record h { next = h.next + 1; room = h.room - 1; cell = write h.cell h.next (some o) }

  module _ (h : Heap O) {p : Ptr} {o : O} (ne : p ≢ null) (e : h.cell p ≡ some o) where
    pub load-ok : load p h ≡ ok o h
    unfolding load
    load-ok = rw (not_null ne, e)

    pub store-ok : (o' : O) → store p o' h ≡ ok tt (put h p (some o'))
    unfolding store
    store-ok o' = rw load-ok

    pub free-ok : free p h ≡ ok tt (put h p none)
    unfolding free
    free-ok = rw load-ok

  pub alloc-ok : (h : Heap O) (o : O) → 0 < h.room → alloc o h ≡ ok h.next (grown h o)
  unfolding alloc
  alloc-ok h o r = ground arith

  pub alloc-IsHeap : {h : Heap O} (o : O) → IsHeap h → IsHeap (grown h o)
  unfolding write
  alloc-IsHeap {h} o w = record {
    next_pos = omega arith;
    unused = λ p le. ground (arith, w.next_pos, w.unused p);
  }

  pub write-at : (f : Ptr → Option O) (p : Ptr) (c : Option O) → write f p c p ≡ c
  unfolding write
  write-at f p c = ground arith

  pub write-ne : (f : Ptr → Option O) (p a : Ptr) (c : Option O) → p ≢ a → write f p c a ≡ f a
  unfolding write
  write-ne f p a c h = ground arith

  pub null-load : (h : Heap O) → load null h ≡ fault
  unfolding load
  null-load h = refl

  pub dangling-load : (p : Ptr) (h : Heap O) → h.cell p ≡ none → load p h ≡ fault
  unfolding load
  dangling-load p h e = ground arith

  -- A used address lies below the unused ones.
  pub used-lt : (h : Heap O) (p : Ptr) {o : O} → IsHeap h → h.cell p ≡ some o → p < h.next
  used-lt h p w e = ground (arith, w.unused p)

  -- An allocation leaves a used address alone.
  pub grown-keeps :
      (h : Heap O) (p : Ptr) {o : O} (new : O)
      → IsHeap h
      → h.cell p ≡ some o
      → (grown h new).cell p ≡ some o
  unfolding write
  grown-keeps h p new w e = ground (arith, used-lt h p w e)

  pub put-IsHeap :
      (h : Heap O) (p : Ptr) (c : Option O) → IsHeap h → p < h.next → IsHeap (put h p c)
  unfolding write
  put-IsHeap h p c w lt = record {
    next_pos = w.next_pos;
    unused = λ a le. ground (arith, w.unused a);
  }
