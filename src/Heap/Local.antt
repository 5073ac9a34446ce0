-- ===== src/Heap/Local.antt =====
-- Commands that leave the addresses below a limit alone.
use pillowtalk.Prelude.{
  ◌<◌, ◌≤◌, ◌≡◌, refl, ◌∙◌, arith, inl, inr, Option-cases, Bool-cases, ◌==◌, ℕ,
}
use pillowtalk.Prelude.Int.{ℤ}
use pillowtalk.Libraries.{Bytes, Ptr, Libraries}
use pillowtalk.Heap.{
  crash, Heap, null, Run, ok, fault, aborted, out_of_fuel, Cmd, and_then, ◌>>=◌, load, store, alloc,
  write, Obj, Prog, map_node, array_node, null_node, bool_node, int_node, double_node, string_node,
  key_value, array_elem,
}

-- The addresses below `n` are in use, and hold what they held.
pub record Kept {O : Type 0} (n : Ptr) (h h' : Heap O) : Type 0 where
  pub beyond : n ≤ h'.next
  pub same : (b : Ptr) → b < n → h'.cell b ≡ h.cell b

abbrev pub Anything : {A : Type 0} → A → Type 0
Anything a = Unit

module _ {O A : Type 0} where
  -- Where a run ends, with a result that is `P`, it has kept them.
  pub data LocalRun (n : Ptr) (P : A → Type 0) (h : Heap O) : Run O A → Type 0 where
    ended : {a : A} {h' : Heap O} → P a → Kept n h h' → LocalRun n P h (ok a h')
    faulted : LocalRun n P h fault
    failed : LocalRun n P h aborted
    spent : LocalRun n P h out_of_fuel

  abbrev pub Local : Ptr → (A → Type 0) → Cmd O A → Type 0
  Local n P m = (h : Heap O) → n ≤ h.next → LocalRun n P h (m h)

  pub Local-pure : (n : Ptr) (P : A → Type 0) (a : A) → P a → Local n P (λ h. ok a h)
  Local-pure n P a p h le = ended p (record { beyond = le; same = λ b lt. refl })

  Kept-LocalRun :
      (n : Ptr) (P : A → Type 0) (h h1 : Heap O) (r : Run O A)
      → Kept n h h1
      → LocalRun n P h1 r
      → LocalRun n P h r
  Kept-LocalRun n P h h1 r x (ended p y) =
      ended p (record { beyond = y.beyond; same = λ b lt. y.same b lt ∙ x.same b lt })
  Kept-LocalRun n P h h1 r x faulted = faulted
  Kept-LocalRun n P h h1 r x failed = failed
  Kept-LocalRun n P h h1 r x spent = spent

module _ {O A B : Type 0} where
  and_then-Local :
      (n : Ptr) (P : A → Type 0) (Q : B → Type 0) (h : Heap O) (r : Run O A) (k : A → Cmd O B)
      → LocalRun n P h r
      → ((a : A) → P a → Local n Q (k a))
      → LocalRun n Q h (and_then r k)
  and_then-Local n P Q h r k (ended {a} {h'} p kept) next =
      Kept-LocalRun n Q h h' (k a h') kept (next a p h' kept.beyond)
  and_then-Local n P Q h r k faulted next = faulted
  and_then-Local n P Q h r k failed next = failed
  and_then-Local n P Q h r k spent next = spent

  pub Local-bind :
      (n : Ptr) (P : A → Type 0) (Q : B → Type 0) (m : Cmd O A) (k : A → Cmd O B)
      → Local n P m
      → ((a : A) → P a → Local n Q (k a))
      → Local n Q (m >>= k)
  Local-bind n P Q m k x next h le = and_then-Local n P Q h (m h) k (x h le) next

  -- The result of the first command does not matter.
  pub Local-after :
      (n : Ptr) (Q : B → Type 0) (m : Cmd O A) (k : A → Cmd O B)
      → Local n Anything m
      → ((a : A) → Local n Q (k a))
      → Local n Q (m >>= k)
  Local-after n Q m k x next = Local-bind n Anything Q m k x λ a _. next a

module _ {O : Type 0} where
  pub Local-load : (n p : Ptr) → Local n Anything (load {O = O} p)
  unfolding load
  Local-load n p h le = elim (Bool-cases (p == null)) [
    | inl at_null ↦ rw at_null faulted
    | inr there ↦ elim (Option-cases (h.cell p)) [
      | inl gone ↦ rw (there, gone) faulted
      | inr (o, e) ↦ rw (there, e) (ended tt (record { beyond = le; same = λ b lt. refl }))
    ]
  ]

  pub Local-store : (n p : Ptr) (o : O) → n ≤ p → Local n Anything (store p o)
  unfolding store load write
  Local-store n p o above h le = elim (Bool-cases (p == null)) [
    | inl at_null ↦ rw at_null faulted
    | inr there ↦ elim (Option-cases (h.cell p)) [
      | inl gone ↦ rw (there, gone) faulted
      | inr (o', e) ↦ rw (there, e) (ended tt (record { beyond = le; same = λ b lt. ground arith }))
    ]
  ]

  pub Local-alloc : (n : Ptr) (o : O) → Local n (λ p. n ≤ p) (alloc o)
  unfolding alloc write
  Local-alloc n o h le = elim (Bool-cases (h.room == 0)) [
    | inl full ↦ rw full faulted
    | inr free ↦ rw free (ended le (record { beyond = omega arith; same = λ b lt. ground arith }))
  ]

module _ ⦃L : Libraries⦄ {A : Type 0} where
  -- A fault keeps everything.
  pub Local-crash : (n : Ptr) (P : A → Type 0) → Local {A = A} n P (crash {O = Obj})
  Local-crash n P h le = faulted

  pub Local-abort : (n : Ptr) (P : A → Type 0) → Local {A = A} n P (λ (h : Heap Obj). aborted)
  Local-abort n P h le = failed

  -- A command that asks for the struct's tag.
  pub Local-obj :
      (n : Ptr) (P : A → Type 0) (F : Obj → Prog A)
      → ((t : L.Table) → Local n P (F (map_node t)))
      → ((q : L.Queue) (k : ℕ) → Local n P (F (array_node q k)))
      → Local n P (F null_node)
      → ((b : ℤ) → Local n P (F (bool_node b)))
      → ((z : ℤ) → Local n P (F (int_node z)))
      → ((d : L.Double) → Local n P (F (double_node d)))
      → ((s : Bytes) → Local n P (F (string_node s)))
      → ((k : Bytes) (v m : Ptr) → Local n P (F (key_value k v m)))
      → ((e a : Ptr) → Local n P (F (array_elem e a)))
      → (o : Obj) → Local n P (F o)
  Local-obj n P F m a u b z d s k e (map_node t) = m t
  Local-obj n P F m a u b z d s k e (array_node q x) = a q x
  Local-obj n P F m a u b z d s k e null_node = u
  Local-obj n P F m a u b z d s k e (bool_node x) = b x
  Local-obj n P F m a u b z d s k e (int_node x) = z x
  Local-obj n P F m a u b z d s k e (double_node x) = d x
  Local-obj n P F m a u b z d s k e (string_node x) = s x
  Local-obj n P F m a u b z d s k e (key_value x v w) = k x v w
  Local-obj n P F m a u b z d s k e (array_elem x w) = e x w
