-- ===== src/Fuel.antt =====
-- What more fuel does to a command: where the command ended with less, it does the same.
pub mod Free
pub mod Clone
pub mod Update
pub mod Enough
use pillowtalk.Prelude.Int.{ℤ}
use pillowtalk.Libraries.{Bytes, Ptr, Libraries}
use pillowtalk.Prelude.{
  ℕ, List, [], ◌∷◌, ◌≡◌, refl, ◌⊎◌, inl, inr, Bool, true, false, if◌then◌else◌,
}
use pillowtalk.Heap.{
  Heap, Run, ok, fault, aborted, out_of_fuel, Cmd, Obj, Prog, map_node, array_node, null_node,
  bool_node, int_node, double_node, string_node, key_value, array_elem, and_then, ◌>>=◌, ◌>>◌,
}

module _ {O A : Type 0} where
  -- `n` does what `m` does, unless `m` is out of fuel.
  abbrev pub Extends : Cmd O A → Cmd O A → Type 0
  Extends m n = (h : Heap O) → (m h ≡ out_of_fuel) ⊎ (n h ≡ m h)

  pub Extends-same : (m : Cmd O A) → Extends m m
  Extends-same m h = inr refl

  pub Extends-spent : (n : Cmd O A) → Extends (λ _. out_of_fuel) n
  Extends-spent n h = inl refl

  pub Extends-if :
      (b : Bool) (m m' n n' : Cmd O A)
      → Extends m m'
      → Extends n n'
      → Extends (if b then m else n) (if b then m' else n')
  Extends-if true m m' n n' x y = x
  Extends-if false m m' n n' x y = y

  pub Extends-Bool :
      (F G : Bool → Cmd O A)
      → Extends (F true) (G true)
      → Extends (F false) (G false)
      → (b : Bool) → Extends (F b) (G b)
  Extends-Bool F G x y true = x
  Extends-Bool F G x y false = y

module _ {O A B : Type 0} where
  run-Extends :
      (r : Run O A) (k k' : A → Cmd O B)
      → ((a : A) → Extends (k a) (k' a))
      → (and_then r k ≡ out_of_fuel) ⊎ (and_then r k' ≡ and_then r k)
  run-Extends (ok a h) k k' e = e a h
  run-Extends fault k k' e = inr refl
  run-Extends aborted k k' e = inr refl
  run-Extends out_of_fuel k k' e = inl refl

  pub Extends-bind :
      (m m' : Cmd O A) (k k' : A → Cmd O B)
      → Extends m m'
      → ((a : A) → Extends (k a) (k' a))
      → Extends (m >>= k) (m' >>= k')
  Extends-bind m m' k k' x e h = elim (x h) [
    | inl spent ↦ inl (rw spent refl)
    | inr same ↦ rw same (run-Extends (m h) k k' e)
  ]

  -- The first command is the same.
  pub Extends-after :
      (m : Cmd O A) (k k' : A → Cmd O B)
      → ((a : A) → Extends (k a) (k' a))
      → Extends (m >>= k) (m >>= k')
  Extends-after m k k' e h = run-Extends (m h) k k' e

module _ ⦃L : Libraries⦄ {A : Type 0} where
  -- A command that asks for the struct's tag.
  pub Extends-obj :
      (F G : Obj → Prog A)
      → ((t : L.Table) → Extends (F (map_node t)) (G (map_node t)))
      → ((q : L.Queue) (n : ℕ) → Extends (F (array_node q n)) (G (array_node q n)))
      → Extends (F null_node) (G null_node)
      → ((b : ℤ) → Extends (F (bool_node b)) (G (bool_node b)))
      → ((z : ℤ) → Extends (F (int_node z)) (G (int_node z)))
      → ((d : L.Double) → Extends (F (double_node d)) (G (double_node d)))
      → ((s : Bytes) → Extends (F (string_node s)) (G (string_node s)))
      → ((k : Bytes) (v m : Ptr) → Extends (F (key_value k v m)) (G (key_value k v m)))
      → ((n a : Ptr) → Extends (F (array_elem n a)) (G (array_elem n a)))
      → (o : Obj) → Extends (F o) (G o)
  Extends-obj F G m a u b z d s k e (map_node t) = m t
  Extends-obj F G m a u b z d s k e (array_node q n) = a q n
  Extends-obj F G m a u b z d s k e null_node = u
  Extends-obj F G m a u b z d s k e (bool_node x) = b x
  Extends-obj F G m a u b z d s k e (int_node x) = z x
  Extends-obj F G m a u b z d s k e (double_node x) = d x
  Extends-obj F G m a u b z d s k e (string_node x) = s x
  Extends-obj F G m a u b z d s k e (key_value x v w) = k x v w
  Extends-obj F G m a u b z d s k e (array_elem n w) = e n w

pub List-cases :
    {A : Type 0} (xs : List A) → (xs ≡ []) ⊎ ((x : A) × (rest : List A) × (xs ≡ x ∷ rest))
List-cases [] = inl refl
List-cases (x ∷ rest) = inr (x, rest, refl)
