-- ===== src/Fuel/Enough.antt =====
-- Beyond what an operation needs, the fuel has no part in its result.
use pillowtalk.Prelude.{ℕ, zero, suc, ◌≤◌, ◌≡◌, ◌≢◌, sym, ◌∙◌, inl, inr, arith, ltb, Bool-cases}
use pillowtalk.Libraries.{Ptr, Libraries}
use pillowtalk.Heap.{Heap, Run, ok, fault, aborted, out_of_fuel, Cmd, Obj}
use pillowtalk.Heap.Access.{IsHeap}
use pillowtalk.Heap.Returns.{Returns, done}
use pillowtalk.Tree.{Tree, Pairs, root_of, meaning, addrs, Holds}
use pillowtalk.Tree.Footprint.{Distinct}
use pillowtalk.Free.{free_node}
use pillowtalk.Free.Gone.{size, free_node-Gone}
use pillowtalk.Clone.{clone}
use pillowtalk.Clone.Kept.{DistinctKeys}
use pillowtalk.Clone.Copied.{clone-Copied}
use pillowtalk.Json.{YajlGen, to_json}
use pillowtalk.Json.Depth.{depth-le-size}
use pillowtalk.Json.Tokens.{tokens, emit, to_json-tokens}
use pillowtalk.Update.{map_update}
use pillowtalk.Update.Merged.{map_update-Merged}
use pillowtalk.Update.Ready.{Ready}
use pillowtalk.Fuel.{Extends, Extends-same}
use pillowtalk.Fuel.Free.{free_node-Extends}
use pillowtalk.Fuel.Clone.{clone-Extends}
use pillowtalk.Fuel.Update.{map_update-Extends}

module _ {O A : Type 0} where
  Extends-and_more : (m n k : Cmd O A) → Extends m n → Extends n k → Extends m k
  Extends-and_more m n k x y h = elim (x h) [
    | inl spent ↦ inl spent
    | inr same ↦ elim (y h) [ inl spent ↦ inl (sym same ∙ spent) | inr same2 ↦ inr (same2 ∙ same) ]
  ]

  not_spent : {P : A → Heap O → Type 0} {r : Run O A} → Returns P r → r ≢ out_of_fuel
  not_spent (done p) e = cc

  -- From the fuel `n` on, every run ends without a fault, with one result and one heap.
  pub record Terminates (n : ℕ) (m : ℕ → Run O A) : Type 0 where
    pub value : A
    pub left : Heap O
    pub ends : (f : ℕ) → n ≤ f → m f ≡ ok value left

  ok_result :
      {P : A → Heap O → Type 0} (r : Run O A)
      → Returns P r
      → (m : ℕ → Run O A) (n : ℕ) → ((g : ℕ) → n ≤ g → m g ≡ r)
      → Terminates n m
  ok_result (ok a h) x m n e = record { value = a; left = h; ends = e }
  ok_result fault x m n e = elim x [ ]
  ok_result aborted x m n e = elim x [ ]
  ok_result out_of_fuel x m n e = elim x [ ]

  -- A command that each unit of fuel extends, and two amounts of it.
  module _ (m : ℕ → Cmd O A) (step : (f : ℕ) → Extends (m f) (m (suc f))) where
    Extends-le : (f g : ℕ) → f ≤ g → Extends (m f) (m g)
    Extends-le f zero le = let e : f ≡ 0 = omega arith in rw e (Extends-same (m 0))
    Extends-le f (suc g) le = elim (Bool-cases (ltb g f)) [
      | inl above ↦ let e : f ≡ suc g = ground arith in rw e (Extends-same (m (suc g)))
      | inr below ↦
          Extends-and_more (m f) (m g) (m (suc g)) (Extends-le f g (ground arith)) (step g)
    ]

    more_fuel :
        {P : A → Heap O → Type 0} (f g : ℕ) (h : Heap O) → f ≤ g → Returns P (m f h) → m g h ≡ m f h
    more_fuel f g h le r = elim (Extends-le f g le h) [
      | inl spent ↦ absurd (not_spent r spent)
      | inr same ↦ same
    ]

    from_fuel :
        {P : A → Heap O → Type 0} (f : ℕ) (h : Heap O)
        → Returns P (m f h)
        → Terminates f (λ g. m g h)
    from_fuel f h x = ok_result (m f h) x (λ g. m g h) f λ g le. more_fuel f g h le x

module _ ⦃L : Libraries⦄ where
  -- On a tree, each struct once and no two keys of one map alike, with memory for a copy: pt_free_node,
  -- pt_clone and pt_to_json end without a fault, and their result is the same for every fuel that
  -- exceeds the number of the tree's structs.
  pub tree-Terminates :
      ⦃Y : YajlGen⦄
      → (t : Tree) (beautify : ℕ) (h : Heap Obj) → IsHeap h
      → Holds h.cell t
      → Distinct (addrs t)
      → DistinctKeys (meaning t)
      → size t ≤ h.room
      → Terminates (suc (size t)) (λ f. free_node f (root_of t) h)
        × Terminates (suc (size t)) (λ f. clone f (root_of t) h)
        × Terminates (suc (size t)) (λ f. to_json f (root_of t) beautify h)
  tree-Terminates ⦃Y⦄ t beautify h w held d u room =
      let f : ℕ = suc (size t) in
      (
        from_fuel (λ n. free_node n (root_of t)) (λ n. free_node-Extends n (root_of t)) f h
            (free_node-Gone t f h (omega arith) held d),
        from_fuel (λ n. clone n (root_of t)) (λ n. clone-Extends n (root_of t)) f h
            (clone-Copied t f h (omega (arith, depth-le-size t)) w room held u),
        record {
          value = Y.get_buf (emit (tokens (meaning t)) (Y.gen_alloc beautify));
          left = h;
          ends = λ g le. to_json-tokens t g h beautify (omega (arith, le, depth-le-size t)) held;
        },
      )

  -- Where pt_map_update may merge with some fuel, it ends without a fault with any larger one too, and
  -- the result is the same.
  pub map_update-Terminates :
      (f : ℕ) (p a : Ptr) (ps qs : Pairs) (append : ℕ) (h : Heap Obj)
      → Ready f p a ps qs h
      → Terminates f (λ g. map_update g p a append h)
  map_update-Terminates f p a ps qs append h x =
      from_fuel (λ n. map_update n p a append) (λ n. map_update-Extends n p a append) f h
        (map_update-Merged f p a ps qs append h x)
