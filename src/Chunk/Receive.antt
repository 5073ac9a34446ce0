-- ===== src/Chunk/Receive.antt =====
-- recv_memory_callback gathers what it is given: the block is the bytes so far and a closing NUL.
use pillowtalk.Prelude.{
  ℕ, zero, suc, ◌+◌, ◌-◌, ◌%◌, ◌<◌, ◌≤◌, ◌≡◌, refl, ap, sym, ◌⊎◌, inl, inr, true, false, Option,
  none, some, List, [], ◌∷◌, ◌++◌, map, arith, ltb, length, length-append, length-map,
  length-replicate, take, drop, replicate, take-append-drop, length-take, length-drop, append_assoc,
}
use pillowtalk.Libraries.{Bytes}
use pillowtalk.Chunk.{
  Block, Chunk, size_max, copy_in, append_bytes, myrealloc, recv_memory_callback,
}

module _ {A : Type 0} where
  take-append_length : (xs ys : List A) (n : ℕ) → n ≡ length xs → take n (xs ++ ys) ≡ xs
  take-append_length [] ys zero e = refl
  take-append_length [] ys (suc n) e = absurd (omega arith)
  take-append_length (x ∷ xs) ys zero e = absurd (omega arith)
  take-append_length (x ∷ xs) ys (suc n) e =
      ap (λ r. x ∷ r) (take-append_length xs ys n (omega arith))

  drop-append_length : (xs ys : List A) (n : ℕ) → n ≡ length xs → drop n (xs ++ ys) ≡ ys
  drop-append_length [] ys zero e = refl
  drop-append_length [] ys (suc n) e = absurd (omega arith)
  drop-append_length (x ∷ xs) ys zero e = absurd (omega arith)
  drop-append_length (x ∷ xs) ys (suc n) e = drop-append_length xs ys n (omega arith)

  pub take-le : (xs : List A) (n : ℕ) → length xs ≤ n → take n xs ≡ xs
  take-le [] zero e = refl
  take-le [] (suc n) e = refl
  take-le (x ∷ xs) zero e = absurd (omega arith)
  take-le (x ∷ xs) (suc n) e = ap (λ r. x ∷ r) (take-le xs n (omega arith))

  -- A list of known length splits into two of known lengths.
  split_at :
      (n m : ℕ) (xs : List A)
      → length xs ≡ n + m
      → (ys zs : List A) × (xs ≡ ys ++ zs) × (length ys ≡ n) × (length zs ≡ m)
  split_at n m xs e = (
    take n xs,
    drop n xs,
    sym (take-append-drop n xs),
    omega (arith, length-take n xs),
    omega (arith, length-drop n xs),
  )

map-append_some : (xs ys : Bytes) → map {B = Option ℕ} some (xs ++ ys) ≡ map some xs ++ map some ys
map-append_some [] ys = refl
map-append_some (x ∷ xs) ys = ap (λ r. some x ∷ r) (map-append_some xs ys)

-- A copy over the middle of a block.
pub copy_in-middle :
    (pre mid post : Block) (bytes : Bytes) (at : ℕ)
    → at ≡ length pre
    → length mid ≡ length bytes
    → copy_in (pre ++ (mid ++ post)) at bytes ≡ some (pre ++ (map some bytes ++ post))
unfolding copy_in
copy_in-middle pre mid post bytes at e l =
    let fits : ltb (length (pre ++ (mid ++ post))) (at + length bytes) ≡ false =
      ground (arith, length-append pre (mid ++ post), length-append mid post) in
    let after : drop (at + length bytes) (pre ++ (mid ++ post)) ≡ post =
      rw (← append_assoc pre mid post) (
        drop-append_length (pre ++ mid) post (at + length bytes)
          (omega (arith, length-append pre mid))) in
    rw (fits, take-append_length pre (mid ++ post) at e, after)

-- The chunk holds these bytes: no block at all, or a block that has just room for them and a NUL.
abbrev pub Received : Chunk → Bytes → Type 0
Received mem bs =
    (mem.size ≡ length bs)
    × (((mem.memory ≡ none) × (bs ≡ [])) ⊎ (mem.memory ≡ some (map some bs ++ some 0 ∷ [])))

-- The chunk once `new` has come behind `bs`.
abbrev pub filled : (bs new : Bytes) → Chunk
filled bs new = record {
  memory = some (map some (bs ++ new) ++ some 0 ∷ []);
  offset = 0;
  size = length bs + length new;
}

-- A block whose front is known: the new bytes and a NUL fill the rest of it.
append_bytes-parts :
    (bs new : Bytes) (mid last : Block)
    → length mid ≡ length new
    → length last ≡ 1
    → length bs + length new < size_max
    → append_bytes (map some bs ++ (mid ++ last)) (length bs) new ≡ some (filled bs new)
unfolding append_bytes
append_bytes-parts bs new mid (l ∷ []) lm ll small =
    let no_wrap : (length bs + length new) % size_max ≡ length bs + length new = omega arith in
    let first =
      copy_in-middle (map some bs) mid (l ∷ []) new (length bs) (sym (length-map bs some)) lm in
    let second =
      copy_in-middle (map some bs ++ map some new) (l ∷ []) [] (0 ∷ []) (length bs + length new)
        (omega (
          arith,
          length-append (map {B = Option ℕ} some bs) (map some new),
          length-map {B = Option ℕ} bs some,
          length-map {B = Option ℕ} new some,
        ))
        refl in
    rw (
      append_bytes,
      first,
      no_wrap,
      map-append_some bs new,
      ← append_assoc (map some bs) (map some new) (l ∷ []),
      second,
      no_wrap,
    )
append_bytes-parts bs new mid [] lm ll small = absurd (omega arith)
append_bytes-parts bs new mid (l ∷ l' ∷ ls) lm ll small = absurd (omega arith)

append_bytes-fill :
    (bs new : Bytes) (tail : Block)
    → length tail ≡ length new + 1
    → length bs + length new < size_max
    → append_bytes (map some bs ++ tail) (length bs) new ≡ some (filled bs new)
append_bytes-fill bs new tail e small =
    let (mid, last, parts, lm, ll) = split_at (length new) 1 tail e in
    rw parts (append_bytes-parts bs new mid last lm ll small)

-- What the block is after myrealloc, in front of the bytes to come.
realloc-front :
    (mem : Chunk) (bs : Bytes) (n : ℕ)
    → Received mem bs
    → (tail : Block) × (myrealloc true mem.memory (length bs + n + 1) ≡ some (map some bs ++ tail))
      × (length tail ≡ n + 1)
unfolding myrealloc
realloc-front mem bs n (sz, inl (e, nil)) = (
  replicate (n + 1) none,
  rw (e, nil) (ap (λ (k : ℕ). some (replicate {A = Option ℕ} k none)) (omega arith)),
  length-replicate (n + 1) none,
)
realloc-front mem bs n (sz, inr e) =
    let whole = map {B = Option ℕ} some bs ++ some 0 ∷ [] in
    let len : length whole ≡ length bs + 1 = omega (
      arith,
      length-append (map {B = Option ℕ} some bs) (some 0 ∷ []),
      length-map {B = Option ℕ} bs some,
    ) in
    (
      some 0 ∷ replicate (length bs + n + 1 - length whole) none,
      rw (e, take-le whole (length bs + n + 1) (omega arith))
          (ap some (append_assoc (map some bs) (some 0 ∷ []) _)),
      omega (arith, length-replicate {A = Option ℕ} (length bs + n + 1 - length whole) none),
    )

-- A granted call appends its bytes and reports all of them as taken.
pub recv_memory_callback-Received :
    (mem : Chunk) (bs new : Bytes)
    → Received mem bs
    → length bs + length new + 1 < size_max
    → recv_memory_callback true new mem ≡ some (length new, filled bs new)
unfolding recv_memory_callback
recv_memory_callback-Received mem bs new r small =
    let (tail, re, lt) = realloc-front mem bs (length new) r in
    let no_wrap : (mem.size + length new + 1) % size_max ≡ length bs + length new + 1 =
      omega arith in
    ground (arith, re, no_wrap, append_bytes-fill bs new tail lt (omega arith))

pub filled-Received : (bs new : Bytes) → Received (filled bs new) (bs ++ new)
filled-Received bs new = (omega (arith, length-append bs new), inr refl)
