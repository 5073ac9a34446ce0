-- ===== src/Chunk/Send.antt =====
-- send_memory_callback hands the data over in order, however libcurl sizes its reads.
use Prim.Native.Nat.{min}
use pillowtalk.Prelude.{
  length-take, length-drop, ℕ, zero, suc, ◌+◌, ◌-◌, ◌*◌, ◌%◌, ◌<◌, ◌≤◌, ◌≡◌, refl, ap, sym, ◌∙◌,
  Option, some, List, [], ◌∷◌, ◌++◌, map, arith, ltb, length, length-map, take, drop,
  take-append-drop, append_assoc, append-nil, if◌then◌else◌,
}
use pillowtalk.Libraries.{Bytes}
use pillowtalk.Chunk.{Block, Chunk, size_max, send_memory_callback}

-- A sequence of reads: all that was copied out, and the chunk afterwards.
unfoldable pub drain : List (ℕ × ℕ) → Chunk → Block × Chunk
drain [] mem = ([], mem)
drain ((size, nmemb) ∷ rest) mem =
    let (out, mem') = send_memory_callback size nmemb mem in
    let (outs, mem'') = drain rest mem' in (out ++ outs, mem'')

-- The chunk has the block `b` to send, of which `offset` bytes are gone.
pub record Offers (b : Block) (mem : Chunk) : Type 0 where
  pub block : mem.memory ≡ some b
  pub left : mem.offset + mem.size ≡ length b

suc-add : (m n : ℕ) → suc (m + n) ≡ suc m + n
suc-add m n = omega arith

module _ {A : Type 0} where
  drop-nil : (n : ℕ) → drop {A = A} n [] ≡ []
  drop-nil zero = refl
  drop-nil (suc n) = refl

  drop-drop : (n m : ℕ) (xs : List A) → drop n (drop m xs) ≡ drop (m + n) xs
  drop-drop n zero xs = ap (λ (k : ℕ). drop k xs) (omega arith)
  drop-drop n (suc m) [] = drop-nil n ∙ sym (drop-nil (suc m + n))
  drop-drop n (suc m) (x ∷ xs) =
      drop-drop n m xs ∙ ap {B = List A} (λ (k : ℕ). drop k (x ∷ xs)) (suc-add m n)

module _ {A : Type 0} where
  drop-all : (n : ℕ) (xs : List A) → length xs ≤ n → drop n xs ≡ []
  drop-all n [] h = drop-nil n
  drop-all zero (x ∷ xs) h = absurd (omega arith)
  drop-all (suc n) (x ∷ xs) h = drop-all n xs (omega arith)

min_cases : (r s : ℕ) → min r s ≡ (if ltb r s then r else s)
min_cases r s = ground arith

send-Offers :
    (b : Block) (size nmemb : ℕ) (mem : Chunk)
    → Offers b mem
    → Offers b (send_memory_callback size nmemb mem).1
unfolding send_memory_callback
send-Offers b size nmemb mem o = ground (arith, o.block, o.left)

-- One read copies as much as fits, and moves the offset by that.
pub send-take :
    (b : Block) (size nmemb : ℕ) (mem : Chunk)
    → Offers b mem
    → ((send_memory_callback size nmemb mem).0
        ≡ take (min ((size * nmemb) % size_max) mem.size) (drop mem.offset b))
      × ((send_memory_callback size nmemb mem).1.offset
          ≡ mem.offset + min ((size * nmemb) % size_max) mem.size)
unfolding send_memory_callback
send-take b size nmemb mem o =
    ground (arith, o.block, min_cases ((size * nmemb) % size_max) mem.size)

-- What has been copied out, followed by what is left, is what there was to send.
drain-rest :
    (reads : List (ℕ × ℕ)) (b : Block) (mem : Chunk)
    → Offers b mem
    → Offers b (drain reads mem).1
      × ((drain reads mem).0 ++ drop (drain reads mem).1.offset b ≡ drop mem.offset b)
unfolding drain
drain-rest [] b mem o = (o, refl)
drain-rest ((size, nmemb) ∷ rest) b mem o =
    let mem' = (send_memory_callback size nmemb mem).1 in
    let k = min ((size * nmemb) % size_max) mem.size in
    let (out, moved) = send-take b size nmemb mem o in
    let (o', all) = drain-rest rest b mem' (send-Offers b size nmemb mem o) in
    (
      o',
      append_assoc (send_memory_callback size nmemb mem).0 (drain rest mem').0 _
          ∙ rw (all, out, moved, ← drop-drop k mem.offset b)
              (take-append-drop k (drop mem.offset b)),
    )

abbrev pub offered : Bytes → Chunk
offered bytes = record { memory = some (map some bytes); offset = 0; size = length bytes }

offered-Offers : (bytes : Bytes) → Offers (map some bytes) (offered bytes)
offered-Offers bytes = record {
  block = refl;
  left = omega (arith, length-map {B = Option ℕ} bytes some);
}

-- Whatever the sizes of the reads, they copy a front of the data, in order and each byte once.
pub drain-offered :
    (reads : List (ℕ × ℕ)) (bytes : Bytes)
    → (drain reads (offered bytes)).0
        ++ drop (drain reads (offered bytes)).1.offset (map some bytes)
      ≡ map some bytes
drain-offered reads bytes =
    (drain-rest reads (map some bytes) (offered bytes) (offered-Offers bytes)).1

-- Reads that ask for a byte at least.
abbrev pub Productive : List (ℕ × ℕ) → Type 0
Productive [] = Unit
Productive ((size, nmemb) ∷ rest) = (0 < (size * nmemb) % size_max) × Productive rest

drain-left :
    (reads : List (ℕ × ℕ)) (b : Block) (mem : Chunk)
    → Productive reads
    → Offers b mem
    → (drain reads mem).1.size ≤ mem.size - length reads
unfolding drain
drain-left [] b mem p o = omega arith
drain-left ((size, nmemb) ∷ rest) b mem (p, ps) o =
    let o' = send-Offers b size nmemb mem o in
    omega (
      arith,
      o'.left,
      (send-take b size nmemb mem o).1,
      drain-left rest b (send_memory_callback size nmemb mem).1 ps o',
    )

-- The last of the reads asks for a byte at least, and gets none.
abbrev pub Exhausted : List (ℕ × ℕ) → Chunk → Type 0
Exhausted [] mem = ⊥
Exhausted ((size, nmemb) ∷ []) mem =
    (0 < (size * nmemb) % size_max) × ((send_memory_callback size nmemb mem).0 ≡ [])
Exhausted ((size, nmemb) ∷ next ∷ rest) mem =
    Exhausted (next ∷ rest) (send_memory_callback size nmemb mem).1

nothing_left :
    (b : Block) (size nmemb : ℕ) (mem : Chunk)
    → Offers b mem
    → 0 < (size * nmemb) % size_max
    → (send_memory_callback size nmemb mem).0 ≡ []
    → (send_memory_callback size nmemb mem).1.size ≡ 0
nothing_left b size nmemb mem o asks empty =
    let k = min ((size * nmemb) % size_max) mem.size in
    let o' = send-Offers b size nmemb mem o in
    let (out, moved) = send-take b size nmemb mem o in
    let none_out : length (take k (drop mem.offset b)) ≡ 0 = ap length (sym out ∙ empty) in
    omega (
      arith,
      o.left,
      o'.left,
      moved,
      none_out,
      length-take k (drop mem.offset b),
      length-drop mem.offset b,
    )

drain-Exhausted :
    (reads : List (ℕ × ℕ)) (b : Block) (mem : Chunk)
    → Offers b mem
    → Exhausted reads mem
    → (drain reads mem).1.size ≡ 0
unfolding drain
drain-Exhausted [] b mem o x = elim x [ ]
drain-Exhausted ((size, nmemb) ∷ []) b mem o (asks, empty) =
    nothing_left b size nmemb mem o asks empty
drain-Exhausted ((size, nmemb) ∷ next ∷ rest) b mem o x =
    drain-Exhausted (next ∷ rest) b (send_memory_callback size nmemb mem).1
      (send-Offers b size nmemb mem o) x

-- Once a read that asks for a byte gets none, all of the data has been sent.
pub drain-whole :
    (reads : List (ℕ × ℕ)) (bytes : Bytes)
    → Exhausted reads (offered bytes)
    → (drain reads (offered bytes)).0 ≡ map some bytes
drain-whole reads bytes x =
    let (o, whole) = drain-rest reads (map some bytes) (offered bytes) (offered-Offers bytes) in
    let left = drain-Exhausted reads (map some bytes) (offered bytes) (offered-Offers bytes) x in
    let none_left =
      drop-all (drain reads (offered bytes)).1.offset (map {B = Option ℕ} some bytes)
        (omega (arith, o.left)) in
    sym (append-nil _) ∙ rw none_left at whole

-- At least as many reads as there are bytes, each of which asks for a byte or more, send all of the
-- data.
pub drain-all :
    (reads : List (ℕ × ℕ)) (bytes : Bytes)
    → Productive reads
    → length bytes ≤ length reads
    → (drain reads (offered bytes)).0 ≡ map some bytes
drain-all reads bytes p enough =
    let (o, whole) = drain-rest reads (map some bytes) (offered bytes) (offered-Offers bytes) in
    let left = drain-left reads (map some bytes) (offered bytes) p (offered-Offers bytes) in
    let none_left =
      drop-all (drain reads (offered bytes)).1.offset (map {B = Option ℕ} some bytes)
        (omega (arith, o.left)) in
    sym (append-nil _) ∙ rw none_left at whole
