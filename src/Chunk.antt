-- ===== src/Chunk.antt =====
-- The buffers of src/pillowtalk_impl.c that libcurl fills and drains: struct memory_chunk, myrealloc,
-- recv_memory_callback and send_memory_callback. A block lists its bytes; `none` is a byte that has
-- not been written yet.
pub mod Receive
pub mod Send
use pillowtalk.Prelude.{
  ℕ, ◌+◌, ◌-◌, ◌*◌, ◌%◌, ◌^◌, Bool, true, false, Option, none, some, List, [], ◌∷◌, ◌++◌, map, ◌==◌,
  ltb, if◌then◌else◌, length, take, drop, replicate,
}
use pillowtalk.Libraries.{Bytes}

abbrev pub Block : Type 0
Block = List (Option ℕ)

-- `offset` is used by the sender alone, which counts it from `memory`.
pub record Chunk : Type 0 where
  pub memory : Option Block
  pub offset : ℕ
  pub size : ℕ

abbrev pub size_max : ℕ
size_max = 2 ^ 64

-- realloc keeps the bytes that fit; malloc gives unwritten ones. `granted` is the allocator's answer.
unfoldable pub myrealloc : (granted : Bool) → Option Block → ℕ → Option Block
myrealloc false ptr size = none
myrealloc true none size = some (replicate size none)
myrealloc true (some b) size = some (take size b ++ replicate (size - length b) none)

-- memcpy(&b[at], bytes, …): `none` if it runs past the block's end.
unfoldable pub copy_in : Block → (at : ℕ) → Bytes → Option Block
copy_in b at bytes =
    if ltb (length b) (at + length bytes)
    then none
    else some (take at b ++ (map some bytes ++ drop (at + length bytes) b))

unfoldable pub append_bytes : Block → (size : ℕ) → Bytes → Option Chunk
unfolding copy_in
append_bytes b size bytes = elim (copy_in b size bytes) [
  | none ↦ none
  | some b' ↦ elim (copy_in b' ((size + length bytes) % size_max) (0 ∷ [])) [
    | none ↦ none
    | some b'' ↦
        some (record { memory = some b''; offset = 0; size = (size + length bytes) % size_max })
  ]
]

-- `none` is a write outside the block. `bytes` are the `size * nmemb` bytes at `ptr`. The result
-- carries what the callback returns.
unfoldable pub recv_memory_callback : (granted : Bool) → Bytes → Chunk → Option (ℕ × Chunk)
recv_memory_callback granted bytes mem =
    let realsize = length bytes in
    elim (myrealloc granted mem.memory ((mem.size + realsize + 1) % size_max)) [
      | none ↦ some (realsize, record mem { memory = none })
      | some b ↦ elim (append_bytes b mem.size bytes) [
        | none ↦ none
        | some mem' ↦ some (realsize, mem')
      ]
    ]

abbrev pub contents : Option Block → Block
contents none = []
contents (some b) = b

-- What is copied to `ptr`, whose length is the callback's result, and the chunk afterwards. The read
-- at `offset` stays within the block where `offset + size` does.
unfoldable pub send_memory_callback : (size nmemb : ℕ) → Chunk → Block × Chunk
send_memory_callback size nmemb mem =
    let realsize = (size * nmemb) % size_max in
    if ltb realsize 1
    then ([], mem)
    else if ltb 0 mem.size
    then (let bytes_to_copy = if ltb realsize mem.size then realsize else mem.size in
        (
          take bytes_to_copy (drop mem.offset (contents mem.memory)),
          record mem { offset = mem.offset + bytes_to_copy; size = mem.size - bytes_to_copy },
        ))
    else ([], mem)
