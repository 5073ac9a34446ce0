-- ===== src/Json/RoundTrip.antt =====
-- pt_to_json and then pt_from_json: the text of a document reads back as the same value.
use pillowtalk.Prelude.{ℕ, ◌^◌, length, arith, ◌<◌, ◌≤◌, ◌≡◌, ◌∙◌, refl, ap, ap₂}
use pillowtalk.Prelude.Int.{pos, IsInt, to_int-IsInt}
use pillowtalk.Libraries.{Bytes, Ptr, Libraries}
use pillowtalk.Heap.{Heap, Obj, ◌>>=◌}
use pillowtalk.Heap.Access.{IsHeap}
use pillowtalk.Heap.Returns.{Returns, Returns-weaken}
use pillowtalk.Node.{c_str}
use pillowtalk.Value.{
  Scalar, null_value, bool_value, int_value, double_value, text, Value, Values, Fields, missing,
  scalar, sequence, mapping, no_values, value, no_fields, field,
}
use pillowtalk.Tree.{Tree, root_of, meaning, Holds}
use pillowtalk.Tree.New.{NewTree}
use pillowtalk.Chunk.Receive.{take-le}
use pillowtalk.Json.{YajlGen, to_json}
use pillowtalk.Json.Tokens.{tokens, depth, emit, to_json-tokens}
use pillowtalk.Parser.{YajlParse, parse_json, from_json}
use pillowtalk.Parser.Events.{events_of, parsed, parsed_values, parsed_fields, cost}
use pillowtalk.Parser.Document.{parse_json-Parsed}

module _ ⦃L : Libraries⦄ where
  -- A value that the program keeps whole: no NULL pointer, integers of type `int`, texts and keys with
  -- no NUL byte.
  abbrev pub IsPlainScalar : Scalar → Type 0
  IsPlainScalar (int_value z) = IsInt z
  IsPlainScalar (text s) = c_str s ≡ s
  IsPlainScalar null_value = Unit
  IsPlainScalar (bool_value b) = Unit
  IsPlainScalar (double_value d) = Unit

  abbrev mutual
    pub IsPlain : Value → Type 0
    IsPlain missing = ⊥
    IsPlain (scalar s) = IsPlainScalar s
    IsPlain (sequence vs) = ArePlain vs
    IsPlain (mapping fs) = PlainFields fs

    pub ArePlain : Values → Type 0
    ArePlain no_values = Unit
    ArePlain (value v vs) = IsPlain v × ArePlain vs

    pub PlainFields : Fields → Type 0
    PlainFields no_fields = Unit
    PlainFields (field k v fs) = (c_str k ≡ k) × IsPlain v × PlainFields fs

  parsed-IsPlainScalar : (s : Scalar) → IsPlainScalar s → parsed (scalar s) ≡ scalar s
  unfolding parsed
  parsed-IsPlainScalar null_value p = refl
  parsed-IsPlainScalar (bool_value b) p = refl
  parsed-IsPlainScalar (int_value z) p = ap (λ w. scalar (int_value w)) (to_int-IsInt z p)
  parsed-IsPlainScalar (double_value d) p = refl
  parsed-IsPlainScalar (text s) p = refl

  mutual
    unfolding parsed

    parsed-IsPlain : (v : Value) → IsPlain v → parsed v ≡ v
    parsed-IsPlain missing p = elim p [ ]
    parsed-IsPlain (scalar s) p = parsed-IsPlainScalar s p
    parsed-IsPlain (sequence vs) p = ap sequence (parsed-ArePlain vs p)
    parsed-IsPlain (mapping fs) p = ap mapping (parsed-PlainFields fs p)

    parsed-ArePlain : (vs : Values) → ArePlain vs → parsed_values vs ≡ vs
    parsed-ArePlain no_values p = refl
    parsed-ArePlain (value v vs) (p, ps) = ap₂ value (parsed-IsPlain v p) (parsed-ArePlain vs ps)

    parsed-PlainFields : (fs : Fields) → PlainFields fs → parsed_fields fs ≡ fs
    parsed-PlainFields no_fields p = refl
    parsed-PlainFields (field k v fs) (e, p, ps) =
        ap₂ (field k) (parsed-IsPlain v p) (parsed-PlainFields fs ps)

  -- A tree of new structs at `root` that stands for the value `v`.
  pub record IsDocument (v : Value) (h : Heap Obj) (root : Ptr) (h' : Heap Obj) : Type 0 where
    pub tree : Tree
    pub root_is : root_of tree ≡ root
    pub new : NewTree h tree (cost v) h'
    pub means : meaning tree ≡ v

  module _ ⦃G : YajlGen⦄ ⦃P : YajlParse⦄ where
    -- The text that yajl generates for a value, and that it reads the text back as that value.
    abbrev pub text_of : ℕ → Value → Bytes
    text_of beautify v = G.get_buf (emit (tokens v) (G.gen_alloc beautify))

    abbrev pub ReadsBack : ℕ → Value → Type 0
    ReadsBack beautify v = P.events (c_str (text_of beautify v)) ≡ events_of v

    from_json-short :
        (s : Bytes) (h : Heap Obj)
        → length (c_str s) < 2 ^ 31
        → from_json s h ≡ parse_json (c_str s) h
    unfolding from_json
    from_json-short s h small =
        rw
          (
            from_json,
            to_int-IsInt (pos (length (c_str s))) small,
            take-le (c_str s) (length (c_str s)) (omega arith),
          )
          refl

    -- For every document of plain values: where yajl reads back what it generates, the text is below 2^31
    -- bytes, memory suffices and the fuel exceeds the depth of the tree, pt_from_json of pt_to_json ends
    -- without a fault at a tree of new structs, each once, that stands for the same value, and changes no
    -- older struct.
    pub from_json-to_json :
        (t : Tree) (f : ℕ) (h : Heap Obj) (beautify : ℕ)
        → depth t < f
        → Holds h.cell t
        → IsHeap h
        → cost (meaning t) ≤ h.room
        → IsPlain (meaning t)
        → ReadsBack beautify (meaning t)
        → length (c_str (text_of beautify (meaning t))) < 2 ^ 31
        → Returns (IsDocument (meaning t) h) ((to_json f (root_of t) beautify >>= from_json) h)
    unfolding from_json
    from_json-to_json t f h beautify d held w room plain back small =
        rw
          (
            to_json-tokens t f h beautify d held,
            from_json-short (text_of beautify (meaning t)) h small,
          )
          (Returns-weaken
            (parse_json-Parsed (c_str (text_of beautify (meaning t))) (meaning t) h back w room)
            λ root h' p. record {
              tree = p.tree;
              root_is = p.root_is;
              new = p.new;
              means = p.means ∙ parsed-IsPlain (meaning t) plain;
            })
