-- ===== src/Requests/Released.antt =====
-- pt_get and then pt_free_response: no struct of the document is left over.
use pillowtalk.Prelude.{ℕ, ◌<◌, ◌≤◌, ◌≡◌, ◌≢◌, none, some, ◌^◌, length, sym, ◌∙◌}
use pillowtalk.Tree.{Tree, root_of, addrs, Holds}
use pillowtalk.Tree.Footprint.{Distinct}
use pillowtalk.Tree.New.{NewTree}
use pillowtalk.Free.Gone.{size, free_node-Gone}
use pillowtalk.Free.Cells.{Gone}
use pillowtalk.Libraries.{Bytes, Ptr, Libraries}
use pillowtalk.Heap.{Heap, null, Obj, ◌>>=◌}
use pillowtalk.Heap.Access.{IsHeap, not_null}
use pillowtalk.Heap.Returns.{Returns, Returns-and_then, Returns-weaken}
use pillowtalk.Value.{Value, missing, scalar, sequence, mapping}
use pillowtalk.Tree.Released.{Restored, Settled, free_node-Settled}
use pillowtalk.Clone.Steps.{root_present}
use pillowtalk.Http.{get_method, Curl}
use pillowtalk.Http.Body.{body, AllGranted, outcome}
use pillowtalk.Parser.{YajlParse}
use pillowtalk.Parser.Events.{events_of, parsed, cost}
use pillowtalk.Parser.Document.{Parsed}
use pillowtalk.Requests.{Response, get, free_response}
use pillowtalk.Requests.Fetched.{get-Fetched}

module _ ⦃L : Libraries⦄ where
  parsed-present : (v : Value) → parsed v ≢ missing
  unfolding parsed
  parsed-present missing e = cc
  parsed-present (scalar s) e = cc
  parsed-present (sequence vs) e = cc
  parsed-present (mapping fs) e = cc

  pub parsed-root :
      (v : Value) (h h1 : Heap Obj) (root : Ptr) (p : Parsed v h root h1) → root_of p.tree ≢ null
  parsed-root v h h1 root p =
      root_present p.tree h1.cell p.new.held λ z. parsed-present v (sym p.means ∙ z)

  -- pt_free_response of a response with a tree.
  pub free_response-Gone :
      (g : ℕ) (t : Tree) (h : Heap Obj) (r : Response)
      → size t < g
      → Holds h.cell t
      → Distinct (addrs t)
      → root_of t ≡ r.root
      → root_of t ≢ null
      → Returns (λ _ h'. Gone (addrs t) h h') (free_response g (some r) h)
  unfolding free_response
  free_response-Gone g t h r lt held d root there =
      rw (← root, not_null there) (free_node-Gone t g h lt held d)

  pub free_response-Settled :
      (g : ℕ) (t : Tree) (n : ℕ) (h h1 : Heap Obj) (r : Response)
      → IsHeap h
      → n < g
      → NewTree h t n h1
      → root_of t ≡ r.root
      → root_of t ≢ null
      → Returns (λ _ h'. Settled n h h') (free_response g (some r) h1)
  unfolding free_response
  free_response-Settled g t n h h1 r w lt new root there =
      rw (← root, not_null there) (free_node-Settled h h1 t n g w lt new)

  pub free_document :
      (g : ℕ) (v : Value) (h h1 : Heap Obj) (r : Response)
      → IsHeap h
      → cost v < g
      → Parsed v h r.root h1
      → Returns (λ _ h'. Settled (cost v) h h') (free_response g (some r) h1)
  free_document g v h h1 r w lt p =
      free_response-Settled g p.tree (cost v) h h1 r w lt p.new p.root_is
        (parsed-root v h h1 r.root p)

  -- Where the transfer succeeds with every allocation granted, its body is below 2^31 bytes, yajl reads
  -- it as a value and memory suffices, pt_get and then pt_free_response with more fuel than the value
  -- costs end without a fault and leave every cell of the heap as it was: the document is released.
  pub get-free_response :
      ⦃C : Curl⦄
      → ⦃P : YajlParse⦄ → (url : Bytes) (v : Value) (g : ℕ) (h : Heap Obj)
      → (outcome get_method url none 0).perform_code ≡ 0
      → AllGranted (outcome get_method url none 0).steps
      → length (body (outcome get_method url none 0).steps) < 2 ^ 31
      → P.events (body (outcome get_method url none 0).steps) ≡ events_of v
      → IsHeap h
      → cost v ≤ h.room
      → cost v < g
      → Returns (Restored h) ((get url >>= λ r. free_response g (some r)) h)
  get-free_response url v g h fine granted small reads w room lt =
      Returns-and_then (get-Fetched url v h fine granted small reads w room)
        λ r h1 f. Returns-weaken (free_document g v h h1 r w lt f.document) λ _ h2 s. s.cells
