-- ===== src/Basic/Main.antt =====
-- The example program as a whole, with a server that answers as it expects.
use pillowtalk.Prelude.{
  Option, ◌^◌, ℕ, ◌+◌, ◌<◌, ◌≤◌, ◌≡◌, ◌≢◌, refl, sym, ◌∙◌, none, some, length, arith,
}
use pillowtalk.Libraries.{Bytes, Ptr, Libraries}
use pillowtalk.Heap.{Heap, null, Obj, Prog, ◌>>=◌, ◌>>◌}
use pillowtalk.Heap.Access.{IsHeap}
use pillowtalk.Heap.Returns.{Returns, Returns-and_then, Returns-weaken}
use pillowtalk.Value.{Value}
use pillowtalk.Tree.{Tree, root_of, meaning, addrs, Holds}
use pillowtalk.Tree.Shape.{value_count}
use pillowtalk.Tree.Footprint.{Distinct}
use pillowtalk.Tree.New.{NewTree, NewTree-keeps}
use pillowtalk.Tree.Changed.{Changed-NewTree}
use pillowtalk.Free.{free_node}
use pillowtalk.Tree.Released.{
  Restored, Settled, free_node-Settled, Settled-NewTree, older_first-NewTree,
}
use pillowtalk.Http.{get_method, put_method, delete_method, Curl}
use pillowtalk.Json.{YajlGen}
use pillowtalk.Parser.{YajlParse}
use pillowtalk.Parser.Events.{cost}
use pillowtalk.Requests.{Response, get, put, delete, free_response, put_raw}
use pillowtalk.Requests.Fetched.{parse_reply-Fetched, get-Fetched}
use pillowtalk.Requests.Stored.{sent_text}
use pillowtalk.Requests.Released.{
  free_response-Gone, free_response-Settled, free_document, parsed-root,
}
use pillowtalk.Basic.{Session, database_url, document_url, assertion, is_code, edit_document, main}
use pillowtalk.Basic.Build.{three_characters, star_wars, build_document-NewDocument}
use pillowtalk.Basic.Fetched.{EditedDocument, edited_saga, edit_document-EditedDocument}
use pillowtalk.Basic.Revision.{fetched_saga}
use pillowtalk.Basic.Expected.{
  parsed-fetched_saga, Answered, code-ok, document-root, save, Expected,
}

module _ ⦃L : Libraries⦄ ⦃P : YajlParse⦄ where
  module _ ⦃G : YajlGen⦄ where
    edit_at :
        (t : Tree) (q : Ptr) (rev : Option Bytes) (fuel : ℕ) (h : Heap Obj)
        → root_of t ≡ q
        → meaning t ≡ fetched_saga rev
        → IsHeap h
        → Holds h.cell t
        → Distinct (addrs t)
        → 4 ≤ h.room
        → 0 < fuel
        → Returns (λ _ h'. EditedDocument t rev three_characters h h') (edit_document fuel q h)
    unfolding value_count
    edit_at t q rev fuel h root means w held d room enough =
        rw (← root) (
          edit_document-EditedDocument t rev three_characters fuel h means refl w held d room
            enough)

    -- The edited document is saved and goes first, its answer goes next.
    save_edited :
        ⦃C : Curl⦄
        → (fuel : ℕ) (t : Tree) (rev : Option Bytes) (r : Response) (v : Value) (n : ℕ)
          (h h2 : Heap Obj)
        → Answered put_method document_url
            (some (sent_text (edited_saga rev three_characters)))
            (length (sent_text (edited_saga rev three_characters)))
            v
        → length (sent_text (edited_saga rev three_characters)) < 2 ^ 32
        → IsHeap h
        → NewTree h t n h2
        → root_of t ≡ r.root
        → r.root ≢ null
        → meaning t ≡ edited_saga rev three_characters
        → cost v ≤ h2.room
        → n + cost v < fuel
        → Returns
            (λ _ h'. Settled (n + cost v) h h')
            ((put fuel document_url r.root >>= λ put_response.
                free_response fuel (some r) >> free_response fuel (some put_response))
              h2)
    save_edited fuel t rev r v n h h2 a short w new root there means room enough =
        Returns-and_then
          (save fuel t r.root (edited_saga rev three_characters) v h2 a short root there means
            (omega (arith, new.small)) new.held new.is_heap room)
          λ r5 h3 got.
            let p = got.document in
            Returns-and_then
              (free_response-Gone fuel t h3 r (omega (arith, new.small))
                (NewTree-keeps h2 h3 p.tree (cost v) t new.is_heap p.new new.held) new.distinct root
                (λ e. there (sym root ∙ e)))
              λ _ h4 gone.
                free_response-Settled fuel p.tree (n + cost v) h h4 r5 w enough
                  (older_first-NewTree h h2 h3 h4 t p.tree n (cost v) new p.new gone) p.root_is
                  (parsed-root v h2 h3 r5.root p)

    -- The second half: the document is fetched, edited, saved again and released.
    update_document :
        (fuel : ℕ) (s : Session) (rev : Option Bytes) (a b c d : Value) (h : Heap Obj)
        → Expected s rev a b c d
        → IsHeap h
        → cost (fetched_saga rev) + 4 + cost d ≤ h.room
        → cost (fetched_saga rev) + 4 + cost d < fuel
        → Returns
            (λ _ h'. Settled (cost (fetched_saga rev) + 4 + cost d) h h')
            ((do
              fetched ← get ⦃C = s.at_fetch⦄ document_url
              assertion (is_code 200 fetched.reply.response_code)
              edit_document fuel fetched.root
              put_response ← put ⦃C = s.at_update⦄ fuel document_url fetched.root
              free_response fuel (some fetched)
              free_response fuel (some put_response))
              h)
    update_document fuel s rev a b c d h x w room enough =
        let f = x.at_fetch.answered in
        Returns-and_then
          (get-Fetched ⦃C = s.at_fetch⦄ document_url (fetched_saga rev) h f.fine f.granted f.small
            f.reads w (omega arith))
          λ r h1 got.
            let p = got.document in
            let there = parsed-root (fetched_saga rev) h h1 r.root p in
            rw
              (code-ok ⦃C = s.at_fetch⦄ 200 get_method document_url none 0 (fetched_saga rev) h h1
                h1 r x.at_fetch got)
              (Returns-and_then
                (edit_at p.tree r.root rev fuel h1 p.root_is (p.means ∙ parsed-fetched_saga rev)
                  p.new.is_heap p.new.held p.new.distinct (omega (arith, p.new.room)) (omega arith))
                λ _ h2 e.
                  save_edited ⦃C = s.at_update⦄ fuel e.tree rev r d (cost (fetched_saga rev) + 4) h
                    h2 x.at_update x.short_edited w
                    (Changed-NewTree h h1 h2 p.tree e.tree (cost (fetched_saga rev)) 4 p.new
                      e.changed)
                    (e.root_is ∙ p.root_is) (λ z. there (p.root_is ∙ z)) e.means
                    (omega (arith, p.new.room, e.changed.room)) enough)

    -- The first half ends: the document is saved and released.
    save_document :
        (fuel : ℕ) (s : Session) (rev : Option Bytes) (a b c d : Value) (t : Tree) (root : Ptr)
        (n : ℕ) (h h1 : Heap Obj) (rest : Prog (Unit {0}))
        → Expected s rev a b c d
        → IsHeap h
        → NewTree h t n h1
        → root_of t ≡ root
        → root ≢ null
        → meaning t ≡ star_wars
        → cost c ≤ h1.room
        → n + cost c < fuel
        → ((h2 : Heap Obj) → Settled (n + cost c) h h2 → Returns (Restored h) (rest h2))
        → Returns (Restored h) (
            (put ⦃C = s.at_save⦄ fuel document_url root >>= λ saved.
            assertion (is_code 201 saved.reply.response_code)
            >> (free_response fuel (some saved) >> (free_node fuel root >> rest)))
              h1)
    save_document fuel s rev a b c d t root n h h1 rest x w new root_is there means room enough
          after =
        Returns-and_then
          (save ⦃C = s.at_save⦄ fuel t root star_wars c h1 x.at_save.answered x.short root_is there
            means (omega (arith, new.small)) new.held new.is_heap room)
          λ r h2 got.
            rw
              (code-ok ⦃C = s.at_save⦄ 201 put_method document_url (some (sent_text star_wars))
                (length (sent_text star_wars)) c h1 h2 h2 r x.at_save got)
              (Returns-and_then
                (free_document fuel c h1 h2 r new.is_heap (omega arith) got.document)
                λ _ h3 s3. rw (← root_is) (
                  Returns-and_then
                    (free_node-Settled h h3 t (n + cost c) fuel w enough
                      (Settled-NewTree h h1 h3 t n (cost c) new s3))
                    λ _ h4 s4. after h4 s4))

    -- The memory for all that the program allocates, and the fuel that exceeds it.
    abbrev pub needed : (rev : Option Bytes) (deleted created saved updated : Value) → ℕ
    needed rev a b c d = 15 + cost a + cost b + cost c + (cost (fetched_saga rev) + 4 + cost d)

    -- With a server that answers as the program expects, each transfer with all its allocations granted and
    -- the fetched document the one that has been saved, with the server's revision or without one, with
    -- texts to send below 2^32 bytes, and with memory and fuel for the document and the answers, the
    -- example program ends without a fault and with all its assertions true, and every
    -- cell of the heap is as it was.
    pub main-Restored :
        (s : Session) (rev : Option Bytes) (fuel : ℕ) (deleted created saved updated : Value)
        (h : Heap Obj)
        → Expected s rev deleted created saved updated
        → IsHeap h
        → needed rev deleted created saved updated ≤ h.room
        → needed rev deleted created saved updated < fuel
        → Returns (Restored h) (main s fuel h)
    unfolding main put put_raw delete
    main-Restored s rev fuel a b c d h x w room enough =
        Returns-and_then (build_document-NewDocument fuel h w (omega arith) (omega arith))
          λ root h1 doc.
            Returns-and_then
              (parse_reply-Fetched ⦃C = s.at_delete⦄ delete_method database_url none 0 a h1 tt
                x.at_delete.fine x.at_delete.granted x.at_delete.small x.at_delete.reads
                doc.new.is_heap (omega (arith, doc.new.room)))
              λ r1 h2 f1.
                Returns-and_then
                  (free_document fuel a h1 h2 r1 doc.new.is_heap (omega arith) f1.document)
                  λ _ h3 s3.
                    Returns-and_then
                      (parse_reply-Fetched ⦃C = s.at_create⦄ put_method database_url none 0 b h3 tt
                        x.at_create.fine x.at_create.granted x.at_create.small x.at_create.reads
                        s3.is_heap (omega (arith, doc.new.room, s3.room)))
                      λ r2 h4 f2.
                        Returns-and_then
                          (free_document fuel b h3 h4 r2 s3.is_heap (omega arith) f2.document)
                          λ _ h5 s5.
                            let new =
                              Settled-NewTree h h3 h5 doc.tree (15 + cost a) (cost b)
                                (Settled-NewTree h h1 h3 doc.tree 15 (cost a) doc.new s3) s5 in
                            save_document fuel s rev a b c d doc.tree root (15 + cost a + cost b) h
                              h5 _ x w new doc.root_is
                              (document-root doc.tree root h5 doc.root_is doc.means new.held)
                              doc.means (omega (arith, new.room)) (omega arith)
                              λ h6 s6.
                                Returns-weaken
                                  (update_document fuel s rev a b c d h6 x s6.is_heap
                                    (omega (arith, s6.room)) (omega arith))
                                  λ _ h7 s7. λ p. s7.cells p ∙ s6.cells p
