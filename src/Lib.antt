-- ===== src/Lib.antt =====
-- Pillowtalk, a C interface to CouchDB documents over libcurl and yajl: src/pillowtalk_impl.c with its
-- headers src/pillowtalk_impl.h and src/pillowtalk.h.
--
-- The program keeps a JSON document as a tree of structs. Node.antt has the constructors and the
-- getters of its scalars, Array.antt and Map.antt the containers, Iterator.antt the iterators,
-- Free.antt pt_free_node, Clone.antt pt_clone, Update.antt pt_map_update, Json.antt pt_to_json and
-- Parser.antt parse_json with the callbacks that yajl makes. Chunk.antt has the buffers that libcurl
-- fills and drains, Http.antt http_operation, and Requests.antt the public requests, which send what
-- Json.antt writes and read the answer by Parser.antt. Basic.antt is the example program
-- examples/basic.c. A function keeps its name less the prefix pt_.
--
-- The heap (Heap.antt) maps addresses to structs; a struct of the program is a constructor of Obj, and
-- a pointer is its address, with 0 for NULL. A function is a command on the heap: it ends with a
-- result, by a fault (undefined behaviour: a read, a write or a free through NULL or through an
-- address that holds no such struct), by a failed assert, or out of fuel. malloc and calloc give the
-- next unused address while the heap has room, and NULL after that; as the program writes to the new
-- struct without a test, that is a fault. Strings and keys are kept in the struct that owns them, as
-- the bytes of the buffer without the closing NUL, and c_str is what strlen and strdup see of one.
-- Iterators, parser contexts, responses and chunks live outside the heap.
--
-- The third-party code is a set of interfaces, which the theorems take as they come: the hash tables
-- of uthash.h and the tail queues of bsd_queue.h by the list of their items, of which the find of
-- uthash may give any item with the key, and the C double (Libraries.antt); yajl's generator by the
-- calls made to it (Json.antt) and its parser by the callbacks that a text leads to (Parser.antt);
-- libcurl by the callbacks and codes of a transfer (Http.antt). The list of parser contexts is a List,
-- on which the macros of utlist.h that the program uses are cons and tail. Libraries/Lists.antt meets
-- the laws with plain lists, and Tests.antt applies the theorems there.
--
-- The specification: Value.antt has JSON values, and Tree.antt the trees of structs with their
-- addresses, the value that a tree stands for and when a heap holds it. Tree/Footprint.antt and
-- Tree/Fresh.antt show that a tree depends on its own structs alone and that new addresses are none of
-- them. An operation leaves a new tree (Tree/New.antt), edits a tree in place (Tree/Edited.antt), or
-- does that and puts new structs into it (Tree/Changed.antt). Clone/Kept.antt has what a copy keeps of
-- a value, Update/Merge.antt the merge of two values, Map/Fields.antt and Map/Client.antt the edits of
-- a map's fields, and Array/Places.antt and Array/Client.antt those of a sequence.
--
-- Fuel bounds the recursion: pt_free_node takes more than the tree has structs, which Free/Gone.antt
-- shows to be enough, and so do the edits that free a value; pt_to_json and pt_clone take more than
-- the nesting of the containers (Json/Tokens.antt, Clone/Copied.antt), and pt_map_update more than the
-- structs of both maps and two (Update/Ready.antt). Fuel.antt and its children are about what more
-- fuel does to a run. The parser and the buffers need none.
--
-- Parser/Document.antt is about the text of a whole value, Parser/Broken.antt about one at which yajl
-- stops before: there Parser/Older.antt is about the structs that were there first, by
-- Heap/Local.antt, which has the commands that leave the addresses below a limit alone.
--
-- The length of a text to parse is an int and that of a text to send an unsigned int, as in the source
-- (from_json of Parser.antt, data_len of Requests.antt). http_operation copies the data to send by a
-- malloc that the environment grants or not, and no more of it than there is.
--
-- The example program gets an answer of libcurl for each of its requests (Session of Basic.antt).
-- Basic/Build.antt is about the document that it builds, Basic/Edit.antt and Basic/Fetched.antt about
-- what it does to the one that it has fetched, for which Tree/Shape.antt finds the parts of a tree
-- from its value, Basic/Revision.antt the revision that a server may add, and Basic/Expected.antt and
-- Basic/Main.antt about the whole. Tree/Released.antt says when a heap is as it was before a tree was
-- made, or as it was less a tree; Requests/Released.antt, Clone/Released.antt and Update/Released.antt
-- use it.
--
-- Not modelled: pt_init and pt_cleanup, which only call libcurl; the options of libcurl that do not
-- bear on the result; what is printed; the release of the strings, responses, iterators and parser
-- contexts apart from the struct that owns them.
pub mod Prelude
pub mod Libraries
pub mod Heap
pub mod Value
pub mod Tree
pub mod Node
pub mod Free
pub mod Fuel
pub mod Array
pub mod Map
pub mod Iterator
pub mod Clone
pub mod Update
pub mod Json
pub mod Parser
pub mod Chunk
pub mod Http
pub mod Requests
pub mod Basic
mod Tests
