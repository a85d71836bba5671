-- ===== src/Samples/Index.antt =====
-- Examples of an index: a text of words of four letters, in windows of 200 characters.
use php_python_ai_bridge.Base.{
  ℕ, zero, suc, ◌≡◌, refl, true, List, [], ◌∷◌, arith, All, is_space, map, length, Option, some,
  none, String, ◌⊎◌, nat_eq,
}
use php_python_ai_bridge.Json.{Value, str, int, members_of}
use php_python_ai_bridge.Mcp.Index.Batches.{batches, batches_loop}
use php_python_ai_bridge.Mcp.Index.Cache.{
  Disk, loads, os_error, get, held_after, cached, is_current, keep, load_twice,
}
use php_python_ai_bridge.Mcp.Index.Cache.Laws.{WasLoaded, IsLoadedBy, get_fresh}
use php_python_ai_bridge.Mcp.Index.Guard.{
  text_width, guard_text, guard_json, tokens_ok, starts_wide, has_width4,
}
use php_python_ai_bridge.Mcp.Index.Format.{
  Chunk, chunk_value, meta, written, written_rows, write_index, vector_bytes, sidecar_ok, parts_ok,
}
use php_python_ai_bridge.Mcp.Index.Load.{VectorsFile, load_index}
use php_python_ai_bridge.Mcp.Index.Load.Laws.{stored}
use php_python_ai_bridge.Mcp.Index.Build.{
  build, build_chunks, build_index, file_chunks, rows_of, head_of,
}
use php_python_ai_bridge.Mcp.Index.Build.Laws.{load-build}
use php_python_ai_bridge.Mcp.Index.Chunks.{
  Window, chunked, chunk_text, chunk_loop, window_end, next_start, trim_end, last_space,
  last_space_loop, next_word, skip_space, search, is_word,
}
use php_python_ai_bridge.Mcp.Index.Chunks.Laws.{IsWindow, Ascends, is_within, chunk_text-windows}

-- `n` words of two letters, each before two spaces.
abbrev words : ℕ → List ℕ
words zero = []
words (suc n) = b'a' ∷ b'b' ∷ b' ' ∷ b' ' ∷ words n

chunks_test :
    chunk_text (words 75) 200 40
    ≡ chunked (record { start = 0; stop = 198 } ∷ record { start = 160; stop = 298 } ∷ [])
unfolding chunk_text chunk_loop window_end next_start trim_end last_space last_space_loop next_word
    skip_space search is_word is_space
chunks_test = refl

chunk_text-windows_example :
    (ws : List Window) × (chunk_text (words 75) 200 40 ≡ chunked ws)
    × All (IsWindow (words 75) 200) ws
    × Ascends 0 ws
    × (is_within 165 ws ≡ true)
unfolding is_word is_space
chunk_text-windows_example =
    chunk_text-windows (words 75) 200 40 165 (omega arith) (omega arith) (omega arith) refl

-- Texts stand for their lengths in bytes: the first takes a batch alone, 33 short ones take two.
abbrev sizes : ℕ → List ℕ
sizes zero = []
sizes (suc n) = 10 ∷ sizes n

batches_test : map length (batches (λ n. n) (250000 ∷ sizes 33)) ≡ 1 ∷ 32 ∷ 1 ∷ []
unfolding batches batches_loop
batches_test = refl

-- One file, of one chunk, with a vector of one component.
abbrev one_chunk : List Chunk
one_chunk = record { source = 0; start = 1; stop = 3; text = "ab" } ∷ []

abbrev one_meta : Value
one_meta = meta (head_of "m" "onnx" 1 200 40 ("a.txt" ∷ [])) one_chunk 1 "d1"

abbrev sha : List ℕ → String
sha rows = "d1"

abbrev encode : Value → List (List ℕ)
encode v = (b'{' ∷ []) ∷ (b'"' ∷ b'[' ∷ b'"' ∷ b'}' ∷ []) ∷ []

abbrev embed_one : List String → Option (List ℕ)
embed_one texts = some (1 ∷ [])

abbrev sidecar : List ℕ
sidecar = b'{' ∷ b'"' ∷ b'[' ∷ b'"' ∷ b'}' ∷ []

abbrev open_one : String → Option (VectorsFile ℕ)
open_one name = some (stored (λ row. 1) (λ row. row) sha (1 ∷ []))

build_test :
    build
      (λ row. 1)
      (λ row. row)
      sha
      encode
      (λ s. 4)
      embed_one
      200
      40
      "m"
      "onnx"
      1
      ("a.txt" ∷ [])
      (" ab\n" ∷ [])
    ≡ written sidecar (1 ∷ [])
unfolding build build_chunks build_index file_chunks chunk_text chunk_loop window_end next_start
    trim_end skip_space search is_word is_space rows_of batches batches_loop write_index
    vector_bytes written_rows sidecar_ok parts_ok text_width guard_text guard_json tokens_ok
    starts_wide has_width4
build_test = refl

load-build_example :
    load_index (λ row. true) open_one (λ bytes. some one_meta) sidecar
    ≡ some (record {
      model = some (str "m");
      backend = some (str "onnx");
      dimensions = 1;
      count = 1;
      chunking = members_of (("chars", int 200) ∷ ("overlap", int 40) ∷ []);
      sources = str "a.txt" ∷ [];
      chunks = map chunk_value one_chunk;
      vectors = 1 ∷ [];
    })
unfolding build_chunks file_chunks chunk_text chunk_loop window_end next_start trim_end skip_space
    search is_word is_space
load-build_example =
    load-build (λ row. 1) (λ row. row) sha encode (λ s. 4) embed_one (λ row. true) open_one
      (λ bytes. some one_meta) 200 40 1 "m" "onnx" ("a.txt" ∷ []) (" ab\n" ∷ []) one_chunk sidecar
      (1 ∷ []) (omega arith) (omega arith) (omega arith) refl
      (omega arith, (omega arith, (omega arith, tt))) refl build_test refl refl refl

-- An index is loaded at its second try, and served again while its stamps stay.
abbrev first_load : Disk ℕ ℕ
first_load = record { stamps = none; first = os_error; second = loads 7 }

abbrev later_call : Disk ℕ ℕ
later_call = record { stamps = some 7; first = os_error; second = os_error }

abbrev same_stamp : ℕ → ℕ
same_stamp l = l

get_fresh_example :
    ((later_call.stamps ≡ some 7) × WasLoaded {K = ℕ} same_stamp 1 7 ((1, first_load) ∷ []))
    ⊎ IsLoadedBy {K = ℕ} same_stamp 1 7 (1, later_call)
unfolding held_after get cached is_current load_twice keep
get_fresh_example = get_fresh same_stamp ((1, first_load) ∷ []) 1 later_call 7 (some (1, 7)) refl
