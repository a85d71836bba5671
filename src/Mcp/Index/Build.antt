-- ===== src/Mcp/Index/Build.antt =====
-- `build` of mcp_server/bridge_mcp/index.py: from the texts of files to the two files of an index. The
-- files' names and texts, and the vectors that the worker returns for a batch, are arguments.
pub mod Laws
use Prim.Native.String
use php_python_ai_bridge.Base.{
  ℕ, zero, suc, ◌+◌, ◌-◌, Bool, true, false, List, [], ◌∷◌, ◌++◌, map, Option, none, some, String,
  ltb, length, codes,
}
use php_python_ai_bridge.Json.{Value, Members, int, members_of}
use php_python_ai_bridge.Mcp.Index.Chunks.{Window, Chunking, chunked, chunk_text}
use php_python_ai_bridge.Mcp.Index.Batches.{batches}
use php_python_ai_bridge.Mcp.Index.Format.{Chunk, Head, Written, build_error, write_index}

abbrev drop_chars : ℕ → String → String
drop_chars zero s = s
drop_chars (suc n) String.[] = String.[]
drop_chars (suc n) (String.◌∷◌ c s) = drop_chars n s

abbrev take_chars : ℕ → String → String
take_chars zero s = String.[]
take_chars (suc n) String.[] = String.[]
take_chars (suc n) (String.◌∷◌ c s) = String.◌∷◌ c (take_chars n s)

-- `text[start:end]`.
abbrev pub slice_string : ℕ → ℕ → String → String
slice_string start stop text = take_chars (stop - start) (drop_chars start text)

-- The chunks of one file.
unfoldable pub file_chunks : ℕ → String → List Window → List Chunk
file_chunks number text [] = []
file_chunks number text (w ∷ ws) =
    record {
      source = number;
      start = w.start;
      stop = w.stop;
      text = slice_string w.start w.stop text;
    }
    ∷ file_chunks number text ws

-- The loop over the files, or `none` where `chunk_text` raises.
unfoldable pub build_chunks : ℕ → ℕ → ℕ → List String → Option (List Chunk)
unfolding file_chunks chunk_text
build_chunks chars overlap number [] = some []
build_chunks chars overlap number (text ∷ texts) = elim (chunk_text (codes text) chars overlap) [
  | chunked ws ↦ elim (build_chunks chars overlap (number + 1) texts) [
    | none ↦ none
    | some later ↦ some (file_chunks number text ws ++ later)
  ]
  | _ ↦ none
]

-- `texts[number]`, which is empty past the end.
abbrev text_at : List String → ℕ → String
text_at [] number = ""
text_at (text ∷ texts) zero = text
text_at (text ∷ texts) (suc number) = text_at texts number

abbrev pub text_of : Chunk → String
text_of c = c.text

module _ {Row : Type 0} (embed : List String → Option (List Row)) (texts : List String) where
  -- `rows()` over the batches, or `none` where `_embed` raises.
  unfoldable pub rows_of : List (List ℕ) → Option (List Row)
  rows_of [] = some []
  rows_of (batch ∷ rest) = elim (embed (map (text_at texts) batch)) [
    | none ↦ none
    | some rows ↦ elim (rows_of rest) [ none ↦ none | some later ↦ some (rows ++ later) ]
  ]

abbrev pub head_of : String → String → ℕ → ℕ → ℕ → List String → Head
head_of model backend dimensions chars overlap names = record {
  model = model;
  backend = backend;
  dimensions = dimensions;
  chunking = members_of (("chars", int chars) ∷ ("overlap", int overlap) ∷ []);
  sources = names;
}

module _ {Row : Type 0} (width : Row → ℕ) (single : Row → Row) (digest : List Row → String)
    (iterencode : Value → List (List ℕ)) (encoded : String → ℕ)
    (embed : List String → Option (List Row)) where
  -- The end of `build`, from the chunks on.
  unfoldable pub build_index : Head → List Chunk → Written Row
  unfolding rows_of batches
  build_index head chunks = elim (ltb 0 (length chunks)) [
    | false ↦ build_error
    | true ↦ elim (ltb 50000 (length chunks)) [
      | true ↦ build_error
      | false ↦ elim (rows_of embed (map text_of chunks) (batches encoded (map text_of chunks))) [
        | none ↦ build_error
        | some rows ↦ write_index width single digest iterencode head chunks rows
      ]
    ]
  ]

  -- `build`, for the model and the dimensions that the first batch fixes.
  unfoldable pub build :
      (chars overlap : ℕ) (model backend : String) (dimensions : ℕ) (names texts : List String)
      → Written Row
  unfolding build_chunks build_index
  build chars overlap model backend dimensions names texts =
      elim (build_chunks chars overlap 0 texts) [
        | none ↦ build_error
        | some chunks ↦ build_index (head_of model backend dimensions chars overlap names) chunks
      ]
