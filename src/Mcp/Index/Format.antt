-- ===== src/Mcp/Index/Format.antt =====
-- The two files of an index: `write_index` of mcp_server/bridge_mcp/index.py. The encoding of JSON, the
-- digest and the arithmetic on floats are arguments.
pub mod Laws
use php_python_ai_bridge.Base.{
  ℕ, zero, suc, ◌+◌, ◌*◌, Bool, true, false, not, ◌&&◌, ◌||◌, List, [], ◌∷◌, ◌++◌, max, map, Option,
  none, some, String, ltb, leb, ◌==◌, nat_eq, string_eq, if◌then◌else◌, length, all, codes,
}
use php_python_ai_bridge.Mcp.Index.Guard.{text_width, guard_text, guard_json, max_sidecar}
use php_python_ai_bridge.Json.{
  Value, int, str, arr, obj, Items, Members, members, items, field, is_name, text_count, whole,
  text_is, items_of, members_of,
}

-- `_vector_bytes(dimensions, count)`, or `none` where it raises.
unfoldable pub vector_bytes : ℕ → ℕ → Option ℕ
vector_bytes dimensions count =
    if leb 1 dimensions
      && leb dimensions 4096
      && (leb 1 count && leb count 50000)
      && leb (count * dimensions * 4) (50000 * 384 * 4)
    then some (count * dimensions * 4)
    else none

pub record Chunk : Type 0 where
  pub source : ℕ
  pub start : ℕ
  pub stop : ℕ
  pub text : String

abbrev pub chunk_value : Chunk → Value
chunk_value c = obj (
    members_of (
      ("source", int c.source)
      ∷ ("start", int c.start)
      ∷ ("end", int c.stop)
      ∷ ("text", str c.text)
      ∷ []))

-- What a build says of the index beside its chunks and its vectors.
pub record Head : Type 0 where
  pub model : String
  pub backend : String
  pub dimensions : ℕ
  pub chunking : Members
  pub sources : List String

abbrev pub vectors_value : String → Value
vectors_value digest = obj (
    members_of (
      ("file", str "vectors.f32")
      ∷ ("dtype", str "float32")
      ∷ ("byte_order", str "little")
      ∷ ("sha256", str digest)
      ∷ []))

unfoldable pub meta : Head → List Chunk → ℕ → String → Value
meta h chunks count digest = obj (
    members_of (
      ("format", str "bridge-index/1")
      ∷ ("model", str h.model)
      ∷ ("backend", str h.backend)
      ∷ ("dimensions", int h.dimensions)
      ∷ ("count", int count)
      ∷ ("chunking", obj h.chunking)
      ∷ ("vectors", vectors_value digest)
      ∷ ("sources", arr (items_of (map str h.sources)))
      ∷ ("chunks", arr (items_of (map chunk_value chunks)))
      ∷ []))

-- The loop over the parts of the encoded sidecar: whether none is one too many.
unfoldable pub parts_ok : ℕ → ℕ → List (List ℕ) → Bool
unfolding text_width guard_text
parts_ok size width [] = true
parts_ok size width (part ∷ parts) =
    let total = size + length part in
    let wide = max width (text_width part) in
    leb total max_sidecar && guard_text total wide && parts_ok total wide parts

abbrev pub joined : List (List ℕ) → List ℕ
joined [] = []
joined (part ∷ parts) = part ++ joined parts

unfoldable pub sidecar_ok : List (List ℕ) → Bool
unfolding parts_ok guard_json
sidecar_ok parts = parts_ok 0 1 parts && guard_json (joined parts)

-- The bytes of the sidecar and the rows of the vectors file, or a `BuildError`.
pub data Written (Row : Type 0) : Type 0 where
  build_error : Written Row
  written : List ℕ → List Row → Written Row

module _ {Row : Type 0} (width : Row → ℕ) (single : Row → Row) where
  -- The loop over the rows: what is written of them, if none is too many or of the wrong width.
  unfoldable pub written_rows : ℕ → ℕ → List Row → Option (List Row)
  written_rows dimensions left [] = some []
  written_rows dimensions left (row ∷ rows) = elim left [
    | zero ↦ none
    | suc n ↦
        let rest = written_rows dimensions n rows in
        elim (width (single row) == dimensions) [
          | true ↦ elim rest [ none ↦ none | some out ↦ some (single row ∷ out) ]
          | false ↦ none
        ]
  ]

  -- `write_index`, for a disk that takes what is written to it.
  module _ (digest : List Row → String) (iterencode : Value → List (List ℕ)) where
    unfoldable pub write_index : Head → List Chunk → List Row → Written Row
    unfolding meta vector_bytes written_rows sidecar_ok
    write_index h chunks rows = elim (vector_bytes h.dimensions (length chunks)) [
      | none ↦ build_error
      | some expected ↦ elim (written_rows h.dimensions (length chunks) rows) [
        | none ↦ build_error
        | some out ↦
            let parts = iterencode (meta h chunks (length out) (digest out)) in
            if length out == length chunks && sidecar_ok parts
            then written (joined parts) out
            else build_error
      ]
    ]
