-- ===== src/Mcp/Index/Load.antt =====
-- `load_index` of mcp_server/bridge_mcp/index.py. The files, the decoding of JSON, the digest and the
-- arithmetic on floats are arguments. A name with lone surrogates is that of no file.
pub mod Laws
use php_python_ai_bridge.Base.{
  ℕ, zero, suc, ◌+◌, ◌*◌, Bool, true, false, not, ◌&&◌, ◌||◌, List, [], ◌∷◌, ◌++◌, max, map, Option,
  none, some, String, ltb, leb, ◌==◌, nat_eq, string_eq, if◌then◌else◌, length, all, codes,
}
use php_python_ai_bridge.Mcp.Index.Guard.{text_width, guard_text, guard_json, max_sidecar}
use php_python_ai_bridge.Json.{
  Value, int, str, arr, obj, Items, Members, members, items, field, is_name, text_count, whole,
  text_is, items_of, members_of,
}
use php_python_ai_bridge.Mcp.Index.Format.{vector_bytes}

-- One chunk of an index that is loaded, for the number of its sources.
pub chunk_ok : ℕ → Value → Bool
chunk_ok sources (obj ms) = elim (whole (field "source" (members ms))) [
  | none ↦ false
  | some source ↦ elim (whole (field "start" (members ms))) [
    | none ↦ false
    | some start ↦ elim (whole (field "end" (members ms))) [
      | none ↦ false
      | some stop ↦ elim (text_count (field "text" (members ms))) [
        | none ↦ false
        | some n ↦ ltb source sources && ltb start stop && ltb 0 n && leb n 8192
      ]
    ]
  ]
]
chunk_ok sources _ = false

-- `name not in ("", ".", "..") and Path(name).name == name and "\\" not in name`.
pub is_bare : String → Bool
is_bare s =
    not (s == "")
    && not (s == ".")
    && not (s == "..")
    && all (λ c. not (c == b'/') && not (c == b'\\')) (codes s)

-- The vectors file as it is found: whether it resolves inside the allowed directory, its size, its
-- rows, whether it was read whole and its digest.
pub record VectorsFile (Row : Type 0) : Type 0 where
  pub inside : Bool
  pub size : ℕ
  pub rows : List Row
  pub unchanged : Bool
  pub digest : String

pub record LoadedIndex (Row : Type 0) : Type 0 where
  pub model : Option Value
  pub backend : Option Value
  pub dimensions : ℕ
  pub count : ℕ
  pub chunking : Members
  pub sources : List Value
  pub chunks : List Value
  pub vectors : List Row

-- The name of the vectors file, or `none` where the index is refused.
pub vectors_name : Option Value → Option String
unfolding is_bare
vectors_name (some (obj ms)) = elim (field "file" (members ms)) [
  | some (str name) ↦
      if text_is "float32" (field "dtype" (members ms))
        && text_is "little" (field "byte_order" (members ms))
        && is_bare name
      then some name
      else none
  | _ ↦ none
]
vectors_name _ = none

pub digest_of : Option Value → Option Value
digest_of (some (obj ms)) = field "sha256" (members ms)
digest_of _ = none

-- The checks on the chunks and on what they are chunks of.
pub lists_ok : ℕ → Items → Items → Bool
unfolding chunk_ok
lists_ok count sources chunks =
    all (λ v. is_name (some v)) (items sources)
    && length (items chunks) == count
    && all (chunk_ok (length (items sources))) (items chunks)

-- What `load_index` has read of the sidecar, when all but the vectors is in order.
pub record Parsed : Type 0 where
  pub dimensions : ℕ
  pub count : ℕ
  pub expected : ℕ
  pub chunking : Members
  pub sources : Items
  pub chunks : Items

pub parsed_lists : ℕ → ℕ → ℕ → Option Value → Option Value → Option Value → Option Parsed
unfolding lists_ok
parsed_lists dimensions count expected (some (obj chunking)) (some (arr sources))
      (some (arr chunks)) =
    if lists_ok count sources chunks
    then some (record {
      dimensions = dimensions;
      count = count;
      expected = expected;
      chunking = chunking;
      sources = sources;
      chunks = chunks;
    })
    else none
parsed_lists dimensions count expected _ _ _ = none

pub parsed : List (String × Value) → Option Parsed
unfolding parsed_lists vector_bytes
parsed ms =
    if text_is "bridge-index/1" (field "format" ms)
      && is_name (field "model" ms)
      && is_name (field "backend" ms)
    then elim (whole (field "dimensions" ms)) [
      | none ↦ none
      | some dimensions ↦ elim (whole (field "count" ms)) [
        | none ↦ none
        | some count ↦ elim (vector_bytes dimensions count) [
          | none ↦ none
          | some expected ↦
              parsed_lists dimensions count expected (field "chunking" ms) (field "sources" ms)
                (field "chunks" ms)
        ]
      ]
    ]
    else none

module _ {Row : Type 0} (is_unit : Row → Bool)
    (open_vectors : String → Option (VectorsFile Row)) where
  pub load_vectors : ℕ → Option Value → Option (List Row)
  unfolding vectors_name digest_of
  load_vectors expected described = elim (vectors_name described) [
    | none ↦ none
    | some name ↦ elim (open_vectors name) [
      | none ↦ none
      | some file ↦
          if file.inside
            && file.size == expected
            && file.unchanged
            && text_is file.digest (digest_of described)
            && all is_unit file.rows
          then some file.rows
          else none
    ]
  ]

  -- `load_index` behind `json.loads`.
  pub load_value : Option Value → Option (LoadedIndex Row)
  unfolding parsed load_vectors
  load_value (some (obj ms)) = elim (parsed (members ms)) [
    | none ↦ none
    | some p ↦ elim (load_vectors p.expected (field "vectors" (members ms))) [
      | none ↦ none
      | some rows ↦ some (record {
        model = field "model" (members ms);
        backend = field "backend" (members ms);
        dimensions = p.dimensions;
        count = p.count;
        chunking = p.chunking;
        sources = items p.sources;
        chunks = items p.chunks;
        vectors = rows;
      })
    ]
  ]
  load_value _ = none

  -- `load_index` for the bytes of the sidecar, or `none` where it raises.
  pub load_index : (List ℕ → Option Value) → List ℕ → Option (LoadedIndex Row)
  unfolding guard_json load_value
  load_index loads sidecar =
      if leb (length sidecar) max_sidecar && guard_json sidecar
      then load_value (loads sidecar)
      else none
