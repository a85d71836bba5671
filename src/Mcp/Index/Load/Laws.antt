-- ===== src/Mcp/Index/Load/Laws.antt =====
-- What `write_index` of mcp_server/bridge_mcp/index.py has written, as `load_index` reads it.
use php_python_ai_bridge.Base.{
  ℕ, ◌≡◌, ◌≤◌, ◌<◌, refl, ap, ◌∙◌, Bool, true, ◌&&◌, List, [], ◌∷◌, map, Option, none, some, String,
  leb, nat_eq, string_eq, string_beq_iff, length, all, codes, All, arith, length-map, if_true,
}
use php_python_ai_bridge.Json.{
  Value, str, obj, items_of, items-items_of, field, is_name, text_count, whole, text_is, members,
}
use php_python_ai_bridge.Mcp.Index.Guard.{guard_json, max_sidecar}
use php_python_ai_bridge.Mcp.Index.Format.Laws.{bytes_of, write_index-WasWritten}
use php_python_ai_bridge.Mcp.Index.Format.{
  joined, vector_bytes, Chunk, chunk_value, Head, meta, vectors_value, written, write_index,
}
use php_python_ai_bridge.Mcp.Index.Load.{
  load_value, chunk_ok, VectorsFile, vectors_name, digest_of, lists_ok, parsed_lists, parsed,
  load_vectors, load_index, is_bare,
}

abbrev fields_of : Value → List (String × Value)
fields_of (obj ms) = members ms
fields_of _ = []

-- A chunk for that number of sources, with a text of 1 to 8192 characters.
pub record IsChunk (sources : ℕ) (c : Chunk) : Type 0 where
  pub known : c.source < sources
  pub proper : c.start < c.stop
  pub some_text : 0 < length (codes c.text)
  pub short : length (codes c.text) ≤ 8192

IsChunk-chunk_ok : (n : ℕ) (c : Chunk) → IsChunk n c → chunk_ok n (chunk_value c) ≡ true
unfolding chunk_ok field whole text_count
IsChunk-chunk_ok n c h = ground (arith, h.known, h.proper, h.some_text, h.short)

chunks-all :
    (n : ℕ) (chunks : List Chunk)
    → All (IsChunk n) chunks
    → all (chunk_ok n) (map chunk_value chunks) ≡ true
chunks-all n [] h = refl
chunks-all n (c ∷ chunks) h = ground (arith, IsChunk-chunk_ok n c h.0, chunks-all n chunks h.1)

names-all :
    (sources : List String)
    → All (λ s. 0 < length (codes s)) sources
    → all (λ v. is_name (some v)) (map str sources) ≡ true
unfolding is_name
names-all [] h = refl
names-all (s ∷ sources) h = ground (arith, h.0, names-all sources h.1)

lists_ok-values :
    (sources : List String) (chunks : List Chunk) (count : ℕ)
    → All (λ s. 0 < length (codes s)) sources
    → All (IsChunk (length sources)) chunks
    → length chunks ≡ count
    → lists_ok count (items_of (map str sources)) (items_of (map chunk_value chunks)) ≡ true
unfolding lists_ok
lists_ok-values sources chunks count ss cs n =
    rw
      (
        items-items_of (map str sources),
        items-items_of (map chunk_value chunks),
        length-map str sources,
      )
      (ground (
        arith,
        names-all sources ss,
        chunks-all (length sources) chunks cs,
        length-map chunk_value chunks,
        n,
      ))

parsed-meta :
    (h : Head) (chunks : List Chunk) (count expected : ℕ) (sha : String)
    → 0 < length (codes h.model)
    → 0 < length (codes h.backend)
    → All (λ s. 0 < length (codes s)) h.sources
    → All (IsChunk (length h.sources)) chunks
    → length chunks ≡ count
    → vector_bytes h.dimensions count ≡ some expected
    → parsed (fields_of (meta h chunks count sha))
      ≡ some (record {
        dimensions = h.dimensions;
        count = count;
        expected = expected;
        chunking = h.chunking;
        sources = items_of (map str h.sources);
        chunks = items_of (map chunk_value chunks);
      })
unfolding parsed parsed_lists meta field whole is_name text_is
parsed-meta h chunks count expected sha m b ss cs n sized =
    ground (arith, m, b, sized, lists_ok-values h.sources chunks count ss cs n)

module _ {Row : Type 0} (width : Row → ℕ) (single : Row → Row) where
  module _ (digest : List Row → String) where
    -- The vectors file that holds the rows, when it is found as it was written.
    abbrev pub stored : List Row → VectorsFile Row
    stored rows = record {
      inside = true;
      size = bytes_of width single rows;
      rows = rows;
      unchanged = true;
      digest = digest rows;
    }

  module _ (digest : List Row → String) (iterencode : Value → List (List ℕ)) where
    module _ (is_unit : Row → Bool) (open_vectors : String → Option (VectorsFile Row)) where
      -- The vectors file is there as it was written.
      load_vectors-stored :
          (out : List Row) (expected : ℕ)
          → open_vectors "vectors.f32" ≡ some (stored digest out)
          → bytes_of width single out ≡ expected
          → all is_unit out ≡ true
          → load_vectors is_unit open_vectors expected (some (vectors_value (digest out)))
            ≡ some out
      unfolding load_vectors vectors_name digest_of field text_is is_bare
      load_vectors-stored out expected there size units =
          ground (arith, there, size, units, string_beq_iff (digest out) (digest out))

      -- For an index that was written: with names, sources and chunks that are not empty, rows of unit
      -- length, the vectors file as it was written, and an encoding that is read as what it encodes, the
      -- index is loaded, and is what was written.
      pub load-write :
          (loads : List ℕ → Option Value) (h : Head) (chunks : List Chunk) (rows out : List Row)
          (sidecar : List ℕ)
          → write_index width single digest iterencode h chunks rows ≡ written sidecar out
          → 0 < length (codes h.model)
          → 0 < length (codes h.backend)
          → All (λ s. 0 < length (codes s)) h.sources
          → All (IsChunk (length h.sources)) chunks
          → all is_unit out ≡ true
          → open_vectors "vectors.f32" ≡ some (stored digest out)
          → loads (joined (iterencode (meta h chunks (length chunks) (digest out))))
            ≡ some (meta h chunks (length chunks) (digest out))
          → load_index is_unit open_vectors loads sidecar
            ≡ some (record {
              model = some (str h.model);
              backend = some (str h.backend);
              dimensions = h.dimensions;
              count = length chunks;
              chunking = h.chunking;
              sources = map str h.sources;
              chunks = map chunk_value chunks;
              vectors = out;
            })
      unfolding load_index load_value meta field
      load-write loads h chunks rows out sidecar e m b ss cs units there read =
          let w =
            write_index-WasWritten width single digest iterencode h chunks rows out sidecar e in
          let p = parsed-meta h chunks (length chunks) _ (digest out) m b ss cs refl w.sized in
          if_true (leb (length sidecar) max_sidecar && guard_json sidecar) _ none
            (ground (arith, w.small, w.guarded))
          ∙ ap (λ bytes. load_value is_unit open_vectors (loads bytes)) w.is_meta
          ∙ ap (load_value is_unit open_vectors) read
          ∙ ground (
            arith,
            p,
            load_vectors-stored out _ there w.wide units,
            items-items_of (map str h.sources),
            items-items_of (map chunk_value chunks),
          )
