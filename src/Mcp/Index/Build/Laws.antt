-- ===== src/Mcp/Index/Build/Laws.antt =====
-- What `build` of mcp_server/bridge_mcp/index.py writes, as `load_index` reads it.
use php_python_ai_bridge.Base.{
  ℕ, zero, suc, ◌+◌, ◌-◌, ◌/◌, ◌≡◌, ◌≤◌, ◌<◌, refl, min, Bool, true, List, [], ◌∷◌, ◌++◌, map,
  Option, some, String, length, codes, All, all, arith, subst, Option-cases, inl, inr,
}
use php_python_ai_bridge.Json.{Value, str, int, members_of}
use php_python_ai_bridge.Mcp.Index.Chunks.{Window}
use php_python_ai_bridge.Mcp.Index.Chunks.Laws.{IsWindow, chunk_text-Chunked}
use php_python_ai_bridge.Mcp.Index.Batches.{batches}
use php_python_ai_bridge.Mcp.Index.Format.{
  Chunk, chunk_value, Head, meta, written, write_index, joined,
}
use php_python_ai_bridge.Mcp.Index.Load.{VectorsFile, load_index}
use php_python_ai_bridge.Mcp.Index.Load.Laws.{IsChunk, load-write, stored}
use php_python_ai_bridge.Mcp.Index.Build.{
  drop_chars, take_chars, slice_string, file_chunks, build_chunks, text_of, rows_of, build_index,
  head_of, build,
}

length-drop_chars : (n : ℕ) (s : String) → length (codes (drop_chars n s)) ≡ length (codes s) - n
length-drop_chars zero s = omega arith
length-drop_chars (suc n) String.[] = omega arith
length-drop_chars (suc n) (String.◌∷◌ c s) = omega (arith, length-drop_chars n s)

length-take_chars :
    (n : ℕ) (s : String) → length (codes (take_chars n s)) ≡ min n (length (codes s))
length-take_chars zero s = omega arith
length-take_chars (suc n) String.[] = omega arith
length-take_chars (suc n) (String.◌∷◌ c s) = omega (arith, length-take_chars n s)

-- A window of at most 4000 characters makes a chunk of its text.
window-IsChunk :
    (text : String) (chars number sources : ℕ) (w : Window)
    → chars ≤ 4000
    → number < sources
    → IsWindow (codes text) chars w
    → IsChunk sources (record {
      source = number;
      start = w.start;
      stop = w.stop;
      text = slice_string w.start w.stop text;
    })
window-IsChunk text chars number sources w hi known h =
    let taken = length-take_chars (w.stop - w.start) (drop_chars w.start text) in
    let dropped = length-drop_chars w.start text in
    record {
      known = known;
      proper = h.proper;
      some_text = omega (arith, taken, dropped, h.proper, h.inside);
      short = omega (arith, taken, dropped, h.short, hi);
    }

file_chunks-IsChunk :
    (text : String) (chars number sources : ℕ) (ws : List Window)
    → chars ≤ 4000
    → number < sources
    → All (IsWindow (codes text) chars) ws
    → All (IsChunk sources) (file_chunks number text ws)
unfolding file_chunks
file_chunks-IsChunk text chars number sources [] hi known h = tt
file_chunks-IsChunk text chars number sources (w ∷ ws) hi known h = (
  window-IsChunk text chars number sources w hi known h.0,
  file_chunks-IsChunk text chars number sources ws hi known h.1,
)

All-join {ℓ κ} :
    {A : Type ℓ} (P : A → Type κ) (xs ys : List A) → All P xs → All P ys → All P (xs ++ ys)
All-join P [] ys h k = k
All-join P (x ∷ xs) ys h k = (h.0, All-join P xs ys h.1 k)

-- Each chunk that a build makes is one that a load takes.
build_chunks-IsChunk :
    (chars overlap number sources : ℕ) (texts : List String)
    → 200 ≤ chars
    → chars ≤ 4000
    → overlap < chars / 2
    → number + length texts ≤ sources
    → (chunks : List Chunk) × (build_chunks chars overlap number texts ≡ some chunks)
      × All (IsChunk sources) chunks
unfolding build_chunks
build_chunks-IsChunk chars overlap number sources [] lo hi less le = ([], refl, tt)
build_chunks-IsChunk chars overlap number sources (text ∷ texts) lo hi less le =
    let (ws, cut, windows) = chunk_text-Chunked (codes text) chars overlap 0 lo hi less in
    let (later, same, rest) =
      build_chunks-IsChunk chars overlap (number + 1) sources texts lo hi less
        (omega (arith, le)) in
    (
      file_chunks number text ws ++ later,
      ground (arith, cut, same),
      All-join (IsChunk sources) _ later
          (file_chunks-IsChunk text chars number sources ws hi (omega (arith, le)) windows.0) rest,
    )

module _ {Row : Type 0} (width : Row → ℕ) (single : Row → Row) (digest : List Row → String)
    (iterencode : Value → List (List ℕ)) (encoded : String → ℕ)
    (embed : List String → Option (List Row)) where
  -- A build that wrote an index wrote it by `write_index`.
  build_index-rows :
      (head : Head) (chunks : List Chunk) (sidecar : List ℕ) (out : List Row)
      → build_index width single digest iterencode encoded embed head chunks ≡ written sidecar out
      → (rows : List Row) × (write_index width single digest iterencode head chunks rows
          ≡ written sidecar out)
  unfolding build_index
  build_index-rows head chunks sidecar out e =
      elim (Option-cases
        (rows_of embed (map text_of chunks) (batches encoded (map text_of chunks)))) [
          | inl refused ↦ absurd (ground (arith, e, refused))
          | inr (rows, given) ↦ (rows, ground (arith, e, given))
        ]

  module _ (is_unit : Row → Bool) (open_vectors : String → Option (VectorsFile Row))
      (loads : List ℕ → Option Value) where
    -- For sizes in range, files whose names, like those of the model and the backend, are not empty, rows
    -- of unit length, the vectors file as it was written, and an encoding of the sidecar that is read as
    -- what it encodes: an index that a build wrote is loaded, with the chunks of the files' texts and the
    -- rows that were written.
    pub load-build :
        (chars overlap dimensions : ℕ) (model backend : String) (names texts : List String)
        (chunks : List Chunk) (sidecar : List ℕ) (out : List Row)
        → 200 ≤ chars
        → chars ≤ 4000
        → overlap < chars / 2
        → length names ≡ length texts
        → All (λ s. 0 < length (codes s)) (model ∷ backend ∷ names)
        → build_chunks chars overlap 0 texts ≡ some chunks
        → build width single digest iterencode encoded embed chars overlap model backend dimensions
            names texts
          ≡ written sidecar out
        → all is_unit out ≡ true
        → open_vectors "vectors.f32" ≡ some (stored width single digest out)
        → loads (
            joined (
              iterencode (
                meta
                  (head_of model backend dimensions chars overlap names)
                  chunks
                  (length chunks)
                  (digest out))))
          ≡ some (
              meta
                (head_of model backend dimensions chars overlap names)
                chunks
                (length chunks)
                (digest out))
        → load_index is_unit open_vectors loads sidecar
          ≡ some (record {
            model = some (str model);
            backend = some (str backend);
            dimensions = dimensions;
            count = length chunks;
            chunking = members_of (("chars", int chars) ∷ ("overlap", int overlap) ∷ []);
            sources = map str names;
            chunks = map chunk_value chunks;
            vectors = out;
          })
    unfolding build
    load-build chars overlap dimensions model backend names texts chunks sidecar out lo hi less
          same_count named made e units there read =
        let (made_chunks, same, kept) =
          build_chunks-IsChunk chars overlap 0 (length names) texts lo hi less
            (omega (arith, same_count)) in
        let equal : made_chunks ≡ chunks = ground (arith, same, made) in
        let (rows, wrote) =
          build_index-rows (head_of model backend dimensions chars overlap names) chunks sidecar out
            (ground (arith, e, made)) in
        load-write width single digest iterencode is_unit open_vectors loads
          (head_of model backend dimensions chars overlap names) chunks rows out sidecar wrote
          named.0 named.1.0 named.1.1 (subst (All (IsChunk (length names))) equal kept) units there
          read
