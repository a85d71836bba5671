-- ===== src/Mcp/Index/Format/Laws.antt =====
-- What `write_index` of mcp_server/bridge_mcp/index.py writes.
use php_python_ai_bridge.Base.{
  ℕ, zero, suc, ◌+◌, ◌*◌, ◌≡◌, ◌≤◌, sym, ap, ◌∙◌, subst, true, List, [], ◌∷◌, Option, none, some,
  String, ◌==◌, nat_eq, string_eq, length, All, arith, length-append, max, Option-cases, elim_ind,
  inl, inr,
}
use php_python_ai_bridge.Json.{Value}
use php_python_ai_bridge.Mcp.Index.Guard.{guard_json, max_sidecar, text_width}
use php_python_ai_bridge.Mcp.Index.Format.{
  parts_ok, joined, sidecar_ok, vector_bytes, Chunk, Head, meta, written, written_rows, write_index,
}

parts_ok-length :
    (size width : ℕ) (parts : List (List ℕ))
    → size ≤ max_sidecar
    → parts_ok size width parts ≡ true
    → size + length (joined parts) ≤ max_sidecar
unfolding parts_ok
parts_ok-length size width [] le h = omega (arith, le)
parts_ok-length size width (part ∷ parts) le h = omega (
  arith,
  length-append part (joined parts),
  parts_ok-length (size + length part) (max width (text_width part)) parts (ground (arith, h))
      (ground (arith, h)),
)

sidecar_ok-IsSmall :
    (parts : List (List ℕ))
    → sidecar_ok parts ≡ true
    → (length (joined parts) ≤ max_sidecar) × (guard_json (joined parts) ≡ true)
unfolding sidecar_ok
sidecar_ok-IsSmall parts h =
    (omega (arith, parts_ok-length 0 1 parts (omega arith) (ground (arith, h))), ground (arith, h))

module _ {Row : Type 0} (width : Row → ℕ) (single : Row → Row) where
  abbrev HasWidth : ℕ → Row → Type 0
  HasWidth dimensions row = width row ≡ dimensions

  abbrev AllWide : ℕ → Option (List Row) → Type 0
  AllWide dimensions none = Unit
  AllWide dimensions (some out) = All (HasWidth dimensions) out

  AllWide-also :
      (dimensions : ℕ) (row : Row) (rest : Option (List Row))
      → HasWidth dimensions row
      → AllWide dimensions rest
      → AllWide dimensions (elim rest [ none ↦ none | some out ↦ some (row ∷ out) ])
  AllWide-also dimensions row none w h = tt
  AllWide-also dimensions row (some out) w h = (w, h)

  written_rows-AllWide :
      (dimensions left : ℕ) (rows : List Row)
      → AllWide dimensions (written_rows width single dimensions left rows)
  unfolding written_rows
  written_rows-AllWide dimensions left [] = tt
  written_rows-AllWide dimensions zero (row ∷ rows) = tt
  written_rows-AllWide dimensions (suc left) (row ∷ rows) =
      elim_ind (AllWide dimensions) (width (single row) == dimensions)
        (λ same.
          AllWide-also dimensions (single row) _ (ground (arith, same))
            (written_rows-AllWide dimensions left rows))
        (λ other. tt)

  -- The bytes of the rows in the vectors file.
  abbrev pub bytes_of : List Row → ℕ
  bytes_of [] = 0
  bytes_of (row ∷ rows) = 4 * width row + bytes_of rows

  bytes_of-HasWidth :
      (dimensions : ℕ) (rows : List Row)
      → All (HasWidth dimensions) rows
      → bytes_of rows ≡ length rows * dimensions * 4
  bytes_of-HasWidth dimensions [] h = omega arith
  bytes_of-HasWidth dimensions (row ∷ rows) h =
      omega (arith, h.0, bytes_of-HasWidth dimensions rows h.1)

  module _ (digest : List Row → String) (iterencode : Value → List (List ℕ)) where
    -- What is known of an index that was written.
    pub record WasWritten (h : Head) (chunks : List Chunk) (sidecar : List ℕ) (out : List Row)
        : Type 0 where
      pub sized :
          vector_bytes h.dimensions (length chunks) ≡ some (length chunks * h.dimensions * 4)
      pub same_count : length out ≡ length chunks
      pub is_meta : sidecar ≡ joined (iterencode (meta h chunks (length chunks) (digest out)))
      pub small : length sidecar ≤ max_sidecar
      pub guarded : guard_json sidecar ≡ true
      pub wide : bytes_of out ≡ length chunks * h.dimensions * 4

    vector_bytes-some :
        (dimensions count expected : ℕ)
        → vector_bytes dimensions count ≡ some expected
        → vector_bytes dimensions count ≡ some (count * dimensions * 4)
    unfolding vector_bytes
    vector_bytes-some dimensions count expected h = ground (arith, h)

    pub write_index-WasWritten :
        (h : Head) (chunks : List Chunk) (rows out : List Row) (sidecar : List ℕ)
        → write_index width single digest iterencode h chunks rows ≡ written sidecar out
        → WasWritten h chunks sidecar out
    unfolding write_index
    write_index-WasWritten h chunks rows out sidecar e =
        elim (Option-cases (vector_bytes h.dimensions (length chunks))) [
          | inl refused ↦ absurd (ground (arith, e, refused))
          | inr (expected, sized) ↦
              elim (Option-cases (written_rows width single h.dimensions (length chunks) rows)) [
                | inl refused ↦ absurd (ground (arith, e, sized, refused))
                | inr (rows_out, kept) ↦
                    let facts : (out ≡ rows_out)
                        × (length rows_out ≡ length chunks)
                        × (sidecar ≡ joined (parts rows_out))
                        × (sidecar_ok (parts rows_out) ≡ true) =
                      ground (arith, e, sized, kept) in
                    let wide : All (HasWidth h.dimensions) rows_out =
                      subst (AllWide h.dimensions) kept
                        (written_rows-AllWide h.dimensions (length chunks) rows) in
                    record {
                      sized = vector_bytes-some h.dimensions (length chunks) expected sized;
                      same_count = ap length facts.0 ∙ facts.1;
                      is_meta =
                          facts.2
                          ∙ ap (λ n. joined (iterencode (meta h chunks n (digest rows_out))))
                              facts.1
                          ∙ ap
                              (λ rs.
                                joined (iterencode (meta h chunks (length chunks) (digest rs))))
                              (sym facts.0);
                      small = omega (
                        arith,
                        ap length facts.2,
                        (sidecar_ok-IsSmall (parts rows_out) facts.3).0,
                      );
                      guarded =
                          ap guard_json facts.2 ∙ (sidecar_ok-IsSmall (parts rows_out) facts.3).1;
                      wide =
                          ap bytes_of facts.0
                          ∙ bytes_of-HasWidth h.dimensions rows_out wide
                          ∙ ap (λ n. n * h.dimensions * 4) facts.1;
                    }
              ]
        ]
      where
        parts : List Row → List (List ℕ)
        parts rs = iterencode (meta h chunks (length rs) (digest rs))
