-- ===== src/Mcp/Index/Batches.antt =====
-- `_batches` of mcp_server/bridge_mcp/index.py. The length of a text's JSON encoding, which is the
-- standard library's, is an argument.
pub mod Laws
use php_python_ai_bridge.Base.{
  ℕ, suc, ◌+◌, Bool, true, false, not, ◌&&◌, ◌||◌, List, [], ◌∷◌, ◌++◌, ltb, ◌==◌, nat_eq, length,
}

-- `EMBED_BATCH` and `BATCH_BYTES`.
abbrev pub embed_batch : ℕ
embed_batch = 32

abbrev pub batch_bytes : ℕ
batch_bytes = 200000

abbrev pub is_empty : List ℕ → Bool
is_empty [] = true
is_empty (n ∷ ns) = false

module _ {ℓ} {A : Type ℓ} (encoded : A → ℕ) where
  -- The loop, with the batch in hand, its size and the number of the next text.
  unfoldable pub batches_loop : List ℕ → ℕ → ℕ → List A → List (List ℕ)
  batches_loop batch size number [] = elim (is_empty batch) [ true ↦ [] | false ↦ batch ∷ [] ]
  batches_loop batch size number (text ∷ texts) =
      let bytes = encoded text + 1 in
      elim (not (is_empty batch)
        && (length batch == embed_batch || ltb batch_bytes (size + bytes))) [
          | true ↦ batch ∷ batches_loop (number ∷ []) bytes (number + 1) texts
          | false ↦ batches_loop (batch ++ (number ∷ [])) (size + bytes) (number + 1) texts
        ]

  unfoldable pub batches : List A → List (List ℕ)
  unfolding batches_loop
  batches texts = batches_loop [] 0 0 texts
