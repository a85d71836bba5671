-- ===== src/Mcp/Index/Batches/Laws.antt =====
-- The batches of `_batches` of mcp_server/bridge_mcp/index.py.
use php_python_ai_bridge.Base.{
  ℕ, zero, suc, ◌+◌, ◌≡◌, ◌≤◌, ◌⊎◌, inl, inr, refl, sym, ap, ◌∙◌, true, false, not, ◌&&◌, ◌||◌,
  List, [], ◌∷◌, ◌++◌, ltb, ◌==◌, nat_eq, length, All, arith, elim_ind, length-append, append_assoc,
  append-nil,
}
use php_python_ai_bridge.Mcp.Index.Batches.{
  is_empty, batches_loop, batches, embed_batch, batch_bytes,
}

abbrev pub join : List (List ℕ) → List ℕ
join [] = []
join (b ∷ bs) = b ++ join bs

-- `n` numbers from `i` on.
abbrev range_from : ℕ → ℕ → List ℕ
range_from i zero = []
range_from i (suc n) = i ∷ range_from (i + 1) n

module _ {ℓ} {A : Type ℓ} (encoded : A → ℕ) where
  -- The bytes that the text of that number takes in a request, 0 past the end.
  abbrev bytes_at : List A → ℕ → ℕ
  bytes_at [] i = 0
  bytes_at (t ∷ ts) zero = encoded t + 1
  bytes_at (t ∷ ts) (suc i) = bytes_at ts i

  abbrev pub bytes : List A → List ℕ → ℕ
  bytes texts [] = 0
  bytes texts (i ∷ is) = bytes_at texts i + bytes texts is

  -- Not empty, at most 32 texts, and within the bytes of a request if it is more than one text.
  pub record IsBatch (texts : List A) (batch : List ℕ) : Type 0 where
    pub some_text : 1 ≤ length batch
    pub few : length batch ≤ embed_batch
    pub fits : (bytes texts batch ≤ batch_bytes) ⊎ (length batch ≡ 1)

  bytes-append :
      (texts : List A) (is js : List ℕ) → bytes texts (is ++ js) ≡ bytes texts is + bytes texts js
  bytes-append texts [] js = omega arith
  bytes-append texts (i ∷ is) js = omega (arith, bytes-append texts is js)

  bytes_at-middle :
      (before : List A) (t : A) (ts : List A)
      → bytes_at (before ++ (t ∷ ts)) (length before) ≡ encoded t + 1
  bytes_at-middle [] t ts = refl
  bytes_at-middle (b ∷ before) t ts = bytes_at-middle before t ts

  -- The batch in hand is empty or may be given out.
  InHand : List A → List ℕ → Type 0
  InHand texts batch = (is_empty batch ≡ true) ⊎ IsBatch texts batch

  empty-length : (batch : List ℕ) → is_empty batch ≡ true → batch ≡ []
  empty-length [] h = refl
  empty-length (i ∷ is) h = ground (arith, h)

  alone-IsBatch : (texts : List A) (number : ℕ) → IsBatch texts (number ∷ [])
  alone-IsBatch texts number = record {
    some_text = omega arith;
    few = omega arith;
    fits = inr refl;
  }

  also-IsBatch :
      (texts : List A) (batch : List ℕ) (number : ℕ)
      → (not (is_empty batch)
          && (length batch == embed_batch
              || ltb batch_bytes (bytes texts batch + bytes_at texts number)))
        ≡ false
      → InHand texts batch
      → IsBatch texts (batch ++ (number ∷ []))
  unfolding InHand
  also-IsBatch texts [] number h k = alone-IsBatch texts number
  also-IsBatch texts (i ∷ is) number h (inl k) = absurd (ground (arith, k))
  also-IsBatch texts (i ∷ is) number h (inr k) =
      let total = bytes-append texts (i ∷ is) (number ∷ []) in
      let long = length-append (i ∷ is) (number ∷ []) in
      record {
        some_text = omega arith;
        few = ground (arith, h, k.few, long);
        fits = inl (ground (arith, h, total));
      }

  module _ (texts : List A) where
    -- What is given out from a state of the loop on.
    Cut : List ℕ → List (List ℕ) → Type 0
    Cut numbers out = (join out ≡ numbers) × All (IsBatch texts) out

    given_out : (batch : List ℕ) → is_empty batch ≡ false → InHand texts batch → IsBatch texts batch
    unfolding InHand
    given_out batch h (inl k) = absurd (ground (arith, h, k))
    given_out batch h (inr k) = k

    number-bytes :
        (before : List A) (t : A) (ts : List A) (number : ℕ)
        → before ++ (t ∷ ts) ≡ texts
        → number ≡ length before
        → bytes_at texts number ≡ encoded t + 1
    number-bytes before t ts number e n =
        ap (bytes_at texts) n
        ∙ ap (λ l. bytes_at l (length before)) (sym e)
        ∙ bytes_at-middle before t ts

    batches_loop-Cut :
        (before after : List A) (batch : List ℕ) (size number : ℕ)
        → before ++ after ≡ texts
        → number ≡ length before
        → size ≡ bytes texts batch
        → InHand texts batch
        → Cut
            (batch ++ range_from number (length after))
            (batches_loop encoded batch size number after)
    unfolding batches_loop Cut InHand
    batches_loop-Cut before [] batch size number e n s hand =
        elim_ind (Cut (batch ++ [])) (is_empty batch)
          (λ empty. (sym (append-nil batch ∙ empty-length batch empty), tt))
          (λ full. (refl, (given_out batch full hand, tt)))
    batches_loop-Cut before (t ∷ ts) batch size number e n s hand =
        let b = number-bytes before t ts number e n in
        let later = append_assoc before (t ∷ []) ts ∙ e in
        let next : number + 1 ≡ length (before ++ (t ∷ [])) =
          omega (arith, n, length-append before (t ∷ [])) in
        elim_ind (Cut (batch ++ (number ∷ range_from (number + 1) (length ts))))
          (not (is_empty batch)
            && (length batch == embed_batch || ltb batch_bytes (size + (encoded t + 1))))
          (λ full.
            let rest =
              batches_loop-Cut (before ++ (t ∷ [])) ts (number ∷ []) (encoded t + 1) (number + 1)
                later next (omega (arith, b)) (inr (alone-IsBatch texts number)) in
            (ap (λ l. batch ++ l) rest.0, (given_out batch (ground (arith, full)) hand, rest.1)))
          (λ more.
            let rest =
              batches_loop-Cut (before ++ (t ∷ [])) ts (batch ++ (number ∷ []))
                (size + (encoded t + 1)) (number + 1) later next
                (omega (arith, s, b, bytes-append texts batch (number ∷ [])))
                (inr (also-IsBatch texts batch number (ground (arith, more, s, b)) hand)) in
            (
              rest.0 ∙ append_assoc batch (number ∷ []) (range_from (number + 1) (length ts)),
              rest.1,
            ))

-- The batches hold the number of each text once, in order; each is not empty, holds at most 32 texts,
-- and is within the bytes of a request unless it is one text alone.
batches-IsBatch {ℓ} :
    {A : Type ℓ} (encoded : A → ℕ) (texts : List A)
    → (join (batches encoded texts) ≡ range_from 0 (length texts))
      × All (IsBatch encoded texts) (batches encoded texts)
unfolding batches Cut InHand
batches-IsBatch encoded texts =
    batches_loop-Cut encoded texts [] texts [] 0 0 refl refl refl (inl refl)
