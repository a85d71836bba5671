-- ===== src/Tasks/Redact/Blind.antt =====
-- The text that `_redact` returns, for texts that differ in the characters to hide.
use php_python_ai_bridge.Base.{
  ℕ, zero, suc, ◌+◌, ◌-◌, ◌≡◌, ◌≤◌, ◌<◌, refl, Bool, true, false, ◌&&◌, List, [], ◌∷◌, ◌++◌, ltb,
  leb, arith, ap, ◌∙◌, any, take, drop, All, if_false, if◌then◌else◌,
}
use php_python_ai_bridge.Tasks.Redact.{
  Candidate, Span, merge, slice, bracket, replace_spans, redact,
}
use php_python_ai_bridge.Tasks.Redact.Cover.{
  AreApart, Proper, IsHidden, merge-AreApart, merge-AllHidden,
}
use php_python_ai_bridge.Tasks.Redact.Text.{is_covered, not-covered, IsHidden-covered}

-- The position lies in a candidate.
pub is_candidate : List Candidate → ℕ → Bool
is_candidate cs i = any (λ c. leb c.start i && ltb i c.stop) cs

-- A text whose first position is `i`, with the hidden positions blanked.
pub blank : (ℕ → Bool) → ℕ → List ℕ → List ℕ
blank hides i [] = []
blank hides i (c ∷ text) = (if hides i then b' ' else c) ∷ blank hides (suc i) text

module _ (hides : ℕ → Bool) where
  drop-blank :
      (n i : ℕ) (text : List ℕ) → drop n (blank hides i text) ≡ blank hides (n + i) (drop n text)
  unfolding blank
  drop-blank zero i text = ap (λ k. blank hides k text) (omega arith)
  drop-blank (suc n) i [] = refl
  drop-blank (suc n) i (c ∷ text) =
      drop-blank n (suc i) text ∙ ap (λ k. blank hides k (drop n text)) (omega arith)

  take-blank :
      (n i : ℕ) (text : List ℕ)
      → ((j : ℕ) → i ≤ j → j < n + i → hides j ≡ false)
      → take n (blank hides i text) ≡ take n text
  unfolding blank
  take-blank zero i text h = refl
  take-blank (suc n) i [] h = refl
  take-blank (suc n) i (c ∷ text) h =
      ap (λ d. d ∷ take n (blank hides (suc i) text))
        (if_false (hides i) _ _ (h i (omega arith) (omega arith)))
      ∙ ap (λ rest. c ∷ rest)
          (take-blank n (suc i) text (λ j lo hi. h j (omega (arith, lo)) (omega (arith, hi))))

  blank-none :
      (i : ℕ) (text : List ℕ) → ((j : ℕ) → i ≤ j → hides j ≡ false) → blank hides i text ≡ text
  unfolding blank
  blank-none i [] h = refl
  blank-none i (c ∷ text) h =
      ap (λ d. d ∷ blank hides (suc i) text) (if_false (hides i) _ _ (h i (omega arith)))
      ∙ ap (λ rest. c ∷ rest) (blank-none (suc i) text (λ j lo. h j (omega (arith, lo))))

  slice-blank :
      (i j : ℕ) (text : List ℕ)
      → ((k : ℕ) → i ≤ k → k < j → hides k ≡ false)
      → slice i j (blank hides 0 text) ≡ slice i j text
  slice-blank i j text h =
      ap (take (j - i)) (drop-blank i 0 text)
      ∙ take-blank (j - i) (i + 0) (drop i text)
          (λ k lo hi. h k (omega (arith, lo)) (omega (arith, lo, hi)))

-- A position before every span is not hidden, where spans cover all that is hidden.
shown_before :
    (hides : ℕ → Bool) (j from : ℕ) (ss : List Span)
    → (hides j ≡ true → is_covered j ss ≡ true)
    → AreApart from ss
    → j < from
    → hides j ≡ false
shown_before hides j from ss h a lt = ground (arith, h, not-covered j from ss a lt)

replace-blank :
    (hides : ℕ → Bool) (mark : Span → List ℕ) (cursor : ℕ) (ss : List Span) (text : List ℕ)
    → AreApart cursor ss
    → ((j : ℕ) → cursor ≤ j → hides j ≡ true → is_covered j ss ≡ true)
    → replace_spans mark cursor ss (blank hides 0 text) ≡ replace_spans mark cursor ss text
unfolding replace_spans
replace-blank hides mark cursor [] text a h =
    drop-blank hides cursor 0 text
    ∙ blank-none hides (cursor + 0) (drop cursor text)
        (λ j lo. ground (arith, h j (omega (arith, lo))))
replace-blank hides mark cursor (s ∷ ss) text a h =
    ap (λ shown. shown ++ (mark s ++ replace_spans mark s.stop ss (blank hides 0 text)))
      (slice-blank hides cursor s.start text
        (λ k lo hi. shown_before hides k s.start (s ∷ ss) (h k lo) (omega arith, a.1, a.2) hi))
    ∙ ap (λ rest. slice cursor s.start text ++ (mark s ++ rest))
        (replace-blank hides mark s.stop ss text a.2
          (λ j lo on. ground (arith, h j (omega (arith, lo, a.0, a.1)) on)))

candidate-covered :
    (cs : List Candidate) (ss : List Span) (i : ℕ)
    → All (λ c. IsHidden c ss) cs
    → is_candidate cs i ≡ true
    → is_covered i ss ≡ true
unfolding is_candidate
candidate-covered [] ss i h on = ground (arith, on)
candidate-covered (c ∷ cs) ss i h on =
    ground (arith, on, IsHidden-covered c ss i h.0, candidate-covered cs ss i h.1)

-- For candidates that are not empty, the redacted text is the same when every character of every
-- candidate is first replaced by a blank: no character to hide has an effect on it.
pub redact-blank :
    (cs : List Candidate) (text : List ℕ)
    → All Proper cs
    → redact cs (blank (is_candidate cs) 0 text) ≡ redact cs text
unfolding redact
redact-blank cs text proper =
    replace-blank (is_candidate cs) bracket 0 (merge cs) text (merge-AreApart cs proper)
      (λ j lo on. candidate-covered cs (merge cs) j (merge-AllHidden cs) on)
