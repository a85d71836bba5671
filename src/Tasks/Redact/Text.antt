-- ===== src/Tasks/Redact/Text.antt =====
-- The text that `_redact` returns, character by character.
use php_python_ai_bridge.Base.{
  ℕ, subst, if_true, if_false, zero, suc, ◌+◌, ◌-◌, ◌≡◌, ◌≤◌, ◌<◌, refl, sym, inl, inr, Bool, true,
  false, ◌&&◌, List, [], ◌∷◌, ◌++◌, ltb, leb, arith, ap, ◌∙◌, any, if◌then◌else◌, take, drop, All,
}
use php_python_ai_bridge.Tasks.Redact.{Candidate, Span, merge, replace_spans}
use php_python_ai_bridge.Tasks.Redact.Cover.{
  AreApart, Proper, IsHidden, merge-AreApart, merge-AllHidden,
}

-- The position lies in a span.
abbrev pub is_covered : ℕ → List Span → Bool
is_covered i ss = any (λ s. leb s.start i && ltb i s.stop) ss

-- The characters of a text whose first position is `i` that stand outside every span.
pub show_outside : List Span → ℕ → List ℕ → List ℕ
show_outside ss i [] = []
show_outside ss i (c ∷ text) =
    let rest = show_outside ss (suc i) text in if is_covered i ss then rest else c ∷ rest

abbrev pub nothing : Span → List ℕ
nothing s = []

pub not-covered :
    (i from : ℕ) (ss : List Span) → AreApart from ss → i < from → is_covered i ss ≡ false
not-covered i from [] a h = refl
not-covered i from (s ∷ ss) a h = ground (arith, not-covered i s.stop ss a.2)

-- Before the first span all is shown.
show_before :
    (n i : ℕ) (ss : List Span) (text : List ℕ)
    → AreApart (n + i) ss
    → show_outside ss i text ≡ take n text ++ show_outside ss (n + i) (drop n text)
unfolding show_outside
show_before zero i ss text a = ap (λ k. show_outside ss k text) (omega arith)
show_before (suc n) i ss [] a = refl
show_before (suc n) i ss (c ∷ text) a =
    let shifted : n + suc i ≡ suc n + i = omega arith in
    let rest : show_outside ss (suc i) text
        ≡ take n text ++ show_outside ss (suc n + i) (drop n text) =
      show_before n (suc i) ss text (subst (λ k. AreApart k ss) (sym shifted) a)
      ∙ ap (λ k. take n text ++ show_outside ss k (drop n text)) shifted in
    if_false (is_covered i ss) _ _ (not-covered i (suc n + i) ss a (omega arith))
    ∙ ap (λ l. c ∷ l) rest

-- In a span nothing is shown.
show_inside :
    (n i : ℕ) (s : Span) (ss : List Span) (text : List ℕ)
    → s.start ≤ i
    → n + i ≡ s.stop
    → show_outside (s ∷ ss) i text ≡ show_outside (s ∷ ss) s.stop (drop n text)
unfolding show_outside
show_inside zero i s ss text h k = ap (λ k. show_outside (s ∷ ss) k text) (omega arith)
show_inside (suc n) i s ss [] h k = refl
show_inside (suc n) i s ss (c ∷ text) h k =
    if_true (is_covered i (s ∷ ss)) _ _ (ground arith)
    ∙ show_inside n (suc i) s ss text (omega arith) (omega arith)

-- Past a span it hides nothing any more.
show_after :
    (s : Span) (ss : List Span) (i : ℕ) (text : List ℕ)
    → s.stop ≤ i
    → show_outside (s ∷ ss) i text ≡ show_outside ss i text
unfolding show_outside
show_after s ss i [] h = refl
show_after s ss i (c ∷ text) h = ground (arith, show_after s ss (suc i) text)

show_all : (i : ℕ) (text : List ℕ) → show_outside [] i text ≡ text
unfolding show_outside
show_all i [] = refl
show_all i (c ∷ text) = cc (show_all (suc i) text)

drop-nil : (n : ℕ) → drop {A = ℕ} n [] ≡ []
drop-nil zero = refl
drop-nil (suc n) = refl

drop-drop : (n m : ℕ) (text : List ℕ) → drop n (drop m text) ≡ drop (m + n) text
drop-drop n zero text = let same : n ≡ zero + n = omega arith in ap (λ k. drop k text) same
drop-drop n (suc m) [] = drop-nil n ∙ sym (drop-nil (suc m + n))
drop-drop n (suc m) (c ∷ text) =
    let same : suc (m + n) ≡ suc m + n = omega arith in
    drop-drop n m text ∙ ap (λ k. drop k (c ∷ text)) same

-- Where the spans stand in order and do not overlap, the text with every span deleted is exactly
-- what stands outside the spans.
replace-show_outside :
    (cursor : ℕ) (ss : List Span) (text : List ℕ)
    → AreApart cursor ss
    → replace_spans nothing cursor ss text ≡ show_outside ss cursor (drop cursor text)
unfolding replace_spans
replace-show_outside cursor [] text a = sym (show_all cursor (drop cursor text))
replace-show_outside cursor (s ∷ ss) text a =
    let n = s.start - cursor in
    let at : n + cursor ≡ s.start = omega (arith, a.0) in
    let later : drop (s.stop - s.start) (drop n (drop cursor text)) ≡ drop s.stop text =
      ap (drop (s.stop - s.start)) (drop-drop n cursor text)
      ∙ drop-drop (s.stop - s.start) (cursor + n) text
      ∙ ap (λ k. drop k text) (omega (arith, a.0, a.1)) in
    let shown : show_outside (s ∷ ss) (n + cursor) (drop n (drop cursor text))
        ≡ replace_spans nothing s.stop ss text =
      ap (λ k. show_outside (s ∷ ss) k (drop n (drop cursor text))) at
      ∙ show_inside (s.stop - s.start) s.start s ss (drop n (drop cursor text)) (omega arith)
          (omega (arith, a.1))
      ∙ ap (show_outside (s ∷ ss) s.stop) later
      ∙ show_after s ss s.stop (drop s.stop text) (omega arith)
      ∙ sym (replace-show_outside s.stop ss text a.2) in
    sym (
      show_before n cursor (s ∷ ss) (drop cursor text) (omega (arith, at), a.1, a.2)
      ∙ ap (λ l. take n (drop cursor text) ++ l) shown)

pub IsHidden-covered :
    (c : Candidate) (ss : List Span) (i : ℕ)
    → IsHidden c ss
    → c.start ≤ i
    → i < c.stop
    → is_covered i ss ≡ true
IsHidden-covered c [] i h lo hi = absurd h
IsHidden-covered c (s ∷ ss) i (inl (p, q)) lo hi = ground arith
IsHidden-covered c (s ∷ ss) i (inr rest) lo hi = ground (arith, IsHidden-covered c ss i rest lo hi)

-- For candidates that are not empty: with its labels deleted, the redacted text is the text without
-- the characters that a span covers, and each candidate lies whole within one of the spans.
pub redact_safe :
    (cs : List Candidate) (text : List ℕ)
    → All Proper cs
    → (replace_spans nothing 0 (merge cs) text ≡ show_outside (merge cs) 0 text)
      × All (λ c. IsHidden c (merge cs)) cs
redact_safe cs text proper =
    (replace-show_outside 0 (merge cs) text (merge-AreApart cs proper), merge-AllHidden cs)
