-- ===== src/Tasks/Redact/Cover.antt =====
-- The spans of `_merge`.
use php_python_ai_bridge.Base.{
  ℕ, ◌≡◌, subst, ◌≤◌, ◌<◌, ◌⊎◌, inl, inr, true, false, List, [], ◌∷◌, ltb, arith, Bool-cases, max,
  All, All-map2, nat_eq,
}
use php_python_ai_bridge.Base.Sort.{sort, IsSorted, sort-IsSorted, All-sort, All-unsort}
use php_python_ai_bridge.Tasks.Redact.{
  Candidate, Span, cand_le, span_of, extend, merge_sorted, merge,
}

-- Some span holds all of the candidate.
abbrev pub IsHidden : Candidate → List Span → Type 0
IsHidden c [] = ⊥
IsHidden c (s ∷ ss) = ((s.start ≤ c.start) × (c.stop ≤ s.stop)) ⊎ IsHidden c ss

-- The spans are not empty, stand in order from a position on, and do not overlap.
abbrev pub AreApart : ℕ → List Span → Type 0
AreApart from [] = Unit
AreApart from (s ∷ ss) = (from ≤ s.start) × (s.start < s.stop) × AreApart s.stop ss

abbrev pub Proper : Candidate → Type 0
Proper c = c.start < c.stop

-- The candidates start in order, from a position on.
abbrev StartsFrom : ℕ → List Candidate → Type 0
StartsFrom n [] = Unit
StartsFrom n (c ∷ cs) = (n ≤ c.start) × StartsFrom c.start cs

cand_le_trans : (a b c : Candidate) → cand_le a b ≡ true → cand_le b c ≡ true → cand_le a c ≡ true
unfolding cand_le
cand_le_trans a b c h k = ground arith

cand_le_total : (a b : Candidate) → cand_le a b ≡ false → cand_le b a ≡ true
unfolding cand_le
cand_le_total a b h = ground arith

cand_le-start : (a b : Candidate) → cand_le a b ≡ true → a.start ≤ b.start
unfolding cand_le
cand_le-start a b h = ground arith

sorted-StartsFrom :
    (n : ℕ) (cs : List Candidate)
    → IsSorted cand_le cs
    → All (λ c. n ≤ c.start) cs
    → StartsFrom n cs
sorted-StartsFrom n [] h k = tt
sorted-StartsFrom n (c ∷ cs) h k = (
  k.0,
  sorted-StartsFrom c.start cs h.1 (
      All-map2 (λ d. cand_le c d ≡ true) (λ d. n ≤ d.start) (λ d. c.start ≤ d.start)
        (λ d below _. cand_le-start c d below) cs h.0 k.1),
)

StartsFrom-weaken : (n m : ℕ) (cs : List Candidate) → n ≤ m → StartsFrom m cs → StartsFrom n cs
StartsFrom-weaken n m [] h st = tt
StartsFrom-weaken n m (c ∷ cs) h st = (omega (arith, st.0), st.1)

abbrev grown : Span → Candidate → Span
grown s c = record s { stop = max s.stop c.stop }

extend_joined :
    (s : Span) (c : Candidate) (cs : List Candidate)
    → ltb c.start s.stop ≡ true
    → extend (grown s c) cs ≡ extend s (c ∷ cs)
unfolding extend
extend_joined s c cs h = ground arith

extend_parted :
    (s : Span) (c : Candidate) (cs : List Candidate)
    → ltb c.start s.stop ≡ false
    → s ∷ extend (span_of c) cs ≡ extend s (c ∷ cs)
unfolding extend
extend_parted s c cs h = ground arith

extend-AreApart :
    (s : Span) (cs : List Candidate) (from : ℕ)
    → from ≤ s.start
    → s.start < s.stop
    → StartsFrom s.start cs
    → All Proper cs
    → AreApart from (extend s cs)
unfolding extend span_of
extend-AreApart s [] from h k st p = (h, k, tt)
extend-AreApart s (c ∷ cs) from h k st p = elim (Bool-cases (ltb c.start s.stop)) [
  | inl joins ↦ subst (AreApart from) (extend_joined s c cs joins) (
      extend-AreApart (grown s c) cs from h (omega (arith, k))
        (StartsFrom-weaken s.start c.start cs st.0 st.1) p.1)
  | inr parts ↦
      subst (AreApart from) (extend_parted s c cs parts)
        (h, k, extend-AreApart (span_of c) cs s.stop (ground (arith, parts)) p.0 st.1 p.1)
]

-- A span in hand hides what it holds, and grows.
extend-hides :
    (s : Span) (cs : List Candidate) (d : Candidate)
    → s.start ≤ d.start
    → d.stop ≤ s.stop
    → IsHidden d (extend s cs)
unfolding extend
extend-hides s [] d h k = inl (h, k)
extend-hides s (c ∷ cs) d h k = elim (Bool-cases (ltb c.start s.stop)) [
  | inl joins ↦
      subst (IsHidden d) (extend_joined s c cs joins)
        (extend-hides (grown s c) cs d h (omega (arith, k)))
  | inr parts ↦ subst (IsHidden d) (extend_parted s c cs parts) (inl (h, k))
]

AllHidden-cons :
    (s : Span) (ss : List Span) (cs : List Candidate)
    → All (λ c. IsHidden c ss) cs
    → All (λ c. IsHidden c (s ∷ ss)) cs
AllHidden-cons s ss [] h = tt
AllHidden-cons s ss (c ∷ cs) h = (inr h.0, AllHidden-cons s ss cs h.1)

extend-AllHidden :
    (s : Span) (cs : List Candidate)
    → StartsFrom s.start cs
    → All (λ c. IsHidden c (extend s cs)) cs
unfolding extend span_of
extend-AllHidden s [] st = tt
extend-AllHidden s (c ∷ cs) st = elim (Bool-cases (ltb c.start s.stop)) [
  | inl joins ↦
      subst (λ ss. All (λ d. IsHidden d ss) (c ∷ cs)) (extend_joined s c cs joins)
        (
          extend-hides (grown s c) cs c st.0 (omega arith),
          extend-AllHidden (grown s c) cs (StartsFrom-weaken s.start c.start cs st.0 st.1),
        )
  | inr parts ↦
      subst (λ ss. All (λ d. IsHidden d ss) (c ∷ cs)) (extend_parted s c cs parts)
        (
          inr (extend-hides (span_of c) cs c (omega arith) (omega arith)),
          AllHidden-cons s (extend (span_of c) cs) cs (extend-AllHidden (span_of c) cs st.1),
        )
]

merge_sorted-AllHidden :
    (cs : List Candidate) → StartsFrom 0 cs → All (λ c. IsHidden c (merge_sorted cs)) cs
unfolding merge_sorted span_of
merge_sorted-AllHidden [] st = tt
merge_sorted-AllHidden (c ∷ cs) st = (
  extend-hides (span_of c) cs c (omega arith) (omega arith),
  extend-AllHidden (span_of c) cs st.1,
)

merge_sorted-AreApart :
    (cs : List Candidate) → StartsFrom 0 cs → All Proper cs → AreApart 0 (merge_sorted cs)
unfolding merge_sorted span_of
merge_sorted-AreApart [] st p = tt
merge_sorted-AreApart (c ∷ cs) st p = extend-AreApart (span_of c) cs 0 (omega arith) p.0 st.1 p.1

sorted_starts : (cs : List Candidate) → StartsFrom 0 (sort cand_le cs)
sorted_starts cs =
    sorted-StartsFrom 0 (sort cand_le cs) (sort-IsSorted cand_le cand_le_trans cand_le_total cs)
      (All-sort (λ c. 0 ≤ c.start) cand_le cs (all_from_zero cs))
  where
    all_from_zero : (ds : List Candidate) → All (λ c. 0 ≤ c.start) ds
    all_from_zero [] = tt
    all_from_zero (d ∷ ds) = (omega arith, all_from_zero ds)

-- Each candidate lies whole within one of the spans: no part of it stays visible.
pub merge-AllHidden : (cs : List Candidate) → All (λ c. IsHidden c (merge cs)) cs
unfolding merge
merge-AllHidden cs =
    All-unsort (λ c. IsHidden c (merge cs)) cand_le cs
      (merge_sorted-AllHidden (sort cand_le cs) (sorted_starts cs))

-- For candidates that are not empty, the spans are not empty, stand in order and do not overlap.
pub merge-AreApart : (cs : List Candidate) → All Proper cs → AreApart 0 (merge cs)
unfolding merge
merge-AreApart cs proper =
    merge_sorted-AreApart (sort cand_le cs) (sorted_starts cs) (All-sort Proper cand_le cs proper)
