-- ===== src/Base/Sort.antt =====
-- `list.sort`: a stable sort by a Boolean order, and what it keeps.
use Prim.Native.Nat.{suc}
use mathlib.Core.Path.{◌≡◌, refl, ◌∙◌, ap, subst}
use mathlib.Core.Logic.{inl, inr}
use mathlib.Core.Bool.{Bool, true, false}
use mathlib.Core.List.{List, [], ◌∷◌}
use native.Mathlib.Omega.{arith}
use php_python_ai_bridge.Base.Tests.{if◌then◌else◌, Bool-cases, if_true, if_false}
use php_python_ai_bridge.Base.Lists.{length, count, All}

module _ {ℓ} {A : Type ℓ} (le : A → A → Bool) where
  -- Before the first element that is not below it.
  unfoldable pub place : A → List A → List A
  place a [] = a ∷ []
  place a (x ∷ xs) = if le a x then a ∷ x ∷ xs else x ∷ place a xs

  unfoldable pub sort : List A → List A
  unfolding place
  sort [] = []
  sort (x ∷ xs) = place x (sort xs)

  count-place : (p : A → Bool) (a : A) (xs : List A) → count p (place a xs) ≡ count p (a ∷ xs)
  unfolding place
  count-place p a [] = refl
  count-place p a (x ∷ xs) = ground (arith, count-place p a xs)

  -- Each element stays as often as it was: no predicate tells the two lists apart.
  pub count-sort : (p : A → Bool) (xs : List A) → count p (sort xs) ≡ count p xs
  unfolding sort
  count-sort p [] = refl
  count-sort p (x ∷ xs) = ground (arith, count-place p x (sort xs), count-sort p xs)

  length-place : (a : A) (xs : List A) → length (place a xs) ≡ suc (length xs)
  unfolding place
  length-place a [] = refl
  length-place a (x ∷ xs) = ground (arith, length-place a xs)

  pub length-sort : (xs : List A) → length (sort xs) ≡ length xs
  unfolding sort
  length-sort [] = refl
  length-sort (x ∷ xs) = length-place x (sort xs) ∙ ap suc (length-sort xs)

-- What holds of all elements holds of all when sorted, and the other way round.
module _ {ℓ κ} {A : Type ℓ} (P : A → Type κ) (le : A → A → Bool) where
  All-placed : (a : A) (xs : List A) → P a → All P xs → All P (place le a xs)
  unfolding place
  All-placed a [] p h = (p, tt)
  All-placed a (x ∷ xs) p h = elim (Bool-cases (le a x)) [
    | inl first ↦ rw (first, place) (p, h)
    | inr later ↦ rw (later, place) (h.0, All-placed a xs p h.1)
  ]

  All-unplaced : (a : A) (xs : List A) → All P (place le a xs) → P a × All P xs
  unfolding place
  All-unplaced a [] h = (h.0, tt)
  All-unplaced a (x ∷ xs) h = elim (Bool-cases (le a x)) [
    | inl first ↦ let k = subst (All P) (if_true (le a x) _ _ first) h in (k.0, k.1)
    | inr later ↦
        let k = subst (All P) (if_false (le a x) _ _ later) h in
        let (pa, rest) = All-unplaced a xs k.1 in (pa, (k.0, rest))
  ]

  pub All-sort : (xs : List A) → All P xs → All P (sort le xs)
  unfolding sort
  All-sort [] h = tt
  All-sort (x ∷ xs) h = All-placed x (sort le xs) h.0 (All-sort xs h.1)

  pub All-unsort : (xs : List A) → All P (sort le xs) → All P xs
  unfolding sort
  All-unsort [] h = tt
  All-unsort (x ∷ xs) h =
      let (now, rest) = All-unplaced x (sort le xs) h in (now, All-unsort xs rest)

-- Each element is below all behind it.
abbrev pub IsSorted {ℓ} : {A : Type ℓ} → (A → A → Bool) → List A → Type 0
IsSorted le [] = Unit
IsSorted le (x ∷ xs) = All (λ y. le x y ≡ true) xs × IsSorted le xs

module _ {ℓ} {A : Type ℓ} (le : A → A → Bool)
    (le_trans : (a b c : A) → le a b ≡ true → le b c ≡ true → le a c ≡ true)
    (le_total : (a b : A) → le a b ≡ false → le b a ≡ true) where
  All-le :
      (a b : A) (xs : List A)
      → le a b ≡ true
      → All (λ y. le b y ≡ true) xs
      → All (λ y. le a y ≡ true) xs
  All-le a b [] h k = tt
  All-le a b (x ∷ xs) h k = (le_trans a b x h k.0, All-le a b xs h k.1)

  All-place :
      (c a : A) (xs : List A)
      → le c a ≡ true
      → All (λ y. le c y ≡ true) xs
      → All (λ y. le c y ≡ true) (place le a xs)
  unfolding place
  All-place c a [] h k = (h, tt)
  All-place c a (x ∷ xs) h k = elim (Bool-cases (le a x)) [
    | inl first ↦ rw (first, place) (h, k)
    | inr later ↦ rw (later, place) (k.0, All-place c a xs h k.1)
  ]

  place-IsSorted : (a : A) (xs : List A) → IsSorted le xs → IsSorted le (place le a xs)
  unfolding place
  place-IsSorted a [] h = (tt, tt)
  place-IsSorted a (x ∷ xs) h = elim (Bool-cases (le a x)) [
    | inl first ↦ rw (first, place) ((first, All-le a x xs first h.0), h)
    | inr later ↦
        rw (later, place) (All-place x a xs (le_total a x later) h.0, place-IsSorted a xs h.1)
  ]

  pub sort-IsSorted : (xs : List A) → IsSorted le (sort le xs)
  unfolding sort
  sort-IsSorted [] = tt
  sort-IsSorted (x ∷ xs) = place-IsSorted x (sort le xs) (sort-IsSorted xs)
