-- ===== src/Base/Dict.antt =====
-- A Python dictionary as a list of pairs in the order of insertion.
use mathlib.Core.Path.{◌≡◌, refl}
use mathlib.Core.Bool.{Bool, true, ◌&&◌}
use mathlib.Core.Logic.{◌↔◌}
use mathlib.Core.List.{List, [], ◌∷◌}
use mathlib.Core.Option.{Option, none, some}
use native.Mathlib.Omega.{arith}
use php_python_ai_bridge.Base.Tests.{if◌then◌else◌, Eq, ◌==◌}

module _ {ℓ κ} {K : Type ℓ} {V : Type κ} ⦃e : Eq K⦄ where
  pub insert : K → V → List (K × V) → List (K × V)
  insert key value [] = (key, value) ∷ []
  insert key value ((other, old) ∷ rest) =
      if other == key then (key, value) ∷ rest else (other, old) ∷ insert key value rest

  -- `d.pop(k, None)`, for the dictionary that it leaves.
  unfoldable pub discard : K → List (K × V) → List (K × V)
  discard k [] = []
  discard k ((j, w) ∷ m) = if j == k then discard k m else (j, w) ∷ discard k m

  unfoldable pub lookup : K → List (K × V) → Option V
  lookup key [] = none
  lookup key ((other, value) ∷ rest) = if other == key then some value else lookup key rest

  pub lookup-insert :
      (key sought : K) (value : V) (dict : List (K × V))
      → lookup sought (insert key value dict)
        ≡ (if key == sought then some value else lookup sought dict)
  unfolding insert lookup
  lookup-insert key sought value [] = refl
  lookup-insert key sought value ((i, w) ∷ rest) = ground (
    arith,
    lookup-insert key sought value rest,
    e.beq_iff key sought,
    e.beq_iff i key,
    e.beq_iff i sought,
  )

  pub lookup-discard :
      (k j : K) (m : List (K × V)) → lookup j (discard k m) ≡ (if k == j then none else lookup j m)
  unfolding lookup discard
  lookup-discard k j [] = ground arith
  lookup-discard k j ((i, w) ∷ m) =
      ground (arith, e.beq_iff k j, e.beq_iff i k, e.beq_iff i j, lookup-discard k j m)

module _ {ℓ κ} {A : Type ℓ} {B : Type κ} ⦃e : Eq A⦄ ⦃f : Eq B⦄ where
  abbrev pair_beq : A × B → A × B → Bool
  pair_beq (a, b) (c, d) = e.beq a c && f.beq b d

  pub pair_beq_iff : (x y : A × B) → (pair_beq x y ≡ true) ↔ (x ≡ y)
  pair_beq_iff (a, b) (c, d) = ground (arith, e.beq_iff a c, f.beq_iff b d)

  instance abbrev pub pair_eq : Eq (A × B)
  pair_eq = record { beq = pair_beq; beq_iff = pair_beq_iff }
