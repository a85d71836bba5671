-- ===== src/Tasks/Luhn.antt =====
-- `_luhn`, over the digits of a card number as numbers.
use php_python_ai_bridge.Base.{
  ℕ, ap, ◌∙◌, append_assoc, Bool-cases, inl, inr, ◌+◌, ◌-◌, ◌*◌, ◌%◌, ◌≡◌, ◌≢◌, ◌<◌, Bool, true,
  false, not, List, [], ◌∷◌, ◌++◌, ltb, ◌==◌, nat_eq, if◌then◌else◌, arith, nat_beq_iff,
}
use mathlib.Core.List.{reverse, reverse-append, reverse-cons}

-- What a digit adds: every second one is doubled, less 9 if that has two digits.
unfoldable pub luhn_digit : Bool → ℕ → ℕ
luhn_digit doubled v = if doubled then (if ltb 4 v then v * 2 - 9 else v * 2) else v

-- The loop over the reversed digits; `doubled` is `index % 2`.
unfoldable pub luhn_total : Bool → List ℕ → ℕ
unfolding luhn_digit
luhn_total doubled [] = 0
luhn_total doubled (v ∷ vs) = luhn_digit doubled v + luhn_total (not doubled) vs

unfoldable pub luhn : List ℕ → Bool
luhn digits = luhn_total false (reverse digits) % 10 == 0

-- Two digits that add the same are the same.
luhn_digit-injective :
    (doubled : Bool) (a b : ℕ)
    → a < 10
    → b < 10
    → luhn_digit doubled a % 10 ≡ luhn_digit doubled b % 10
    → a ≡ b
unfolding luhn_digit
luhn_digit-injective doubled a b ha hb h = ground arith

-- The parity at which the walk passes a number of digits.
parity_after : Bool → List ℕ → Bool
parity_after d [] = d
parity_after d (v ∷ vs) = parity_after (not d) vs

luhn_total-append :
    (d : Bool) (xs ys : List ℕ)
    → luhn_total d (xs ++ ys) ≡ luhn_total d xs + luhn_total (parity_after d xs) ys
unfolding luhn_total parity_after
luhn_total-append d [] ys = omega arith
luhn_total-append d (x ∷ xs) ys = omega (arith, luhn_total-append (not d) xs ys)

luhn_split :
    (xs ys : List ℕ) (v : ℕ)
    → luhn_total false (reverse (xs ++ (v ∷ ys)))
      ≡ luhn_total false (reverse ys)
        + (luhn_digit (parity_after false (reverse ys)) v
            + luhn_total (not (parity_after false (reverse ys))) (reverse xs))
unfolding luhn_total
luhn_split xs ys v =
    let turned : reverse (xs ++ (v ∷ ys)) ≡ reverse ys ++ (v ∷ reverse xs) =
      reverse-append xs (v ∷ ys)
      ∙ ap (λ l. l ++ reverse xs) (reverse-cons v ys)
      ∙ append_assoc (reverse ys) (v ∷ []) (reverse xs) in
    ap (luhn_total false) turned ∙ luhn_total-append false (reverse ys) (v ∷ reverse xs)

-- One wrong digit is always noticed: of two numbers of digits that differ in one place, if one passes, the other fails.
pub luhn-one_digit :
    (xs ys : List ℕ) (a b : ℕ)
    → a < 10
    → b < 10
    → a ≢ b
    → luhn (xs ++ (a ∷ ys)) ≡ true
    → luhn (xs ++ (b ∷ ys)) ≡ false
unfolding luhn
luhn-one_digit xs ys a b ha hb differ passes =
    elim (Bool-cases (luhn_total false (reverse (xs ++ (b ∷ ys))) % 10 == 0)) [
      | inr fails ↦ fails
      | inl also ↦ absurd (
          differ (
            luhn_digit-injective (parity_after false (reverse ys)) a b ha hb (
              omega (
                arith,
                (nat_beq_iff _ 0).0 passes,
                (nat_beq_iff _ 0).0 also,
                luhn_split xs ys a,
                luhn_split xs ys b,
              ))))
    ]
