-- ===== src/Tasks/Ibans.antt =====
-- `_iban` and the loop of `_ibans`, over a match that a regular expression has found: letters and digits, with
-- single spaces between them.
pub mod Laws
use php_python_ai_bridge.Base.{
  ℕ, zero, suc, ◌+◌, ◌-◌, ◌*◌, ◌%◌, Bool, true, false, not, ◌&&◌, List, [], ◌∷◌, ◌++◌, Option, none,
  some, leb, ◌==◌, nat_eq, if◌then◌else◌, length, take, drop, filter, between, is_digit, is_upper,
}

abbrev pub space : ℕ
space = 32

abbrev pub without_spaces : List ℕ → List ℕ
without_spaces cs = filter (λ c. not (c == space)) cs

-- `int(char, 36)`.
unfoldable pub digit_36 : ℕ → ℕ
digit_36 c = if is_digit c then c - 48 else if is_upper c then c - 55 else c - 87

-- The number that the digits written one after the other make.
unfoldable pub number_of : ℕ → List ℕ → ℕ
number_of n [] = n
number_of n (c ∷ cs) =
    let v = digit_36 c in number_of (if leb 10 v then n * 100 + v else n * 10 + v) cs

-- `_iban`.
unfoldable pub iban : List ℕ → Bool
iban candidate =
    let compact = without_spaces candidate in
    between 15 34 (length compact) && number_of 0 (drop 4 compact ++ take 4 compact) % 97 == 1

-- `candidate[:candidate.rfind(" ")]`, where there is a space.
unfoldable pub before_space : List ℕ → Option (List ℕ)
before_space [] = none
before_space (c ∷ cs) = elim (before_space cs) [
  | some bs ↦ some (c ∷ bs)
  | none ↦ if c == space then some [] else none
]

-- The loop of `_ibans` for one match, on fuel: what of the match is taken, `none` inside where nothing is.
unfoldable pub trim : ℕ → List ℕ → Option (Option (List ℕ))
trim zero candidate = none
trim (suc fuel) candidate =
    if leb 15 (length (without_spaces candidate))
    then (if iban candidate
        then some (some candidate)
        else elim (before_space candidate) [ none ↦ some none | some shorter ↦ trim fuel shorter ])
    else some none

-- Each turn but the last takes a space off.
unfoldable pub iban_of : List ℕ → Option (Option (List ℕ))
iban_of match = trim (suc (length match)) match
