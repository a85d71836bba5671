-- ===== src/Json.antt =====
-- JSON values as the Python code holds them after `json.loads`: payloads, results and progress.
-- A text that holds lone surrogates, which UTF-8 cannot carry, is known by its length alone. A number
-- with a fraction or an exponent is the float `n / 2 ^ k` with its sign, or is beyond every float,
-- with which NaN is counted where a parser takes it.
use php_python_ai_bridge.Base.{
  ◌≡◌, refl, ap, ℕ, Bool, false, List, [], ◌∷◌, String, Option, none, some, if◌then◌else◌, ◌==◌,
  string_eq, ltb, length, codes,
}

mutual
  pub data Value : Type 0 where
    null : Value
    boolean : Bool → Value
    int : ℕ → Value
    negative_int : ℕ → Value
    float : (negative : Bool) (n k : ℕ) → Value
    infinite : Value
    str : String → Value
    broken_str : ℕ → Value
    arr : Items → Value
    obj : Members → Value

  pub data Items : Type 0 where
    end_items : Items
    item : Value → Items → Items

  pub data Members : Type 0 where
    end_members : Members
    member : String → Value → Members → Members

abbrev pub items : Items → List Value
items end_items = []
items (item v vs) = v ∷ items vs

-- In the order of the text, a name that stands twice included.
abbrev pub members : Members → List (String × Value)
members end_members = []
members (member k v ms) = (k, v) ∷ members ms

-- `d.get(key)` on the dictionary that `json.loads` makes: of a name that stands twice the last counts.
unfoldable pub field : String → List (String × Value) → Option Value
field key [] = none
field key ((name, value) ∷ rest) = elim (field key rest) [
  | some later ↦ some later
  | none ↦ if name == key then some value else none
]

-- `isinstance(value, str) and value != ""`.
unfoldable pub is_name : Option Value → Bool
is_name (some (str s)) = ltb 0 (length (codes s))
is_name (some (broken_str n)) = ltb 0 n
is_name _ = false

-- `len(value)` of a text.
unfoldable pub text_count : Option Value → Option ℕ
text_count (some (str s)) = some (length (codes s))
text_count (some (broken_str n)) = some n
text_count _ = none

-- The value of a whole number that is not negative; a bool is none.
unfoldable pub whole : Option Value → Option ℕ
whole (some (int n)) = some n
whole _ = none

-- The value is that text.
unfoldable pub text_is : String → Option Value → Bool
text_is text (some (str s)) = s == text
text_is text _ = false

-- `json.dumps` of a list.
abbrev pub items_of : List Value → Items
items_of [] = end_items
items_of (v ∷ vs) = item v (items_of vs)

pub items-items_of : (vs : List Value) → items (items_of vs) ≡ vs
items-items_of [] = refl
items-items_of (v ∷ vs) = ap (λ l. v ∷ l) (items-items_of vs)

abbrev pub members_of : List (String × Value) → Members
members_of [] = end_members
members_of ((k, v) ∷ ms) = member k v (members_of ms)
