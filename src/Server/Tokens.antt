-- ===== src/Server/Tokens.antt =====
-- The service's tokens: `check_tokens`, `_entries`, `_read_tokens_file` and `resolve_tokens`. What they raise is
-- `none`. Of a tokens file, the system's answers are given: its mode, its size, and its lines where it is UTF-8.
pub mod Laws
use Prim.Native.Char.{code}
use php_python_ai_bridge.Base.{
  ℕ, ◌%◌, Bool, true, false, not, ◌&&◌, ◌||◌, List, [], ◌∷◌, ◌++◌, Option, none, some, String, leb,
  ltb, ◌==◌, nat_eq, string_eq, if◌then◌else◌, all, between, length, codes, is_digit, is_lower,
  is_upper, is_space, is_blank, is_some, lookup, discard, map, filter,
}
use php_python_ai_bridge.Tasks.Validate.{contains}

abbrev pub max_tokens : ℕ
max_tokens = 64

abbrev max_tokens_file : ℕ
max_tokens_file = 65536

-- `TOKEN_NAME`: `[A-Za-z0-9_.-]{1,64}`.
unfoldable pub is_token_name : String → Bool
is_token_name s =
    between 1 64 (length (codes s))
    && all
        (λ c. is_upper c || (is_lower c || (is_digit c || (c == b'_' || (c == b'.' || c == b'-')))))
        (codes s)

unfoldable pub is_token : String → Bool
is_token s = leb 32 (length (codes s)) && all (between 33 126) (codes s)

unfoldable pub distinct : List String → Bool
distinct [] = true
distinct (x ∷ xs) = not (contains xs x) && distinct xs

abbrev pub names_of : List (String × String) → List String
names_of [] = []
names_of ((name, token) ∷ tokens) = name ∷ names_of tokens

abbrev pub values_of : List (String × String) → List String
values_of [] = []
values_of ((name, token) ∷ tokens) = token ∷ values_of tokens

-- `check_tokens`.
unfoldable pub check_tokens : List (String × String) → Option (List (String × String))
check_tokens tokens =
    if between 1 max_tokens (length tokens)
      && all is_token_name (names_of tokens)
      && all is_token (values_of tokens)
      && distinct (values_of tokens)
    then some tokens
    else none

-- `line.partition("=")`; `none` where the line has no `=`.
unfoldable pub partition : String → Option (String × String)
partition String.[] = none
partition (String.◌∷◌ c s) =
    let rest = partition s in
    if code c == b'='
    then some ("", s)
    else elim rest [ none ↦ none | some parts ↦ some (String.◌∷◌ c parts.0, parts.1) ]

-- The loop of `_entries`.
unfoldable pub read_entries : List (String × String) → List String → Option (List (String × String))
read_entries tokens [] = some tokens
read_entries tokens (line ∷ lines) = elim (partition line) [
  | none ↦ none
  | some (name, token) ↦
      let rest = read_entries (tokens ++ ((name, token) ∷ [])) lines in
      if not (is_token_name name)
      then none
      else if contains (names_of tokens) name
      then none
      else rest
]

unfoldable pub checked_entries : Option (List (String × String)) → Option (List (String × String))
checked_entries none = none
checked_entries (some tokens) = check_tokens tokens

-- `_entries`.
unfoldable pub entries : List String → Option (List (String × String))
entries lines =
    if ltb max_tokens (length lines) then none else checked_entries (read_entries [] lines)

-- What the system answers for the path of a tokens file.
pub record TokensFile : Type 0 where
  pub is_regular : Bool
  pub mode : ℕ
  pub size : ℕ
  pub lines : Option (List String)

-- A line that is neither blank nor a comment: its first character that is no space is not `#`.
unfoldable pub first_visible : List ℕ → Option ℕ
first_visible [] = none
first_visible (c ∷ cs) = let rest = first_visible cs in if is_space c then rest else some c

unfoldable pub is_entry : String → Bool
is_entry line = elim (first_visible (codes line)) [ none ↦ false | some c ↦ not (c == b'#') ]

pub entries_of_text : Option (List String) → Option (List (String × String))
entries_of_text none = none
entries_of_text (some lines) = entries (filter is_entry lines)

-- `_read_tokens_file`; `none` is a file that cannot be read.
pub read_tokens_file : Option TokensFile → Option (List (String × String))
read_tokens_file none = none
read_tokens_file (some file) =
    if not file.is_regular
    then none
    else if not (file.mode % 64 == 0)
    then none
    else if ltb max_tokens_file file.size
    then none
    else entries_of_text file.lines

-- `listed.split(",")`.
unfoldable pub split_commas : String → List String
split_commas String.[] = "" ∷ []
split_commas (String.◌∷◌ c s) =
    let rest = split_commas s in
    if code c == b','
    then "" ∷ rest
    else elim rest [ [] ↦ String.◌∷◌ c "" ∷ [] | part ∷ parts ↦ String.◌∷◌ c part ∷ parts ]

-- A variable of the environment, `""` where it is not set.
unfoldable pub variable : String → List (String × String) → String
variable name environment = elim (lookup name environment) [ none ↦ "" | some value ↦ value ]

unfoldable pub choose_tokens :
    String → String → String → (String → Option TokensFile) → Option (List (String × String))
choose_tokens single listed path files =
    if not (single == "") && (not (listed == "") || not (path == ""))
    then none
    else if not (listed == "") && not (path == "")
    then none
    else if not (path == "")
    then read_tokens_file (files path)
    else if not (listed == "")
    then entries (split_commas listed)
    else if not (single == "")
    then check_tokens (("default", single) ∷ [])
    else none

-- `resolve_tokens`: the tokens, or `none` where it exits, and the environment that it leaves.
unfoldable pub resolve_tokens :
    List (String × String)
    → (String → Option TokensFile)
    → Option (List (String × String)) × List (String × String)
resolve_tokens environment files =
    let single = variable "BRIDGE_TOKEN" environment in
    let environment_1 = discard "BRIDGE_TOKEN" environment in
    let listed = variable "BRIDGE_TOKENS" environment_1 in
    let environment_2 = discard "BRIDGE_TOKENS" environment_1 in
    let path = variable "BRIDGE_TOKENS_FILE" environment_2 in
    (choose_tokens single listed path files, environment_2)
