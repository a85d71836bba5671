-- ===== src/Server/Tokens/Laws.antt =====
-- The tokens that the service starts with.
use php_python_ai_bridge.Base.{
  ◌≤◌, ◌≡◌, ◌≢◌, refl, sym, ◌∙◌, ap, subst, inl, inr, true, false, ◌||◌, List, [], ◌∷◌, ◌++◌,
  Option, none, some, String, ◌==◌, nat_eq, string_eq, string_beq_iff, arith, all, All, length,
  Bool-cases, Option-cases, lookup, discard, lookup-discard, filter,
}
use php_python_ai_bridge.Tasks.Validate.{contains}
use php_python_ai_bridge.Server.Handler.Auth.{OneName}
use php_python_ai_bridge.Server.Tokens.{
  max_tokens, is_token_name, is_token, distinct, names_of, values_of, check_tokens, partition,
  read_entries, checked_entries, entries, TokensFile, is_entry, entries_of_text, read_tokens_file,
  split_commas, choose_tokens, resolve_tokens,
}

-- Tokens that the service may start with.
pub record IsTokens (tokens : List (String × String)) : Type 0 where
  some_token : 1 ≤ length tokens
  few : length tokens ≤ max_tokens
  names_good : all is_token_name (names_of tokens) ≡ true
  tokens_good : all is_token (values_of tokens) ≡ true
  one_each : distinct (names_of tokens) ≡ true
  one_name : OneName tokens

contains-All :
    (t : String) (tokens : List (String × String))
    → contains (values_of tokens) t ≡ false
    → All (λ p. t ≢ p.1) tokens
contains-All t [] h = tt
contains-All t ((n, u) ∷ tokens) h = (
  ground (arith, h, string_beq_iff t u, string_beq_iff u t),
  contains-All t tokens (ground (arith, h)),
)

distinct-OneName :
    (tokens : List (String × String)) → distinct (values_of tokens) ≡ true → OneName tokens
unfolding distinct
distinct-OneName [] h = tt
distinct-OneName ((n, t) ∷ tokens) h =
    (contains-All t tokens (ground (arith, h)), distinct-OneName tokens (ground (arith, h)))

check_tokens-IsTokens :
    (tokens found : List (String × String))
    → distinct (names_of tokens) ≡ true
    → check_tokens tokens ≡ some found
    → IsTokens found
unfolding check_tokens
check_tokens-IsTokens tokens found one h =
    let same : tokens ≡ found = ground (arith, h) in
    let values : distinct (values_of tokens) ≡ true = ground (arith, h) in
    subst IsTokens same (record {
      some_token = ground (arith, h);
      few = ground (arith, h);
      names_good = ground (arith, h);
      tokens_good = ground (arith, h);
      one_each = one;
      one_name = distinct-OneName tokens values;
    })

contains-snoc :
    (xs : List String) (x y : String) → contains (xs ++ (x ∷ [])) y ≡ (contains xs y || y == x)
contains-snoc [] x y = ground (arith)
contains-snoc (z ∷ xs) x y = ground (arith, contains-snoc xs x y)

distinct-snoc :
    (xs : List String) (x : String)
    → distinct xs ≡ true
    → contains xs x ≡ false
    → distinct (xs ++ (x ∷ [])) ≡ true
unfolding distinct
distinct-snoc [] x h new = refl
distinct-snoc (y ∷ xs) x h new = ground (
  arith,
  h,
  new,
  contains-snoc xs x y,
  distinct-snoc xs x,
  string_beq_iff x y,
  string_beq_iff y x,
)

names_of-snoc :
    (tokens : List (String × String)) (n t : String)
    → names_of (tokens ++ ((n, t) ∷ [])) ≡ names_of tokens ++ (n ∷ [])
names_of-snoc [] n t = refl
names_of-snoc ((m, u) ∷ tokens) n t = ap (λ l. m ∷ l) (names_of-snoc tokens n t)

read_entries-distinct :
    (tokens : List (String × String)) (lines : List String) (found : List (String × String))
    → distinct (names_of tokens) ≡ true
    → read_entries tokens lines ≡ some found
    → distinct (names_of found) ≡ true
unfolding read_entries
read_entries-distinct tokens [] found one h =
    let same : tokens ≡ found = ground (arith, h) in
    ap (λ l. distinct (names_of l)) (sym same) ∙ one
read_entries-distinct tokens (line ∷ lines) found one h = elim (Option-cases (partition line)) [
  | inl bare ↦ absurd (ground (arith, h, bare))
  | inr ((name, token), split) ↦
      read_entries-distinct (tokens ++ ((name, token) ∷ [])) lines found
        (ap distinct (names_of-snoc tokens name token)
          ∙ distinct-snoc (names_of tokens) name one (ground (arith, h, split)))
        (ground (arith, h, split))
]

entries-IsTokens :
    (lines : List String) (found : List (String × String))
    → entries lines ≡ some found
    → IsTokens found
unfolding entries checked_entries distinct
entries-IsTokens lines found h = elim (Option-cases (read_entries [] lines)) [
  | inl bad ↦ absurd (ground (arith, h, bad))
  | inr (tokens, read) ↦
      check_tokens-IsTokens tokens found (read_entries-distinct [] lines tokens refl read)
        (ground (arith, h, read))
]

read_tokens_file-IsTokens :
    (file : Option TokensFile) (found : List (String × String))
    → read_tokens_file file ≡ some found
    → IsTokens found
unfolding read_tokens_file entries_of_text
read_tokens_file-IsTokens none found h = absurd (ground (arith, h))
read_tokens_file-IsTokens (some file) found h = elim (Option-cases file.lines) [
  | inl bad ↦ absurd (ground (arith, h, bad))
  | inr (lines, read) ↦ entries-IsTokens (filter is_entry lines) found (ground (arith, h, read))
]

choose_tokens-IsTokens :
    (single listed path : String) (files : String → Option TokensFile)
    (found : List (String × String))
    → choose_tokens single listed path files ≡ some found
    → IsTokens found
unfolding choose_tokens distinct
choose_tokens-IsTokens single listed path files found h = elim (Bool-cases (path == "")) [
  | inr given ↦ read_tokens_file-IsTokens (files path) found (ground (arith, h, given))
  | inl no_path ↦ elim (Bool-cases (listed == "")) [
    | inr given ↦ entries-IsTokens (split_commas listed) found (ground (arith, h, no_path, given))
    | inl no_list ↦
        check_tokens-IsTokens (("default", single) ∷ []) found refl
          (ground (arith, h, no_path, no_list))
  ]
]

-- The tokens that the service starts with are 1 to 64, of distinct well-formed names, each of at least 32 visible
-- ASCII characters, no two the same; and neither of the variables that hold tokens is left in the environment.
pub resolve_tokens-IsTokens :
    (environment : List (String × String)) (files : String → Option TokensFile)
    (tokens : List (String × String))
    → (resolve_tokens environment files).0 ≡ some tokens
    → IsTokens tokens
      × (lookup "BRIDGE_TOKEN" (resolve_tokens environment files).1 ≡ none)
      × (lookup "BRIDGE_TOKENS" (resolve_tokens environment files).1 ≡ none)
unfolding resolve_tokens
resolve_tokens-IsTokens environment files tokens h = (
  choose_tokens-IsTokens _ _ _ files tokens h,
  lookup-discard "BRIDGE_TOKENS" "BRIDGE_TOKEN" (discard "BRIDGE_TOKEN" environment)
      ∙ lookup-discard "BRIDGE_TOKEN" "BRIDGE_TOKEN" environment,
  lookup-discard "BRIDGE_TOKENS" "BRIDGE_TOKENS" (discard "BRIDGE_TOKEN" environment),
)
