-- ===== src/Log/Safe.antt =====
-- What can reach a line of the log, whatever a caller passes.
use php_python_ai_bridge.Base.{
  ◌≡◌, refl, sym, ◌∙◌, ap, subst, Bool, true, false, ◌&&◌, ◌||◌, inl, inr, List, [], ◌∷◌, ◌++◌,
  Option, none, some, String, ◌==◌, string_eq, arith, all, string_beq_iff, All, if_ind, Bool-cases,
  lookup,
}
use php_python_ai_bridge.Json.{Value, null, boolean, int, float, str}
use php_python_ai_bridge.Tasks.Validate.{Fields, contains}
use php_python_ai_bridge.Server.Tokens.{is_token_name}
use php_python_ai_bridge.Server.Routes.{is_job_id}
use php_python_ai_bridge.Log.{
  methods, routes, statuses, tasks, backends, network_warning, schema, is_count, is_duration,
  matches, among, is_status, is_flag, valid, field_of, line_fields, format,
}

-- The texts that the program itself has for a line.
abbrev fixed : List String
fixed =
    methods
    ++ routes
    ++ statuses
    ++ tasks
    ++ backends
    ++ (network_warning ∷ "request" ∷ "job" ∷ "start" ∷ "stop" ∷ "drain" ∷ [])

-- No value but null, a number, a flag, one of those texts, the name of a token or the id of a job.
abbrev is_safe : Value → Bool
is_safe null = true
is_safe (boolean b) = true
is_safe (int n) = true
is_safe (float negative n k) = true
is_safe (str s) = contains fixed s || is_token_name s || is_job_id s
is_safe _ = false

abbrev pub IsSafe : Value → Type 0
IsSafe v = is_safe v ≡ true

and_left : (a b : Bool) → (a && b) ≡ true → a ≡ true
and_left a b h = ground (arith, h)

and_right : (a b : Bool) → (a && b) ≡ true → b ≡ true
and_right a b h = ground (arith, h)

or_right : (a b : Bool) → a ≡ false → (a || b) ≡ true → b ≡ true
or_right a b none_here h = ground (arith, none_here, h)

or_middle : (a b c : Bool) → b ≡ true → (a || b || c) ≡ true
or_middle a b c h = ground (arith, h)

or_last : (a b c : Bool) → c ≡ true → (a || b || c) ≡ true
or_last a b c h = ground (arith, h)

contains_part :
    (choices texts : List String) (s : String)
    → all (contains texts) choices ≡ true
    → contains choices s ≡ true
    → contains texts s ≡ true
contains_part [] texts s part h = absurd (ground (arith, h))
contains_part (x ∷ xs) texts s part h = elim (Bool-cases (s == x)) [
  | inl same ↦
      ap (contains texts) ((string_beq_iff s x).0 same)
      ∙ and_left (contains texts x) (all (contains texts) xs) part
  | inr other ↦
      contains_part xs texts s (and_right (contains texts x) (all (contains texts) xs) part)
        (or_right (s == x) (contains xs s) other h)
]

fixed-IsSafe : (s : String) → contains fixed s ≡ true → IsSafe (str s)
fixed-IsSafe s h = ap (λ b. b || is_token_name s || is_job_id s) h

matches-IsSafe :
    (p : String → Bool) (v : Value)
    → ((s : String) → p s ≡ true → IsSafe (str s))
    → matches p v ≡ true
    → IsSafe v
unfolding matches
matches-IsSafe p (str s) each h = each s h
matches-IsSafe p _ each h = absurd (ground (arith, h))

is_count-IsSafe : (v : Value) → is_count v ≡ true → IsSafe v
unfolding is_count
is_count-IsSafe (int n) h = refl
is_count-IsSafe _ h = absurd (ground (arith, h))

is_duration-IsSafe : (v : Value) → is_duration v ≡ true → IsSafe v
unfolding is_duration
is_duration-IsSafe (int n) h = refl
is_duration-IsSafe (float negative n k) h = refl
is_duration-IsSafe _ h = absurd (ground (arith, h))

is_status-IsSafe : (v : Value) → is_status v ≡ true → IsSafe v
unfolding is_status
is_status-IsSafe (int n) h = refl
is_status-IsSafe _ h = absurd (ground (arith, h))

is_flag-IsSafe : (v : Value) → is_flag v ≡ true → IsSafe v
unfolding is_flag
is_flag-IsSafe (boolean b) h = refl
is_flag-IsSafe _ h = absurd (ground (arith, h))

among-IsSafe :
    (choices : List String) (v : Value)
    → all (contains fixed) choices ≡ true
    → among choices v ≡ true
    → IsSafe v
unfolding among
among-IsSafe choices v part h =
    matches-IsSafe (contains choices) v
      (λ s here. fixed-IsSafe s (contains_part choices fixed s part here)) h

valid-IsSafe : (key : String) (v : Value) → valid key v ≡ true → IsSafe v
unfolding valid
valid-IsSafe key v =
    let Safe : Bool → Type 0 = λ b. b ≡ true → IsSafe v in
    if_ind Safe (key == "method") (λ _. among-IsSafe methods v refl)
      λ _.
        if_ind Safe (key == "route") (λ _. among-IsSafe routes v refl)
          λ _.
            if_ind Safe (key == "status") (λ _. is_status-IsSafe v)
              λ _.
                if_ind Safe
                  (contains ("duration_ms" ∷ "queue_ms" ∷ "run_ms" ∷ "retention_seconds" ∷ []) key)
                  (λ _. is_duration-IsSafe v)
                  λ _.
                    if_ind Safe (key == "owner")
                      (λ _.
                        matches-IsSafe is_token_name v (λ s h. or_middle (contains fixed s) _ _ h))
                      λ _.
                        if_ind Safe (key == "job_id")
                          (λ _.
                            matches-IsSafe is_job_id v
                              (λ s h. or_last (contains fixed s) (is_token_name s) _ h))
                          λ _.
                            if_ind Safe (key == "task") (λ _. among-IsSafe tasks v refl)
                              λ _.
                                if_ind Safe (key == "job_status")
                                  (λ _. among-IsSafe statuses v refl)
                                  λ _.
                                    if_ind Safe (key == "backend")
                                      (λ _. among-IsSafe backends v refl)
                                      λ _.
                                        if_ind Safe (key == "network_warning")
                                          (λ _. among-IsSafe (network_warning ∷ []) v refl)
                                          λ _.
                                            if_ind Safe (key == "interrupted")
                                              (λ _. is_flag-IsSafe v) (λ _. is_count-IsSafe v)

field_of-IsSafe : (key : String) (o : Option Value) → IsSafe (field_of key o)
unfolding field_of
field_of-IsSafe key none = refl
field_of-IsSafe key (some v) = if_ind IsSafe (valid key v) (valid-IsSafe key v) (λ _. refl)

abbrev pub keys_of : Fields → List String
keys_of [] = []
keys_of ((k, v) ∷ fields) = k ∷ keys_of fields

line_fields-IsSafe :
    (keys : List String) (fields : Fields)
    → (keys_of (line_fields keys fields) ≡ keys) × All (λ f. IsSafe f.1) (line_fields keys fields)
unfolding line_fields
line_fields-IsSafe [] fields = (refl, tt)
line_fields-IsSafe (key ∷ keys) fields =
    let (same, safe) = line_fields-IsSafe keys fields in
    (ap (λ l. key ∷ l) same, (field_of-IsSafe key (lookup key fields), safe))

named-IsSafe :
    (name event : String) → (name == event) ≡ true → contains fixed event ≡ true → IsSafe (str name)
named-IsSafe name event same known =
    subst (λ n. IsSafe (str n)) (sym ((string_beq_iff name event).0 same))
      (fixed-IsSafe event known)

schema_name : (name : String) (keys : List String) → schema name ≡ some keys → IsSafe (str name)
unfolding schema
schema_name name keys =
    let Named : Option (List String) → Type 0 = λ o. o ≡ some keys → IsSafe (str name) in
    if_ind Named (name == "request") (λ same _. named-IsSafe name "request" same refl)
      λ _.
        if_ind Named (name == "job") (λ same _. named-IsSafe name "job" same refl)
          λ _.
            if_ind Named (name == "start") (λ same _. named-IsSafe name "start" same refl)
              λ _.
                if_ind Named (name == "stop") (λ same _. named-IsSafe name "stop" same refl)
                  λ _.
                    if_ind Named (name == "drain") (λ same _. named-IsSafe name "drain" same refl)
                      (λ _ h. absurd (ground (arith, h)))

-- Whatever fields a caller passes: a line has the event and the keys of its schema, in that order and no other, and
-- every value in it is null, a number, a flag, a text that the program itself has for the log, the well-formed name
-- of a token or a well-formed job id.
pub format-IsSafe :
    (name : String) (fields line : Fields) (keys : List String)
    → schema name ≡ some keys
    → format name fields ≡ some line
    → (keys_of line ≡ "event" ∷ keys) × All (λ f. IsSafe f.1) line
unfolding format
format-IsSafe name fields line keys known made =
    let (same, safe) = line_fields-IsSafe keys fields in
    let is_line : ("event", str name) ∷ line_fields keys fields ≡ line =
      ground (arith, made, known) in
    subst (λ l. (keys_of l ≡ "event" ∷ keys) × All (λ f. IsSafe f.1) l) is_line
      (ap (λ l. "event" ∷ l) same, (schema_name name keys known, safe))
