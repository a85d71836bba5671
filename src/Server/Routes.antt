-- ===== src/Server/Routes.antt =====
-- The paths that the service answers: `_ROUTES`, `_JOB_ROUTES`, `_route`, and `JOB_ID` with `INSTANCE_ID`
-- of worker/ai_bridge/jobs.py.
pub mod Laws
use Prim.Native.Char.{Char, code}
use php_python_ai_bridge.Base.{
  ℕ, ◌-◌, Bool, true, false, ◌&&◌, ◌||◌, List, [], ◌∷◌, Option, none, some, String, leb, ◌==◌,
  nat_eq, string_eq, if◌then◌else◌, all, between, length, codes, take, drop, is_digit, is_lower,
  is_hex,
}

-- `[a-z0-9][a-z0-9-]{0,15}`.
unfoldable pub is_instance : List ℕ → Bool
is_instance [] = false
is_instance (c ∷ cs) =
    (is_lower c || is_digit c)
    && (all (λ d. is_lower d || (is_digit d || d == b'-')) cs && leb (length cs) 15)

-- `[a-f0-9]{32}`.
unfoldable pub is_hex32 : List ℕ → Bool
is_hex32 cs = length cs == 32 && all is_hex cs

-- A list that a hyphen begins, and `[a-f0-9]{32}` after it.
pub is_tail : List ℕ → Bool
is_tail [] = false
is_tail (c ∷ cs) = c == b'-' && is_hex32 cs

-- `JOB_ID.fullmatch`: the hyphen before the last 32 characters ends the name of an instance.
pub is_job_id : String → Bool
is_job_id s =
    let cs = codes s in
    let n = length cs - 33 in is_hex32 cs || is_instance (take n cs) && is_tail (drop n cs)

-- What follows a prefix.
pub after : String → String → Option String
after String.[] s = some s
after (String.◌∷◌ c p) String.[] = none
after (String.◌∷◌ c p) (String.◌∷◌ d s) = if code c == code d then after p s else none

-- What precedes a last `/cancel`.
pub before_cancel : String → Option String
before_cancel String.[] = none
before_cancel (String.◌∷◌ c s) =
    let rest = before_cancel s in
    if String.◌∷◌ c s == "/cancel"
    then some ""
    else elim rest [ none ↦ none | some p ↦ some (String.◌∷◌ c p) ]

pub only_job_id : Option String → Option String
only_job_id none = none
only_job_id (some i) = if is_job_id i then some i else none

-- `re.fullmatch(rf"/v1/jobs/({JOB_ID})", path)`, and the same with `/cancel`.
pub job_path : String → Option String
job_path path = only_job_id (after "/v1/jobs/" path)

pub cancel_path : String → Option String
cancel_path path = elim (after "/v1/jobs/" path) [
  | none ↦ none
  | some rest ↦ only_job_id (before_cancel rest)
]

-- `_route`: the template that a path matches, never the path itself.
unfoldable route : Option String → String
route none = "other"
route (some path) =
    if path == "/healthz" || path == "/readyz" || path == "/metrics" || path == "/v1/jobs"
    then path
    else elim (job_path path) [
      | some i ↦ "/v1/jobs/{id}"
      | none ↦ elim (cancel_path path) [ some i ↦ "/v1/jobs/{id}/cancel" | none ↦ "other" ]
    ]
