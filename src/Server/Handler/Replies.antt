-- ===== src/Server/Handler/Replies.antt =====
-- The replies of the service: their status and `Retry-After`.
use php_python_ai_bridge.Base.{
  ℕ, ◌≡◌, Bool, true, false, not, ◌&&◌, ◌||◌, List, Option, none, some, String, leb, ◌==◌, nat_eq,
  string_eq,
}
use php_python_ai_bridge.Jobs.Types.{Job, Store}
use php_python_ai_bridge.Jobs.Submit.{Request, Reply, public}
use php_python_ai_bridge.Jobs.Table.{find}
use php_python_ai_bridge.Server.Routes.{job_path}
use php_python_ai_bridge.Server.Http.{HttpRequest, Response, get_method, is_encodable}
use php_python_ai_bridge.Server.Handler.{submit_reply, authorized}

-- 429 tells how many seconds to wait, one at least; of the others, only 503 may.
abbrev retry_ok : ℕ → Option ℕ → Bool
retry_ok status none = not (status == 429)
retry_ok status (some n) = leb 1 n && (status == 429 || status == 503)

abbrev IsAnswer : Option Response → Type 0
IsAnswer none = ⊥
IsAnswer (some r) = retry_ok r.status r.retry_after ≡ true

abbrev IsFair : Reply × Store → Type 0
IsFair p = IsAnswer (submit_reply p.0)

abbrev Answers : Option Response × Store → Type 0
Answers p = IsAnswer p.0

-- A job that no GET can show: the caller's, with a result that `json.dumps` refuses.
abbrev IsUnshown : String → String → Store → Type 0
IsUnshown path owner t =
    (i : String) × (j : Job) × (job_path path ≡ some i)
    × (find i t.jobs ≡ some j)
    × (j.owner ≡ owner)
    × (is_encodable (public j) ≡ false)

-- Who asks, and for what: a request without a reply is an authorized GET of a job that cannot be shown.
abbrev pub IsAnswered : List (String × String) → HttpRequest → Option Response × Store → Type 0
IsAnswered tokens r (some a, t) = retry_ok a.status a.retry_after ≡ true
IsAnswered tokens r (none, t) =
    (owner : String) × (r.method ≡ get_method)
    × (authorized tokens r.authorization ≡ some owner)
    × IsUnshown r.path owner t

abbrev AnswersGet : String → String → Option Response × Store → Type 0
AnswersGet path owner (some a, t) = retry_ok a.status a.retry_after ≡ true
AnswersGet path owner (none, t) = IsUnshown path owner t
