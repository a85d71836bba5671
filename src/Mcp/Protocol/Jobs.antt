-- ===== src/Mcp/Protocol/Jobs.antt =====
-- The answer to a new submission, `_accept` of worker/ai_bridge/jobs.py, as the client `Bridge.submit` of
-- mcp_server/bridge_mcp/protocol.py takes it.
use php_python_ai_bridge.Base.{
  ℕ, ◌≡◌, ◌≤◌, sym, ap, ◌∙◌, subst, Bool, true, false, [], ◌∷◌, Option, none, some, String, codes,
  string_eq, string_beq_iff, arith, Option-cases, inl, inr,
}
use php_python_ai_bridge.Json.{
  Value, null, int, str, obj, members_of, field, whole, is_name, text_is,
}
use php_python_ai_bridge.Tasks.Validate.{contains, validate}
use php_python_ai_bridge.Jobs.Db.{write_submitted}
use php_python_ai_bridge.Jobs.Types.{
  Job, Settings, Env, Store, Status, PublicJob, Progress, ErrorCode, queued, running, succeeded,
  failed, timed_out, cancelled, service_restarted, worker_start_failed, worker_crashed, task_failed,
  deadline_exceeded,
}
use php_python_ai_bridge.Jobs.Submit.{
  Request, Reply, accepted, refused, value_error, overflow_error, draining_error, key_error,
  capacity_error, submit_valid, accept, accept_open, admit_new, record_job, new_job, job_name,
  public, expire, count_refusal,
}
use php_python_ai_bridge.Jobs.Steps.{known}
use php_python_ai_bridge.Jobs.Submit.Trace.{delete_expired-book}
use php_python_ai_bridge.Jobs.Request.{
  task_names, submit, checked, checked_task, request_of, timeout_of_value, key_of_value,
}
use php_python_ai_bridge.Jobs.Request.Laws.{checked-IsChecked}
use php_python_ai_bridge.Server.Routes.{is_hex32, is_job_id}
use php_python_ai_bridge.Server.Routes.Laws.{InstanceOk, job_name-is_job_id}
use php_python_ai_bridge.Mcp.Protocol.{
  Body, ok, submitted, job_ok, id_ok, status_in, timeout_ok, error_ok, progress_ok,
}

-- `_public(job)` as JSON.
abbrev status_name : Status → String
status_name queued = "queued"
status_name running = "running"
status_name succeeded = "succeeded"
status_name failed = "failed"
status_name timed_out = "timed_out"
status_name cancelled = "cancelled"

abbrev code_name : ErrorCode → String
code_name service_restarted = "service_restarted"
code_name worker_start_failed = "worker_start_failed"
code_name worker_crashed = "worker_crashed"
code_name task_failed = "task_failed"
code_name deadline_exceeded = "deadline_exceeded"

abbrev or_null {ℓ} : {A : Type ℓ} → (A → Value) → Option A → Value
or_null f none = null
or_null f (some a) = f a

abbrev error_value : ErrorCode → Value
error_value code =
    obj
      (members_of (("code", str (code_name code)) ∷ ("message", str "Task did not complete") ∷ []))

abbrev progress_value : Progress → Value
progress_value p = obj (members_of (("completed", int p.completed) ∷ ("total", int p.total) ∷ []))

abbrev pub job_body : PublicJob → Body
job_body j =
    ("id", str j.id)
    ∷ ("task", str j.task)
    ∷ ("status", str (status_name j.status))
    ∷ ("result", or_null (λ v. v) j.result)
    ∷ ("error", or_null error_value j.error)
    ∷ ("progress", or_null progress_value j.progress)
    ∷ ("timeout_ms", int j.timeout_ms)
    ∷ []

-- A job that has just been accepted.
abbrev fresh : String → String → ℕ → PublicJob
fresh name task timeout_ms = record {
  id = name;
  task = task;
  status = queued;
  result = none;
  error = none;
  progress = none;
  timeout_ms = timeout_ms;
}

record_job-accepted :
    (e : Env) (k : Job) (s t : Store) (j : PublicJob)
    → record_job e k s ≡ (accepted j, t)
    → j ≡ public k
unfolding record_job
record_job-accepted e k s t j h = elim (Option-cases (write_submitted e k s.db)) [
  | inl unwritten ↦ absurd (ground (arith, h, unwritten))
  | inr (db, done) ↦ ground (arith, h, done)
]

admit_new-accepted :
    (e : Env) (r : Request) (s t : Store) (j : PublicJob)
    → admit_new e r s ≡ (accepted j, t)
    → j ≡ public (new_job e r s)
unfolding admit_new
admit_new-accepted e r s t j h = record_job-accepted e (new_job e r s) s t j (ground (arith, h))

count_refusal-accepted :
    (o : String) (x : Reply × Store) (t : Store) (j : PublicJob)
    → count_refusal o x ≡ (accepted j, t)
    → x ≡ (accepted j, t)
unfolding count_refusal
count_refusal-accepted o (refused (capacity_error n), s) t j h = absurd (ground (arith, h))
count_refusal-accepted o (refused value_error, s) t j h = absurd (ground (arith, h))
count_refusal-accepted o (refused overflow_error, s) t j h = absurd (ground (arith, h))
count_refusal-accepted o (refused draining_error, s) t j h = absurd (ground (arith, h))
count_refusal-accepted o (refused key_error, s) t j h = absurd (ground (arith, h))
count_refusal-accepted o (accepted k, s) t j h = h

-- A submission without a key that is accepted makes a new job.
submit_valid-accepted :
    (e : Env) (r : Request) (s t : Store) (j : PublicJob)
    → r.key ≡ none
    → submit_valid e r s ≡ (accepted j, t)
    → j ≡ public (new_job e r (expire e s))
unfolding submit_valid accept accept_open known
submit_valid-accepted e r s t j unkeyed h =
    admit_new-accepted e r (expire e s) t j
      (ground (arith, count_refusal-accepted r.owner (accept e r s) t j h, unkeyed))

checked-asked :
    (settings : Settings) (task : String) (payload : Value) (timeout_ms : ℕ) (owner : String)
    (r : Request)
    → checked settings (str task) payload (int timeout_ms) null owner ≡ some r
    → (r.task ≡ task) × (r.timeout_ms ≡ timeout_ms) × (r.key ≡ none)
unfolding checked checked_task request_of timeout_of_value key_of_value
checked-asked settings task payload timeout_ms owner r h =
    elim (Option-cases (validate task payload settings.test_tasks)) [
      | inl invalid ↦ absurd (ground (arith, h, invalid))
      | inr (p, valid) ↦ ground (arith, h, valid)
    ]

known-is_name :
    (test_tasks : Bool) (task : String)
    → contains (task_names test_tasks) task ≡ true
    → is_name (some (str task)) ≡ true
unfolding is_name
known-is_name true String.[] h = absurd (ground (arith, h))
known-is_name false String.[] h = absurd (ground (arith, h))
known-is_name test_tasks (String.◌∷◌ c s) h = ground arith

fresh-submitted :
    (name task : String) (timeout_ms : ℕ)
    → is_job_id name ≡ true
    → is_name (some (str task)) ≡ true
    → 100 ≤ timeout_ms
    → timeout_ms ≤ 300000
    → submitted task timeout_ms (ok (job_body (fresh name task timeout_ms)))
      ≡ ok (job_body (fresh name task timeout_ms))
unfolding submitted job_ok id_ok status_in timeout_ok error_ok progress_ok field whole text_is
fresh-submitted name task timeout_ms named known lo hi =
    ground (arith, named, known, lo, hi, string_beq_iff task task)

expire-instance : (e : Env) (s : Store) → (expire e s).instance_id ≡ s.instance_id
unfolding expire
expire-instance e s = ap (λ b. b.settings.instance_id) (delete_expired-book e _ _)

-- With a well-formed instance name or none, and 32 hexadecimal digits from the system: the answer of the
-- service to a submission without an idempotency key that it accepts is one that the client takes for the
-- task and the deadline that it asked for.
pub submitted-submit :
    (e : Env) (task : String) (payload : Value) (timeout_ms : ℕ) (owner : String) (s t : Store)
    (j : PublicJob)
    → InstanceOk s.instance_id
    → is_hex32 (codes e.uuid) ≡ true
    → submit e (str task) payload (int timeout_ms) null owner s ≡ (accepted j, t)
    → submitted task timeout_ms (ok (job_body j)) ≡ ok (job_body j)
unfolding submit new_job public
submitted-submit e task payload timeout_ms owner s t j instance_ok hex h =
    elim (Option-cases (checked s.settings (str task) payload (int timeout_ms) null owner)) [
      | inl refuses ↦ absurd (ground (arith, h, refuses))
      | inr (r, passes) ↦
          let asks = checked-asked s.settings task payload timeout_ms owner r passes in
          let good =
            checked-IsChecked s.settings (str task) payload (int timeout_ms) null owner r passes in
          let made : j ≡ public (new_job e r (expire e s)) =
            submit_valid-accepted e r s t j asks.2 (ground (arith, h, passes)) in
          let same : fresh (job_name e (expire e s)) task timeout_ms ≡ j =
            ap (λ n. fresh (job_name e (expire e s)) n timeout_ms) (sym asks.0)
            ∙ ap (fresh (job_name e (expire e s)) r.task) (sym asks.1)
            ∙ sym made in
          subst (λ k. submitted task timeout_ms (ok (job_body k)) ≡ ok (job_body k)) same
            (fresh-submitted (job_name e (expire e s)) task timeout_ms
              (job_name-is_job_id e (expire e s)
                (subst InstanceOk (sym (expire-instance e s)) instance_ok) hex)
              (subst (λ n. is_name (some (str n)) ≡ true) asks.0
                (known-is_name s.test_tasks r.task good.known_task))
              (omega (arith, good.timeout_low, asks.1)) (omega (arith, good.timeout_high, asks.1)))
    ]
