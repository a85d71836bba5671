-- ===== src/Jobs/Types.antt =====
-- The data of worker/ai_bridge/jobs.py: settings, jobs, children of the pool and the store.
-- Times are whole milliseconds. The monotonic clock is read from an origin so far back that no
-- reading of a restored job's finish lies before it.
use php_python_ai_bridge.Base.{ℕ, ◌≡◌, ◌↔◌, Bool, true, false, not, List, Option, String, Eq, arith}
use php_python_ai_bridge.Json.{Value}
use php_python_ai_bridge.Metrics.{Histogram}

pub data Status : Type 0 where
  queued running succeeded failed timed_out cancelled : Status

-- `status in TERMINAL`.
abbrev pub is_terminal : Status → Bool
is_terminal queued = false
is_terminal running = false
is_terminal succeeded = true
is_terminal failed = true
is_terminal timed_out = true
is_terminal cancelled = true

abbrev pub is_queued : Status → Bool
is_queued queued = true
is_queued running = false
is_queued succeeded = false
is_queued failed = false
is_queued timed_out = false
is_queued cancelled = false

abbrev pub status_beq : Status → Status → Bool
status_beq queued queued = true
status_beq running running = true
status_beq succeeded succeeded = true
status_beq failed failed = true
status_beq timed_out timed_out = true
status_beq cancelled cancelled = true
status_beq _ _ = false

-- The `code` of a job's error; its message is always "Task did not complete".
pub data ErrorCode : Type 0 where
  service_restarted worker_start_failed worker_crashed task_failed deadline_exceeded : ErrorCode

pub record Progress : Type 0 where
  pub completed : ℕ
  pub total : ℕ

pub record Job : Type 0 where
  pub id : String
  pub task : String
  pub status : Status
  pub result : Option Value
  pub error : Option ErrorCode
  pub progress : Option Progress
  pub timeout_ms : ℕ
  pub input : Option Value
  pub deadline : ℕ
  pub finished : Option ℕ
  pub retried : Bool
  pub key : Option String
  pub submitted_at : ℕ
  pub started_at : Option ℕ
  pub owner : String

-- What `_public` leaves of a job: the fields whose name has no underscore in front.
pub record PublicJob : Type 0 where
  pub id : String
  pub task : String
  pub status : Status
  pub result : Option Value
  pub error : Option ErrorCode
  pub progress : Option Progress
  pub timeout_ms : ℕ

abbrev pub unfinished : Job → Bool
unfinished j = not (is_terminal j.status)

-- What a child sends. `broken` is the end of the file, or what is not the protocol: `recv`, or
-- taking the message apart, raises.
pub data Message : Type 0 where
  ready loaded broken : Message
  started : String → Message
  progressed : String → Progress → Message
  finished_with : String → Value → Message
  errored : String → Message

-- `_Worker`, with the process and the pipe that it holds: whether the process is alive, what it
-- has sent and the parent has not read, and what the parent has done to it.
pub record Worker : Type 0 where
  pub started_at : ℕ
  pub ready : Bool
  pub loaded : Bool
  pub job_id : Option String
  pub sending : Bool
  pub served : ℕ
  pub retired_at : Option ℕ
  pub killed : Bool
  pub alive : Bool
  pub inbox : List Message
  pub told_to_stop : Bool
  pub terminated : Bool
  pub closed : Bool

pub record Settings : Type 0 where
  pub concurrency : ℕ
  pub capacity : ℕ
  pub result_capacity : ℕ
  pub retention : ℕ
  pub backend : String
  pub test_tasks : Bool
  pub max_jobs : ℕ
  pub owners : List String
  pub owner_capacity : Option ℕ
  pub instance_id : Option String

-- A row of the table `jobs` in SQLite. The JSON columns hold the values that they
-- encode; `owner` is NULL in a table from before there were owners.
pub record Row : Type 0 where
  pub id : String
  pub task : String
  pub status : Status
  pub result : Option Value
  pub error : Option ErrorCode
  pub progress : Option Progress
  pub timeout_ms : ℕ
  pub key : Option String
  pub submitted_at : ℕ
  pub finished_at : Option ℕ
  pub owner : Option String

-- The settings, the job table and the aggregates over it.
pub record Book : Type 0 where
  pub settings : Settings
  pub open settings use *
  pub jobs : List Job
  pub keys : List ((String × String) × String)
  pub ended : String → String → Status → ℕ
  pub submitted : String → String → ℕ
  pub rejected : String → ℕ
  pub durations : String → Histogram
  pub waits : String → Histogram
  pub recent : List ℕ

-- Children are numbered as they are created: `workers` is the heap of `_Worker` objects, and the
-- lists name those that are in the pool and those that are on their way out.
pub record Store : Type 0 where
  pub book : Book
  pub open book use *
  pub active : List (String × ℕ)
  pub served : List (String × ℕ)
  pub dispatched : ℕ
  pub pool : List ℕ
  pub retiring : List ℕ
  pub workers : ℕ → Worker
  pub backoff_until : ℕ
  pub stopping : Bool
  pub draining : Bool
  pub db : Option (List Row)

-- What the world answers within one critical section: the two clocks, whether SQLite carries a
-- write out, and the next `uuid4().hex`.
pub record Env : Type 0 where
  pub now : ℕ
  pub wall : ℕ
  pub db_ok : Bool
  pub uuid : String

pub status_beq_iff : (a b : Status) → (status_beq a b ≡ true) ↔ (a ≡ b)
status_beq_iff a b = ground arith

instance abbrev pub status_eq : Eq Status
status_eq = record { beq = status_beq; beq_iff = status_beq_iff }
