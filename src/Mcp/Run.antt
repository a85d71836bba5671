-- ===== src/Mcp/Run.antt =====
-- `Bridge.run` of mcp_server/bridge_mcp/protocol.py. What the worker and the clock answer at each turn of
-- the loop is an argument; progress calls are left out. Times are whole milliseconds.
pub mod Laws
use php_python_ai_bridge.Base.{
  ℕ, zero, suc, ◌+◌, min, max, Bool, true, false, not, List, [], ◌∷◌, Option, none, some, String,
  ◌==◌, string_eq, if◌then◌else◌,
}
use php_python_ai_bridge.Json.{Value}
use php_python_ai_bridge.Jobs.Types.{PublicJob, Status, succeeded, ErrorCode, is_terminal}

-- `max(100, min(300000, int(deadline_s * 1000) + 2000))`.
pub remote_timeout : ℕ → ℕ
remote_timeout deadline_ms = max 100 (min 300000 (deadline_ms + 2000))

-- What `get` has to work with: a job that passes the checks on its fields, or anything that raises.
pub data Answer : Type 0 where
  failed_call : Answer
  answered : PublicJob → Answer

-- One turn: the answer, and whether the deadline has passed after it.
pub record Turn : Type 0 where
  pub answer : Answer
  pub late : Bool

pub data Call : Type 0 where
  gets cancels : String → Call

-- `unending` stands for a wait that is still going on after the turns looked at.
pub data Outcome : Type 0 where
  returned : Option Value → Outcome
  task_failed_with : Status → Option ErrorCode → Outcome
  wait_timeout interrupted unending : Outcome

-- The end of `run`, for a job in a terminal state.
pub outcome_of : PublicJob → Outcome
outcome_of j = elim j.status [
  | succeeded ↦ returned j.result
  | _ ↦ task_failed_with j.status j.error
]

-- `get` refuses the answer for another job.
unfoldable pub checked : String → Answer → Option PublicJob
checked i failed_call = none
checked i (answered j) = if j.id == i then some j else none

-- The loop from turn `n` on: how it ends, and what it asks of the worker. Leaving it by an exception
-- cancels the job.
unfoldable pub wait : ℕ → (ℕ → Turn) → ℕ → String → Outcome × List Call
wait zero world n i = (unending, [])
wait (suc fuel) world n i = elim (checked i (world n).answer) [
  | none ↦ (interrupted, gets i ∷ cancels i ∷ [])
  | some j ↦
      let (outcome, calls) = wait fuel world (n + 1) i in
      if is_terminal j.status
      then (outcome_of j, gets i ∷ [])
      else if (world n).late
      then (wait_timeout, gets i ∷ cancels i ∷ [])
      else (outcome, gets i ∷ calls)
]
