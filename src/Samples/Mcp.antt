-- ===== src/Samples/Mcp.antt =====
-- Examples of waits: a job that is running at first and never ends.
use php_python_ai_bridge.Base.{ℕ, ◌≡◌, refl, false, none, arith, count, leb, if◌then◌else◌}
use php_python_ai_bridge.Jobs.Types.{PublicJob, running}
use php_python_ai_bridge.Mcp.Run.{Turn, answered, wait, wait_timeout, checked}
use php_python_ai_bridge.Mcp.Run.Laws.{is_cancel, is_abandoned, is_unending, wait-count, wait_ends}

abbrev slow_job : PublicJob
slow_job = record {
  id = "j1";
  task = "embed";
  status = running;
  result = none;
  error = none;
  progress = none;
  timeout_ms = 5000;
}

-- The deadline passes at turn 3.
abbrev slow : ℕ → Turn
slow n = record { answer = answered slow_job; late = leb 3 n }

slow_test : (wait 5 slow 0 "j1").0 ≡ wait_timeout
unfolding wait checked
slow_test = refl

wait-count_example :
    count is_cancel (wait 5 slow 0 "j1").1 ≡ (if is_abandoned (wait 5 slow 0 "j1").0 then 1 else 0)
wait-count_example = wait-count 5 slow 0 "j1"

wait_ends_example : is_unending (wait 5 slow 0 "j1").0 ≡ false
wait_ends_example = wait_ends 5 slow 0 3 "j1" (omega arith) refl
