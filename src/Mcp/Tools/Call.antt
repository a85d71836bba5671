-- ===== src/Mcp/Tools/Call.antt =====
-- `run` of `build_server` in mcp_server/bridge_mcp/tools.py: the wait for a worker at capacity. What
-- `Bridge.run` answers, the time it takes and the jitter are arguments. Times are whole milliseconds.
pub mod Laws
use php_python_ai_bridge.Base.{
  ℕ, zero, suc, ◌+◌, ◌-◌, ◌*◌, min, max, Bool, true, false, List, [], ◌∷◌, Option, none, some,
  String, ◌==◌, nat_eq,
}
use php_python_ai_bridge.Json.{Value}

-- What `bridge.run` does: it returns, is refused for lack of capacity, perhaps with a Retry-After in
-- seconds, or fails in another way.
pub data Answer : Type 0 where
  returns : Value → Answer
  at_capacity : Option ℕ → Answer
  fails : String → Answer

-- One turn: the answer, the time until it is there, and the pause that the jitter makes of one.
pub record Turn : Type 0 where
  pub answer : Answer
  pub took : ℕ
  pub jitter : ℕ → ℕ

pub data Outcome : Type 0 where
  returned : Value → Outcome
  tool_error : String → Outcome
  stayed_at_capacity unending : Outcome

-- `CAPACITY_PAUSE_S`, `CAPACITY_MAX_PAUSE_S` and `CAPACITY_LAST_S`.
abbrev pub capacity_pause : ℕ
capacity_pause = 250

abbrev capacity_max_pause : ℕ
capacity_max_pause = 5000

abbrev pub capacity_last : ℕ
capacity_last = 1000

-- The wait that is wanted, and the next pause.
unfoldable pub wanted : Turn → Option ℕ → ℕ → ℕ
wanted turn none pause = turn.jitter pause
wanted turn (some retry_after) pause = max (retry_after * 1000) capacity_pause

unfoldable pub next_pause : Option ℕ → ℕ → ℕ
next_pause none pause = min (pause * 2) capacity_max_pause
next_pause (some retry_after) pause = pause

-- The wait, which is 0 where the source's is not above 0.
abbrev pub wait_of : ℕ → ℕ → ℕ → ℕ
wait_of want deadline now = min want (deadline - (now + capacity_last))

-- The loop from turn `n` on, on fuel: how it ends, and when it begins each of its jobs.
unfoldable pub run_loop : ℕ → (ℕ → Turn) → ℕ → ℕ → ℕ → ℕ → Outcome × List ℕ
unfolding wanted next_pause
run_loop zero world n now pause deadline = (unending, [])
run_loop (suc fuel) world n now pause deadline = elim (world n).answer [
  | returns value ↦ (returned value, now ∷ [])
  | fails code ↦ (tool_error code, now ∷ [])
  | at_capacity retry_after ↦
      let later = now + (world n).took in
      let wait = wait_of (wanted (world n) retry_after pause) deadline later in
      elim (wait == 0) [
        | true ↦ (stayed_at_capacity, now ∷ [])
        | false ↦
            let rest =
              run_loop fuel world (n + 1) (later + wait) (next_pause retry_after pause) deadline in
            (rest.0, now ∷ rest.1)
      ]
]

-- `run(task, payload, ctx, deadline)`, called at `now`.
unfoldable pub run : ℕ → (ℕ → Turn) → ℕ → ℕ → Outcome × List ℕ
unfolding run_loop
run fuel world now deadline = run_loop fuel world 0 now capacity_pause deadline
