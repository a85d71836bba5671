-- ===== src/Mcp/Run/Laws.antt =====
-- `Bridge.run`: when it ends, and when it cancels.
use php_python_ai_bridge.Base.{
  ℕ, zero, suc, ◌+◌, ◌≡◌, ◌≤◌, ◌<◌, refl, sym, ap, inl, inr, Bool, true, false, List, String, arith,
  count, Option-cases, min, if◌then◌else◌, if_ind, subst,
}
use php_python_ai_bridge.Jobs.Types.{PublicJob, is_terminal}
use php_python_ai_bridge.Mcp.Run.{
  remote_timeout, Turn, Call, gets, cancels, Outcome, returned, task_failed_with, wait_timeout,
  interrupted, unending, outcome_of, checked, wait,
}

abbrev pub is_cancel : Call → Bool
is_cancel (gets i) = false
is_cancel (cancels i) = true

-- The wait was given up: by its own deadline, or by anything that raised.
abbrev pub is_abandoned : Outcome → Bool
is_abandoned wait_timeout = true
is_abandoned interrupted = true
is_abandoned (returned v) = false
is_abandoned (task_failed_with s e) = false
is_abandoned unending = false

abbrev pub is_unending : Outcome → Bool
is_unending unending = true
is_unending wait_timeout = false
is_unending interrupted = false
is_unending (returned v) = false
is_unending (task_failed_with s e) = false

outcome_of-plain :
    (j : PublicJob) → (is_abandoned (outcome_of j) ≡ false) × (is_unending (outcome_of j) ≡ false)
unfolding outcome_of
outcome_of-plain j = ground arith

abbrev CancelsOnce : Outcome × List Call → Type 0
CancelsOnce r = count is_cancel r.1 ≡ (if is_abandoned r.0 then 1 else 0)

-- However many turns a wait has had, it has asked for exactly one cancellation if it was given up,
-- and for none if it ended with the job's own outcome or is still going on.
pub wait-count :
    (fuel : ℕ) (world : ℕ → Turn) (n : ℕ) (i : String)
    → count is_cancel (wait fuel world n i).1
      ≡ (if is_abandoned (wait fuel world n i).0 then 1 else 0)
unfolding wait
wait-count zero world n i = refl
wait-count (suc fuel) world n i = elim (Option-cases (checked i (world n).answer)) [
  | inl fails ↦ rw (fails, wait) refl
  | inr (j, here_j) ↦
      rw (here_j, wait)
        (if_ind CancelsOnce (is_terminal j.status)
          (λ _. ap (λ b. if b then 1 else 0) (sym (outcome_of-plain j).0))
          λ _.
            if_ind CancelsOnce (world n).late (λ _. refl)
              (λ _. ground (arith, wait-count fuel world (n + 1) i)))
]

abbrev Ends : Outcome × List Call → Type 0
Ends r = is_unending r.0 ≡ false

wait-Ends :
    (fuel : ℕ) (world : ℕ → Turn) (n : ℕ) (i : String)
    → ((world n).late ≡ false → Ends (wait fuel world (n + 1) i))
    → Ends (wait (suc fuel) world n i)
unfolding wait
wait-Ends fuel world n i later = elim (Option-cases (checked i (world n).answer)) [
  | inl fails ↦ rw (fails, wait) refl
  | inr (j, here_j) ↦
      rw (here_j, wait)
        (if_ind Ends (is_terminal j.status) (λ _. (outcome_of-plain j).1)
          λ _. if_ind Ends (world n).late (λ _. refl) (λ early. later early))
]

-- A wait whose deadline has passed at some turn has ended by then, whatever the worker answers.
pub wait_ends :
    (fuel : ℕ) (world : ℕ → Turn) (n k : ℕ) (i : String)
    → k < fuel
    → (world (n + k)).late ≡ true
    → is_unending (wait fuel world n i).0 ≡ false
wait_ends zero world n k i short late = absurd (omega (arith, short))
wait_ends (suc fuel) world n zero i short late =
    let same : n + zero ≡ n = omega arith in
    wait-Ends fuel world n i
      (λ early. absurd (ground (arith, early, subst (λ m. (world m).late ≡ true) same late)))
wait_ends (suc fuel) world n (suc k) i short late =
    let same : n + suc k ≡ n + 1 + k = omega arith in
    wait-Ends fuel world n i (λ _.
      wait_ends fuel world (n + 1) k i (omega (arith, short))
        (subst (λ m. (world m).late ≡ true) same late))

-- The deadline that the worker is given lies within the bounds that it accepts, and two seconds
-- behind the local deadline, or behind 298 seconds if that is less.
remote_timeout-le :
    (deadline_ms : ℕ)
    → (100 ≤ remote_timeout deadline_ms)
      × (remote_timeout deadline_ms ≤ 300000)
      × (remote_timeout deadline_ms ≡ min deadline_ms 298000 + 2000)
unfolding remote_timeout
remote_timeout-le d = (omega arith, omega arith, omega arith)
