-- ===== src/Mcp/Tools/Call/Laws.antt =====
-- The wait of a tool of mcp_server/bridge_mcp/tools.py for a worker at capacity ends.
use php_python_ai_bridge.Base.{
  ℕ, zero, suc, ◌+◌, ◌-◌, ◌*◌, ◌/◌, ◌≡◌, ◌≤◌, refl, Bool, true, false, List, [], ◌∷◌, Option, none,
  some, ◌==◌, nat_eq, All, arith, elim_ind,
}
use php_python_ai_bridge.Mcp.Tools.Call.{
  Answer, returns, at_capacity, fails, Turn, Outcome, returned, tool_error, stayed_at_capacity,
  unending, wanted, next_pause, wait_of, run_loop, run, capacity_last, capacity_pause,
}

abbrev pub is_unending : Outcome → Bool
is_unending unending = true
is_unending _ = false

-- `random.uniform(0.5, 1.0)` of the pause.
abbrev HasJitter : Turn → Type 0
HasJitter turn = (p : ℕ) → (p ≤ 2 * turn.jitter p) × (turn.jitter p ≤ p)

-- What a run that begins at `start` comes to: it ends, and begins each job but the first while a second
-- of the call is left.
abbrev pub EndsInTime : ℕ → ℕ → Outcome × List ℕ → Type 0
EndsInTime deadline start (outcome, []) = ⊥
EndsInTime deadline start (outcome, first ∷ starts) =
    (is_unending outcome ≡ false) × (first ≡ start) × All (λ s. s + capacity_last ≤ deadline) starts

module _ (world : ℕ → Turn) (jitter : (n : ℕ) → HasJitter (world n)) (deadline : ℕ) where
  wanted-ge :
      (n : ℕ) (retry_after : Option ℕ) (pause : ℕ)
      → 250 ≤ pause
      → 125 ≤ wanted (world n) retry_after pause
  unfolding wanted
  wanted-ge n none pause h = omega (arith, h, (jitter n pause).0)
  wanted-ge n (some retry_after) pause h = omega arith

  next_pause-ge :
      (retry_after : Option ℕ) (pause : ℕ) → 250 ≤ pause → 250 ≤ next_pause retry_after pause
  unfolding next_pause
  next_pause-ge none pause h = omega (arith, h)
  next_pause-ge (some retry_after) pause h = h

  EndsInTime-also :
      (now start : ℕ) (rest : Outcome × List ℕ)
      → start + capacity_last ≤ deadline
      → EndsInTime deadline start rest
      → EndsInTime deadline now (rest.0, now ∷ rest.1)
  EndsInTime-also now start (outcome, []) h k = absurd k
  EndsInTime-also now start (outcome, s ∷ starts) h k = (k.0, refl, (omega (arith, h, k.1), k.2))

  -- Turns that are enough from a time on.
  abbrev turns : ℕ → ℕ
  turns now = (deadline - (now + capacity_last) + 124) / 125 + 1

  wait-turns :
      (want now later fuel : ℕ)
      → 125 ≤ want
      → now ≤ later
      → ¬ (wait_of want deadline later ≡ 0)
      → turns now ≤ suc fuel
      → (turns (later + wait_of want deadline later) ≤ fuel)
        × (later + wait_of want deadline later + capacity_last ≤ deadline)
  wait-turns want now later fuel h le some_wait enough = omega (arith, h, le, some_wait, enough)

  answer-EndsInTime :
      (fuel n now pause : ℕ) (answer : Answer)
      → 250 ≤ pause
      → turns now ≤ suc fuel
      → ((start next : ℕ)
          → 250 ≤ next
          → turns start ≤ fuel
          → EndsInTime deadline start (run_loop fuel world (n + 1) start next deadline))
      → EndsInTime deadline now (elim answer [
        | returns value ↦ (returned value, now ∷ [])
        | fails code ↦ (tool_error code, now ∷ [])
        | at_capacity retry_after ↦
            let later = now + (world n).took in
            let wait = wait_of (wanted (world n) retry_after pause) deadline later in
            elim (wait == 0) [
              | true ↦ (stayed_at_capacity, now ∷ [])
              | false ↦
                  let rest =
                    run_loop fuel world
                      (n + 1)
                      (later + wait)
                      (next_pause retry_after pause)
                      deadline in
                  (rest.0, now ∷ rest.1)
            ]
      ])
  answer-EndsInTime fuel n now pause (returns value) h f ih = (refl, refl, tt)
  answer-EndsInTime fuel n now pause (fails code) h f ih = (refl, refl, tt)
  answer-EndsInTime fuel n now pause (at_capacity retry_after) h f ih =
      let later = now + (world n).took in
      let want = wanted (world n) retry_after pause in
      elim_ind (EndsInTime deadline now) (wait_of want deadline later == 0)
        (λ over. (refl, refl, tt))
        (λ goes_on.
          let next =
            wait-turns want now later fuel (wanted-ge n retry_after pause h) (omega arith)
              (ground (arith, goes_on)) f in
          EndsInTime-also now _ _ next.1 (ih _ _ (next_pause-ge retry_after pause h) next.0))

  run_loop-EndsInTime :
      (fuel n now pause : ℕ)
      → 250 ≤ pause
      → turns now ≤ fuel
      → EndsInTime deadline now (run_loop fuel world n now pause deadline)
  unfolding run_loop
  run_loop-EndsInTime zero n now pause h f = absurd (omega (arith, f))
  run_loop-EndsInTime (suc fuel) n now pause h f =
      answer-EndsInTime fuel n now pause (world n).answer h f
        (λ start next g e. run_loop-EndsInTime fuel (n + 1) start next g e)

-- For a jitter from half a pause to the pause: with one turn for each 125 milliseconds of the call, and one
-- more, the call of a tool ends, whatever the worker answers and however long it takes; its first job begins
-- at once, and each later one while a second of the call is left.
pub run_ends :
    (world : ℕ → Turn) (now deadline fuel : ℕ)
    → ((n : ℕ) → HasJitter (world n))
    → (deadline - now) / 125 + 1 ≤ fuel
    → EndsInTime deadline now (run fuel world now deadline)
unfolding run
run_ends world now deadline fuel jitter enough =
    run_loop-EndsInTime world jitter deadline fuel 0 now capacity_pause (omega arith)
      (omega (arith, enough))
