-- ===== src/Jobs/Submit/Wait.antt =====
-- How long a refused client is told to wait: `_retry_after`, and the estimate of `_accept`.
use php_python_ai_bridge.Base.{
  ℕ, ◌+◌, ◌-◌, ◌*◌, ◌/◌, ◌%◌, min, max, Bool, true, List, [], ◌∷◌, Option, none, some, String, ◌==◌,
  string_eq, nat_eq, if◌then◌else◌, length, leb, drop,
}
use php_python_ai_bridge.Base.Sort.{sort}
use php_python_ai_bridge.Jobs.Types.{Job, Env, Store}

unfoldable pub of_owner : Option String → Job → Bool
of_owner none j = true
of_owner (some o) j = j.owner == o

unfoldable pub finish_times : Option String → List Job → List ℕ
unfolding of_owner
finish_times o [] = []
finish_times o (j ∷ js) =
    let rest = finish_times o js in
    elim j.finished [ none ↦ rest | some f ↦ if of_owner o j then f ∷ rest else rest ]

unfoldable pub earliest : ℕ → List ℕ → ℕ
earliest f [] = f
earliest f (g ∷ gs) = earliest (min f g) gs

-- Whole seconds, rounded up, from milliseconds.
unfoldable pub ceil_seconds : ℕ → ℕ
ceil_seconds ms = (ms + 999) / 1000

unfoldable pub seconds_left : Env → ℕ → List ℕ → ℕ
unfolding earliest ceil_seconds
seconds_left e retention [] = 1
seconds_left e retention (f ∷ fs) = max 1 (ceil_seconds (earliest f fs + retention - e.now))

-- `_retry_after(owner)`.
unfoldable pub retry_after : Env → Option String → Store → ℕ
unfolding finish_times seconds_left
retry_after e o s = seconds_left e s.retention (finish_times o s.jobs)

nth : List ℕ → ℕ → ℕ
nth l n = elim (drop n l) [ [] ↦ 0 | x ∷ xs ↦ x ]

-- Twice `statistics.median`.
twice_median : List ℕ → ℕ
unfolding sort nth
twice_median l =
    let sorted = sort leb l in
    let half = length l / 2 in
    if length l % 2 == 1 then 2 * nth sorted half else nth sorted (half - 1) + nth sorted half

-- `math.ceil(active / concurrency * median)`, with the durations in milliseconds.
unfoldable pub queue_seconds : ℕ → ℕ → List ℕ → ℕ
unfolding twice_median
queue_seconds active concurrency [] = 1
queue_seconds active concurrency (x ∷ xs) =
    (active * twice_median (x ∷ xs) + (2000 * concurrency - 1)) / (2000 * concurrency)
