-- ===== src/Jobs/Dispatch.antt =====
-- Giving queued jobs to children: `_attach`, `_dispatch` and the end of `_send`.
pub mod Laws
pub mod Queues
use php_python_ai_bridge.Base.{
  ℕ, zero, suc, ◌+◌, Bool, true, false, not, ◌&&◌, List, [], ◌∷◌, ◌++◌, Option, none, some, String,
  ◌==◌, string_eq, nat_eq, if◌then◌else◌, is_some, lookup, insert, find_first, length, ltb, discard,
}
use php_python_ai_bridge.Json.{Value}
use php_python_ai_bridge.Jobs.Types.{Job, Env, Store, Worker}
use php_python_ai_bridge.Jobs.Finish.{set_worker, retire}

-- What is sent to a child: `(worker, (id, task, input))`.
pub record Send : Type 0 where
  pub child : ℕ
  pub id : String
  pub task : String
  pub input : Option Value

pub is_idle : Worker → Bool
is_idle x = x.ready && not (is_some x.job_id)

abbrev pub idle_child : Store → Option ℕ
idle_child s = find_first (λ w. is_idle (s.workers w)) s.pool

unfoldable pub attach_to : Job → ℕ → Store → Send × Store
unfolding set_worker
attach_to j w s =
    let x = s.workers w in
    (
      record { child = w; id = j.id; task = j.task; input = j.input },
      record s {
        workers =
            set_worker w (record x { job_id = some j.id; served = x.served + 1; sending = true })
              s.workers;
        active = insert j.id w s.active;
      },
    )

-- `_attach(job)`.
unfoldable pub attach : Job → Store → Option (Send × Store)
attach j s = elim (idle_child s) [ none ↦ none | some w ↦ some (attach_to j w s) ]

-- One owner's queue, which holds the job `first` and those behind it.
pub record Queue : Type 0 where
  pub owner : String
  pub first : Job
  pub rest : List Job

-- `queues.setdefault(owner, deque()).append(job)`.
pub enqueue : Job → List Queue → List Queue
enqueue j [] = record { owner = j.owner; first = j; rest = [] } ∷ []
enqueue j (q ∷ qs) =
    if q.owner == j.owner then record q { rest = q.rest ++ (j ∷ []) } ∷ qs else q ∷ enqueue j qs

pub enqueue_all : List Job → List Queue → List Queue
enqueue_all [] qs = qs
enqueue_all (j ∷ js) qs = enqueue_all js (enqueue j qs)

-- `self._served.get(name, -1)`, one higher.
unfoldable pub turn : List (String × ℕ) → String → ℕ
turn served o = elim (lookup o served) [ none ↦ 0 | some n ↦ n + 1 ]

-- `min(queues, key=...)`: the first of the least.
pub least : List (String × ℕ) → Queue → List Queue → Queue
least served q [] = q
least served q (p ∷ ps) =
    least served (if ltb (turn served p.owner) (turn served q.owner) then p else q) ps

pub shorten : Queue → List Queue
shorten q = elim q.rest [ [] ↦ [] | j ∷ js ↦ record { owner = q.owner; first = j; rest = js } ∷ [] ]

-- `queues[owner].popleft()`, and `del queues[owner]` if nothing is left.
pub pop_queue : String → List Queue → List Queue
unfolding shorten
pop_queue o [] = []
pop_queue o (q ∷ qs) = if q.owner == o then shorten q ++ qs else q ∷ pop_queue o qs

unfoldable pub serve : String → Store → Store
serve o s = record s {
  dispatched = s.dispatched + 1;
  served = insert o (s.dispatched + 1) s.served;
}

-- The `while queues` loop; each round takes one job, so `fuel` is the number of jobs that wait.
unfoldable pub dispatch_loop : ℕ → List Queue → Store → List Send × Store
dispatch_loop zero qs s = ([], s)
dispatch_loop (suc fuel) [] s = ([], s)
dispatch_loop (suc fuel) (q ∷ qs) s =
    let chosen = least s.served q qs in
    elim (attach chosen.first s) [
      | none ↦ ([], s)
      | some (sent, t) ↦
          let (more, u) =
            dispatch_loop fuel (pop_queue chosen.owner (q ∷ qs)) (serve chosen.owner t) in
          (sent ∷ more, u)
    ]

-- `_dispatch(waiting)`.
unfoldable pub dispatch : List Job → Store → List Send × Store
dispatch waiting s = dispatch_loop (length waiting) (enqueue_all waiting []) s

-- `_send` once the pipe has taken the message, or has failed.
unfoldable pub sent : Env → ℕ → (failed : Bool) → Store → Store
unfolding set_worker
sent e w failed s =
    let t = record s {
      workers = set_worker w (record (s.workers w) { sending = false }) s.workers;
    } in
    if is_some (s.workers w).retired_at
    then record t {
      workers = set_worker w (record (s.workers w) { sending = false; closed = true }) s.workers;
    }
    else if failed
    then retire e w false false t
    else t
