-- ===== src/Jobs/Reach.antt =====
-- The store as a state machine. One step is one critical section of an operation, or something that
-- the world does: a child sends a message, or dies. A history is any interleaving of steps.
use php_python_ai_bridge.Base.{ℕ, ◌≡◌, Bool, true, false, [], ◌∷◌, ◌++◌, Option, none, String}
use php_python_ai_bridge.Jobs.Types.{Env, Store, Message}
use php_python_ai_bridge.Jobs.Table.{find}
use php_python_ai_bridge.Jobs.Steps.{Steps, Steps-grows, here}
use php_python_ai_bridge.Jobs.Submit.{new_job, job_name, expire}
use php_python_ai_bridge.Jobs.Submit.Trace.{submit-Steps}
use php_python_ai_bridge.Json.{Value}
use php_python_ai_bridge.Jobs.Request.{submit}
use php_python_ai_bridge.Jobs.Request.Laws.{submit_ind}
use php_python_ai_bridge.Jobs.Listen.{on_worker}
use php_python_ai_bridge.Jobs.Dispatch.{sent}
use php_python_ai_bridge.Jobs.Service.{get, cancel, drain, coordinate, add_child, reap}
use php_python_ai_bridge.Jobs.Service.Trace.{
  get-Steps, cancel-Steps, drain-Steps, coordinate-Steps, sent-Steps, add_child-Steps, reap-Steps,
}
use php_python_ai_bridge.Jobs.Invariants.{IsSound, Steps-IsSound}
use php_python_ai_bridge.Jobs.Keys.{KeysMatch, Steps-KeysMatch}

unfoldable pub hear : ℕ → Message → Store → Store
unfolding on_worker
hear w m s = on_worker w (λ x. record x { inbox = x.inbox ++ (m ∷ []) }) s

unfoldable pub die : ℕ → Store → Store
unfolding on_worker
die w s = on_worker w (λ x. record x { alive = false }) s

-- `uuid4` gives an id that no job of the table has.
abbrev IsFresh : Env → Store → Type 0
IsFresh e s = find (job_name e (expire e s)) (expire e s).jobs ≡ none

pub data Move (s : Store) : Store → Type 0 where
  submits :
      (e : Env) (task payload timeout_ms key : Value) (o : String)
      → IsFresh e s
      → Move s (submit e task payload timeout_ms key o s).1
  gets : (e : Env) (i o : String) → Move s (get e i o s).1
  cancels : (e : Env) (i o : String) → Move s (cancel e i o s).1
  drains : (e : Env) → Move s (drain e s)
  coordinates : (e : Env) → Move s (coordinate e s).1
  sends : (e : Env) (w : ℕ) (lost : Bool) → Move s (sent e w lost s)
  starts : (e : Env) (w : Option ℕ) → Move s (add_child e w s)
  reaps : (e : Env) → Move s (reap e s)
  hears : (w : ℕ) (m : Message) → Move s (hear w m s)
  dies : (w : ℕ) → Move s (die w s)

pub data Reach (s : Store) : Store → Type 0 where
  start : Reach s s
  then_ : {t u : Store} → Reach s t → Move t u → Reach s u

Move-Steps : {s t : Store} → Move s t → Steps true s.book t.book
unfolding hear die new_job
Move-Steps {s} (submits e task payload timeout_ms key o fresh) =
    submit_ind (λ p. Steps true s.book p.1.book) e task payload timeout_ms key o s here here
      (λ r _ _. submit-Steps e r s fresh)
Move-Steps {s} (gets e i o) = Steps-grows (get-Steps e i o s)
Move-Steps {s} (cancels e i o) = Steps-grows (cancel-Steps e i o s)
Move-Steps {s} (drains e) = Steps-grows (drain-Steps e s)
Move-Steps {s} (coordinates e) = Steps-grows (coordinate-Steps e s)
Move-Steps {s} (sends e w lost) = Steps-grows (sent-Steps e w lost s)
Move-Steps {s} (starts e w) = Steps-grows (add_child-Steps e w s)
Move-Steps {s} (reaps e) = Steps-grows (reap-Steps e s)
Move-Steps {s} (hears w m) = here
Move-Steps {s} (dies w) = here

-- In every history that begins with a sound store, the job table stays sound: a job has an end time
-- exactly when its status is terminal, no id stands twice, and for each owner and task the jobs
-- submitted are those that ended, each counted under one terminal status, and those unfinished.
pub Reach-IsSound : {s t : Store} → Reach s t → IsSound s.book → IsSound t.book
Reach-IsSound start h = h
Reach-IsSound (then_ r m) h = Steps-IsSound (Move-Steps m) (Reach-IsSound r h)

-- In every history that begins with a sound store whose keys match, a key names the one retained
-- job that was submitted under it by that owner, and each retained job with a key is named by it.
pub Reach-KeysMatch :
    {s t : Store} → Reach s t → IsSound s.book → KeysMatch s.book → KeysMatch t.book
Reach-KeysMatch start h k = k
Reach-KeysMatch (then_ r m) h k =
    Steps-KeysMatch (Move-Steps m) (Reach-IsSound r h) (Reach-KeysMatch r h k)
