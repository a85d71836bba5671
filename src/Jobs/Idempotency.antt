-- ===== src/Jobs/Idempotency.antt =====
-- Repeated submissions: `_accept` with a key that is known.
use php_python_ai_bridge.Base.{
  ◌≡◌, ◌≢◌, refl, false, inl, inr, List, [], ◌∷◌, Option, none, some, String, arith, Bool-cases,
  Option-cases, if_ind, if_false, subst, ap, ◌∙◌, All, string_eq, ◌==◌, pair_eq, leb, length, ◌-◌,
}
use php_python_ai_bridge.Jobs.Types.{Job, Book, Store, Env}
use php_python_ai_bridge.Jobs.Table.{find}
use php_python_ai_bridge.Jobs.Steps.{known}
use php_python_ai_bridge.Jobs.Db.{write_submitted}
use php_python_ai_bridge.Jobs.Invariants.{IsSound}
use php_python_ai_bridge.Jobs.Keys.{KeysMatch, IsIndexed, Steps-KeysMatch}
use php_python_ai_bridge.Jobs.Submit.{
  Request, Reply, accepted, refused, key_error, capacity_error, value_error, overflow_error,
  draining_error, public, expire, accept, accept_open, answer, admit_new, record_job, new_job,
  owner_full, count_refusal, submit_valid, active_count,
}
use php_python_ai_bridge.Jobs.Submit.Trace.{expire-Steps}

pub All-find {κ} :
    (P : Job → Type κ) (i : String) (js : List Job) (j : Job) → All P js → find i js ≡ some j → P j
unfolding find
All-find P i [] j h f = absurd (ground arith)
All-find P i (k ∷ js) j h f = elim (Bool-cases (k.id == i)) [
  | inl same ↦ let is_j : k ≡ j = ground arith in subst P is_j h.0
  | inr other ↦ All-find P i js j h.1 (ground arith)
]

accept_awake :
    (e : Env) (r : Request) (s : Store)
    → s.draining ≡ false
    → s.stopping ≡ false
    → accept e r s ≡ accept_open e r (expire e s)
unfolding accept
accept_awake e r s awake running = if_false s.draining _ _ awake ∙ if_false s.stopping _ _ running

accept_known :
    (e : Env) (r : Request) (s : Store) (j : Job)
    → known r.owner r.key s.keys ≡ some j.id
    → find j.id s.jobs ≡ some j
    → accept_open e r s ≡ (accepted (public j), s)
unfolding accept_open answer
accept_known e r s j named found = rw (named, accept_open) (rw (found, answer) refl)

known_indexed :
    (r : Request) (b : Book) (j : Job) (k : String)
    → KeysMatch b
    → find j.id b.jobs ≡ some j
    → j.key ≡ some k
    → r.key ≡ some k
    → r.owner ≡ j.owner
    → known r.owner r.key b.keys ≡ some j.id
unfolding known
known_indexed r b j k m found keyed asked mine = cc (
  ap (λ o. known o r.key b.keys) mine,
  ap (λ q. known j.owner q b.keys) asked,
  All-find (IsIndexed b.keys) j.id b.jobs j m.indexed found k keyed,
)

-- In a sound store whose keys match, and that neither drains nor stops, a submission under a key
-- whose job is still retained for that owner is answered with that job, also at capacity: no job is
-- added, and nothing is counted as submitted or refused.
pub submit_again :
    (e : Env) (r : Request) (s : Store) (k : String) (j : Job)
    → IsSound s.book
    → KeysMatch s.book
    → s.draining ≡ false
    → s.stopping ≡ false
    → find j.id (expire e s).jobs ≡ some j
    → j.key ≡ some k
    → r.key ≡ some k
    → r.owner ≡ j.owner
    → submit_valid e r s ≡ (accepted (public j), expire e s)
unfolding submit_valid count_refusal
submit_again e r s k j sound keys awake running found keyed asked mine =
    let now = Steps-KeysMatch (expire-Steps e s) sound keys in
    ap (count_refusal r.owner) (
      accept_awake e r s awake running
      ∙ accept_known e r (expire e s) j
          (known_indexed r (expire e s).book j k now found keyed asked mine) found)

abbrev NoKeyError : Reply × Store → Type 0
NoKeyError r = r.0 ≢ refused key_error

count_refusal-NoKeyError :
    (o : String) (r : Reply × Store) → NoKeyError r → NoKeyError (count_refusal o r)
unfolding count_refusal
count_refusal-NoKeyError o (accepted j, t) h = h
count_refusal-NoKeyError o (refused (capacity_error n), t) h = h
count_refusal-NoKeyError o (refused value_error, t) h = h
count_refusal-NoKeyError o (refused overflow_error, t) h = h
count_refusal-NoKeyError o (refused draining_error, t) h = h
count_refusal-NoKeyError o (refused key_error, t) h = h

record_job-NoKeyError : (e : Env) (j : Job) (s : Store) → NoKeyError (record_job e j s)
unfolding record_job
record_job-NoKeyError e j s = elim (Option-cases (write_submitted e j s.db)) [
  | inl lost ↦ rw (lost, record_job) (λ h. cc)
  | inr (db, written) ↦ rw (written, record_job) (λ h. cc)
]

admit_new-NoKeyError : (e : Env) (r : Request) (s : Store) → NoKeyError (admit_new e r s)
unfolding admit_new
admit_new-NoKeyError e r s =
    if_ind NoKeyError (owner_full r.owner s) (λ _ h. cc)
      λ _.
        if_ind NoKeyError (leb s.capacity (active_count s.jobs)) (λ _ h. cc)
          λ _.
            if_ind NoKeyError (leb s.result_capacity (length s.jobs - active_count s.jobs))
              (λ _ h. cc) λ _. record_job-NoKeyError e (new_job e r s) s

pub known_held :
    (o : String) (k : Option String) (b : Book) (i : String)
    → KeysMatch b
    → known o k b.keys ≡ some i
    → (j : Job) × (find i b.jobs ≡ some j)
unfolding known
known_held o none b i m h = absurd (ground arith)
known_held o (some k) b i m h = let held = m.names o k i h in (held.job, held.found)

accept_open-NoKeyError :
    (e : Env) (r : Request) (s : Store) → KeysMatch s.book → NoKeyError (accept_open e r s)
unfolding accept_open answer
accept_open-NoKeyError e r s m = elim (Option-cases (known r.owner r.key s.keys)) [
  | inl first ↦ rw (first, accept_open) (admit_new-NoKeyError e r s)
  | inr (i, named) ↦
      let (j, found) = known_held r.owner r.key s.book i m named in
      rw (named, accept_open) (rw (found, answer) (λ h. cc))
]

-- In a sound store whose keys match, no submission fails because its key names a job that the table
-- lacks.
pub submit-ne-key_error :
    (e : Env) (r : Request) (s : Store)
    → IsSound s.book
    → KeysMatch s.book
    → (submit_valid e r s).0 ≢ refused key_error
unfolding submit_valid accept
submit-ne-key_error e r s sound keys = count_refusal-NoKeyError r.owner (accept e r s) (
    if_ind NoKeyError s.draining (λ _ h. cc)
      λ _.
        if_ind NoKeyError s.stopping (λ _ h. cc)
          λ _.
            accept_open-NoKeyError e r (expire e s) (Steps-KeysMatch (expire-Steps e s) sound keys))
