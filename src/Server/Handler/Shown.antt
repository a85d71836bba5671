-- ===== src/Server/Handler/Shown.antt =====
-- The job that a reply of the store shows.
use php_python_ai_bridge.Base.{
  ℕ, ◌≡◌, ◌≢◌, refl, sym, ◌∙◌, ap, subst, Bool, true, false, Option, none, some, String, leb,
  nat_eq, string_eq, string_beq_iff, arith, if_ind, inl, inr, Option-cases, length, ◌-◌,
}
use php_python_ai_bridge.Jobs.Types.{Job, Env, Store, Book, PublicJob}
use php_python_ai_bridge.Jobs.Db.{write_submitted}
use php_python_ai_bridge.Jobs.Invariants.{IsSound}
use php_python_ai_bridge.Jobs.Keys.{KeysMatch, Steps-KeysMatch}
use php_python_ai_bridge.Jobs.Steps.{known}
use php_python_ai_bridge.Jobs.Table.{find, find-id}
use php_python_ai_bridge.Jobs.Table.Laws.{find-put}
use php_python_ai_bridge.Jobs.Submit.{
  Request, Reply, accepted, refused, value_error, overflow_error, draining_error, key_error,
  capacity_error, expire, accept, accept_open, answer, admit_new, record_job, new_job, owner_full,
  count_refusal, submit_valid, active_count, public,
}
use php_python_ai_bridge.Jobs.Submit.Trace.{expire-Steps}
use php_python_ai_bridge.Jobs.Service.{owned, answer_owned}
use php_python_ai_bridge.Server.Http.{Body, a_job, error, Response, is_encodable}
use php_python_ai_bridge.Server.Handler.{
  reply, fail, fail_later, job_reply, ready_reply, submit_reply, caught,
}

-- A job that a body shows is in the table, as it is shown, and the owner's.
abbrev IsOwn : String → Body → Store → Type 0
IsOwn o (a_job p) s = (j : Job) × (find p.id s.jobs ≡ some j) × (j.owner ≡ o) × (public j ≡ p)
IsOwn o _ s = Unit

abbrev pub AnswersOwn : String → Option Response × Store → Type 0
AnswersOwn o (none, s) = Unit
AnswersOwn o (some r, s) = IsOwn o r.body s

-- Of a request that no name stands for, nothing is shown.
abbrev pub IsPrivate : Option String → Option Response × Store → Type 0
IsPrivate (some o) p = AnswersOwn o p
IsPrivate none (some r, s) = (p : PublicJob) → r.body ≢ a_job p
IsPrivate none (none, s) = Unit

shows :
    (o i : String) (j : Job) (s : Store)
    → find i s.jobs ≡ some j
    → j.owner ≡ o
    → IsOwn o (a_job (public j)) s
unfolding public
shows o i j s found mine =
    (j, ap (λ x. find x s.jobs) (find-id i s.jobs j found) ∙ found, mine, refl)

pub owned-known :
    (i o : String) (t : Store) (j : Job)
    → owned i o t ≡ some j
    → (find i t.jobs ≡ some j) × (j.owner ≡ o)
unfolding owned
owned-known i o t j h = elim (Option-cases (find i t.jobs)) [
  | inl lost ↦ absurd (ground (arith, h, lost))
  | inr (k, found) ↦
      let same : k ≡ j = ground (arith, h, found) in
      (found ∙ ap some same, ground (arith, h, found, string_beq_iff j.owner o))
]

reply-AnswersOwn :
    (o : String) (status : ℕ) (p : PublicJob) (t : Store)
    → IsOwn o (a_job p) t
    → AnswersOwn o (reply status (a_job p), t)
unfolding reply
reply-AnswersOwn o status p t own =
    if_ind (λ x. AnswersOwn o (x, t)) (is_encodable p) (λ yes. own) (λ no. tt)

pub caught-AnswersOwn :
    (o : String) (x : Option Response) (t : Store)
    → AnswersOwn o (x, t)
    → AnswersOwn o (caught x, t)
unfolding caught fail reply
caught-AnswersOwn o none t h = tt
caught-AnswersOwn o (some r) t h = h

pub job_reply-AnswersOwn :
    (i o : String) (t : Store) → AnswersOwn o (job_reply (answer_owned (owned i o t)), t)
unfolding answer_owned job_reply fail reply
job_reply-AnswersOwn i o t =
    let Shown : Option Job → Type 0 = λ x. AnswersOwn o (job_reply (answer_owned x), t) in
    elim (Option-cases (owned i o t)) [
      | inl foreign ↦ subst Shown (sym foreign) tt
      | inr (j, mine) ↦
          let (found, its) = owned-known i o t j mine in
          subst Shown (sym mine) (reply-AnswersOwn o 200 (public j) t (shows o i j t found its))
    ]

pub ready_reply-AnswersOwn :
    (o : String) (s : Store) (r : Option String) → AnswersOwn o (ready_reply r, s)
unfolding ready_reply reply
ready_reply-AnswersOwn o s none = tt
ready_reply-AnswersOwn o s (some reason) = tt

abbrev is_error : Body → Bool
is_error (error code) = true
is_error _ = false

pub error-shows_none : (code : String) (p : PublicJob) → error code ≢ a_job p
error-shows_none code p h = absurd (ground (arith, ap is_error h))

known_owned :
    (o : String) (k : Option String) (b : Book) (i : String)
    → KeysMatch b
    → known o k b.keys ≡ some i
    → (j : Job) × (find i b.jobs ≡ some j) × (j.owner ≡ o)
unfolding known
known_owned o none b i m h = absurd (ground arith)
known_owned o (some k) b i m h = let held = m.names o k i h in (held.job, held.found, held.owned_by)

module _ (o : String) where
  abbrev pub ShowsOwn : Reply × Store → Type 0
  ShowsOwn p = AnswersOwn o (submit_reply p.0, p.1)

  accepted-ShowsOwn : (p : PublicJob) (t : Store) → IsOwn o (a_job p) t → ShowsOwn (accepted p, t)
  unfolding submit_reply
  accepted-ShowsOwn p t own =
      caught-AnswersOwn o (reply 202 (a_job p)) t (reply-AnswersOwn o 202 p t own)

  record_job-ShowsOwn : (e : Env) (j : Job) (s : Store) → j.owner ≡ o → ShowsOwn (record_job e j s)
  unfolding record_job submit_reply reply fail_later public
  record_job-ShowsOwn e j s mine = elim (Option-cases (write_submitted e j s.db)) [
    | inl lost ↦ rw (lost, record_job) tt
    | inr (db, written) ↦
        rw (written, record_job) (accepted-ShowsOwn (public j) _ (j, find-put j s.jobs, mine, refl))
  ]

  admit_new-ShowsOwn :
      (e : Env) (r : Request) (s : Store) → r.owner ≡ o → ShowsOwn (admit_new e r s)
  unfolding admit_new submit_reply fail_later new_job
  admit_new-ShowsOwn e r s mine =
      if_ind ShowsOwn (owner_full r.owner s) (λ _. tt)
        λ _.
          if_ind ShowsOwn (leb s.capacity (active_count s.jobs)) (λ _. tt)
            λ _.
              if_ind ShowsOwn (leb s.result_capacity (length s.jobs - active_count s.jobs))
                (λ _. tt) λ _. record_job-ShowsOwn e (new_job e r s) s mine

  accept_open-ShowsOwn :
      (e : Env) (r : Request) (s : Store)
      → KeysMatch s.book
      → r.owner ≡ o
      → ShowsOwn (accept_open e r s)
  unfolding accept_open answer submit_reply reply
  accept_open-ShowsOwn e r s m mine = elim (Option-cases (known r.owner r.key s.keys)) [
    | inl first ↦ rw (first, accept_open) (admit_new-ShowsOwn e r s mine)
    | inr (i, named) ↦
        let (j, found, its) = known_owned r.owner r.key s.book i m named in
        rw (named, accept_open)
          (rw (found, answer) (accepted-ShowsOwn (public j) s (shows o i j s found (its ∙ mine))))
  ]

  count_refusal-ShowsOwn :
      (p : Reply × Store) → ShowsOwn p → (c : String) → ShowsOwn (count_refusal c p)
  unfolding count_refusal submit_reply reply fail fail_later
  count_refusal-ShowsOwn (accepted j, t) h c = h
  count_refusal-ShowsOwn (refused (capacity_error n), t) h c = tt
  count_refusal-ShowsOwn (refused value_error, t) h c = tt
  count_refusal-ShowsOwn (refused overflow_error, t) h c = tt
  count_refusal-ShowsOwn (refused draining_error, t) h c = tt
  count_refusal-ShowsOwn (refused key_error, t) h c = tt

  pub submit_valid-ShowsOwn :
      (e : Env) (r : Request) (s : Store)
      → IsSound s.book
      → KeysMatch s.book
      → r.owner ≡ o
      → ShowsOwn (submit_valid e r s)
  unfolding submit_valid accept submit_reply fail_later
  submit_valid-ShowsOwn e r s sound keys mine =
      let accepts : ShowsOwn (accept e r s) =
        if_ind ShowsOwn s.draining (λ _. tt)
          λ _.
            if_ind ShowsOwn s.stopping (λ _. tt)
              λ _.
                accept_open-ShowsOwn e r (expire e s)
                  (Steps-KeysMatch (expire-Steps e s) sound keys) mine in
      count_refusal-ShowsOwn (accept e r s) accepts r.owner
