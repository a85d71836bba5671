-- ===== src/Jobs/Retry.antt =====
-- `_retry_after` and `_expire`.
use php_python_ai_bridge.Base.{
  ℕ, ◌+◌, ◌*◌, ◌≡◌, ◌≤◌, ◌<◌, ◌⊎◌, inl, inr, refl, Bool, true, not, ◌&&◌, List, [], ◌∷◌, Option,
  String, arith, is_some, any, count, filter, min, Bool-cases, Option-cases, ap, subst, sym,
}
use php_python_ai_bridge.Jobs.Types.{Job, Store, Env, Book}
use php_python_ai_bridge.Jobs.Submit.{
  is_expired, expire, of_owner, finish_times, earliest, ceil_seconds, seconds_left, retry_after,
}
use php_python_ai_bridge.Jobs.Submit.Trace.{delete_expired-book}

abbrev Has : ℕ → List ℕ → Type 0
Has m [] = ⊥
Has m (x ∷ xs) = (m ≡ x) ⊎ Has m xs

earliest-Has : (f : ℕ) (fs : List ℕ) → Has (earliest f fs) (f ∷ fs)
unfolding earliest
earliest-Has f [] = inl refl
earliest-Has f (g ∷ gs) = ground (arith, earliest-Has (min f g) gs)

kept-le :
    (e : Env) (retention : ℕ) (p : Job → Bool) (js : List Job)
    → count p (filter (λ j. not (is_expired e retention j)) js) ≤ count p js
kept-le e retention p [] = omega arith
kept-le e retention p (j ∷ js) = ground (arith, kept-le e retention p js)

-- A job that has finished a retention ago is not kept.
due-lt :
    (e : Env) (retention m : ℕ) (o : Option String) (js : List Job)
    → Has m (finish_times o js)
    → m + retention ≤ e.now
    → count (of_owner o) (filter (λ j. not (is_expired e retention j)) js) < count (of_owner o) js
unfolding finish_times is_expired
due-lt e retention m o [] h due = absurd h
due-lt e retention m o (j ∷ js) h due =
    ground (arith, due-lt e retention m o js, kept-le e retention (of_owner o) js)

seconds-enough :
    (e : Env) (retention f : ℕ) (fs : List ℕ)
    → earliest f fs + retention ≤ e.now + 1000 * seconds_left e retention (f ∷ fs)
unfolding seconds_left ceil_seconds
seconds-enough e retention f fs = omega arith

finish_times-cons :
    (o : Option String) (js : List Job)
    → any (λ j. is_some j.finished && of_owner o j) js ≡ true
    → (f : ℕ) × (fs : List ℕ) × (finish_times o js ≡ f ∷ fs)
unfolding finish_times
finish_times-cons o [] h = absurd (ground arith)
finish_times-cons o (j ∷ js) h = elim (Option-cases j.finished) [
  | inl open_j ↦ let (f, fs, e) = finish_times-cons o js (ground arith) in (f, fs, ground arith)
  | inr (t, ended) ↦ elim (Bool-cases (of_owner o j)) [
    | inl mine ↦ (t, finish_times o js, ground arith)
    | inr foreign ↦ let (f, fs, e) = finish_times-cons o js (ground arith) in (f, fs, ground arith)
  ]
]

-- Where a job that the limit counts, of all jobs or of one owner's, has finished: a client that
-- waits as long as it was told then finds fewer of those jobs in the same store, once that store
-- expires.
pub retry_frees :
    (e later : Env) (o : Option String) (s : Store)
    → any (λ j. is_some j.finished && of_owner o j) s.jobs ≡ true
    → e.now + 1000 * retry_after e o s ≤ later.now
    → count (of_owner o) (expire later s).jobs < count (of_owner o) s.jobs
unfolding retry_after expire
retry_frees e later o s some_ended waited =
    let (f, fs, times) = finish_times-cons o s.jobs some_ended in
    subst (λ (b : Book). count (of_owner o) b.jobs < count (of_owner o) s.jobs)
      (sym (delete_expired-book later (filter (is_expired later s.retention) s.jobs) _))
      (due-lt later s.retention (earliest f fs) o s.jobs
        (subst (Has (earliest f fs)) (sym times) (earliest-Has f fs))
        (omega (
          arith,
          waited,
          ap (seconds_left e s.retention) times,
          seconds-enough e s.retention f fs,
        )))

seconds_left_pos : (e : Env) (retention : ℕ) (fs : List ℕ) → 1 ≤ seconds_left e retention fs
unfolding seconds_left
seconds_left_pos e retention [] = omega arith
seconds_left_pos e retention (f ∷ fs) = omega arith

-- `_retry_after` answers at least one second.
pub retry_after_pos : (e : Env) (o : Option String) (s : Store) → 1 ≤ retry_after e o s
unfolding retry_after seconds_left
retry_after_pos e o s = seconds_left_pos e s.retention (finish_times o s.jobs)
