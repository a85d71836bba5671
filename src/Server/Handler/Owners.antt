-- ===== src/Server/Handler/Owners.antt =====
-- The jobs that the service's replies show: each is the caller's.
use php_python_ai_bridge.Base.{
  ℕ, Bool, true, false, List, [], ◌∷◌, Option, none, some, String, ◌==◌, nat_eq, string_eq, if_ind,
}
use php_python_ai_bridge.Tasks.Validate.{Fields}
use php_python_ai_bridge.Jobs.Types.{Env, Store}
use php_python_ai_bridge.Jobs.Invariants.{IsSound}
use php_python_ai_bridge.Jobs.Keys.{KeysMatch}
use php_python_ai_bridge.Jobs.Submit.{expire}
use php_python_ai_bridge.Jobs.Request.Laws.{submit_ind, checked-owner}
use php_python_ai_bridge.Jobs.Service.{get, cancel, cancel_job, owned, answer_owned, readiness}
use php_python_ai_bridge.Server.Routes.{job_path, cancel_path}
use php_python_ai_bridge.Server.Http.{HttpRequest, Method, get_method, post_method, other_method}
use php_python_ai_bridge.Server.Handler.{
  reply, fail, fail_later, job_reply, ready_reply, reason_of, get_job, do_get, submit_reply,
  post_submission, cancel_found, submission_ok, post_cancel, post_job, do_post, Read, refuses,
  too_large, times_out, fields, read_body, serve_owner, serve_method, authorized, head_ok,
  serve_request, caught,
}
use php_python_ai_bridge.Server.Handler.Shown.{
  AnswersOwn, IsPrivate, job_reply-AnswersOwn, ready_reply-AnswersOwn, error-shows_none, ShowsOwn,
  caught-AnswersOwn, submit_valid-ShowsOwn,
}

module _ (e : Env) (s : Store) (owner : String) where
  get_job-IsOwn : (o : Option String) → AnswersOwn owner (get_job e o owner s)
  unfolding get_job get job_reply fail reply
  get_job-IsOwn none = tt
  get_job-IsOwn (some i) = job_reply-AnswersOwn i owner (expire e s)

  do_get-IsOwn : (path : String) → AnswersOwn owner (do_get e path owner s)
  unfolding do_get reply ready_reply
  do_get-IsOwn path =
      if_ind (AnswersOwn owner) (path == "/healthz") (λ _. tt)
        λ _.
          if_ind (AnswersOwn owner) (path == "/readyz")
            (λ _. ready_reply-AnswersOwn owner s (reason_of (readiness s)))
            λ _.
              if_ind (AnswersOwn owner) (path == "/metrics") (λ _. tt)
                λ _. get_job-IsOwn (job_path path)

  cancel_found-IsOwn : (o : Option String) → AnswersOwn owner (cancel_found e o owner s)
  unfolding cancel_found cancel job_reply caught fail reply
  cancel_found-IsOwn none = tt
  cancel_found-IsOwn (some i) =
      (let t = cancel_job e (owned i owner (expire e s)) (expire e s) in
        caught-AnswersOwn owner (job_reply (answer_owned (owned i owner t))) t
          (job_reply-AnswersOwn i owner t))

  post_cancel-IsOwn :
      (path : String) (ms : Fields) → AnswersOwn owner (post_cancel e path ms owner s)
  unfolding post_cancel fail reply
  post_cancel-IsOwn path [] = cancel_found-IsOwn (cancel_path path)
  post_cancel-IsOwn path (m ∷ ms) = tt

  module _ (sound : IsSound s.book) (keys : KeysMatch s.book) where
    post_submission-IsOwn : (ms : Fields) → AnswersOwn owner (post_submission e ms owner s)
    unfolding post_submission submit_reply fail reply
    post_submission-IsOwn ms = submit_ind (ShowsOwn owner) e _ _ _ _ owner s tt tt (λ r passes _.
        submit_valid-ShowsOwn owner e r s sound keys
          (checked-owner s.settings _ _ _ _ owner r passes))

    post_job-IsOwn : (ms : Fields) → AnswersOwn owner (post_job e ms owner s)
    unfolding post_job fail fail_later reply
    post_job-IsOwn ms =
        if_ind (AnswersOwn owner) s.draining (λ _. tt)
          λ _.
            if_ind (AnswersOwn owner) (submission_ok ms) (λ _. post_submission-IsOwn ms) (λ _. tt)

    do_post-IsOwn : (path : String) (b : Read) → AnswersOwn owner (do_post e path b owner s)
    unfolding do_post fail reply
    do_post-IsOwn path refuses = tt
    do_post-IsOwn path too_large = tt
    do_post-IsOwn path times_out = tt
    do_post-IsOwn path (fields ms) =
        if_ind (AnswersOwn owner) (path == "/v1/jobs") (λ _. post_job-IsOwn ms)
          (λ _. post_cancel-IsOwn path ms)

module _ (e : Env) (s : Store) (sound : IsSound s.book) (keys : KeysMatch s.book) where
  serve_owner-IsPrivate :
      (r : HttpRequest) (posts : Bool) (o : Option String) → IsPrivate o (serve_owner e r posts o s)
  unfolding serve_owner fail reply
  serve_owner-IsPrivate r posts none = error-shows_none "unauthorized"
  serve_owner-IsPrivate r true (some owner) =
      do_post-IsOwn e s owner sound keys r.path (read_body r)
  serve_owner-IsPrivate r false (some owner) = do_get-IsOwn e s owner r.path

  error-IsPrivate :
      (status : ℕ) (code : String) (o : Option String) → IsPrivate o (fail status code, s)
  unfolding fail reply
  error-IsPrivate status code none = error-shows_none code
  error-IsPrivate status code (some owner) = tt

  serve_method-IsPrivate :
      (tokens : List (String × String)) (r : HttpRequest) (m : Method)
      → IsPrivate (authorized tokens r.authorization) (serve_method e tokens r m s)
  unfolding serve_method
  serve_method-IsPrivate tokens r get_method =
      serve_owner-IsPrivate r false (authorized tokens r.authorization)
  serve_method-IsPrivate tokens r post_method =
      serve_owner-IsPrivate r true (authorized tokens r.authorization)
  serve_method-IsPrivate tokens r other_method =
      error-IsPrivate 405 "method_not_allowed" (authorized tokens r.authorization)

-- Over a sound store whose keys match: a job that a reply shows stands in the table that the request leaves, as it
-- is shown, and is owned by the name that the request's header stands for; a request without one is shown no job.
pub serve_request-IsPrivate :
    (e : Env) (tokens : List (String × String)) (r : HttpRequest) (s : Store)
    → IsSound s.book
    → KeysMatch s.book
    → IsPrivate (authorized tokens r.authorization) (serve_request e tokens r s)
unfolding serve_request
serve_request-IsPrivate e tokens r s sound keys =
    let o = authorized tokens r.authorization in
    if_ind (IsPrivate o) (head_ok r) (λ _. serve_method-IsPrivate e s sound keys tokens r r.method)
      (λ _. error-IsPrivate e s sound keys 400 "invalid_request" o)
