-- ===== src/Jobs/Request/Laws.antt =====
-- What a submission that passes the checks of `submit` is like.
use php_python_ai_bridge.Base.{
  ℕ, ◌≡◌, ◌≤◌, sym, ◌∙◌, subst, Bool, true, false, Option, none, some, String, inl, inr, arith,
  Option-cases, Bool-cases, if_true, if_ind,
}
use php_python_ai_bridge.Json.{
  Value, null, boolean, int, negative_int, float, infinite, str, broken_str, arr, obj,
}
use php_python_ai_bridge.Tasks.Validate.{contains, validate, fields_ok, is_test_task}
use php_python_ai_bridge.Jobs.Types.{Env, Store, Settings}
use php_python_ai_bridge.Jobs.Submit.{
  Refusal, Request, Reply, refused, value_error, overflow_error, submit_valid,
}
use php_python_ai_bridge.Jobs.Request.{
  task_names, key_of_value, timeout_of_value, request_of, checked_task, checked, refusal_of, submit,
}

-- The owner is one of the service's, the task one that it knows, and the deadline within its bounds.
pub record IsChecked (settings : Settings) (r : Request) : Type 0 where
  pub known_owner : contains settings.owners r.owner ≡ true
  pub known_task : contains (task_names settings.test_tasks) r.task ≡ true
  pub timeout_low : 100 ≤ r.timeout_ms
  pub timeout_high : r.timeout_ms ≤ 300000

validate_known :
    (task : String) (payload : Value) (test_tasks : Bool) (p : Value)
    → validate task payload test_tasks ≡ some p
    → contains (task_names test_tasks) task ≡ true
unfolding validate fields_ok is_test_task
validate_known task (obj ms) false p h = ground (arith, h)
validate_known task (obj ms) true p h = ground (arith, h)
validate_known task _ test_tasks p h = absurd (ground (arith, h))

timeout_known : (v : Value) (n : ℕ) → timeout_of_value v ≡ some n → (100 ≤ n) × (n ≤ 300000)
unfolding timeout_of_value
timeout_known (int m) n h = ground (arith, h)
timeout_known _ n h = absurd (ground (arith, h))

checked_task-IsChecked :
    (settings : Settings) (task : String) (payload timeout_ms key : Value) (owner : String)
    (r : Request)
    → contains settings.owners owner ≡ true
    → checked_task settings task payload (timeout_of_value timeout_ms) (key_of_value key) owner
      ≡ some r
    → IsChecked settings r
unfolding checked_task request_of
checked_task-IsChecked settings task payload timeout_ms key owner r mine h =
    elim (Option-cases (timeout_of_value timeout_ms)) [
      | inl bad ↦ absurd (ground (arith, h, bad))
      | inr (n, timed) ↦ elim (Option-cases (key_of_value key)) [
        | inl bad ↦ absurd (ground (arith, h, timed, bad))
        | inr (k, keyed) ↦ elim (Option-cases (validate task payload settings.test_tasks)) [
          | inl bad ↦ absurd (ground (arith, h, timed, keyed, bad))
          | inr (p, valid) ↦
              let (low, high) = timeout_known timeout_ms n timed in
              let request : Request = record {
                task = task;
                payload = p;
                timeout_ms = n;
                key = k;
                owner = owner;
              } in
              let same : request ≡ r = ground (arith, h, timed, keyed, valid) in
              subst (IsChecked settings) same (record {
                known_owner = mine;
                known_task = validate_known task payload settings.test_tasks p valid;
                timeout_low = low;
                timeout_high = high;
              })
        ]
      ]
    ]

pub checked-IsChecked :
    (settings : Settings) (task payload timeout_ms key : Value) (owner : String) (r : Request)
    → checked settings task payload timeout_ms key owner ≡ some r
    → IsChecked settings r
unfolding checked
checked-IsChecked settings (str task) payload timeout_ms key owner r h =
    elim (Bool-cases (contains settings.owners owner)) [
      | inl mine ↦
          checked_task-IsChecked settings task payload timeout_ms key owner r mine
            (ground (arith, h, mine))
      | inr foreign ↦ absurd (ground (arith, h, foreign))
    ]
checked-IsChecked settings _ payload timeout_ms key owner r h = absurd (ground (arith, h))

request_of-owner :
    (owner task : String) (timeout_ms : ℕ) (key : Option String) (payload : Option Value)
    (r : Request)
    → request_of owner task timeout_ms key payload ≡ some r
    → r.owner ≡ owner
unfolding request_of
request_of-owner owner task timeout_ms key none r h = absurd (ground (arith, h))
request_of-owner owner task timeout_ms key (some p) r h = ground (arith, h)

checked_task-owner :
    (settings : Settings) (task : String) (payload : Value) (timeout_ms : Option ℕ)
    (key : Option (Option String)) (owner : String) (r : Request)
    → checked_task settings task payload timeout_ms key owner ≡ some r
    → r.owner ≡ owner
unfolding checked_task
checked_task-owner settings task payload (some n) (some k) owner r h =
    request_of-owner owner task n k (validate task payload settings.test_tasks) r h
checked_task-owner settings task payload _ _ owner r h = absurd (ground (arith, h))

pub checked-owner :
    (settings : Settings) (task payload timeout_ms key : Value) (owner : String) (r : Request)
    → checked settings task payload timeout_ms key owner ≡ some r
    → r.owner ≡ owner
unfolding checked
checked-owner settings (str task) payload timeout_ms key owner r h =
    elim (Bool-cases (contains settings.owners owner)) [
      | inl mine ↦
          checked_task-owner settings task payload (timeout_of_value timeout_ms) (key_of_value key)
            owner r (sym (if_true _ _ _ mine) ∙ h)
      | inr foreign ↦ absurd (ground (arith, h, foreign))
    ]
checked-owner settings _ payload timeout_ms key owner r h = absurd (ground (arith, h))

-- A submission is refused as it stands, or is one that passes the checks.
refusal_of_ind {κ} :
    (P : Refusal → Type κ) (settings : Settings) (task payload timeout_ms key : Value)
    (owner : String)
    → P value_error
    → P overflow_error
    → P (refusal_of settings task payload timeout_ms key owner)
unfolding refusal_of
refusal_of_ind P settings (str task) payload timeout_ms key owner bad beyond =
    if_ind P _ (λ _. beyond) (λ _. bad)
refusal_of_ind P settings null payload timeout_ms key owner bad beyond = bad
refusal_of_ind P settings (boolean b) payload timeout_ms key owner bad beyond = bad
refusal_of_ind P settings (int n) payload timeout_ms key owner bad beyond = bad
refusal_of_ind P settings (negative_int n) payload timeout_ms key owner bad beyond = bad
refusal_of_ind P settings (float negative n k) payload timeout_ms key owner bad beyond = bad
refusal_of_ind P settings infinite payload timeout_ms key owner bad beyond = bad
refusal_of_ind P settings (broken_str n) payload timeout_ms key owner bad beyond = bad
refusal_of_ind P settings (arr vs) payload timeout_ms key owner bad beyond = bad
refusal_of_ind P settings (obj ms) payload timeout_ms key owner bad beyond = bad

pub submit_ind {κ} :
    (P : Reply × Store → Type κ) (e : Env) (task payload timeout_ms key : Value) (owner : String)
    (s : Store)
    → P (refused value_error, s)
    → P (refused overflow_error, s)
    → ((r : Request)
        → checked s.settings task payload timeout_ms key owner ≡ some r
        → IsChecked s.settings r
        → P (submit_valid e r s))
    → P (submit e task payload timeout_ms key owner s)
unfolding submit
submit_ind P e task payload timeout_ms key owner s bad beyond good =
    elim (Option-cases (checked s.settings task payload timeout_ms key owner)) [
      | inl refuses ↦
          rw (refuses, submit)
            (refusal_of_ind (λ why. P (refused why, s)) s.settings task payload timeout_ms key owner
              bad beyond)
      | inr (r, passes) ↦
          rw (passes, submit)
            (good r passes
              (checked-IsChecked s.settings task payload timeout_ms key owner r passes))
    ]
