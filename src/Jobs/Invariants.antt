-- ===== src/Jobs/Invariants.antt =====
-- Invariants of the job table, on its steps.
use php_python_ai_bridge.Base.{
  ℕ, ◌+◌, ◌≡◌, ◌≤◌, refl, sym, Bool, true, false, inl, inr, List, [], ◌∷◌, ◌++◌, none, String,
  arith, if◌then◌else◌, Bool-cases, ◌==◌, string_eq, string_beq_iff, ap, ◌∙◌, is_some, ◌&&◌, count,
  count-append, append-nil, All, All-middle, All-insert, count-middle, subst,
}
use php_python_ai_bridge.Jobs.Types.{
  Job, Book, Status, unfinished, is_terminal, succeeded, failed, timed_out, cancelled,
}
use php_python_ai_bridge.Jobs.Steps.{
  Steps, Step, idle, edit, close, forget, admit, here, next, count_submit, SameCounts, SameJob,
}
use php_python_ai_bridge.Jobs.Finish.{count_end}
use php_python_ai_bridge.Jobs.Table.{find}

-- The unfinished jobs of one owner and task.
abbrev is_open_of : String → String → Job → Bool
is_open_of o t j = j.owner == o && (j.task == t && unfinished j)

abbrev pub open_of : String → String → List Job → ℕ
open_of o t js = count (is_open_of o t) js

-- The jobs of one owner and task that ended, in any way.
abbrev ended_of : (String → String → Status → ℕ) → String → String → ℕ
ended_of f o t = f o t succeeded + f o t failed + f o t timed_out + f o t cancelled

-- A job has an end time exactly when its status is terminal.
abbrev pub Dated : Job → Type 0
Dated j = is_some j.finished ≡ is_terminal j.status

-- What holds of the job table at all times: end times match statuses, no id stands twice, and every
-- accepted job either is unfinished or is counted under exactly one terminal status.
pub record IsSound (b : Book) : Type 0 where
  pub dated : All Dated b.jobs
  pub distinct : (i : String) → count (λ j. j.id == i) b.jobs ≤ 1
  pub balanced : (o t : String) → b.submitted o t ≡ ended_of b.ended o t + open_of o t b.jobs

count_end_of :
    (o t o' t' : String) (st : Status) (f : String → String → Status → ℕ)
    → is_terminal st ≡ true
    → ended_of (count_end o t st f) o' t' ≡ (if o == o' && t == t' then 1 else 0) + ended_of f o' t'
unfolding count_end
count_end_of o t o' t' st f ends = ground arith

pub count-find : (i : String) (js : List Job) → find i js ≡ none → count (λ j. j.id == i) js ≡ 0
unfolding find
count-find i [] h = refl
count-find i (j ∷ js) h = ground (arith, count-find i js)

-- The sums that balance, with the changed job taken out of the table.
open_before :
    (o t : String) (b : Book) (xs : List Job) (j : Job) (ys : List Job)
    → b.jobs ≡ xs ++ (j ∷ ys)
    → open_of o t b.jobs ≡ (if is_open_of o t j then 1 else 0) + open_of o t (xs ++ ys)
open_before o t b xs j ys at = ap (open_of o t) at ∙ count-middle (is_open_of o t) xs j ys

module _ (b c : Book) (xs : List Job) (j : Job) (ys : List Job) (at : b.jobs ≡ xs ++ (j ∷ ys))
    (sound : IsSound b) where
  middle-Dated : Dated j × All Dated (xs ++ ys)
  middle-Dated = All-middle Dated xs j ys (subst (All Dated) at sound.dated)

  -- One job is replaced by another state of itself.
  replace-distinct :
      (j' : Job)
      → c.jobs ≡ xs ++ (j' ∷ ys)
      → SameJob j j'
      → (i : String) → count (λ k. k.id == i) c.jobs ≤ 1
  replace-distinct j' q same i = rw q (
      ground (
        arith,
        sound.distinct i,
        ap (count (λ k. k.id == i)) at,
        count-middle (λ k. k.id == i) xs j ys,
        count-middle (λ k. k.id == i) xs j' ys,
      ))

  replace-Dated : (j' : Job) → c.jobs ≡ xs ++ (j' ∷ ys) → Dated j' → All Dated c.jobs
  replace-Dated j' q d = subst (All Dated) (sym q) (All-insert Dated xs j' ys d middle-Dated.1)

  edit-IsSound :
      (j' : Job)
      → c.jobs ≡ xs ++ (j' ∷ ys)
      → SameJob j j'
      → unfinished j ≡ true
      → unfinished j' ≡ true
      → j'.finished ≡ j.finished
      → SameCounts b c
      → IsSound c
  edit-IsSound j' q same u v w counts = record {
    dated = replace-Dated j' q (ground (arith, middle-Dated.0));
    distinct = replace-distinct j' q same;
    balanced = λ o t. ground (
      arith,
      sound.balanced o t,
      ap (λ f. ended_of f o t) counts.same_ended,
      ap (λ (f : String → String → ℕ). f o t) counts.same_submitted,
      open_before o t b xs j ys at,
      open_before o t c xs j' ys q,
    );
  }

  close-IsSound :
      (j' : Job)
      → c.jobs ≡ xs ++ (j' ∷ ys)
      → SameJob j j'
      → unfinished j ≡ true
      → unfinished j' ≡ false
      → is_some j'.finished ≡ true
      → c.ended ≡ count_end j.owner j.task j'.status b.ended
      → c.submitted ≡ b.submitted
      → IsSound c
  close-IsSound j' q same u v w ended kept = record {
    dated = replace-Dated j' q (ground arith);
    distinct = replace-distinct j' q same;
    balanced = λ o t. ground (
      arith,
      sound.balanced o t,
      ap (λ f. ended_of f o t) ended,
      count_end_of j.owner j.task o t j'.status b.ended (ground arith),
      ap (λ (f : String → String → ℕ). f o t) kept,
      open_before o t b xs j ys at,
      open_before o t c xs j' ys q,
    );
  }

  forget-IsSound :
      c.jobs ≡ xs ++ ys
      → is_some j.finished ≡ true
      → c.ended ≡ b.ended
      → c.submitted ≡ b.submitted
      → IsSound c
  forget-IsSound q w ended kept = record {
    dated = subst (All Dated) (sym q) middle-Dated.1;
    distinct = λ i. omega (
      arith,
      sound.distinct i,
      ap (count (λ k. k.id == i)) at,
      ap (count (λ k. k.id == i)) q,
      count-middle (λ k. k.id == i) xs j ys,
    );
    balanced = λ o t. ground (
      arith,
      middle-Dated.0,
      sound.balanced o t,
      ap (λ f. ended_of f o t) ended,
      ap (λ (f : String → String → ℕ). f o t) kept,
      open_before o t b xs j ys at,
      ap (open_of o t) q,
    );
  }

admit-IsSound :
    (b c : Book) (j : Job)
    → c.jobs ≡ b.jobs ++ (j ∷ [])
    → find j.id b.jobs ≡ none
    → unfinished j ≡ true
    → j.finished ≡ none
    → c.ended ≡ b.ended
    → c.submitted ≡ count_submit j.owner j.task b.submitted
    → IsSound b
    → IsSound c
unfolding count_submit
admit-IsSound b c j p fresh u v ended sub sound = record {
  dated =
      subst (All Dated) (sym p)
        (All-insert Dated b.jobs j [] (ground arith) (rw append-nil sound.dated));
  distinct = λ i. admit-distinct i;
  balanced = λ o t. ground (
    arith,
    sound.balanced o t,
    ap (λ f. ended_of f o t) ended,
    ap (λ (f : String → String → ℕ). f o t) sub,
    ap (open_of o t) p,
    count-append (is_open_of o t) b.jobs (j ∷ []),
  );
}
  where
    admit-distinct : (i : String) → count (λ k. k.id == i) c.jobs ≤ 1
    admit-distinct i = elim (Bool-cases (j.id == i)) [
      | inl same ↦
          let absent : count (λ k. k.id == i) b.jobs ≡ 0 =
            subst (λ i. count (λ k. k.id == i) b.jobs ≡ 0) ((string_beq_iff j.id i).0 same)
              (count-find j.id b.jobs fresh) in
          ground (
            arith,
            absent,
            ap (count (λ k. k.id == i)) p,
            count-append (λ k. k.id == i) b.jobs (j ∷ []),
          )
      | inr other ↦ ground (
        arith,
        other,
        sound.distinct i,
        ap (count (λ k. k.id == i)) p,
        count-append (λ k. k.id == i) b.jobs (j ∷ []),
      )
    ]

Step-IsSound : {g : Bool} {b c : Book} → Step g b c → IsSound b → IsSound c
Step-IsSound {g} {b} {c} (idle p q) h = record {
  dated = subst (All Dated) (sym p) h.dated;
  distinct = λ i. rw p (h.distinct i);
  balanced = λ o t. omega (
    arith,
    h.balanced o t,
    ap (λ f. ended_of f o t) q.same_ended,
    ap (λ (f : String → String → ℕ). f o t) q.same_submitted,
    ap (open_of o t) p,
  );
}
Step-IsSound {g} {b} {c} (edit xs j j' ys p q r u v w x) h =
    edit-IsSound b c xs j ys p h j' q r u v w x
Step-IsSound {g} {b} {c} (close xs j j' ys p q r u v w x y z n) h =
    close-IsSound b c xs j ys p h j' q r u v w x y
Step-IsSound {g} {b} {c} (forget xs j ys p q r x y z n) h = forget-IsSound b c xs j ys p h q r x y
Step-IsSound {g} {b} {c} (admit j g' p q u v x y z n m) h = admit-IsSound b c j p q u v x y h

pub Steps-IsSound : {g : Bool} {b c : Book} → Steps g b c → IsSound b → IsSound c
Steps-IsSound here h = h
Steps-IsSound (next p s) h = Step-IsSound s (Steps-IsSound p h)
