-- ===== src/Jobs/Steps.antt =====
-- What an operation may do to the job table, as a step relation on `Book`: the abstract view of
-- the store that its invariants are proved on.
pub mod Index
use php_python_ai_bridge.Base.{
  ℕ, ◌+◌, ◌≡◌, refl, Bool, true, false, List, [], ◌∷◌, ◌++◌, Option, none, some, String, arith,
  is_some, ◌==◌, string_eq, pair_eq, lookup, insert, discard, ◌&&◌, if◌then◌else◌,
}
use php_python_ai_bridge.Jobs.Types.{Job, Book, Status, unfinished, is_terminal}
use php_python_ai_bridge.Jobs.Finish.{count_end}
use php_python_ai_bridge.Jobs.Table.{find}

-- `_submitted[owner, task] += 1`.
unfoldable pub count_submit : String → String → (String → String → ℕ) → String → String → ℕ
count_submit o t f o' t' = if o == o' && t == t' then f o' t' + 1 else f o' t'

-- `_keys` without a job, with a job, and its entry for a job's key.
pub drop_key : Job → List ((String × String) × String) → List ((String × String) × String)
drop_key j keys = elim j.key [ none ↦ keys | some k ↦ discard (j.owner, k) keys ]

unfoldable pub add_key : Job → List ((String × String) × String) → List ((String × String) × String)
add_key j keys = elim j.key [ none ↦ keys | some k ↦ insert (j.owner, k) j.id keys ]

unfoldable pub known : String → Option String → List ((String × String) × String) → Option String
known o none keys = none
known o (some k) keys = lookup (o, k) keys

abbrev pub key_of : Job → List ((String × String) × String) → Option String
key_of j keys = known j.owner j.key keys

-- Two states of one job.
pub record SameJob (j j' : Job) : Type 0 where
  pub same_id : j'.id ≡ j.id
  pub same_owner : j'.owner ≡ j.owner
  pub same_task : j'.task ≡ j.task
  pub same_key : j'.key ≡ j.key

pub record SameCounts (b c : Book) : Type 0 where
  pub same_ended : c.ended ≡ b.ended
  pub same_submitted : c.submitted ≡ b.submitted
  pub same_settings : c.settings ≡ b.settings
  pub same_keys : c.keys ≡ b.keys

-- `grows` tells whether jobs may be added.
pub data Step (grows : Bool) (b c : Book) : Type 0 where
  idle : c.jobs ≡ b.jobs → SameCounts b c → Step grows b c
  edit :
      (xs : List Job) (j j' : Job) (ys : List Job)
      → b.jobs ≡ xs ++ (j ∷ ys)
      → c.jobs ≡ xs ++ (j' ∷ ys)
      → SameJob j j'
      → unfinished j ≡ true
      → unfinished j' ≡ true
      → j'.finished ≡ j.finished
      → SameCounts b c
      → Step grows b c
  close :
      (xs : List Job) (j j' : Job) (ys : List Job)
      → b.jobs ≡ xs ++ (j ∷ ys)
      → c.jobs ≡ xs ++ (j' ∷ ys)
      → SameJob j j'
      → unfinished j ≡ true
      → unfinished j' ≡ false
      → is_some j'.finished ≡ true
      → c.ended ≡ count_end j.owner j.task j'.status b.ended
      → c.submitted ≡ b.submitted
      → c.settings ≡ b.settings
      → c.keys ≡ b.keys
      → Step grows b c
  forget :
      (xs : List Job) (j : Job) (ys : List Job)
      → b.jobs ≡ xs ++ (j ∷ ys)
      → c.jobs ≡ xs ++ ys
      → is_some j.finished ≡ true
      → c.ended ≡ b.ended
      → c.submitted ≡ b.submitted
      → c.settings ≡ b.settings
      → c.keys ≡ drop_key j b.keys
      → Step grows b c
  admit :
      (j : Job)
      → grows ≡ true
      → c.jobs ≡ b.jobs ++ (j ∷ [])
      → find j.id b.jobs ≡ none
      → unfinished j ≡ true
      → j.finished ≡ none
      → c.ended ≡ b.ended
      → c.submitted ≡ count_submit j.owner j.task b.submitted
      → c.settings ≡ b.settings
      → key_of j b.keys ≡ none
      → c.keys ≡ add_key j b.keys
      → Step grows b c

pub data Steps (grows : Bool) (b : Book) : Book → Type 0 where
  here : Steps grows b b
  next : {c d : Book} → Steps grows b c → Step grows c d → Steps grows b d

pub Steps-trans : {g : Bool} {b c d : Book} → Steps g b c → Steps g c d → Steps g b d
Steps-trans p here = p
Steps-trans p (next q s) = next (Steps-trans p q) s

pub Steps-one : {g : Bool} {b c : Book} → Step g b c → Steps g b c
Steps-one s = next here s

Step-grows : {b c : Book} → Step false b c → Step true b c
Step-grows (idle p q) = idle p q
Step-grows (edit xs j j' ys p q r u v w x) = edit xs j j' ys p q r u v w x
Step-grows (close xs j j' ys p q r u v w x y z n) = close xs j j' ys p q r u v w x y z n
Step-grows (forget xs j ys p q r x y z n) = forget xs j ys p q r x y z n
Step-grows (admit j g p q u v x y z n m) = admit j refl p q u v x y z n m

pub Steps-grows : {b c : Book} → Steps false b c → Steps true b c
Steps-grows here = here
Steps-grows (next p s) = next (Steps-grows p) (Step-grows s)

abbrev pub same_job :
    {j j' : Job}
    → j'.id ≡ j.id
    → j'.owner ≡ j.owner
    → j'.task ≡ j.task
    → j'.key ≡ j.key
    → SameJob j j'
same_job p q r s = record { same_id = p; same_owner = q; same_task = r; same_key = s }
