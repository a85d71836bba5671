-- ===== src/Jobs/Limits.antt =====
-- What the limits of `_accept` count, in the steps of the table.
pub mod Submission
use php_python_ai_bridge.Base.{
  ℕ, zero, suc, ◌+◌, ◌-◌, ◌≡◌, ◌≤◌, ◌<◌, refl, sym, Bool, true, false, not, inl, inr, List, [], ◌∷◌,
  ◌++◌, Option, none, some, String, arith, Bool-cases, Option-cases, ◌==◌, string_eq, ap, ◌∙◌, ◌&&◌,
  count, length, count-append, length-append, count-middle, if_ind, leb, if◌then◌else◌,
}
use php_python_ai_bridge.Jobs.Types.{Job, Book, Store, Env, unfinished}
use php_python_ai_bridge.Jobs.Steps.{
  Steps, Step, idle, edit, close, forget, admit, here, next, SameCounts, SameJob,
}
use php_python_ai_bridge.Jobs.Submit.{
  active_count, owner_count, Request, Reply, accepted, refused, admit_new, record_job, owner_full,
}

-- No more unfinished jobs, jobs of each owner, and jobs at all.
pub record Within (b c : Book) : Type 0 where
  pub active_le : active_count c.jobs ≤ active_count b.jobs
  pub owner_le : (o : String) → owner_count o c.jobs ≤ owner_count o b.jobs
  pub total_le : length c.jobs ≤ length b.jobs
  pub settings_eq : c.settings ≡ b.settings

length-middle :
    (xs : List Job) (j : Job) (ys : List Job) → length (xs ++ (j ∷ ys)) ≡ length (xs ++ ys) + 1
length-middle xs j ys = omega (arith, length-append xs (j ∷ ys), length-append xs ys)

replace-Within :
    (b c : Book) (xs : List Job) (j j' : Job) (ys : List Job)
    → b.jobs ≡ xs ++ (j ∷ ys)
    → c.jobs ≡ xs ++ (j' ∷ ys)
    → SameJob j j'
    → unfinished j ≡ true
    → c.settings ≡ b.settings
    → Within b c
replace-Within b c xs j j' ys p q same u kept = record {
  settings_eq = kept;
  active_le = ground (
    arith,
    ap active_count p,
    ap active_count q,
    count-middle unfinished xs j ys,
    count-middle unfinished xs j' ys,
  );
  owner_le = λ o. ground (
    arith,
    ap (owner_count o) p,
    ap (owner_count o) q,
    count-middle (λ k. k.owner == o) xs j ys,
    count-middle (λ k. k.owner == o) xs j' ys,
  );
  total_le = omega (arith, ap length p, ap length q, length-middle xs j ys, length-middle xs j' ys);
}

Step-Within : {b c : Book} → Step false b c → Within b c
Step-Within {b} {c} (idle p q) = record {
  settings_eq = q.same_settings;
  active_le = omega (arith, ap active_count p);
  owner_le = λ o. omega (arith, ap (owner_count o) p);
  total_le = omega (arith, ap (length {0}) p);
}
Step-Within {b} {c} (edit xs j j' ys p q r u v w x) =
    replace-Within b c xs j j' ys p q r u x.same_settings
Step-Within {b} {c} (close xs j j' ys p q r u v w x y z n) = replace-Within b c xs j j' ys p q r u z
Step-Within {b} {c} (forget xs j ys p q r x y z n) = record {
  settings_eq = z;
  active_le = omega (arith, ap active_count p, ap active_count q, count-middle unfinished xs j ys);
  owner_le = λ o.
      omega (
        arith,
        ap (owner_count o) p,
        ap (owner_count o) q,
        count-middle (λ k. k.owner == o) xs j ys,
      );
  total_le = omega (arith, ap (length {0}) p, ap (length {0}) q, length-middle xs j ys);
}
Step-Within (admit j g p q u v x y z n m) = cc

pub Steps-Within : {b c : Book} → Steps false b c → Within b c
Steps-Within here = record {
  settings_eq = refl;
  active_le = omega arith;
  owner_le = λ o. omega arith;
  total_le = omega arith;
}
Steps-Within (next p s) =
    let before = Steps-Within p in
    let last = Step-Within s in
    record {
      settings_eq = last.settings_eq ∙ before.settings_eq;
      active_le = omega (arith, before.active_le, last.active_le);
      owner_le = λ o. omega (arith, before.owner_le o, last.owner_le o);
      total_le = omega (arith, before.total_le, last.total_le);
    }
