-- ===== src/Jobs/Keys.antt =====
-- Idempotency keys: `_keys` in the steps of the table.
use php_python_ai_bridge.Base.{
  ◌≡◌, ◌≤◌, sym, Bool, false, inl, inr, List, [], ◌∷◌, ◌++◌, none, some, String, arith, ◌==◌,
  string_eq, string_beq_iff, pair_eq, ap, ◌∙◌, subst, All, All-middle, All-insert, All-map2,
  All-of_count-zero, count-middle, count, lookup, append-nil,
}
use php_python_ai_bridge.Jobs.Types.{Job, Book}
use php_python_ai_bridge.Jobs.Invariants.{IsSound, Steps-IsSound}
use php_python_ai_bridge.Jobs.Table.{find}
use php_python_ai_bridge.Jobs.Table.Laws.{find-middle, find-replace, find-snoc, find-last}
use php_python_ai_bridge.Jobs.Steps.Index.{
  lookup-drop_key, lookup-drop_key_other, lookup-add_key, lookup-add_key_self, lookup-add_key_other,
}
use php_python_ai_bridge.Jobs.Steps.{
  Steps, Step, idle, edit, close, forget, admit, here, next, SameJob, drop_key, add_key, key_of,
}

-- The table has a job with this id, owner and key.
pub record Holds (i o k : String) (js : List Job) : Type 0 where
  pub job : Job
  pub found : find i js ≡ some job
  pub owned_by : job.owner ≡ o
  keyed_by : job.key ≡ some k

abbrev pub IsIndexed : List ((String × String) × String) → Job → Type 0
IsIndexed keys j = (k : String) → j.key ≡ some k → lookup (j.owner, k) keys ≡ some j.id

pub record KeysMatch (b : Book) : Type 0 where
  pub names : (o k i : String) → lookup (o, k) b.keys ≡ some i → Holds i o k b.jobs
  pub indexed : All (IsIndexed b.keys) b.jobs

replace-Holds :
    (i o k : String) (xs : List Job) (j j' : Job) (ys : List Job)
    → SameJob j j'
    → Holds i o k (xs ++ (j ∷ ys))
    → Holds i o k (xs ++ (j' ∷ ys))
replace-Holds i o k xs j j' ys same h =
    elim (find-replace i xs j j' ys h.job same.same_id h.found) [
      | inl (is_j, found) ↦ record {
        job = j';
        found = found;
        owned_by = cc (same.same_owner, ap (λ (x : Job). x.owner) is_j, h.owned_by);
        keyed_by = cc (same.same_key, ap (λ (x : Job). x.key) is_j, h.keyed_by);
      }
      | inr found ↦ record {
        job = h.job;
        found = found;
        owned_by = h.owned_by;
        keyed_by = h.keyed_by;
      }
    ]

module _ {b : Book} (m : KeysMatch b) where
  IsIndexed-middle :
      (xs : List Job) (j : Job) (ys : List Job)
      → b.jobs ≡ xs ++ (j ∷ ys)
      → IsIndexed b.keys j × All (IsIndexed b.keys) (xs ++ ys)
  IsIndexed-middle xs j ys p =
      All-middle (IsIndexed b.keys) xs j ys (subst (All (IsIndexed b.keys)) p m.indexed)

  -- Nothing that the keys look at has changed.
  replace-KeysMatch :
      {c : Book} (xs : List Job) (j j' : Job) (ys : List Job)
      → b.jobs ≡ xs ++ (j ∷ ys)
      → c.jobs ≡ xs ++ (j' ∷ ys)
      → SameJob j j'
      → c.keys ≡ b.keys
      → KeysMatch c
  replace-KeysMatch xs j j' ys p q same kept =
      let (here_j, others) = IsIndexed-middle xs j ys p in
      record {
        names = λ o k i h. rw q (
            replace-Holds i o k xs j j' ys same
              (subst (Holds i o k) p (m.names o k i (ap (lookup (o, k)) (sym kept) ∙ h))));
        indexed =
            rw (q, kept)
              (All-insert (IsIndexed b.keys) xs j' ys
                (λ k h.
                  ap (λ o. lookup (o, k) b.keys) same.same_owner
                  ∙ here_j k (sym same.same_key ∙ h)
                  ∙ ap some (sym same.same_id))
                others);
      }

  idle-KeysMatch : {c : Book} → c.jobs ≡ b.jobs → c.keys ≡ b.keys → KeysMatch c
  idle-KeysMatch p q = record {
    names = λ o k i h. rw p (m.names o k i (ap (lookup (o, k)) (sym q) ∙ h));
    indexed = rw (p, q) m.indexed;
  }

  forget-names :
      (xs : List Job) (j : Job) (ys : List Job) (o k i : String)
      → b.jobs ≡ xs ++ (j ∷ ys)
      → lookup (o, k) (drop_key j b.keys) ≡ some i
      → Holds i o k (xs ++ ys)
  forget-names xs j ys o k i p h =
      let (old, other) = lookup-drop_key j o k b.keys i h in
      let held = subst (Holds i o k) p (m.names o k i old) in
      elim (find-middle i xs j ys held.job held.found) [
        | inl is_j ↦ absurd (
            other (
              ap (λ (x : Job). x.owner) (sym is_j) ∙ held.owned_by,
              ap (λ (x : Job). x.key) (sym is_j) ∙ held.keyed_by,
            ))
        | inr found ↦ record {
          job = held.job;
          found = found;
          owned_by = held.owned_by;
          keyed_by = held.keyed_by;
        }
      ]

  forget-IsIndexed :
      (xs : List Job) (j : Job) (ys : List Job)
      → b.jobs ≡ xs ++ (j ∷ ys)
      → count (λ k. k.id == j.id) b.jobs ≤ 1
      → All (IsIndexed (drop_key j b.keys)) (xs ++ ys)
  forget-IsIndexed xs j ys p once =
      let (here_j, others) = IsIndexed-middle xs j ys p in
      All-map2 (IsIndexed b.keys) (λ x. (x.id == j.id) ≡ false) (IsIndexed (drop_key j b.keys))
        (λ x ix ne k hk. lookup-drop_key_other j x.owner k b.keys x.id (ix k hk) λ po pk. ground (
          arith,
          ne,
          string_beq_iff x.id j.id,
          ap (λ o. lookup (o, k) b.keys) po,
          here_j k pk,
          ix k hk,
        ))
        (xs ++ ys) others
        (All-of_count-zero (λ k. k.id == j.id) (xs ++ ys)
          (ground (
            arith,
            once,
            ap (count (λ k. k.id == j.id)) p,
            count-middle (λ k. k.id == j.id) xs j ys,
            string_beq_iff j.id j.id,
          )))

  forget-KeysMatch :
      {c : Book} (xs : List Job) (j : Job) (ys : List Job)
      → b.jobs ≡ xs ++ (j ∷ ys)
      → c.jobs ≡ xs ++ ys
      → c.keys ≡ drop_key j b.keys
      → count (λ k. k.id == j.id) b.jobs ≤ 1
      → KeysMatch c
  forget-KeysMatch xs j ys p q gone once = record {
    names = λ o k i h. rw q (forget-names xs j ys o k i p (ap (lookup (o, k)) (sym gone) ∙ h));
    indexed = rw (q, gone) (forget-IsIndexed xs j ys p once);
  }

  admit-names :
      (j : Job) (o k i : String)
      → find j.id b.jobs ≡ none
      → lookup (o, k) (add_key j b.keys) ≡ some i
      → Holds i o k (b.jobs ++ (j ∷ []))
  admit-names j o k i fresh h = elim (lookup-add_key j o k b.keys i h) [
    | inl (po, pk, pi) ↦ record {
      job = j;
      found = ap (λ x. find x (b.jobs ++ (j ∷ []))) pi ∙ find-last b.jobs j fresh;
      owned_by = po;
      keyed_by = pk;
    }
    | inr old ↦
        let held = m.names o k i old in
        record {
          job = held.job;
          found = find-snoc i b.jobs j held.job held.found;
          owned_by = held.owned_by;
          keyed_by = held.keyed_by;
        }
  ]

  admit-KeysMatch :
      {c : Book} (j : Job)
      → c.jobs ≡ b.jobs ++ (j ∷ [])
      → find j.id b.jobs ≡ none
      → key_of j b.keys ≡ none
      → c.keys ≡ add_key j b.keys
      → KeysMatch c
  admit-KeysMatch j p fresh first q = record {
    names = λ o k i h. rw p (admit-names j o k i fresh (ap (lookup (o, k)) (sym q) ∙ h));
    indexed =
        rw (p, q)
          (All-insert (IsIndexed (add_key j b.keys)) b.jobs j []
            (λ k h. lookup-add_key_self j k b.keys h)
            (rw append-nil (
              All-map2 (IsIndexed b.keys) (IsIndexed b.keys) (IsIndexed (add_key j b.keys))
                (λ x ix _ k hk. lookup-add_key_other j x.owner k b.keys x.id first (ix k hk)) b.jobs
                m.indexed m.indexed)));
  }

Step-KeysMatch : {g : Bool} {b c : Book} → Step g b c → IsSound b → KeysMatch b → KeysMatch c
Step-KeysMatch (idle p q) s m = idle-KeysMatch m p q.same_keys
Step-KeysMatch (edit xs j j' ys p q r u v w x) s m =
    replace-KeysMatch m xs j j' ys p q r x.same_keys
Step-KeysMatch (close xs j j' ys p q r u v w x y z n) s m = replace-KeysMatch m xs j j' ys p q r n
Step-KeysMatch (forget xs j ys p q r x y z n) s m =
    forget-KeysMatch m xs j ys p q n (s.distinct j.id)
Step-KeysMatch (admit j g p q u v x y z n k) s m = admit-KeysMatch m j p q n k

pub Steps-KeysMatch : {g : Bool} {b c : Book} → Steps g b c → IsSound b → KeysMatch b → KeysMatch c
Steps-KeysMatch here s m = m
Steps-KeysMatch (next p q) s m = Step-KeysMatch q (Steps-IsSound p s) (Steps-KeysMatch p s m)
