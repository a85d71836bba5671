-- ===== src/Tasks/Ibans/Laws.antt =====
-- What is masked as an IBAN.
use php_python_ai_bridge.Base.{
  ℕ, zero, suc, ◌<◌, ◌≡◌, refl, sym, ◌∙◌, ap, inl, inr, true, List, [], ◌∷◌, ◌++◌, Option, none,
  some, leb, nat_eq, arith, length, length-append, append_assoc, append-nil, Option-cases,
  Bool-cases, if_true, if_false,
}
use php_python_ai_bridge.Tasks.Ibans.{space, without_spaces, iban, before_space, trim, iban_of}

-- What is left of a match after its IBAN: nothing, or what a space begins.
abbrev AfterGroup : List ℕ → Type 0
AfterGroup [] = Unit
AfterGroup (c ∷ cs) = c ≡ space

-- The beginning of the match, up to the end of one of its groups.
pub record IsIbanOf (match found : List ℕ) : Type 0 where
  pub rest : List ℕ
  pub parts : match ≡ found ++ rest
  pub whole_groups : AfterGroup rest
  pub checks : iban found ≡ true

abbrev Taken : List ℕ → Option (List ℕ) → Type 0
Taken match none = Unit
Taken match (some found) = IsIbanOf match found

before_space-parts :
    (cs bs : List ℕ) → before_space cs ≡ some bs → (rest : List ℕ) × (cs ≡ bs ++ (space ∷ rest))
unfolding before_space
before_space-parts [] bs h = absurd (ground (arith, h))
before_space-parts (c ∷ cs) bs h = elim (Option-cases (before_space cs)) [
  | inr (ds, found) ↦
      let (rest, split) = before_space-parts cs ds found in
      let same : c ∷ ds ≡ bs = ground (arith, h, found) in
      (rest, ap (λ l. c ∷ l) split ∙ ap (λ l. l ++ (space ∷ rest)) same)
  | inl lost ↦
      let empty : bs ≡ [] = ground (arith, h, lost) in
      let here : c ≡ space = ground (arith, h, lost) in
      (cs, ap (λ d. d ∷ cs) here ∙ ap (λ l. l ++ (space ∷ cs)) (sym empty))
]

abbrev Ends : ℕ → List ℕ → List ℕ → Type 0
Ends fuel match candidate = (o : Option (List ℕ)) × (trim fuel candidate ≡ some o) × Taken match o

trim-Ends :
    (fuel : ℕ) (match candidate rest : List ℕ)
    → match ≡ candidate ++ rest
    → AfterGroup rest
    → length candidate < fuel
    → Ends fuel match candidate
unfolding trim
trim-Ends zero match candidate rest split whole enough = absurd (omega (arith, enough))
trim-Ends (suc fuel) match candidate rest split whole enough =
    elim (Bool-cases (leb 15 (length (without_spaces candidate)))) [
      | inr short ↦ (none, if_false _ _ _ short, tt)
      | inl long ↦ elim (Bool-cases (iban candidate)) [
        | inl good ↦ (
          some candidate,
          if_true _ _ _ long ∙ if_true _ _ _ good,
          record { rest = rest; parts = split; whole_groups = whole; checks = good },
        )
        | inr bad ↦ elim (Option-cases (before_space candidate)) [
          | inl lone ↦ (none, if_true _ _ _ long ∙ if_false _ _ _ bad ∙ rw (lone, trim) refl, tt)
          | inr (shorter, found) ↦
              let (tail, cut) = before_space-parts candidate shorter found in
              let (o, runs, taken) =
                trim-Ends fuel match shorter (space ∷ (tail ++ rest))
                  (split ∙ ap (λ l. l ++ rest) cut ∙ append_assoc shorter (space ∷ tail) rest) refl
                  (omega (arith, enough, ap length cut, length-append shorter (space ∷ tail))) in
              (o, if_true _ _ _ long ∙ if_false _ _ _ bad ∙ rw (found, trim) runs, taken)
        ]
      ]
    ]

-- The loop ends on every match; what it takes is the match up to the end of one of its groups, and passes the check of
-- an IBAN.
iban_of-Taken : (match : List ℕ) → (o : Option (List ℕ)) × (iban_of match ≡ some o) × Taken match o
unfolding iban_of
iban_of-Taken match =
    trim-Ends (suc (length match)) match match [] (sym (append-nil match)) tt (omega arith)
