-- ===== src/Server/Handler/Auth.antt =====
-- `_authorized`: whom a presented header stands for.
use text.Mathlib.TextLemmas.{append_cancel_left}
use php_python_ai_bridge.Base.{
  ◌≡◌, ◌≢◌, ◌⊎◌, ◌↔◌, refl, sym, ◌∙◌, ap, subst, inl, inr, List, [], ◌∷◌, some, String, arith, All,
  Bool-cases, ◌==◌, string_eq, string_beq_iff, if_true, if_false,
}
use php_python_ai_bridge.Server.Handler.{bearer, owner_of_header, authorized}

-- The name has this token.
abbrev pub Holds : String → String → List (String × String) → Type 0
Holds name token [] = ⊥
Holds name token ((n, t) ∷ tokens) = ((n ≡ name) × (t ≡ token)) ⊎ Holds name token tokens

-- No token is given to two names.
abbrev pub OneName : List (String × String) → Type 0
OneName [] = Unit
OneName ((n, t) ∷ tokens) = All (λ p. t ≢ p.1) tokens × OneName tokens

bearer-injective : (a b : String) → bearer a ≡ bearer b → a ≡ b
bearer-injective a b h = append_cancel_left "Bearer " a b h

Holds-All :
    (name token : String) (t : String) (tokens : List (String × String))
    → Holds name t tokens
    → All (λ p. token ≢ p.1) tokens
    → token ≢ t
Holds-All name token t [] held _ = absurd held
Holds-All name token t ((n, u) ∷ tokens) (inl (same, here)) (other, others) =
    λ eq. other (eq ∙ sym here)
Holds-All name token t ((n, u) ∷ tokens) (inr later) (other, others) =
    Holds-All name token t tokens later others

owner_of_header-Holds :
    (tokens : List (String × String)) (presented name : String)
    → owner_of_header tokens presented ≡ some name
    → (token : String) × (presented ≡ bearer token) × Holds name token tokens
unfolding owner_of_header
owner_of_header-Holds [] presented name h = absurd (ground (arith, h))
owner_of_header-Holds ((n, t) ∷ tokens) presented name h =
    elim (Bool-cases (presented == bearer t)) [
      | inl same ↦
          (t, (string_beq_iff presented (bearer t)).0 same, inl (ground (arith, h, same), refl))
      | inr differs ↦
          let (token, shown, later) =
            owner_of_header-Holds tokens presented name (ground (arith, h, differs)) in
          (token, shown, inr later)
    ]

Holds-owner_of_header :
    (tokens : List (String × String)) (name token : String)
    → OneName tokens
    → Holds name token tokens
    → owner_of_header tokens (bearer token) ≡ some name
unfolding owner_of_header
Holds-owner_of_header [] name token _ held = absurd held
Holds-owner_of_header ((n, t) ∷ tokens) name token (fresh, rest) (inl (same, here)) =
    if_true _ _ _ ((string_beq_iff (bearer token) (bearer t)).1 (ap bearer (sym here)))
    ∙ ap some same
Holds-owner_of_header ((n, t) ∷ tokens) name token (fresh, rest) (inr later) =
    elim (Bool-cases (bearer token == bearer t)) [
      | inl same ↦ absurd (
          Holds-All name t token tokens later fresh
            (sym (bearer-injective token t ((string_beq_iff (bearer token) (bearer t)).0 same))))
      | inr differs ↦ if_false _ _ _ differs ∙ Holds-owner_of_header tokens name token rest later
    ]

-- Where no token is given to two names, a request is a name's exactly when it has one `Authorization` header,
-- and that header is `Bearer ` and a token of the name.
pub authorized_iff :
    (tokens : List (String × String)) (presented : List String) (name : String)
    → OneName tokens
    → (authorized tokens presented ≡ some name)
      ↔ ((token : String) × (presented ≡ bearer token ∷ []) × Holds name token tokens)
unfolding authorized
authorized_iff tokens [] name ok =
    (λ h. absurd (ground (arith, h)), λ h. absurd (ground (arith, h.1)))
authorized_iff tokens (h1 ∷ h2 ∷ more) name ok =
    (λ h. absurd (ground (arith, h)), λ h. absurd (ground (arith, h.1)))
authorized_iff tokens (presented ∷ []) name ok = (
  λ h.
      let (token, shown, mine) = owner_of_header-Holds tokens presented name h in
      (token, ap (λ p. p ∷ []) shown, mine),
  λ h.
      let (token, shown, mine) = h in
      subst (λ p. authorized tokens p ≡ some name) (sym shown)
        (Holds-owner_of_header tokens name token ok mine),
)
