-- ===== src/Server/Routes/Laws.antt =====
-- Job ids and the paths that carry them: what is matched is what is written.
use Prim.Native.Char.{Char, code}
use Prim.Native.String.append
use Prim.Native.String.{◌++◌ as join}
use text.Mathlib.TextEquality.{Char-path}
use php_python_ai_bridge.Base.{
  ℕ, ◌-◌, ◌≡◌, ◌↔◌, refl, sym, ◌∙◌, ap, inl, inr, true, false, List, [], ◌∷◌, ◌++◌, Option, none,
  some, String, ◌==◌, nat_eq, string_eq, string_beq_iff, arith, length-append, length, codes, take,
  drop, Option-cases, Bool-cases, if_true, if_false,
}
use php_python_ai_bridge.Jobs.Types.{Env, Store}
use php_python_ai_bridge.Jobs.Submit.{job_name}
use php_python_ai_bridge.Server.Routes.{
  is_instance, is_hex32, is_tail, is_job_id, after, before_cancel, only_job_id, job_path,
  cancel_path,
}

codes-join : (s t : String) → codes (join s t) ≡ codes s ++ codes t
codes-join String.[] t = ap codes (append.nil t)
codes-join (String.◌∷◌ c s) t = ap codes (append.cons c s t) ∙ ap (λ l. code c ∷ l) (codes-join s t)

after-join : (p s : String) → after p (join p s) ≡ some s
unfolding after
after-join String.[] s = ap some (append.nil s)
after-join (String.◌∷◌ c p) s =
    ap (after (String.◌∷◌ c p)) (append.cons c p s)
    ∙ if_true (code c == code c) _ _ (ground arith)
    ∙ after-join p s

after_sound : (p s r : String) → after p s ≡ some r → s ≡ join p r
unfolding after
after_sound String.[] s r h = let same : s ≡ r = ground (arith, h) in same ∙ sym (append.nil r)
after_sound (String.◌∷◌ c p) String.[] r h = absurd (ground (arith, h))
after_sound (String.◌∷◌ c p) (String.◌∷◌ d s) r h = elim (Bool-cases (code c == code d)) [
  | inl same ↦
      let rest = after_sound p s r (sym (if_true _ _ _ same) ∙ h) in
      let heads = Char-path c d (ground (arith, same)) in
      (λ i. String.◌∷◌ (sym heads i) (rest i)) ∙ sym (append.cons c p r)
  | inr other ↦ absurd (ground (arith, h, other))
]

not_cancel : (c : Char) (s : String) → (String.◌∷◌ c (join s "/cancel") == "/cancel") ≡ false
not_cancel c s = elim (Bool-cases (String.◌∷◌ c (join s "/cancel") == "/cancel")) [
  | inl same ↦
      let sizes : length (codes (String.◌∷◌ c (join s "/cancel"))) ≡ 7 =
        ap (λ t. length (codes t))
          ((string_beq_iff (String.◌∷◌ c (join s "/cancel")) "/cancel").0 same) in
      absurd (
        omega (
          arith,
          sizes,
          ap length (codes-join s "/cancel"),
          length-append (codes s) (codes "/cancel"),
        ))
  | inr other ↦ other
]

before_cancel-join : (s : String) → before_cancel (join s "/cancel") ≡ some s
unfolding before_cancel
before_cancel-join String.[] = ap before_cancel (append.nil "/cancel")
before_cancel-join (String.◌∷◌ c s) =
    ap before_cancel (append.cons c s "/cancel")
    ∙ if_false _ _ _ (not_cancel c s)
    ∙ rw (before_cancel-join s) refl

before_cancel_sound : (s p : String) → before_cancel s ≡ some p → s ≡ join p "/cancel"
unfolding before_cancel
before_cancel_sound String.[] p h = absurd (ground (arith, h))
before_cancel_sound (String.◌∷◌ c s) p h = elim (Bool-cases (String.◌∷◌ c s == "/cancel")) [
  | inl same ↦
      let empty : "" ≡ p = ground (arith, h, same) in
      (string_beq_iff (String.◌∷◌ c s) "/cancel").0 same
      ∙ sym (append.nil "/cancel")
      ∙ ap (λ q. join q "/cancel") empty
  | inr other ↦ elim (Option-cases (before_cancel s)) [
    | inl lost ↦ absurd (ground (arith, h, other, lost))
    | inr (q, found) ↦
        let whole : String.◌∷◌ c q ≡ p = ground (arith, h, other, found) in
        ap (String.◌∷◌ c) (before_cancel_sound s q found)
        ∙ sym (append.cons c q "/cancel")
        ∙ ap (λ t. join t "/cancel") whole
  ]
]

only_job_id_sound :
    (o : Option String) (i : String) → only_job_id o ≡ some i → (o ≡ some i) × (is_job_id i ≡ true)
unfolding only_job_id
only_job_id_sound none i h = absurd (ground (arith, h))
only_job_id_sound (some j) i h = elim (Bool-cases (is_job_id j)) [
  | inl good ↦
      let same : j ≡ i = ground (arith, h, good) in (ap some same, ap is_job_id (sym same) ∙ good)
  | inr bad ↦ absurd (ground (arith, h, bad))
]

-- The path of a job matches and carries its id exactly when it is `/v1/jobs/` and a well-formed id, and the path of
-- its cancellation exactly when it is that and `/cancel`.
paths_iff :
    (path i : String)
    → ((job_path path ≡ some i) ↔ ((path ≡ join "/v1/jobs/" i) × (is_job_id i ≡ true)))
      × ((cancel_path path ≡ some i)
          ↔ ((path ≡ join "/v1/jobs/" (join i "/cancel")) × (is_job_id i ≡ true)))
unfolding job_path cancel_path only_job_id
paths_iff path i = (
  (
    λ h.
        let (found, good) = only_job_id_sound (after "/v1/jobs/" path) i h in
        (after_sound "/v1/jobs/" path i found, good),
    λ (h : (path ≡ join "/v1/jobs/" i) × (is_job_id i ≡ true)).
        ap job_path h.0 ∙ ap only_job_id (after-join "/v1/jobs/" i) ∙ if_true _ _ _ h.1,
  ),
  (
    λ h. elim (Option-cases (after "/v1/jobs/" path)) [
      | inl lost ↦ absurd (ground (arith, h, lost))
      | inr (rest, found) ↦
          let (before, good) =
            only_job_id_sound (before_cancel rest) i (ground (arith, h, found)) in
          (
            after_sound "/v1/jobs/" path rest found
                ∙ ap (join "/v1/jobs/") (before_cancel_sound rest i before),
            good,
          )
    ],
    λ (h : (path ≡ join "/v1/jobs/" (join i "/cancel")) × (is_job_id i ≡ true)).
        ap cancel_path h.0
        ∙ rw (after-join "/v1/jobs/" (join i "/cancel"), cancel_path)
            (ap only_job_id (before_cancel-join i) ∙ if_true _ _ _ h.1),
  ),
)

take-append : (xs ys : List ℕ) → take (length xs) (xs ++ ys) ≡ xs
take-append [] ys = refl
take-append (x ∷ xs) ys = ap (λ l. x ∷ l) (take-append xs ys)

drop-append : (xs ys : List ℕ) → drop (length xs) (xs ++ ys) ≡ ys
drop-append [] ys = refl
drop-append (x ∷ xs) ys = drop-append xs ys

is_tail-hyphen : (cs : List ℕ) → is_hex32 cs ≡ true → is_tail (b'-' ∷ cs) ≡ true
unfolding is_tail
is_tail-hyphen cs h = h

is_job_id-split :
    (s : String) (xs ys : List ℕ)
    → codes s ≡ xs ++ (b'-' ∷ ys)
    → is_instance xs ≡ true
    → is_hex32 ys ≡ true
    → is_job_id s ≡ true
unfolding is_job_id is_hex32
is_job_id-split s xs ys h instance_ok hex =
    let count : length ys ≡ 32 = ground (arith, hex) in
    let size : length (xs ++ (b'-' ∷ ys)) - 33 ≡ length xs =
      omega (arith, length-append xs (b'-' ∷ ys), count) in
    rw (h, is_job_id)
      (rw (size, is_job_id)
        (rw (take-append xs (b'-' ∷ ys), drop-append xs (b'-' ∷ ys), is_job_id)
          (ground (arith, instance_ok, is_tail-hyphen ys hex))))

-- The name of an instance, where there is one, is as the settings must have it.
abbrev pub InstanceOk : Option String → Type 0
InstanceOk none = Unit
InstanceOk (some name) = is_instance (codes name) ≡ true

named-is_job_id :
    (uuid : String) (o : Option String)
    → InstanceOk o
    → is_hex32 (codes uuid) ≡ true
    → is_job_id (elim o [ none ↦ uuid | some name ↦ join name (join "-" uuid) ]) ≡ true
unfolding is_job_id
named-is_job_id uuid none ok hex = ground (arith, hex)
named-is_job_id uuid (some name) ok hex =
    is_job_id-split (join name (join "-" uuid)) (codes name) (codes uuid)
      (codes-join name (join "-" uuid) ∙ ap (λ l. codes name ++ l) (codes-join "-" uuid)) ok hex

-- The id that a new job is given is one that the service's paths match.
pub job_name-is_job_id :
    (e : Env) (s : Store)
    → InstanceOk s.instance_id
    → is_hex32 (codes e.uuid) ≡ true
    → is_job_id (job_name e s) ≡ true
unfolding job_name
job_name-is_job_id e s ok hex = named-is_job_id e.uuid s.instance_id ok hex

-- With a well-formed instance name or none, and 32 hexadecimal digits from the system: the paths that a client
-- makes of a new job's id are read back as that id, the job's own path and that of its cancellation.
pub job_name-paths :
    (e : Env) (s : Store)
    → InstanceOk s.instance_id
    → is_hex32 (codes e.uuid) ≡ true
    → (job_path (join "/v1/jobs/" (job_name e s)) ≡ some (job_name e s))
      × (cancel_path (join "/v1/jobs/" (join (job_name e s) "/cancel")) ≡ some (job_name e s))
job_name-paths e s ok hex =
    let good = job_name-is_job_id e s ok hex in
    (
      (paths_iff (join "/v1/jobs/" (job_name e s)) (job_name e s)).0.1 (refl, good),
      (paths_iff (join "/v1/jobs/" (join (job_name e s) "/cancel")) (job_name e s)).1.1
          (refl, good),
    )
