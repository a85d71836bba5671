-- ===== src/Jobs/Steps/Index.antt =====
-- `_keys` after a job's key was added or dropped.
use php_python_ai_bridge.Base.{
  ◌≡◌, inl, inr, ◌⊎◌, List, none, some, String, arith, Option-cases, string_eq, string_beq_iff,
  pair_eq, lookup, lookup-insert, lookup-discard,
}
use php_python_ai_bridge.Jobs.Types.{Job}
use php_python_ai_bridge.Jobs.Steps.{drop_key, add_key, known, key_of}

pub lookup-drop_key :
    (j : Job) (o k : String) (keys : List ((String × String) × String)) (i : String)
    → lookup (o, k) (drop_key j keys) ≡ some i
    → (lookup (o, k) keys ≡ some i) × ¬ ((j.owner ≡ o) × (j.key ≡ some k))
unfolding drop_key
lookup-drop_key j o k keys i h = elim (Option-cases j.key) [
  | inl unkeyed ↦ (ground arith, λ both. ground arith)
  | inr (l, keyed) ↦ (
    ground (
      arith,
      lookup-discard (j.owner, l) (o, k) keys,
      string_beq_iff j.owner o,
      string_beq_iff l k,
    ),
    λ both. ground (
      arith,
      both.0,
      both.1,
      lookup-discard (j.owner, l) (o, k) keys,
      string_beq_iff j.owner o,
      string_beq_iff l k,
    ),
  )
]

pub lookup-drop_key_other :
    (j : Job) (o k : String) (keys : List ((String × String) × String)) (i : String)
    → lookup (o, k) keys ≡ some i
    → (j.owner ≡ o → j.key ≡ some k → ⊥)
    → lookup (o, k) (drop_key j keys) ≡ some i
unfolding drop_key
lookup-drop_key_other j o k keys i h other = elim (Option-cases j.key) [
  | inl unkeyed ↦ ground arith
  | inr (l, keyed) ↦
      ground (
        arith,
        lookup-discard (j.owner, l) (o, k) keys,
        string_beq_iff j.owner o,
        string_beq_iff l k,
      )
]

pub lookup-add_key :
    (j : Job) (o k : String) (keys : List ((String × String) × String)) (i : String)
    → lookup (o, k) (add_key j keys) ≡ some i
    → (j.owner ≡ o) × (j.key ≡ some k) × (i ≡ j.id) ⊎ (lookup (o, k) keys ≡ some i)
unfolding add_key
lookup-add_key j o k keys i h = elim (Option-cases j.key) [
  | inl unkeyed ↦ inr (ground arith)
  | inr (l, keyed) ↦ ground (
    arith,
    lookup-insert (j.owner, l) (o, k) j.id keys,
    string_beq_iff j.owner o,
    string_beq_iff l k,
  )
]

pub lookup-add_key_self :
    (j : Job) (k : String) (keys : List ((String × String) × String))
    → j.key ≡ some k
    → lookup (j.owner, k) (add_key j keys) ≡ some j.id
unfolding add_key
lookup-add_key_self j k keys h = ground (
  arith,
  lookup-insert (j.owner, k) (j.owner, k) j.id keys,
  string_beq_iff j.owner j.owner,
  string_beq_iff k k,
)

pub lookup-add_key_other :
    (j : Job) (o k : String) (keys : List ((String × String) × String)) (i : String)
    → key_of j keys ≡ none
    → lookup (o, k) keys ≡ some i
    → lookup (o, k) (add_key j keys) ≡ some i
unfolding add_key known
lookup-add_key_other j o k keys i first h = elim (Option-cases j.key) [
  | inl unkeyed ↦ ground arith
  | inr (l, keyed) ↦ ground (
    arith,
    lookup-insert (j.owner, l) (o, k) j.id keys,
    string_beq_iff j.owner o,
    string_beq_iff l k,
  )
]
