-- ===== src/Mcp/Index/Chunks/Words.antt =====
-- The searches that `chunk_text` of mcp_server/bridge_mcp/index.py makes for words and for space.
use php_python_ai_bridge.Base.{
  ℕ, zero, suc, ◌≡◌, ◌≤◌, ◌<◌, ◌⊎◌, inl, inr, refl, ap, Bool, true, false, List, [], ◌∷◌, Option,
  none, some, ltb, leb, arith, length, is_space, ◌∙◌, if_ind, ◌&&◌, ◌-◌,
}
use php_python_ai_bridge.Mcp.Index.Chunks.{
  has_at, is_word, next_place, search, skip_space, last_space_loop, last_space, trim_end,
}

pub has_at-length :
    (p : ℕ → Bool) (text : List ℕ) (i : ℕ) → has_at p text i ≡ true → i < length text
has_at-length p [] i h = ground (arith, h)
has_at-length p (c ∷ cs) zero h = omega arith
has_at-length p (c ∷ cs) (suc i) h = omega (arith, has_at-length p cs i h)

word_not_space :
    (text : List ℕ) (i : ℕ) → has_at is_word text i ≡ true → has_at is_space text i ≡ false
unfolding is_word
word_not_space [] i h = refl
word_not_space (c ∷ cs) zero h = ground (arith, h)
word_not_space (c ∷ cs) (suc i) h = word_not_space cs i h

space_not_word :
    (text : List ℕ) (i : ℕ) → has_at is_space text i ≡ true → has_at is_word text i ≡ false
unfolding is_word
space_not_word [] i h = refl
space_not_word (c ∷ cs) zero h = ground (arith, h)
space_not_word (c ∷ cs) (suc i) h = space_not_word cs i h

-- No position from `i` up to below `j` has the property.
abbrev pub HasNone : (ℕ → Bool) → List ℕ → ℕ → ℕ → Type 0
HasNone p text i j = (k : ℕ) → i ≤ k → k < j → has_at p text k ≡ false

-- The place that a search from `i` on stops at, or the end of the text.
abbrev StopsAt : (ℕ → Bool) → List ℕ → ℕ → Option ℕ → Type 0
StopsAt p text i none = HasNone p text i (length text)
StopsAt p text i (some j) = (i ≤ j) × (has_at p text j ≡ true) × HasNone p text i j

module _ (p : ℕ → Bool) (c : ℕ) (cs : List ℕ) where
  HasNone-later : (i j : ℕ) → HasNone p cs i j → HasNone p (c ∷ cs) (suc i) (suc j)
  HasNone-later i j h zero lo hi = absurd (omega (arith, lo))
  HasNone-later i j h (suc k) lo hi = h k (omega (arith, lo)) (omega (arith, hi))

  HasNone-first : (j : ℕ) → p c ≡ false → HasNone p (c ∷ cs) 1 j → HasNone p (c ∷ cs) 0 j
  HasNone-first j h later zero lo hi = h
  HasNone-first j h later (suc k) lo hi = later (suc k) (omega arith) hi

  StopsAt-later :
      (i : ℕ) (o : Option ℕ) → StopsAt p cs i o → StopsAt p (c ∷ cs) (suc i) (next_place o)
  StopsAt-later i none h = HasNone-later i (length cs) h
  StopsAt-later i (some j) h = (omega (arith, h.0), h.1, HasNone-later i j h.2)

  StopsAt-first :
      (o : Option ℕ) → p c ≡ false → StopsAt p cs 0 o → StopsAt p (c ∷ cs) 0 (next_place o)
  StopsAt-first none h k = HasNone-first (suc (length cs)) h (HasNone-later 0 (length cs) k)
  StopsAt-first (some j) h k = (omega arith, k.1, HasNone-first (suc j) h (HasNone-later 0 j k.2))

search-StopsAt : (p : ℕ → Bool) (text : List ℕ) (i : ℕ) → StopsAt p text i (search p text i)
unfolding search
search-StopsAt p [] i = λ k lo hi. refl
search-StopsAt p (c ∷ cs) (suc i) = StopsAt-later p c cs i _ (search-StopsAt p cs i)
search-StopsAt p (c ∷ cs) zero =
    if_ind (StopsAt p (c ∷ cs) 0) (p c)
      (λ here. (omega arith, here, λ k lo hi. absurd (omega (arith, hi))))
      (λ later. StopsAt-first p c cs (search p cs 0) later (search-StopsAt p cs 0))

-- Only white space is skipped, and what is stopped at is a word or the end.
abbrev IsSkipped : List ℕ → ℕ → ℕ → Type 0
IsSkipped text i j =
    (i ≤ j) × HasNone is_word text i j × ((j < length text) → has_at is_word text j ≡ true)

place_or_end : (text : List ℕ) → Option ℕ → ℕ
place_or_end text none = length text
place_or_end text (some j) = j

StopsAt-IsSkipped :
    (text : List ℕ) (i : ℕ) (o : Option ℕ)
    → i ≤ length text
    → StopsAt is_word text i o
    → IsSkipped text i (elim o [ none ↦ length text | some j ↦ j ])
StopsAt-IsSkipped text i none le h = (le, h, λ lt. absurd (omega (arith, lt)))
StopsAt-IsSkipped text i (some j) le h = (h.0, h.2, λ lt. h.1)

pub skip_space-IsSkipped :
    (text : List ℕ) (i : ℕ) → i ≤ length text → IsSkipped text i (skip_space text i)
unfolding skip_space
skip_space-IsSkipped text i le = StopsAt-IsSkipped text i _ le (search-StopsAt is_word text i)

abbrev IsBetween : ℕ → ℕ → Option ℕ → Type 0
IsBetween low high none = Unit
IsBetween low high (some j) = (low ≤ j) × (j ≤ high)

last_space_loop-IsBetween :
    (low high i : ℕ) (text : List ℕ) (last : Option ℕ)
    → IsBetween low high last
    → IsBetween low high (last_space_loop low high i text last)
unfolding last_space_loop
last_space_loop-IsBetween low high i [] last h = h
last_space_loop-IsBetween low high i (c ∷ cs) last h =
    last_space_loop-IsBetween low high (suc i) cs _ (
      if_ind (IsBetween low high) (leb low i && leb i high && is_space c)
        (λ found. (ground arith, ground arith)) (λ _. h))

-- A window's end before it is trimmed, where the text goes on behind the window.
pub cut-between :
    (text : List ℕ) (low high : ℕ)
    → low ≤ high
    → (low ≤ elim (last_space text low high) [ none ↦ high | some cut ↦ cut ])
      × (elim (last_space text low high) [ none ↦ high | some cut ↦ cut ] ≤ high)
unfolding last_space
cut-between text low high le =
    chosen (last_space_loop low high 0 text none)
      (last_space_loop-IsBetween low high 0 text none tt)
  where
    chosen :
        (o : Option ℕ)
        → IsBetween low high o
        → (low ≤ elim o [ none ↦ high | some cut ↦ cut ])
          × (elim o [ none ↦ high | some cut ↦ cut ] ≤ high)
    chosen none h = (le, omega arith)
    chosen (some j) h = h

-- What a trim from `e` leaves: a word at its end, and nothing but white space cut off.
abbrev IsTrimmed : List ℕ → ℕ → ℕ → ℕ → Type 0
IsTrimmed text start e stop =
    (start < stop)
    × (stop ≤ e)
    × (has_at is_space text (stop - 1) ≡ false)
    × HasNone is_word text stop e

last_or_before : (j e : ℕ) → j < suc e → (j ≡ e) ⊎ (j < e)
last_or_before j e hi = ground (arith, hi)

-- A position that holds a word is before one that holds white space, if it is not behind it.
word_before_space :
    (text : List ℕ) (start e : ℕ)
    → start < suc e
    → has_at is_word text start ≡ true
    → has_at is_space text e ≡ true
    → start < e
word_before_space text start e lt word blank = elim (last_or_before start e lt) [
  | inr before ↦ before
  | inl same ↦
      absurd (ground (arith, word, space_not_word text e blank, ap (has_at is_word text) same))
]

IsTrimmed-suc :
    (text : List ℕ) (start e stop : ℕ)
    → has_at is_space text e ≡ true
    → IsTrimmed text start e stop
    → IsTrimmed text start (suc e) stop
IsTrimmed-suc text start e stop h k = (
  k.0,
  omega (arith, k.1),
  k.2,
  λ j lo hi. elim (last_or_before j e hi) [
    | inl same ↦ ap (has_at is_word text) same ∙ space_not_word text e h
    | inr before ↦ k.3 j lo before
  ],
)

pub trim_end-IsTrimmed :
    (text : List ℕ) (start e : ℕ)
    → start < e
    → has_at is_word text start ≡ true
    → IsTrimmed text start e (trim_end text start e)
unfolding trim_end
trim_end-IsTrimmed text start zero lt word = absurd (omega (arith, lt))
trim_end-IsTrimmed text start (suc e) lt word =
    if_ind (IsTrimmed text start (suc e)) (ltb start (suc e) && has_at is_space text e)
      (λ blank.
        let space : has_at is_space text e ≡ true = ground (arith, blank) in
        IsTrimmed-suc text start e _ space
          (trim_end-IsTrimmed text start e (word_before_space text start e lt word space) word))
      (λ kept.
        (lt, omega arith, ground (arith, kept, lt), λ k lo hi. absurd (omega (arith, lo, hi))))
